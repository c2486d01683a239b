-- ===== src/Sources/Install.antt =====
-- ludus-api/source_install.go, source_sync.go and blueprint_resolver.go: what an install of a source
-- registers, the ledger of claims (`source_artifacts`), and the status that it leaves. Copying the
-- files of an artifact and making its row of the templates are parameters.
use ludus.Prelude.{
  ℕ, Bool, true, false, not, ◌&&◌, ◌||◌, Option, none, some, List, [], ◌∷◌, ◌++◌, eqb,
  if◌then◌else◌,
}
use ludus.Prelude.Text.{Text, codes, contains_text, is_empty, text_eq}
use ludus.Sources.{
  Checkout, base_name, template_name_for_dir, role_galaxy_name, local_role_name, collection_fqcn,
}
use ludus.Sources.Selection.{InstallSelection}

pub data ArtifactKind : Type 0 where
  template : ArtifactKind
  local_role : ArtifactKind
  local_collection : ArtifactKind
  galaxy_role : ArtifactKind
  collection : ArtifactKind
  subscription_role : ArtifactKind

abbrev kind_number : ArtifactKind → ℕ
kind_number template = 0
kind_number local_role = 1
kind_number local_collection = 2
kind_number galaxy_role = 3
kind_number collection = 4
kind_number subscription_role = 5

unfoldable pub kind_eq : ArtifactKind → ArtifactKind → Bool
kind_eq k l = eqb (kind_number k) (kind_number l)

pub record Artifact : Type 0 where
  pub source : Text
  pub kind : ArtifactKind
  pub name : Text
  pub version : Text

unfoldable pub is_claim : Text → ArtifactKind → Text → Artifact → Bool
unfolding kind_eq text_eq
is_claim source kind name a =
    text_eq a.source source && (kind_eq a.kind kind && text_eq a.name name)

-- Which operations on the ledger succeed, and the errors of an installation.
pub record InstallWorld : Type 0 where
  pub has_collection : Bool
  pub can_query : Bool
  pub can_save : Artifact → Bool
  pub can_delete : Artifact → Bool
  pub install_template_dir : Text → Bool → Option Text
  pub ensure_template_row : Text → Text → Bool → Option Text
  pub add_local_role_from_directory : Text → Text → Option Text
  pub add_local_collection_from_directory : Text → Option Text

unfoldable pub has_claim : Text → ArtifactKind → Text → List Artifact → Bool
unfolding is_claim
has_claim source kind name [] = false
has_claim source kind name (a ∷ ledger) =
    if is_claim source kind name a then true else has_claim source kind name ledger

-- The first record that is found gets the version, if it has another one.
unfoldable pub set_version :
    InstallWorld → Text → ArtifactKind → Text → Text → List Artifact → List Artifact
unfolding is_claim
set_version w source kind name version [] = []
set_version w source kind name version (a ∷ ledger) =
    let rest = set_version w source kind name version ledger in
    let changed : Artifact = record a { version = version } in
    if is_claim source kind name a
    then (if not (text_eq a.version version) && w.can_save changed then changed else a) ∷ ledger
    else a ∷ rest

unfoldable pub insert_source_artifact :
    InstallWorld → Text → ArtifactKind → Text → Text → List Artifact → List Artifact
unfolding has_claim set_version
insert_source_artifact w source kind name version ledger =
    let row : Artifact = record { source = source; kind = kind; name = name; version = version } in
    if not w.has_collection
    then ledger
    else if w.can_query && has_claim source kind name ledger
    then set_version w source kind name version ledger
    else if w.can_save row
    then ledger ++ row ∷ []
    else ledger

unfoldable pub delete_claims : InstallWorld → ArtifactKind → Text → List Artifact → List Artifact
unfolding kind_eq text_eq
delete_claims w kind name [] = []
delete_claims w kind name (a ∷ ledger) =
    let rest = delete_claims w kind name ledger in
    if kind_eq a.kind kind && text_eq a.name name && w.can_delete a then rest else a ∷ rest

unfoldable pub release_source_claims :
    InstallWorld → List ArtifactKind → Text → List Artifact → List Artifact
unfolding delete_claims
release_source_claims w [] name ledger = ledger
release_source_claims w (kind ∷ kinds) name ledger =
    release_source_claims w kinds name
      (if w.can_query then delete_claims w kind name ledger else ledger)

-- The result of an artifact: its message where it is not OK.
pub record ArtifactResult : Type 0 where
  pub artifact : Text
  pub message : Option Text

abbrev pub Registered : Type 0
Registered = List ArtifactResult × List Artifact

-- One artifact that is selected: a failed installation is a result, and one that succeeds is claimed.
unfoldable pub register :
    InstallWorld
    → Text
    → ArtifactKind
    → Text
    → Option Text
    → List Artifact
    → ArtifactResult × List Artifact
unfolding insert_source_artifact
register w source kind name (some message) ledger =
    (record { artifact = name; message = some message }, ledger)
register w source kind name none ledger = (
  record { artifact = name; message = none },
  insert_source_artifact w source kind name [] ledger,
)

abbrev pub first_error : Option Text → Option Text → Option Text
first_error (some message) later = some message
first_error none later = later

unfoldable pub register_templates :
    Checkout
    → InstallWorld
    → Text
    → Bool
    → InstallSelection
    → List Text
    → List Artifact
    → Registered
unfolding template_name_for_dir register contains_text
register_templates c w source force sel [] ledger = ([], ledger)
register_templates c w source force sel (dir ∷ dirs) ledger =
    let name = template_name_for_dir c dir in
    let failure =
      first_error (w.install_template_dir dir force) (w.ensure_template_row name dir force) in
    let (result, ledger') = register w source template name failure ledger in
    let picked = contains_text sel.templates name in
    let rest = register_templates c w source force sel dirs (if picked then ledger' else ledger) in
    (if picked then result ∷ rest.0 else rest.0, rest.1)

unfoldable pub register_local_roles :
    Checkout → InstallWorld → Text → InstallSelection → List Text → List Artifact → Registered
unfolding local_role_name register contains_text
register_local_roles c w source sel [] ledger = ([], ledger)
register_local_roles c w source sel (dir ∷ dirs) ledger =
    let name = local_role_name c dir in
    let (result, ledger') =
      register w source local_role name (w.add_local_role_from_directory dir name) ledger in
    let picked = contains_text sel.local_roles name in
    let rest = register_local_roles c w source sel dirs (if picked then ledger' else ledger) in
    (if picked then result ∷ rest.0 else rest.0, rest.1)

-- `has_base` says whether there is a directory to install into. Both errors of galaxy.yml have one
-- message here.
unfoldable pub collection_error : InstallWorld → Bool → Text → Option Text
collection_error w has_base dir =
    if has_base
    then w.add_local_collection_from_directory dir
    else some (codes "no initiating user for collection install")

-- A directory, with the name that galaxy.yml gives it.
unfoldable pub register_collection :
    InstallWorld → Text → Bool → InstallSelection → Text → Option Text → List Artifact → Registered
unfolding collection_error register contains_text
register_collection w source has_base sel dir none ledger =
    (record { artifact = base_name dir; message = some (codes "galaxy.yml") } ∷ [], ledger)
register_collection w source has_base sel dir (some fqcn) ledger =
    let (result, ledger') =
      register w source local_collection fqcn (collection_error w has_base dir) ledger in
    if contains_text sel.local_collections fqcn then (result ∷ [], ledger') else ([], ledger)

unfoldable pub register_local_collections :
    Checkout
    → InstallWorld
    → Text
    → Bool
    → InstallSelection
    → List Text
    → List Artifact
    → Registered
unfolding collection_fqcn register_collection
register_local_collections c w source has_base sel [] ledger = ([], ledger)
register_local_collections c w source has_base sel (dir ∷ dirs) ledger =
    let one = register_collection w source has_base sel dir (collection_fqcn c dir) ledger in
    let rest = register_local_collections c w source has_base sel dirs one.1 in
    (one.0 ++ rest.0, rest.1)

-- The names of `installUnionedAnsible` that are stripped from the requirements.
unfoldable pub vendored_roles : Checkout → List Text → List Text
unfolding role_galaxy_name base_name
vendored_roles c [] = []
vendored_roles c (dir ∷ dirs) =
    let base = base_name dir in
    let gname = role_galaxy_name c dir base in
    let rest = vendored_roles c dirs in
    if is_empty gname || text_eq gname base then base ∷ rest else base ∷ gname ∷ rest

-- A result of Galaxy or of the subscription, with its error where it is not OK.
pub record AnsibleInstallResult : Type 0 where
  pub result_type : Text
  pub result_name : Text
  pub result_version : Text
  pub failure : Option Text

unfoldable pub artifact_failures : Text → List ArtifactResult → List Text
artifact_failures label [] = []
artifact_failures label (r ∷ rs) = elim r.message [
  | none ↦ artifact_failures label rs
  | some message ↦
      (label ++ codes " " ++ r.artifact ++ codes ": " ++ message) ∷ artifact_failures label rs
]

unfoldable pub ansible_failures : List AnsibleInstallResult → List Text
ansible_failures [] = []
ansible_failures (r ∷ rs) = elim r.failure [
  | none ↦ ansible_failures rs
  | some message ↦
      ((if is_empty r.result_type then codes "role" else r.result_type)
        ++ codes " "
        ++ r.result_name
        ++ codes ": "
        ++ message)
      ∷ ansible_failures rs
]

unfoldable pub collect_artifact_failures :
    List ArtifactResult → List ArtifactResult → List AnsibleInstallResult → List Text
unfolding artifact_failures ansible_failures
collect_artifact_failures templates local_roles roles =
    artifact_failures (codes "template") templates
    ++ artifact_failures (codes "local_role") local_roles
    ++ ansible_failures roles
