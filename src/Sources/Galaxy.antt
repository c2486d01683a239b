-- ===== src/Sources/Galaxy.antt =====
-- ludus-api/blueprint_resolver.go and source_install.go: the requirements of the selected blueprints.
-- The runs of ansible-galaxy, the copy of a role and the subscription's downloads are parameters.
use ludus.Prelude.{
  Bool, true, false, not, ◌&&◌, ◌||◌, Option, none, some, List, [], ◌∷◌, ◌++◌, if◌then◌else◌,
}
use ludus.Prelude.Text.{Text, codes, is_empty, text_eq}
use ludus.Sources.{
  Checkout, WalkedBlueprint, WalkedSource, Names, base_name, role_galaxy_name,
  vendored_collection_fqcns,
}
use ludus.Sources.Requirements.{no_texts, declared_from_requirements, filter_requirements}
use ludus.Sources.Selection.{InstallSelection, is_selected}
use ludus.Sources.Install.{
  ArtifactKind, galaxy_role, collection, subscription_role, Artifact, InstallWorld,
  insert_source_artifact, vendored_roles, AnsibleInstallResult,
}

-- A run of ansible-galaxy: its results, and its error. The mismatches of versions are those that
-- `detectGalaxyVersionMismatches` marks.
pub record GalaxyRun : Type 0 where
  pub run_results : List AnsibleInstallResult
  pub run_error : Option Text

pub record GalaxyWorld : Type 0 where
  pub license_valid : Bool
  pub catalog : List Text
  pub install_roles : Text → GalaxyRun
  pub version_mismatches : List AnsibleInstallResult → Text → List AnsibleInstallResult
  pub install_collections : Text → GalaxyRun
  pub install_subscription_role : Text → Option Text
  pub add_vendored_role : Text → Text → Option Text
  pub role_version : Text → Text

abbrev pub Installed : Type 0
Installed = List AnsibleInstallResult × List Artifact

-- Whether a list of the requirements has an entry; a file that does not parse counts as read so far
-- for roles, and as empty for collections.
unfoldable pub has_requirements_roles : Checkout → Text → Bool
has_requirements_roles c requirements =
    if is_empty requirements
    then false
    else elim (c.unmarshal_requirements requirements).1.roles [ [] ↦ false | r ∷ rs ↦ true ]

unfoldable pub has_requirements_collections : Checkout → Text → Bool
has_requirements_collections c requirements =
    if is_empty requirements || not (c.unmarshal_requirements requirements).0
    then false
    else elim (c.unmarshal_requirements requirements).1.collections [ [] ↦ false | r ∷ rs ↦ true ]

-- `vendoredRoleGalaxy`: the directory of a published name, the entry that was set last in front.
unfoldable pub add_galaxy_names : Checkout → Names → List Text → Names
unfolding role_galaxy_name base_name
add_galaxy_names c names [] = names
add_galaxy_names c names (dir ∷ dirs) =
    let base = base_name dir in
    let gname = role_galaxy_name c dir base in
    add_galaxy_names c
      (if is_empty gname || text_eq gname base then names else (gname, dir) ∷ names) dirs

unfoldable pub dir_of_name : Names → Text → Option Text
unfolding text_eq
dir_of_name [] name = none
dir_of_name ((key, dir) ∷ names) name =
    if text_eq key name then some dir else dir_of_name names name

-- A result, with its claim if it is OK.
unfoldable pub claim_result :
    InstallWorld → Text → ArtifactKind → Bool → AnsibleInstallResult → List Artifact → List Artifact
unfolding insert_source_artifact
claim_result w source kind named r ledger = elim r.failure [
  | some message ↦ ledger
  | none ↦
      if named && is_empty r.result_name
      then ledger
      else insert_source_artifact w source kind r.result_name r.result_version ledger
]

-- The loop over results, which sets their type. Collections without a name are not claimed.
unfoldable pub claim_results :
    InstallWorld
    → Text
    → ArtifactKind
    → Text
    → Bool
    → List AnsibleInstallResult
    → List Artifact
    → Installed
unfolding claim_result
claim_results w source kind label named [] ledger = ([], ledger)
claim_results w source kind label named (r ∷ rs) ledger =
    let (more, ledger') =
      claim_results w source kind label named rs (claim_result w source kind named r ledger) in
    (record r { result_type = label } ∷ more, ledger')

abbrev failed_result : Text → Text → Text → AnsibleInstallResult
failed_result label name message = record {
  result_type = label;
  result_name = name;
  result_version = [];
  failure = some message;
}

abbrev installed_result : Text → Text → Text → AnsibleInstallResult
installed_result label name version = record {
  result_type = label;
  result_name = name;
  result_version = version;
  failure = none;
}

-- The role of one required name, from its directory.
abbrev pub vendored_result : GalaxyWorld → Text → Text → AnsibleInstallResult
vendored_result g dir name = elim (g.add_vendored_role dir name) [
  | some message ↦ failed_result (codes "role") name message
  | none ↦ installed_result (codes "role") name (g.role_version dir)
]

unfoldable pub install_vendored_galaxy_roles :
    GalaxyWorld → InstallWorld → Text → Names → List Text → List Artifact → Installed
unfolding dir_of_name claim_result
install_vendored_galaxy_roles g w source vendored [] ledger = ([], ledger)
install_vendored_galaxy_roles g w source vendored (name ∷ names) ledger =
    elim (dir_of_name vendored name) [
      | none ↦ install_vendored_galaxy_roles g w source vendored names ledger
      | some dir ↦
          (let r = vendored_result g dir name in
            let (more, ledger') =
              install_vendored_galaxy_roles g w source vendored names
                (claim_result w source galaxy_role false r ledger) in
            (r ∷ more, ledger'))
    ]

-- An error without results is a result.
abbrev error_of : Text → GalaxyRun → List AnsibleInstallResult
error_of label run = elim run.run_results [
  | [] ↦ elim run.run_error [ none ↦ [] | some message ↦ failed_result label [] message ∷ [] ]
  | r ∷ rs ↦ []
]

-- The roles and the collections that are left for Galaxy.
unfoldable pub install_galaxy_roles :
    Checkout → GalaxyWorld → InstallWorld → Text → Text → List Artifact → Installed
unfolding has_requirements_roles claim_results
install_galaxy_roles c g w source requirements ledger =
    let run = g.install_roles requirements in
    let claimed =
      claim_results w source galaxy_role (codes "role") false
        (g.version_mismatches run.run_results requirements) ledger in
    if has_requirements_roles c requirements
    then (error_of (codes "role") run ++ claimed.0, claimed.1)
    else ([], ledger)

unfoldable pub install_galaxy_collections :
    Checkout → GalaxyWorld → InstallWorld → Text → Text → List Artifact → Installed
unfolding has_requirements_collections claim_results
install_galaxy_collections c g w source requirements ledger =
    let run = g.install_collections requirements in
    let claimed =
      claim_results w source collection (codes "collection") true run.run_results ledger in
    if has_requirements_collections c requirements
    then (error_of (codes "collection") run ++ claimed.0, claimed.1)
    else ([], ledger)

abbrev pub subscription_result : GalaxyWorld → Text → AnsibleInstallResult
subscription_result g name = elim (g.install_subscription_role name) [
  | some message ↦ failed_result (codes "subscription_role") name message
  | none ↦ installed_result (codes "subscription_role") name []
]

unfoldable pub install_subscription_roles :
    GalaxyWorld → InstallWorld → Text → List Text → List Artifact → Installed
unfolding claim_result
install_subscription_roles g w source [] ledger = ([], ledger)
install_subscription_roles g w source (name ∷ names) ledger =
    let r = subscription_result g name in
    let (more, ledger') =
      install_subscription_roles g w source names
        (claim_result w source subscription_role false r ledger) in
    (r ∷ more, ledger')

-- What `installUnionedAnsible` hands on to each blueprint.
pub record Vendored : Type 0 where
  pub vendored_role_names : List Text
  pub vendored_role_galaxy : Names
  pub vendored_collection_names : List Text

unfoldable pub vendored_by : Checkout → WalkedSource → Vendored
unfolding vendored_roles add_galaxy_names vendored_collection_fqcns
vendored_by c walked = record {
  vendored_role_names = vendored_roles c walked.local_roles;
  vendored_role_galaxy = add_galaxy_names c [] walked.local_roles;
  vendored_collection_names = vendored_collection_fqcns c walked;
}

-- The error when a blueprint declares subscription roles that cannot be had.
unfoldable pub subscription_failure : GalaxyWorld → List Text → Option AnsibleInstallResult
subscription_failure g declared =
    if no_texts declared
    then none
    else if not g.license_valid
    then some (failed_result (codes "subscription_role") [] (codes "no valid license"))
    else if no_texts g.catalog
    then some (
        failed_result (codes "subscription_role") []
          (codes "the live subscription catalog is empty"))
    else none

-- Without what the source vendors; the file itself where it cannot be printed again.
unfoldable pub galaxy_requirements : Checkout → Vendored → Text → Text
unfolding filter_requirements
galaxy_requirements c v requirements =
    elim (filter_requirements c requirements v.vendored_role_names v.vendored_collection_names) [
      | some filtered ↦ filtered
      | none ↦ requirements
    ]

-- For a blueprint of a source, whose results are claimed for it. The error texts are shortened.
unfoldable pub install_roles_for_blueprint :
    Checkout
    → GalaxyWorld
    → InstallWorld
    → Text
    → Vendored
    → WalkedBlueprint
    → List Artifact
    → Installed
unfolding declared_from_requirements subscription_failure galaxy_requirements
    install_vendored_galaxy_roles install_galaxy_roles install_galaxy_collections
    install_subscription_roles
install_roles_for_blueprint c g w source v bp ledger =
    let declared = declared_from_requirements c bp.requirements_yaml in
    let requirements = galaxy_requirements c v bp.requirements_yaml in
    let local =
      install_vendored_galaxy_roles g w source v.vendored_role_galaxy declared.roles ledger in
    let roles = install_galaxy_roles c g w source requirements local.1 in
    let collections = install_galaxy_collections c g w source requirements roles.1 in
    let subscription =
      install_subscription_roles g w source declared.subscription_roles collections.1 in
    elim (subscription_failure g declared.subscription_roles) [
      | some r ↦ (r ∷ [], ledger)
      | none ↦ (local.0 ++ roles.0 ++ collections.0 ++ subscription.0, subscription.1)
    ]

unfoldable pub install_for_blueprints :
    Checkout
    → GalaxyWorld
    → InstallWorld
    → Text
    → Vendored
    → InstallSelection
    → List WalkedBlueprint
    → List Artifact
    → Installed
unfolding install_roles_for_blueprint is_selected
install_for_blueprints c g w source v sel [] ledger = ([], ledger)
install_for_blueprints c g w source v sel (bp ∷ bps) ledger =
    let one = install_roles_for_blueprint c g w source v bp ledger in
    let done = if is_selected sel bp then one else ([], ledger) in
    let rest = install_for_blueprints c g w source v sel bps done.1 in (done.0 ++ rest.0, rest.1)

unfoldable pub install_unioned_ansible :
    Checkout
    → GalaxyWorld
    → InstallWorld
    → Text
    → WalkedSource
    → InstallSelection
    → List Artifact
    → Installed
unfolding vendored_by install_for_blueprints
install_unioned_ansible c g w source walked sel ledger =
    install_for_blueprints c g w source (vendored_by c walked) sel walked.blueprints ledger
