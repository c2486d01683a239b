-- ===== src/Sources.antt =====
-- ludus-api/source_walker.go, source_roles.go, source_schema.go, source_catalog.go and
-- ansible_inventory.go: what the walk of a source's checkout gives, and the names of its artifacts.
pub mod Requirements
pub mod Selection
pub mod Install
pub mod Rows
pub mod Owned
pub mod Distinct
pub mod Required
pub mod Within
pub mod Available
pub mod Covered
pub mod Ledger
pub mod Sync
pub mod Walk
pub mod Fetch
pub mod Swapped
pub mod Versions
pub mod Galaxy
pub mod Operators
pub mod Located
pub mod Registered
pub mod Kept
pub mod Grants
mod Tests
mod WalkTests
mod FetchTests
use ludus.Prelude.{
  ℕ, Bool, true, false, not, ◌&&◌, ◌||◌, Option, none, some, List, [], ◌∷◌, ◌++◌, map, leb, ltb,
  eqb, if◌then◌else◌,
}
use ludus.Prelude.Text.{Text, codes, contains_text, is_empty, split, text_eq, trim_space}
use ludus.Archive.{join_path, slash}

pub record RequirementsRole : Type 0 where
  pub name : Text
  pub src : Text
  pub version : Text
  pub scm : Text

pub record RequirementsCollection : Type 0 where
  pub name : Text
  pub version : Text
  pub source : Text
  pub kind : Text

-- The subscription roles are their names.
pub record RequirementsDoc : Type 0 where
  pub roles : List RequirementsRole
  pub collections : List RequirementsCollection
  pub subscription_roles : List Text

abbrev pub no_requirements : RequirementsDoc
no_requirements = record { roles = []; collections = []; subscription_roles = [] }

-- A node of the `roles` of a VM; in a mapping, a value that is not a scalar is `none`.
pub data RoleNode : Type 0 where
  scalar : Text → RoleNode
  mapping : List (Text × Option Text) → RoleNode
  other_node : RoleNode

pub record RangeConfigVm : Type 0 where
  pub template : Text
  pub roles : List RoleNode

pub record RoleGalaxyMeta : Type 0 where
  pub role_name : Text
  pub namespace : Text
  pub author : Text

pub record GalaxyManifest : Type 0 where
  pub namespace : Text
  pub name : Text

-- The files of the checkout, and the YAML and HCL parsers. `none` is an error. The parser of
-- requirements.yml also gives what it has read when it fails; the first component is whether it succeeds.
pub record Checkout : Type 0 where
  pub read_file : Text → Option Text
  pub find_packer_files : Text → Option (List Text)
  pub extract_template_name : Text → Option Text
  pub unmarshal_requirements : Text → Bool × RequirementsDoc
  pub marshal_requirements : RequirementsDoc → Option Text
  pub unmarshal_range_config : Text → Option (List RangeConfigVm)
  pub unmarshal_role_meta : Text → Option RoleGalaxyMeta
  pub parse_galaxy_manifest : Text → Option GalaxyManifest

pub record BlueprintManifest : Type 0 where
  pub id : Text
  pub name : Text
  pub description : Text
  pub version : Text
  pub tags : List Text
  pub min_ludus_version : Text

pub record WalkedBlueprint : Type 0 where
  pub dir : Text
  pub manifest : Option BlueprintManifest
  pub config_path : Text
  pub requirements_yaml : Text
  pub thumbnail_path : Text

pub record WalkedSource : Type 0 where
  pub blueprints : List WalkedBlueprint
  pub templates : List Text
  pub local_roles : List Text
  pub local_collections : List Text

-- The last segment that is not empty.
abbrev pub last_element : Text → List Text → Text
last_element found [] = found
last_element found (s ∷ ss) = last_element (if is_empty s then found else s) ss

-- `filepath.Base`
unfoldable pub base_name : Text → Text
unfolding split
base_name path =
    if is_empty path
    then codes "."
    else (let name = last_element [] (split slash [] path) in
        if is_empty name then slash ∷ [] else name)

unfoldable pub template_name_for_dir : Checkout → Text → Text
unfolding base_name
template_name_for_dir c dir = elim (c.find_packer_files dir) [
  | none ↦ base_name dir
  | some [] ↦ base_name dir
  | some (file ∷ files) ↦ elim (c.extract_template_name file) [
    | none ↦ base_name dir
    | some name ↦ if is_empty name then base_name dir else name
  ]
]

abbrev pub is_token_character : ℕ → Bool
is_token_character c =
    (leb b'a' c && leb c b'z')
    || (leb b'A' c && leb c b'Z')
    || (leb b'0' c && leb c b'9')
    || eqb c b'_'
    || eqb c b'-'

abbrev pub all_token_characters : Text → Bool
all_token_characters [] = true
all_token_characters (c ∷ s) = is_token_character c && all_token_characters s

unfoldable pub is_galaxy_token : Text → Bool
is_galaxy_token s = not (is_empty s) && all_token_characters s

-- The text of meta/main.yml, or of meta/main.yaml.
unfoldable pub role_meta_text : Checkout → Text → Option Text
unfolding join_path
role_meta_text c dir = elim (c.read_file (join_path dir (codes "meta/main.yml"))) [
  | some text ↦ some text
  | none ↦ c.read_file (join_path dir (codes "meta/main.yaml"))
]

unfoldable pub galaxy_name_of : RoleGalaxyMeta → Text → Text
unfolding is_galaxy_token
galaxy_name_of meta base =
    let given = trim_space meta.namespace in
    let ns = if is_empty given then trim_space meta.author else given in
    let named = trim_space meta.role_name in
    let name = if is_empty named then base else named in
    if not (is_galaxy_token ns) || not (is_galaxy_token name) then [] else ns ++ b'.' ∷ name

unfoldable pub role_galaxy_name : Checkout → Text → Text → Text
unfolding role_meta_text galaxy_name_of
role_galaxy_name c dir base = elim (role_meta_text c dir) [
  | none ↦ []
  | some text ↦ elim (c.unmarshal_role_meta text) [
    | none ↦ []
    | some meta ↦ galaxy_name_of meta base
  ]
]

unfoldable pub local_role_name : Checkout → Text → Text
unfolding base_name role_galaxy_name
local_role_name c dir =
    let gname = role_galaxy_name c dir (base_name dir) in
    if is_empty gname then base_name dir else gname

-- The FQCN that galaxy.yml gives a directory, where it gives one.
unfoldable pub collection_fqcn : Checkout → Text → Option Text
unfolding join_path
collection_fqcn c dir = elim (c.read_file (join_path dir (codes "galaxy.yml"))) [
  | none ↦ none
  | some text ↦ elim (c.parse_galaxy_manifest text) [
    | none ↦ none
    | some gm ↦
        if is_empty gm.namespace || is_empty gm.name
        then none
        else some (gm.namespace ++ b'.' ∷ gm.name)
  ]
]

-- The names of the directories that have one.
unfoldable pub collection_fqcns : Checkout → List Text → List Text
unfolding collection_fqcn
collection_fqcns c [] = []
collection_fqcns c (dir ∷ dirs) = elim (collection_fqcn c dir) [
  | none ↦ collection_fqcns c dirs
  | some fqcn ↦ fqcn ∷ collection_fqcns c dirs
]

unfoldable pub vendored_collection_fqcns : Checkout → WalkedSource → List Text
unfolding collection_fqcns
vendored_collection_fqcns c walked = collection_fqcns c walked.local_collections

-- A `map[string]string`, the entry that was set last in front; a missing key has the empty text.
abbrev pub Names : Type 0
Names = List (Text × Text)

unfoldable pub name_of : Names → Text → Text
name_of [] ref = []
name_of ((key, name) ∷ names) ref = if text_eq key ref then name else name_of names ref

unfoldable pub has_name : Names → Text → Bool
has_name [] ref = false
has_name ((key, name) ∷ names) ref = if text_eq key ref then true else has_name names ref

unfoldable pub add_role_names : Checkout → Names → List Text → Names
unfolding local_role_name
add_role_names c names [] = names
add_role_names c names (dir ∷ dirs) =
    let name = local_role_name c dir in
    add_role_names c ((name, name) ∷ (base_name dir, name) ∷ names) dirs

unfoldable pub local_role_names_by_ref : Checkout → WalkedSource → Names
unfolding add_role_names
local_role_names_by_ref c walked = add_role_names c [] walked.local_roles
