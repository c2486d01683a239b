-- ===== src/Sources/Requirements.antt =====
-- ludus-api/source_roles.go, source_schema.go, source_catalog.go and blueprint_resolver.go: what a
-- blueprint refers to, in its requirements.yml and in its range config.
use ludus.Prelude.{
  ℕ, Bool, true, false, not, ◌&&◌, ◌||◌, Option, none, some, List, [], ◌∷◌, ◌++◌, ltb, eqb,
  if◌then◌else◌,
}
use ludus.Prelude.Text.{Text, codes, contains_text, is_empty, join, split, text_eq}
use ludus.Sources.{
  RequirementsRole, RequirementsCollection, RequirementsDoc, RoleNode, scalar, mapping, other_node,
  RangeConfigVm, Checkout, BlueprintManifest, WalkedBlueprint, WalkedSource, Names, name_of,
  has_name, local_role_names_by_ref,
}

-- The first scalar value under `name`.
unfoldable pub name_in_mapping : List (Text × Option Text) → Text
name_in_mapping [] = []
name_in_mapping ((key, value) ∷ pairs) =
    let later = name_in_mapping pairs in
    if text_eq key (codes "name") then elim value [ some name ↦ name | none ↦ later ] else later

unfoldable pub role_name_from_node : RoleNode → Text
unfolding name_in_mapping
role_name_from_node (scalar value) = value
role_name_from_node (mapping pairs) = name_in_mapping pairs
role_name_from_node other_node = []

unfoldable pub text_ltb : Text → Text → Bool
text_ltb [] [] = false
text_ltb [] (d ∷ t) = true
text_ltb (c ∷ s) [] = false
text_ltb (c ∷ s) (d ∷ t) = if ltb c d then true else eqb c d && text_ltb s t

-- A set of texts is kept as the sorted list that is made of it.
unfoldable pub add_sorted : Text → List Text → List Text
unfolding text_ltb
add_sorted t [] = t ∷ []
add_sorted t (s ∷ ss) =
    let later = add_sorted t ss in
    if text_eq t s then s ∷ ss else if text_ltb t s then t ∷ s ∷ ss else s ∷ later

unfoldable pub vm_templates : List RangeConfigVm → List Text
unfolding add_sorted
vm_templates [] = []
vm_templates (vm ∷ vms) =
    let rest = vm_templates vms in
    if is_empty vm.template then rest else add_sorted vm.template rest

unfoldable pub add_roles : List RoleNode → List Text → List Text
unfolding add_sorted role_name_from_node
add_roles [] names = names
add_roles (node ∷ nodes) names =
    let name = role_name_from_node node in
    let rest = add_roles nodes names in if is_empty name then rest else add_sorted name rest

unfoldable pub vm_roles : List RangeConfigVm → List Text
unfolding add_roles
vm_roles [] = []
vm_roles (vm ∷ vms) = add_roles vm.roles (vm_roles vms)

unfoldable pub infer_from_range_config : Checkout → Text → Option (List Text × List Text)
unfolding vm_templates vm_roles
infer_from_range_config c text = elim (c.unmarshal_range_config text) [
  | none ↦ none
  | some vms ↦ some (vm_templates vms, vm_roles vms)
]

unfoldable pub not_empty : List Text → List Text
not_empty [] = []
not_empty (s ∷ ss) = let rest = not_empty ss in if is_empty s then rest else s ∷ rest

abbrev pub role_names : List RequirementsRole → List Text
role_names [] = []
role_names (r ∷ rs) = r.name ∷ role_names rs

abbrev pub requirement_collection_names : List RequirementsCollection → List Text
requirement_collection_names [] = []
requirement_collection_names (r ∷ rs) = r.name ∷ requirement_collection_names rs

pub record Declared : Type 0 where
  pub roles : List Text
  pub collections : List Text
  pub subscription_roles : List Text

abbrev pub nothing_declared : Declared
nothing_declared = record { roles = []; collections = []; subscription_roles = [] }

unfoldable pub declared_from_requirements : Checkout → Text → Declared
unfolding not_empty
declared_from_requirements c requirements_yaml =
    if is_empty requirements_yaml
    then nothing_declared
    else (let (parsed, doc) = c.unmarshal_requirements requirements_yaml in
        if parsed
        then record {
          roles = not_empty (role_names doc.roles);
          collections = not_empty (requirement_collection_names doc.collections);
          subscription_roles = not_empty doc.subscription_roles;
        }
        else nothing_declared)

pub record ConfigRefs : Type 0 where
  pub templates : List Text
  pub local_roles : List Text
  pub galaxy_roles : List Text
  pub galaxy_collections : List Text

unfoldable pub append_unique : List Text → Text → List Text
unfolding contains_text
append_unique slice s = if contains_text slice s then slice else slice ++ s ∷ []

-- The roles of the config that are the source's own. The other two cases of the switch do nothing.
unfoldable pub add_local_refs : Names → List Text → List Text → List Text
unfolding append_unique name_of
add_local_refs names refs [] = refs
add_local_refs names refs (role ∷ roles) =
    let name = name_of names role in
    add_local_refs names (if is_empty name then refs else append_unique refs name) roles

-- The text of the range config, empty where there is none.
unfoldable pub config_text : Checkout → Text → Option Text
config_text c config_path = if is_empty config_path then none else c.read_file config_path

-- The templates and roles of the range config, where it can be read and parsed.
unfoldable pub config_names : Checkout → Text → Option (List Text × List Text)
unfolding config_text infer_from_range_config
config_names c config_path = elim (config_text c config_path) [
  | none ↦ none
  | some text ↦ infer_from_range_config c text
]

unfoldable pub refs_of : Declared → Names → Option (List Text × List Text) → ConfigRefs
unfolding add_local_refs
refs_of declared names none = record {
  templates = [];
  local_roles = [];
  galaxy_roles = declared.roles;
  galaxy_collections = declared.collections;
}
refs_of declared names (some (config_templates, role_refs)) = record {
  templates = config_templates;
  local_roles = add_local_refs names [] role_refs;
  galaxy_roles = declared.roles;
  galaxy_collections = declared.collections;
}

unfoldable pub parse_blueprint_config_refs : Checkout → WalkedBlueprint → Names → ConfigRefs
unfolding declared_from_requirements config_names refs_of
parse_blueprint_config_refs c bp local_role_names =
    refs_of (declared_from_requirements c bp.requirements_yaml) local_role_names
      (config_names c bp.config_path)

unfoldable pub keep_roles : List Text → List RequirementsRole → List RequirementsRole
unfolding contains_text
keep_roles vendored [] = []
keep_roles vendored (r ∷ rs) =
    let rest = keep_roles vendored rs in if contains_text vendored r.name then rest else r ∷ rest

unfoldable pub keep_collections :
    List Text → List RequirementsCollection → List RequirementsCollection
unfolding contains_text
keep_collections vendored [] = []
keep_collections vendored (r ∷ rs) =
    let rest = keep_collections vendored rs in
    if contains_text vendored r.name then rest else r ∷ rest

abbrev some_role : List Text → List RequirementsRole → Bool
some_role vendored [] = false
some_role vendored (r ∷ rs) = if contains_text vendored r.name then true else some_role vendored rs

abbrev some_collection : List Text → List RequirementsCollection → Bool
some_collection vendored [] = false
some_collection vendored (r ∷ rs) =
    if contains_text vendored r.name then true else some_collection vendored rs

abbrev pub no_texts : List Text → Bool
no_texts [] = true
no_texts (s ∷ ss) = false

-- The document without what is vendored; `removed` says whether it differs.
unfoldable pub filtered_doc : List Text → List Text → RequirementsDoc → RequirementsDoc
unfolding keep_roles keep_collections
filtered_doc vendored_roles vendored_collections doc = record doc {
  roles = keep_roles vendored_roles doc.roles;
  collections = keep_collections vendored_collections doc.collections;
}

-- `none` is the error of the YAML printer.
unfoldable pub filter_requirements : Checkout → Text → List Text → List Text → Option Text
unfolding filtered_doc contains_text
filter_requirements c requirements_yaml vendored_roles vendored_collections =
    if is_empty requirements_yaml || (no_texts vendored_roles && no_texts vendored_collections)
    then some requirements_yaml
    else (let (parsed, doc) = c.unmarshal_requirements requirements_yaml in
        if not parsed
        then some requirements_yaml
        else if not (
            some_role vendored_roles doc.roles
            || some_collection vendored_collections doc.collections)
        then some requirements_yaml
        else c.marshal_requirements (filtered_doc vendored_roles vendored_collections doc))

pub data Kind : Type 0 where
  missing_role : Kind
  missing_collection : Text → Kind

pub record UndeclaredDependency : Type 0 where
  pub blueprint_id : Text
  pub role : Text
  pub kind : Kind

abbrev fqcn_dot : ℕ
fqcn_dot = b'.'

-- One role of the config that is neither local nor declared; `none` where its collection is declared.
unfoldable pub undeclared_kind : List Text → Text → Option Kind
unfolding split join contains_text
undeclared_kind collections ref = elim (split fqcn_dot [] ref) [
  | namespace ∷ name ∷ role ∷ more ↦
      (let parent = join fqcn_dot (namespace ∷ name ∷ []) in
        if contains_text collections parent then none else some (missing_collection parent))
  | other ↦ some missing_role
]

unfoldable pub undeclared_refs : Names → Declared → Text → List Text → List UndeclaredDependency
unfolding undeclared_kind has_name contains_text
undeclared_refs local_roles declared id [] = []
undeclared_refs local_roles declared id (ref ∷ refs) =
    let rest = undeclared_refs local_roles declared id refs in
    if has_name local_roles ref
      || contains_text declared.roles ref
      || contains_text declared.subscription_roles ref
    then rest
    else elim (undeclared_kind declared.collections ref) [
      | none ↦ rest
      | some kind ↦ record { blueprint_id = id; role = ref; kind = kind } ∷ rest
    ]

abbrev id_of : Option BlueprintManifest → Text
id_of none = []
id_of (some m) = m.id

unfoldable pub undeclared_of : Checkout → Names → WalkedBlueprint → List UndeclaredDependency
unfolding undeclared_refs config_text infer_from_range_config declared_from_requirements
undeclared_of c local_roles bp = elim (config_text c bp.config_path) [
  | none ↦ []
  | some text ↦ if is_empty text then [] else elim (infer_from_range_config c text) [
    | none ↦ []
    | some (templates, refs) ↦
        undeclared_refs local_roles (declared_from_requirements c bp.requirements_yaml)
          (id_of bp.manifest) refs
  ]
]

unfoldable pub undeclared_in : Checkout → Names → List WalkedBlueprint → List UndeclaredDependency
unfolding undeclared_of
undeclared_in c local_roles [] = []
undeclared_in c local_roles (bp ∷ bps) =
    undeclared_of c local_roles bp ++ undeclared_in c local_roles bps

unfoldable pub find_undeclared_dependencies : Checkout → WalkedSource → List UndeclaredDependency
unfolding undeclared_in local_role_names_by_ref
find_undeclared_dependencies c walked =
    undeclared_in c (local_role_names_by_ref c walked) walked.blueprints
