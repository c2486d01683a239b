-- ===== src/Sources/Selection.antt =====
-- ludus-api/source_sync.go: the selection that an install of a source works with. A selection is never
-- nil where these functions are called, so it is the record itself.
use ludus.Prelude.{Bool, true, false, Option, none, some, List, [], ◌∷◌, ◌++◌, if◌then◌else◌}
use ludus.Prelude.Text.{Text, contains_text, is_empty}
use ludus.Prelude.Result.{Result, ok, err}
use ludus.Sources.{
  RequirementsRole, RequirementsCollection, RequirementsDoc, no_requirements, Checkout,
  WalkedBlueprint, WalkedSource, Names, name_of, template_name_for_dir, local_role_name,
  collection_fqcns, vendored_collection_fqcns, local_role_names_by_ref,
}
use ludus.Sources.Requirements.{no_texts, append_unique, parse_blueprint_config_refs}

pub record InstallSelection : Type 0 where
  pub blueprints : List Text
  pub templates : List Text
  pub local_roles : List Text
  pub local_collections : List Text

unfoldable pub manifest_ids : List WalkedBlueprint → List Text
manifest_ids [] = []
manifest_ids (bp ∷ bps) = elim bp.manifest [
  | none ↦ manifest_ids bps
  | some m ↦ m.id ∷ manifest_ids bps
]

unfoldable pub template_names : Checkout → List Text → List Text
unfolding template_name_for_dir
template_names c [] = []
template_names c (dir ∷ dirs) = template_name_for_dir c dir ∷ template_names c dirs

unfoldable pub local_names : Checkout → List Text → List Text
unfolding local_role_name
local_names c [] = []
local_names c (dir ∷ dirs) = local_role_name c dir ∷ local_names c dirs

unfoldable pub snapshot_walked_as_selection : Checkout → WalkedSource → InstallSelection
unfolding manifest_ids template_names local_names collection_fqcns
snapshot_walked_as_selection c walked = record {
  blueprints = manifest_ids walked.blueprints;
  templates = template_names c walked.templates;
  local_roles = local_names c walked.local_roles;
  local_collections = collection_fqcns c walked.local_collections;
}

-- The loops of the expansion: the referenced templates that the source ships, ...
unfoldable pub add_shipped : List Text → List Text → List Text → List Text
unfolding append_unique contains_text
add_shipped shipped templates [] = templates
add_shipped shipped templates (name ∷ names) =
    add_shipped shipped
      (if contains_text shipped name then append_unique templates name else templates) names

-- ... the referenced local roles, ...
unfoldable pub add_unique : List Text → List Text → List Text
unfolding append_unique
add_unique local_roles [] = local_roles
add_unique local_roles (name ∷ names) = add_unique (append_unique local_roles name) names

-- ... the local copies of required roles, ...
unfoldable pub add_required_roles : Names → List Text → List RequirementsRole → List Text
unfolding append_unique name_of
add_required_roles names local_roles [] = local_roles
add_required_roles names local_roles (r ∷ rs) =
    let canonical = name_of names r.name in
    add_required_roles names
      (if is_empty canonical then local_roles else append_unique local_roles canonical) rs

-- ... and the required collections that the source vendors.
unfoldable pub add_required_collections :
    List Text → List Text → List RequirementsCollection → List Text
unfolding append_unique contains_text
add_required_collections vendored collections [] = collections
add_required_collections vendored collections (r ∷ rs) =
    add_required_collections vendored
      (if contains_text vendored r.name then append_unique collections r.name else collections) rs

-- What has been read when the YAML does not parse is used, too.
unfoldable pub required_doc : Checkout → Text → RequirementsDoc
required_doc c requirements_yaml =
    if is_empty requirements_yaml
    then no_requirements
    else (let (parsed, doc) = c.unmarshal_requirements requirements_yaml in doc)

-- What the loop looks up: `shippedTemplates`, `localRoleNames` and `vendoredCollections`.
pub record Shipped : Type 0 where
  pub shipped_templates : List Text
  pub role_names_by_ref : Names
  pub vendored_collections : List Text

unfoldable pub shipped_by : Checkout → WalkedSource → Shipped
unfolding template_names local_role_names_by_ref vendored_collection_fqcns
shipped_by c walked = record {
  shipped_templates = template_names c walked.templates;
  role_names_by_ref = local_role_names_by_ref c walked;
  vendored_collections = vendored_collection_fqcns c walked;
}

-- A round of the loop, for a blueprint that is selected.
unfoldable pub add_deps : Checkout → Shipped → WalkedBlueprint → InstallSelection → InstallSelection
unfolding add_shipped add_unique add_required_roles add_required_collections required_doc
    parse_blueprint_config_refs
add_deps c shipped bp sel =
    let refs = parse_blueprint_config_refs c bp shipped.role_names_by_ref in
    let doc = required_doc c bp.requirements_yaml in
    record sel {
      templates = add_shipped shipped.shipped_templates sel.templates refs.templates;
      local_roles =
          add_required_roles shipped.role_names_by_ref (add_unique sel.local_roles refs.local_roles)
            doc.roles;
      local_collections =
          add_required_collections shipped.vendored_collections sel.local_collections
            doc.collections;
    }

unfoldable pub is_selected : InstallSelection → WalkedBlueprint → Bool
unfolding contains_text
is_selected sel bp = elim bp.manifest [ none ↦ false | some m ↦ contains_text sel.blueprints m.id ]

unfoldable pub expand_blueprints :
    Checkout → Shipped → List WalkedBlueprint → InstallSelection → InstallSelection
unfolding add_deps is_selected
expand_blueprints c shipped [] sel = sel
expand_blueprints c shipped (bp ∷ bps) sel =
    expand_blueprints c shipped bps (if is_selected sel bp then add_deps c shipped bp sel else sel)

unfoldable pub expand_selection_with_blueprint_deps :
    Checkout → InstallSelection → WalkedSource → InstallSelection
unfolding expand_blueprints shipped_by
expand_selection_with_blueprint_deps c sel walked =
    if no_texts sel.blueprints
    then sel
    else expand_blueprints c (shipped_by c walked) walked.blueprints sel

-- The rows that PocketBase finds for the source; `none` is an error. They are the ids of its blueprints,
-- and the names of its artifacts of the three kinds.
pub record Claims : Type 0 where
  pub blueprint_claims : Option (List Text)
  pub template_claims : Option (List Text)
  pub role_claims : Option (List Text)
  pub collection_claims : Option (List Text)

unfoldable pub still_available : List Text → List Text → List Text
unfolding contains_text
still_available available [] = []
still_available available (name ∷ names) =
    let rest = still_available available names in
    if contains_text available name then name ∷ rest else rest

unfoldable pub claimed : List Text → Option (List Text) → List Text
unfolding still_available
claimed available none = []
claimed available (some names) = still_available available names

unfoldable pub selection_from_claims : Checkout → Claims → WalkedSource → InstallSelection
unfolding claimed snapshot_walked_as_selection
selection_from_claims c claims walked =
    let available = snapshot_walked_as_selection c walked in
    record {
      blueprints = claimed available.blueprints claims.blueprint_claims;
      templates = claimed available.templates claims.template_claims;
      local_roles = claimed available.local_roles claims.role_claims;
      local_collections = claimed available.local_collections claims.collection_claims;
    }

pub data Missing : Type 0 where
  missing_template : Text → Missing
  missing_blueprint : Text → Missing
  missing_local_role : Text → Missing
  missing_local_collection : Text → Missing

unfoldable pub missing_names : (Text → Missing) → List Text → List Text → List Missing
unfolding contains_text
missing_names label available [] = []
missing_names label available (name ∷ names) =
    let rest = missing_names label available names in
    if contains_text available name then rest else label name ∷ rest

-- The error has the list, which is not empty then.
unfoldable pub validate_selection_against_walk :
    Checkout → InstallSelection → WalkedSource → List Missing
unfolding missing_names snapshot_walked_as_selection
validate_selection_against_walk c sel walked =
    let available = snapshot_walked_as_selection c walked in
    missing_names missing_template available.templates sel.templates
    ++ missing_names missing_blueprint available.blueprints sel.blueprints
    ++ missing_names missing_local_role available.local_roles sel.local_roles
    ++ missing_names missing_local_collection available.local_collections sel.local_collections

unfoldable pub validated : List Missing → InstallSelection → Result (List Missing) InstallSelection
validated [] sel = ok sel
validated (m ∷ ms) sel = err (m ∷ ms)

-- The switch of `runSourceInstall`.
unfoldable pub choose_selection :
    Checkout
    → Bool
    → Option InstallSelection
    → Claims
    → WalkedSource
    → Result (List Missing) InstallSelection
unfolding selection_from_claims snapshot_walked_as_selection validate_selection_against_walk
    validated
choose_selection c true requested claims walked = ok (selection_from_claims c claims walked)
choose_selection c false none claims walked = ok (snapshot_walked_as_selection c walked)
choose_selection c false (some sel) claims walked =
    validated (validate_selection_against_walk c sel walked) sel

unfoldable pub expanded :
    Checkout
    → WalkedSource
    → Result (List Missing) InstallSelection
    → Result (List Missing) InstallSelection
unfolding expand_selection_with_blueprint_deps
expanded c walked (err missing) = err missing
expanded c walked (ok sel) = ok (expand_selection_with_blueprint_deps c sel walked)

-- With the expansion after it: what the install applies.
unfoldable pub applied_selection :
    Checkout
    → Bool
    → Option InstallSelection
    → Claims
    → WalkedSource
    → Result (List Missing) InstallSelection
unfolding choose_selection expanded
applied_selection c from_claims requested claims walked =
    expanded c walked (choose_selection c from_claims requested claims walked)
