-- ===== src/Picker/Model.antt =====
-- model.go, imply.go and the queries of update.go: the state of the picker, its rows, the filter, and
-- what the picked blueprints imply. The text input is a component of the Bubbles library: its type is
-- a parameter.
use Prim.Native.Nat.{Ordering}
use Prim.Native.String
use ludus.Prelude.{
  ℕ, String, Bool, true, false, not, ◌&&◌, ◌||◌, List, [], ◌∷◌, ◌++◌, contains, eqb, if◌then◌else◌,
}
use ludus.Prelude.Text.{Text, codes, lower, fields, is_empty}
use ludus.Picker.Catalog.{
  InstallState, ScopeInstall, CatalogBlueprint, CatalogItem, SourceCatalog, InstallSelection,
  Section, blueprints, templates, local_roles, local_collections, Tab, PerSection, get,
}

-- picker.go
pub record Advanced : Type 0 where
  pub global_scope : Bool
  pub force : Bool
  pub is_admin : Bool
  pub no_deps : Bool

pub data RowKind : Type 0 where
  toggleable read_only : RowKind

pub record Row : Type 0 where
  pub kind : RowKind
  pub section : Section
  pub id : String
  pub label : String
  pub description : String
  pub version : String
  pub state : InstallState
  pub installed_version : String
  pub scopes : List ScopeInstall
  pub required_by : List String
  pub conflicting_pins : Bool
  pub selected_by : Bool

-- `picked` holds sets of ids. No step makes a cursor negative, so cursors are natural numbers.
pub record Model (Input : Type 0) : Type 0 where
  pub catalog : SourceCatalog
  pub adv : Advanced
  pub picked : PerSection (List String)
  pub active_tab : Tab
  pub active : Section
  pub cursor : PerSection ℕ
  pub searching : Bool
  pub search_input : Input
  pub filter : Text
  pub width : ℕ
  pub height : ℕ
  pub committed : Bool
  pub aborted : Bool

blueprint_row : CatalogBlueprint → Row
blueprint_row bp = record {
  kind = toggleable;
  section = blueprints;
  id = bp.id;
  label = bp.name;
  description = bp.description;
  version = bp.version;
  state = bp.state;
  installed_version = bp.installed_version;
  scopes = [];
  required_by = [];
  conflicting_pins = false;
  selected_by = false;
}

-- The rows for templates have no scopes.
item_row : Section → List ScopeInstall → CatalogItem → Row
item_row sec scopes item = record {
  kind = toggleable;
  section = sec;
  id = item.name;
  label = item.name;
  description = item.description;
  version = item.version;
  state = item.state;
  installed_version = item.installed_version;
  scopes = scopes;
  required_by = item.required_by;
  conflicting_pins = false;
  selected_by = false;
}

unfoldable pub blueprint_rows : List CatalogBlueprint → List Row
unfolding blueprint_row
blueprint_rows [] = []
blueprint_rows (bp ∷ bps) = blueprint_row bp ∷ blueprint_rows bps

unfoldable pub template_rows : List CatalogItem → List Row
unfolding item_row
template_rows [] = []
template_rows (t ∷ ts) = item_row templates [] t ∷ template_rows ts

unfoldable pub scoped_rows : Section → List CatalogItem → List Row
unfolding item_row
scoped_rows sec [] = []
scoped_rows sec (item ∷ items) = item_row sec item.scopes item ∷ scoped_rows sec items

unfoldable pub all_rows : SourceCatalog → Section → List Row
unfolding blueprint_rows blueprint_row template_rows scoped_rows item_row
all_rows c blueprints = blueprint_rows c.blueprints
all_rows c templates = template_rows c.templates
all_rows c local_roles = scoped_rows local_roles c.local_roles
all_rows c local_collections = scoped_rows local_collections c.local_collections

-- The loop of `fuzzyMatch` while `t` is the next letter to be found. The indexing `t[i]` would fail for
-- an empty term; `fields` gives none.
unfoldable pub fuzzy_from : ℕ → Text → Text → Bool
fuzzy_from t ts [] = false
fuzzy_from t [] (c ∷ s) = eqb c t || fuzzy_from t [] s
fuzzy_from t (t' ∷ ts) (c ∷ s) = elim (eqb c t) [
  | true ↦ fuzzy_from t' ts s
  | false ↦ fuzzy_from t (t' ∷ ts) s
]

unfoldable pub fuzzy_match : Text → String → Bool
unfolding fuzzy_from lower
fuzzy_match [] s = false
fuzzy_match (t ∷ ts) s = fuzzy_from t ts (lower (codes s))

unfoldable pub matches_terms : List Text → Row → Bool
matches_terms [] r = true
matches_terms (term ∷ terms) r =
    let rest = matches_terms terms r in
    if not (fuzzy_match term r.id)
      && not (fuzzy_match term r.label)
      && not (fuzzy_match term r.description)
    then false
    else rest

unfoldable pub matches_filter : Text → Row → Bool
matches_filter filter r = if is_empty filter then true else matches_terms (fields filter) r

unfoldable pub keep_matching : Text → List Row → List Row
keep_matching filter [] = []
keep_matching filter (r ∷ rows) =
    let rest = keep_matching filter rows in if matches_filter filter r then r ∷ rest else rest

unfoldable pub visible_toggleable : {I : Type 0} → Model I → Section → List Row
visible_toggleable m sec = keep_matching m.filter (all_rows m.catalog sec)

-- imply.go
pub record ImpliedSet : Type 0 where
  pub templates : List String
  pub local_roles : List String
  pub local_collections : List String

unfoldable pub expand_items : List String → ImpliedSet → List CatalogBlueprint → ImpliedSet
expand_items picked out [] = out
expand_items picked out (bp ∷ bps) =
    expand_items picked
      (if contains picked bp.id
        then record {
          templates = out.templates ++ bp.required_templates;
          local_roles = out.local_roles ++ bp.required_local_roles;
          local_collections = out.local_collections ++ bp.required_collections;
        }
        else out)
      bps

abbrev pub nothing_implied : ImpliedSet
nothing_implied = record { templates = []; local_roles = []; local_collections = [] }

unfoldable pub expand_implied : SourceCatalog → InstallSelection → ImpliedSet
expand_implied catalog sel = expand_items sel.blueprints nothing_implied catalog.blueprints

-- `sort.Strings`, by insertion.
abbrev str_leb : String → String → Bool
str_leb a b = elim (String.compare a b) [ Ordering.gt ↦ false | _ ↦ true ]

unfoldable pub insert_sorted : String → List String → List String
insert_sorted a [] = a ∷ []
insert_sorted a (b ∷ bs) =
    let rest = insert_sorted a bs in if str_leb a b then a ∷ b ∷ bs else b ∷ rest

unfoldable pub set_to_sorted_slice : List String → List String
unfolding insert_sorted
set_to_sorted_slice [] = []
set_to_sorted_slice (a ∷ s) = insert_sorted a (set_to_sorted_slice s)

unfoldable pub current_selection : {I : Type 0} → Model I → InstallSelection
unfolding set_to_sorted_slice
current_selection m = record {
  blueprints = set_to_sorted_slice m.picked.at_blueprints;
  templates = set_to_sorted_slice m.picked.at_templates;
  local_roles = set_to_sorted_slice m.picked.at_local_roles;
  local_collections = set_to_sorted_slice m.picked.at_local_collections;
}

-- The implied names of a section.
abbrev pub implied_of : ImpliedSet → Section → List String
implied_of implied blueprints = []
implied_of implied templates = implied.templates
implied_of implied local_roles = implied.local_roles
implied_of implied local_collections = implied.local_collections

unfoldable pub is_implied_only : {I : Type 0} → Model I → Row → Bool
is_implied_only m r = elim r.kind [
  | read_only ↦ false
  | toggleable ↦
      if contains (get m.picked r.section) r.id
      then false
      else contains (implied_of (expand_implied m.catalog (current_selection m)) r.section) r.id
]
