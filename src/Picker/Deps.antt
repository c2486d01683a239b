-- ===== src/Picker/Deps.antt =====
-- update.go: the rows for the dependencies of blueprints, and what an install does to each of them.
use Prim.Native.String.{◌++◌ as concat}
use ludus.Prelude.{
  String, Bool, true, false, not, ◌||◌, Option, none, some, List, [], ◌∷◌, ◌++◌, contains, length,
  ltb, ◌==◌, if◌then◌else◌,
}
use ludus.Picker.Catalog.{
  InstallState, not_installed, installed, upgrade_available, Scope, global, user, ScopeInstall,
  CatalogBlueprint, CatalogItem, SourceCatalog, blueprints,
}
use ludus.Picker.Model.{Row, read_only, Model, matches_filter}
use ludus.Picker.Moves.{is_nil}

pub data ReadOnlyKind : Type 0 where
  galaxy_roles galaxy_collections subscription_roles : ReadOnlyKind

unfoldable pub dependencies : SourceCatalog → ReadOnlyKind → List CatalogItem
dependencies c galaxy_roles = c.required_roles
dependencies c galaxy_collections = c.required_collections
dependencies c subscription_roles = c.subscription_roles

abbrev has_copy : InstallState → Bool
has_copy not_installed = false
has_copy installed = true
has_copy upgrade_available = true

unfoldable pub with_installed : List String → List CatalogBlueprint → List String
with_installed picked [] = picked
with_installed picked (bp ∷ bps) =
    with_installed (if has_copy bp.state then bp.id ∷ picked else picked) bps

-- `nameByID[parent]`, where the last blueprint with the id counts; the parent itself if the name is
-- missing or empty.
unfoldable pub display_name : String → List CatalogBlueprint → String → String
display_name parent [] name = if name == "" then parent else name
display_name parent (bp ∷ bps) name =
    display_name parent bps (if bp.id == parent then bp.name else name)

abbrev pin_of : List (String × String) → String → Option String
pin_of [] parent = none
pin_of (p ∷ ps) parent = let rest = pin_of ps parent in if p.0 == parent then some p.1 else rest

abbrev add_pin : Option String → List String → List String
add_pin none pins = pins
add_pin (some v) pins = if v == "" || contains pins v then pins else pins ++ v ∷ []

pub record Parents : Type 0 where
  pub by_picked : List String
  pub by_selected : Bool
  pub pins : List String

-- The loop over `item.RequiredBy`, with what it has gathered so far.
unfoldable pub gather_parents :
    List CatalogBlueprint
    → List String
    → List String
    → CatalogItem
    → List String
    → Parents
    → Parents
unfolding display_name
gather_parents bps picked selected item [] p = p
gather_parents bps picked selected item (parent ∷ parents) p =
    gather_parents bps picked selected item parents (
      if contains picked parent
      then record {
        by_picked = p.by_picked ++ display_name parent bps "" ∷ [];
        by_selected = contains selected parent || p.by_selected;
        pins = add_pin (pin_of item.version_by_blueprint parent) p.pins;
      }
      else p)

-- `strings.Join`
abbrev join : String → List String → String
join sep [] = ""
join sep (s ∷ []) = s
join sep (s ∷ ss) = concat s (concat sep (join sep ss))

-- A row has no section: it is never toggled. The field has the zero value, `sectionBlueprints`.
unfoldable pub dep_row : CatalogItem → Parents → Row
dep_row item p = record {
  kind = read_only;
  section = blueprints;
  id = item.name;
  label = (if item.fqcn == "" then item.name else item.fqcn);
  description = "";
  version = join " / " p.pins;
  state = item.state;
  installed_version = item.installed_version;
  scopes = item.scopes;
  required_by = p.by_picked;
  conflicting_pins = ltb 1 (length p.pins);
  selected_by = p.by_selected;
}

module _ {I : Type 0} (m : Model I) where
  unfoldable pub parents_of : CatalogItem → Parents
  unfolding gather_parents with_installed
  parents_of item =
      let bps = m.catalog.blueprints in
      let selected = m.picked.at_blueprints in
      gather_parents bps (with_installed selected bps) selected item item.required_by
        (record { by_picked = []; by_selected = false; pins = [] })

  unfoldable pub dep_rows : List CatalogItem → List Row
  unfolding parents_of dep_row
  dep_rows [] = []
  dep_rows (item ∷ items) =
      let rest = dep_rows items in
      if is_nil (parents_of item).by_picked
      then rest
      else if matches_filter m.filter (dep_row item (parents_of item))
      then dep_row item (parents_of item) ∷ rest
      else rest

  unfoldable pub read_only_rows : ReadOnlyKind → List Row
  unfolding dep_rows dependencies
  read_only_rows kind = dep_rows (dependencies m.catalog kind)

  unfoldable pub target_scope : Scope
  target_scope = if m.adv.global_scope then global else user

pub data DepAction : Type 0 where
  install reinstall upgrade upgrade_offered no_action : DepAction

abbrev pub scope_eq : Scope → Scope → Bool
scope_eq global global = true
scope_eq user user = true
scope_eq _ _ = false

-- What is done to a copy in the target scope.
unfoldable pub copy_action : Bool → InstallState → DepAction
copy_action force upgrade_available = if force then upgrade else upgrade_offered
copy_action force _ = if force then reinstall else no_action

-- A row without scopes: its own state counts.
unfoldable pub unscoped_action : Bool → InstallState → DepAction
unscoped_action force upgrade_available = if force then upgrade else upgrade_offered
unscoped_action force installed = if force then reinstall else no_action
unscoped_action force not_installed = install

unfoldable pub scopes_action : Scope → Bool → DepAction → List ScopeInstall → DepAction
unfolding copy_action
scopes_action target force none_there [] = none_there
scopes_action target force none_there (s ∷ scopes) =
    let rest = scopes_action target force none_there scopes in
    if scope_eq s.scope target then copy_action force s.state else rest

unfoldable pub dep_scope_action : {I : Type 0} → Model I → Row → DepAction
unfolding scopes_action unscoped_action target_scope
dep_scope_action m r =
    if m.adv.no_deps || not r.selected_by
    then no_action
    else scopes_action (target_scope m) m.adv.force
        (if is_nil r.scopes then unscoped_action m.adv.force r.state else install) r.scopes

unfoldable pub dep_counts_as_change : {I : Type 0} → Model I → Row → Bool
unfolding dep_scope_action
dep_counts_as_change m r = elim (dep_scope_action m r) [
  | install ↦ true
  | reinstall ↦ true
  | upgrade ↦ true
  | upgrade_offered ↦ false
  | no_action ↦ false
]
