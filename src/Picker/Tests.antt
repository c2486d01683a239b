-- ===== src/Picker/Tests.antt =====
-- The picker on a catalog with two blueprints, with a text for a text input.
use ludus.Prelude.{
  if◌then◌else◌, ℕ, zero, suc, ap, ◌∙◌, sym, inl, inr, some, get_elem?, contains, refl, ◌≡◌, true,
  false, not, ◌&&◌, ◌||◌, [], ◌∷◌,
}
use ludus.Prelude.Text.{Text}
use ludus.Picker.Catalog.{
  get, not_installed, installed, global, user, CatalogBlueprint, CatalogItem, SourceCatalog,
  blueprints, templates, Section,
}
use ludus.Picker.Model.{
  toggleable, visible_toggleable, keep_matching, all_rows, matches_filter, implied_of, expand_items,
  expand_implied, current_selection, Advanced, Row, read_only, Model,
}
use ludus.Picker.Moves.{new_model, tab_has_content}
use ludus.Picker.Update.{TextInput, run_from, space, down, next_key, slash, key_a, key}
use ludus.Picker.Deps.{dep_counts_as_change}
use ludus.Picker.Toggle.{toggle_all_over}
use ludus.Picker.Clearing.{IsSettled, toggle_all_over-clears}
use ludus.Picker.Picking.{toggle_all_over-settles}
use ludus.Picker.Changes.{absent_in, dep_counts_as_change-iff_written}
use ludus.Picker.Cursors.{IsSane}
use ludus.Picker.Loop.{run_from-new_model-IsSane}

abbrev lab : CatalogBlueprint
lab = record {
  id = "lab";
  name = "Lab";
  description = "two hosts";
  version = "1.0";
  state = not_installed;
  installed_version = "";
  required_templates = "win11" ∷ [];
  required_local_roles = [];
  required_collections = [];
}

abbrev forest : CatalogBlueprint
forest = record lab { id = "forest"; name = "Forest"; required_templates = [] }

abbrev win11 : CatalogItem
win11 = record {
  name = "win11";
  description = "Windows";
  version = "1";
  state = not_installed;
  installed_version = "";
  scopes = [];
  fqcn = "";
  required_by = "lab" ∷ [];
  version_by_blueprint = [];
}

abbrev catalog : SourceCatalog
catalog = record {
  blueprints = lab ∷ forest ∷ [];
  required_roles = [];
  required_collections = [];
  subscription_roles = [];
  templates = win11 ∷ [];
  local_roles = [];
  local_collections = [];
}

abbrev plain : Advanced
plain = record { global_scope = false; force = false; is_admin = false; no_deps = false }

-- Keys do not reach the text.
abbrev fixed_text : TextInput Text
fixed_text = record {
  new = [];
  value = λ i. i;
  clear = λ i. [];
  focus = λ i. i;
  blur = λ i. i;
  set_width = λ w i. i;
  update = λ pressed i. i;
}

abbrev opened : Model Text
opened = new_model [] catalog plain

run_from-new_model-IsSane_example : IsSane (
    run_from fixed_text
      (new_model [] catalog plain)
      (key down ∷ key space ∷ key next_key ∷ key key_a ∷ key slash ∷ []))
run_from-new_model-IsSane_example =
    run_from-new_model-IsSane fixed_text catalog plain
      (key down ∷ key space ∷ key next_key ∷ key key_a ∷ key slash ∷ [])

abbrev dep : Row
dep = record {
  kind = read_only;
  section = blueprints;
  id = "geerlingguy.docker";
  label = "docker";
  description = "";
  version = "2.0";
  state = installed;
  installed_version = "1.0";
  scopes = record { scope = global; version = "1.0"; state = installed } ∷ [];
  required_by = "Lab" ∷ [];
  conflicting_pins = false;
  selected_by = true;
}

dep_counts_as_change-iff_written_example :
    dep_counts_as_change opened dep
    ≡ not opened.adv.no_deps
      && (dep.selected_by
          && (opened.adv.force || absent_in (if opened.adv.global_scope then global else user) dep))
dep_counts_as_change-iff_written_example = dep_counts_as_change-iff_written opened dep

abbrev all_picked : Model Text
all_picked = record opened {
  picked = record {
    at_blueprints = "forest" ∷ "lab" ∷ [];
    at_templates = [];
    at_local_roles = [];
    at_local_collections = [];
  };
}

abbrev lab_row : Row
lab_row = record {
  kind = toggleable;
  section = blueprints;
  id = "lab";
  label = "Lab";
  description = "two hosts";
  version = "1.0";
  state = not_installed;
  installed_version = "";
  scopes = [];
  required_by = [];
  conflicting_pins = false;
  selected_by = false;
}

abbrev win11_row : Row
win11_row = record lab_row {
  section = templates;
  id = "win11";
  label = "win11";
  description = "Windows";
  version = "1";
  required_by = "lab" ∷ [];
}

-- The template is implied by a blueprint that is picked.
blueprints-IsSettled :
    (i : ℕ) (r : Row)
    → get_elem? (visible_toggleable all_picked blueprints) i ≡ some r
    → IsSettled all_picked r
unfolding contains visible_toggleable new_model keep_matching all_rows tab_has_content
    matches_filter
blueprints-IsSettled zero r at = let same : lab_row ≡ r = cc in rw (sym same) (inl refl)
blueprints-IsSettled (suc zero) r at =
    let same : record lab_row { id = "forest"; label = "Forest" } ≡ r = cc in
    rw (sym same) (inl refl)
blueprints-IsSettled (suc (suc i)) r at = cc

win11_implied :
    contains (implied_of (expand_implied catalog (current_selection all_picked)) templates) "win11"
    ≡ true
unfolding contains expand_implied expand_items current_selection new_model tab_has_content
win11_implied = refl

templates-IsSettled :
    (i : ℕ) (r : Row)
    → get_elem? (visible_toggleable all_picked templates) i ≡ some r
    → IsSettled all_picked r
unfolding contains visible_toggleable new_model keep_matching all_rows tab_has_content
    matches_filter
templates-IsSettled zero r at = let same : win11_row ≡ r = cc in rw (sym same) (inr win11_implied)
templates-IsSettled (suc i) r at = cc

all_picked-IsSettled :
    (k : ℕ) (sec : Section) (i : ℕ) (r : Row)
    → get_elem? (blueprints ∷ templates ∷ []) k ≡ some sec
    → get_elem? (visible_toggleable all_picked sec) i ≡ some r
    → IsSettled all_picked r
all_picked-IsSettled zero sec i r in_tab at =
    let same : blueprints ≡ sec = cc in
    blueprints-IsSettled i r
      (ap (λ (s : Section). get_elem? (visible_toggleable all_picked s) i) same ∙ at)
all_picked-IsSettled (suc zero) sec i r in_tab at =
    let same : templates ≡ sec = cc in
    templates-IsSettled i r
      (ap (λ (s : Section). get_elem? (visible_toggleable all_picked s) i) same ∙ at)
all_picked-IsSettled (suc (suc k)) sec i r in_tab at = cc

toggle_all_over-clears_example :
    contains
      (get (toggle_all_over (blueprints ∷ templates ∷ []) all_picked).picked blueprints)
      "lab"
    ≡ false
unfolding contains visible_toggleable new_model keep_matching all_rows tab_has_content
    matches_filter
toggle_all_over-clears_example =
    toggle_all_over-clears (blueprints ∷ templates ∷ []) all_picked 0 blueprints 0 lab_row
      all_picked-IsSettled refl refl

abbrev none_picked : Model Text
none_picked = record opened {
  picked = record {
    at_blueprints = [];
    at_templates = [];
    at_local_roles = [];
    at_local_collections = [];
  };
}

lab_row-not_IsSettled : ¬ IsSettled none_picked lab_row
unfolding contains
lab_row-not_IsSettled (inl picked) = cc
lab_row-not_IsSettled (inr implied) = cc

-- The template is not checked, since the blueprint that needs it is.
toggle_all_over-settles_example :
    IsSettled (toggle_all_over (blueprints ∷ templates ∷ []) none_picked) win11_row
unfolding contains visible_toggleable new_model keep_matching all_rows tab_has_content
    matches_filter
toggle_all_over-settles_example =
    toggle_all_over-settles (blueprints ∷ templates ∷ []) none_picked 0 blueprints 0 lab_row 1
      templates 0 win11_row refl refl lab_row-not_IsSettled refl refl
