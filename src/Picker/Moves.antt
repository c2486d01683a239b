-- ===== src/Picker/Moves.antt =====
-- update.go: the moves between tabs, sections and rows, and model.go's first state.
use ludus.Prelude.{
  ℕ, zero, suc, ◌+◌, ◌-◌, ◌%◌, Bool, true, false, Option, none, some, List, [], ◌∷◌, length,
  get_elem?, drop, ltb, leb, if◌then◌else◌,
}
use ludus.Picker.Catalog.{
  SourceCatalog, Section, blueprints, Tab, blueprint_tab, all_tabs, first_section, sections,
  section_eq, tab_eq, get, put, everywhere,
}
use ludus.Picker.Model.{Advanced, Model, all_rows, visible_toggleable}

abbrev pub is_nil {ℓ} : {A : Type ℓ} → List A → Bool
is_nil [] = true
is_nil (x ∷ xs) = false

any_rows : SourceCatalog → List Section → Bool
any_rows c [] = false
any_rows c (sec ∷ secs) = if is_nil (all_rows c sec) then any_rows c secs else true

-- The index of a tab in the list, 0 if it is not there.
unfoldable pub tab_index : ℕ → List Tab → Tab → ℕ
tab_index i [] t = 0
tab_index i (t' ∷ ts) t = let rest = tab_index (suc i) ts t in if tab_eq t' t then i else rest

-- `(cur + dir + len) % len`, for the two directions.
unfoldable pub next_index : Bool → ℕ → ℕ → ℕ
next_index forward cur len = if forward then (cur + 1 + len) % len else (cur + len - 1) % len

unfoldable pub section_index : ℕ → List Section → Section → ℕ
section_index i [] sec = 0
section_index i (s ∷ secs) sec =
    let rest = section_index (suc i) secs sec in if section_eq s sec then i else rest

unfoldable pub clamped : ℕ → ℕ → ℕ
clamped n cursor = if leb n 0 then 0 else if leb n cursor then n - 1 else cursor

module _ {I : Type 0} where
  unfoldable pub tab_has_content : Model I → Tab → Bool
  unfolding any_rows sections
  tab_has_content m t = any_rows m.catalog (sections t)

  tabs_with_content : Model I → List Tab → List Tab
  tabs_with_content m [] = []
  tabs_with_content m (t ∷ ts) =
      let rest = tabs_with_content m ts in if tab_has_content m t then t ∷ rest else rest

  unfoldable pub visible_tabs : Model I → List Tab
  unfolding tabs_with_content tab_has_content
  visible_tabs m = tabs_with_content m all_tabs

  -- The first section of the list with a visible row.
  unfoldable pub first_visible : Model I → Section → List Section → Section
  first_visible m fallback [] = fallback
  first_visible m fallback (sec ∷ secs) =
      if is_nil (visible_toggleable m sec) then first_visible m fallback secs else sec

  unfoldable pub switch_tab : Tab → Model I → Model I
  unfolding first_visible first_section sections
  switch_tab t m = record m {
    active_tab = t;
    active = first_visible m (first_section t) (sections t);
  }

  -- The lookup in the list of tabs. An index past the end, at which Go panics, leaves the state.
  unfoldable pub go_to_tab : Option Tab → Model I → Model I
  unfolding switch_tab
  go_to_tab none m = m
  go_to_tab (some t) m = switch_tab t m

  unfoldable pub cycle_tab : Bool → Model I → Model I
  unfolding visible_tabs tab_index next_index go_to_tab
  cycle_tab forward m =
      let visible = visible_tabs m in
      if ltb (length visible) 2
      then m
      else go_to_tab
          (get_elem? visible
            (next_index forward (tab_index 0 visible m.active_tab) (length visible)))
          m

  abbrev pub row_count : Model I → Section → ℕ
  row_count m sec = length (visible_toggleable m sec)

  -- `for i := pos - 1; i >= 0; i--`
  unfoldable pub ascend : List Section → ℕ → Model I → Bool × Model I
  ascend secs zero m = (false, m)
  ascend secs (suc i) m = elim (get_elem? secs i) [
    | none ↦ (false, m)
    | some sec ↦
        let rest = ascend secs i m in
        if leb 1 (row_count m sec)
        then (true, record m { active = sec; cursor = put m.cursor sec (row_count m sec - 1) })
        else rest
  ]

  -- The Boolean is false when the cursor was at the top of the tab.
  unfoldable pub cursor_up : Model I → Bool × Model I
  unfolding ascend section_index sections
  cursor_up m =
      if leb 1 (get m.cursor m.active)
      then (true, record m { cursor = put m.cursor m.active (get m.cursor m.active - 1) })
      else (let secs = sections m.active_tab in ascend secs (section_index 0 secs m.active) m)

  -- `for i := pos + 1; i < len(secs); i++`, over the sections that are left.
  unfoldable pub descend : List Section → Model I → Model I
  descend [] m = m
  descend (sec ∷ secs) m =
      let rest = descend secs m in
      if leb 1 (row_count m sec)
      then record m { active = sec; cursor = put m.cursor sec 0 }
      else rest

  unfoldable pub cursor_down : Model I → Model I
  unfolding descend section_index sections
  cursor_down m =
      if ltb (get m.cursor m.active) (row_count m m.active - 1)
      then record m { cursor = put m.cursor m.active (get m.cursor m.active + 1) }
      else (let secs = sections m.active_tab in
          descend (drop (suc (section_index 0 secs m.active)) secs) m)

  unfoldable pub clamp_cursors : Model I → Model I
  unfolding clamped
  clamp_cursors m = record m {
    cursor = record {
      at_blueprints = clamped (row_count m Section.blueprints) m.cursor.at_blueprints;
      at_templates = clamped (row_count m Section.templates) m.cursor.at_templates;
      at_local_roles = clamped (row_count m Section.local_roles) m.cursor.at_local_roles;
      at_local_collections =
          clamped (row_count m Section.local_collections) m.cursor.at_local_collections;
    };
  }

  unfoldable pub open_first_tab : List Tab → Model I → Model I
  unfolding switch_tab
  open_first_tab [] m = m
  open_first_tab (t ∷ ts) m = if tab_has_content m t then switch_tab t m else open_first_tab ts m

  unfoldable pub new_model : I → SourceCatalog → Advanced → Model I
  unfolding open_first_tab
  new_model input catalog adv = open_first_tab all_tabs (record {
    catalog = catalog;
    adv = adv;
    picked = everywhere [];
    active_tab = blueprint_tab;
    active = blueprints;
    cursor = everywhere 0;
    searching = false;
    search_input = input;
    filter = [];
    width = 0;
    height = 0;
    committed = false;
    aborted = false;
  })
