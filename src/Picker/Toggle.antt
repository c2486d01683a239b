-- ===== src/Picker/Toggle.antt =====
-- update.go: checking and unchecking rows.
use ludus.Prelude.{
  String, Bool, true, false, none, some, List, [], ◌∷◌, ◌++◌, contains, get_elem?, ◌==◌,
  if◌then◌else◌,
}
use ludus.Picker.Catalog.{Section, all_sections, sections, get, put}
use ludus.Picker.Model.{Row, Model, is_implied_only, visible_toggleable}

-- `set[id] = struct{}{}` and `delete(set, id)`
unfoldable pub check : String → List String → List String
check id set = if contains set id then set else set ++ id ∷ []

unfoldable pub uncheck : String → List String → List String
uncheck id [] = []
uncheck id (x ∷ xs) = let rest = uncheck id xs in if x == id then rest else x ∷ rest

module _ {I : Type 0} where
  -- In the set of a section.
  unfoldable pub set_picked : Bool → Section → String → Model I → Model I
  unfolding check uncheck
  set_picked true sec id m = record m { picked = put m.picked sec (check id (get m.picked sec)) }
  set_picked false sec id m = record m { picked = put m.picked sec (uncheck id (get m.picked sec)) }

  unfoldable pub toggle_row : Row → Model I → Model I
  unfolding set_picked
  toggle_row r m =
      if is_implied_only m r
      then m
      else if contains (get m.picked m.active) r.id
      then set_picked false m.active r.id m
      else set_picked true m.active r.id m

  unfoldable pub toggle_at_cursor : Model I → Model I
  unfolding toggle_row
  toggle_at_cursor m = elim (get_elem? (visible_toggleable m m.active) (get m.cursor m.active)) [
    | none ↦ m
    | some r ↦ toggle_row r m
  ]

  -- The search for a row that is neither picked nor implied.
  unfoldable pub any_unpicked_row : Model I → Section → List Row → Bool
  any_unpicked_row m sec [] = false
  any_unpicked_row m sec (r ∷ rows) =
      let rest = any_unpicked_row m sec rows in
      if is_implied_only m r then rest else if contains (get m.picked sec) r.id then rest else true

  unfoldable pub any_unpicked : Model I → List Section → Bool
  unfolding any_unpicked_row
  any_unpicked m [] = false
  any_unpicked m (sec ∷ secs) =
      if any_unpicked_row m sec (visible_toggleable m sec) then true else any_unpicked m secs

  -- What is implied is asked anew for each row, of the picks made so far.
  unfoldable pub set_rows : Bool → Section → List Row → Model I → Model I
  unfolding set_picked
  set_rows pick sec [] m = m
  set_rows pick sec (r ∷ rows) m =
      set_rows pick sec rows (if is_implied_only m r then m else set_picked pick sec r.id m)

  unfoldable pub set_sections : Bool → List Section → Model I → Model I
  unfolding set_rows
  set_sections pick [] m = m
  set_sections pick (sec ∷ secs) m =
      set_sections pick secs (set_rows pick sec (visible_toggleable m sec) m)

  unfoldable pub toggle_all_over : List Section → Model I → Model I
  unfolding any_unpicked set_sections
  toggle_all_over secs m = set_sections (any_unpicked m secs) secs m

  unfoldable pub toggle_all_in_tab : Model I → Model I
  unfolding toggle_all_over sections
  toggle_all_in_tab m = toggle_all_over (sections m.active_tab) m

  unfoldable pub toggle_all_everywhere : Model I → Model I
  unfolding toggle_all_over
  toggle_all_everywhere m = toggle_all_over all_sections m
