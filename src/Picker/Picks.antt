-- ===== src/Picker/Picks.antt =====
-- update.go: checking and unchecking rows, and the invariant of the cursors.
use ludus.Prelude.{
  String, inl, inr, Bool, true, false, List, [], ◌∷◌, contains, get_elem?, Bool-cases, Option-cases,
}
use ludus.Picker.Catalog.{Section, all_sections, sections, get}
use ludus.Picker.Model.{Row, Model, visible_toggleable, is_implied_only}
use ludus.Picker.Toggle.{
  set_picked, toggle_row, toggle_at_cursor, set_rows, set_sections, toggle_all_over,
  toggle_all_in_tab, toggle_all_everywhere, any_unpicked,
}
use ludus.Picker.Cursors.{IsSane, if-IsSane}

module _ {I : Type 0} where
  -- Picks do not move a cursor.
  set_picked-IsSane :
      (pick : Bool) (sec : Section) (id : String) (m : Model I)
      → IsSane m
      → IsSane (set_picked pick sec id m)
  unfolding set_picked visible_toggleable
  set_picked-IsSane true sec id m s = record {
    cursors = s.cursors;
    active_in_tab = s.active_in_tab;
  }
  set_picked-IsSane false sec id m s = record {
    cursors = s.cursors;
    active_in_tab = s.active_in_tab;
  }

  toggle_row-IsSane : (r : Row) (m : Model I) → IsSane m → IsSane (toggle_row r m)
  unfolding toggle_row
  toggle_row-IsSane r m s = if-IsSane (is_implied_only m r) s (
      if-IsSane (contains (get m.picked m.active) r.id) (set_picked-IsSane false m.active r.id m s)
        (set_picked-IsSane true m.active r.id m s))

  pub toggle_at_cursor-IsSane : (m : Model I) → IsSane m → IsSane (toggle_at_cursor m)
  unfolding toggle_at_cursor toggle_row
  toggle_at_cursor-IsSane m s =
      elim (Option-cases (get_elem? (visible_toggleable m m.active) (get m.cursor m.active))) [
        | inl e ↦ rw (toggle_at_cursor, e) s
        | inr (r, e) ↦ rw (toggle_at_cursor, e) (toggle_row-IsSane r m s)
      ]

  set_rows-IsSane :
      (pick : Bool) (sec : Section) (rows : List Row) (m : Model I)
      → IsSane m
      → IsSane (set_rows pick sec rows m)
  unfolding set_rows
  set_rows-IsSane pick sec [] m s = s
  set_rows-IsSane pick sec (r ∷ rows) m s = elim (Bool-cases (is_implied_only m r)) [
    | inl implied ↦ rw (set_rows, implied) (set_rows-IsSane pick sec rows m s)
    | inr free ↦
        rw (set_rows, free)
          (set_rows-IsSane pick sec rows (set_picked pick sec r.id m)
            (set_picked-IsSane pick sec r.id m s))
  ]

  set_sections-IsSane :
      (pick : Bool) (secs : List Section) (m : Model I)
      → IsSane m
      → IsSane (set_sections pick secs m)
  unfolding set_sections
  set_sections-IsSane pick [] m s = s
  set_sections-IsSane pick (sec ∷ secs) m s =
      set_sections-IsSane pick secs (set_rows pick sec (visible_toggleable m sec) m)
        (set_rows-IsSane pick sec (visible_toggleable m sec) m s)

  pub toggle_all_in_tab-IsSane : (m : Model I) → IsSane m → IsSane (toggle_all_in_tab m)
  unfolding toggle_all_in_tab toggle_all_over
  toggle_all_in_tab-IsSane m s =
      set_sections-IsSane (any_unpicked m (sections m.active_tab)) (sections m.active_tab) m s

  pub toggle_all_everywhere-IsSane : (m : Model I) → IsSane m → IsSane (toggle_all_everywhere m)
  unfolding toggle_all_everywhere toggle_all_over
  toggle_all_everywhere-IsSane m s =
      set_sections-IsSane (any_unpicked m all_sections) all_sections m s
