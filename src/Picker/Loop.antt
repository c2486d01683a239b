-- ===== src/Picker/Loop.antt =====
-- update.go: the event loop, and the invariant of the cursors and the active section.
use ludus.Prelude.{refl, inl, Bool, true, false, List, [], ◌∷◌, if◌then◌else◌}
use ludus.Picker.Catalog.{SourceCatalog}
use ludus.Picker.Model.{Advanced, Model, visible_toggleable}
use ludus.Picker.Moves.{tab_has_content, switch_tab, cursor_up, new_model}
use ludus.Picker.Update.{
  TextInput, Key, Msg, Cmd, update_search, update_normal, update, commit_filter, type_into_search,
  run_from, esc, enter, quit_key, next_key, previous_key, key_k, up, key_j, down, space, key_a,
  shift_a, key_g, tab_key, window_size, key, other_msg, quit, no_cmd, input_cmd,
}
use ludus.Picker.Cursors.{
  IsSane, if-IsSane, switch_tab-IsSane, clamp_cursors-IsSane, move_to, cursor_up-IsSane,
  cursor_down-IsSane, cycle_tab-IsSane, new_model-IsSane,
}
use ludus.Picker.Picks.{
  toggle_at_cursor-IsSane, toggle_all_in_tab-IsSane, toggle_all_everywhere-IsSane,
}

module _ {I : Type 0} (ti : TextInput I) where
  commit_filter-IsSane : (m : Model I) → IsSane m → IsSane (commit_filter ti m)
  unfolding commit_filter
  commit_filter-IsSane m s = clamp_cursors-IsSane _ s.active_in_tab

  type_into_search-IsSane :
      (pressed : Key) (m : Model I) → IsSane m → IsSane (type_into_search ti pressed m)
  unfolding type_into_search
  type_into_search-IsSane pressed m s = clamp_cursors-IsSane _ s.active_in_tab

  search_down-IsSane : (m : Model I) → IsSane m → IsSane (update_search ti down m).0
  unfolding update_search
  search_down-IsSane m s =
      let m' = commit_filter ti m in
      let s' = switch_tab-IsSane m'.active_tab m' (commit_filter-IsSane m s) in
      move_to (switch_tab m'.active_tab m') (switch_tab m'.active_tab m').active 0 s'.active_in_tab
        (inl refl) s'

  update_search-IsSane :
      (pressed : Key) (m : Model I) → IsSane m → IsSane (update_search ti pressed m).0
  unfolding update_search
  update_search-IsSane esc m s = clamp_cursors-IsSane _ s.active_in_tab
  update_search-IsSane enter m s = commit_filter-IsSane m s
  update_search-IsSane down m s = search_down-IsSane m s
  update_search-IsSane pressed m s = type_into_search-IsSane pressed m s

  update_normal-IsSane :
      (pressed : Key) (m : Model I) → IsSane m → IsSane (update_normal ti pressed m).0
  unfolding update_normal visible_toggleable
  update_normal-IsSane quit_key m s = record {
    cursors = s.cursors;
    active_in_tab = s.active_in_tab;
  }
  update_normal-IsSane next_key m s = cycle_tab-IsSane true m s
  update_normal-IsSane previous_key m s = cycle_tab-IsSane false m s
  update_normal-IsSane (tab_key t) m s = if-IsSane (tab_has_content m t) (switch_tab-IsSane t m s) s
  update_normal-IsSane key_k m s = cursor_up-IsSane m s
  update_normal-IsSane up m s =
      let s' = cursor_up-IsSane m s in
      if-IsSane (cursor_up m).0 s'
        (record { cursors = s'.cursors; active_in_tab = s'.active_in_tab })
  update_normal-IsSane down m s = cursor_down-IsSane m s
  update_normal-IsSane key_j m s = cursor_down-IsSane m s
  update_normal-IsSane space m s = toggle_at_cursor-IsSane m s
  update_normal-IsSane key_a m s = toggle_all_in_tab-IsSane m s
  update_normal-IsSane shift_a m s = toggle_all_everywhere-IsSane m s
  update_normal-IsSane key_g m s =
      if-IsSane m.adv.is_admin (record { cursors = s.cursors; active_in_tab = s.active_in_tab }) s
  update_normal-IsSane _ m s = record { cursors = s.cursors; active_in_tab = s.active_in_tab }

  result-IsSane :
      (b : Bool) (x y : Model I × Cmd) → IsSane x.0 → IsSane y.0 → IsSane (if b then x else y).0
  result-IsSane true _ _ s s' = s
  result-IsSane false _ _ s s' = s'

  -- From a sane state, in which the cursors are within their visible rows and the active section
  -- belongs to the active tab, every message leads to a sane state.
  pub update-IsSane : (msg : Msg) (m : Model I) → IsSane m → IsSane (update ti msg m).0
  unfolding update visible_toggleable
  update-IsSane (window_size w h) m s = record {
    cursors = s.cursors;
    active_in_tab = s.active_in_tab;
  }
  update-IsSane (key pressed) m s =
      result-IsSane m.searching _ _ (update_search-IsSane pressed m s)
        (update_normal-IsSane pressed m s)
  update-IsSane other_msg m s = s

  run_from-IsSane : (m : Model I) (msgs : List Msg) → IsSane m → IsSane (run_from ti m msgs)
  unfolding run_from
  run_from-IsSane m [] s = s
  run_from-IsSane m (msg ∷ msgs) s =
      let here = update-IsSane msg m s in
      by_cmd (update ti msg m).1 here (run_from-IsSane (update ti msg m).0 msgs here)
    where
      by_cmd :
          (c : Cmd) {now later : Model I}
          → IsSane now
          → IsSane later
          → IsSane (elim c [ quit ↦ now | no_cmd ↦ later | input_cmd ↦ later ])
      by_cmd quit n l = n
      by_cmd no_cmd n l = l
      by_cmd input_cmd n l = l

  -- In every state that a run of the picker reaches, from whatever catalog and flags and by
  -- whatever messages, the cursors are within their visible rows and the active section belongs to
  -- the active tab.
  pub run_from-new_model-IsSane :
      (catalog : SourceCatalog) (adv : Advanced) (msgs : List Msg)
      → IsSane (run_from ti (new_model ti.new catalog adv) msgs)
  run_from-new_model-IsSane catalog adv msgs =
      run_from-IsSane (new_model ti.new catalog adv) msgs (new_model-IsSane ti.new catalog adv)
