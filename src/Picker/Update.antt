-- ===== src/Picker/Update.antt =====
-- update.go: the event loop; and picker.go: what a run returns.
use Prim.Native.Nat.{min, max}
use ludus.Prelude.{
  ℕ, ◌-◌, ◌/◌, true, false, not, Option, none, some, ◌||◌, List, [], ◌∷◌, if◌then◌else◌,
}
use ludus.Prelude.Text.{Text, lower, trim_space}
use ludus.Picker.Catalog.{SourceCatalog, InstallSelection, Tab, put}
use ludus.Picker.Model.{Advanced, Model, current_selection}
use ludus.Picker.Moves.{
  tab_has_content, switch_tab, cycle_tab, cursor_up, cursor_down, clamp_cursors, new_model,
}
use ludus.Picker.Toggle.{toggle_at_cursor, toggle_all_in_tab, toggle_all_everywhere}

-- The keys that the picker knows, by what they do without a search: `quit_key` is "q" and "ctrl+c",
-- `next_key` is "tab", "right" and "l", `previous_key` is "shift+tab", "left" and "h", and `tab_key` is
-- "1", "2" and "3". The arrows differ from "j" and "k" while a search is open.
pub data Key : Type 0 where
  esc enter quit_key slash next_key previous_key key_k up key_j down space key_a shift_a key_g key_f
        key_d :
      Key
  tab_key : Tab → Key
  other_key : ℕ → Key

pub data Msg : Type 0 where
  window_size : (width height : ℕ) → Msg
  key : Key → Msg
  other_msg : Msg

-- The command that goes back to Bubble Tea.
pub data Cmd : Type 0 where
  no_cmd quit input_cmd : Cmd

-- The text input of the Bubbles library.
pub record TextInput (I : Type 0) : Type 0 where
  pub new : I
  pub value : I → Text
  pub clear : I → I
  pub focus : I → I
  pub blur : I → I
  pub set_width : ℕ → I → I
  pub update : Key → I → I

unfoldable pub search_box_content_width : ℕ → ℕ
search_box_content_width w = max 20 (min (w - 2) (w / 3))

module _ {I : Type 0} (ti : TextInput I) where
  unfoldable pub committed_filter : I → Text
  committed_filter input = lower (trim_space (ti.value input))

  -- The filter is taken over and the search is closed.
  unfoldable pub commit_filter : Model I → Model I
  unfolding committed_filter
  commit_filter m = clamp_cursors (record m {
    searching = false;
    filter = committed_filter m.search_input;
    search_input = ti.blur m.search_input;
  })

  unfoldable pub first_row : Model I → Model I
  first_row m = record m { cursor = put m.cursor m.active 0 }

  unfoldable pub type_into_search : Key → Model I → Model I
  unfolding committed_filter
  type_into_search pressed m =
      let input = ti.update pressed m.search_input in
      clamp_cursors (record m { search_input = input; filter = committed_filter input })

  unfoldable pub update_search : Key → Model I → Model I × Cmd
  unfolding commit_filter first_row type_into_search
  update_search esc m = (
    clamp_cursors (record m {
      searching = false;
      filter = [];
      search_input = ti.blur (ti.clear m.search_input);
    }),
    no_cmd,
  )
  update_search enter m = (commit_filter m, no_cmd)
  update_search down m =
      (let m' = commit_filter m in first_row (switch_tab m'.active_tab m'), no_cmd)
  update_search pressed m = (type_into_search pressed m, input_cmd)

  unfoldable pub update_normal : Key → Model I → Model I × Cmd
  update_normal quit_key m = (record m { aborted = true }, quit)
  update_normal esc m = (record m { aborted = true }, quit)
  update_normal enter m = (record m { committed = true }, quit)
  update_normal slash m =
      (record m { searching = true; search_input = ti.clear (ti.focus m.search_input) }, no_cmd)
  update_normal next_key m = (cycle_tab true m, no_cmd)
  update_normal previous_key m = (cycle_tab false m, no_cmd)
  update_normal (tab_key t) m = (if tab_has_content m t then switch_tab t m else m, no_cmd)
  update_normal key_k m = ((cursor_up m).1, no_cmd)
  update_normal up m = (
    let (moved, m') = cursor_up m in
        if moved
        then m'
        else record m' { searching = true; search_input = ti.focus m'.search_input },
    no_cmd,
  )
  update_normal down m = (cursor_down m, no_cmd)
  update_normal key_j m = (cursor_down m, no_cmd)
  update_normal space m = (toggle_at_cursor m, no_cmd)
  update_normal key_a m = (toggle_all_in_tab m, no_cmd)
  update_normal shift_a m = (toggle_all_everywhere m, no_cmd)
  update_normal key_g m = (
    if m.adv.is_admin
        then record m { adv = record m.adv { global_scope = not m.adv.global_scope } }
        else m,
    no_cmd,
  )
  update_normal key_f m = (record m { adv = record m.adv { force = not m.adv.force } }, no_cmd)
  update_normal key_d m = (record m { adv = record m.adv { no_deps = not m.adv.no_deps } }, no_cmd)
  update_normal (other_key c) m = (m, no_cmd)

  unfoldable pub update : Msg → Model I → Model I × Cmd
  unfolding search_box_content_width
  update (window_size w h) m = (
    record m {
      width = w;
      height = h;
      search_input = ti.set_width (max 8 (search_box_content_width w - 7)) m.search_input;
    },
    no_cmd,
  )
  update (key pressed) m = if m.searching then update_search pressed m else update_normal pressed m
  update other_msg m = (m, no_cmd)

  -- The messages that reach the picker, up to the one that makes it quit.
  unfoldable pub run_from : Model I → List Msg → Model I
  run_from m [] = m
  run_from m (msg ∷ msgs) =
      let rest = run_from (update msg m).0 msgs in
      elim (update msg m).1 [ quit ↦ (update msg m).0 | no_cmd ↦ rest | input_cmd ↦ rest ]

-- What `Run` returns: the selection and the flags, or `none` if the user did not commit.
unfoldable pub outcome : {I : Type 0} → Model I → Option (InstallSelection × Advanced)
outcome m = if m.aborted || not m.committed then none else some (current_selection m, m.adv)

unfoldable pub run :
    {I : Type 0}
    → TextInput I
    → SourceCatalog
    → Advanced
    → List Msg
    → Option (InstallSelection × Advanced)
unfolding run_from outcome
run ti catalog adv msgs = outcome (run_from ti (new_model ti.new catalog adv) msgs)
