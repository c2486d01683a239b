-- ===== src/Network/Interfaces.antt =====
-- ludus-api/network.go, `manageVmbrInterfaceStandalone`: the block of a range in
-- /etc/network/interfaces, made and taken out.
use ludus.Prelude.{
  ℕ, ◌≡◌, sym, ap, ◌∙◌, Bool, true, false, not, List, [], ◌∷◌, ◌++◌, none, some, Option,
}
use mathlib.Core.Path.{ap₂}
use ludus.Prelude.Text.{Text, trim_space, text_eq, split}
use ludus.Network.{
  newline, apply_block, markers, apply_block_in_file, interface_name, range_marker, range_block,
  Host, ifup, ifdown, FileError, NetworkCommand, write_interfaces, manage_vmbr_interface_standalone,
}
use ludus.Prelude.Splitting.{text_eq_comm}
use ludus.Network.Edited.{free}
use ludus.Network.Placed.{placed, apply_block-placed, apply_block-absent, apply_block-again}
use ludus.Network.Visible.{text_eq-placed, apply_block-changed}
use ludus.Network.Markers.{
  range_markers, range_markers-AreMarkers, range_markers-AreLines, range_markers-visible,
  range_markers-free,
}

-- A host whose file can be read and written.
abbrev pub host_with : Text → List NetworkCommand → Host
host_with text commands = record {
  interfaces = record { content = some text; writable = true };
  commands = commands;
}

-- The file has no line with the range's start marker.
unfoldable pub is_new : ℕ → Text → Bool
unfolding free split markers
is_new n original = free (range_markers n).start_marker (split newline [] original)

module _ (n : ℕ) (original : Text) (new : is_new n original ≡ true) where
  abbrev with_block : Text
  with_block = placed (range_markers n) original

  block_placed :
      apply_block_in_file original (range_marker n) (range_block n) true ≡ (with_block, true)
  unfolding is_new apply_block_in_file
  block_placed =
      let content = apply_block-placed (range_markers n) (range_markers-AreLines n) original new in
      let changed : (apply_block original (range_markers n) true).1 ≡ true =
        apply_block-changed (range_markers n) true original
        ∙ ap (λ t. not (text_eq (trim_space original) (trim_space t))) content
        ∙ ap not (text_eq-placed (range_markers n) original (range_markers-visible n)) in
      ap₂ (λ (t : Text) (c : Bool). (t, c)) content changed

  block_absent :
      apply_block_in_file with_block (range_marker n) (range_block n) false ≡ (original, true)
  unfolding is_new apply_block_in_file
  block_absent =
      let content =
        apply_block-absent (range_markers n) (range_markers-AreLines n) original
          (range_markers-AreMarkers n) new (range_markers-free n) in
      let changed : (apply_block with_block (range_markers n) false).1 ≡ true =
        apply_block-changed (range_markers n) false with_block
        ∙ ap (λ t. not (text_eq (trim_space with_block) (trim_space t))) content
        ∙ ap not (
            text_eq_comm (trim_space with_block) (trim_space original)
            ∙ text_eq-placed (range_markers n) original (range_markers-visible n)) in
      ap₂ (λ (t : Text) (c : Bool). (t, c)) content changed

  block_again :
      apply_block_in_file with_block (range_marker n) (range_block n) true ≡ (with_block, false)
  unfolding is_new apply_block_in_file
  block_again =
      apply_block-again (range_markers n) (range_markers-AreLines n) original
        (range_markers-AreMarkers n) new (range_markers-free n)

  present_lem :
      (commands : List NetworkCommand)
      → manage_vmbr_interface_standalone n true (host_with original commands)
        ≡ (none, host_with with_block (commands ++ ifup (interface_name n) ∷ []))
  unfolding manage_vmbr_interface_standalone
  present_lem commands =
      ap (write_interfaces (interface_name n) true (host_with original commands)) block_placed

  absent_lem :
      (commands : List NetworkCommand)
      → manage_vmbr_interface_standalone n false (host_with with_block commands)
        ≡ (none, host_with original (commands ++ ifdown (interface_name n) ∷ []))
  unfolding manage_vmbr_interface_standalone
  absent_lem commands =
      ap (write_interfaces (interface_name n) false (host_with with_block commands)) block_absent

  again_lem :
      (commands : List NetworkCommand)
      → manage_vmbr_interface_standalone n true (host_with with_block commands)
        ≡ (none, host_with with_block commands)
  unfolding manage_vmbr_interface_standalone
  again_lem commands =
      ap (write_interfaces (interface_name n) true (host_with with_block commands)) block_again

-- In a readable and writable file without a line that is the start marker of a range's block when
-- trimmed, making the block of the range and then taking it out succeeds and gives back the file,
-- character by character; `ifup` of the range's interface and then `ifdown` have been run.
pub manage_vmbr_interface_standalone-absent_present :
    (n : ℕ) (original : Text) (commands : List NetworkCommand)
    → is_new n original ≡ true
    → manage_vmbr_interface_standalone n false
        (manage_vmbr_interface_standalone n true (host_with original commands)).1
      ≡ (
        none,
        host_with original
            (commands ++ ifup (interface_name n) ∷ [] ++ ifdown (interface_name n) ∷ []),
      )
manage_vmbr_interface_standalone-absent_present n original commands new =
    ap (λ (r : Option FileError × Host). manage_vmbr_interface_standalone n false r.1)
      (present_lem n original new commands)
    ∙ absent_lem n original new (commands ++ ifup (interface_name n) ∷ [])

-- In a readable and writable file without a line that is the start marker of a range's block when
-- trimmed, making the block of the range a second time succeeds, writes nothing and runs no command.
pub manage_vmbr_interface_standalone-present_again :
    (n : ℕ) (original : Text) (commands : List NetworkCommand)
    → is_new n original ≡ true
    → manage_vmbr_interface_standalone n true
        (manage_vmbr_interface_standalone n true (host_with original commands)).1
      ≡ (none, (manage_vmbr_interface_standalone n true (host_with original commands)).1)
manage_vmbr_interface_standalone-present_again n original commands new =
    let made = present_lem n original new commands in
    ap (λ (r : Option FileError × Host). manage_vmbr_interface_standalone n true r.1) made
    ∙ again_lem n original new (commands ++ ifup (interface_name n) ∷ [])
    ∙ ap (λ (r : Option FileError × Host). (none, r.1)) (sym made)
