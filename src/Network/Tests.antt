-- ===== src/Network/Tests.antt =====
-- Blocks in files, and the file of the network interfaces.
use ludus.Prelude.{◌≡◌, refl, true, false, none, [], ◌∷◌}
use ludus.Prelude.Text.{Text, codes, text_eq, trim_space}
use ludus.Network.{
  decimal, range_marker, interface_name, apply_block_in_file, ifup, ifdown,
  manage_vmbr_interface_standalone,
}
use ludus.Network.Interfaces.{
  host_with, is_new, manage_vmbr_interface_standalone-absent_present,
  manage_vmbr_interface_standalone-present_again,
}

decimal_test : decimal 1024 ≡ codes "1024"
unfolding decimal
decimal_test = refl

interface_name_test : interface_name 7 ≡ codes "vmbr1007"
unfolding interface_name
interface_name_test = refl

-- An old block is replaced where it stands.
apply_block_in_file_test :
    apply_block_in_file (codes "a\n# BEGIN\nold\n # END\nb\n") (codes "# {mark}") (codes "new") true
    ≡ (codes "a\n# BEGIN\nnew\n# END\nb\n", true)
unfolding apply_block_in_file text_eq trim_space
apply_block_in_file_test = refl

-- Without an end marker the rest of the file goes with the block.
apply_block_in_file_open_test :
    apply_block_in_file (codes "a\n# BEGIN\nold\nb\nc\n") (codes "# {mark}") (codes "new") false
    ≡ (codes "a\n", true)
unfolding apply_block_in_file text_eq trim_space
apply_block_in_file_open_test = refl

abbrev interfaces_text : Text
interfaces_text = codes "auto lo\niface lo inet loopback\n"

manage_vmbr_interface_standalone-absent_present_example :
    manage_vmbr_interface_standalone 2 false
      (manage_vmbr_interface_standalone 2 true (host_with interfaces_text [])).1
    ≡ (none, host_with interfaces_text (ifup (codes "vmbr1002") ∷ ifdown (codes "vmbr1002") ∷ []))
unfolding is_new interface_name range_marker text_eq trim_space
manage_vmbr_interface_standalone-absent_present_example =
    manage_vmbr_interface_standalone-absent_present 2 interfaces_text [] refl

manage_vmbr_interface_standalone-present_again_example :
    manage_vmbr_interface_standalone 2 true
      (manage_vmbr_interface_standalone 2 true (host_with interfaces_text [])).1
    ≡ (none, (manage_vmbr_interface_standalone 2 true (host_with interfaces_text [])).1)
unfolding is_new range_marker text_eq trim_space
manage_vmbr_interface_standalone-present_again_example =
    manage_vmbr_interface_standalone-present_again 2 interfaces_text [] refl
