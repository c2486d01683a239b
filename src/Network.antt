-- ===== src/Network.antt =====
-- ludus-api/file_operations.go, `applyBlockInFile` and `applyBlockInFileAtPath`, and
-- ludus-api/network.go, which keeps a block for each range in /etc/network/interfaces. A file is its
-- text, or `none` where it cannot be read; commands that are run are recorded.
use Prim.Native.String.{String}
use ludus.Prelude.{
  ℕ, zero, suc, ◌+◌, ◌/◌, ◌%◌, Bool, true, false, not, ◌&&◌, Option, none, some, List, [], ◌∷◌,
  ◌++◌, ltb, eqb, if◌then◌else◌,
}
use ludus.Prelude.Text.{Text, codes, trim_space, is_empty, text_eq, split, join}
pub mod Edited
pub mod Ends
pub mod Placed
pub mod Visible
pub mod Markers
pub mod Interfaces
mod Tests

abbrev pub newline : ℕ
newline = 10

-- Does the text begin with the first one? Then the rest.
unfoldable pub after_prefix : Text → Text → Option Text
after_prefix [] s = some s
after_prefix (c ∷ p) [] = none
after_prefix (c ∷ p) (d ∷ s) = let rest = after_prefix p s in if eqb c d then rest else none

-- `strings.Replace` with the count 1, of a text that is not empty.
unfoldable pub replace_first : Text → Text → Text → Text
unfolding after_prefix
replace_first old new [] = []
replace_first old new (c ∷ s) =
    let later = replace_first old new s in
    elim (after_prefix old (c ∷ s)) [ some rest ↦ new ++ rest | none ↦ c ∷ later ]

-- The two markers, and the block between them, which is one entry of the list of lines.
pub record Block : Type 0 where
  pub start_marker : Text
  pub body : Text
  pub end_marker : Text

abbrev pub block_lines : Block → List Text
block_lines b = b.start_marker ∷ b.body ∷ b.end_marker ∷ []

-- The loop over the lines; `skipping` while the old block is passed over, which begins at its start
-- marker. The first component is `blockFound`.
unfoldable pub edit_lines : Block → Bool → Bool → List Text → Bool × List Text
edit_lines b present skipping [] = (false, [])
edit_lines b present true (line ∷ lines) =
    edit_lines b present (not (text_eq (trim_space line) b.end_marker)) lines
edit_lines b present false (line ∷ lines) =
    let starts = text_eq (trim_space line) b.start_marker in
    let rest =
      edit_lines b present (starts && not (text_eq (trim_space line) b.end_marker)) lines in
    if starts
    then (true, (if present then block_lines b else []) ++ rest.1)
    else (rest.0, line ∷ rest.1)

-- The last line, if it is empty, is dropped. There is always a line.
unfoldable pub drop_last_empty : List Text → List Text
drop_last_empty [] = []
drop_last_empty (line ∷ []) = if is_empty line then [] else line ∷ []
drop_last_empty (line ∷ next ∷ lines) = line ∷ drop_last_empty (next ∷ lines)

unfoldable pub new_lines : Block → Bool → List Text → List Text
unfolding edit_lines drop_last_empty
new_lines b present lines =
    let edited = edit_lines b present false lines in
    if not edited.0 && present then drop_last_empty edited.1 ++ block_lines b else edited.1

unfoldable pub ends_with_newline : Text → Bool
ends_with_newline [] = false
ends_with_newline (c ∷ []) = eqb c newline
ends_with_newline (c ∷ d ∷ s) = ends_with_newline (d ∷ s)

-- The part of `applyBlockInFile` after the markers are made.
unfoldable pub apply_block : Text → Block → Bool → Text × Bool
unfolding new_lines ends_with_newline split join
apply_block original b present =
    let final = join newline (new_lines b present (split newline [] original)) in
    let content =
      if ends_with_newline original && (not (is_empty final) && not (ends_with_newline final))
      then final ++ newline ∷ []
      else final in
    (content, not (text_eq (trim_space original) (trim_space content)))

unfoldable pub markers : Text → Text → Block
unfolding replace_first
markers marker block = record {
  start_marker = replace_first (codes "{mark}") (codes "BEGIN") marker;
  body = block;
  end_marker = replace_first (codes "{mark}") (codes "END") marker;
}

unfoldable pub apply_block_in_file : Text → Text → Text → Bool → Text × Bool
unfolding apply_block markers
apply_block_in_file original marker block present =
    apply_block original (markers marker block) present

pub data FileError : Type 0 where
  read_failed write_failed : FileError

-- `writable` says whether writes succeed.
pub record File : Type 0 where
  pub content : Option Text
  pub writable : Bool

pub data Outcome : Type 0 where
  changed unchanged : Outcome
  file_error : FileError → Outcome

-- `applyBlockInFileAtPath`; the mode of the file stays.
unfoldable pub apply_block_in_file_at_path : File → Text → Text → Bool → Outcome × File
unfolding apply_block_in_file
apply_block_in_file_at_path file marker block present = elim file.content [
  | none ↦ (file_error read_failed, file)
  | some original ↦
      let applied = apply_block_in_file original marker block present in
      if applied.1
      then (if file.writable
          then (changed, record file { content = some applied.0 })
          else (file_error write_failed, file))
      else (unchanged, file)
]

-- `%d`, by the fuel.
unfoldable pub decimal_from : ℕ → ℕ → Text → Text
decimal_from zero n digits = digits
decimal_from (suc fuel) n digits =
    let shown = (n % 10 + b'0') ∷ digits in
    let rest = decimal_from fuel (n / 10) shown in if ltb n 10 then shown else rest

unfoldable pub decimal : ℕ → Text
unfolding decimal_from
decimal n = decimal_from (suc n) n []

-- `%03d`
unfoldable pub decimal_3 : ℕ → Text
unfolding decimal
decimal_3 n = (if ltb n 10 then codes "00" else if ltb n 100 then codes "0" else []) ++ decimal n

unfoldable pub interface_name : ℕ → Text
unfolding decimal_3
interface_name range_number = codes "vmbr1" ++ decimal_3 range_number

unfoldable pub range_marker : ℕ → Text
unfolding decimal
range_marker range_number =
    codes "# LUDUS MANAGED INTERFACE FOR USER " ++ decimal range_number ++ codes " {mark}"

abbrev pub range_lines : Text → Text → Text → List Text
range_lines name number gateway =
    (codes "auto " ++ name)
    ∷ (codes "iface " ++ name ++ codes " inet manual")
    ∷ codes "    bridge-ports none"
    ∷ codes "    bridge-stp off"
    ∷ codes "    bridge-fd 0"
    ∷ codes "    bridge-vlan-aware yes"
    ∷ codes "    bridge-vids 2-4094"
    ∷ (codes "    post-up ip route add 10." ++ number ++ codes ".0.0/16 via 192.0.2." ++ gateway)
    ∷ (codes "    post-down ip route del 10." ++ number ++ codes ".0.0/16 via 192.0.2." ++ gateway)
    ∷ []

unfoldable pub range_block : ℕ → Text
unfolding decimal interface_name
range_block range_number = join newline (
    range_lines (interface_name range_number) (decimal range_number) (decimal (100 + range_number)))

-- The two commands; their errors are ignored.
pub data NetworkCommand : Type 0 where
  ifup ifdown : Text → NetworkCommand

pub record Host : Type 0 where
  pub interfaces : File
  pub commands : List NetworkCommand

-- What is done with the new text and with whether it differs.
unfoldable pub write_interfaces : Text → Bool → Host → Text × Bool → Option FileError × Host
write_interfaces name present host (new_content, content_changed) =
    if content_changed
    then (if host.interfaces.writable
        then (
          none,
          record host {
            interfaces = record host.interfaces { content = some new_content };
            commands = host.commands ++ (if present then ifup name else ifdown name) ∷ [];
          },
        )
        else (some write_failed, host))
    else (none, host)

unfoldable pub manage_vmbr_interface_standalone : ℕ → Bool → Host → Option FileError × Host
unfolding apply_block_in_file range_marker range_block interface_name write_interfaces
manage_vmbr_interface_standalone range_number present host = elim host.interfaces.content [
  | none ↦ (some read_failed, host)
  | some original ↦
      write_interfaces (interface_name range_number) present host (
        apply_block_in_file original (range_marker range_number) (range_block range_number) present)
]

-- With SDN networking the VNet of the range is managed instead: `manage_vnet` is that function. The
-- two callers differ in the rangeID that they hand on.
unfoldable pub manage_range_network :
    {E : Type 0}
    → (FileError → E)
    → Bool
    → (String → ℕ → Bool → Option E)
    → String
    → ℕ
    → Bool
    → Host
    → Option E × Host
unfolding manage_vmbr_interface_standalone
manage_range_network wrap use_sdn manage_vnet range_id range_number present host =
    if use_sdn
    then (manage_vnet range_id range_number present, host)
    else (let (failure, host') = manage_vmbr_interface_standalone range_number present host in
        (elim failure [ none ↦ none | some e ↦ some (wrap e) ], host'))
