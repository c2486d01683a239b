-- ===== src/Archive/Zip.antt =====
-- ludus-api/archive_extract.go, `ExtractZipFile`: the loop over the entries, with the cap on the bytes
-- that are written.
use Prim.Native.Nat.{min}
use ludus.Prelude.{
  ℕ, ◌+◌, ◌-◌, String, Bool, true, false, not, ◌&&◌, ◌||◌, Option, none, some, List, [], ◌∷◌, ◌++◌,
  leb, ltb, eqb, if◌then◌else◌,
}
use ludus.Prelude.Text.{Text, is_empty, split}
use ludus.Archive.{
  slash, has_prefix, clean, skipped, unsafe_path, escapes, target, safe_extract_path,
  detect_single_root, strip_prefix_segment,
}
pub mod Cap
mod Tests

-- 0 bytes stand for no cap, as any number below 1 does in the source, and no cap is so large that one
-- more overflows 64 bits.
pub record ExtractOptions : Type 0 where
  pub max_bytes : ℕ
  pub strip_single_root : Bool
  pub reject_dangerous_entries : Bool

-- `readable` bytes can be copied, and then there is the end or a failure.
pub record Entry : Type 0 where
  pub name : Text
  pub is_symlink : Bool
  pub is_dir : Bool
  pub opens : Bool
  pub readable : ℕ
  pub read_failure : Option String

pub data ExtractError : Type 0 where
  symlink_refused : Text → ExtractError
  path_refused : Text → ExtractError
  mkdir_failed create_failed open_failed copy_failed over_limit : ExtractError

-- What the file system answers, by path.
pub record World : Type 0 where
  pub mkdir_all : Text → Bool
  pub create : Text → Bool

-- `files` has the bytes of each file that was written, and `written` is the counter of the loop.
pub record State : Type 0 where
  pub dirs : List Text
  pub files : List (Text × ℕ)
  pub written : ℕ

-- The last segment that is not empty.
unfoldable pub last_segment : Text → List Text → Text
last_segment last [] = last
last_segment last (s ∷ ss) = last_segment (if is_empty s then last else s) ss

unfoldable pub is_mac_os_apple_double : Text → Bool
unfolding last_segment has_prefix split
is_mac_os_apple_double name = has_prefix (b'.' ∷ b'_' ∷ []) (last_segment [] (split slash [] name))

-- The text up to the last "/", which is kept.
unfoldable pub up_to_slash : Text → Text → Text
up_to_slash kept [] = []
up_to_slash kept (c ∷ s) =
    let at_slash = up_to_slash [] s in
    let later = up_to_slash (kept ++ c ∷ []) s in
    if eqb c slash then kept ++ c ∷ at_slash else later

-- `filepath.Dir`
unfoldable pub dir_of : Text → Text
unfolding clean up_to_slash
dir_of path = clean (up_to_slash [] path)

-- `io.CopyN` under a cap, up to one byte beyond it, and `io.Copy` without: the bytes that are copied.
-- The loop stops as soon as `written` is above the cap, so the difference is that of the source.
unfoldable pub copied : ExtractOptions → Entry → ℕ → ℕ
copied opts e written =
    if leb 1 opts.max_bytes then min e.readable ((opts.max_bytes - written) + 1) else e.readable

-- A failure of the copy other than the end of the file. A copy that has all the bytes it wants meets
-- none.
unfoldable pub copy_failure : ExtractOptions → Entry → ℕ → Option String
copy_failure opts e written =
    if leb 1 opts.max_bytes && leb ((opts.max_bytes - written) + 1) e.readable
    then none
    else e.read_failure

unfoldable pub write_file : ExtractOptions → Entry → Text → State → Option ExtractError × State
unfolding copied copy_failure
write_file opts e path s =
    let n = copied opts e s.written in
    let s' = record s { files = s.files ++ (path, n) ∷ [] } in
    elim (copy_failure opts e s.written) [
      | some why ↦ (some copy_failed, s')
      | none ↦
          let s'' = record s' { written = s.written + n } in
          if leb 1 opts.max_bytes && ltb opts.max_bytes (s.written + n)
          then (some over_limit, s'')
          else (none, s'')
    ]

unfoldable pub extract_file :
    World → ExtractOptions → Entry → Text → State → Option ExtractError × State
unfolding write_file dir_of
extract_file w opts e path s =
    if not (w.mkdir_all (dir_of path))
    then (some mkdir_failed, s)
    else if not (w.create path)
    then (some create_failed, s)
    else if not e.opens
    then (some open_failed, record s { files = s.files ++ (path, 0) ∷ [] })
    else write_file opts e path s

unfoldable pub extract_to :
    World → ExtractOptions → Entry → Text → Text → State → Option ExtractError × State
unfolding extract_file is_mac_os_apple_double
extract_to w opts e stripped path s =
    if is_mac_os_apple_double stripped
    then (none, s)
    else if e.is_dir
    then (if w.mkdir_all path
        then (none, record s { dirs = s.dirs ++ path ∷ [] })
        else (some mkdir_failed, s))
    else extract_file w opts e path s

-- A round of the loop.
unfoldable pub extract_entry :
    World → ExtractOptions → Text → Text → Entry → State → Option ExtractError × State
unfolding extract_to
extract_entry w opts dest_dir root e s =
    if opts.reject_dangerous_entries && e.is_symlink
    then (some (symlink_refused e.name), s)
    else (let stripped = strip_prefix_segment e.name root in
        elim (safe_extract_path dest_dir stripped) [
          | unsafe_path ↦ (some (path_refused stripped), s)
          | escapes ↦ (some (path_refused stripped), s)
          | skipped ↦ (none, s)
          | target path ↦ extract_to w opts e stripped path s
        ])

unfoldable pub extract_entries :
    World → ExtractOptions → Text → Text → List Entry → State → Option ExtractError × State
unfolding extract_entry
extract_entries w opts dest_dir root [] s = (none, s)
extract_entries w opts dest_dir root (e ∷ es) s =
    let (failure, s') = extract_entry w opts dest_dir root e s in
    let rest = extract_entries w opts dest_dir root es s' in
    elim failure [ none ↦ rest | some why ↦ (some why, s') ]

unfoldable pub entry_names : List Entry → List Text
entry_names [] = []
entry_names (e ∷ es) = e.name ∷ entry_names es

-- The archive has been opened.
unfoldable pub extract_zip_file :
    World → ExtractOptions → Text → List Entry → Option ExtractError × State
unfolding extract_entries entry_names
extract_zip_file w opts dest_dir entries =
    let root = if opts.strip_single_root then detect_single_root (entry_names entries) else [] in
    extract_entries w opts dest_dir root entries (record { dirs = []; files = []; written = 0 })
