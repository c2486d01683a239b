-- ===== src/Archive.antt =====
-- ludus-api/archive_extract.go: where an entry of an archive is written, and the single root that is
-- stripped. Paths are texts with "/" between their segments, as on Linux.
use ludus.Prelude.{
  ℕ, Bool, true, false, not, ◌&&◌, ◌||◌, List, [], ◌∷◌, ◌++◌, contains_nat, eqb, if◌then◌else◌,
}
use ludus.Prelude.Text.{Text, codes, is_empty, text_eq, split, join}
pub mod Segments
pub mod Inside
pub mod Root
pub mod Zip
mod Tests

abbrev pub slash : ℕ
slash = b'/'

abbrev pub dot : Text
dot = b'.' ∷ []

abbrev pub dot_dot : Text
dot_dot = b'.' ∷ b'.' ∷ []

abbrev pub is_dot : Text → Bool
is_dot s = text_eq s dot

abbrev pub is_dot_dot : Text → Bool
is_dot_dot s = text_eq s dot_dot

-- `strings.HasPrefix`, the prefix first.
unfoldable pub has_prefix : Text → Text → Bool
has_prefix [] s = true
has_prefix (c ∷ p) [] = false
has_prefix (c ∷ p) (d ∷ s) = eqb c d && has_prefix p s

-- What `filepath.Clean` does with a ".." after these segments.
unfoldable pub up : Bool → List Text → List Text
up rooted [] = if rooted then [] else dot_dot ∷ []
up rooted (s ∷ []) = if is_dot_dot s then s ∷ dot_dot ∷ [] else []
up rooted (s ∷ t ∷ ss) = s ∷ up rooted (t ∷ ss)

unfoldable pub enter : Bool → List Text → Text → List Text
unfolding up text_eq
enter rooted segments s =
    if is_empty s || is_dot s
    then segments
    else if is_dot_dot s
    then up rooted segments
    else segments ++ s ∷ []

unfoldable pub enter_all : Bool → List Text → List Text → List Text
unfolding enter
enter_all rooted segments [] = segments
enter_all rooted segments (s ∷ ss) = enter_all rooted (enter rooted segments s) ss

-- `filepath.IsAbs`
unfoldable pub is_abs : Text → Bool
is_abs [] = false
is_abs (c ∷ s) = eqb c slash

-- `filepath.Clean`
unfoldable pub clean : Text → Text
unfolding is_abs join enter_all split
clean name =
    let body = join slash (enter_all (is_abs name) [] (split slash [] name)) in
    if is_abs name then slash ∷ body else if is_empty body then dot else body

-- `filepath.Join`
unfoldable pub join_path : Text → Text → Text
unfolding clean
join_path dir name = if is_empty dir then clean name else clean (dir ++ slash ∷ name)

-- An empty target, the two errors, and a target.
pub data Target : Type 0 where
  skipped unsafe_path escapes : Target
  target : Text → Target

unfoldable pub safe_extract_path : Text → Text → Target
unfolding clean join_path has_prefix
safe_extract_path dest_dir name =
    let cleaned = clean name in
    if is_dot cleaned || is_empty cleaned
    then skipped
    else if is_abs cleaned || has_prefix dot_dot cleaned
    then unsafe_path
    else if not (has_prefix (dest_dir ++ slash ∷ []) (join_path dest_dir cleaned ++ slash ∷ []))
    then escapes
    else target (join_path dest_dir cleaned)

-- `strings.TrimPrefix`, the prefix first.
unfoldable pub without_prefix : Text → Text → Text
without_prefix [] s = s
without_prefix (c ∷ p) [] = []
without_prefix (c ∷ p) (d ∷ s) = without_prefix p s

unfoldable pub trim_prefix : Text → Text → Text
unfolding has_prefix without_prefix
trim_prefix p s = if has_prefix p s then without_prefix p s else s

-- The part before the first "/", or all of the text.
unfoldable pub first_segment : Text → Text
first_segment [] = []
first_segment (c ∷ s) = let rest = first_segment s in if eqb c slash then [] else c ∷ rest

unfoldable pub single_root : Text → List Text → Text
unfolding trim_prefix first_segment
single_root root [] = root
single_root root (name ∷ names) =
    let n = trim_prefix (dot ++ slash ∷ []) name in
    let first = first_segment n in
    if is_empty n
    then single_root root names
    else if is_dot first || is_empty first
    then []
    else if is_empty root
    then single_root first names
    else if text_eq first root
    then single_root root names
    else []

unfoldable pub detect_single_root : List Text → Text
unfolding single_root
detect_single_root names = single_root [] names

unfoldable pub strip_prefix_segment : Text → Text → Text
unfolding trim_prefix
strip_prefix_segment name segment =
    let n = trim_prefix (dot ++ slash ∷ []) name in
    if is_empty segment
    then n
    else if text_eq n segment
    then []
    else trim_prefix (segment ++ slash ∷ []) n
