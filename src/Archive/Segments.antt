-- ===== src/Archive/Segments.antt =====
-- archive_extract.go: the segments of a path that `filepath.Clean` returns.
use ludus.Prelude.{
  ℕ, ◌≡◌, refl, sym, ◌∙◌, Bool, true, false, not, ◌&&◌, ◌||◌, List, [], ◌∷◌, ◌++◌, append-nil,
  append_assoc, contains_nat, eqb, if◌then◌else◌, arith,
}
use ludus.Prelude.Text.{Text, is_empty, text_eq, split, join}
use ludus.Prelude.Splitting.{without, split-join}
use ludus.Archive.{slash, dot_dot, is_dot, is_dot_dot, has_prefix, up, enter, enter_all}

-- A segment that names an entry of its directory.
unfoldable pub is_plain : Text → Bool
unfolding text_eq contains_nat
is_plain s =
    not (is_empty s) && (not (is_dot s) && (not (is_dot_dot s) && not (contains_nat s slash)))

abbrev pub all_plain : List Text → Bool
all_plain [] = true
all_plain (s ∷ ss) = is_plain s && all_plain ss

-- Some times "..", and then plain segments.
abbrev tidy : List Text → Bool
tidy [] = true
tidy (s ∷ ss) = if is_dot_dot s then tidy ss else all_plain (s ∷ ss)

pub all_plain-added :
    (ss : List Text) (s : Text)
    → all_plain ss ≡ true
    → is_plain s ≡ true
    → all_plain (ss ++ s ∷ []) ≡ true
all_plain-added [] s h p = ground arith
all_plain-added (t ∷ ss) s h p = ground (arith, all_plain-added ss s)

pub all_plain-append :
    (ss ts : List Text) → all_plain ss ≡ true → all_plain ts ≡ true → all_plain (ss ++ ts) ≡ true
all_plain-append [] ts h p = p
all_plain-append (t ∷ ss) ts h p = ground (arith, all_plain-append ss ts)

tidy-added :
    (ss : List Text) (s : Text) → tidy ss ≡ true → is_plain s ≡ true → tidy (ss ++ s ∷ []) ≡ true
unfolding is_plain
tidy-added [] s h p = ground arith
tidy-added (t ∷ ss) s h p = ground (arith, tidy-added ss s, all_plain-added (t ∷ ss) s)

all_plain-up :
    (s : Text) (ss : List Text) → all_plain (s ∷ ss) ≡ true → all_plain (up false (s ∷ ss)) ≡ true
unfolding up is_plain
all_plain-up s [] h = ground arith
all_plain-up s (t ∷ ss) h = ground (arith, all_plain-up t ss)

tidy-up : (ss : List Text) → tidy ss ≡ true → tidy (up false ss) ≡ true
unfolding up text_eq
tidy-up [] h = refl
tidy-up (s ∷ []) h = ground arith
tidy-up (s ∷ t ∷ ss) h = ground (arith, tidy-up (t ∷ ss), all_plain-up t ss)

no_slash : List Text → Bool
unfolding contains_nat
no_slash [] = true
no_slash (s ∷ ss) = not (contains_nat s slash) && no_slash ss

tidy-enter :
    (ss : List Text) (s : Text)
    → tidy ss ≡ true
    → contains_nat s slash ≡ false
    → tidy (enter false ss s) ≡ true
unfolding enter is_plain
tidy-enter ss s h n = ground (arith, tidy-up ss, tidy-added ss s)

tidy-enter_all :
    (ss segments : List Text)
    → tidy segments ≡ true
    → no_slash ss ≡ true
    → tidy (enter_all false segments ss) ≡ true
unfolding enter_all no_slash
tidy-enter_all [] segments h n = h
tidy-enter_all (s ∷ ss) segments h n =
    tidy-enter_all ss (enter false segments s) (tidy-enter segments s h (ground arith))
      (ground arith)

contains_nat-added :
    (s : Text) (c d : ℕ) → contains_nat (s ++ c ∷ []) d ≡ contains_nat s d || eqb c d
unfolding contains_nat
contains_nat-added [] c d = ground arith
contains_nat-added (b ∷ s) c d = ground (arith, contains_nat-added s c d)

no_slash-split :
    (part s : Text) → contains_nat part slash ≡ false → no_slash (split slash part s) ≡ true
unfolding no_slash split contains_nat
no_slash-split part [] h = ground arith
no_slash-split part (c ∷ s) h = ground (
  arith,
  no_slash-split [] s refl,
  no_slash-split (part ++ c ∷ []) s,
  contains_nat-added part c slash,
)

-- The segments of a relative path once it is cleaned.
pub tidy-split : (name : Text) → tidy (enter_all false [] (split slash [] name)) ≡ true
unfolding contains_nat
tidy-split name = tidy-enter_all (split slash [] name) [] refl (no_slash-split [] name refl)

dot_dot-prefix :
    (s : Text) (ss : List Text)
    → is_dot_dot s ≡ true
    → has_prefix dot_dot (join slash (s ∷ ss)) ≡ true
unfolding text_eq has_prefix join
dot_dot-prefix [] ss h = cc
dot_dot-prefix (c ∷ []) ss h = ground arith
dot_dot-prefix (c ∷ d ∷ []) [] h = ground arith
dot_dot-prefix (c ∷ d ∷ []) (t ∷ ss) h = ground arith
dot_dot-prefix (c ∷ d ∷ e ∷ s) ss h = ground arith

-- Tidy segments that do not begin with ".." are plain.
pub tidy-plain :
    (ss : List Text)
    → tidy ss ≡ true
    → has_prefix dot_dot (join slash ss) ≡ false
    → all_plain ss ≡ true
tidy-plain [] h p = refl
tidy-plain (s ∷ ss) h p = ground (arith, dot_dot-prefix s ss)

-- Plain segments are entered one after the other.
pub enter_all-plain :
    (ss segments : List Text) → all_plain ss ≡ true → enter_all true segments ss ≡ segments ++ ss
unfolding enter_all enter is_plain
enter_all-plain [] segments h = sym (append-nil segments)
enter_all-plain (s ∷ ss) segments h =
    let one : enter true segments s ≡ segments ++ s ∷ [] = ground arith in
    let rest = enter_all-plain ss (segments ++ s ∷ []) (ground arith) in
    rw one (rest ∙ append_assoc segments (s ∷ []) ss)

-- Splitting gives back the plain segments that were joined.
pub split-join_plain :
    (s : Text) (ss : List Text)
    → all_plain (s ∷ ss) ≡ true
    → split slash [] (join slash (s ∷ ss)) ≡ s ∷ ss
unfolding is_plain without
split-join_plain s ss h = split-join slash s ss (without-plain (s ∷ ss) h)
  where
    without-plain : (ss : List Text) → all_plain ss ≡ true → without slash ss ≡ true
    without-plain [] h = refl
    without-plain (s ∷ ss) h = ground (arith, without-plain ss)
