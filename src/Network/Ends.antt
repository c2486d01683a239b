-- ===== src/Network/Ends.antt =====
-- ludus-api/file_operations.go: how `applyBlockInFile` keeps the newline at the end of a file.
use ludus.Prelude.{
  ℕ, ◌≡◌, subst, refl, sym, ap, ◌∙◌, ◌⊎◌, inl, inr, true, false, ◌&&◌, List, [], ◌∷◌, ◌++◌,
  append_assoc, if◌then◌else◌, Bool-cases, arith, eqb, contains_nat,
}
use ludus.Prelude.Text.{Text, split, join, is_empty}
use ludus.Prelude.Splitting.{without, without-split, join-split, join-append}
use ludus.Network.{newline, drop_last_empty, ends_with_newline}

-- The lines of a file without an empty last one, and that one.
unfoldable pub lines_before : Text → List Text
unfolding drop_last_empty split
lines_before s = drop_last_empty (split newline [] s)

unfoldable pub lines_after : Text → List Text
unfolding ends_with_newline
lines_after s = if ends_with_newline s then [] ∷ [] else []

is_empty-added : (s : Text) (c : ℕ) → is_empty (s ++ c ∷ []) ≡ false
is_empty-added [] c = refl
is_empty-added (d ∷ s) c = refl

lines_after-later : (c : ℕ) (s : Text) → eqb c newline ≡ false → lines_after (c ∷ s) ≡ lines_after s
unfolding lines_after ends_with_newline
lines_after-later c [] h = rw h refl
lines_after-later c (d ∷ s) h = refl

drop_last_empty-later :
    (s first : Text) (rest lines : List Text)
    → lines ≡ first ∷ rest
    → drop_last_empty (s ∷ lines) ≡ s ∷ drop_last_empty lines
unfolding drop_last_empty
drop_last_empty-later s first rest lines e = rw e refl

drop_last_empty-split :
    (part s : Text)
    → is_empty part && is_empty s ≡ false
    → drop_last_empty (split newline part s) ++ lines_after s ≡ split newline part s
unfolding drop_last_empty split ends_with_newline lines_after
drop_last_empty-split [] [] h = cc
drop_last_empty-split (d ∷ part) [] h = refl
drop_last_empty-split part (c ∷ []) h = elim (Bool-cases (eqb c newline)) [
  | inl at_line ↦ rw at_line refl
  | inr other ↦ rw (other, is_empty-added part c) refl
]
drop_last_empty-split part (c ∷ d ∷ s) h = elim (Bool-cases (eqb c newline)) [
  | inl at_line ↦
      (let (first, rest, parts, whole) = join-split newline [] (d ∷ s) in
        let later = drop_last_empty-later part first rest (split newline [] (d ∷ s)) parts in
        rw at_line (
          ap (λ (ls : List Text). ls ++ lines_after (d ∷ s)) later
          ∙ ap (λ (ls : List Text). part ∷ ls) (drop_last_empty-split [] (d ∷ s) refl)))
  | inr other ↦
      (let skipped : split newline part (c ∷ d ∷ s) ≡ split newline (part ++ c ∷ []) (d ∷ s) =
          rw other refl in
        rw skipped
          (drop_last_empty-split (part ++ c ∷ []) (d ∷ s) (rw (is_empty-added part c) refl)))
]

-- The text is its lines joined.
pub join-lines : (s : Text) → join newline (lines_before s ++ lines_after s) ≡ s
unfolding lines_before join drop_last_empty split lines_after ends_with_newline
join-lines [] = refl
join-lines (c ∷ s) =
    let (first, rest, parts, whole) = join-split newline [] (c ∷ s) in
    ap (join newline) (drop_last_empty-split [] (c ∷ s) refl) ∙ ap (join newline) parts ∙ whole

pub lines-without : (s : Text) → without newline (lines_before s ++ lines_after s) ≡ true
unfolding lines_before drop_last_empty split lines_after ends_with_newline without
lines-without [] = refl
lines-without (c ∷ s) =
    subst (λ ls. without newline ls ≡ true) (sym (drop_last_empty-split [] (c ∷ s) refl))
      (without-split newline [] (c ∷ s) refl)

pub lines-all :
    (s : Text)
    → (lines_before s ++ lines_after s ≡ split newline [] s)
      ⊎ (lines_before s ++ lines_after s ≡ [])
unfolding lines_before drop_last_empty split lines_after ends_with_newline
lines-all [] = inr refl
lines-all (c ∷ s) = inl (drop_last_empty-split [] (c ∷ s) refl)

pub ends_with_newline-append :
    (s : Text) (c : ℕ) (t : Text) → ends_with_newline (s ++ c ∷ t) ≡ ends_with_newline (c ∷ t)
unfolding ends_with_newline
ends_with_newline-append [] c t = refl
ends_with_newline-append (d ∷ []) c t = refl
ends_with_newline-append (d ∷ e ∷ s) c t = ends_with_newline-append (e ∷ s) c t

pub ends_with_newline-join :
    (ss : List Text) (c : ℕ) (t : Text)
    → ends_with_newline (join newline (ss ++ (c ∷ t) ∷ [])) ≡ ends_with_newline (c ∷ t)
unfolding join ends_with_newline
ends_with_newline-join [] c t = refl
ends_with_newline-join (s ∷ ss) c t =
    ap ends_with_newline (sym (join-append newline s ss (c ∷ t) []))
    ∙ ends_with_newline-append (join newline (s ∷ ss)) newline (c ∷ t)

-- A newline at the end is one more empty line.
pub join-newline :
    (s : Text) (ss : List Text)
    → join newline ((s ∷ ss) ++ [] ∷ []) ≡ join newline (s ∷ ss) ++ newline ∷ []
unfolding join
join-newline s ss = sym (join-append newline s ss [] [])

pub join-newline_append :
    (xs : List Text) (s : Text) (ss : List Text)
    → join newline (xs ++ s ∷ (ss ++ [] ∷ [])) ≡ join newline (xs ++ s ∷ ss) ++ newline ∷ []
join-newline_append [] s ss = join-newline s ss
join-newline_append (x ∷ xs) s ss =
    ap (λ ys. join newline (x ∷ ys)) (sym (append_assoc xs (s ∷ ss) ([] ∷ [])))
    ∙ join-newline x (xs ++ s ∷ ss)

is_empty-append : (s : Text) (c : ℕ) (t : Text) → is_empty (s ++ c ∷ t) ≡ false
is_empty-append [] c t = refl
is_empty-append (d ∷ s) c t = refl

pub is_empty-join :
    (ss : List Text) (c : ℕ) (t : Text) → is_empty (join newline (ss ++ (c ∷ t) ∷ [])) ≡ false
unfolding join
is_empty-join [] c t = refl
is_empty-join (s ∷ ss) c t =
    ap is_empty (sym (join-append newline s ss (c ∷ t) []))
    ∙ is_empty-append (join newline (s ∷ ss)) newline (c ∷ t)

pub ends_with_newline-without :
    (s : Text) → contains_nat s newline ≡ false → ends_with_newline s ≡ false
unfolding ends_with_newline contains_nat
ends_with_newline-without [] h = refl
ends_with_newline-without (c ∷ []) h = ground arith
ends_with_newline-without (c ∷ d ∷ s) h = ends_with_newline-without (d ∷ s) (ground arith)
