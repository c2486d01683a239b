-- ===== src/Prelude/Splitting.antt =====
-- Texts that are split at a character and joined by it: `strings.Split` and `strings.Join`.
use Prim.Native.Nat.{ℕ}
use ludus.Prelude.Tests.{eqb, eqb_iff, Bool-cases}
use ludus.Prelude.Lists.{contains_nat}
use ludus.Prelude.Text.{Text, split, join, text_eq}
use mathlib.Core.Path.{◌≡◌, refl, sym, ap, ◌∙◌, subst}
use mathlib.Core.Logic.{inl, inr}
use mathlib.Core.Bool.{Bool, true, false, not, ◌&&◌}
use mathlib.Core.List.{List, [], ◌∷◌, ◌++◌, append-nil, append_assoc}
use native.Mathlib.Omega.{arith}

-- No text of the list has the character.
unfoldable pub without : ℕ → List Text → Bool
unfolding contains_nat
without sep [] = true
without sep (s ∷ ss) = not (contains_nat s sep) && without sep ss

pub text_eq_refl : (s : Text) → text_eq s s ≡ true
unfolding text_eq
text_eq_refl [] = refl
text_eq_refl (c ∷ s) = ground (arith, text_eq_refl s)

pub text_eq_comm : (s t : Text) → text_eq s t ≡ text_eq t s
unfolding text_eq
text_eq_comm [] [] = refl
text_eq_comm [] (c ∷ t) = refl
text_eq_comm (c ∷ s) [] = refl
text_eq_comm (c ∷ s) (d ∷ t) = ground (arith, text_eq_comm s t)

pub text_eq-equal : (s t : Text) → text_eq s t ≡ true → s ≡ t
unfolding text_eq
text_eq-equal [] [] h = refl
text_eq-equal [] (d ∷ t) h = cc
text_eq-equal (c ∷ s) [] h = cc
text_eq-equal (c ∷ s) (d ∷ t) h =
    let same = (eqb_iff c d).0 (ground arith) in
    let rest = text_eq-equal s t (ground arith) in rw (same, rest) refl

module _ (sep : ℕ) where
  pub split-without :
      (part s : Text) → contains_nat s sep ≡ false → split sep part s ≡ (part ++ s) ∷ []
  unfolding split contains_nat
  split-without part [] h = ap (λ (p : Text). p ∷ []) (sym (append-nil part))
  split-without part (c ∷ s) h =
      let ih = split-without (part ++ c ∷ []) s (ground arith) in
      let assoc = append_assoc part (c ∷ []) s in
      let skip : split sep part (c ∷ s) ≡ split sep (part ++ c ∷ []) s = ground arith in
      skip ∙ ih ∙ ap (λ (p : Text). p ∷ []) assoc

  -- A text with the character in it falls into the parts of its two sides.
  pub split-append :
      (part s t : Text) → split sep part (s ++ sep ∷ t) ≡ split sep part s ++ split sep [] t
  unfolding split
  split-append part [] t = ground (arith, eqb_iff sep sep)
  split-append part (c ∷ s) t = elim (Bool-cases (eqb c sep)) [
    | inl at_sep ↦ rw (split, at_sep) (ap (λ (r : List Text). part ∷ r) (split-append [] s t))
    | inr other ↦ rw (split, other) (split-append (part ++ c ∷ []) s t)
  ]

  -- Splitting gives back the texts that were joined.
  pub split-join :
      (s : Text) (ss : List Text)
      → without sep (s ∷ ss) ≡ true
      → split sep [] (join sep (s ∷ ss)) ≡ s ∷ ss
  unfolding join without
  split-join s [] h = split-without [] s (ground arith)
  split-join s (t ∷ ss) h =
      split-append [] s (join sep (t ∷ ss))
      ∙ ap (λ (r : List Text). r ++ split sep [] (join sep (t ∷ ss)))
          (split-without [] s (ground arith))
      ∙ ap (λ (r : List Text). s ∷ r) (split-join t ss (ground arith))

  -- Joined parts make a joined whole.
  pub join-append :
      (s : Text) (ss : List Text) (t : Text) (ts : List Text)
      → join sep (s ∷ ss) ++ sep ∷ join sep (t ∷ ts) ≡ join sep ((s ∷ ss) ++ t ∷ ts)
  unfolding join
  join-append s [] t ts = refl
  join-append s (r ∷ ss) t ts =
      append_assoc s (sep ∷ join sep (r ∷ ss)) (sep ∷ join sep (t ∷ ts))
      ∙ ap (λ (x : Text). s ++ sep ∷ x) (join-append r ss t ts)

  -- Splitting always gives a first part, and joining the parts gives the text back.
  pub join-split :
      (part s : Text)
      → (first : Text) × (rest : List Text) × (split sep part s ≡ first ∷ rest)
        × (join sep (first ∷ rest) ≡ part ++ s)
  unfolding split join
  join-split part [] = (part, [], refl, sym (append-nil part))
  join-split part (c ∷ s) = elim (Bool-cases (eqb c sep)) [
    | inl at_sep ↦
        (let (first, rest, parts, whole) = join-split [] s in
          (
            part,
            first ∷ rest,
            rw (split, at_sep) (ap (λ (r : List Text). part ∷ r) parts),
            ap (λ (t : Text). part ++ sep ∷ t) whole
                ∙ ap (λ (d : ℕ). part ++ d ∷ s) (sym ((eqb_iff c sep).0 at_sep)),
          ))
    | inr other ↦
        (let (first, rest, parts, whole) = join-split (part ++ c ∷ []) s in
          (first, rest, rw (split, other) parts, whole ∙ append_assoc part (c ∷ []) s))
  ]

  contains_nat-added :
      (s : Text) (c : ℕ)
      → contains_nat s sep ≡ false
      → eqb c sep ≡ false
      → contains_nat (s ++ c ∷ []) sep ≡ false
  unfolding contains_nat
  contains_nat-added [] c h e = ground arith
  contains_nat-added (d ∷ s) c h e = ground (arith, contains_nat-added s c)

  pub without-append :
      (ss ts : List Text)
      → without sep ss ≡ true
      → without sep ts ≡ true
      → without sep (ss ++ ts) ≡ true
  unfolding without
  without-append [] ts h k = k
  without-append (s ∷ ss) ts h k = ground (arith, without-append ss ts)

  pub without-append_first :
      (ss ts : List Text) → without sep (ss ++ ts) ≡ true → without sep ss ≡ true
  unfolding without
  without-append_first [] ts h = refl
  without-append_first (s ∷ ss) ts h = ground (arith, without-append_first ss ts)

  pub without-append_second :
      (ss ts : List Text) → without sep (ss ++ ts) ≡ true → without sep ts ≡ true
  unfolding without
  without-append_second [] ts h = h
  without-append_second (s ∷ ss) ts h = ground (arith, without-append_second ss ts)

  -- No part has the character.
  pub without-split :
      (part s : Text) → contains_nat part sep ≡ false → without sep (split sep part s) ≡ true
  unfolding split without
  without-split part [] h = ground arith
  without-split part (c ∷ s) h = elim (Bool-cases (eqb c sep)) [
    | inl at_sep ↦ ground (arith, without-split [] s)
    | inr other ↦ ground (arith, without-split (part ++ c ∷ []) s, contains_nat-added part c)
  ]

  -- A part that is itself joined can be replaced by its own parts.
  pub join-flat :
      (ss : List Text) (t : Text) (ts us : List Text)
      → join sep (ss ++ join sep (t ∷ ts) ∷ us) ≡ join sep (ss ++ ((t ∷ ts) ++ us))
  unfolding join
  join-flat [] t ts [] = ap (join sep) (sym (append-nil (t ∷ ts)))
  join-flat [] t ts (u ∷ us) = join-append t ts u us
  join-flat (s ∷ []) t ts us = ap (λ (x : Text). s ++ sep ∷ x) (join-flat [] t ts us)
  join-flat (s ∷ r ∷ ss) t ts us = ap (λ (x : Text). s ++ sep ∷ x) (join-flat (r ∷ ss) t ts us)

  -- The same for a list that is not empty further on.
  pub split-join_append :
      (xs : List Text) (s : Text) (ss : List Text)
      → without sep (xs ++ s ∷ ss) ≡ true
      → split sep [] (join sep (xs ++ s ∷ ss)) ≡ xs ++ s ∷ ss
  split-join_append [] s ss h = split-join s ss h
  split-join_append (x ∷ xs) s ss h = split-join x (xs ++ s ∷ ss) h

  -- One of the joined texts may fall into parts, behind another.
  pub split-join_between :
      (xs : List Text) (s t : Text) (us : List Text)
      → without sep xs ≡ true
      → contains_nat s sep ≡ false
      → without sep us ≡ true
      → split sep [] (join sep (xs ++ s ∷ t ∷ us)) ≡ xs ++ s ∷ (split sep [] t ++ us)
  unfolding without
  split-join_between xs s t us hx hs hu =
      let (first, rest, parts, whole) = join-split [] t in
      let tail = (first ∷ rest) ++ us in
      let tail_without : without sep tail ≡ true =
        without-append (first ∷ rest) us
          (subst (λ ss. without sep ss ≡ true) parts (without-split [] t refl)) hu in
      ap (λ x. split sep [] (join sep (xs ++ s ∷ x ∷ us))) (sym whole)
      ∙ ap (λ ss. split sep [] (join sep ss))
          (sym (append_assoc xs (s ∷ []) (join sep (first ∷ rest) ∷ us)))
      ∙ ap (split sep []) (join-flat (xs ++ s ∷ []) first rest us)
      ∙ ap (λ ss. split sep [] (join sep ss)) (append_assoc xs (s ∷ []) tail)
      ∙ split-join_append xs s tail (without-append xs (s ∷ tail) hx (ground arith))
      ∙ ap (λ ss. xs ++ s ∷ (ss ++ us)) (sym parts)
