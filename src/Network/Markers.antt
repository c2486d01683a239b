-- ===== src/Network/Markers.antt =====
-- ludus-api/network.go: the markers and the block that `manageVmbrInterfaceStandalone` makes for a
-- range, as texts.
use ludus.Prelude.{
  ℕ, ◌⊎◌, zero, suc, ◌+◌, ◌-◌, ◌*◌, ◌<◌, ◌%◌, ◌/◌, ◌≡◌, refl, sym, ap, ◌∙◌, true, false, List, [],
  ◌∷◌, ◌++◌, arith, if◌then◌else◌, Bool-cases, inl, inr, contains_nat, eqb, ltb, append_assoc,
  subst,
}
use mathlib.Core.List.{reverse, reverse-cons}
use ludus.Prelude.Text.{Text, codes, is_space, trim_left, trim_space, text_eq, split, join}
use ludus.Prelude.Splitting.{text_eq-equal, without}
use ludus.Prelude.Trimming.{trim_space-trimmed}
use ludus.Network.{
  Block, newline, after_prefix, replace_first, markers, decimal_from, decimal, decimal_3,
  interface_name, range_marker, range_lines, range_block,
}
use ludus.Network.Edited.{free, AreMarkers}
use ludus.Network.Placed.{AreLines}
use ludus.Network.Visible.{visible}

pub contains_nat-append :
    (s t : Text) (c : ℕ)
    → contains_nat s c ≡ false
    → contains_nat t c ≡ false
    → contains_nat (s ++ t) c ≡ false
unfolding contains_nat
contains_nat-append [] t c h k = k
contains_nat-append (d ∷ s) t c h k = ground (arith, contains_nat-append s t c)

-- The digits of a number.
module _ (c : ℕ) (other : (c < b'0') ⊎ (b'9' < c)) where
  contains_nat-decimal_from :
      (fuel n : ℕ) (digits : Text)
      → contains_nat digits c ≡ false
      → contains_nat (decimal_from fuel n digits) c ≡ false
  unfolding contains_nat decimal_from
  contains_nat-decimal_from zero n digits h = h
  contains_nat-decimal_from (suc fuel) n digits h =
      let shown : eqb (n % 10 + b'0') c ≡ false = elim other [
        | inl low ↦ ground arith
        | inr high ↦ ground arith
      ] in
      let more =
        contains_nat-decimal_from fuel (n / 10) ((n % 10 + b'0') ∷ digits)
          (rw (contains_nat, shown) h) in
      elim (Bool-cases (ltb n 10)) [ inl last ↦ rw (last, shown) h | inr other ↦ rw other more ]

  pub contains_nat-decimal : (n : ℕ) → contains_nat (decimal n) c ≡ false
  unfolding decimal contains_nat
  contains_nat-decimal n = contains_nat-decimal_from (suc n) n [] refl

  pub contains_nat-interface_name :
      (n : ℕ) → contains_nat (codes "vmbr1") c ≡ false → contains_nat (interface_name n) c ≡ false
  unfolding interface_name decimal_3 contains_nat
  contains_nat-interface_name n h =
      let no_zero : eqb b'0' c ≡ false = elim other [
        | inl low ↦ ground arith
        | inr high ↦ ground arith
      ] in
      let padding : contains_nat
            (if ltb n 10 then codes "00" else if ltb n 100 then codes "0" else []) c
          ≡ false =
        ground arith in
      contains_nat-append (codes "vmbr1") (decimal_3 n) c h (
        contains_nat-append (if ltb n 10 then codes "00" else if ltb n 100 then codes "0" else [])
          (decimal n) c padding (contains_nat-decimal n))

-- The number that digits spell, behind the one that is read.
number_from : ℕ → Text → ℕ
number_from n [] = n
number_from n (c ∷ s) = number_from (n * 10 + (c - b'0')) s

-- With more fuel than the number, all digits are made.
number_from-decimal_from :
    (fuel n : ℕ) (digits : Text)
    → n < fuel
    → number_from 0 (decimal_from fuel n digits) ≡ number_from n digits
unfolding number_from decimal_from
number_from-decimal_from zero n digits h = ground arith
number_from-decimal_from (suc fuel) n digits h = elim (Bool-cases (ltb n 10)) [
  | inl last ↦
      (let value : 0 * 10 + (n % 10 + b'0' - b'0') ≡ n = ground arith in
        rw last (ap (λ v. number_from v digits) value))
  | inr more ↦
      (let smaller : n / 10 < fuel = ground arith in
        let value : n / 10 * 10 + (n % 10 + b'0' - b'0') ≡ n = omega arith in
        rw more (
          number_from-decimal_from fuel (n / 10) ((n % 10 + b'0') ∷ digits) smaller
          ∙ ap (λ v. number_from v digits) value))
]

-- `decimal` has enough fuel: its digits spell the number.
number_from-decimal : (n : ℕ) → number_from 0 (decimal n) ≡ n
unfolding number_from decimal
number_from-decimal n = number_from-decimal_from (suc n) n [] (omega arith)

-- `strings.Replace` passes a text without the first character of what it looks for.
replace_first-later :
    (o : ℕ) (old new p s : Text)
    → contains_nat p o ≡ false
    → replace_first (o ∷ old) new (p ++ s) ≡ p ++ replace_first (o ∷ old) new s
unfolding replace_first after_prefix contains_nat
replace_first-later o old new [] s h = refl
replace_first-later o old new (c ∷ p) s h =
    let other : eqb o c ≡ false = ground arith in
    rw (replace_first, after_prefix, other)
      (ap (λ t. c ∷ t) (replace_first-later o old new p s (ground arith)))

text_eq-append : (p s t : Text) → text_eq (p ++ s) (p ++ t) ≡ text_eq s t
unfolding text_eq
text_eq-append [] s t = refl
text_eq-append (c ∷ p) s t = ground (arith, text_eq-append p s t)

-- Both markers begin with it.
abbrev prefix : ℕ → Text
prefix n = b'#' ∷ (codes " LUDUS MANAGED INTERFACE FOR USER " ++ decimal n)

abbrev pub range_markers : ℕ → Block
range_markers n = markers (range_marker n) (range_block n)

prefix-without :
    (n c : ℕ)
    → (c < b'0') ⊎ (b'9' < c)
    → contains_nat (codes "# LUDUS MANAGED INTERFACE FOR USER ") c ≡ false
    → contains_nat (prefix n) c ≡ false
prefix-without n c other h =
    contains_nat-append (codes "# LUDUS MANAGED INTERFACE FOR USER ") (decimal n) c h
      (contains_nat-decimal c other n)

start_marker_lem : (n : ℕ) → (range_markers n).start_marker ≡ prefix n ++ codes " BEGIN"
unfolding markers range_marker replace_first after_prefix contains_nat
start_marker_lem n =
    replace_first-later b'{' (codes "mark}") (codes "BEGIN") (prefix n) (codes " {mark}")
      (prefix-without n b'{' (inr (omega arith)) refl)

end_marker_lem : (n : ℕ) → (range_markers n).end_marker ≡ prefix n ++ codes " END"
unfolding markers range_marker replace_first after_prefix contains_nat
end_marker_lem n =
    replace_first-later b'{' (codes "mark}") (codes "END") (prefix n) (codes " {mark}")
      (prefix-without n b'{' (inr (omega arith)) refl)

trimmed :
    (n : ℕ) (s : Text) (d : ℕ)
    → is_space d ≡ false
    → trim_space (prefix n ++ (s ++ d ∷ [])) ≡ prefix n ++ (s ++ d ∷ [])
unfolding is_space
trimmed n s d h =
    let rest = codes " LUDUS MANAGED INTERFACE FOR USER " ++ decimal n in
    let assoc = append_assoc rest s (d ∷ []) in
    ap (λ t. trim_space (b'#' ∷ t)) (sym assoc)
    ∙ trim_space-trimmed b'#' (rest ++ s) d refl h
    ∙ ap (λ t. b'#' ∷ t) assoc

pub range_markers-AreMarkers : (n : ℕ) → AreMarkers (range_markers n)
unfolding text_eq is_space
range_markers-AreMarkers n = record {
  start_trimmed =
      subst (λ t. trim_space t ≡ t) (sym (start_marker_lem n))
        (trimmed n (codes " BEGI") b'N' refl);
  end_trimmed =
      subst (λ t. trim_space t ≡ t) (sym (end_marker_lem n)) (trimmed n (codes " EN") b'D' refl);
  differ =
      rw (start_marker_lem n, end_marker_lem n)
        (text_eq-append (prefix n) (codes " BEGIN") (codes " END"));
}

pub range_markers-AreLines : (n : ℕ) → AreLines (range_markers n)
unfolding markers contains_nat
range_markers-AreLines n = record {
  start_line = rw (start_marker_lem n) (
      contains_nat-append (prefix n) (codes " BEGIN") newline
        (prefix-without n newline (inl (omega arith)) refl) refl);
  end_line = rw (end_marker_lem n) (
      contains_nat-append (prefix n) (codes " END") newline
        (prefix-without n newline (inl (omega arith)) refl) refl);
  end_present = rw (end_marker_lem n) refl;
}

pub range_markers-visible : (n : ℕ) → 0 < visible ((range_markers n).start_marker)
unfolding visible is_space
range_markers-visible n = rw (start_marker_lem n) (omega arith)

-- What a text does not have, the trimmed text does not have.
contains_nat-reverse :
    (s : Text) (c : ℕ) → contains_nat s c ≡ false → contains_nat (reverse s) c ≡ false
unfolding contains_nat
contains_nat-reverse [] c h = refl
contains_nat-reverse (d ∷ s) c h = rw (reverse-cons d s) (
    contains_nat-append (reverse s) (d ∷ []) c (contains_nat-reverse s c (ground arith))
      (ground arith))

contains_nat-trim_left :
    (s : Text) (c : ℕ) → contains_nat s c ≡ false → contains_nat (trim_left s) c ≡ false
unfolding contains_nat trim_left
contains_nat-trim_left [] c h = refl
contains_nat-trim_left (d ∷ s) c h = ground (arith, contains_nat-trim_left s c)

contains_nat-trim_space :
    (s : Text) (c : ℕ) → contains_nat s c ≡ false → contains_nat (trim_space s) c ≡ false
unfolding trim_space
contains_nat-trim_space s c h = contains_nat-reverse (trim_left (reverse (trim_left s))) c (
    contains_nat-trim_left (reverse (trim_left s)) c
      (contains_nat-reverse (trim_left s) c (contains_nat-trim_left s c h)))

-- Nor do the parts that it is split into.
without-split_other :
    (sep c : ℕ) (part s : Text)
    → contains_nat part c ≡ false
    → contains_nat s c ≡ false
    → without c (split sep part s) ≡ true
unfolding without split contains_nat
without-split_other sep c part [] h k = ground arith
without-split_other sep c part (d ∷ s) h k = elim (Bool-cases (eqb d sep)) [
  | inl at_sep ↦ rw (at_sep, h) (without-split_other sep c [] s refl (ground arith))
  | inr other ↦ rw other (
      without-split_other sep c (part ++ d ∷ []) s
        (contains_nat-append part (d ∷ []) c h (ground arith)) (ground arith))
]

free-without :
    (marker : Text) (c : ℕ) (ss : List Text)
    → contains_nat marker c ≡ true
    → without c ss ≡ true
    → free marker ss ≡ true
unfolding free without
free-without marker c [] m h = refl
free-without marker c (s ∷ ss) m h =
    let rest = free-without marker c ss m (ground arith) in
    let no = contains_nat-trim_space s c (ground arith) in
    elim (Bool-cases (text_eq (trim_space s) marker)) [
      | inl same ↦
          (let equal = text_eq-equal (trim_space s) marker same in
            let yes = subst (λ t. contains_nat t c ≡ true) (sym equal) m in cc)
      | inr other ↦ rw (other, rest) refl
    ]

contains_nat-join :
    (sep c : ℕ) (ss : List Text)
    → eqb sep c ≡ false
    → without c ss ≡ true
    → contains_nat (join sep ss) c ≡ false
unfolding contains_nat join without
contains_nat-join sep c [] h k = refl
contains_nat-join sep c (s ∷ []) h k = ground arith
contains_nat-join sep c (s ∷ t ∷ ss) h k =
    contains_nat-append s (sep ∷ join sep (t ∷ ss)) c (ground arith)
      (rw h (contains_nat-join sep c (t ∷ ss) h (ground arith)))

range_block-without : (n : ℕ) → contains_nat (range_block n) b'#' ≡ false
unfolding range_block contains_nat without
range_block-without n =
    let no_digit : (b'#' < b'0') ⊎ (b'9' < b'#') = inl (omega arith) in
    let number = contains_nat-decimal b'#' no_digit n in
    let gateway = contains_nat-decimal b'#' no_digit (100 + n) in
    let name = contains_nat-interface_name b'#' no_digit n refl in
    let inet = contains_nat-append (interface_name n) (codes " inet manual") b'#' name refl in
    let route =
      contains_nat-append (decimal n ++ codes ".0.0/16 via 192.0.2.") (decimal (100 + n)) b'#'
        (contains_nat-append (decimal n) (codes ".0.0/16 via 192.0.2.") b'#' number refl) gateway in
    contains_nat-join newline b'#' (range_lines (interface_name n) (decimal n) (decimal (100 + n)))
      refl (rw (name, inet, route) refl)

pub range_markers-free :
    (n : ℕ) → free (range_markers n).end_marker (split newline [] (range_markers n).body) ≡ true
unfolding markers contains_nat
range_markers-free n =
    free-without (range_markers n).end_marker b'#' (split newline [] (range_block n))
      (rw (end_marker_lem n) refl)
      (without-split_other newline b'#' [] (range_block n) refl (range_block-without n))
