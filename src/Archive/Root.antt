-- ===== src/Archive/Root.antt =====
-- archive_extract.go, `detectSingleRoot` and `stripPrefixSegment`: the single root of an archive, and
-- the names without it.
use ludus.Prelude.{
  ℕ, zero, suc, ◌≡◌, refl, sym, ap, ◌∙◌, ◌⊎◌, inl, inr, Bool, true, false, ◌&&◌, ◌||◌, some, List,
  [], ◌∷◌, ◌++◌, append_assoc, eqb, eqb_iff, get_elem?, Bool-cases, arith,
}
use ludus.Prelude.Text.{Text, is_empty, text_eq}
use ludus.Prelude.Splitting.{text_eq_refl, text_eq-equal}
use ludus.Archive.{
  slash, dot, is_dot, without_prefix, trim_prefix, first_segment, single_root, detect_single_root,
  strip_prefix_segment,
}
use ludus.Archive.Inside.{has_prefix-append}

-- A name without a leading "./".
abbrev pub bare : Text → Text
bare name = trim_prefix (dot ++ slash ∷ []) name

abbrev all_under : Text → List Text → Bool
all_under root [] = true
all_under root (name ∷ names) =
    (is_empty (bare name) || text_eq (first_segment (bare name)) root) && all_under root names

single_root-all_under :
    (root : Text) (names : List Text)
    → is_empty (single_root root names) ≡ false
    → (all_under (single_root root names) names ≡ true)
      × ((is_empty root ≡ true) ⊎ (single_root root names ≡ root))
unfolding single_root
single_root-all_under root [] h = (refl, inr refl)
single_root-all_under root (name ∷ names) h = elim (Bool-cases (is_empty (bare name))) [
  | inl blank ↦ (let ih = single_root-all_under root names in ground arith)
  | inr filled ↦
      let first = first_segment (bare name) in
      elim (Bool-cases (is_dot first || is_empty first)) [
        | inl bad ↦ ground arith
        | inr good ↦ elim (Bool-cases (is_empty root)) [
          | inl none_yet ↦
              (let ih = single_root-all_under first names in
                let same = text_eq_refl first in ground arith)
          | inr known ↦
              (let ih = single_root-all_under root names in
                let same = text_eq-equal first root in
                let same' = text_eq_refl root in ground arith)
        ]
      ]
]

all_under-found :
    (root : Text) (names : List Text) (i : ℕ) (name : Text)
    → all_under root names ≡ true
    → get_elem? names i ≡ some name
    → is_empty (bare name) ≡ false
    → first_segment (bare name) ≡ root
all_under-found root [] i name h at filled = cc
all_under-found root (n ∷ names) zero name h at filled =
    let same : n ≡ name = cc in
    text_eq-equal (first_segment (bare name)) root (ground (arith, same))
all_under-found root (n ∷ names) (suc i) name h at filled =
    all_under-found root names i name (ground arith) at filled

first_segment-shape :
    (s : Text) → (s ≡ first_segment s) ⊎ ((rest : Text) × (s ≡ first_segment s ++ slash ∷ rest))
unfolding first_segment
first_segment-shape [] = inl refl
first_segment-shape (c ∷ s) = elim (Bool-cases (eqb c slash)) [
  | inl ends ↦ inr (s, rw ends (ap (λ (d : ℕ). d ∷ s) ((eqb_iff c slash).0 ends)))
  | inr goes_on ↦ elim (first_segment-shape s) [
    | inl whole ↦ inl (rw goes_on (ap (λ (t : Text). c ∷ t) whole))
    | inr (rest, split_there) ↦ inr (rest, rw goes_on (ap (λ (t : Text). c ∷ t) split_there))
  ]
]

without_prefix-append : (p s : Text) → without_prefix p (p ++ s) ≡ s
unfolding without_prefix
without_prefix-append [] s = refl
without_prefix-append (c ∷ p) s = without_prefix-append p s

trim_prefix-append : (p s : Text) → trim_prefix p (p ++ s) ≡ s
unfolding trim_prefix
trim_prefix-append p s = rw (has_prefix-append p s) (without_prefix-append p s)

strip-whole :
    (name root : Text)
    → is_empty root ≡ false
    → bare name ≡ root
    → strip_prefix_segment name root ≡ []
unfolding strip_prefix_segment
strip-whole name root filled whole = rw (filled, whole, text_eq_refl root) refl

strip-below :
    (name root rest : Text)
    → is_empty root ≡ false
    → text_eq (bare name) root ≡ false
    → bare name ≡ root ++ slash ∷ rest
    → strip_prefix_segment name root ≡ rest
unfolding strip_prefix_segment
strip-below name root rest filled other below =
    let shape : bare name ≡ (root ++ slash ∷ []) ++ rest =
      below ∙ sym (append_assoc root (slash ∷ []) rest) in
    rw (filled, other)
      (ap (trim_prefix (root ++ slash ∷ [])) shape ∙ trim_prefix-append (root ++ slash ∷ []) rest)

-- A single root is found for the names of an archive, and one of them, without a leading "./", is not
-- empty: then it is the root itself and stripping leaves nothing, or it is the root, a "/" and what
-- stripping leaves.
pub strip_prefix_segment-detected :
    (names : List Text) (root : Text) (i : ℕ) (name : Text)
    → detect_single_root names ≡ root
    → is_empty root ≡ false
    → get_elem? names i ≡ some name
    → is_empty (bare name) ≡ false
    → ((bare name ≡ root) × (strip_prefix_segment name root ≡ []))
      ⊎ (bare name ≡ root ++ slash ∷ strip_prefix_segment name root)
unfolding detect_single_root
strip_prefix_segment-detected names root i name detected found at filled =
    let under = (single_root-all_under [] names (ap is_empty detected ∙ found)).0 in
    let under' = ap (λ (r : Text). all_under r names) (sym detected) ∙ under in
    let first = all_under-found root names i name under' at filled in
    elim (Bool-cases (text_eq (bare name) root)) [
      | inl same ↦
          (let whole = text_eq-equal (bare name) root same in
            inl (whole, strip-whole name root found whole))
      | inr other ↦ elim (first_segment-shape (bare name)) [
        | inl alone ↦ (let whole = alone ∙ first in inl (whole, strip-whole name root found whole))
        | inr (rest, split_there) ↦
            (let below = split_there ∙ ap (λ (r : Text). r ++ slash ∷ rest) first in
              inr (
                below
                ∙ ap (λ (t : Text). root ++ slash ∷ t)
                    (sym (strip-below name root rest found other below))))
      ]
    ]
