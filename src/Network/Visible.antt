-- ===== src/Network/Visible.antt =====
-- ludus-api/file_operations.go: the comparison at the end of `applyBlockInFile`, of texts with the
-- space around them taken off.
use ludus.Prelude.{
  ℕ, suc, ◌+◌, ◌<◌, ◌≡◌, refl, sym, ap, ◌∙◌, Bool, false, not, List, [], ◌∷◌, ◌++◌, arith,
  if◌then◌else◌, Bool-cases, inl, inr,
}
use mathlib.Core.List.{reverse, reverse-cons}
use ludus.Prelude.Text.{Text, is_space, trim_left, trim_space, text_eq, join}
use ludus.Prelude.Splitting.{text_eq-equal}
use ludus.Network.{Block, block_lines, newline, apply_block}
use ludus.Network.Ends.{lines_before, lines_after, join-lines}
use ludus.Network.Placed.{placed}

-- How many characters are not space.
unfoldable pub visible : Text → ℕ
unfolding is_space
visible [] = 0
visible (c ∷ s) = if is_space c then visible s else suc (visible s)

visible-append : (s t : Text) → visible (s ++ t) ≡ visible s + visible t
unfolding visible
visible-append [] t = omega arith
visible-append (c ∷ s) t = ground (arith, visible-append s t)

visible-reverse : (s : Text) → visible (reverse s) ≡ visible s
unfolding visible
visible-reverse [] = refl
visible-reverse (c ∷ s) =
    ap visible (reverse-cons c s)
    ∙ visible-append (reverse s) (c ∷ [])
    ∙ ground (arith, visible-reverse s)

visible-trim_left : (s : Text) → visible (trim_left s) ≡ visible s
unfolding visible trim_left
visible-trim_left [] = refl
visible-trim_left (c ∷ s) = ground (arith, visible-trim_left s)

visible-trim_space : (s : Text) → visible (trim_space s) ≡ visible s
unfolding trim_space
visible-trim_space s =
    visible-reverse (trim_left (reverse (trim_left s)))
    ∙ visible-trim_left (reverse (trim_left s))
    ∙ visible-reverse (trim_left s)
    ∙ visible-trim_left s

visible_lines : List Text → ℕ
visible_lines [] = 0
visible_lines (s ∷ ss) = visible s + visible_lines ss

visible_lines-append :
    (ss ts : List Text) → visible_lines (ss ++ ts) ≡ visible_lines ss + visible_lines ts
unfolding visible_lines
visible_lines-append [] ts = omega arith
visible_lines-append (s ∷ ss) ts = ground (arith, visible_lines-append ss ts)

visible-join : (ss : List Text) → visible (join newline ss) ≡ visible_lines ss
unfolding visible_lines join visible
visible-join [] = refl
visible-join (s ∷ []) = omega arith
visible-join (s ∷ t ∷ ss) =
    visible-append s (newline ∷ join newline (t ∷ ss))
    ∙ ap (λ n. visible s + n) (visible-join (t ∷ ss))

visible-placed :
    (b : Block) (s : Text) → visible (placed b s) ≡ visible s + visible_lines (block_lines b)
unfolding placed visible_lines
visible-placed b s =
    let before = lines_before s in
    let after = lines_after s in
    let whole : visible s ≡ visible_lines before + visible_lines after =
      ap visible (sym (join-lines s))
      ∙ visible-join (before ++ after)
      ∙ visible_lines-append before after in
    visible-join (before ++ (block_lines b ++ after))
    ∙ visible_lines-append before (block_lines b ++ after)
    ∙ ap (λ n. visible_lines before + n) (visible_lines-append (block_lines b) after)
    ∙ omega arith

-- A block that can be seen makes the file another one.
pub text_eq-placed :
    (b : Block) (s : Text)
    → 0 < visible b.start_marker
    → text_eq (trim_space s) (trim_space (placed b s)) ≡ false
unfolding visible_lines
text_eq-placed b s h = elim (Bool-cases (text_eq (trim_space s) (trim_space (placed b s)))) [
  | inl same ↦
      (let equal = text_eq-equal (trim_space s) (trim_space (placed b s)) same in
        let count : visible s ≡ visible s + visible_lines (block_lines b) =
          sym (visible-trim_space s)
          ∙ ap visible equal
          ∙ visible-trim_space (placed b s)
          ∙ visible-placed b s in
        ground arith)
  | inr other ↦ other
]

-- Whether a change is seen, in `applyBlockInFile`.
pub apply_block-changed :
    (b : Block) (present : Bool) (s : Text)
    → (apply_block s b present).1
      ≡ not (text_eq (trim_space s) (trim_space (apply_block s b present).0))
unfolding apply_block
apply_block-changed b present s = refl
