-- ===== src/Network/Edited.antt =====
-- ludus-api/file_operations.go: what the loop of `applyBlockInFile` does with lines in front of the
-- block, with those of the block, and with those behind it.
use ludus.Prelude.{
  ◌≡◌, refl, sym, ap, ◌∙◌, Bool, true, false, not, ◌&&◌, List, [], ◌∷◌, ◌++◌, append-nil,
  if◌then◌else◌, arith,
}
use ludus.Prelude.Text.{Text, trim_space, text_eq}
use ludus.Prelude.Splitting.{text_eq_refl}
use ludus.Network.{Block, block_lines, edit_lines}

-- No line is the marker, when the space around it is taken off.
unfoldable pub free : Text → List Text → Bool
free marker [] = true
free marker (line ∷ lines) = not (text_eq (trim_space line) marker) && free marker lines

pub free-append :
    (marker : Text) (xs ys : List Text) → free marker (xs ++ ys) ≡ true → free marker xs ≡ true
unfolding free
free-append marker [] ys h = refl
free-append marker (x ∷ xs) ys h = ground (arith, free-append marker xs ys)

pub free-append_second :
    (marker : Text) (xs ys : List Text) → free marker (xs ++ ys) ≡ true → free marker ys ≡ true
unfolding free
free-append_second marker [] ys h = h
free-append_second marker (x ∷ xs) ys h = ground (arith, free-append_second marker xs ys)

-- Before the block, lines are kept.
pub edit_lines-kept :
    (b : Block) (present : Bool) (xs rest : List Text)
    → free b.start_marker xs ≡ true
    → edit_lines b present false (xs ++ rest)
      ≡ ((edit_lines b present false rest).0, xs ++ (edit_lines b present false rest).1)
unfolding edit_lines free
edit_lines-kept b present [] rest h = refl
edit_lines-kept b present (x ∷ xs) rest h =
    let other : text_eq (trim_space x) b.start_marker ≡ false = ground arith in
    let ih = edit_lines-kept b present xs rest (ground arith) in rw (edit_lines, other, ih) refl

pub edit_lines-all_kept :
    (b : Block) (present : Bool) (xs : List Text)
    → free b.start_marker xs ≡ true
    → edit_lines b present false xs ≡ (false, xs)
unfolding edit_lines
edit_lines-all_kept b present xs h =
    ap (edit_lines b present false) (sym (append-nil xs))
    ∙ edit_lines-kept b present xs [] h
    ∙ ap (λ (ys : List Text). (false, ys)) (append-nil xs)

-- In the block, lines are dropped until the end marker.
edit_lines-dropped :
    (b : Block) (present : Bool) (ys rest : List Text)
    → free b.end_marker ys ≡ true
    → trim_space b.end_marker ≡ b.end_marker
    → edit_lines b present true (ys ++ b.end_marker ∷ rest) ≡ edit_lines b present false rest
unfolding edit_lines free
edit_lines-dropped b present [] rest h trimmed =
    rw (edit_lines, trimmed, text_eq_refl b.end_marker) refl
edit_lines-dropped b present (y ∷ ys) rest h trimmed =
    let other : text_eq (trim_space y) b.end_marker ≡ false = ground arith in
    rw (edit_lines, other) (edit_lines-dropped b present ys rest (ground arith) trimmed)

-- The markers are trimmed and differ.
pub record AreMarkers (b : Block) : Type 0 where
  pub start_trimmed : trim_space b.start_marker ≡ b.start_marker
  pub end_trimmed : trim_space b.end_marker ≡ b.end_marker
  pub differ : text_eq b.start_marker b.end_marker ≡ false

-- Where the block starts, everything to its end marker is replaced, or taken out.
edit_lines-at_block :
    (b : Block) (present : Bool) (ys zs : List Text)
    → AreMarkers b
    → free b.end_marker ys ≡ true
    → free b.start_marker zs ≡ true
    → edit_lines b present false (b.start_marker ∷ (ys ++ b.end_marker ∷ zs))
      ≡ (true, (if present then block_lines b else []) ++ zs)
unfolding edit_lines
edit_lines-at_block b present ys zs m fy fz =
    let at_start : text_eq (trim_space b.start_marker) b.start_marker ≡ true =
      rw (m.start_trimmed) (text_eq_refl b.start_marker) in
    let not_end : text_eq (trim_space b.start_marker) b.end_marker ≡ false =
      rw (m.start_trimmed) m.differ in
    let dropped = edit_lines-dropped b present ys zs fy m.end_trimmed in
    let behind : edit_lines b present false zs ≡ (false, zs) =
      edit_lines-all_kept b present zs fz in
    rw (edit_lines, at_start, not_end, dropped, behind) refl

-- The same between kept lines.
pub edit_lines-block :
    (b : Block) (present : Bool) (xs ys zs : List Text)
    → AreMarkers b
    → free b.start_marker xs ≡ true
    → free b.end_marker ys ≡ true
    → free b.start_marker zs ≡ true
    → edit_lines b present false (xs ++ (b.start_marker ∷ (ys ++ b.end_marker ∷ zs)))
      ≡ (true, xs ++ ((if present then block_lines b else []) ++ zs))
edit_lines-block b present xs ys zs m fx fy fz =
    edit_lines-kept b present xs (b.start_marker ∷ (ys ++ b.end_marker ∷ zs)) fx
    ∙ ap (λ (r : Bool × List Text). (r.0, xs ++ r.1)) (edit_lines-at_block b present ys zs m fy fz)
