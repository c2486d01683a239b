-- ===== src/Network/Placed.antt =====
-- ludus-api/file_operations.go: the text that `applyBlockInFile` makes where the file has no block
-- with the markers.
use ludus.Prelude.{
  ◌≡◌, subst, refl, sym, ap, ◌∙◌, inl, inr, Bool, true, false, not, ◌&&◌, List, [], ◌∷◌, ◌++◌,
  append_assoc, if◌then◌else◌, Bool-cases, arith, contains_nat,
}
use ludus.Prelude.Text.{Text, trim_space, split, join, is_empty}
use ludus.Prelude.Splitting.{
  without, without-append_first, without-append_second, split-join_between, text_eq_refl,
}
use ludus.Network.{
  Block, block_lines, newline, drop_last_empty, new_lines, apply_block, ends_with_newline,
}
use ludus.Network.Edited.{
  AreMarkers, free, free-append, free-append_second, edit_lines-all_kept, edit_lines-block,
}
use ludus.Network.Ends.{
  lines_before, lines_after, join-lines, lines-without, lines-all, ends_with_newline-join,
  join-newline_append, ends_with_newline-append, is_empty-join, ends_with_newline-without,
}

-- The markers are lines.
pub record AreLines (b : Block) : Type 0 where
  pub start_line : contains_nat b.start_marker newline ≡ false
  pub end_line : contains_nat b.end_marker newline ≡ false
  pub end_present : is_empty b.end_marker ≡ false

-- The block behind the file's lines.
unfoldable pub placed : Block → Text → Text
unfolding join lines_before lines_after
placed b s = join newline (lines_before s ++ (block_lines b ++ lines_after s))

module _ (b : Block) (lines : AreLines b) (s : Text) where
  last_lines :
      lines_before s ++ block_lines b
      ≡ (lines_before s ++ b.start_marker ∷ b.body ∷ []) ++ b.end_marker ∷ []
  last_lines =
      sym (append_assoc (lines_before s) (b.start_marker ∷ b.body ∷ []) (b.end_marker ∷ []))

  block_ends : ends_with_newline (join newline (lines_before s ++ block_lines b)) ≡ false
  unfolding ends_with_newline contains_nat
  block_ends =
      ap (λ ls. ends_with_newline (join newline ls)) last_lines
      ∙ at_end (lines_before s ++ b.start_marker ∷ b.body ∷ []) b.end_marker lines.end_line
          lines.end_present
    where
      at_end :
          (ss : List Text) (t : Text)
          → contains_nat t newline ≡ false
          → is_empty t ≡ false
          → ends_with_newline (join newline (ss ++ t ∷ [])) ≡ false
      at_end ss [] h e = cc
      at_end ss (c ∷ t) h e = ends_with_newline-join ss c t ∙ ends_with_newline-without (c ∷ t) h

  block_present : is_empty (join newline (lines_before s ++ block_lines b)) ≡ false
  block_present =
      ap (λ ls. is_empty (join newline ls)) last_lines
      ∙ not_empty (lines_before s ++ b.start_marker ∷ b.body ∷ []) b.end_marker lines.end_present
    where
      not_empty :
          (ss : List Text) (t : Text)
          → is_empty t ≡ false
          → is_empty (join newline (ss ++ t ∷ [])) ≡ false
      not_empty ss [] e = cc
      not_empty ss (c ∷ t) e = is_empty-join ss c t

  free-lines :
      (marker : Text) (s : Text)
      → free marker (split newline [] s) ≡ true
      → free marker (lines_before s ++ lines_after s) ≡ true
  unfolding free
  free-lines marker s h = elim (lines-all s) [
    | inl all ↦ subst (λ ls. free marker ls ≡ true) (sym all) h
    | inr nil ↦ subst (λ ls. free marker ls ≡ true) (sym nil) refl
  ]

  -- Where the file has no line like the start marker, the block is placed behind its lines.
  pub apply_block-placed :
      free b.start_marker (split newline [] s) ≡ true → (apply_block s b true).0 ≡ placed b s
  unfolding apply_block new_lines placed lines_before lines_after
  apply_block-placed fresh =
      let kept = edit_lines-all_kept b true (split newline [] s) fresh in
      let final : Text = join newline (drop_last_empty (split newline [] s) ++ block_lines b) in
      let present : is_empty final ≡ false = block_present in
      let ends : ends_with_newline final ≡ false = block_ends in
      elim (Bool-cases (ends_with_newline s)) [
        | inl newline_kept ↦
            rw (kept, newline_kept, present, ends)
              (sym
                (join-newline_append (lines_before s) b.start_marker (b.body ∷ b.end_marker ∷ [])))
        | inr other ↦ rw (kept, other) refl
      ]

  -- That text ends the way the file does.
  pub ends_with_newline-placed : ends_with_newline (placed b s) ≡ ends_with_newline s
  unfolding placed lines_after
  ends_with_newline-placed = elim (Bool-cases (ends_with_newline s)) [
    | inl newline_kept ↦ rw newline_kept (
        ap ends_with_newline
          (join-newline_append (lines_before s) b.start_marker (b.body ∷ b.end_marker ∷ []))
        ∙ ends_with_newline-append (join newline (lines_before s ++ block_lines b)) newline [])
    | inr other ↦ rw other block_ends
  ]

  -- Its lines: those of the file, and between them the markers and the lines of the block.
  pub split-placed :
      split newline [] (placed b s)
      ≡ lines_before s
        ++ (b.start_marker ∷ (split newline [] b.body ++ b.end_marker ∷ lines_after s))
  unfolding placed without contains_nat
  split-placed =
      let whole = lines-without s in
      split-join_between newline (lines_before s) b.start_marker b.body
        (b.end_marker ∷ lines_after s)
        (without-append_first newline (lines_before s) (lines_after s) whole) lines.start_line
        (ground (
          arith,
          lines.end_line,
          without-append_second newline (lines_before s) (lines_after s) whole,
        ))

  -- Editing it leaves a block, or none, between the file's lines.
  pub new_lines-placed :
      (present : Bool)
      → AreMarkers b
      → free b.start_marker (split newline [] s) ≡ true
      → free b.end_marker (split newline [] b.body) ≡ true
      → new_lines b present (split newline [] (placed b s))
        ≡ lines_before s ++ ((if present then block_lines b else []) ++ lines_after s)
  unfolding new_lines
  new_lines-placed present m fresh inner =
      let all = free-lines b.start_marker s fresh in
      let edited =
        edit_lines-block b present (lines_before s) (split newline [] b.body) (lines_after s) m
          (free-append b.start_marker (lines_before s) (lines_after s) all) inner
          (free-append_second b.start_marker (lines_before s) (lines_after s) all) in
      rw (split-placed, edited) refl

  -- The block is taken out again: the file is what it was.
  pub apply_block-absent :
      AreMarkers b
      → free b.start_marker (split newline [] s) ≡ true
      → free b.end_marker (split newline [] b.body) ≡ true
      → (apply_block (placed b s) b false).0 ≡ s
  unfolding apply_block
  apply_block-absent m fresh inner =
      let final = ap (join newline) (new_lines-placed false m fresh inner) ∙ join-lines s in
      rw (final, ends_with_newline-placed) (ground arith)

  -- Placing it once more changes nothing.
  pub apply_block-again :
      AreMarkers b
      → free b.start_marker (split newline [] s) ≡ true
      → free b.end_marker (split newline [] b.body) ≡ true
      → apply_block (placed b s) b true ≡ (placed b s, false)
  unfolding apply_block placed lines_before
  apply_block-again m fresh inner =
      let final : join newline (new_lines b true (split newline [] (placed b s))) ≡ placed b s =
        ap (join newline) (new_lines-placed true m fresh inner) in
      let content : (if ends_with_newline (placed b s)
              && (not (is_empty (placed b s)) && not (ends_with_newline (placed b s)))
            then placed b s ++ newline ∷ []
            else placed b s)
          ≡ placed b s =
        ground arith in
      rw (final, content, text_eq_refl (trim_space (placed b s))) refl
