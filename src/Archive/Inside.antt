-- ===== src/Archive/Inside.antt =====
-- archive_extract.go, `safeExtractPath`: where the entries of an archive are written.
use ludus.Prelude.{
  ◌≡◌, ◌≢◌, refl, sym, ap, append_assoc, ◌∙◌, ◌⊎◌, inl, inr, true, false, ◌||◌, List, [], ◌∷◌, ◌++◌,
  if◌then◌else◌, Bool-cases, arith,
}
use ludus.Prelude.Text.{Text, is_empty, text_eq, split, join}
use ludus.Prelude.Splitting.{join-append}
use ludus.Archive.{
  slash, dot, dot_dot, is_dot, has_prefix, enter, enter_all, is_abs, clean, join_path, skipped,
  unsafe_path, target, safe_extract_path,
}
use ludus.Archive.Segments.{
  all_plain, all_plain-append, tidy-split, tidy-plain, enter_all-plain, split-join_plain,
}

clean-rooted : (name : Text) → is_abs name ≡ true → is_abs (clean name) ≡ true
unfolding is_abs clean
clean-rooted name abs = rw (clean, abs) refl

-- The text of a relative name once it is cleaned.
abbrev relative_text : List Text → Text
relative_text segments = if is_empty (join slash segments) then dot else join slash segments

clean-unrooted :
    (name : Text)
    → is_abs name ≡ false
    → clean name ≡ relative_text (enter_all false [] (split slash [] name))
unfolding clean join
clean-unrooted name rel = rw (clean, rel) refl

relative_text-named :
    (segments : List Text)
    → is_dot (relative_text segments) ≡ false
    → relative_text segments ≡ join slash segments
unfolding text_eq join
relative_text-named segments named = elim (Bool-cases (is_empty (join slash segments))) [
  | inl blank ↦ ground arith
  | inr text ↦ rw text refl
]

-- A cleaned name that is relative, not "." and does not begin with "..".
clean-relative :
    (name : Text)
    → is_abs (clean name) ≡ false
    → has_prefix dot_dot (clean name) ≡ false
    → is_dot (clean name) ≡ false
    → is_empty (clean name) ≡ false
    → (s : Text) × (ss : List Text) × (all_plain (s ∷ ss) ≡ true)
      × (clean name ≡ join slash (s ∷ ss))
unfolding join
clean-relative name relative inside named filled =
    let segments = enter_all false [] (split slash [] name) in
    let unrooted : is_abs name ≡ false = elim (Bool-cases (is_abs name)) [
      | inl abs ↦ (let rooted = clean-rooted name abs in cc)
      | inr rel ↦ rel
    ] in
    let whole = clean-unrooted name unrooted in
    let text = whole ∙ relative_text-named segments (ap is_dot (sym whole) ∙ named) in
    let plain =
      tidy-plain segments (tidy-split name) (ap (has_prefix dot_dot) (sym text) ∙ inside) in
    of_segments segments plain text (ap is_empty (sym text) ∙ filled)
  where
    of_segments :
        (segments : List Text)
        → all_plain segments ≡ true
        → clean name ≡ join slash segments
        → is_empty (join slash segments) ≡ false
        → (s : Text) × (ss : List Text) × (all_plain (s ∷ ss) ≡ true)
          × (clean name ≡ join slash (s ∷ ss))
    of_segments [] plain text filled' = absurd (nothing filled')
      where
        nothing : is_empty (join slash []) ≢ false
        nothing h = cc
    of_segments (s ∷ ss) plain text filled' = (s, ss, plain, text)

clean-plain :
    (d : Text) (ds : List Text)
    → all_plain (d ∷ ds) ≡ true
    → clean (slash ∷ join slash (d ∷ ds)) ≡ slash ∷ join slash (d ∷ ds)
unfolding clean is_abs enter_all enter split
clean-plain d ds h =
    ap (λ (ss : List Text). slash ∷ join slash (enter_all true [] ss)) (split-join_plain d ds h)
    ∙ ap (λ (ss : List Text). slash ∷ join slash ss) (enter_all-plain (d ∷ ds) [] h)

join_path-plain :
    (d : Text) (ds : List Text) (s : Text) (ss : List Text)
    → all_plain (d ∷ ds) ≡ true
    → all_plain (s ∷ ss) ≡ true
    → join_path (slash ∷ join slash (d ∷ ds)) (join slash (s ∷ ss))
      ≡ slash ∷ join slash ((d ∷ ds) ++ s ∷ ss)
unfolding join_path
join_path-plain d ds s ss h k =
    ap (λ (t : Text). clean (slash ∷ t)) (join-append slash d ds s ss)
    ∙ clean-plain d (ds ++ s ∷ ss) (all_plain-append (d ∷ ds) (s ∷ ss) h k)

pub has_prefix-append : (p s : Text) → has_prefix p (p ++ s) ≡ true
unfolding has_prefix
has_prefix-append [] s = refl
has_prefix-append (c ∷ p) s = ground (arith, has_prefix-append p s)

-- The last test of the source holds for every path below the directory.
below_prefix :
    (d : Text) (ds : List Text) (s : Text) (ss : List Text)
    → has_prefix
        ((slash ∷ join slash (d ∷ ds)) ++ slash ∷ [])
        ((slash ∷ join slash ((d ∷ ds) ++ s ∷ ss)) ++ slash ∷ [])
      ≡ true
below_prefix d ds s ss =
    let dir = slash ∷ join slash (d ∷ ds) in
    let rest = join slash (s ∷ ss) ++ slash ∷ [] in
    let whole : (slash ∷ join slash ((d ∷ ds) ++ s ∷ ss)) ++ slash ∷ []
        ≡ (dir ++ slash ∷ []) ++ rest =
      ap (λ (t : Text). (slash ∷ t) ++ slash ∷ []) (sym (join-append slash d ds s ss))
      ∙ append_assoc dir (slash ∷ join slash (s ∷ ss)) (slash ∷ [])
      ∙ sym (append_assoc dir (slash ∷ []) rest) in
    ap (has_prefix (dir ++ slash ∷ [])) whole ∙ has_prefix-append (dir ++ slash ∷ []) rest

skips :
    (dest name : Text)
    → (is_dot (clean name) || is_empty (clean name)) ≡ true
    → safe_extract_path dest name ≡ skipped
unfolding safe_extract_path
skips dest name skip = rw (safe_extract_path, skip) refl

refuses :
    (dest name : Text)
    → (is_dot (clean name) || is_empty (clean name)) ≡ false
    → (is_abs (clean name) || has_prefix dot_dot (clean name)) ≡ true
    → safe_extract_path dest name ≡ unsafe_path
unfolding safe_extract_path
refuses dest name keep bad = rw (safe_extract_path, keep, bad) refl

writes :
    (dest name path : Text)
    → (is_dot (clean name) || is_empty (clean name)) ≡ false
    → (is_abs (clean name) || has_prefix dot_dot (clean name)) ≡ false
    → join_path dest (clean name) ≡ path
    → has_prefix (dest ++ slash ∷ []) (path ++ slash ∷ []) ≡ true
    → safe_extract_path dest name ≡ target path
unfolding safe_extract_path
writes dest name path keep good joined below =
    rw (safe_extract_path, keep, good, joined, below) refl

-- The destination is an absolute path of plain segments, which are not empty, not "." or ".." and have
-- no "/". Then an entry of any name is skipped, refused as unsafe, or written to a path that is the
-- destination with at least one plain segment behind it; the error for a path that escapes does not
-- arise.
pub safe_extract_path-inside :
    (d : Text) (ds : List Text) (name : Text)
    → all_plain (d ∷ ds) ≡ true
    → (safe_extract_path (slash ∷ join slash (d ∷ ds)) name ≡ skipped)
      ⊎ ((safe_extract_path (slash ∷ join slash (d ∷ ds)) name ≡ unsafe_path)
          ⊎ ((s : Text) × (ss : List Text) × (all_plain (s ∷ ss) ≡ true)
              × (safe_extract_path (slash ∷ join slash (d ∷ ds)) name
                  ≡ target (slash ∷ join slash ((d ∷ ds) ++ s ∷ ss)))))
safe_extract_path-inside d ds name h =
    elim (Bool-cases (is_dot (clean name) || is_empty (clean name))) [
      | inl skip ↦ inl (skips (slash ∷ join slash (d ∷ ds)) name skip)
      | inr keep ↦ elim (Bool-cases (is_abs (clean name) || has_prefix dot_dot (clean name))) [
        | inl bad ↦ inr (inl (refuses (slash ∷ join slash (d ∷ ds)) name keep bad))
        | inr good ↦
            let (s, ss, plain, text) =
              clean-relative name (ground arith) (ground arith) (ground arith) (ground arith) in
            let path : join_path (slash ∷ join slash (d ∷ ds)) (clean name)
                ≡ slash ∷ join slash ((d ∷ ds) ++ s ∷ ss) =
              ap (join_path (slash ∷ join slash (d ∷ ds))) text
              ∙ join_path-plain d ds s ss h plain in
            inr (inr (s, ss, plain, writes _ name _ keep good path (below_prefix d ds s ss)))
      ]
    ]
