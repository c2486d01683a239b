-- ===== src/Archive/Tests.antt =====
-- Names of entries, and the directory that they are written to.
use ludus.Prelude.{◌≡◌, ◌⊎◌, refl, true, List, [], ◌∷◌, ◌++◌}
use ludus.Prelude.Text.{Text, codes, text_eq, join}
use ludus.Archive.{
  slash, clean, safe_extract_path, skipped, unsafe_path, target, detect_single_root,
  strip_prefix_segment, single_root, has_prefix, trim_prefix,
}
use ludus.Archive.Segments.{all_plain, is_plain}
use ludus.Archive.Inside.{safe_extract_path-inside}
use ludus.Archive.Root.{bare, strip_prefix_segment-detected}

clean_test : clean (codes "lab//x/../roles/./main.yml") ≡ codes "lab/roles/main.yml"
unfolding clean join
clean_test = refl

clean_above_test : clean (codes "a/../../etc/passwd") ≡ codes "../etc/passwd"
unfolding clean join
clean_above_test = refl

safe_extract_path_test :
    safe_extract_path (codes "/opt/ludus") (codes "a/../../etc/passwd") ≡ unsafe_path
unfolding safe_extract_path
safe_extract_path_test = refl

safe_extract_path-inside_example :
    (safe_extract_path
        (slash ∷ join slash (codes "opt" ∷ codes "ludus" ∷ []))
        (codes "lab/./main.yml")
      ≡ skipped)
    ⊎ ((safe_extract_path
            (slash ∷ join slash (codes "opt" ∷ codes "ludus" ∷ []))
            (codes "lab/./main.yml")
          ≡ unsafe_path)
        ⊎ ((s : Text) × (ss : List Text) × (all_plain (s ∷ ss) ≡ true)
            × (safe_extract_path
                  (slash ∷ join slash (codes "opt" ∷ codes "ludus" ∷ []))
                  (codes "lab/./main.yml")
                ≡ target (slash ∷ join slash ((codes "opt" ∷ codes "ludus" ∷ []) ++ s ∷ ss)))))
unfolding is_plain
safe_extract_path-inside_example =
    safe_extract_path-inside (codes "opt") (codes "ludus" ∷ []) (codes "lab/./main.yml") refl

abbrev entries : List Text
entries = codes "./lab/" ∷ codes "lab/main.yml" ∷ codes "./" ∷ []

strip_prefix_segment-detected_example :
    ((bare (codes "lab/main.yml") ≡ codes "lab")
      × (strip_prefix_segment (codes "lab/main.yml") (codes "lab") ≡ []))
    ⊎ (bare (codes "lab/main.yml")
        ≡ codes "lab" ++ slash ∷ strip_prefix_segment (codes "lab/main.yml") (codes "lab"))
unfolding detect_single_root single_root has_prefix trim_prefix text_eq
strip_prefix_segment-detected_example =
    strip_prefix_segment-detected entries (codes "lab") 1 (codes "lab/main.yml") refl refl refl refl
