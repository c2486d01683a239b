-- ===== src/Archive/Zip/Cap.antt =====
-- archive_extract.go, `ExtractZipFile`: the cap on the bytes that are written.
use ludus.Prelude.{
  ℕ, ◌+◌, ◌≤◌, ◌≡◌, ◌≢◌, refl, ◌⊎◌, inl, inr, Bool, true, false, not, ◌&&◌, Option, none, some,
  List, [], ◌∷◌, ◌++◌, ltb, if◌then◌else◌, Bool-cases, Option-cases, arith,
}
use ludus.Prelude.Text.{Text}
use ludus.Archive.{
  Target, skipped, unsafe_path, escapes, target, safe_extract_path, strip_prefix_segment,
  detect_single_root,
}
use ludus.Archive.Zip.{
  ExtractOptions, Entry, ExtractError, symlink_refused, path_refused, mkdir_failed, create_failed,
  open_failed, World, State, is_mac_os_apple_double, dir_of, copied, copy_failure, write_file,
  extract_file, extract_to, extract_entry, extract_entries, entry_names, extract_zip_file,
}

abbrev pub total_bytes : List (Text × ℕ) → ℕ
total_bytes [] = 0
total_bytes (f ∷ fs) = f.1 + total_bytes fs

total_bytes-added :
    (fs : List (Text × ℕ)) (path : Text) (n : ℕ)
    → total_bytes (fs ++ (path, n) ∷ []) ≡ total_bytes fs + n
total_bytes-added [] path n = omega arith
total_bytes-added (f ∷ fs) path n = omega (arith, total_bytes-added fs path n)

-- The counter is what has been written, and within the cap.
Counted : ℕ → State → Type 0
Counted cap s = (total_bytes s.files ≡ s.written) × (s.written ≤ cap)

-- A round that goes on keeps the counter, and one that fails has written one byte beyond the cap at most.
Capped : ℕ → Option ExtractError × State → Type 0
Capped cap r = ((r.0 ≡ none) × Counted cap r.1) ⊎ ((r.0 ≢ none) × (total_bytes r.1.files ≤ cap + 1))

copied-bound :
    (opts : ExtractOptions) (e : Entry) (written : ℕ)
    → 1 ≤ opts.max_bytes
    → written ≤ opts.max_bytes
    → written + copied opts e written ≤ opts.max_bytes + 1
unfolding copied
copied-bound opts e written capped within = ground arith

module _ (opts : ExtractOptions) (capped : 1 ≤ opts.max_bytes) where
  write_file-Capped :
      (e : Entry) (path : Text) (s : State)
      → Counted opts.max_bytes s
      → Capped opts.max_bytes (write_file opts e path s)
  unfolding Capped Counted write_file
  write_file-Capped e path s counted =
      let added = total_bytes-added s.files path (copied opts e s.written) in
      let bound = copied-bound opts e s.written capped counted.1 in
      elim (Option-cases (copy_failure opts e s.written)) [
        | inl fine ↦ elim (Bool-cases (ltb opts.max_bytes (s.written + copied opts e s.written))) [
          | inl over ↦ inr (ground (arith, fine, over), ground (arith, fine, over, added, bound))
          | inr within ↦ inl (
            ground (arith, fine, within),
            (ground (arith, fine, within, added), ground (arith, fine, within)),
          )
        ]
        | inr (why, failed) ↦ inr (ground (arith, failed), ground (arith, failed, added, bound))
      ]

  fails-Capped :
      (why : ExtractError) (s : State)
      → Counted opts.max_bytes s
      → Capped opts.max_bytes (some why, s)
  unfolding Capped Counted
  fails-Capped why s counted = inr (λ h. cc, omega (arith, counted.0, counted.1))

  extract_file-Capped :
      (w : World) (e : Entry) (path : Text) (s : State)
      → Counted opts.max_bytes s
      → Capped opts.max_bytes (extract_file w opts e path s)
  unfolding Capped Counted extract_file
  extract_file-Capped w e path s counted =
      by_answers (w.mkdir_all (dir_of path)) (w.create path) e.opens
    where
      by_answers :
          (made created opened : Bool)
          → Capped opts.max_bytes (
              if not made
              then (some mkdir_failed, s)
              else if not created
              then (some create_failed, s)
              else if not opened
              then (some open_failed, record s { files = s.files ++ (path, 0) ∷ [] })
              else write_file opts e path s)
      by_answers false created opened = fails-Capped mkdir_failed s counted
      by_answers true false opened = fails-Capped create_failed s counted
      by_answers true true false =
          inr (λ h. cc, omega (arith, total_bytes-added s.files path 0, counted.0, counted.1))
      by_answers true true true = write_file-Capped e path s counted

  extract_to-Capped :
      (w : World) (e : Entry) (stripped path : Text) (s : State)
      → Counted opts.max_bytes s
      → Capped opts.max_bytes (extract_to w opts e stripped path s)
  unfolding Capped Counted extract_to
  extract_to-Capped w e stripped path s counted =
      by_kind (is_mac_os_apple_double stripped) e.is_dir (w.mkdir_all path)
    where
      by_kind :
          (double is_dir made : Bool)
          → Capped opts.max_bytes (
              if double
              then (none, s)
              else if is_dir
              then (if made
                  then (none, record s { dirs = s.dirs ++ path ∷ [] })
                  else (some mkdir_failed, s))
              else extract_file w opts e path s)
      by_kind true is_dir made = inl (refl, counted)
      by_kind false true true = inl (refl, counted)
      by_kind false true false = fails-Capped mkdir_failed s counted
      by_kind false false made = extract_file-Capped w e path s counted

  extract_entry-Capped :
      (w : World) (dest_dir root : Text) (e : Entry) (s : State)
      → Counted opts.max_bytes s
      → Capped opts.max_bytes (extract_entry w opts dest_dir root e s)
  unfolding Capped Counted extract_entry
  extract_entry-Capped w dest_dir root e s counted =
      by_guard (opts.reject_dangerous_entries && e.is_symlink) (safe_extract_path dest_dir stripped)
    where
      stripped : Text
      stripped = strip_prefix_segment e.name root

      by_guard :
          (dangerous : Bool) (t : Target)
          → Capped opts.max_bytes (
              if dangerous then (some (symlink_refused e.name), s) else elim t [
                | unsafe_path ↦ (some (path_refused stripped), s)
                | escapes ↦ (some (path_refused stripped), s)
                | skipped ↦ (none, s)
                | target path ↦ extract_to w opts e stripped path s
              ])
      by_guard true t = fails-Capped (symlink_refused e.name) s counted
      by_guard false unsafe_path = fails-Capped (path_refused stripped) s counted
      by_guard false escapes = fails-Capped (path_refused stripped) s counted
      by_guard false skipped = inl (refl, counted)
      by_guard false (target path) = extract_to-Capped w e stripped path s counted

  extract_entries-Capped :
      (w : World) (dest_dir root : Text) (es : List Entry) (s : State)
      → Counted opts.max_bytes s
      → Capped opts.max_bytes (extract_entries w opts dest_dir root es s)
  unfolding Capped Counted extract_entries
  extract_entries-Capped w dest_dir root [] s counted = inl (refl, counted)
  extract_entries-Capped w dest_dir root (e ∷ es) s counted =
      let r = extract_entry w opts dest_dir root e s in
      by_round r.0 r.1 (extract_entry-Capped w dest_dir root e s counted)
        (λ next. extract_entries-Capped w dest_dir root es r.1 next)
    where
      by_round :
          (failure : Option ExtractError) (s' : State)
          → Capped opts.max_bytes (failure, s')
          → (Counted opts.max_bytes s'
              → Capped opts.max_bytes (extract_entries w opts dest_dir root es s'))
          → Capped opts.max_bytes (elim failure [
            | none ↦ extract_entries w opts dest_dir root es s'
            | some why ↦ (some why, s')
          ])
      by_round none s' (inl (fine, next)) later = later next
      by_round none s' (inr (bad, over)) later = absurd (bad refl)
      by_round (some why) s' c later = c

-- An archive is extracted with a cap on the bytes: whatever its entries and the answers of the file
-- system, at most one byte more than the cap is written, and an extraction without an error has written
-- no more than the cap.
pub extract_zip_file-within_cap :
    (w : World) (opts : ExtractOptions) (dest_dir : Text) (entries : List Entry)
    → 1 ≤ opts.max_bytes
    → (total_bytes (extract_zip_file w opts dest_dir entries).1.files ≤ opts.max_bytes + 1)
      × (((extract_zip_file w opts dest_dir entries).0 ≢ none)
          ⊎ (total_bytes (extract_zip_file w opts dest_dir entries).1.files ≤ opts.max_bytes))
unfolding extract_zip_file Capped Counted
extract_zip_file-within_cap w opts dest_dir entries capped =
    let root = if opts.strip_single_root then detect_single_root (entry_names entries) else [] in
    elim (extract_entries-Capped opts capped w dest_dir root entries
      (record { dirs = []; files = []; written = 0 }) (refl, omega arith)) [
        | inl (fine, (total, within)) ↦
            (omega (arith, total, within), inr (omega (arith, total, within)))
        | inr (failed, total) ↦ (total, inl failed)
      ]
