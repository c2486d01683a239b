-- ===== src/Sources/Swapped.antt =====
-- ludus-api/source_sync.go, `fetchAndWalkSource`: what an upload leaves in the checkout.
use ludus.Prelude.{
  ◌≡◌, refl, ap, ◌∙◌, ◌⊎◌, inl, inr, Bool, true, false, Option, none, some, Bool-cases,
  Option-cases,
}
use ludus.Prelude.Text.{Text}
use ludus.Prelude.Result.{err, Result-cases}
use ludus.Sources.Walk.{walk_source_repo}
use ludus.Sources.Fetch.{
  upload, checkout_dir, staging_dir, backup_dir, Dirs, FetchWorld, failed_call, no_artifacts,
  stat_checkout, move_in, swap_in, unpack, walk_checkout, after_update, fetch_and_walk_source,
}

-- The archive as it is extracted into the staging directory, and the error.
abbrev pub extracted : {A : Type 0} → FetchWorld A → Dirs A → Option A × Option Text
extracted w d = w.extract_archive (w.removed staging_dir d.staging)

module _ {A : Type 0} (w : FetchWorld A)
    (restores : w.rename_error backup_dir checkout_dir ≡ none) where
  -- The new content without an error, or an error with the old content.
  abbrev IsSwapped : Option A → Option A → Option Text × Dirs A → Type 0
  IsSwapped old new (failure, d) =
      ((failure ≡ none) × (d.checkout ≡ new))
      ⊎ ((message : Text) × (failure ≡ some message) × (d.checkout ≡ old))

  move_in-kept : (d : Dirs A) → IsSwapped d.checkout d.staging (move_in w false d)
  unfolding move_in
  move_in-kept d = elim (Option-cases (w.rename_error staging_dir checkout_dir)) [
    | inl moved ↦ rw (move_in, moved) (inl (refl, refl))
    | inr (message, failed) ↦ rw (move_in, failed) (inr (message, refl, refl))
  ]

  move_in-restored : (d : Dirs A) → IsSwapped d.backup d.staging (move_in w true d)
  unfolding move_in
  move_in-restored d = elim (Option-cases (w.rename_error staging_dir checkout_dir)) [
    | inl moved ↦ rw (move_in, moved) (inl (refl, refl))
    | inr (message, failed) ↦ rw (move_in, failed, restores) (inr (message, refl, refl))
  ]

  swap_in-IsSwapped : (d : Dirs A) → IsSwapped d.checkout d.staging (swap_in w d)
  unfolding swap_in
  swap_in-IsSwapped d =
      let cleared : Dirs A = record d { backup = w.removed backup_dir d.backup } in
      elim (Bool-cases (stat_checkout w cleared)) [
        | inr absent ↦ rw (swap_in, absent) (move_in-kept cleared)
        | inl there ↦ elim (Option-cases (w.rename_error checkout_dir backup_dir)) [
          | inl moved ↦
              rw (swap_in, there, moved)
                (move_in-restored (record cleared { checkout = none; backup = cleared.checkout }))
          | inr (message, failed) ↦ rw (swap_in, there, failed) (inr (message, refl, refl))
        ]
      ]

  unpack-IsSwapped :
      (d : Dirs A)
      → IsSwapped d.checkout (extracted w d).0 (unpack w d)
        × (((unpack w d).0 ≡ none) → ((extracted w d).1 ≡ none))
  unfolding unpack
  unpack-IsSwapped d = elim (Option-cases w.temp_dir_error) [
    | inr (message, failed) ↦ rw (unpack, failed) (inr (message, refl, refl), λ e. cc)
    | inl made ↦ elim (Option-cases w.temp_file_error) [
      | inr (message, failed) ↦ rw (unpack, made, failed) (inr (message, refl, refl), λ e. cc)
      | inl written ↦ elim (Option-cases (extracted w d).1) [
        | inr (message, failed) ↦
            rw (unpack, made, written, failed) (inr (message, refl, refl), λ e. cc)
        | inl complete ↦
            rw (unpack, made, written, complete)
              (swap_in-IsSwapped (record d { staging = (extracted w d).0 }), λ e. refl)
      ]
    ]
  ]

  walk_checkout-dirs :
      (landed : Bool) (d : Dirs A)
      → ((walk_checkout w landed d).dirs ≡ d) × ((walk_checkout w landed d).has_landed ≡ landed)
  unfolding walk_checkout
  walk_checkout-dirs landed d =
      elim (Result-cases (walk_source_repo (w.tree d.checkout) w.checkout_path)) [
        | inr (e, failed) ↦ rw (walk_checkout, failed) (refl, refl)
        | inl (walked, found) ↦ elim (Bool-cases (no_artifacts walked)) [
          | inl empty ↦ rw (walk_checkout, found, empty) (refl, refl)
          | inr some_artifact ↦ rw (walk_checkout, found, some_artifact) (refl, refl)
        ]
      ]

  after_update-IsSwapped :
      (d : Dirs A) (new : Option A) (result : Option Text × Dirs A)
      → IsSwapped d.checkout new result
      → (((after_update w result).has_landed ≡ true)
          × (result.0 ≡ none)
          × ((after_update w result).dirs.checkout ≡ new))
        ⊎ (((after_update w result).has_landed ≡ false)
            × ((message : Text) × ((after_update w result).answer ≡ err (failed_call message)))
            × ((after_update w result).dirs.checkout ≡ d.checkout))
  unfolding after_update
  after_update-IsSwapped d new (none, d') (inl (fine, content)) =
      let (dirs, landed) = walk_checkout-dirs true d' in
      inl (landed, refl, ap (λ (x : Dirs A). x.checkout) dirs ∙ content)
  after_update-IsSwapped d new (none, d') (inr (message, failed, content)) = cc
  after_update-IsSwapped d new (some text, d') (inl (fine, content)) = cc
  after_update-IsSwapped d new (some text, d') (inr (message, failed, content)) =
      inr (refl, (text, refl), content)

  -- An archive that is uploaded for a source, where a backup of the checkout can be put back: either
  -- it is extracted without an error, the checkout is then what was extracted, and the content is
  -- marked as landed; or a call failed, the checkout is what it was before, and nothing landed.
  pub fetch_and_walk_source-swaps :
      (d : Dirs A)
      → w.source_type ≡ upload
      → w.has_archive ≡ true
      → (((fetch_and_walk_source w d).has_landed ≡ true)
          × ((extracted w d).1 ≡ none)
          × ((fetch_and_walk_source w d).dirs.checkout ≡ (extracted w d).0))
        ⊎ (((fetch_and_walk_source w d).has_landed ≡ false)
            × ((message : Text) × ((fetch_and_walk_source w d).answer ≡ err (failed_call message)))
            × ((fetch_and_walk_source w d).dirs.checkout ≡ d.checkout))
  unfolding fetch_and_walk_source
  fetch_and_walk_source-swaps d is_upload archive =
      let (swapped, complete) = unpack-IsSwapped d in
      rw (fetch_and_walk_source, is_upload, archive)
        (elim (after_update-IsSwapped d (extracted w d).0 (unpack w d) swapped) [
          | inl (landed, fine, content) ↦ inl (landed, complete fine, content)
          | inr kept ↦ inr kept
        ])
