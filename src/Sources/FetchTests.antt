-- ===== src/Sources/FetchTests.antt =====
-- An upload whose content cannot be moved in, and one whose archive is walked.
use ludus.Prelude.{◌≡◌, ◌⊎◌, refl, Bool, true, false, Option, none, some, [], ◌∷◌}
use ludus.Prelude.Text.{Text, codes, text_eq}
use ludus.Prelude.Result.{err}
use ludus.Sources.Walk.{not_exist, Listing, entries, no_directory, Tree}
use ludus.Sources.Fetch.{
  upload, Dir, checkout_dir, staging_dir, Dirs, FetchWorld, failed_call, Fetched,
  fetch_and_walk_source,
}
use ludus.Sources.Swapped.{extracted, fetch_and_walk_source-swaps}

-- A template is in every checkout.
abbrev with_template : Option Text → Tree
with_template content = record {
  read_dir = λ dir. if_templates (text_eq dir (codes "/r/templates"));
  read = λ path. not_exist;
  stat = λ path. text_eq path (codes "/r/templates/deb/deb.pkr.hcl");
  unmarshal_manifest = λ text. none;
  semver_is_valid = λ version. true;
  unmarshal_source = λ text. some 1;
}
  where
    if_templates : Bool → Listing
    if_templates true =
        entries (record { entry_name = codes "deb"; is_dir = true; is_symlink = false } ∷ [])
    if_templates false = no_directory

-- The new content cannot be moved to the checkout, all other calls succeed.
abbrev stuck_rename : Dir → Dir → Option Text
stuck_rename staging_dir checkout_dir = some (codes "device or resource busy")
stuck_rename _ _ = none

abbrev uploaded : (Dir → Dir → Option Text) → FetchWorld Text
uploaded renames = record {
  source_type = upload;
  has_archive = true;
  clone_or_update = λ content. (content, none);
  temp_dir_error = none;
  temp_file_error = none;
  removed = λ dir content. none;
  extract_archive = λ content. (some (codes "new"), none);
  can_stat = true;
  rename_error = renames;
  checkout_path = codes "/r";
  tree = with_template;
}

abbrev dirs_before : Dirs Text
dirs_before = record { checkout = some (codes "old"); staging = none; backup = none }

fetch_and_walk_source-swaps_example :
    (((fetch_and_walk_source (uploaded stuck_rename) dirs_before).has_landed ≡ true)
      × ((extracted (uploaded stuck_rename) dirs_before).1 ≡ none)
      × ((fetch_and_walk_source (uploaded stuck_rename) dirs_before).dirs.checkout
          ≡ some (codes "new")))
    ⊎ (((fetch_and_walk_source (uploaded stuck_rename) dirs_before).has_landed ≡ false)
        × ((message : Text) × ((fetch_and_walk_source (uploaded stuck_rename) dirs_before).answer
              ≡ err (failed_call message)))
        × ((fetch_and_walk_source (uploaded stuck_rename) dirs_before).dirs.checkout
            ≡ some (codes "old")))
fetch_and_walk_source-swaps_example =
    fetch_and_walk_source-swaps (uploaded stuck_rename) refl dirs_before refl refl

abbrev checkout_of : {A : Type 0} → Fetched A → Option A
checkout_of fetched = fetched.dirs.checkout

-- The old content is back.
stuck_rename_test :
    checkout_of (fetch_and_walk_source (uploaded stuck_rename) dirs_before) ≡ some (codes "old")
unfolding fetch_and_walk_source
stuck_rename_test = refl

moved_in_test :
    checkout_of (fetch_and_walk_source (uploaded (λ a b. none)) dirs_before) ≡ some (codes "new")
unfolding fetch_and_walk_source
moved_in_test = refl
