-- ===== src/Sources/Fetch.antt =====
-- ludus-api/source_sync.go, `fetchAndWalkSource`: the checkout of a source is brought up to date and
-- walked. The git client, the reader of archives and the file system's calls are parameters.
use ludus.Prelude.{Bool, true, false, ◌&&◌, Option, none, some, [], ◌∷◌, if◌then◌else◌}
use ludus.Prelude.Text.{Text}
use ludus.Prelude.Result.{Result, ok, err}
use ludus.Sources.{WalkedSource}
use ludus.Sources.Walk.{Tree, WalkError, walk_source_repo}

pub data SourceType : Type 0 where
  git upload other_type : SourceType

-- The directory of a checkout, and its siblings with ".incoming" and ".old" behind the name.
pub data Dir : Type 0 where
  checkout_dir staging_dir backup_dir : Dir

-- What is in the three directories.
pub record Dirs (A : Type 0) : Type 0 where
  pub checkout : Option A
  pub staging : Option A
  pub backup : Option A

-- A call's error is its text. `removed` is what is left of a directory, with the error passed over.
pub record FetchWorld (A : Type 0) : Type 0 where
  pub source_type : SourceType
  pub has_archive : Bool
  pub clone_or_update : Option A → Option A × Option Text
  pub temp_dir_error : Option Text
  pub temp_file_error : Option Text
  pub removed : Dir → Option A → Option A
  pub extract_archive : Option A → Option A × Option Text
  pub can_stat : Bool
  pub rename_error : Dir → Dir → Option Text
  pub checkout_path : Text
  pub tree : Option A → Tree

pub data FetchError : Type 0 where
  failed_call : Text → FetchError
  no_content : FetchError
  unknown_source_type : FetchError
  walk_failed : WalkError → FetchError
  nothing_to_register : FetchError

-- The error, whether `markSyncFailed` was called for it, and whether `markContentLanded` was called.
pub record Fetched (A : Type 0) : Type 0 where
  pub answer : Result FetchError WalkedSource
  pub is_marked : Bool
  pub has_landed : Bool
  pub dirs : Dirs A

abbrev pub no_artifacts : WalkedSource → Bool
no_artifacts walked = elim walked.blueprints [
  | bp ∷ bps ↦ false
  | [] ↦ elim walked.templates [
    | t ∷ ts ↦ false
    | [] ↦ elim walked.local_roles [ [] ↦ true | r ∷ rs ↦ false ]
  ]
]

module _ {A : Type 0} where
  abbrev remove_staging : FetchWorld A → Dirs A → Dirs A
  remove_staging w d = record d { staging = w.removed staging_dir d.staging }

  abbrev remove_backup : FetchWorld A → Dirs A → Dirs A
  remove_backup w d = record d { backup = w.removed backup_dir d.backup }

  -- `os.Stat` of the checkout
  abbrev pub stat_checkout : FetchWorld A → Dirs A → Bool
  stat_checkout w d = w.can_stat && elim d.checkout [ none ↦ false | some a ↦ true ]

  -- The staging directory becomes the checkout; where it cannot, the backup is put back.
  unfoldable pub move_in : FetchWorld A → Bool → Dirs A → Option Text × Dirs A
  move_in w renamed_old d = elim (w.rename_error staging_dir checkout_dir) [
    | none ↦ (none, remove_backup w (record d { checkout = d.staging; staging = none }))
    | some message ↦
        (let back : Dirs A = elim (w.rename_error backup_dir checkout_dir) [
          | none ↦ record d { checkout = d.backup; backup = none }
          | some ignored ↦ d
        ] in
          (some message, remove_staging w (if renamed_old then back else d)))
  ]

  -- The checkout is moved to the backup if it is there.
  unfoldable pub swap_in : FetchWorld A → Dirs A → Option Text × Dirs A
  unfolding move_in
  swap_in w d =
      let cleared = remove_backup w d in
      let moved : Option Text × Dirs A = elim (w.rename_error checkout_dir backup_dir) [
        | some message ↦ (some message, remove_staging w cleared)
        | none ↦ move_in w true (record cleared { checkout = none; backup = cleared.checkout })
      ] in
      let fresh = move_in w false cleared in if stat_checkout w cleared then moved else fresh

  -- An archive that is uploaded.
  unfoldable pub unpack : FetchWorld A → Dirs A → Option Text × Dirs A
  unfolding swap_in
  unpack w d = elim w.temp_dir_error [
    | some message ↦ (some message, d)
    | none ↦ elim w.temp_file_error [
      | some message ↦ (some message, d)
      | none ↦
          (let (content, failure) = w.extract_archive (w.removed staging_dir d.staging) in
            let staged : Dirs A = record d { staging = content } in
            elim failure [
              | some message ↦ (some message, remove_staging w staged)
              | none ↦ swap_in w staged
            ])
    ]
  ]

  abbrev not_walked : FetchError → Bool → Bool → Dirs A → Fetched A
  not_walked e marked landed d = record {
    answer = err e;
    is_marked = marked;
    has_landed = landed;
    dirs = d;
  }

  unfoldable pub walk_checkout : FetchWorld A → Bool → Dirs A → Fetched A
  unfolding walk_source_repo
  walk_checkout w landed d = elim (walk_source_repo (w.tree d.checkout) w.checkout_path) [
    | err e ↦ not_walked (walk_failed e) true landed d
    | ok walked ↦
        if no_artifacts walked
        then not_walked nothing_to_register true landed d
        else record { answer = ok walked; is_marked = false; has_landed = landed; dirs = d }
  ]

  -- After a call that brings new content.
  unfoldable pub after_update : FetchWorld A → Option Text × Dirs A → Fetched A
  unfolding walk_checkout
  after_update w (some message, d) = not_walked (failed_call message) true false d
  after_update w (none, d) = walk_checkout w true d

  unfoldable pub fetch_and_walk_source : FetchWorld A → Dirs A → Fetched A
  unfolding after_update unpack
  fetch_and_walk_source w d = elim w.source_type [
    | git ↦
        (let (content, failure) = w.clone_or_update d.checkout in
          after_update w (failure, record d { checkout = content }))
    | upload ↦
        (let unpacked = after_update w (unpack w d) in
          let as_it_is = walk_checkout w false d in
          if w.has_archive
          then unpacked
          else if stat_checkout w d
          then as_it_is
          else not_walked no_content true false d)
    | other_type ↦ not_walked unknown_source_type false false d
  ]
