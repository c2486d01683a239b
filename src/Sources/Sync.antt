-- ===== src/Sources/Sync.antt =====
-- ludus-api/source_sync.go, `runSourceInstall`: an install as a whole. Whether the record of
-- the source is saved is a parameter.
use ludus.Prelude.{Bool, not, Option, none, some, List, [], ◌∷◌, ◌++◌, if◌then◌else◌}
use ludus.Prelude.Text.{Text, codes, text_eq}
use ludus.Prelude.Result.{Result, ok, err}
use ludus.Sources.{Checkout, WalkedSource}
use ludus.Sources.Selection.{InstallSelection, Claims, Missing, applied_selection}
use ludus.Sources.Install.{
  ArtifactKind, template, local_role, local_collection, kind_eq, Artifact, InstallWorld,
  ArtifactResult, register_templates, register_local_roles, register_local_collections,
  AnsibleInstallResult, artifact_failures, collect_artifact_failures,
}
use ludus.Sources.Fetch.{FetchWorld, FetchError, Fetched, Dirs, fetch_and_walk_source}
use ludus.Sources.Galaxy.{GalaxyWorld, install_unioned_ansible}
use ludus.Sources.Rows.{BlueprintRow, Source, RowsWorld, RowsError, upsert_source_blueprints}

-- `has_base` says whether there is a directory for collections.
pub record SyncOptions : Type 0 where
  pub force : Bool
  pub no_deps : Bool
  pub selection : Option InstallSelection
  pub from_claims : Bool
  pub has_base : Bool

pub record LocalResults : Type 0 where
  pub template_results : List ArtifactResult
  pub role_results : List ArtifactResult
  pub collection_results : List ArtifactResult

-- The three loops, one after the other.
unfoldable pub register_local :
    Checkout
    → InstallWorld
    → Text
    → SyncOptions
    → WalkedSource
    → InstallSelection
    → List Artifact
    → LocalResults × List Artifact
unfolding register_templates register_local_roles register_local_collections
register_local c w source opts walked sel ledger =
    let ts = register_templates c w source opts.force sel walked.templates ledger in
    let rs = register_local_roles c w source sel walked.local_roles ts.1 in
    let cs =
      register_local_collections c w source opts.has_base sel walked.local_collections rs.1 in
    (record { template_results = ts.0; role_results = rs.0; collection_results = cs.0 }, cs.1)

unfoldable pub collect_sync_failures : LocalResults → List AnsibleInstallResult → List Text
unfolding collect_artifact_failures artifact_failures
collect_sync_failures local galaxy =
    collect_artifact_failures local.template_results local.role_results galaxy
    ++ artifact_failures (codes "local_collection") local.collection_results

pub data SyncStatus : Type 0 where
  status_ok : SyncStatus
  status_partial : List Text → SyncStatus
  status_error : RowsError → SyncStatus
  status_not_fetched : FetchError → SyncStatus

-- A source without a status has never been installed from.
pub record SyncState : Type 0 where
  pub rows : List BlueprintRow
  pub ledger : List Artifact
  pub last_sync_status : Option SyncStatus

pub data SyncError : Type 0 where
  not_fetched : FetchError → SyncError
  not_available : List Missing → SyncError
  source_not_saved : SyncError
  rows_not_saved : RowsError → SyncError

unfoldable pub row_ids : Text → List BlueprintRow → List Text
unfolding text_eq
row_ids source [] = []
row_ids source (row ∷ rows) =
    let rest = row_ids source rows in
    if text_eq row.source source then row.source_blueprint_id ∷ rest else rest

unfoldable pub claim_names : Text → ArtifactKind → List Artifact → List Text
unfolding text_eq kind_eq
claim_names source kind [] = []
claim_names source kind (a ∷ ledger) =
    let rest = claim_names source kind ledger in
    if text_eq a.source source then (if kind_eq a.kind kind then a.name ∷ rest else rest) else rest

-- What the queries of `selectionFromClaims` find.
unfoldable pub claims_of : RowsWorld → InstallWorld → Text → SyncState → Claims
unfolding row_ids claim_names
claims_of rw_world w source s = record {
  blueprint_claims = if rw_world.can_list then some (row_ids source s.rows) else none;
  template_claims = if w.can_query then some (claim_names source template s.ledger) else none;
  role_claims = if w.can_query then some (claim_names source local_role s.ledger) else none;
  collection_claims =
      if w.can_query then some (claim_names source local_collection s.ledger) else none;
}

abbrev sync_status_of : List Text → SyncStatus
sync_status_of [] = status_ok
sync_status_of (failure ∷ failures) = status_partial (failure ∷ failures)

-- What is done after the rows are written: the failures, and the ledger.
unfoldable pub install_artifacts :
    Checkout
    → InstallWorld
    → Text
    → SyncOptions
    → GalaxyWorld
    → WalkedSource
    → InstallSelection
    → List Artifact
    → List Text × List Artifact
unfolding register_local collect_sync_failures install_unioned_ansible
install_artifacts c w source opts g walked sel ledger =
    let (local, ledger') = register_local c w source opts walked sel ledger in
    let installed = install_unioned_ansible c g w source walked sel ledger' in
    let deps = if opts.no_deps then ([], ledger') else installed in
    (collect_sync_failures local deps.0, deps.1)

-- Whether the record of the source is saved, first with the manifest and then with the status. A
-- status that is not saved is lost.
pub record Saves : Type 0 where
  pub manifest_saved : Bool
  pub status_saved : Bool

abbrev with_status : Saves → SyncStatus → SyncState → SyncState
with_status saves status s =
    if saves.status_saved then record s { last_sync_status = some status } else s

-- With the selection that is applied.
unfoldable pub install_selection :
    Checkout
    → RowsWorld
    → InstallWorld
    → Source
    → SyncOptions
    → GalaxyWorld
    → WalkedSource
    → Result (List Missing) InstallSelection
    → Saves
    → SyncState
    → Option SyncError × SyncState
unfolding upsert_source_blueprints install_artifacts
install_selection c rows_world w src opts g walked (err missing) saves s =
    (some (not_available missing), s)
install_selection c rows_world w src opts g walked (ok sel) saves s =
    if not saves.manifest_saved
    then (some source_not_saved, s)
    else (let (failure, rows') = upsert_source_blueprints rows_world src walked sel s.rows in
        let (failures, ledger') = install_artifacts c w src.record_id opts g walked sel s.ledger in
        elim failure [
          | some e ↦ (
            some (rows_not_saved e),
            with_status saves (status_error e) (record s { rows = rows' }),
          )
          | none ↦ (
            (if saves.status_saved then none else some source_not_saved),
            with_status saves (sync_status_of failures)
                (record s { rows = rows'; ledger = ledger' }),
          )
        ])

-- `markSyncFailed` for a fetch that failed.
abbrev mark_fetch : {A : Type 0} → Saves → FetchError → Fetched A → SyncState → SyncState
mark_fetch saves e fetched s =
    if fetched.is_marked then with_status saves (status_not_fetched e) s else s

-- With what became of the directories of the source.
unfoldable pub run_source_install :
    {A : Type 0}
    → Checkout
    → RowsWorld
    → InstallWorld
    → Source
    → SyncOptions
    → GalaxyWorld
    → FetchWorld A
    → Dirs A
    → Saves
    → SyncState
    → Option SyncError × SyncState × Fetched A
unfolding install_selection applied_selection claims_of fetch_and_walk_source
run_source_install c rows_world w src opts g fetch dirs saves s =
    let fetched = fetch_and_walk_source fetch dirs in
    elim fetched.answer [
      | err e ↦ (some (not_fetched e), mark_fetch saves e fetched s, fetched)
      | ok walked ↦
          (let (failure, s') =
              install_selection c rows_world w src opts g walked
                (applied_selection c opts.from_claims opts.selection
                  (claims_of rows_world w src.record_id s) walked)
                saves s in
            (failure, s', fetched))
    ]
