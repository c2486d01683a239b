-- ===== src/Sources/Rows.antt =====
-- ludus-api/source_sync.go, `upsertSourceBlueprints`: the rows of a source's blueprints. The state is
-- the collection of all blueprint rows.
use ludus.Prelude.{
  Bool, true, false, not, ◌&&◌, Option, none, some, List, [], ◌∷◌, ◌++◌, if◌then◌else◌,
}
use ludus.Prelude.Text.{Text, codes, contains_text, is_empty, text_eq}
use ludus.Archive.{join_path, slash}
use ludus.Sources.{BlueprintManifest, WalkedBlueprint, WalkedSource}
use ludus.Sources.Selection.{InstallSelection, manifest_ids}

-- The fields that each install refreshes.
pub record Content : Type 0 where
  pub name : Text
  pub description : Text
  pub version : Text
  pub tags : List Text
  pub min_ludus_version : Text
  pub blueprint_path : Text
  pub config_path : Text
  pub requirements_yaml : Text
  pub thumbnail : Option Text

pub record BlueprintRow : Type 0 where
  pub source : Text
  pub source_blueprint_id : Text
  pub blueprint_id : Text
  pub owner : Text
  pub shared_users : List Text
  pub shared_groups : List Text
  pub content : Content

-- The record of the source.
pub record Source : Type 0 where
  pub record_id : Text
  pub source_id : Text
  pub owner : Text

-- Which operations succeed; the thumbnail's file, if it can be read; and `filepath.Rel` from the
-- checkout.
pub record RowsWorld : Type 0 where
  pub has_collection : Bool
  pub can_query : Text → Bool
  pub can_list : Bool
  pub can_find_conflict : Bool
  pub can_save : BlueprintRow → Bool
  pub can_delete : BlueprintRow → Bool
  pub new_file_from_path : Text → Option Text
  pub relative : Text → Option Text

pub data RowsError : Type 0 where
  find_collection : RowsError
  id_in_use : Text → RowsError
  save_failed : Text → RowsError

abbrev relative_to_checkout : RowsWorld → Text → Text
relative_to_checkout w target = elim (w.relative target) [ none ↦ target | some rel ↦ rel ]

abbrev new_thumbnail : RowsWorld → Text → Option Text → Option Text
new_thumbnail w path old =
    if is_empty path
    then old
    else elim (w.new_file_from_path path) [ none ↦ old | some file ↦ some file ]

-- A new record has no thumbnail.
unfoldable pub content_of : RowsWorld → WalkedBlueprint → BlueprintManifest → Option Text → Content
unfolding join_path
content_of w bp m old_thumbnail = record {
  name = m.name;
  description = m.description;
  version = m.version;
  tags = m.tags;
  min_ludus_version = m.min_ludus_version;
  blueprint_path = relative_to_checkout w (join_path bp.dir (codes "blueprint.yml"));
  config_path = relative_to_checkout w bp.config_path;
  requirements_yaml = bp.requirements_yaml;
  thumbnail = new_thumbnail w bp.thumbnail_path old_thumbnail;
}

abbrev pub is_row : Text → Text → BlueprintRow → Bool
unfolding text_eq
is_row source id row = text_eq row.source source && text_eq row.source_blueprint_id id

unfoldable pub find_row : Text → Text → List BlueprintRow → Option BlueprintRow
unfolding text_eq
find_row source id [] = none
find_row source id (row ∷ rows) =
    let later = find_row source id rows in if is_row source id row then some row else later

-- The first row that is found, changed.
unfoldable pub replace_row : Text → Text → Content → List BlueprintRow → List BlueprintRow
unfolding text_eq
replace_row source id content [] = []
replace_row source id content (row ∷ rows) =
    let rest = replace_row source id content rows in
    if is_row source id row then record row { content = content } ∷ rows else row ∷ rest

unfoldable pub has_blueprint_id : Text → List BlueprintRow → Bool
unfolding text_eq
has_blueprint_id id [] = false
has_blueprint_id id (row ∷ rows) =
    if text_eq row.blueprint_id id then true else has_blueprint_id id rows

abbrev pub public_id : Source → Text → Text
public_id src id = src.source_id ++ slash ∷ id

abbrev pub new_row : Source → Text → Content → BlueprintRow
new_row src id content = record {
  source = src.record_id;
  source_blueprint_id = id;
  blueprint_id = public_id src id;
  owner = src.owner;
  shared_users = [];
  shared_groups = [];
  content = content;
}

abbrev pub RowsStep : Type 0
RowsStep = Option RowsError × List BlueprintRow

-- A round for a row that exists, and for one that does not.
unfoldable pub refresh :
    RowsWorld
    → Source
    → WalkedBlueprint
    → BlueprintManifest
    → BlueprintRow
    → List BlueprintRow
    → RowsStep
unfolding content_of replace_row
refresh w src bp m row rows =
    let content = content_of w bp m row.content.thumbnail in
    if w.can_save (record row { content = content })
    then (none, replace_row src.record_id m.id content rows)
    else (some (save_failed m.id), rows)

unfoldable pub add_row : RowsWorld → BlueprintRow → List BlueprintRow → RowsStep
unfolding has_blueprint_id
add_row w row rows =
    if w.can_find_conflict && has_blueprint_id row.blueprint_id rows
    then (some (id_in_use row.blueprint_id), rows)
    else if w.can_save row
    then (none, rows ++ row ∷ [])
    else (some (save_failed row.source_blueprint_id), rows)

unfoldable pub create_row :
    RowsWorld → Source → WalkedBlueprint → BlueprintManifest → List BlueprintRow → RowsStep
unfolding content_of add_row
create_row w src bp m rows = add_row w (new_row src m.id (content_of w bp m none)) rows

unfoldable pub write_row :
    RowsWorld
    → Source
    → WalkedBlueprint
    → BlueprintManifest
    → Option BlueprintRow
    → List BlueprintRow
    → RowsStep
unfolding refresh create_row
write_row w src bp m (some row) rows = refresh w src bp m row rows
write_row w src bp m none rows = create_row w src bp m rows

-- An error of the query counts as no row.
unfoldable pub upsert_row :
    RowsWorld → Source → WalkedBlueprint → BlueprintManifest → List BlueprintRow → RowsStep
unfolding find_row write_row
upsert_row w src bp m rows =
    write_row w src bp m (if w.can_query m.id then find_row src.record_id m.id rows else none) rows

-- A round of the loop: what has no manifest or is not selected is passed over.
unfoldable pub upsert_blueprint :
    RowsWorld → Source → InstallSelection → WalkedBlueprint → List BlueprintRow → RowsStep
unfolding upsert_row contains_text
upsert_blueprint w src sel bp rows = elim bp.manifest [
  | none ↦ (none, rows)
  | some m ↦ if contains_text sel.blueprints m.id then upsert_row w src bp m rows else (none, rows)
]

-- The loop goes on after a round without an error.
unfoldable pub go_on : RowsStep → RowsStep → RowsStep
go_on (some e, rows) rest = (some e, rows)
go_on (none, rows) rest = rest

unfoldable pub upsert_rows :
    RowsWorld → Source → InstallSelection → List WalkedBlueprint → List BlueprintRow → RowsStep
unfolding upsert_blueprint go_on
upsert_rows w src sel [] rows = (none, rows)
upsert_rows w src sel (bp ∷ bps) rows =
    let step = upsert_blueprint w src sel bp rows in go_on step (upsert_rows w src sel bps step.1)

-- The rows of the source for blueprints that it no longer ships are deleted.
unfoldable pub prune : RowsWorld → Text → List Text → List BlueprintRow → List BlueprintRow
unfolding contains_text text_eq
prune w source walked_ids [] = []
prune w source walked_ids (row ∷ rows) =
    let rest = prune w source walked_ids rows in
    if text_eq row.source source
      && not (contains_text walked_ids row.source_blueprint_id)
      && w.can_delete row
    then rest
    else row ∷ rest

unfoldable pub pruned : RowsWorld → Text → List Text → List BlueprintRow → RowsStep
unfolding prune
pruned w source walked_ids rows =
    (none, if w.can_list then prune w source walked_ids rows else rows)

unfoldable pub upsert_source_blueprints :
    RowsWorld → Source → WalkedSource → InstallSelection → List BlueprintRow → RowsStep
unfolding upsert_rows pruned manifest_ids
upsert_source_blueprints w src walked sel rows =
    if not w.has_collection
    then (some find_collection, rows)
    else (let step = upsert_rows w src sel walked.blueprints rows in
        go_on step (pruned w src.record_id (manifest_ids walked.blueprints) step.1))
