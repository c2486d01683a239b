-- ===== src/Sources/Grants.antt =====
-- ludus-api/source_sync.go, `upsertSourceBlueprints`: who has which blueprint of a source.
use ludus.Prelude.{
  ◌≡◌, refl, sym, ap, ◌∙◌, true, false, not, ◌&&◌, inl, inr, Option, none, some, List, [], ◌∷◌,
  if◌then◌else◌, Bool-cases, Option-cases, arith,
}
use ludus.Prelude.Text.{Text, contains_text, text_eq}
use ludus.Prelude.Splitting.{text_eq_refl}
use ludus.Sources.{BlueprintManifest, WalkedBlueprint, WalkedSource}
use ludus.Sources.Selection.{InstallSelection, manifest_ids}
use ludus.Sources.Rows.{
  Content, BlueprintRow, Source, RowsWorld, find_collection, content_of, find_row, public_id,
  new_row, has_blueprint_id, add_row, refresh, create_row, write_row, RowsStep, go_on, pruned,
  upsert_row, upsert_blueprint, upsert_rows, prune, upsert_source_blueprints,
}
use ludus.Sources.Owned.{
  grants, others, has_grant, add_grant, add_blueprint, add_grants, still_walked, IsReliable,
  grants-replace_row, others-replace_row, grants-append, others-append, is_some, has_grant-find_row,
}

go_on-others :
    (source : Text) (step rest : RowsStep) (rows : List BlueprintRow)
    → others source step.1 ≡ others source rows
    → others source rest.1 ≡ others source rows
    → others source (go_on step rest).1 ≡ others source rows
unfolding go_on
go_on-others source (some e, rows') rest rows h k = h
go_on-others source (none, rows') rest rows h k = k

go_on-none :
    (step rest : RowsStep)
    → (go_on step rest).0 ≡ none
    → (step.0 ≡ none) × (rest.0 ≡ none) × (go_on step rest ≡ rest)
unfolding go_on
go_on-none (some e, rows') rest h = cc
go_on-none (none, rows') rest h = (refl, h, refl)

module _ (w : RowsWorld) (src : Source) where
  refresh-grants :
      (bp : WalkedBlueprint) (m : BlueprintManifest) (row : BlueprintRow) (rows : List BlueprintRow)
      → grants src.record_id (refresh w src bp m row rows).1 ≡ grants src.record_id rows
  unfolding refresh
  refresh-grants bp m row rows =
      let content = content_of w bp m row.content.thumbnail in
      elim (Bool-cases (w.can_save (record row { content = content }))) [
        | inl saved ↦ rw saved (grants-replace_row src.record_id m.id content rows)
        | inr failed ↦ rw failed refl
      ]

  refresh-others :
      (bp : WalkedBlueprint) (m : BlueprintManifest) (row : BlueprintRow) (rows : List BlueprintRow)
      → others src.record_id (refresh w src bp m row rows).1 ≡ others src.record_id rows
  unfolding refresh
  refresh-others bp m row rows =
      let content = content_of w bp m row.content.thumbnail in
      elim (Bool-cases (w.can_save (record row { content = content }))) [
        | inl saved ↦ rw saved (others-replace_row src.record_id m.id content rows)
        | inr failed ↦ rw failed refl
      ]

  add_row-grants :
      (id : Text) (content : Content) (rows : List BlueprintRow)
      → (add_row w (new_row src id content) rows).0 ≡ none
      → has_grant id (grants src.record_id rows) ≡ false
      → grants src.record_id (add_row w (new_row src id content) rows).1
        ≡ add_grant src (grants src.record_id rows) id
  unfolding add_row add_grant
  add_row-grants id content rows h new =
      elim (Bool-cases (w.can_find_conflict && has_blueprint_id (public_id src id) rows)) [
        | inl in_use ↦ grind arith
        | inr free ↦ elim (Bool-cases (w.can_save (new_row src id content))) [
          | inl saved ↦
              rw (free, saved, new)
                (grants-append src.record_id rows (new_row src id content)
                  (text_eq_refl src.record_id))
          | inr failed ↦ grind arith
        ]
      ]

  add_row-others :
      (id : Text) (content : Content) (rows : List BlueprintRow)
      → others src.record_id (add_row w (new_row src id content) rows).1 ≡ others src.record_id rows
  unfolding add_row
  add_row-others id content rows =
      elim (Bool-cases (w.can_find_conflict && has_blueprint_id (public_id src id) rows)) [
        | inl in_use ↦ rw in_use refl
        | inr free ↦ elim (Bool-cases (w.can_save (new_row src id content))) [
          | inl saved ↦
              rw (free, saved)
                (others-append src.record_id rows (new_row src id content)
                  (text_eq_refl src.record_id))
          | inr failed ↦ rw (free, failed) refl
        ]
      ]

  write_row-others :
      (bp : WalkedBlueprint) (m : BlueprintManifest) (found : Option BlueprintRow)
      (rows : List BlueprintRow)
      → others src.record_id (write_row w src bp m found rows).1 ≡ others src.record_id rows
  unfolding write_row create_row
  write_row-others bp m (some row) rows = refresh-others bp m row rows
  write_row-others bp m none rows = add_row-others m.id (content_of w bp m none) rows

  write_row-grants :
      (bp : WalkedBlueprint) (m : BlueprintManifest) (found : Option BlueprintRow)
      (rows : List BlueprintRow)
      → (write_row w src bp m found rows).0 ≡ none
      → has_grant m.id (grants src.record_id rows) ≡ is_some found
      → grants src.record_id (write_row w src bp m found rows).1
        ≡ add_grant src (grants src.record_id rows) m.id
  unfolding write_row create_row add_grant
  write_row-grants bp m (some row) rows h e = rw e (refresh-grants bp m row rows)
  write_row-grants bp m none rows h e = add_row-grants m.id (content_of w bp m none) rows h e

  upsert_row-grants :
      (bp : WalkedBlueprint) (m : BlueprintManifest) (rows : List BlueprintRow)
      → w.can_query m.id ≡ true
      → (upsert_row w src bp m rows).0 ≡ none
      → grants src.record_id (upsert_row w src bp m rows).1
        ≡ add_grant src (grants src.record_id rows) m.id
  unfolding upsert_row
  upsert_row-grants bp m rows query h =
      write_row-grants bp m (if w.can_query m.id then find_row src.record_id m.id rows else none)
        rows h (rw query (has_grant-find_row src.record_id m.id rows))

  module _ (sel : InstallSelection) where
    upsert_blueprint-others :
        (bp : WalkedBlueprint) (rows : List BlueprintRow)
        → others src.record_id (upsert_blueprint w src sel bp rows).1 ≡ others src.record_id rows
    unfolding upsert_blueprint upsert_row
    upsert_blueprint-others bp rows = elim (Option-cases bp.manifest) [
      | inl absent ↦ rw absent refl
      | inr (m, present) ↦
          (let found = if w.can_query m.id then find_row src.record_id m.id rows else none in
            let written = write_row-others bp m found rows in
            elim (Bool-cases (contains_text sel.blueprints m.id)) [
              | inl selected ↦ rw (present, selected) written
              | inr other ↦ rw (present, other) refl
            ])
    ]

    upsert_blueprint-grants :
        (bp : WalkedBlueprint) (rows : List BlueprintRow)
        → IsReliable w
        → (upsert_blueprint w src sel bp rows).0 ≡ none
        → grants src.record_id (upsert_blueprint w src sel bp rows).1
          ≡ add_blueprint src sel bp (grants src.record_id rows)
    unfolding upsert_blueprint add_blueprint
    upsert_blueprint-grants bp rows reliable h = elim (Option-cases bp.manifest) [
      | inl absent ↦ rw absent refl
      | inr (m, present) ↦ elim (Bool-cases (contains_text sel.blueprints m.id)) [
        | inl selected ↦
            (let row = upsert_row w src bp m rows in
              let same : upsert_blueprint w src sel bp rows ≡ row = rw (present, selected) refl in
              let fine : row.0 ≡ none = ap (λ (s : RowsStep). s.0) (sym same) ∙ h in
              ap (λ (s : RowsStep). grants src.record_id s.1) same
              ∙ upsert_row-grants bp m rows (reliable.queries m.id) fine
              ∙ rw (present, selected) refl)
        | inr other ↦ rw (present, other) refl
      ]
    ]

    upsert_rows-others :
        (bps : List WalkedBlueprint) (rows : List BlueprintRow)
        → others src.record_id (upsert_rows w src sel bps rows).1 ≡ others src.record_id rows
    unfolding upsert_rows
    upsert_rows-others [] rows = refl
    upsert_rows-others (bp ∷ bps) rows =
        let step = upsert_blueprint w src sel bp rows in
        let first = upsert_blueprint-others bp rows in
        go_on-others src.record_id step (upsert_rows w src sel bps step.1) rows first
          (upsert_rows-others bps step.1 ∙ first)

    upsert_rows-grants :
        (bps : List WalkedBlueprint) (rows : List BlueprintRow)
        → IsReliable w
        → (upsert_rows w src sel bps rows).0 ≡ none
        → grants src.record_id (upsert_rows w src sel bps rows).1
          ≡ add_grants src sel bps (grants src.record_id rows)
    unfolding upsert_rows add_grants
    upsert_rows-grants [] rows reliable h = refl
    upsert_rows-grants (bp ∷ bps) rows reliable h =
        let step = upsert_blueprint w src sel bp rows in
        let rest = upsert_rows w src sel bps step.1 in
        let (fine, fine_rest, same) = go_on-none step rest h in
        ap (λ (s : RowsStep). grants src.record_id s.1) same
        ∙ upsert_rows-grants bps step.1 reliable fine_rest
        ∙ ap (add_grants src sel bps) (upsert_blueprint-grants bp rows reliable fine)

still_walked-prune :
    (w : RowsWorld) (source : Text) (ids : List Text) (rows : List BlueprintRow)
    → IsReliable w
    → grants source (prune w source ids rows) ≡ still_walked ids (grants source rows)
unfolding grants prune still_walked
still_walked-prune w source ids [] reliable = refl
still_walked-prune w source ids (row ∷ rows) reliable =
    let ih = still_walked-prune w source ids rows reliable in
    let deleted = reliable.deletes row in
    elim (Bool-cases (text_eq row.source source)) [
      | inl ours ↦ elim (Bool-cases (contains_text ids row.source_blueprint_id)) [
        | inl walked ↦ rw (ours, walked, ours, ih) refl
        | inr gone ↦ rw (ours, gone, deleted) ih
      ]
      | inr other ↦ rw (other, other, ih) refl
    ]

others-prune :
    (w : RowsWorld) (source : Text) (ids : List Text) (rows : List BlueprintRow)
    → others source (prune w source ids rows) ≡ others source rows
unfolding others prune
others-prune w source ids [] = refl
others-prune w source ids (row ∷ rows) =
    let ih = others-prune w source ids rows in
    elim (Bool-cases (text_eq row.source source)) [
      | inl ours ↦
          elim (Bool-cases (not (contains_text ids row.source_blueprint_id) && w.can_delete row)) [
            | inl deleted ↦ rw (ours, deleted) ih
            | inr kept ↦ rw (ours, kept, ours) ih
          ]
      | inr other ↦ rw (other, other, ih) refl
    ]

-- Seen without their content, the rows of a source after an install without an error are those before
-- it, with a new one, the source owner's and shared with nobody, for each selected blueprint that had
-- none, and without those of blueprints that the source no longer has; PocketBase answers its queries
-- and deletes what it is asked to.
pub upsert_source_blueprints-grants :
    (w : RowsWorld) (src : Source) (walked : WalkedSource) (sel : InstallSelection)
    (rows : List BlueprintRow)
    → IsReliable w
    → (upsert_source_blueprints w src walked sel rows).0 ≡ none
    → grants src.record_id (upsert_source_blueprints w src walked sel rows).1
      ≡ still_walked
          (manifest_ids walked.blueprints)
          (add_grants src sel walked.blueprints (grants src.record_id rows))
unfolding upsert_source_blueprints pruned
upsert_source_blueprints-grants w src walked sel rows reliable h =
    let ids = manifest_ids walked.blueprints in
    let step = upsert_rows w src sel walked.blueprints rows in
    let last = pruned w src.record_id ids step.1 in
    elim (Bool-cases w.has_collection) [
      | inl has ↦
          (let all : upsert_source_blueprints w src walked sel rows ≡ go_on step last =
              rw has refl in
            let (fine, done, same) =
              go_on-none step last (ap (λ (s : RowsStep). s.0) (sym all) ∙ h) in
            ap (λ (s : RowsStep). grants src.record_id s.1) (all ∙ same)
            ∙ rw reliable.lists (still_walked-prune w src.record_id ids step.1 reliable)
            ∙ ap (still_walked ids)
                (upsert_rows-grants w src sel walked.blueprints rows reliable fine))
      | inr missing ↦
          (let error : upsert_source_blueprints w src walked sel rows
                ≡ (some find_collection, rows) =
              rw missing refl in
            let failed : some find_collection ≡ none = sym (ap (λ (s : RowsStep). s.0) error) ∙ h in
            cc)
    ]

-- Whatever fails, the rows of other sources and of local blueprints stay as they are.
pub upsert_source_blueprints-others :
    (w : RowsWorld) (src : Source) (walked : WalkedSource) (sel : InstallSelection)
    (rows : List BlueprintRow)
    → others src.record_id (upsert_source_blueprints w src walked sel rows).1
      ≡ others src.record_id rows
unfolding upsert_source_blueprints pruned
upsert_source_blueprints-others w src walked sel rows =
    let ids = manifest_ids walked.blueprints in
    let step = upsert_rows w src sel walked.blueprints rows in
    let first = upsert_rows-others w src sel walked.blueprints rows in
    let last : others src.record_id (pruned w src.record_id ids step.1).1
        ≡ others src.record_id rows =
      elim (Bool-cases w.can_list) [
        | inl listed ↦ rw listed (others-prune w src.record_id ids step.1 ∙ first)
        | inr failed ↦ rw failed first
      ] in
    let all = go_on-others src.record_id step (pruned w src.record_id ids step.1) rows first last in
    elim (Bool-cases w.has_collection) [ inl has ↦ rw has all | inr missing ↦ rw missing refl ]
