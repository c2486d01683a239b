-- ===== src/Sources/Owned.antt =====
-- ludus-api/source_sync.go, `upsertSourceBlueprints`: the rows of a source seen without their content,
-- and what an install should do to them.
use ludus.Prelude.{
  ◌≡◌, refl, Bool, true, false, inl, inr, Option, none, some, List, [], ◌∷◌, ◌++◌, if◌then◌else◌,
  Bool-cases, arith,
}
use ludus.Prelude.Text.{Text, contains_text, text_eq}
use ludus.Sources.{WalkedBlueprint}
use ludus.Sources.Selection.{InstallSelection}
use ludus.Sources.Rows.{
  Content, BlueprintRow, Source, RowsWorld, is_row, find_row, replace_row, public_id,
}

-- A blueprint of the source without its content.
pub record Grant : Type 0 where
  pub id : Text
  pub blueprint_id : Text
  pub owner : Text
  pub shared_users : List Text
  pub shared_groups : List Text

abbrev grant_of : BlueprintRow → Grant
grant_of row = record {
  id = row.source_blueprint_id;
  blueprint_id = row.blueprint_id;
  owner = row.owner;
  shared_users = row.shared_users;
  shared_groups = row.shared_groups;
}

-- The view of the rows, and the rows that it leaves out.
unfoldable pub grants : Text → List BlueprintRow → List Grant
unfolding text_eq
grants source [] = []
grants source (row ∷ rows) =
    let rest = grants source rows in if text_eq row.source source then grant_of row ∷ rest else rest

unfoldable pub others : Text → List BlueprintRow → List BlueprintRow
unfolding text_eq
others source [] = []
others source (row ∷ rows) =
    let rest = others source rows in if text_eq row.source source then rest else row ∷ rest

unfoldable pub has_grant : Text → List Grant → Bool
unfolding text_eq
has_grant id [] = false
has_grant id (g ∷ gs) = if text_eq g.id id then true else has_grant id gs

-- What the install should do: a new blueprint is the owner's of the source and shared with nobody, ...
unfoldable pub add_grant : Source → List Grant → Text → List Grant
unfolding has_grant
add_grant src gs id =
    if has_grant id gs
    then gs
    else gs
      ++ record {
        id = id;
        blueprint_id = public_id src id;
        owner = src.owner;
        shared_users = [];
        shared_groups = [];
      }
        ∷ []

-- ... for each blueprint that is selected, ...
unfoldable pub add_blueprint : Source → InstallSelection → WalkedBlueprint → List Grant → List Grant
unfolding add_grant contains_text
add_blueprint src sel bp gs = elim bp.manifest [
  | none ↦ gs
  | some m ↦ if contains_text sel.blueprints m.id then add_grant src gs m.id else gs
]

unfoldable pub add_grants :
    Source → InstallSelection → List WalkedBlueprint → List Grant → List Grant
unfolding add_blueprint
add_grants src sel [] gs = gs
add_grants src sel (bp ∷ bps) gs = add_grants src sel bps (add_blueprint src sel bp gs)

-- ... and what the source no longer has goes.
unfoldable pub still_walked : List Text → List Grant → List Grant
unfolding contains_text
still_walked ids [] = []
still_walked ids (g ∷ gs) =
    let rest = still_walked ids gs in if contains_text ids g.id then g ∷ rest else rest

-- PocketBase answers the queries, and deletes.
pub record IsReliable (w : RowsWorld) : Type 0 where
  pub queries : (id : Text) → w.can_query id ≡ true
  pub lists : w.can_list ≡ true
  pub deletes : (row : BlueprintRow) → w.can_delete row ≡ true

pub grants-replace_row :
    (source id : Text) (content : Content) (rows : List BlueprintRow)
    → grants source (replace_row source id content rows) ≡ grants source rows
unfolding grants replace_row
grants-replace_row source id content [] = refl
grants-replace_row source id content (row ∷ rows) =
    let ih = grants-replace_row source id content rows in
    elim (Bool-cases (is_row source id row)) [
      | inl here ↦ rw here refl
      | inr other ↦ rw (other, ih) refl
    ]

pub others-replace_row :
    (source id : Text) (content : Content) (rows : List BlueprintRow)
    → others source (replace_row source id content rows) ≡ others source rows
unfolding others replace_row
others-replace_row source id content [] = refl
others-replace_row source id content (row ∷ rows) =
    let ih = others-replace_row source id content rows in
    elim (Bool-cases (is_row source id row)) [
      | inl here ↦
          (let ours : text_eq row.source source ≡ true = ground arith in rw (here, ours) refl)
      | inr other ↦ rw (other, ih) refl
    ]

pub grants-append :
    (source : Text) (rows : List BlueprintRow) (row : BlueprintRow)
    → text_eq row.source source ≡ true
    → grants source (rows ++ row ∷ []) ≡ grants source rows ++ grant_of row ∷ []
unfolding grants
grants-append source [] row h = rw h refl
grants-append source (r ∷ rows) row h =
    let ih = grants-append source rows row h in
    elim (Bool-cases (text_eq r.source source)) [
      | inl ours ↦ rw (ours, ih) refl
      | inr other ↦ rw (other, ih) refl
    ]

pub others-append :
    (source : Text) (rows : List BlueprintRow) (row : BlueprintRow)
    → text_eq row.source source ≡ true
    → others source (rows ++ row ∷ []) ≡ others source rows
unfolding others
others-append source [] row h = rw h refl
others-append source (r ∷ rows) row h = rw (others-append source rows row h) refl

abbrev pub is_some : Option BlueprintRow → Bool
is_some none = false
is_some (some row) = true

pub has_grant-find_row :
    (source id : Text) (rows : List BlueprintRow)
    → has_grant id (grants source rows) ≡ is_some (find_row source id rows)
unfolding has_grant grants find_row
has_grant-find_row source id [] = refl
has_grant-find_row source id (row ∷ rows) =
    let ih = has_grant-find_row source id rows in
    elim (Bool-cases (text_eq row.source source)) [
      | inl ours ↦ elim (Bool-cases (text_eq row.source_blueprint_id id)) [
        | inl same ↦ rw (ours, same) refl
        | inr other ↦ rw (ours, other) ih
      ]
      | inr other ↦ rw other ih
    ]
