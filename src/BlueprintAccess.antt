-- ===== src/BlueprintAccess.antt =====
-- ludus-api/blueprint_access.go: who may read and share a blueprint, the label of the access, the names
-- that a reader sees, and the lists of identifiers of a bulk request. `World` is PocketBase.
use ludus.Prelude.{
  ℕ, String, Bool, true, false, not, Option, none, some, List, [], ◌∷◌, ◌++◌, contains, ◌==◌, eqb,
  if◌then◌else◌,
}
use ludus.Prelude.Result.{Result, ok, err}
use ludus.Prelude.Text.{contains_text, Text, trim_space, is_empty, text_eq, split}
pub mod Access
pub mod Identifiers
mod Tests

pub record User : Type 0 where
  pub id : String
  pub is_admin : Bool

pub record Group : Type 0 where
  pub name : String
  pub members : List String
  pub managers : List String

pub record Blueprint : Type 0 where
  pub owner : String
  pub shared_users : List String
  pub shared_groups : List String

-- A group record, the `userID` of a user record, and the groups that a user manages; `none` is an
-- error, also that of a missing record.
pub record World : Type 0 where
  pub find_group : String → Option Group
  pub find_user_id : String → Option String
  pub find_managed_groups : String → Option (List Group)

unfoldable pub has_user : Group → String → Bool
has_user group id = if contains group.members id then true else contains group.managers id

-- The loop over `sharedGroups`; a group that is not found is passed over.
unfoldable pub in_shared_group : World → String → List String → Bool
unfolding has_user
in_shared_group w id [] = false
in_shared_group w id (group_id ∷ group_ids) =
    let rest = in_shared_group w id group_ids in
    elim (w.find_group group_id) [
      | none ↦ rest
      | some group ↦ if has_user group id then true else rest
    ]

unfoldable pub user_can_access_blueprint : World → User → Blueprint → Bool
unfolding in_shared_group
user_can_access_blueprint w user b =
    if user.is_admin
    then true
    else if b.owner == user.id
    then true
    else if contains b.shared_users user.id
    then true
    else in_shared_group w user.id b.shared_groups

unfoldable pub in_some_group : String → List Group → Bool
unfolding has_user
in_some_group id [] = false
in_some_group id (group ∷ groups) =
    let rest = in_some_group id groups in if has_user group id then true else rest

pub data AccessError : Type 0 where
  query_failed : AccessError

unfoldable pub user_can_share_blueprint_with_user : World → User → String → Result AccessError Bool
unfolding in_some_group
user_can_share_blueprint_with_user w acting_user target_id =
    if acting_user.is_admin then ok true else elim (w.find_managed_groups acting_user.id) [
      | none ↦ err query_failed
      | some groups ↦ ok (in_some_group target_id groups)
    ]

-- "admin", "owner", "direct", "group" and "unknown".
pub data AccessType : Type 0 where
  admin owner direct group unknown : AccessType

unfoldable pub get_blueprint_access_type : World → User → Blueprint → AccessType
unfolding in_shared_group
get_blueprint_access_type w user b =
    if user.is_admin
    then admin
    else if b.owner == user.id
    then owner
    else if contains b.shared_users user.id
    then direct
    else if in_shared_group w user.id b.shared_groups
    then group
    else unknown

-- A name that is found and not empty, or the id.
unfoldable pub resolved : String → Option String → String
resolved id none = id
resolved id (some name) = if name == "" then id else name

unfoldable pub resolve_user_ids : World → List String → List String
unfolding resolved
resolve_user_ids w [] = []
resolve_user_ids w (id ∷ ids) = resolved id (w.find_user_id id) ∷ resolve_user_ids w ids

unfoldable pub group_name : Option Group → Option String
group_name none = none
group_name (some g) = some g.name

unfoldable pub resolve_group_names : World → List String → List String
unfolding resolved group_name
resolve_group_names w [] = []
resolve_group_names w (id ∷ ids) =
    resolved id (group_name (w.find_group id)) ∷ resolve_group_names w ids

unfoldable pub resolve_owner_user_id : World → String → String
unfolding resolved
resolve_owner_user_id w id = resolved id (w.find_user_id id)

-- The inner loop. `seen` has the values of `normalized`, so one list stands for both.
unfoldable pub add_parts : List Text → List Text → List Text
unfolding contains_text
add_parts normalized [] = normalized
add_parts normalized (part ∷ parts) =
    let value = trim_space part in
    add_parts
      (if is_empty value
        then normalized
        else if contains_text normalized value
        then normalized
        else normalized ++ value ∷ [])
      parts

unfoldable pub add_items : List Text → List Text → List Text
unfolding add_parts split
add_items normalized [] = normalized
add_items normalized (item ∷ items) = add_items (add_parts normalized (split b',' [] item)) items

unfoldable pub normalize_bulk_identifiers : List Text → List Text
unfolding add_items
normalize_bulk_identifiers items = add_items [] items
