-- ===== src/BlueprintAccess/Tests.antt =====
-- A blueprint shared with a group, and a bulk request.
use ludus.Prelude.{
  ◌≡◌, ◌↔◌, ◌⊎◌, refl, Bool, true, false, none, some, List, [], ◌∷◌, contains, ◌==◌, if◌then◌else◌,
}
use ludus.Prelude.Result.{ok}
use ludus.Prelude.Text.{Text, codes}
use ludus.BlueprintAccess.{
  User, Group, Blueprint, World, user_can_access_blueprint, user_can_share_blueprint_with_user,
  unknown, group, get_blueprint_access_type, normalize_bulk_identifiers,
}
use ludus.BlueprintAccess.Access.{
  AnyShared, AnyGroup, user_can_access_blueprint-iff_granted, get_blueprint_access_type-agrees,
  user_can_share_blueprint_with_user-iff_managed,
}
use ludus.BlueprintAccess.Identifiers.{occurrences, named_in, normalize_bulk_identifiers-once}

abbrev red_team : Group
red_team = record { name = "red"; members = "u1" ∷ []; managers = "u2" ∷ [] }

abbrev world : World
world = record {
  find_group = λ id. if id == "g1" then some red_team else none;
  find_user_id = λ id. if id == "u1" then some "alice" else none;
  find_managed_groups = λ id. some (if id == "u2" then red_team ∷ [] else []);
}

abbrev member : User
member = record { id = "u1"; is_admin = false }

abbrev manager : User
manager = record { id = "u2"; is_admin = false }

abbrev shared : Blueprint
shared = record { owner = "u9"; shared_users = []; shared_groups = "gone" ∷ "g1" ∷ [] }

user_can_access_blueprint-iff_granted_example :
    (user_can_access_blueprint world member shared ≡ true) ↔ (
      (member.is_admin ≡ true)
      ⊎ ((shared.owner ≡ member.id)
          ⊎ ((contains shared.shared_users member.id ≡ true)
              ⊎ AnyShared world member.id shared.shared_groups)))
user_can_access_blueprint-iff_granted_example =
    user_can_access_blueprint-iff_granted world member shared

get_blueprint_access_type-agrees_example :
    ((get_blueprint_access_type world member shared ≡ unknown)
      ↔ (user_can_access_blueprint world member shared ≡ false))
    × ((get_blueprint_access_type world member shared ≡ group) ↔ (
        (user_can_access_blueprint world member shared ≡ true)
        × ((false ≡ false) × (("u9" == "u1") ≡ false) × (contains [] "u1" ≡ false))))
get_blueprint_access_type-agrees_example = get_blueprint_access_type-agrees world member shared

user_can_share_blueprint_with_user-iff_managed_example :
    (allowed : Bool) × (user_can_share_blueprint_with_user world manager "u1" ≡ ok allowed)
    × ((allowed ≡ true) ↔ AnyGroup "u1" (red_team ∷ []))
user_can_share_blueprint_with_user-iff_managed_example =
    user_can_share_blueprint_with_user-iff_managed world manager "u1" (red_team ∷ []) refl refl

abbrev requested : List Text
requested = codes "a, b,,a" ∷ codes "b " ∷ []

normalize_bulk_identifiers-once_example :
    occurrences (codes "b") (normalize_bulk_identifiers requested)
    ≡ (if named_in requested (codes "b") then 1 else 0)
normalize_bulk_identifiers-once_example = normalize_bulk_identifiers-once requested (codes "b")
