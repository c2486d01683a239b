-- ===== src/BlueprintAccess/Access.antt =====
-- blueprint_access.go: the right to read a blueprint, its label, and the right to share it.
use ludus.Prelude.{
  ◌≡◌, ◌↔◌, ◌⊎◌, refl, String, Bool, true, false, Option, none, some, List, [], ◌∷◌, contains, ◌==◌,
  if◌then◌else◌, eq_iff, arith, inl, inr, Bool-cases,
}
use ludus.Prelude.Result.{ok}
use ludus.BlueprintAccess.{
  User, Group, Blueprint, World, has_user, in_shared_group, user_can_access_blueprint,
  in_some_group, user_can_share_blueprint_with_user, group, unknown, get_blueprint_access_type,
}

-- A user who is a member or a manager of the group.
pub InGroup : Group → String → Type 0
InGroup g id = (contains g.members id ≡ true) ⊎ (contains g.managers id ≡ true)

pub data AnyShared (w : World) (id : String) : List String → Type 0 where
  here :
      {group_id : String} {group_ids : List String} (g : Group)
      → w.find_group group_id ≡ some g
      → InGroup g id
      → AnyShared w id (group_id ∷ group_ids)
  there :
      {group_id : String} {group_ids : List String}
      → AnyShared w id group_ids
      → AnyShared w id (group_id ∷ group_ids)

has_user_iff : (g : Group) (id : String) → (has_user g id ≡ true) ↔ InGroup g id
unfolding has_user InGroup
has_user_iff g id = ground arith

in_shared_group-found :
    (w : World) (id : String) (ids : List String)
    → in_shared_group w id ids ≡ true
    → AnyShared w id ids
unfolding in_shared_group
in_shared_group-found w id [] h = cc
in_shared_group-found w id (group_id ∷ ids) h =
    by_group (w.find_group group_id) (in_shared_group-found w id ids) refl h
  where
    by_group :
        (o : Option Group)
        → (in_shared_group w id ids ≡ true → AnyShared w id ids)
        → w.find_group group_id ≡ o
        → elim o [
          | none ↦ in_shared_group w id ids
          | some g ↦ if has_user g id then true else in_shared_group w id ids
        ]
          ≡ true
        → AnyShared w id (group_id ∷ ids)
    by_group none later e k = there (later k)
    by_group (some g) later e k = elim (Bool-cases (has_user g id)) [
      | inl has ↦ here g e ((has_user_iff g id).0 has)
      | inr lacks ↦ there (later (ground arith))
    ]

AnyShared-in_shared_group :
    (w : World) (id : String) (ids : List String)
    → AnyShared w id ids
    → in_shared_group w id ids ≡ true
unfolding in_shared_group
AnyShared-in_shared_group w id [] none_shared = elim none_shared [ ]
AnyShared-in_shared_group w id (group_id ∷ ids) (here g e h) =
    rw (in_shared_group, e, (has_user_iff g id).1 h) refl
AnyShared-in_shared_group w id (group_id ∷ ids) (there t) =
    let rest = AnyShared-in_shared_group w id ids t in by_group (w.find_group group_id) rest
  where
    by_group :
        (o : Option Group)
        → in_shared_group w id ids ≡ true
        → elim o [
          | none ↦ in_shared_group w id ids
          | some g ↦ if has_user g id then true else in_shared_group w id ids
        ]
          ≡ true
    by_group none k = k
    by_group (some g) k = ground arith

-- A user may read a blueprint exactly if the user is an admin, owns it, has it shared with, or is a
-- member or a manager of a group that is found and has it shared with.
pub user_can_access_blueprint-iff_granted :
    (w : World) (user : User) (b : Blueprint)
    → (user_can_access_blueprint w user b ≡ true) ↔ (
        (user.is_admin ≡ true)
        ⊎ ((b.owner ≡ user.id)
            ⊎ ((contains b.shared_users user.id ≡ true) ⊎ AnyShared w user.id b.shared_groups)))
unfolding user_can_access_blueprint
user_can_access_blueprint-iff_granted w user b = (
  λ h. elim (Bool-cases user.is_admin) [
    | inl is ↦ inl is
    | inr is_not ↦ elim (Bool-cases (b.owner == user.id)) [
      | inl owns ↦ inr (inl ((eq_iff b.owner user.id).0 owns))
      | inr owns_not ↦ elim (Bool-cases (contains b.shared_users user.id)) [
        | inl shared ↦ inr (inr (inl shared))
        | inr shared_not ↦
            inr (inr (inr (in_shared_group-found w user.id b.shared_groups (ground arith))))
      ]
    ]
  ],
  λ granted. elim granted [
    | inl is ↦ ground arith
    | inr (inl owns) ↦ (let e = (eq_iff b.owner user.id).1 owns in ground arith)
    | inr (inr (inl shared)) ↦ ground arith
    | inr (inr (inr any)) ↦
        (let e = AnyShared-in_shared_group w user.id b.shared_groups any in ground arith)
  ],
)

-- The label of an access is "unknown" exactly for the users who may not read the blueprint, and "group"
-- only for those who may read it and are neither admin nor owner nor have it shared with directly.
pub get_blueprint_access_type-agrees :
    (w : World) (user : User) (b : Blueprint)
    → ((get_blueprint_access_type w user b ≡ unknown)
        ↔ (user_can_access_blueprint w user b ≡ false))
      × ((get_blueprint_access_type w user b ≡ group) ↔ (
          (user_can_access_blueprint w user b ≡ true)
          × ((user.is_admin ≡ false)
              × ((b.owner == user.id) ≡ false)
              × (contains b.shared_users user.id ≡ false))))
unfolding user_can_access_blueprint get_blueprint_access_type
get_blueprint_access_type-agrees w user b = (ground arith, ground arith)

pub data AnyGroup (id : String) : List Group → Type 0 where
  first : {g : Group} {gs : List Group} → InGroup g id → AnyGroup id (g ∷ gs)
  later : {g : Group} {gs : List Group} → AnyGroup id gs → AnyGroup id (g ∷ gs)

in_some_group_iff : (id : String) (gs : List Group) → (in_some_group id gs ≡ true) ↔ AnyGroup id gs
unfolding in_some_group
in_some_group_iff id [] = (λ h. cc, λ none_there. elim none_there [ ])
in_some_group_iff id (g ∷ gs) =
    let ih = in_some_group_iff id gs in
    (
      λ h. elim (Bool-cases (has_user g id)) [
        | inl has ↦ first ((has_user_iff g id).0 has)
        | inr lacks ↦ later (ih.0 (ground arith))
      ],
      λ any. elim any [
        | first h ↦ (let has = (has_user_iff g id).1 h in ground arith)
        | later t ↦ (let rest = ih.1 t in ground arith)
      ],
    )

-- A user who is no admin, and whose managed groups the database gives, may share a blueprint with
-- another user exactly if one of those groups has that user as a member or a manager.
pub user_can_share_blueprint_with_user-iff_managed :
    (w : World) (acting_user : User) (target_id : String) (groups : List Group)
    → acting_user.is_admin ≡ false
    → w.find_managed_groups acting_user.id ≡ some groups
    → (allowed : Bool) × (user_can_share_blueprint_with_user w acting_user target_id ≡ ok allowed)
      × ((allowed ≡ true) ↔ AnyGroup target_id groups)
unfolding user_can_share_blueprint_with_user
user_can_share_blueprint_with_user-iff_managed w acting_user target_id groups no_admin managed = (
  in_some_group target_id groups,
  rw (no_admin, managed) refl,
  in_some_group_iff target_id groups,
)
