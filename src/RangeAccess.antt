-- ===== src/RangeAccess.antt =====
-- ludus-api/utils.go, `HasRangeAccess`: whether a user reaches a range, directly or by a group. The
-- answer of the first call of a request is kept in the request (`rangesUserHasAccessTo`), which is the
-- state here. `World` is what the function asks of PocketBase.
pub mod Answers
pub mod Caching
mod Tests
use ludus.Prelude.{
  ℕ, String, Bool, true, false, Option, none, some, List, [], ◌∷◌, ◌++◌, contains_nat, eqb,
  if◌then◌else◌,
}

-- A user record: its id, and the numbers of the ranges that it links to.
pub record UserRecord : Type 0 where
  pub id : String
  pub ranges : List ℕ

-- The user record of a userID, and for a record id the ranges of each group that has it among its
-- members or managers; `none` is an error of the query.
pub record World : Type 0 where
  pub find_user : String → Option UserRecord
  pub find_groups : String → Option (List (List ℕ))

-- What the request holds under `rangesUserHasAccessTo`.
abbrev pub Cache : Type 0
Cache = Option (List ℕ)

-- The loop over the records of ranges: only the requested number is kept.
unfoldable pub keep_requested : List ℕ → ℕ → List ℕ → List ℕ
keep_requested found range_number [] = found
keep_requested found range_number (r ∷ rs) =
    keep_requested (if eqb r range_number then found ++ r ∷ [] else found) range_number rs

unfoldable pub keep_requested_groups : List ℕ → ℕ → List (List ℕ) → List ℕ
unfolding keep_requested
keep_requested_groups found range_number [] = found
keep_requested_groups found range_number (group ∷ groups) =
    keep_requested_groups (keep_requested found range_number group) range_number groups

-- The part after the cache has been found empty.
unfoldable pub look_up_access : World → String → ℕ → Bool × Cache
look_up_access w user_id range_number = elim (w.find_user user_id) [
  | none ↦ (false, none)
  | some user ↦ elim (w.find_groups user.id) [
    | none ↦ (false, none)
    | some groups ↦
        let found =
          keep_requested_groups (keep_requested [] range_number user.ranges) range_number groups in
        (contains_nat found range_number, some found)
  ]
]

unfoldable pub has_range_access : World → String → ℕ → Cache → Bool × Cache
unfolding look_up_access
has_range_access w user_id range_number (some cached) =
    if contains_nat cached range_number then (true, some cached) else (false, some cached)
has_range_access w user_id range_number none = look_up_access w user_id range_number
