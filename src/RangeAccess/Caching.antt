-- ===== src/RangeAccess/Caching.antt =====
-- utils.go, `HasRangeAccess`: the calls of a request after the first one.
use ludus.Prelude.{
  ℕ, String, ◌≡◌, ◌≢◌, refl, false, none, some, List, [], ◌∷◌, ◌++◌, contains_nat, eqb, arith,
  if◌then◌else◌,
}
use ludus.RangeAccess.{
  UserRecord, World, Cache, keep_requested, keep_requested_groups, look_up_access, has_range_access,
}
use ludus.RangeAccess.Answers.{contains_nat-append}

-- The kept list holds no other number than the requested one.
pub keep_requested_only :
    (found : List ℕ) (n m : ℕ) (rs : List ℕ)
    → n ≢ m
    → contains_nat (keep_requested found n rs) m ≡ contains_nat found m
unfolding keep_requested contains_nat
keep_requested_only found n m [] h = refl
keep_requested_only found n m (r ∷ rs) h = ground (
  arith,
  keep_requested_only (if eqb r n then found ++ r ∷ [] else found) n m rs,
  contains_nat-append found (r ∷ []) m,
)

pub keep_requested_groups_only :
    (found : List ℕ) (n m : ℕ) (groups : List (List ℕ))
    → n ≢ m
    → contains_nat (keep_requested_groups found n groups) m ≡ contains_nat found m
unfolding keep_requested_groups
keep_requested_groups_only found n m [] h = refl
keep_requested_groups_only found n m (g ∷ gs) h = ground (
  arith,
  keep_requested_groups_only (keep_requested found n g) n m gs,
  keep_requested_only found n m g,
)

-- A call that finds an answer in the request reads it, and asks nothing.
pub has_range_access-of_kept :
    (w : World) (user_id : String) (m : ℕ) (kept : Cache) (l : List ℕ)
    → kept ≡ some l
    → ((has_range_access w user_id m kept).0 ≡ contains_nat l m)
      × ((has_range_access w user_id m kept).1 ≡ kept)
unfolding has_range_access
has_range_access-of_kept w user_id m kept l e = ground arith

module _ (w : World) (user_id : String) (n : ℕ) (user : UserRecord) (groups : List (List ℕ))
    (found : w.find_user user_id ≡ some user) (listed : w.find_groups user.id ≡ some groups) where
  -- After a first call of a request in which no query failed, every call of the same request for
  -- the same range gives the same answer again, for whichever user it asks.
  pub has_range_access-keeps_answer :
      (other_id : String)
      → has_range_access w other_id n (has_range_access w user_id n none).1
        ≡ has_range_access w user_id n none
  unfolding has_range_access look_up_access
  has_range_access-keeps_answer other_id = rw (look_up_access, found, listed) (ground arith)

  -- After a first call of a request in which no query failed, every call of the same request for
  -- another range is refused, for whichever user it asks.
  pub has_range_access-refuses_others :
      (other_id : String) (m : ℕ)
      → n ≢ m
      → (has_range_access w other_id m (has_range_access w user_id n none).1).0 ≡ false
  unfolding has_range_access look_up_access contains_nat
  has_range_access-refuses_others other_id m h =
      rw (look_up_access, found, listed)
        (ground (
          arith,
          keep_requested_groups_only (keep_requested [] n user.ranges) n m groups,
          keep_requested_only [] n m user.ranges,
        ))
