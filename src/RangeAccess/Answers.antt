-- ===== src/RangeAccess/Answers.antt =====
-- utils.go, `HasRangeAccess`: the first call of a request.
use ludus.Prelude.{
  ℕ, String, ◌≡◌, refl, ap, ◌∙◌, Bool, false, ◌||◌, none, some, List, [], ◌∷◌, ◌++◌, contains_nat,
  eqb, arith, if◌then◌else◌,
}
use ludus.RangeAccess.{
  UserRecord, World, keep_requested, keep_requested_groups, look_up_access, has_range_access,
}

pub contains_nat-append :
    (xs ys : List ℕ) (n : ℕ) → contains_nat (xs ++ ys) n ≡ (contains_nat xs n || contains_nat ys n)
unfolding contains_nat
contains_nat-append [] ys n = refl
contains_nat-append (x ∷ xs) ys n = ground (arith, contains_nat-append xs ys n)

contains_nat-keep_requested :
    (found : List ℕ) (n : ℕ) (rs : List ℕ)
    → contains_nat (keep_requested found n rs) n ≡ (contains_nat found n || contains_nat rs n)
unfolding keep_requested contains_nat
contains_nat-keep_requested found n [] = ground arith
contains_nat-keep_requested found n (r ∷ rs) = ground (
  arith,
  contains_nat-keep_requested (if eqb r n then found ++ r ∷ [] else found) n rs,
  contains_nat-append found (r ∷ []) n,
)

-- Some group of the list has the range.
abbrev pub grants : List (List ℕ) → ℕ → Bool
grants [] n = false
grants (g ∷ gs) n = contains_nat g n || grants gs n

contains_nat-keep_requested_groups :
    (found : List ℕ) (n : ℕ) (groups : List (List ℕ))
    → contains_nat (keep_requested_groups found n groups) n
      ≡ (contains_nat found n || grants groups n)
unfolding keep_requested_groups contains_nat
contains_nat-keep_requested_groups found n [] = ground arith
contains_nat-keep_requested_groups found n (g ∷ gs) = ground (
  arith,
  contains_nat-keep_requested_groups (keep_requested found n g) n gs,
  contains_nat-keep_requested found n g,
)

-- With nothing kept in the request, the user's record found and the query for groups answered, the
-- answer is whether the user's own ranges or those of one of the user's groups hold the number.
pub has_range_access-first_call :
    (w : World) (user_id : String) (n : ℕ) (user : UserRecord) (groups : List (List ℕ))
    → w.find_user user_id ≡ some user
    → w.find_groups user.id ≡ some groups
    → (has_range_access w user_id n none).0 ≡ (contains_nat user.ranges n || grants groups n)
unfolding has_range_access look_up_access contains_nat
has_range_access-first_call w user_id n user groups found listed =
    rw (look_up_access, found, listed)
      (contains_nat-keep_requested_groups (keep_requested [] n user.ranges) n groups
        ∙ ap (λ b. b || grants groups n) (contains_nat-keep_requested [] n user.ranges))
