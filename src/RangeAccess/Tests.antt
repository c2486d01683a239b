-- ===== src/RangeAccess/Tests.antt =====
-- One request that asks for two ranges, and for two users.
use ludus.Prelude.{
  ◌≡◌, ◌||◌, refl, false, none, some, [], ◌∷◌, arith, ◌==◌, contains_nat, if◌then◌else◌,
}
use ludus.RangeAccess.{UserRecord, World, has_range_access}
use ludus.RangeAccess.Answers.{grants, has_range_access-first_call}
use ludus.RangeAccess.Caching.{has_range_access-keeps_answer, has_range_access-refuses_others}

abbrev alice : UserRecord
alice = record { id = "u1"; ranges = 1 ∷ [] }

-- Alice has range 1 herself and range 2 by a group; bob has none.
abbrev world : World
world = record {
  find_user = λ id.
      if id == "AL"
      then some alice
      else if id == "BO"
      then some (record { id = "u2"; ranges = [] })
      else none;
  find_groups = λ id. some (if id == "u1" then (2 ∷ []) ∷ [] else []);
}

has_range_access-first_call_example :
    (has_range_access world "AL" 2 none).0 ≡ (contains_nat (1 ∷ []) 2 || grants ((2 ∷ []) ∷ []) 2)
has_range_access-first_call_example =
    has_range_access-first_call world "AL" 2 alice ((2 ∷ []) ∷ []) refl refl

-- Bob is let in by the answer that was kept for alice.
has_range_access-keeps_answer_example :
    has_range_access world "BO" 1 (has_range_access world "AL" 1 none).1
    ≡ has_range_access world "AL" 1 none
has_range_access-keeps_answer_example =
    has_range_access-keeps_answer world "AL" 1 alice ((2 ∷ []) ∷ []) refl refl "BO"

-- Alice is refused range 2 after she was let into range 1.
has_range_access-refuses_others_example :
    (has_range_access world "AL" 2 (has_range_access world "AL" 1 none).1).0 ≡ false
has_range_access-refuses_others_example =
    has_range_access-refuses_others world "AL" 1 alice ((2 ∷ []) ∷ []) refl refl "AL" 2
      (omega arith)
