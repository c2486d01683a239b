-- ===== src/Allocation/Tests.antt =====
-- The searches at concrete columns.
use ludus.Prelude.{ℕ, ◌≡◌, some, [], ◌∷◌}
use ludus.Allocation.{find_next_available_range_number, find_next_available_user_number}
use ludus.Allocation.Smallest.{
  IsSmallestFree, find_next_available_range_number-IsSmallestFree,
  find_next_available_user_number-IsSmallestFree,
}

find_next_available_range_number-IsSmallestFree_example :
    (n : ℕ) × (find_next_available_range_number (some (1 ∷ 2 ∷ 5 ∷ [])) (3 ∷ []) ≡ some n)
    × IsSmallestFree (1 ∷ 2 ∷ 5 ∷ []) (3 ∷ []) 1 n
find_next_available_range_number-IsSmallestFree_example =
    find_next_available_range_number-IsSmallestFree (1 ∷ 2 ∷ 5 ∷ []) (3 ∷ [])

find_next_available_user_number-IsSmallestFree_example :
    (n : ℕ) × (find_next_available_user_number (some (1 ∷ 2 ∷ [])) ≡ some n)
    × IsSmallestFree (1 ∷ 2 ∷ []) [] 2 n
find_next_available_user_number-IsSmallestFree_example =
    find_next_available_user_number-IsSmallestFree (1 ∷ 2 ∷ [])
