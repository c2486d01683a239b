-- ===== src/Allocation.antt =====
-- ludus-api/database.go: the next free range number and user number. A query that fails gives `none`,
-- for the -1 of the source.
pub mod Smallest
mod Tests
use ludus.Prelude.{
  ℕ, zero, suc, ◌+◌, Bool, true, false, ◌||◌, Option, none, some, List, [], ◌∷◌, ◌++◌, length,
  contains_nat, if◌then◌else◌,
}

-- `for i := first; ; i++`: the first number that is neither in the column nor reserved. The fuel
-- counts the rounds; `none` means that it ran out.
unfoldable pub search_from : ℕ → List ℕ → List ℕ → ℕ → Option ℕ
search_from zero numbers reserved i = none
search_from (suc fuel) numbers reserved i =
    let rest = search_from fuel numbers reserved (suc i) in
    if contains_nat numbers i then rest else if contains_nat reserved i then rest else some i

-- The rounds that are always enough: one for each number in use, and one more.
abbrev rounds : List ℕ → List ℕ → ℕ
rounds numbers reserved = suc (length numbers + length reserved)

unfoldable pub find_next_available_range_number : Option (List ℕ) → List ℕ → Option ℕ
find_next_available_range_number none reserved = none
find_next_available_range_number (some range_numbers) reserved =
    search_from (rounds range_numbers reserved) range_numbers reserved 1

-- 1 is the number of the root user.
unfoldable pub find_next_available_user_number : Option (List ℕ) → Option ℕ
find_next_available_user_number none = none
find_next_available_user_number (some rows) = search_from (rounds rows []) rows [] 2
