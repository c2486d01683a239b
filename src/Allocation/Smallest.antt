-- ===== src/Allocation/Smallest.antt =====
-- database.go: what the searches for a free number return.
use ludus.Prelude.{
  ℕ, zero, suc, ◌+◌, ◌<◌, ◌≤◌, ◌≡◌, ◌⊎◌, inl, inr, true, false, some, List, [], ◌∷◌, length,
  contains_nat, leb, eqb, arith, if◌then◌else◌, Bool-cases, eqb_iff, subst, ◌∙◌,
}
use ludus.Allocation.{
  search_from, find_next_available_range_number, find_next_available_user_number,
}

-- How many numbers of the list are at least `i`.
count_from : ℕ → List ℕ → ℕ
count_from i [] = 0
count_from i (x ∷ xs) = (if leb i x then 1 else 0) + count_from i xs

count_from-le-length : (i : ℕ) (xs : List ℕ) → count_from i xs ≤ length xs
unfolding count_from
count_from-le-length i [] = omega arith
count_from-le-length i (x ∷ xs) = ground (arith, count_from-le-length i xs)

count_from_mono : (i : ℕ) (xs : List ℕ) → count_from (suc i) xs ≤ count_from i xs
unfolding count_from
count_from_mono i [] = omega arith
count_from_mono i (x ∷ xs) = ground (arith, count_from_mono i xs)

-- Past a number of the list there are fewer.
count_from_drop :
    (i : ℕ) (xs : List ℕ) → contains_nat xs i ≡ true → count_from (suc i) xs < count_from i xs
unfolding count_from contains_nat
count_from_drop i [] h = cc
count_from_drop i (x ∷ xs) h = ground (arith, count_from_mono i xs, count_from_drop i xs)

-- `n` is free, and every number from `i` up to it is not.
pub record IsSmallestFree (numbers reserved : List ℕ) (i n : ℕ) : Type 0 where
  pub from : i ≤ n
  pub unused : contains_nat numbers n ≡ false
  pub unreserved : contains_nat reserved n ≡ false
  pub least :
      (m : ℕ) → i ≤ m → m < n → (contains_nat numbers m ≡ true) ⊎ (contains_nat reserved m ≡ true)
  pub bounded : n ≤ i + (length numbers + length reserved)

abbrev Taken : List ℕ → List ℕ → ℕ → Type 0
Taken numbers reserved m = (contains_nat numbers m ≡ true) ⊎ (contains_nat reserved m ≡ true)

-- One more number that is taken, in front of those before `n`.
Taken-below :
    (numbers reserved : List ℕ) (i n : ℕ)
    → Taken numbers reserved i
    → ((m : ℕ) → suc i ≤ m → m < n → Taken numbers reserved m)
    → (m : ℕ) → i ≤ m
    → m < n
    → Taken numbers reserved m
Taken-below numbers reserved i n taken later m h k = elim (Bool-cases (eqb i m)) [
  | inl same ↦ subst (Taken numbers reserved) ((eqb_iff i m).0 same) taken
  | inr other ↦ later m (ground arith) k
]

abbrev Found : ℕ → List ℕ → List ℕ → ℕ → Type 0
Found fuel numbers reserved i =
    (n : ℕ) × (search_from fuel numbers reserved i ≡ some n)
    × (i ≤ n)
    × (contains_nat numbers n ≡ false)
    × (contains_nat reserved n ≡ false)
    × ((m : ℕ) → i ≤ m → m < n → Taken numbers reserved m)
    × (n ≤ i + (count_from i numbers + count_from i reserved))

module _ (numbers reserved : List ℕ) where
  Found-later :
      (fuel i : ℕ)
      → Taken numbers reserved i
      → search_from (suc fuel) numbers reserved i ≡ search_from fuel numbers reserved (suc i)
      → Found fuel numbers reserved (suc i)
      → Found (suc fuel) numbers reserved i
  Found-later fuel i taken step (n, e, from, unused, unreserved, least, bounded) = (
    n,
    step ∙ e,
    omega arith,
    unused,
    unreserved,
    Taken-below numbers reserved i n taken least,
    later_bound taken,
  )
    where
      later_bound :
          Taken numbers reserved i → n ≤ i + (count_from i numbers + count_from i reserved)
      later_bound (inl t) = omega (arith, count_from_drop i numbers t, count_from_mono i reserved)
      later_bound (inr t) = omega (arith, count_from_drop i reserved t, count_from_mono i numbers)

  search_from-finds :
      (fuel i : ℕ)
      → count_from i numbers + count_from i reserved < fuel
      → Found fuel numbers reserved i
  unfolding search_from
  search_from-finds zero i h = elim h [ ]
  search_from-finds (suc fuel) i h = elim (Bool-cases (contains_nat numbers i)) [
    | inl used ↦ Found-later fuel i (inl used) (rw (search_from, used)) (
        search_from-finds fuel (suc i)
          (omega (arith, count_from_drop i numbers used, count_from_mono i reserved)))
    | inr unused ↦ elim (Bool-cases (contains_nat reserved i)) [
      | inl kept ↦ Found-later fuel i (inr kept) (rw (search_from, unused, kept)) (
          search_from-finds fuel (suc i)
            (omega (arith, count_from_drop i reserved kept, count_from_mono i numbers)))
      | inr free ↦ (
        i,
        rw (search_from, unused, free),
        omega arith,
        unused,
        free,
        λ m lo hi. absurd (omega arith),
        omega arith,
      )
    ]
  ]

smallest :
    (numbers reserved : List ℕ) (i : ℕ)
    → Found (suc (length numbers + length reserved)) numbers reserved i
    → (n : ℕ) × (search_from (suc (length numbers + length reserved)) numbers reserved i ≡ some n)
      × IsSmallestFree numbers reserved i n
smallest numbers reserved i (n, e, from, unused, unreserved, least, bounded) = (
  n,
  e,
  record {
    from = from;
    unused = unused;
    unreserved = unreserved;
    least = least;
    bounded = omega (arith, count_from-le-length i numbers, count_from-le-length i reserved);
  },
)

-- Whatever numbers are in use and reserved, the search for a range number ends, with the smallest
-- positive number that is neither.
pub find_next_available_range_number-IsSmallestFree :
    (numbers reserved : List ℕ)
    → (n : ℕ) × (find_next_available_range_number (some numbers) reserved ≡ some n)
      × IsSmallestFree numbers reserved 1 n
unfolding find_next_available_range_number
find_next_available_range_number-IsSmallestFree numbers reserved = smallest numbers reserved 1 (
    search_from-finds numbers reserved (suc (length numbers + length reserved)) 1
      (omega (arith, count_from-le-length 1 numbers, count_from-le-length 1 reserved)))

-- Whatever user numbers are in use, the search for a user number ends, with the smallest number
-- from 2 on that is not in use.
pub find_next_available_user_number-IsSmallestFree :
    (rows : List ℕ)
    → (n : ℕ) × (find_next_available_user_number (some rows) ≡ some n) × IsSmallestFree rows [] 2 n
unfolding find_next_available_user_number
find_next_available_user_number-IsSmallestFree rows = smallest rows [] 2 (
    search_from-finds rows [] (suc (length rows + 0)) 2
      (omega (arith, count_from-le-length 2 rows, count_from-le-length 2 [])))
