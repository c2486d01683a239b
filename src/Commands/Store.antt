-- ===== src/Commands/Store.antt =====
-- commandmanager.go: lemmas on the list of the records and the map of the commands.
use ludus.Prelude.{
  ℕ, zero, suc, ◌≡◌, refl, ap, sym, ◌∙◌, ◌≢◌, ◌⊎◌, inl, inr, String, true, false, none, some, List,
  [], ◌∷◌, ◌++◌, length, get_elem?, eqb, contains_nat, ◌==◌, Bool-cases, arith, eq_iff,
}
use ludus.Commands.{lookup, delete, insert, update_at, remove_nat}

module _ {ℓ} {A : Type ℓ} where
  pub get_elem?-added :
      (xs : List A) (x : A) (q : ℕ) {y : A}
      → get_elem? (xs ++ x ∷ []) q ≡ some y
      → (get_elem? xs q ≡ some y) ⊎ ((q ≡ length xs) × (y ≡ x))
  get_elem?-added [] x zero h = inr (refl, cc)
  get_elem?-added [] x (suc q) h = cc
  get_elem?-added (z ∷ xs) x zero h = inl h
  get_elem?-added (z ∷ xs) x (suc q) h = elim (get_elem?-added xs x q h) [
    | inl old ↦ inl old
    | inr e ↦ inr (ap suc e.0, e.1)
  ]

  pub get_elem?-kept :
      (xs : List A) (x : A) (q : ℕ) {y : A}
      → get_elem? xs q ≡ some y
      → get_elem? (xs ++ x ∷ []) q ≡ some y
  get_elem?-kept [] x q h = cc
  get_elem?-kept (z ∷ xs) x zero h = h
  get_elem?-kept (z ∷ xs) x (suc q) h = get_elem?-kept xs x q h

  pub get_elem?-last : (xs : List A) (x : A) → get_elem? (xs ++ x ∷ []) (length xs) ≡ some x
  get_elem?-last [] x = refl
  get_elem?-last (z ∷ xs) x = get_elem?-last xs x

  -- What is found after a change was there before, changed or not.
  pub get_elem?-update_at :
      (p : ℕ) (f : A → A) (xs : List A) (q : ℕ) {y : A}
      → get_elem? (update_at p f xs) q ≡ some y
      → (x : A) × (get_elem? xs q ≡ some x) × ((y ≡ f x) × (p ≡ q) ⊎ (y ≡ x) × (eqb p q ≡ false))
  unfolding update_at
  get_elem?-update_at p f [] q h = cc
  get_elem?-update_at zero f (x ∷ xs) zero h = (x, refl, inl (cc, refl))
  get_elem?-update_at zero f (x ∷ xs) (suc q) {y} h = (y, h, inr (refl, ground arith))
  get_elem?-update_at (suc p) f (x ∷ xs) zero h = (x, refl, inr (cc, ground arith))
  get_elem?-update_at (suc p) f (x ∷ xs) (suc q) h =
      let (x', found, how) = get_elem?-update_at p f xs q h in
      (x', found, elim how [ inl e ↦ inl (e.0, ap suc e.1) | inr e ↦ inr (e.0, ground arith) ])

  pub update_at-get_elem? :
      (p : ℕ) (f : A → A) (xs : List A) (q : ℕ) {x : A}
      → get_elem? xs q ≡ some x
      → (y : A) × (get_elem? (update_at p f xs) q ≡ some y) × ((y ≡ f x) ⊎ (y ≡ x))
  unfolding update_at
  update_at-get_elem? p f [] q h = cc
  update_at-get_elem? zero f (z ∷ xs) zero h = (f z, refl, inl cc)
  update_at-get_elem? zero f (z ∷ xs) (suc q) {x} h = (x, h, inr refl)
  update_at-get_elem? (suc p) f (z ∷ xs) zero {x} h = (x, h, inr refl)
  update_at-get_elem? (suc p) f (z ∷ xs) (suc q) h = update_at-get_elem? p f xs q h

  pub update_at-here :
      (p : ℕ) (f : A → A) (xs : List A) {x : A}
      → get_elem? xs p ≡ some x
      → get_elem? (update_at p f xs) p ≡ some (f x)
  unfolding update_at
  update_at-here p f [] h = cc
  update_at-here zero f (z ∷ xs) h = cc
  update_at-here (suc p) f (z ∷ xs) h = update_at-here p f xs h

  pub lookup-delete_same : (k : String) (es : List (String × A)) → lookup k (delete k es) ≡ none
  unfolding lookup delete
  lookup-delete_same k [] = refl
  lookup-delete_same k (e ∷ es) = ground (arith, lookup-delete_same k es)

  pub lookup-delete_other :
      (k k' : String) (es : List (String × A)) → k ≢ k' → lookup k' (delete k es) ≡ lookup k' es
  unfolding lookup delete
  lookup-delete_other k k' [] n = refl
  lookup-delete_other k k' (e ∷ es) n =
      let ih = lookup-delete_other k k' es n in
      elim (Bool-cases (e.0 == k)) [
        | inl is_k ↦ elim (Bool-cases (e.0 == k')) [
          | inl is_k' ↦ ground (arith, n, sym ((eq_iff e.0 k).0 is_k) ∙ (eq_iff e.0 k').0 is_k')
          | inr not_k' ↦ ground (arith, ih)
        ]
        | inr not_k ↦ ground (arith, ih)
      ]

  -- An entry found after an insertion is the new one, or was there before.
  pub lookup-insert :
      (k : String) (v : A) (es : List (String × A)) (k' : String) {a : A}
      → lookup k' (insert k v es) ≡ some a
      → (k ≡ k') × (a ≡ v) ⊎ (lookup k' es ≡ some a)
  unfolding lookup insert
  lookup-insert k v es k' h = elim (Bool-cases (k == k')) [
    | inl same ↦ inl ((eq_iff k k').0 same, ground arith)
    | inr other ↦ inr (
        ground (arith, lookup-delete_other k k' es (λ e. ground (arith, (eq_iff k k').1 e, other))))
  ]

  pub lookup-deleted :
      (k : String) (es : List (String × A)) (k' : String) {a : A}
      → lookup k' (delete k es) ≡ some a
      → lookup k' es ≡ some a
  lookup-deleted k es k' h = elim (Bool-cases (k == k')) [
    | inl same ↦ (let e = (eq_iff k k').0 same in let gone = lookup-delete_same k es in cc)
    | inr other ↦
        (let e = lookup-delete_other k k' es (λ e. ground (arith, (eq_iff k k').1 e, other)) in cc)
  ]

pub contains_nat-remove_nat :
    (p q : ℕ) (xs : List ℕ)
    → contains_nat xs q ≡ true
    → eqb p q ≡ false
    → contains_nat (remove_nat p xs) q ≡ true
unfolding contains_nat remove_nat
contains_nat-remove_nat p q [] h n = h
contains_nat-remove_nat p q (x ∷ xs) h n = let ih = contains_nat-remove_nat p q xs in ground arith
