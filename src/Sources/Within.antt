-- ===== src/Sources/Within.antt =====
-- ludus-api/source_sync.go and source_catalog.go: lists of names that stay within those that the walk
-- of a source provides.
use ludus.Prelude.{
  ◌≡◌, refl, ◌∙◌, subst, true, false, ◌||◌, inl, inr, Option, none, some, List, [], ◌∷◌, ◌++◌,
  Bool-cases, arith,
}
use ludus.Prelude.Text.{Text, contains_text, is_empty, text_eq}
use ludus.Prelude.Splitting.{text_eq-equal, text_eq_refl}
use ludus.Sources.{
  RequirementsRole, RequirementsCollection, Checkout, WalkedSource, Names, name_of, base_name,
  local_role_name, add_role_names, local_role_names_by_ref,
}
use ludus.Sources.Requirements.{append_unique, add_local_refs, refs_of, Declared}
use ludus.Sources.Selection.{
  local_names, snapshot_walked_as_selection, add_shipped, add_unique, add_required_roles,
  add_required_collections,
}

-- Each text of the first list is in the second.
abbrev pub Within : List Text → List Text → Type 0
Within xs ys = (t : Text) → contains_text xs t ≡ true → contains_text ys t ≡ true

contains_text-append :
    (xs ys : List Text) (t : Text)
    → contains_text (xs ++ ys) t ≡ contains_text xs t || contains_text ys t
unfolding contains_text
contains_text-append [] ys t = refl
contains_text-append (x ∷ xs) ys t = ground (arith, contains_text-append xs ys t)

pub append_unique-contains_text :
    (xs : List Text) (s t : Text)
    → contains_text (append_unique xs s) t ≡ contains_text xs t || text_eq s t
unfolding append_unique contains_text
append_unique-contains_text xs s t = elim (Bool-cases (contains_text xs s)) [
  | inl here ↦ rw here (elim (Bool-cases (text_eq s t)) [
    | inl same ↦
        (let in_xs = subst (λ u. contains_text xs u ≡ true) (text_eq-equal s t same) here in
          ground arith)
    | inr other ↦ ground arith
  ])
  | inr new ↦ rw new (contains_text-append xs (s ∷ []) t ∙ ground arith)
]

append_unique-Within :
    (xs ys : List Text) (s : Text)
    → Within xs ys
    → contains_text ys s ≡ true
    → Within (append_unique xs s) ys
append_unique-Within xs ys s h k t found = elim (Bool-cases (contains_text xs t)) [
  | inl in_xs ↦ h t in_xs
  | inr not_in ↦
      (let split = append_unique-contains_text xs s t in
        let same = text_eq-equal s t (ground arith) in
        subst (λ u. contains_text ys u ≡ true) same k)
]

pub add_shipped-Within :
    (shipped xs names : List Text)
    → Within xs shipped
    → Within (add_shipped shipped xs names) shipped
unfolding add_shipped
add_shipped-Within shipped xs [] h = h
add_shipped-Within shipped xs (name ∷ names) h = elim (Bool-cases (contains_text shipped name)) [
  | inl ships ↦ rw ships (
      add_shipped-Within shipped (append_unique xs name) names
        (append_unique-Within xs shipped name h ships))
  | inr foreign ↦ rw foreign (add_shipped-Within shipped xs names h)
]

pub add_unique-Within :
    (xs names ys : List Text) → Within xs ys → Within names ys → Within (add_unique xs names) ys
unfolding add_unique contains_text
add_unique-Within xs [] ys h k = h
add_unique-Within xs (name ∷ names) ys h k =
    let here = k name (rw (text_eq_refl name) refl) in
    add_unique-Within (append_unique xs name) names ys (append_unique-Within xs ys name h here)
      (λ t found. k t (ground arith))

pub add_required_collections-Within :
    (vendored xs : List Text) (rs : List RequirementsCollection)
    → Within xs vendored
    → Within (add_required_collections vendored xs rs) vendored
unfolding add_required_collections
add_required_collections-Within vendored xs [] h = h
add_required_collections-Within vendored xs (r ∷ rs) h =
    elim (Bool-cases (contains_text vendored r.name)) [
      | inl ours ↦ rw ours (
          add_required_collections-Within vendored (append_unique xs r.name) rs
            (append_unique-Within xs vendored r.name h ours))
      | inr foreign ↦ rw foreign (add_required_collections-Within vendored xs rs h)
    ]

-- The names that references stand for are in the list.
abbrev NamesWithin : Names → List Text → Type 0
NamesWithin names ys =
    (ref : Text)
    → is_empty (name_of names ref) ≡ false
    → contains_text ys (name_of names ref) ≡ true

add_role_names-NamesWithin :
    (c : Checkout) (names : Names) (dirs ys : List Text)
    → NamesWithin names ys
    → Within (local_names c dirs) ys
    → NamesWithin (add_role_names c names dirs) ys
unfolding add_role_names local_names name_of contains_text
add_role_names-NamesWithin c names [] ys h k = h
add_role_names-NamesWithin c names (dir ∷ dirs) ys h k =
    let name = local_role_name c dir in
    let here : contains_text ys name ≡ true = k name (rw (text_eq_refl name) refl) in
    add_role_names-NamesWithin c ((name, name) ∷ (base_name dir, name) ∷ names) dirs ys
      (λ ref. elim (Bool-cases (text_eq name ref)) [
        | inl by_name ↦ λ some_name. rw by_name here
        | inr other ↦ elim (Bool-cases (text_eq (base_name dir) ref)) [
          | inl by_base ↦ λ some_name. rw (other, by_base) here
          | inr older ↦ rw (other, older) (h ref)
        ]
      ])
      (λ t found. k t (ground arith))

pub local_role_names_by_ref-NamesWithin :
    (c : Checkout) (walked : WalkedSource)
    → NamesWithin
        (local_role_names_by_ref c walked)
        (snapshot_walked_as_selection c walked).local_roles
unfolding local_role_names_by_ref snapshot_walked_as_selection name_of
local_role_names_by_ref-NamesWithin c walked =
    add_role_names-NamesWithin c [] walked.local_roles (local_names c walked.local_roles)
      (λ ref h. cc) (λ t found. found)

add_local_refs-Within :
    (names : Names) (refs roles ys : List Text)
    → NamesWithin names ys
    → Within refs ys
    → Within (add_local_refs names refs roles) ys
unfolding add_local_refs
add_local_refs-Within names refs [] ys h k = k
add_local_refs-Within names refs (role ∷ roles) ys h k =
    elim (Bool-cases (is_empty (name_of names role))) [
      | inl unknown ↦ rw unknown (add_local_refs-Within names refs roles ys h k)
      | inr known ↦ rw known (
          add_local_refs-Within names (append_unique refs (name_of names role)) roles ys h
            (append_unique-Within refs ys (name_of names role) k (h role known)))
    ]

pub add_required_roles-Within :
    (names : Names) (xs : List Text) (rs : List RequirementsRole) (ys : List Text)
    → NamesWithin names ys
    → Within xs ys
    → Within (add_required_roles names xs rs) ys
unfolding add_required_roles
add_required_roles-Within names xs [] ys h k = k
add_required_roles-Within names xs (r ∷ rs) ys h k =
    elim (Bool-cases (is_empty (name_of names r.name))) [
      | inl unknown ↦ rw unknown (add_required_roles-Within names xs rs ys h k)
      | inr known ↦ rw known (
          add_required_roles-Within names (append_unique xs (name_of names r.name)) rs ys h
            (append_unique-Within xs ys (name_of names r.name) k (h r.name known)))
    ]

pub refs_of-Within :
    (declared : Declared) (names : Names) (found : Option (List Text × List Text)) (ys : List Text)
    → NamesWithin names ys
    → Within (refs_of declared names found).local_roles ys
unfolding refs_of contains_text
refs_of-Within declared names none ys h = λ t e. cc
refs_of-Within declared names (some (templates, roles)) ys h =
    add_local_refs-Within names [] roles ys h (λ t e. cc)
