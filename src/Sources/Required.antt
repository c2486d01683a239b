-- ===== src/Sources/Required.antt =====
-- ludus-api/source_sync.go, source_install.go and blueprint_resolver.go: the loops over the requirements
-- of a blueprint, and the names of the roles that a source vendors.
use ludus.Prelude.{
  ◌≡◌, refl, sym, ◌∙◌, subst, true, false, ◌||◌, inl, inr, List, [], ◌∷◌, if◌then◌else◌, Bool-cases,
  arith,
}
use ludus.Prelude.Text.{Text, contains_text, is_empty, split, text_eq}
use ludus.Prelude.Splitting.{text_eq-equal, text_eq_refl}
use ludus.Archive.{slash}
use ludus.Sources.{
  RequirementsRole, RequirementsCollection, Checkout, Names, name_of, last_element, base_name,
  role_galaxy_name, local_role_name, add_role_names,
}
use ludus.Sources.Requirements.{
  append_unique, role_names, requirement_collection_names, keep_roles, keep_collections,
}
use ludus.Sources.Selection.{add_shipped, add_unique, add_required_roles, add_required_collections}
use ludus.Sources.Install.{vendored_roles}
use ludus.Sources.Within.{Within, append_unique-contains_text}

append_unique-keeps : (xs : List Text) (s : Text) → Within xs (append_unique xs s)
append_unique-keeps xs s t h = rw (append_unique-contains_text xs s t, h) refl

append_unique-adds : (xs : List Text) (s : Text) → contains_text (append_unique xs s) s ≡ true
append_unique-adds xs s =
    let same = text_eq_refl s in append_unique-contains_text xs s s ∙ ground arith

pub add_shipped-keeps : (shipped xs names : List Text) → Within xs (add_shipped shipped xs names)
unfolding add_shipped
add_shipped-keeps shipped xs [] t h = h
add_shipped-keeps shipped xs (name ∷ names) t h = elim (Bool-cases (contains_text shipped name)) [
  | inl ships ↦
      rw ships (
        add_shipped-keeps shipped (append_unique xs name) names t (append_unique-keeps xs name t h))
  | inr foreign ↦ rw foreign (add_shipped-keeps shipped xs names t h)
]

pub add_unique-keeps : (xs names : List Text) → Within xs (add_unique xs names)
unfolding add_unique
add_unique-keeps xs [] t h = h
add_unique-keeps xs (name ∷ names) t h =
    add_unique-keeps (append_unique xs name) names t (append_unique-keeps xs name t h)

module _ (names : Names) where
  pub add_required_roles-keeps :
      (xs : List Text) (rs : List RequirementsRole) → Within xs (add_required_roles names xs rs)
  unfolding add_required_roles
  add_required_roles-keeps xs [] t h = h
  add_required_roles-keeps xs (r ∷ rs) t h = elim (Bool-cases (is_empty (name_of names r.name))) [
    | inl unknown ↦ rw unknown (add_required_roles-keeps xs rs t h)
    | inr known ↦ rw known (
        add_required_roles-keeps (append_unique xs (name_of names r.name)) rs t
          (append_unique-keeps xs (name_of names r.name) t h))
  ]

  -- The local copy of a required role is selected.
  pub add_required_roles-adds :
      (xs : List Text) (rs : List RequirementsRole) (name : Text)
      → contains_text (role_names rs) name ≡ true
      → is_empty (name_of names name) ≡ false
      → contains_text (add_required_roles names xs rs) (name_of names name) ≡ true
  unfolding add_required_roles contains_text
  add_required_roles-adds xs [] name h known = cc
  add_required_roles-adds xs (r ∷ rs) name h known = elim (Bool-cases (text_eq r.name name)) [
    | inl same ↦
        (let e = text_eq-equal r.name name same in
          let known_here : is_empty (name_of names r.name) ≡ false =
            subst (λ n. is_empty (name_of names n) ≡ false) (sym e) known in
          rw known_here (
            add_required_roles-keeps (append_unique xs (name_of names r.name)) rs
              (name_of names name)
              (subst
                (λ n.
                  contains_text (append_unique xs (name_of names r.name)) (name_of names n) ≡ true)
                e (append_unique-adds xs (name_of names r.name)))))
    | inr other ↦
        add_required_roles-adds
          (if is_empty (name_of names r.name) then xs else append_unique xs (name_of names r.name))
          rs name (ground arith) known
  ]

module _ (vendored : List Text) where
  pub add_required_collections-keeps :
      (xs : List Text) (rs : List RequirementsCollection)
      → Within xs (add_required_collections vendored xs rs)
  unfolding add_required_collections
  add_required_collections-keeps xs [] t h = h
  add_required_collections-keeps xs (r ∷ rs) t h =
      elim (Bool-cases (contains_text vendored r.name)) [
        | inl ours ↦ rw ours (
            add_required_collections-keeps (append_unique xs r.name) rs t
              (append_unique-keeps xs r.name t h))
        | inr foreign ↦ rw foreign (add_required_collections-keeps xs rs t h)
      ]

  -- The local copy of a required collection is selected.
  pub add_required_collections-adds :
      (xs : List Text) (rs : List RequirementsCollection) (name : Text)
      → contains_text (requirement_collection_names rs) name ≡ true
      → contains_text vendored name ≡ true
      → contains_text (add_required_collections vendored xs rs) name ≡ true
  unfolding add_required_collections contains_text
  add_required_collections-adds xs [] name h ours = cc
  add_required_collections-adds xs (r ∷ rs) name h ours = elim (Bool-cases (text_eq r.name name)) [
    | inl same ↦
        (let e = text_eq-equal r.name name same in
          let ours_here : contains_text vendored r.name ≡ true =
            subst (λ n. contains_text vendored n ≡ true) (sym e) ours in
          rw ours_here (
            add_required_collections-keeps (append_unique xs r.name) rs name (
              subst (λ n. contains_text (append_unique xs r.name) n ≡ true) e
                (append_unique-adds xs r.name))))
    | inr other ↦
        add_required_collections-adds
          (if contains_text vendored r.name then append_unique xs r.name else xs) rs name
          (ground arith) ours
  ]

  pub keep_roles-keeps :
      (rs : List RequirementsRole) (name : Text)
      → contains_text (role_names rs) name ≡ true
      → contains_text vendored name ≡ false
      → contains_text (role_names (keep_roles vendored rs)) name ≡ true
  unfolding keep_roles contains_text
  keep_roles-keeps [] name h foreign = cc
  keep_roles-keeps (r ∷ rs) name h foreign = elim (Bool-cases (text_eq r.name name)) [
    | inl same ↦
        (let foreign_here : contains_text vendored r.name ≡ false =
            subst (λ n. contains_text vendored n ≡ false) (sym (text_eq-equal r.name name same))
              foreign in
          rw (foreign_here, same) refl)
    | inr other ↦
        (let ih = keep_roles-keeps rs name (ground arith) foreign in
          elim (Bool-cases (contains_text vendored r.name)) [
            | inl ours ↦ rw ours ih
            | inr kept ↦ rw (kept, other) ih
          ])
  ]

  pub keep_collections-keeps :
      (rs : List RequirementsCollection) (name : Text)
      → contains_text (requirement_collection_names rs) name ≡ true
      → contains_text vendored name ≡ false
      → contains_text (requirement_collection_names (keep_collections vendored rs)) name ≡ true
  unfolding keep_collections contains_text
  keep_collections-keeps [] name h foreign = cc
  keep_collections-keeps (r ∷ rs) name h foreign = elim (Bool-cases (text_eq r.name name)) [
    | inl same ↦
        (let foreign_here : contains_text vendored r.name ≡ false =
            subst (λ n. contains_text vendored n ≡ false) (sym (text_eq-equal r.name name same))
              foreign in
          rw (foreign_here, same) refl)
    | inr other ↦
        (let ih = keep_collections-keeps rs name (ground arith) foreign in
          elim (Bool-cases (contains_text vendored r.name)) [
            | inl ours ↦ rw ours ih
            | inr kept ↦ rw (kept, other) ih
          ])
  ]

-- A directory always has a base name, and so each local role has a name.
or_slash : (name : Text) → is_empty (if is_empty name then slash ∷ [] else name) ≡ false
or_slash [] = refl
or_slash (c ∷ s) = refl

base_name-present : (path : Text) → is_empty (base_name path) ≡ false
unfolding base_name
base_name-present path = elim (Bool-cases (is_empty path)) [
  | inl empty ↦ rw empty refl
  | inr some_path ↦ rw some_path (or_slash (last_element [] (split slash [] path)))
]

local_role_name-present : (c : Checkout) (dir : Text) → is_empty (local_role_name c dir) ≡ false
unfolding local_role_name
local_role_name-present c dir =
    let base = base_name-present dir in
    let gname = role_galaxy_name c dir (base_name dir) in
    elim (Bool-cases (is_empty gname)) [
      | inl unnamed ↦ rw unnamed base
      | inr named ↦ rw (named, named) refl
    ]

-- Names that are known stay known when more roles are added.
add_role_names-keeps :
    (c : Checkout) (names : Names) (dirs : List Text) (ref : Text)
    → is_empty (name_of names ref) ≡ false
    → is_empty (name_of (add_role_names c names dirs) ref) ≡ false
unfolding add_role_names name_of
add_role_names-keeps c names [] ref h = h
add_role_names-keeps c names (dir ∷ dirs) ref h =
    let name = local_role_name c dir in
    let here = local_role_name-present c dir in
    add_role_names-keeps c ((name, name) ∷ (base_name dir, name) ∷ names) dirs ref
      (elim (Bool-cases (text_eq name ref)) [
        | inl by_name ↦ rw by_name here
        | inr other ↦ elim (Bool-cases (text_eq (base_name dir) ref)) [
          | inl by_base ↦ rw (other, by_base) here
          | inr older ↦ rw (other, older) h
        ]
      ])

own_names :
    (base gname ref : Text) (rest : List Text)
    → contains_text
        (if is_empty gname || text_eq gname base then base ∷ rest else base ∷ gname ∷ rest)
        ref
      ≡ true
    → contains_text rest ref ≡ false
    → text_eq base ref ≡ false
    → (is_empty gname ≡ false) × (text_eq gname ref ≡ true)
unfolding contains_text
own_names base gname ref rest h later other =
    elim (Bool-cases (is_empty gname || text_eq gname base)) [
      | inl bare ↦ ground arith
      | inr both ↦ (ground arith, ground arith)
    ]

local_role_name-galaxy :
    (c : Checkout) (dir : Text)
    → is_empty (role_galaxy_name c dir (base_name dir)) ≡ false
    → local_role_name c dir ≡ role_galaxy_name c dir (base_name dir)
unfolding local_role_name
local_role_name-galaxy c dir h = rw h refl

-- A directory's own two names, in front of the others.
named_here :
    (c : Checkout) (names : Names) (dir : Text) (dirs : List Text) (ref : Text)
    → contains_text (vendored_roles c (dir ∷ dirs)) ref ≡ true
    → contains_text (vendored_roles c dirs) ref ≡ false
    → is_empty (
        name_of
          ((local_role_name c dir, local_role_name c dir)
            ∷ (base_name dir, local_role_name c dir)
            ∷ names)
          ref)
      ≡ false
unfolding vendored_roles contains_text name_of
named_here c names dir dirs ref h later =
    let name = local_role_name c dir in
    let base = base_name dir in
    let gname = role_galaxy_name c dir base in
    let here = local_role_name-present c dir in
    elim (Bool-cases (text_eq name ref)) [
      | inl by_name ↦ rw by_name here
      | inr other ↦ elim (Bool-cases (text_eq base ref)) [
        | inl by_base ↦ rw (other, by_base) here
        | inr older ↦
            (let (named, same) = own_names base gname ref (vendored_roles c dirs) h later older in
              let is_gname = local_role_name-galaxy c dir named in
              let clash : text_eq gname ref ≡ false =
                subst (λ t. text_eq t ref ≡ false) is_gname other in
              cc)
      ]
    ]

-- What is stripped as vendored is known by reference.
pub vendored_roles-known :
    (c : Checkout) (names : Names) (dirs : List Text) (ref : Text)
    → contains_text (vendored_roles c dirs) ref ≡ true
    → is_empty (name_of (add_role_names c names dirs) ref) ≡ false
unfolding vendored_roles contains_text add_role_names
vendored_roles-known c names [] ref h = cc
vendored_roles-known c names (dir ∷ dirs) ref h =
    let name = local_role_name c dir in
    let more : Names = (name, name) ∷ (base_name dir, name) ∷ names in
    let rest = vendored_roles-known c more dirs ref in
    elim (Bool-cases (contains_text (vendored_roles c dirs) ref)) [
      | inl later ↦ rest later
      | inr here ↦ add_role_names-keeps c more dirs ref (named_here c names dir dirs ref h here)
    ]
