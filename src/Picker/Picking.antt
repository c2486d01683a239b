-- ===== src/Picker/Picking.antt =====
-- update.go, `toggleAllOver`: checking the visible rows, with what the checked blueprints imply.
use ludus.Prelude.{
  ℕ, zero, suc, ◌≡◌, refl, sym, ap, ◌∙◌, inl, inr, String, Bool, true, false, ◌||◌, some, List, [],
  ◌∷◌, ◌++◌, ◌==◌, get_elem?, contains, if◌then◌else◌, Bool-cases, arith, eq_iff,
}
use ludus.Picker.Catalog.{
  CatalogBlueprint, Section, blueprints, templates, local_roles, local_collections, get,
}
use ludus.Picker.Model.{
  Row, RowKind, toggleable, read_only, Model, is_implied_only, visible_toggleable, ImpliedSet,
  nothing_implied, implied_of, expand_items, expand_implied, current_selection, insert_sorted,
  set_to_sorted_slice,
}
use ludus.Picker.Toggle.{
  check, set_picked, set_rows, set_sections, any_unpicked_row, any_unpicked, toggle_all_over,
}
use ludus.Picker.Clearing.{IsSettled, OfSection, visible-OfSection, set_rows-visible}

contains-append :
    (xs ys : List String) (x : String) → contains (xs ++ ys) x ≡ contains xs x || contains ys x
unfolding contains
contains-append [] ys x = refl
contains-append (y ∷ xs) ys x = ground (arith, contains-append xs ys x)

contains-insert_sorted :
    (a : String) (bs : List String) (x : String)
    → contains (insert_sorted a bs) x ≡ (a == x) || contains bs x
unfolding contains insert_sorted
contains-insert_sorted a [] x = refl
contains-insert_sorted a (b ∷ bs) x = ground (arith, contains-insert_sorted a bs x)

contains-set_to_sorted_slice :
    (s : List String) (x : String) → contains (set_to_sorted_slice s) x ≡ contains s x
unfolding contains set_to_sorted_slice
contains-set_to_sorted_slice [] x = refl
contains-set_to_sorted_slice (a ∷ s) x =
    contains-insert_sorted a (set_to_sorted_slice s) x
    ∙ ap (λ b. (a == x) || b) (contains-set_to_sorted_slice s x)

-- All of one list is in another.
abbrev Within : List String → List String → Type 0
Within xs ys = (x : String) → contains xs x ≡ true → contains ys x ≡ true

append-Within : (xs ys zs : List String) → Within xs ys → Within (xs ++ zs) (ys ++ zs)
append-Within xs ys zs within x h =
    ground (arith, contains-append xs zs x, contains-append ys zs x, within x)

Within-append : (xs ys zs : List String) → Within xs ys → Within xs (ys ++ zs)
Within-append xs ys zs within x h = ground (arith, contains-append ys zs x, within x)

abbrev ImpliedWithin : ImpliedSet → ImpliedSet → Type 0
ImpliedWithin out out' = (sec : Section) → Within (implied_of out sec) (implied_of out' sec)

-- More blueprints imply more.
expand_items-Within :
    (picked picked' : List String)
    → Within picked picked'
    → (bps : List CatalogBlueprint) (out out' : ImpliedSet) → ImpliedWithin out out'
    → ImpliedWithin (expand_items picked out bps) (expand_items picked' out' bps)
unfolding expand_items
expand_items-Within picked picked' more [] out out' within = within
expand_items-Within picked picked' more (bp ∷ bps) out out' within =
    expand_items-Within picked picked' more bps
      (if contains picked bp.id then with_items out else out)
      (if contains picked' bp.id then with_items out' else out')
      (by_pick (contains picked bp.id) (contains picked' bp.id) (more bp.id))
  where
    with_items : ImpliedSet → ImpliedSet
    with_items s = record {
      templates = s.templates ++ bp.required_templates;
      local_roles = s.local_roles ++ bp.required_local_roles;
      local_collections = s.local_collections ++ bp.required_collections;
    }

    by_pick :
        (b b' : Bool)
        → (b ≡ true → b' ≡ true)
        → ImpliedWithin (if b then with_items out else out) (if b' then with_items out' else out')
    by_pick true true grows blueprints = within blueprints
    by_pick true true grows templates =
        append-Within out.templates out'.templates bp.required_templates (within templates)
    by_pick true true grows local_roles =
        append-Within out.local_roles out'.local_roles bp.required_local_roles (within local_roles)
    by_pick true true grows local_collections =
        append-Within out.local_collections out'.local_collections bp.required_collections
          (within local_collections)
    by_pick true false grows sec = let no = grows refl in cc
    by_pick false true grows blueprints = within blueprints
    by_pick false true grows templates =
        Within-append out.templates out'.templates bp.required_templates (within templates)
    by_pick false true grows local_roles =
        Within-append out.local_roles out'.local_roles bp.required_local_roles (within local_roles)
    by_pick false true grows local_collections =
        Within-append out.local_collections out'.local_collections bp.required_collections
          (within local_collections)
    by_pick false false grows sec = within sec

check-contains :
    (id : String) (set : List String) (x : String)
    → contains (check id set) x ≡ contains set x || (id == x)
unfolding check contains
check-contains id set x = elim (Bool-cases (contains set id)) [
  | inl there ↦
      rw (check, there)
        (elim (Bool-cases (id == x)) [
          | inl same ↦
              (let equal = (eq_iff id x).0 same in
                rw same (ground (arith, sym (ap (contains set) equal) ∙ there)))
          | inr other ↦ rw other (ground arith)
        ])
  | inr absent ↦ rw (check, absent) (ground (arith, contains-append set (id ∷ []) x))
]

check-here : (id : String) (set : List String) → contains (check id set) id ≡ true
check-here id set =
    let same = (eq_iff id id).1 refl in check-contains id set id ∙ rw same (ground arith)

check-Within : (id : String) (set : List String) → Within set (check id set)
check-Within id set x h = check-contains id set x ∙ rw h refl

module _ {I : Type 0} where
  -- The same catalog, and no fewer picks.
  record Grows (m m' : Model I) : Type 0 where
    same_catalog : m'.catalog ≡ m.catalog
    same_rows : (sec : Section) → visible_toggleable m' sec ≡ visible_toggleable m sec
    picks : (sec : Section) → Within (get m.picked sec) (get m'.picked sec)

  Grows-refl : (m : Model I) → Grows m m
  Grows-refl m = record { same_catalog = refl; same_rows = λ sec. refl; picks = λ sec x h. h }

  Grows-trans : (m m' m'' : Model I) → Grows m m' → Grows m' m'' → Grows m m''
  Grows-trans m m' m'' first second = record {
    same_catalog = second.same_catalog ∙ first.same_catalog;
    same_rows = λ sec. second.same_rows sec ∙ first.same_rows sec;
    picks = λ sec x h. second.picks sec x (first.picks sec x h);
  }

  Grows-implied :
      (m m' : Model I)
      → Grows m m'
      → ImpliedWithin
          (expand_implied m.catalog (current_selection m))
          (expand_implied m'.catalog (current_selection m'))
  unfolding expand_implied current_selection
  Grows-implied m m' grows = rw (grows.same_catalog) (
      expand_items-Within (set_to_sorted_slice m.picked.at_blueprints)
        (set_to_sorted_slice m'.picked.at_blueprints)
        (λ x h.
          contains-set_to_sorted_slice m'.picked.at_blueprints x
          ∙ grows.picks blueprints x
              (sym (contains-set_to_sorted_slice m.picked.at_blueprints x) ∙ h))
        m.catalog.blueprints nothing_implied nothing_implied (λ sec x h. h))

  -- What is picked or implied stays so.
  IsSettled-keeps : (m m' : Model I) (r : Row) → Grows m m' → IsSettled m r → IsSettled m' r
  IsSettled-keeps m m' r grows (inl picked) = inl (grows.picks r.section r.id picked)
  IsSettled-keeps m m' r grows (inr implied) = inr (Grows-implied m m' grows r.section r.id implied)

  set_picked-Grows :
      (sec : Section) (id : String) (m : Model I) → Grows m (set_picked true sec id m)
  unfolding set_picked visible_toggleable
  set_picked-Grows sec id m = record {
    same_catalog = refl;
    same_rows = λ s. refl;
    picks = picks_of sec;
  }
    where
      picks_of :
          (s sec' : Section) → Within (get m.picked sec') (get (set_picked true s id m).picked sec')
      picks_of blueprints blueprints = check-Within id m.picked.at_blueprints
      picks_of templates templates = check-Within id m.picked.at_templates
      picks_of local_roles local_roles = check-Within id m.picked.at_local_roles
      picks_of local_collections local_collections = check-Within id m.picked.at_local_collections
      picks_of _ _ = λ x h. h

  set_picked-picks :
      (sec : Section) (id : String) (m : Model I)
      → contains (get (set_picked true sec id m).picked sec) id ≡ true
  unfolding set_picked
  set_picked-picks blueprints id m = check-here id m.picked.at_blueprints
  set_picked-picks templates id m = check-here id m.picked.at_templates
  set_picked-picks local_roles id m = check-here id m.picked.at_local_roles
  set_picked-picks local_collections id m = check-here id m.picked.at_local_collections

  set_rows-Grows :
      (sec : Section) (rows : List Row) (m : Model I) → Grows m (set_rows true sec rows m)
  unfolding set_rows
  set_rows-Grows sec [] m = Grows-refl m
  set_rows-Grows sec (r ∷ rows) m = elim (Bool-cases (is_implied_only m r)) [
    | inl implied ↦ rw (set_rows, implied) (set_rows-Grows sec rows m)
    | inr free ↦
        (let m' = set_picked true sec r.id m in
          rw (set_rows, free)
            (Grows-trans m m' (set_rows true sec rows m') (set_picked-Grows sec r.id m)
              (set_rows-Grows sec rows m')))
  ]

  is_implied_only-IsSettled : (m : Model I) (r : Row) → is_implied_only m r ≡ true → IsSettled m r
  unfolding is_implied_only
  is_implied_only-IsSettled m r h = by_kind r.kind (contains (get m.picked r.section) r.id) refl h
    where
      by_kind :
          (k : RowKind) (b : Bool)
          → contains (get m.picked r.section) r.id ≡ b
          → (elim k [
            | read_only ↦ false
            | toggleable ↦
                if b
                then false
                else contains
                    (implied_of (expand_implied m.catalog (current_selection m)) r.section)
                    r.id
          ])
            ≡ true
          → IsSettled m r
      by_kind read_only b e k = cc
      by_kind toggleable true e k = cc
      by_kind toggleable false e k = inr k

  set_rows-settles :
      (sec : Section) (rows : List Row) (m : Model I)
      → OfSection sec rows
      → (i : ℕ) (r : Row) → get_elem? rows i ≡ some r
      → IsSettled (set_rows true sec rows m) r
  unfolding set_rows
  set_rows-settles sec [] m own i r at = cc
  set_rows-settles sec (first ∷ rows) m own zero r at =
      let same : first ≡ r = cc in
      rw (sym same) (elim (Bool-cases (is_implied_only m first)) [
        | inl implied ↦
            rw (set_rows, implied)
              (IsSettled-keeps m (set_rows true sec rows m) first (set_rows-Grows sec rows m)
                (is_implied_only-IsSettled m first implied))
        | inr free ↦
            (let m' = set_picked true sec first.id m in
              rw (set_rows, free)
                (IsSettled-keeps m' (set_rows true sec rows m') first (set_rows-Grows sec rows m') (
                  inl (
                    ap (λ (s : Section). contains (get m'.picked s) first.id) (own 0 first refl).0
                    ∙ set_picked-picks sec first.id m))))
      ])
  set_rows-settles sec (first ∷ rows) m own (suc i) r at =
      set_rows-settles sec rows _ (λ j r' there. own (suc j) r' there) i r at

  set_sections-Grows : (secs : List Section) (m : Model I) → Grows m (set_sections true secs m)
  unfolding set_sections
  set_sections-Grows [] m = Grows-refl m
  set_sections-Grows (sec ∷ secs) m =
      let m' = set_rows true sec (visible_toggleable m sec) m in
      Grows-trans m m' (set_sections true secs m') (set_rows-Grows sec (visible_toggleable m sec) m)
        (set_sections-Grows secs m')

  set_sections-settles :
      (secs : List Section) (m : Model I) (k : ℕ) (sec : Section) (i : ℕ) (r : Row)
      → get_elem? secs k ≡ some sec
      → get_elem? (visible_toggleable m sec) i ≡ some r
      → IsSettled (set_sections true secs m) r
  unfolding set_sections
  set_sections-settles [] m k sec i r in_tab at = cc
  set_sections-settles (s ∷ secs) m zero sec i r in_tab at =
      let same : s ≡ sec = cc in
      let m' = set_rows true sec (visible_toggleable m sec) m in
      rw same (
        IsSettled-keeps m' (set_sections true secs m') r (set_sections-Grows secs m')
          (set_rows-settles sec (visible_toggleable m sec) m (visible-OfSection m sec) i r at))
  set_sections-settles (s ∷ secs) m (suc k) sec i r in_tab at =
      let after = set_rows true s (visible_toggleable m s) m in
      set_sections-settles secs after k sec i r in_tab (
        ap (λ (rows : List Row). get_elem? rows i)
          (set_rows-visible true s (visible_toggleable m s) m sec)
        ∙ at)

  -- Where the search finds nothing, every visible row is settled.
  any_unpicked_row-none :
      (m : Model I) (sec : Section) (rows : List Row)
      → OfSection sec rows
      → any_unpicked_row m sec rows ≡ false
      → (i : ℕ) (r : Row) → get_elem? rows i ≡ some r
      → IsSettled m r
  unfolding any_unpicked_row
  any_unpicked_row-none m sec [] own h i r at = cc
  any_unpicked_row-none m sec (first ∷ rows) own h zero r at =
      let same : first ≡ r = cc in
      rw (sym same) (elim (Bool-cases (is_implied_only m first)) [
        | inl implied ↦ is_implied_only-IsSettled m first implied
        | inr free ↦ inl (
            ap (λ (s : Section). contains (get m.picked s) first.id) (own 0 first refl).0
            ∙ ground arith)
      ])
  any_unpicked_row-none m sec (first ∷ rows) own h (suc i) r at =
      any_unpicked_row-none m sec rows (λ j r' there. own (suc j) r' there) (ground arith) i r at

  any_unpicked-none :
      (secs : List Section) (m : Model I) (k : ℕ) (sec : Section) (i : ℕ) (r : Row)
      → any_unpicked m secs ≡ false
      → get_elem? secs k ≡ some sec
      → get_elem? (visible_toggleable m sec) i ≡ some r
      → IsSettled m r
  unfolding any_unpicked
  any_unpicked-none [] m k sec i r h in_tab at = cc
  any_unpicked-none (s ∷ secs) m zero sec i r h in_tab at =
      let same : s ≡ sec = cc in
      let none_here : any_unpicked_row m s (visible_toggleable m s) ≡ false = ground arith in
      any_unpicked_row-none m sec (visible_toggleable m sec) (visible-OfSection m sec)
        (ap (λ (x : Section). any_unpicked_row m x (visible_toggleable m x)) (sym same) ∙ none_here)
        i r at
  any_unpicked-none (s ∷ secs) m (suc k) sec i r h in_tab at =
      any_unpicked-none secs m k sec i r (ground arith) in_tab at

  -- Some visible row of some sections is neither picked in its section nor implied by the blueprints
  -- that are picked: then toggling all rows over these sections leaves every visible row of them picked
  -- in its section, or implied by the blueprints that are picked then.
  pub toggle_all_over-settles :
      (secs : List Section) (m : Model I) (k : ℕ) (sec : Section) (i : ℕ) (r : Row) (k' : ℕ)
      (sec' : Section) (i' : ℕ) (r' : Row)
      → get_elem? secs k ≡ some sec
      → get_elem? (visible_toggleable m sec) i ≡ some r
      → ¬ IsSettled m r
      → get_elem? secs k' ≡ some sec'
      → get_elem? (visible_toggleable m sec') i' ≡ some r'
      → IsSettled (toggle_all_over secs m) r'
  unfolding toggle_all_over
  toggle_all_over-settles secs m k sec i r k' sec' i' r' in_tab at unsettled in_tab' at' =
      elim (Bool-cases (any_unpicked m secs)) [
        | inl some_row ↦
            rw (toggle_all_over, some_row) (set_sections-settles secs m k' sec' i' r' in_tab' at')
        | inr nothing ↦ absurd (unsettled (any_unpicked-none secs m k sec i r nothing in_tab at))
      ]
