-- ===== src/Picker/Clearing.antt =====
-- update.go, `toggleAllOver`: unchecking the visible rows.
use ludus.Prelude.{
  ℕ, zero, suc, ◌≡◌, refl, sym, ap, ◌∙◌, ◌⊎◌, inl, inr, String, Bool, true, false, some, List, [],
  ◌∷◌, get_elem?, contains, if◌then◌else◌, Bool-cases, arith,
}
use ludus.Picker.Catalog.{
  SourceCatalog, CatalogBlueprint, CatalogItem, Section, blueprints, templates, local_roles,
  local_collections, get,
}
use ludus.Picker.Model.{
  Row, RowKind, toggleable, read_only, Model, is_implied_only, all_rows, keep_matching,
  matches_filter, visible_toggleable, implied_of, expand_implied, current_selection, blueprint_rows,
  template_rows, scoped_rows,
}
use ludus.Prelude.Text.{Text}
use ludus.Picker.Toggle.{
  uncheck, set_picked, set_rows, set_sections, any_unpicked_row, any_unpicked, toggle_all_over,
}

uncheck_lem : (id : String) (xs : List String) → contains (uncheck id xs) id ≡ false
unfolding contains uncheck
uncheck_lem id [] = refl
uncheck_lem id (x ∷ xs) = ground (arith, uncheck_lem id xs)

contains-uncheck :
    (id x : String) (xs : List String) → contains xs x ≡ false → contains (uncheck id xs) x ≡ false
unfolding contains uncheck
contains-uncheck id x [] h = refl
contains-uncheck id x (y ∷ ys) h = ground (arith, contains-uncheck id x ys)

-- Each row of the list belongs to the section, and can be toggled.
abbrev pub OfSection : Section → List Row → Type 0
OfSection sec rows =
    (i : ℕ) (r : Row) → get_elem? rows i ≡ some r → (r.section ≡ sec) × (r.kind ≡ toggleable)

cons-OfSection :
    (sec : Section) (r : Row) (rows : List Row)
    → r.section ≡ sec
    → r.kind ≡ toggleable
    → OfSection sec rows
    → OfSection sec (r ∷ rows)
cons-OfSection sec r rows h t own zero r' at =
    let same : r ≡ r' = cc in
    (sym (ap (λ (x : Row). x.section) same) ∙ h, sym (ap (λ (x : Row). x.kind) same) ∙ t)
cons-OfSection sec r rows h t own (suc i) r' at = own i r' at

nil-OfSection : (sec : Section) → OfSection sec []
nil-OfSection sec i r at = cc

keep_matching-OfSection :
    (filter : Text) (sec : Section) (rows : List Row)
    → OfSection sec rows
    → OfSection sec (keep_matching filter rows)
unfolding keep_matching
keep_matching-OfSection filter sec [] own = nil-OfSection sec
keep_matching-OfSection filter sec (r ∷ rows) own =
    by_match (matches_filter filter r)
      (keep_matching-OfSection filter sec rows (λ i r' at. own (suc i) r' at))
  where
    by_match :
        (b : Bool)
        → OfSection sec (keep_matching filter rows)
        → OfSection sec (if b then r ∷ keep_matching filter rows else keep_matching filter rows)
    by_match true later =
        cons-OfSection sec r (keep_matching filter rows) (own 0 r refl).0 (own 0 r refl).1 later
    by_match false later = later

of_items : (sec : Section) (items : List CatalogItem) → OfSection sec (scoped_rows sec items)
unfolding all_rows
of_items sec [] = nil-OfSection sec
of_items sec (item ∷ items) = cons-OfSection sec _ _ refl refl (of_items sec items)

all_rows-OfSection : (c : SourceCatalog) (sec : Section) → OfSection sec (all_rows c sec)
unfolding all_rows
all_rows-OfSection c blueprints = of_blueprints c.blueprints
  where
    of_blueprints : (bps : List CatalogBlueprint) → OfSection blueprints (blueprint_rows bps)
    of_blueprints [] = nil-OfSection blueprints
    of_blueprints (bp ∷ bps) = cons-OfSection blueprints _ _ refl refl (of_blueprints bps)
all_rows-OfSection c templates = of_templates c.templates
  where
    of_templates : (ts : List CatalogItem) → OfSection templates (template_rows ts)
    of_templates [] = nil-OfSection templates
    of_templates (t ∷ ts) = cons-OfSection templates _ _ refl refl (of_templates ts)
all_rows-OfSection c local_roles = of_items local_roles c.local_roles
all_rows-OfSection c local_collections = of_items local_collections c.local_collections

module _ {I : Type 0} where
  -- Picked, or implied by the blueprints that are picked.
  abbrev pub IsSettled : Model I → Row → Type 0
  IsSettled m r =
      (contains (get m.picked r.section) r.id ≡ true)
      ⊎ (contains (implied_of (expand_implied m.catalog (current_selection m)) r.section) r.id
          ≡ true)

  -- Unchecking checks nothing.
  set_picked-keeps :
      (sec : Section) (id : String) (m : Model I) (sec' : Section) (x : String)
      → contains (get m.picked sec') x ≡ false
      → contains (get (set_picked false sec id m).picked sec') x ≡ false
  unfolding set_picked
  set_picked-keeps blueprints id m blueprints x h = contains-uncheck id x m.picked.at_blueprints h
  set_picked-keeps templates id m templates x h = contains-uncheck id x m.picked.at_templates h
  set_picked-keeps local_roles id m local_roles x h =
      contains-uncheck id x m.picked.at_local_roles h
  set_picked-keeps local_collections id m local_collections x h =
      contains-uncheck id x m.picked.at_local_collections h
  set_picked-keeps _ id m _ x h = h

  set_picked-clears :
      (sec : Section) (id : String) (m : Model I)
      → contains (get (set_picked false sec id m).picked sec) id ≡ false
  unfolding set_picked
  set_picked-clears blueprints id m = uncheck_lem id m.picked.at_blueprints
  set_picked-clears templates id m = uncheck_lem id m.picked.at_templates
  set_picked-clears local_roles id m = uncheck_lem id m.picked.at_local_roles
  set_picked-clears local_collections id m = uncheck_lem id m.picked.at_local_collections

  set_rows-keeps :
      (sec : Section) (rows : List Row) (m : Model I) (sec' : Section) (x : String)
      → contains (get m.picked sec') x ≡ false
      → contains (get (set_rows false sec rows m).picked sec') x ≡ false
  unfolding set_rows
  set_rows-keeps sec [] m sec' x h = h
  set_rows-keeps sec (r ∷ rows) m sec' x h = elim (Bool-cases (is_implied_only m r)) [
    | inl implied ↦ rw (set_rows, implied) (set_rows-keeps sec rows m sec' x h)
    | inr free ↦
        rw (set_rows, free)
          (set_rows-keeps sec rows (set_picked false sec r.id m) sec' x
            (set_picked-keeps sec r.id m sec' x h))
  ]

  -- A row that is implied only is not picked in its own section.
  is_implied_only-unpicked :
      (m : Model I) (r : Row)
      → is_implied_only m r ≡ true
      → contains (get m.picked r.section) r.id ≡ false
  unfolding is_implied_only
  is_implied_only-unpicked m r h = by_kind r.kind (contains (get m.picked r.section) r.id) refl h
    where
      rest : Bool
      rest = contains (implied_of (expand_implied m.catalog (current_selection m)) r.section) r.id

      by_kind :
          (k : RowKind) (b : Bool)
          → contains (get m.picked r.section) r.id ≡ b
          → (elim k [ read_only ↦ false | toggleable ↦ if b then false else rest ]) ≡ true
          → contains (get m.picked r.section) r.id ≡ false
      by_kind read_only b e k = cc
      by_kind toggleable true e k = cc
      by_kind toggleable false e k = e

  set_rows-clears :
      (sec : Section) (rows : List Row) (m : Model I)
      → OfSection sec rows
      → (i : ℕ) (r : Row) → get_elem? rows i ≡ some r
      → contains (get (set_rows false sec rows m).picked sec) r.id ≡ false
  unfolding set_rows
  set_rows-clears sec [] m own i r at = cc
  set_rows-clears sec (first ∷ rows) m own zero r at =
      let same : first ≡ r = cc in
      rw (sym same) (elim (Bool-cases (is_implied_only m first)) [
        | inl implied ↦
            rw (set_rows, implied)
              (set_rows-keeps sec rows m sec first.id (
                ap (λ (s : Section). contains (get m.picked s) first.id) (sym (own 0 first refl).0)
                ∙ is_implied_only-unpicked m first implied))
        | inr free ↦
            rw (set_rows, free)
              (set_rows-keeps sec rows (set_picked false sec first.id m) sec first.id
                (set_picked-clears sec first.id m))
      ])
  set_rows-clears sec (first ∷ rows) m own (suc i) r at =
      set_rows-clears sec rows _ (λ j r' there. own (suc j) r' there) i r at

  set_picked-visible :
      (pick : Bool) (sec : Section) (id : String) (m : Model I) (sec' : Section)
      → visible_toggleable (set_picked pick sec id m) sec' ≡ visible_toggleable m sec'
  unfolding set_picked visible_toggleable
  set_picked-visible true sec id m sec' = refl
  set_picked-visible false sec id m sec' = refl

  pub set_rows-visible :
      (pick : Bool) (sec : Section) (rows : List Row) (m : Model I) (sec' : Section)
      → visible_toggleable (set_rows pick sec rows m) sec' ≡ visible_toggleable m sec'
  unfolding set_rows
  set_rows-visible pick sec [] m sec' = refl
  set_rows-visible pick sec (r ∷ rows) m sec' = elim (Bool-cases (is_implied_only m r)) [
    | inl implied ↦ rw (set_rows, implied) (set_rows-visible pick sec rows m sec')
    | inr free ↦
        rw (set_rows, free)
          (set_rows-visible pick sec rows (set_picked pick sec r.id m) sec'
            ∙ set_picked-visible pick sec r.id m sec')
  ]

  set_sections-keeps :
      (secs : List Section) (m : Model I) (sec' : Section) (x : String)
      → contains (get m.picked sec') x ≡ false
      → contains (get (set_sections false secs m).picked sec') x ≡ false
  unfolding set_sections
  set_sections-keeps [] m sec' x h = h
  set_sections-keeps (sec ∷ secs) m sec' x h =
      set_sections-keeps secs _ sec' x (set_rows-keeps sec (visible_toggleable m sec) m sec' x h)

  pub visible-OfSection : (m : Model I) (sec : Section) → OfSection sec (visible_toggleable m sec)
  unfolding visible_toggleable
  visible-OfSection m sec =
      keep_matching-OfSection m.filter sec (all_rows m.catalog sec)
        (all_rows-OfSection m.catalog sec)

  set_sections-clears :
      (secs : List Section) (m : Model I) (k : ℕ) (sec : Section) (i : ℕ) (r : Row)
      → get_elem? secs k ≡ some sec
      → get_elem? (visible_toggleable m sec) i ≡ some r
      → contains (get (set_sections false secs m).picked sec) r.id ≡ false
  unfolding set_sections
  set_sections-clears [] m k sec i r in_tab at = cc
  set_sections-clears (s ∷ secs) m zero sec i r in_tab at =
      let same : s ≡ sec = cc in
      rw same (
        set_sections-keeps secs (set_rows false sec (visible_toggleable m sec) m) sec r.id
          (set_rows-clears sec (visible_toggleable m sec) m (visible-OfSection m sec) i r at))
  set_sections-clears (s ∷ secs) m (suc k) sec i r in_tab at =
      let after = set_rows false s (visible_toggleable m s) m in
      set_sections-clears secs after k sec i r in_tab (
        ap (λ (rows : List Row). get_elem? rows i)
          (set_rows-visible false s (visible_toggleable m s) m sec)
        ∙ at)

  -- A row that is not implied only, and is implied, is picked.
  picked_of_implied :
      (m : Model I) (r : Row)
      → r.kind ≡ toggleable
      → IsSettled m r
      → is_implied_only m r ≡ false
      → contains (get m.picked r.section) r.id ≡ true
  unfolding is_implied_only
  picked_of_implied m r t (inl picked) free = picked
  picked_of_implied m r t (inr implied) free =
      by_kind r.kind (contains (get m.picked r.section) r.id) refl t free
    where
      by_kind :
          (k : RowKind) (b : Bool)
          → contains (get m.picked r.section) r.id ≡ b
          → k ≡ toggleable
          → (elim k [
            | read_only ↦ false
            | toggleable ↦
                if b
                then false
                else contains
                    (implied_of (expand_implied m.catalog (current_selection m)) r.section)
                    r.id
          ])
            ≡ false
          → contains (get m.picked r.section) r.id ≡ true
      by_kind read_only b e k f = cc
      by_kind toggleable true e k f = e
      by_kind toggleable false e k f = cc

  any_unpicked_row-settled :
      (m : Model I) (sec : Section) (rows : List Row)
      → OfSection sec rows
      → ((i : ℕ) (r : Row) → get_elem? rows i ≡ some r → IsSettled m r)
      → any_unpicked_row m sec rows ≡ false
  unfolding any_unpicked_row
  any_unpicked_row-settled m sec [] own settled = refl
  any_unpicked_row-settled m sec (r ∷ rows) own settled =
      let rest =
        any_unpicked_row-settled m sec rows (λ i r' at. own (suc i) r' at)
          (λ i r' at. settled (suc i) r' at) in
      elim (Bool-cases (is_implied_only m r)) [
        | inl implied ↦ rw (any_unpicked_row, implied) rest
        | inr free ↦
            (let picked : contains (get m.picked sec) r.id ≡ true =
                ap (λ (s : Section). contains (get m.picked s) r.id) (sym (own 0 r refl).0)
                ∙ picked_of_implied m r (own 0 r refl).1 (settled 0 r refl) free in
              rw (any_unpicked_row, free, picked) rest)
      ]

  any_unpicked-settled :
      (secs : List Section) (m : Model I)
      → ((k : ℕ) (sec : Section) (i : ℕ) (r : Row)
          → get_elem? secs k ≡ some sec
          → get_elem? (visible_toggleable m sec) i ≡ some r
          → IsSettled m r)
      → any_unpicked m secs ≡ false
  unfolding any_unpicked
  any_unpicked-settled [] m settled = refl
  any_unpicked-settled (sec ∷ secs) m settled =
      let here =
        any_unpicked_row-settled m sec (visible_toggleable m sec) (visible-OfSection m sec)
          (λ i r at. settled 0 sec i r refl at) in
      rw (any_unpicked, here)
        (any_unpicked-settled secs m (λ k s i r in_tab at. settled (suc k) s i r in_tab at))

  -- Every visible row of some sections is picked in its section, or implied by the blueprints that are
  -- picked: then toggling all rows over these sections leaves none of the visible rows picked in its
  -- section.
  pub toggle_all_over-clears :
      (secs : List Section) (m : Model I) (k : ℕ) (sec : Section) (i : ℕ) (r : Row)
      → ((k' : ℕ) (sec' : Section) (i' : ℕ) (r' : Row)
          → get_elem? secs k' ≡ some sec'
          → get_elem? (visible_toggleable m sec') i' ≡ some r'
          → IsSettled m r')
      → get_elem? secs k ≡ some sec
      → get_elem? (visible_toggleable m sec) i ≡ some r
      → contains (get (toggle_all_over secs m).picked sec) r.id ≡ false
  unfolding toggle_all_over
  toggle_all_over-clears secs m k sec i r settled in_tab at =
      rw (any_unpicked-settled secs m settled) (set_sections-clears secs m k sec i r in_tab at)
