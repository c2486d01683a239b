-- ===== src/Picker/Cursors.antt =====
-- update.go: the moves, and the invariant of the cursors and the active section.
use ludus.Prelude.{
  ℕ, zero, suc, ◌+◌, ◌-◌, ◌<◌, ◌≡◌, refl, ◌⊎◌, inl, inr, Bool, true, false, ◌||◌, Option, none,
  some, List, [], ◌∷◌, length, get_elem?, drop, ltb, leb, arith, if◌then◌else◌, Bool-cases,
  Option-cases,
}
use ludus.Picker.Catalog.{
  SourceCatalog, Section, blueprints, templates, local_roles, local_collections, Tab, blueprint_tab,
  template_tab, ansible_tab, all_tabs, everywhere, first_section, sections, section_eq, PerSection,
  get, put,
}
use ludus.Picker.Model.{Advanced, Model, visible_toggleable}
use ludus.Picker.Moves.{
  tab_has_content, visible_tabs, first_visible, switch_tab, go_to_tab, cycle_tab, section_index,
  ascend, cursor_up, descend, cursor_down, clamped, clamp_cursors, open_first_tab, new_model,
  row_count,
}

abbrev pub has_section : List Section → Section → Bool
has_section [] sec = false
has_section (s ∷ secs) sec = section_eq s sec || has_section secs sec

-- A cursor points to a row, or stands at 0.
abbrev pub Within : ℕ → ℕ → Type 0
Within c n = (c ≡ 0) ⊎ (c < n)

module _ {I : Type 0} where
  -- Every section's cursor is within its visible rows, and the active section is one of the active
  -- tab.
  pub record IsSane (m : Model I) : Type 0 where
    pub cursors : (sec : Section) → Within (get m.cursor sec) (row_count m sec)
    pub active_in_tab : has_section (sections m.active_tab) m.active ≡ true

put-Within :
    (n : Section → ℕ) (p : PerSection ℕ) (s : Section) (c : ℕ)
    → Within c (n s)
    → ((sec : Section) → Within (get p sec) (n sec))
    → (sec : Section) → Within (get (put p s c) sec) (n sec)
put-Within n p blueprints c h k blueprints = h
put-Within n p templates c h k templates = h
put-Within n p local_roles c h k local_roles = h
put-Within n p local_collections c h k local_collections = h
put-Within n p _ c h k sec = k sec

zero-Within : (n : ℕ) (sec : Section) → Within (get (everywhere {A = ℕ} 0) sec) n
zero-Within n blueprints = inl refl
zero-Within n templates = inl refl
zero-Within n local_roles = inl refl
zero-Within n local_collections = inl refl

clamped-Within : (n c : ℕ) → Within (clamped n c) n
unfolding clamped
clamped-Within n c = ground arith

section_eq_refl : (s : Section) → section_eq s s ≡ true
section_eq_refl blueprints = refl
section_eq_refl _ = refl

has_section-get_elem? :
    (secs : List Section) (i : ℕ) (sec : Section)
    → get_elem? secs i ≡ some sec
    → has_section secs sec ≡ true
has_section-get_elem? [] i sec h = cc
has_section-get_elem? (s ∷ secs) zero sec h = ground (arith, section_eq_refl s)
has_section-get_elem? (s ∷ secs) (suc i) sec h = ground (arith, has_section-get_elem? secs i sec h)

-- Every section of a list is one of the tab's.
abbrev AllIn : List Section → List Section → Type 0
AllIn secs [] = Unit
AllIn secs (sec ∷ rest) = (has_section secs sec ≡ true) × AllIn secs rest

later_sections : (t : Tab) (n : ℕ) → AllIn (sections t) (drop n (sections t))
unfolding sections
later_sections blueprint_tab zero = (refl, tt)
later_sections blueprint_tab (suc zero) = tt
later_sections blueprint_tab (suc (suc n)) = tt
later_sections template_tab zero = (refl, tt)
later_sections template_tab (suc zero) = tt
later_sections template_tab (suc (suc n)) = tt
later_sections ansible_tab zero = (refl, (refl, tt))
later_sections ansible_tab (suc zero) = (refl, tt)
later_sections ansible_tab (suc (suc zero)) = tt
later_sections ansible_tab (suc (suc (suc n))) = tt

module _ {I : Type 0} where
  pub clamp_cursors-IsSane :
      (m : Model I) → has_section (sections m.active_tab) m.active ≡ true → IsSane (clamp_cursors m)
  unfolding clamp_cursors visible_toggleable
  clamp_cursors-IsSane m h = record { cursors = within; active_in_tab = h }
    where
      within :
          (sec : Section)
          → Within (get (clamp_cursors m).cursor sec) (row_count (clamp_cursors m) sec)
      within blueprints = clamped-Within (row_count m blueprints) m.cursor.at_blueprints
      within templates = clamped-Within (row_count m templates) m.cursor.at_templates
      within local_roles = clamped-Within (row_count m local_roles) m.cursor.at_local_roles
      within local_collections =
          clamped-Within (row_count m local_collections) m.cursor.at_local_collections

  first_visible-in_tab :
      (m : Model I) (t : Tab)
      → has_section (sections t) (first_visible m (first_section t) (sections t)) ≡ true
  unfolding first_visible first_section sections
  first_visible-in_tab m blueprint_tab = ground arith
  first_visible-in_tab m template_tab = ground arith
  first_visible-in_tab m ansible_tab = ground arith

  pub switch_tab-IsSane : (t : Tab) (m : Model I) → IsSane m → IsSane (switch_tab t m)
  unfolding switch_tab visible_toggleable
  switch_tab-IsSane t m s = record { cursors = s.cursors; active_in_tab = first_visible-in_tab m t }

  -- The cursor of a section is moved to a row, or to 0, and the section is made active.
  pub move_to :
      (m : Model I) (sec : Section) (c : ℕ)
      → has_section (sections m.active_tab) sec ≡ true
      → Within c (row_count m sec)
      → IsSane m
      → IsSane (record m { active = sec; cursor = put m.cursor sec c })
  unfolding visible_toggleable
  move_to m sec c h w s = record {
    cursors = put-Within (row_count m) m.cursor sec c w s.cursors;
    active_in_tab = h;
  }

  ascend-IsSane : (i : ℕ) (m : Model I) → IsSane m → IsSane (ascend (sections m.active_tab) i m).1
  unfolding ascend
  ascend-IsSane zero m s = s
  ascend-IsSane (suc i) m s = elim (Option-cases (get_elem? (sections m.active_tab) i)) [
    | inl e ↦ rw (ascend, e) s
    | inr (sec, e) ↦ elim (Bool-cases (leb 1 (row_count m sec))) [
      | inl some_row ↦
          rw (ascend, e, some_row)
            (move_to m sec (row_count m sec - 1) (has_section-get_elem? _ i sec e)
              (inr (ground arith)) s)
      | inr empty ↦ rw (ascend, e, empty) (ascend-IsSane i m s)
    ]
  ]

  pub cursor_up-IsSane : (m : Model I) → IsSane m → IsSane (cursor_up m).1
  unfolding cursor_up
  cursor_up-IsSane m s = elim (Bool-cases (leb 1 (get m.cursor m.active))) [
    | inl above ↦
        rw (cursor_up, above)
          (move_to m m.active (get m.cursor m.active - 1) s.active_in_tab
            (ground (arith, s.cursors m.active)) s)
    | inr top ↦
        rw (cursor_up, top) (ascend-IsSane (section_index 0 (sections m.active_tab) m.active) m s)
  ]

  descend-IsSane :
      (secs : List Section) (m : Model I)
      → AllIn (sections m.active_tab) secs
      → IsSane m
      → IsSane (descend secs m)
  unfolding descend
  descend-IsSane [] m h s = s
  descend-IsSane (sec ∷ secs) m h s = elim (Bool-cases (leb 1 (row_count m sec))) [
    | inl some_row ↦ rw (descend, some_row) (move_to m sec 0 h.0 (inl refl) s)
    | inr empty ↦ rw (descend, empty) (descend-IsSane secs m h.1 s)
  ]

  pub cursor_down-IsSane : (m : Model I) → IsSane m → IsSane (cursor_down m)
  unfolding cursor_down
  cursor_down-IsSane m s =
      elim (Bool-cases (ltb (get m.cursor m.active) (row_count m m.active - 1))) [
        | inl above ↦
            rw (cursor_down, above)
              (move_to m m.active (get m.cursor m.active + 1) s.active_in_tab (inr (ground arith))
                s)
        | inr bottom ↦
            rw (cursor_down, bottom)
              (descend-IsSane _ m
                (later_sections m.active_tab
                  (suc (section_index 0 (sections m.active_tab) m.active)))
                s)
      ]

  go_to_tab-IsSane : (t : Option Tab) (m : Model I) → IsSane m → IsSane (go_to_tab t m)
  unfolding go_to_tab
  go_to_tab-IsSane none m s = s
  go_to_tab-IsSane (some t) m s = switch_tab-IsSane t m s

  pub cycle_tab-IsSane : (forward : Bool) (m : Model I) → IsSane m → IsSane (cycle_tab forward m)
  unfolding cycle_tab
  cycle_tab-IsSane forward m s = elim (Bool-cases (ltb (length (visible_tabs m)) 2)) [
    | inl few ↦ rw (cycle_tab, few) s
    | inr more ↦ rw (cycle_tab, more) (go_to_tab-IsSane _ m s)
  ]

  pub if-IsSane : (b : Bool) {m m' : Model I} → IsSane m → IsSane m' → IsSane (if b then m else m')
  if-IsSane true s s' = s
  if-IsSane false s s' = s'

  open_first_tab-IsSane : (ts : List Tab) (m : Model I) → IsSane m → IsSane (open_first_tab ts m)
  unfolding open_first_tab
  open_first_tab-IsSane [] m s = s
  open_first_tab-IsSane (t ∷ ts) m s = elim (Bool-cases (tab_has_content m t)) [
    | inl content ↦ rw (open_first_tab, content) (switch_tab-IsSane t m s)
    | inr none_there ↦ rw (open_first_tab, none_there) (open_first_tab-IsSane ts m s)
  ]

  pub new_model-IsSane :
      (input : I) (catalog : SourceCatalog) (adv : Advanced) → IsSane (new_model input catalog adv)
  unfolding new_model visible_toggleable sections
  new_model-IsSane input catalog adv =
      open_first_tab-IsSane all_tabs _
        (record { cursors = λ sec. zero-Within _ sec; active_in_tab = refl })
