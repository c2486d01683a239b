-- ===== src/Sources/Available.antt =====
-- ludus-api/source_sync.go: the selection of an install, and what the walk of the source provides.
use ludus.Prelude.{
  ◌≡◌, refl, subst, Bool, true, false, inl, inr, Option, none, some, List, [], ◌∷◌, ◌++◌,
  Bool-cases, arith,
}
use ludus.Prelude.Text.{Text, contains_text, text_eq}
use ludus.Prelude.Splitting.{text_eq-equal}
use ludus.Prelude.Result.{Result, ok, err}
use ludus.Sources.{
  Checkout, WalkedBlueprint, WalkedSource, collection_fqcns, vendored_collection_fqcns,
  local_role_names_by_ref,
}
use ludus.Sources.Requirements.{
  parse_blueprint_config_refs, config_names, declared_from_requirements, no_texts,
}
use ludus.Sources.Selection.{
  InstallSelection, template_names, local_names, snapshot_walked_as_selection, add_unique,
  required_doc, shipped_by, add_deps, is_selected, expand_blueprints,
  expand_selection_with_blueprint_deps, Claims, still_available, claimed, Missing, missing_template,
  missing_blueprint, missing_local_role, missing_local_collection, missing_names,
  selection_from_claims, validate_selection_against_walk, validated, choose_selection, expanded,
  applied_selection,
}
use ludus.Sources.Within.{
  Within, add_shipped-Within, add_unique-Within, add_required_collections-Within,
  local_role_names_by_ref-NamesWithin, add_required_roles-Within, refs_of-Within,
}

-- What the walk provides.
pub record IsAvailable (c : Checkout) (walked : WalkedSource) (sel : InstallSelection)
    : Type 0 where
  pub blueprints_within : Within sel.blueprints (snapshot_walked_as_selection c walked).blueprints
  pub templates_within : Within sel.templates (snapshot_walked_as_selection c walked).templates
  pub local_roles_within :
      Within sel.local_roles (snapshot_walked_as_selection c walked).local_roles
  pub local_collections_within :
      Within sel.local_collections (snapshot_walked_as_selection c walked).local_collections

module _ (c : Checkout) (walked : WalkedSource) where
  add_deps-IsAvailable :
      (bp : WalkedBlueprint) (sel : InstallSelection)
      → IsAvailable c walked sel
      → IsAvailable c walked (add_deps c (shipped_by c walked) bp sel)
  unfolding add_deps parse_blueprint_config_refs shipped_by snapshot_walked_as_selection
      vendored_collection_fqcns
  add_deps-IsAvailable bp sel h =
      let names = local_role_names_by_ref-NamesWithin c walked in
      let refs = parse_blueprint_config_refs c bp (local_role_names_by_ref c walked) in
      let doc = required_doc c bp.requirements_yaml in
      let local_roles =
        refs_of-Within (declared_from_requirements c bp.requirements_yaml)
          (local_role_names_by_ref c walked) (config_names c bp.config_path)
          (local_names c walked.local_roles) names in
      record {
        blueprints_within = h.blueprints_within;
        templates_within =
            add_shipped-Within (template_names c walked.templates) sel.templates refs.templates
              h.templates_within;
        local_roles_within =
            add_required_roles-Within (local_role_names_by_ref c walked)
              (add_unique sel.local_roles refs.local_roles) doc.roles
              (local_names c walked.local_roles) names
              (add_unique-Within sel.local_roles refs.local_roles (local_names c walked.local_roles)
                h.local_roles_within local_roles);
        local_collections_within =
            add_required_collections-Within (collection_fqcns c walked.local_collections)
              sel.local_collections doc.collections h.local_collections_within;
      }

  expand_blueprints-IsAvailable :
      (bps : List WalkedBlueprint) (sel : InstallSelection)
      → IsAvailable c walked sel
      → IsAvailable c walked (expand_blueprints c (shipped_by c walked) bps sel)
  unfolding expand_blueprints
  expand_blueprints-IsAvailable [] sel h = h
  expand_blueprints-IsAvailable (bp ∷ bps) sel h = elim (Bool-cases (is_selected sel bp)) [
    | inl selected ↦ rw selected (
        expand_blueprints-IsAvailable bps (add_deps c (shipped_by c walked) bp sel)
          (add_deps-IsAvailable bp sel h))
    | inr other ↦ rw other (expand_blueprints-IsAvailable bps sel h)
  ]

  expand_selection_with_blueprint_deps-IsAvailable :
      (sel : InstallSelection)
      → IsAvailable c walked sel
      → IsAvailable c walked (expand_selection_with_blueprint_deps c sel walked)
  unfolding expand_selection_with_blueprint_deps
  expand_selection_with_blueprint_deps-IsAvailable sel h =
      let expanded = expand_blueprints-IsAvailable walked.blueprints sel h in
      elim (Bool-cases (no_texts sel.blueprints)) [
        | inl nothing ↦ rw nothing h
        | inr some_blueprint ↦ rw some_blueprint expanded
      ]

still_available-Within :
    (available names : List Text) → Within (still_available available names) available
unfolding still_available contains_text
still_available-Within available [] t h = cc
still_available-Within available (name ∷ names) t h =
    elim (Bool-cases (contains_text available name)) [
      | inl kept ↦ elim (Bool-cases (text_eq name t)) [
        | inl same ↦ subst (λ u. contains_text available u ≡ true) (text_eq-equal name t same) kept
        | inr other ↦ still_available-Within available names t (ground arith)
      ]
      | inr gone ↦ still_available-Within available names t (ground arith)
    ]

claimed-Within :
    (available : List Text) (rows : Option (List Text)) → Within (claimed available rows) available
unfolding claimed contains_text
claimed-Within available none t h = cc
claimed-Within available (some names) t h = still_available-Within available names t h

missing_names-Within :
    (label : Text → Missing) (available names : List Text)
    → missing_names label available names ≡ []
    → Within names available
unfolding missing_names contains_text
missing_names-Within label available [] h t e = cc
missing_names-Within label available (name ∷ names) h t e =
    elim (Bool-cases (contains_text available name)) [
      | inl here ↦ elim (Bool-cases (text_eq name t)) [
        | inl same ↦ subst (λ u. contains_text available u ≡ true) (text_eq-equal name t same) here
        | inr other ↦ missing_names-Within label available names (ground arith) t (ground arith)
      ]
      | inr absent ↦ ground arith
    ]

append-nil_first : (xs ys : List Missing) → xs ++ ys ≡ [] → xs ≡ []
append-nil_first [] ys h = refl
append-nil_first (x ∷ xs) ys h = cc

append-nil_second : (xs ys : List Missing) → xs ++ ys ≡ [] → ys ≡ []
append-nil_second [] ys h = h
append-nil_second (x ∷ xs) ys h = cc

validate_selection_against_walk-IsAvailable :
    (c : Checkout) (sel : InstallSelection) (walked : WalkedSource)
    → validate_selection_against_walk c sel walked ≡ []
    → IsAvailable c walked sel
unfolding validate_selection_against_walk
validate_selection_against_walk-IsAvailable c sel walked h =
    let available = snapshot_walked_as_selection c walked in
    let ts = missing_names missing_template available.templates sel.templates in
    let bs = missing_names missing_blueprint available.blueprints sel.blueprints in
    let rs = missing_names missing_local_role available.local_roles sel.local_roles in
    let cs =
      missing_names missing_local_collection available.local_collections sel.local_collections in
    let tbr = append-nil_first (ts ++ bs ++ rs) cs h in
    let tb = append-nil_first (ts ++ bs) rs tbr in
    record {
      blueprints_within =
          missing_names-Within missing_blueprint available.blueprints sel.blueprints
            (append-nil_second ts bs tb);
      templates_within =
          missing_names-Within missing_template available.templates sel.templates
            (append-nil_first ts bs tb);
      local_roles_within =
          missing_names-Within missing_local_role available.local_roles sel.local_roles
            (append-nil_second (ts ++ bs) rs tbr);
      local_collections_within =
          missing_names-Within missing_local_collection available.local_collections
            sel.local_collections (append-nil_second (ts ++ bs ++ rs) cs h);
    }

-- What `validated` lets through.
validated-ok :
    (missing : List Missing) (sel chosen : InstallSelection)
    → validated missing sel ≡ ok chosen
    → (missing ≡ []) × (sel ≡ chosen)
unfolding validated
validated-ok [] sel chosen h = (refl, cc)
validated-ok (m ∷ ms) sel chosen h = cc

choose_selection-IsAvailable :
    (c : Checkout) (from_claims : Bool) (requested : Option InstallSelection) (claims : Claims)
    (walked : WalkedSource) (sel : InstallSelection)
    → choose_selection c from_claims requested claims walked ≡ ok sel
    → IsAvailable c walked sel
unfolding choose_selection selection_from_claims
choose_selection-IsAvailable c true requested claims walked sel h =
    let available = snapshot_walked_as_selection c walked in
    let chosen : selection_from_claims c claims walked ≡ sel = cc in
    subst (IsAvailable c walked) chosen record {
      blueprints_within = claimed-Within available.blueprints claims.blueprint_claims;
      templates_within = claimed-Within available.templates claims.template_claims;
      local_roles_within = claimed-Within available.local_roles claims.role_claims;
      local_collections_within =
          claimed-Within available.local_collections claims.collection_claims;
    }
choose_selection-IsAvailable c false none claims walked sel h =
    let chosen : snapshot_walked_as_selection c walked ≡ sel = cc in
    subst (IsAvailable c walked) chosen record {
      blueprints_within = λ t e. e;
      templates_within = λ t e. e;
      local_roles_within = λ t e. e;
      local_collections_within = λ t e. e;
    }
choose_selection-IsAvailable c false (some asked) claims walked sel h =
    let (valid, chosen) =
      validated-ok (validate_selection_against_walk c asked walked) asked sel h in
    subst (IsAvailable c walked) chosen
      (validate_selection_against_walk-IsAvailable c asked walked valid)

expanded-ok :
    (c : Checkout) (walked : WalkedSource) (r : Result (List Missing) InstallSelection)
    (sel : InstallSelection)
    → expanded c walked r ≡ ok sel
    → (chosen : InstallSelection) × (r ≡ ok chosen)
      × (expand_selection_with_blueprint_deps c chosen walked ≡ sel)
unfolding expanded
expanded-ok c walked (err missing) sel h = cc
expanded-ok c walked (ok chosen) sel h = (chosen, refl, cc)

-- Where an install of a source goes on, with a requested selection, with none or with the claims of
-- the source, each blueprint, template, role and collection of the selection that it applies is one
-- that the walk of the source provides.
pub applied_selection-IsAvailable :
    (c : Checkout) (from_claims : Bool) (requested : Option InstallSelection) (claims : Claims)
    (walked : WalkedSource) (sel : InstallSelection)
    → applied_selection c from_claims requested claims walked ≡ ok sel
    → IsAvailable c walked sel
unfolding applied_selection
applied_selection-IsAvailable c from_claims requested claims walked sel h =
    let choice = choose_selection c from_claims requested claims walked in
    let (chosen, e, result) = expanded-ok c walked choice sel h in
    subst (IsAvailable c walked) result (
      expand_selection_with_blueprint_deps-IsAvailable c walked chosen
        (choose_selection-IsAvailable c from_claims requested claims walked chosen e))
