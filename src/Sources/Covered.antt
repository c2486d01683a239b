-- ===== src/Sources/Covered.antt =====
-- ludus-api/source_sync.go, source_install.go and blueprint_resolver.go: the requirements of a selected
-- blueprint. `installUnionedAnsible` strips what the source vendors from them, and
-- `expandSelectionWithBlueprintDeps` selects the local copies.
use ludus.Prelude.{
  ◌≡◌, refl, sym, ap, ◌∙◌, subst, true, false, ◌⊎◌, inl, inr, Option, none, some, List, [], ◌∷◌,
  ◌++◌, if◌then◌else◌, Bool-cases,
}
use ludus.Prelude.Text.{Text, contains_text}
use ludus.Sources.{
  RequirementsDoc, Checkout, BlueprintManifest, WalkedBlueprint, WalkedSource, name_of,
  vendored_collection_fqcns, local_role_names_by_ref,
}
use ludus.Sources.Requirements.{
  no_texts, role_names, requirement_collection_names, filtered_doc, parse_blueprint_config_refs,
}
use ludus.Sources.Selection.{
  InstallSelection, add_unique, required_doc, Shipped, shipped_by, add_deps, is_selected,
  expand_blueprints, expand_selection_with_blueprint_deps,
}
use ludus.Sources.Install.{vendored_roles}
use ludus.Sources.Within.{Within}
use ludus.Sources.Required.{
  add_shipped-keeps, add_unique-keeps, add_required_roles-keeps, add_required_roles-adds,
  add_required_collections-keeps, add_required_collections-adds, keep_roles-keeps,
  keep_collections-keeps, vendored_roles-known,
}

-- What an expansion never takes away.
pub record Extends (sel sel' : InstallSelection) : Type 0 where
  pub same_blueprints : sel.blueprints ≡ sel'.blueprints
  pub more_templates : Within sel.templates sel'.templates
  pub more_roles : Within sel.local_roles sel'.local_roles
  pub more_collections : Within sel.local_collections sel'.local_collections

Extends-refl : (sel : InstallSelection) → Extends sel sel
Extends-refl sel = record {
  same_blueprints = refl;
  more_templates = λ t h. h;
  more_roles = λ t h. h;
  more_collections = λ t h. h;
}

module _ (c : Checkout) (shipped : Shipped) where
  add_deps-Extends :
      (bp : WalkedBlueprint) (sel : InstallSelection) → Extends sel (add_deps c shipped bp sel)
  unfolding add_deps
  add_deps-Extends bp sel =
      let refs = parse_blueprint_config_refs c bp shipped.role_names_by_ref in
      let doc = required_doc c bp.requirements_yaml in
      let roles = add_unique sel.local_roles refs.local_roles in
      record {
        same_blueprints = refl;
        more_templates = add_shipped-keeps shipped.shipped_templates sel.templates refs.templates;
        more_roles = λ t h.
            add_required_roles-keeps shipped.role_names_by_ref roles doc.roles t
              (add_unique-keeps sel.local_roles refs.local_roles t h);
        more_collections =
            add_required_collections-keeps shipped.vendored_collections sel.local_collections
              doc.collections;
      }

  expand_blueprints-Extends :
      (bps : List WalkedBlueprint) (sel : InstallSelection)
      → Extends sel (expand_blueprints c shipped bps sel)
  unfolding expand_blueprints
  expand_blueprints-Extends [] sel = Extends-refl sel
  expand_blueprints-Extends (bp ∷ bps) sel =
      let sel' = if is_selected sel bp then add_deps c shipped bp sel else sel in
      let first : Extends sel sel' = elim (Bool-cases (is_selected sel bp)) [
        | inl selected ↦ rw selected (add_deps-Extends bp sel)
        | inr other ↦ rw other (Extends-refl sel)
      ] in
      let later = expand_blueprints-Extends bps sel' in
      record {
        same_blueprints = first.same_blueprints ∙ later.same_blueprints;
        more_templates = λ t h. later.more_templates t (first.more_templates t h);
        more_roles = λ t h. later.more_roles t (first.more_roles t h);
        more_collections = λ t h. later.more_collections t (first.more_collections t h);
      }

  expand_blueprints-append :
      (before after : List WalkedBlueprint) (sel : InstallSelection)
      → expand_blueprints c shipped (before ++ after) sel
        ≡ expand_blueprints c shipped after (expand_blueprints c shipped before sel)
  unfolding expand_blueprints
  expand_blueprints-append [] after sel = refl
  expand_blueprints-append (bp ∷ before) after sel =
      expand_blueprints-append before after
        (if is_selected sel bp then add_deps c shipped bp sel else sel)

  expand_blueprints-selected :
      (bp : WalkedBlueprint) (after : List WalkedBlueprint) (sel : InstallSelection)
      → is_selected sel bp ≡ true
      → expand_blueprints c shipped (bp ∷ after) sel
        ≡ expand_blueprints c shipped after (add_deps c shipped bp sel)
  unfolding expand_blueprints
  expand_blueprints-selected bp after sel h =
      ap (λ b. expand_blueprints c shipped after (if b then add_deps c shipped bp sel else sel)) h

is_selected-same :
    (bp : WalkedBlueprint) (sel sel' : InstallSelection)
    → sel.blueprints ≡ sel'.blueprints
    → is_selected sel bp ≡ is_selected sel' bp
unfolding is_selected
is_selected-same bp sel sel' e =
    ap (λ ids. elim bp.manifest [ none ↦ false | some m ↦ contains_text ids m.id ]) e

is_selected-no_texts :
    (bp : WalkedBlueprint) (sel : InstallSelection)
    → is_selected sel bp ≡ true
    → no_texts sel.blueprints ≡ false
unfolding is_selected contains_text
is_selected-no_texts bp sel h = go bp.manifest sel.blueprints h
  where
    go :
        (manifest : Option BlueprintManifest) (ids : List Text)
        → (elim manifest [ none ↦ false | some m ↦ contains_text ids m.id ]) ≡ true
        → no_texts ids ≡ false
    go none ids h = cc
    go (some m) [] h = cc
    go (some m) (id ∷ ids) h = refl

-- Each requirement is still there for Galaxy, or its local copy is selected.
pub record IsCovered (c : Checkout) (walked : WalkedSource) (doc : RequirementsDoc)
    (sel : InstallSelection) : Type 0 where
  pub roles_covered :
      (name : Text)
      → contains_text (role_names doc.roles) name ≡ true
      → (contains_text
            (role_names
              (filtered_doc
                (vendored_roles c walked.local_roles)
                (vendored_collection_fqcns c walked)
                doc).roles)
            name
          ≡ true)
        ⊎ (contains_text sel.local_roles (name_of (local_role_names_by_ref c walked) name) ≡ true)
  pub collections_covered :
      (name : Text)
      → contains_text (requirement_collection_names doc.collections) name ≡ true
      → (contains_text
            (requirement_collection_names
              (filtered_doc
                (vendored_roles c walked.local_roles)
                (vendored_collection_fqcns c walked)
                doc).collections)
            name
          ≡ true)
        ⊎ (contains_text sel.local_collections name ≡ true)

module _ (c : Checkout) (walked : WalkedSource) where
  add_deps-IsCovered :
      (bp : WalkedBlueprint) (sel sel' : InstallSelection)
      → Extends (add_deps c (shipped_by c walked) bp sel) sel'
      → IsCovered c walked (required_doc c bp.requirements_yaml) sel'
  unfolding filtered_doc add_deps shipped_by local_role_names_by_ref
  add_deps-IsCovered bp sel sel' extends =
      let vendored = vendored_roles c walked.local_roles in
      let fqcns = vendored_collection_fqcns c walked in
      let names = local_role_names_by_ref c walked in
      let refs = parse_blueprint_config_refs c bp names in
      let doc = required_doc c bp.requirements_yaml in
      record {
        roles_covered = λ name h. elim (Bool-cases (contains_text vendored name)) [
          | inl ours ↦
              (let known = vendored_roles-known c [] walked.local_roles name ours in
                inr (
                  extends.more_roles (name_of names name) (
                    add_required_roles-adds names (add_unique sel.local_roles refs.local_roles)
                      doc.roles name h known)))
          | inr foreign ↦ inl (keep_roles-keeps vendored doc.roles name h foreign)
        ];
        collections_covered = λ name h. elim (Bool-cases (contains_text fqcns name)) [
          | inl ours ↦ inr (
              extends.more_collections name (
                add_required_collections-adds fqcns sel.local_collections doc.collections name h
                  ours))
          | inr foreign ↦ inl (keep_collections-keeps fqcns doc.collections name h foreign)
        ];
      }

-- In an install, each role and collection that a selected blueprint requires is still in the
-- requirements that Ansible Galaxy gets, from which what the source vendors has been stripped, or the
-- expanded selection has the source's own copy of it.
pub expand_selection_with_blueprint_deps-IsCovered :
    (c : Checkout) (walked : WalkedSource) (sel : InstallSelection)
    (before after : List WalkedBlueprint) (bp : WalkedBlueprint)
    → walked.blueprints ≡ before ++ bp ∷ after
    → is_selected sel bp ≡ true
    → IsCovered c walked
        (required_doc c bp.requirements_yaml)
        (expand_selection_with_blueprint_deps c sel walked)
unfolding expand_selection_with_blueprint_deps
expand_selection_with_blueprint_deps-IsCovered c walked sel before after bp place selected =
    let shipped = shipped_by c walked in
    let sel1 = expand_blueprints c shipped before sel in
    let kept = expand_blueprints-Extends c shipped before sel in
    let still = sym (is_selected-same bp sel sel1 kept.same_blueprints) ∙ selected in
    let some_blueprint = is_selected-no_texts bp sel selected in
    let deps = add_deps c shipped bp sel1 in
    let loop : expand_blueprints c shipped walked.blueprints sel
        ≡ expand_blueprints c shipped after deps =
      ap (λ bps. expand_blueprints c shipped bps sel) place
      ∙ expand_blueprints-append c shipped before (bp ∷ after) sel
      ∙ expand_blueprints-selected c shipped bp after sel1 still in
    let covered =
      add_deps-IsCovered c walked bp sel1 (expand_blueprints c shipped after deps)
        (expand_blueprints-Extends c shipped after deps) in
    rw some_blueprint
      (subst (IsCovered c walked (required_doc c bp.requirements_yaml)) (sym loop) covered)
