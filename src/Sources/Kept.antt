-- ===== src/Sources/Kept.antt =====
-- ludus-api/source_sync.go, source_install.go and blueprint_resolver.go: the claims that the ledger
-- has before an install.
use ludus.Prelude.{
  ◌≡◌, refl, ◌∙◌, Bool, true, false, ◌&&◌, inl, inr, List, [], ◌∷◌, Bool-cases, Option-cases,
}
use ludus.Prelude.Text.{Text, codes, is_empty}
use ludus.Sources.{Checkout, WalkedBlueprint, WalkedSource, Names}
use ludus.Sources.Requirements.{declared_from_requirements}
use ludus.Sources.Selection.{InstallSelection, is_selected}
use ludus.Sources.Install.{
  ArtifactKind, galaxy_role, collection, subscription_role, Artifact, InstallWorld, has_claim,
  AnsibleInstallResult, insert_source_artifact, register_templates, register_local_roles,
}
use ludus.Sources.Distinct.{
  IsWritable, is_distinct, insert_source_artifact-is_distinct, insert_source_artifact-has_claim,
}
use ludus.Sources.Ledger.{
  register_templates-ClaimsMade, register_local_roles-ClaimsMade,
  register_local_collections-ClaimsMade,
}
use ludus.Sources.Galaxy.{
  GalaxyWorld, Vendored, dir_of_name, vendored_by, vendored_result, claim_result, claim_results,
  galaxy_requirements, has_requirements_roles, has_requirements_collections,
  install_vendored_galaxy_roles, install_galaxy_roles, install_galaxy_collections,
  install_subscription_roles, subscription_result, subscription_failure,
  install_roles_for_blueprint, install_for_blueprints, install_unioned_ansible,
}
use ludus.Sources.Sync.{SyncOptions, register_local, install_artifacts}

-- A step of the ledger that has no claim twice and loses none.
record Kept (ledger ledger' : List Artifact) : Type 0 where
  distinct : is_distinct ledger' ≡ true
  keeps :
      (s : Text) (k : ArtifactKind) (n : Text)
      → has_claim s k n ledger ≡ true
      → has_claim s k n ledger' ≡ true

Kept-refl : (ledger : List Artifact) → is_distinct ledger ≡ true → Kept ledger ledger
Kept-refl ledger h = record { distinct = h; keeps = λ s k n e. e }

Kept-trans :
    (ledger ledger' ledger'' : List Artifact)
    → Kept ledger ledger'
    → Kept ledger' ledger''
    → Kept ledger ledger''
Kept-trans ledger ledger' ledger'' first second = record {
  distinct = second.distinct;
  keeps = λ s k n e. second.keeps s k n (first.keeps s k n e);
}

module _ (w : InstallWorld) (source : Text) (writable : IsWritable w) where
  insert_source_artifact-Kept :
      (kind : ArtifactKind) (name version : Text) (ledger : List Artifact)
      → is_distinct ledger ≡ true
      → Kept ledger (insert_source_artifact w source kind name version ledger)
  insert_source_artifact-Kept kind name version ledger h = record {
    distinct =
        insert_source_artifact-is_distinct w source kind name version ledger writable.queries h;
    keeps = λ s k n e.
        insert_source_artifact-has_claim w source kind name version ledger s k n writable
        ∙ rw e refl;
  }

  claim_result-Kept :
      (kind : ArtifactKind) (named : Bool) (r : AnsibleInstallResult) (ledger : List Artifact)
      → is_distinct ledger ≡ true
      → Kept ledger (claim_result w source kind named r ledger)
  unfolding claim_result
  claim_result-Kept kind named r ledger h = elim (Option-cases r.failure) [
    | inr (message, failed) ↦ rw failed (Kept-refl ledger h)
    | inl fine ↦ rw fine (elim (Bool-cases (named && is_empty r.result_name)) [
      | inl unnamed ↦ rw unnamed (Kept-refl ledger h)
      | inr has_name ↦
          rw has_name (insert_source_artifact-Kept kind r.result_name r.result_version ledger h)
    ])
  ]

  claim_results-Kept :
      (kind : ArtifactKind) (label : Text) (named : Bool) (rs : List AnsibleInstallResult)
      (ledger : List Artifact)
      → is_distinct ledger ≡ true
      → Kept ledger (claim_results w source kind label named rs ledger).1
  unfolding claim_results
  claim_results-Kept kind label named [] ledger h = Kept-refl ledger h
  claim_results-Kept kind label named (r ∷ rs) ledger h =
      let ledger' = claim_result w source kind named r ledger in
      let first = claim_result-Kept kind named r ledger h in
      Kept-trans ledger ledger' (claim_results w source kind label named rs ledger').1 first
        (claim_results-Kept kind label named rs ledger' first.distinct)

  module _ (g : GalaxyWorld) where
    install_vendored_galaxy_roles-Kept :
        (vendored : Names) (names : List Text) (ledger : List Artifact)
        → is_distinct ledger ≡ true
        → Kept ledger (install_vendored_galaxy_roles g w source vendored names ledger).1
    unfolding install_vendored_galaxy_roles
    install_vendored_galaxy_roles-Kept vendored [] ledger h = Kept-refl ledger h
    install_vendored_galaxy_roles-Kept vendored (name ∷ names) ledger h =
        elim (Option-cases (dir_of_name vendored name)) [
          | inl missing ↦
              rw (missing, install_vendored_galaxy_roles)
                (install_vendored_galaxy_roles-Kept vendored names ledger h)
          | inr (dir, found) ↦
              (let r = vendored_result g dir name in
                let ledger' = claim_result w source galaxy_role false r ledger in
                let first = claim_result-Kept galaxy_role false r ledger h in
                let rest = install_vendored_galaxy_roles g w source vendored names ledger' in
                rw (found, install_vendored_galaxy_roles)
                  (Kept-trans ledger ledger' rest.1 first
                    (install_vendored_galaxy_roles-Kept vendored names ledger' first.distinct)))
        ]

    install_subscription_roles-Kept :
        (names : List Text) (ledger : List Artifact)
        → is_distinct ledger ≡ true
        → Kept ledger (install_subscription_roles g w source names ledger).1
    unfolding install_subscription_roles
    install_subscription_roles-Kept [] ledger h = Kept-refl ledger h
    install_subscription_roles-Kept (name ∷ names) ledger h =
        let r = subscription_result g name in
        let ledger' = claim_result w source subscription_role false r ledger in
        let first = claim_result-Kept subscription_role false r ledger h in
        Kept-trans ledger ledger' (install_subscription_roles g w source names ledger').1 first
          (install_subscription_roles-Kept names ledger' first.distinct)

    module _ (c : Checkout) where
      install_galaxy_roles-Kept :
          (requirements : Text) (ledger : List Artifact)
          → is_distinct ledger ≡ true
          → Kept ledger (install_galaxy_roles c g w source requirements ledger).1
      unfolding install_galaxy_roles
      install_galaxy_roles-Kept requirements ledger h =
          elim (Bool-cases (has_requirements_roles c requirements)) [
            | inl some_role ↦ rw some_role (
                claim_results-Kept galaxy_role (codes "role") false
                  (g.version_mismatches (g.install_roles requirements).run_results requirements)
                  ledger h)
            | inr no_role ↦ rw no_role (Kept-refl ledger h)
          ]

      install_galaxy_collections-Kept :
          (requirements : Text) (ledger : List Artifact)
          → is_distinct ledger ≡ true
          → Kept ledger (install_galaxy_collections c g w source requirements ledger).1
      unfolding install_galaxy_collections
      install_galaxy_collections-Kept requirements ledger h =
          elim (Bool-cases (has_requirements_collections c requirements)) [
            | inl one ↦ rw one (
                claim_results-Kept collection (codes "collection") true
                  (g.install_collections requirements).run_results ledger h)
            | inr nothing ↦ rw nothing (Kept-refl ledger h)
          ]

      install_roles_for_blueprint-Kept :
          (v : Vendored) (bp : WalkedBlueprint) (ledger : List Artifact)
          → is_distinct ledger ≡ true
          → Kept ledger (install_roles_for_blueprint c g w source v bp ledger).1
      unfolding install_roles_for_blueprint
      install_roles_for_blueprint-Kept v bp ledger h =
          let declared = declared_from_requirements c bp.requirements_yaml in
          let requirements = galaxy_requirements c v bp.requirements_yaml in
          let local =
            install_vendored_galaxy_roles g w source v.vendored_role_galaxy declared.roles ledger in
          let roles = install_galaxy_roles c g w source requirements local.1 in
          let cols = install_galaxy_collections c g w source requirements roles.1 in
          let sub = install_subscription_roles g w source declared.subscription_roles cols.1 in
          let first =
            install_vendored_galaxy_roles-Kept v.vendored_role_galaxy declared.roles ledger h in
          let second = install_galaxy_roles-Kept requirements local.1 first.distinct in
          let third = install_galaxy_collections-Kept requirements roles.1 second.distinct in
          let fourth =
            install_subscription_roles-Kept declared.subscription_roles cols.1 third.distinct in
          elim (Option-cases (subscription_failure g declared.subscription_roles)) [
            | inr (r, refused) ↦ rw (refused, install_roles_for_blueprint) (Kept-refl ledger h)
            | inl accepted ↦
                rw (accepted, install_roles_for_blueprint)
                  (Kept-trans ledger local.1 sub.1 first (
                    Kept-trans local.1 roles.1 sub.1 second
                      (Kept-trans roles.1 cols.1 sub.1 third fourth)))
          ]

      install_for_blueprints-Kept :
          (v : Vendored) (sel : InstallSelection) (bps : List WalkedBlueprint)
          (ledger : List Artifact)
          → is_distinct ledger ≡ true
          → Kept ledger (install_for_blueprints c g w source v sel bps ledger).1
      unfolding install_for_blueprints
      install_for_blueprints-Kept v sel [] ledger h = Kept-refl ledger h
      install_for_blueprints-Kept v sel (bp ∷ bps) ledger h =
          let one = install_roles_for_blueprint c g w source v bp ledger in
          let first = install_roles_for_blueprint-Kept v bp ledger h in
          elim (Bool-cases (is_selected sel bp)) [
            | inl picked ↦ rw picked (
                Kept-trans ledger one.1 (install_for_blueprints c g w source v sel bps one.1).1
                  first (install_for_blueprints-Kept v sel bps one.1 first.distinct))
            | inr passed ↦ rw passed (install_for_blueprints-Kept v sel bps ledger h)
          ]

register_local-Kept :
    (c : Checkout) (w : InstallWorld) (source : Text) (opts : SyncOptions) (walked : WalkedSource)
    (sel : InstallSelection) (ledger : List Artifact)
    → IsWritable w
    → is_distinct ledger ≡ true
    → Kept ledger (register_local c w source opts walked sel ledger).1
unfolding register_local
register_local-Kept c w source opts walked sel ledger writable h =
    let ts = register_templates c w source opts.force sel walked.templates ledger in
    let rs = register_local_roles c w source sel walked.local_roles ts.1 in
    let t =
      register_templates-ClaimsMade w source writable c sel opts.force walked.templates ledger h in
    let r =
      register_local_roles-ClaimsMade w source writable c sel walked.local_roles ts.1 t.distinct in
    let l =
      register_local_collections-ClaimsMade w source writable c sel opts.has_base
        walked.local_collections rs.1 r.distinct in
    record {
      distinct = l.distinct;
      keeps = λ s k n e. l.keeps s k n (r.keeps s k n (t.keeps s k n e));
    }

-- Where the ledger can be read and written and has no claim twice, it has none twice after an
-- install, with or without the requirements of the blueprints, and a claim that it has before the
-- install, of this source or of another, it has afterwards.
pub install_artifacts-has_claim :
    (c : Checkout) (w : InstallWorld) (source : Text) (opts : SyncOptions) (g : GalaxyWorld)
    (walked : WalkedSource) (sel : InstallSelection) (ledger : List Artifact) (s : Text)
    (k : ArtifactKind) (n : Text)
    → IsWritable w
    → is_distinct ledger ≡ true
    → has_claim s k n ledger ≡ true
    → (is_distinct (install_artifacts c w source opts g walked sel ledger).1 ≡ true)
      × (has_claim s k n (install_artifacts c w source opts g walked sel ledger).1 ≡ true)
unfolding install_artifacts install_unioned_ansible
install_artifacts-has_claim c w source opts g walked sel ledger s k n writable h claimed =
    let ledger' = (register_local c w source opts walked sel ledger).1 in
    let local = register_local-Kept c w source opts walked sel ledger writable h in
    let deps =
      install_for_blueprints-Kept w source writable g c (vendored_by c walked) sel walked.blueprints
        ledger' local.distinct in
    let before = local.keeps s k n claimed in
    elim (Bool-cases opts.no_deps) [
      | inl without ↦ rw without (local.distinct, before)
      | inr included ↦ rw included (deps.distinct, deps.keeps s k n before)
    ]
