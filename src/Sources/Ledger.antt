-- ===== src/Sources/Ledger.antt =====
-- ludus-api/source_install.go: the claims that an install writes into the ledger.
use ludus.Prelude.{
  ◌≡◌, refl, sym, ◌∙◌, Bool, true, ◌&&◌, inl, inr, Option, none, some, List, [], ◌∷◌, ◌++◌,
  Bool-cases, Option-cases, arith,
}
use ludus.Prelude.Text.{Text, contains_text}
use ludus.Prelude.Splitting.{text_eq_refl}
use ludus.Sources.{Checkout, template_name_for_dir, local_role_name, collection_fqcn}
use ludus.Sources.Selection.{InstallSelection}
use ludus.Sources.Install.{
  ArtifactKind, template, local_role, local_collection, kind_eq, Artifact, is_claim, InstallWorld,
  has_claim, ArtifactResult, register, first_error, register_templates, register_local_roles,
  register_collection, register_local_collections, collection_error,
}
use ludus.Sources.Distinct.{
  is_distinct, IsWritable, insert_source_artifact-is_distinct, insert_source_artifact-has_claim,
  both,
}

-- An artifact that was installed is claimed.
unfoldable pub is_claimed : Text → ArtifactKind → ArtifactResult → List Artifact → Bool
unfolding has_claim
is_claimed source kind r ledger = elim r.message [
  | some message ↦ true
  | none ↦ has_claim source kind r.artifact ledger
]

unfoldable pub all_claimed : Text → ArtifactKind → List ArtifactResult → List Artifact → Bool
unfolding is_claimed
all_claimed source kind [] ledger = true
all_claimed source kind (r ∷ rs) ledger =
    is_claimed source kind r ledger && all_claimed source kind rs ledger

is_claimed-keeps :
    (source : Text) (kind : ArtifactKind) (r : ArtifactResult) (ledger later : List Artifact)
    → ((n : Text) → has_claim source kind n ledger ≡ true → has_claim source kind n later ≡ true)
    → is_claimed source kind r ledger ≡ true
    → is_claimed source kind r later ≡ true
unfolding is_claimed
is_claimed-keeps source kind r ledger later keeps h = elim (Option-cases r.message) [
  | inl fine ↦
      (let same : is_claimed source kind r ledger ≡ has_claim source kind r.artifact ledger =
          rw fine refl in
        rw fine (keeps r.artifact (sym same ∙ h)))
  | inr (message, failed) ↦ rw failed refl
]

module _ (w : InstallWorld) (source : Text) (writable : IsWritable w) where
  register-is_distinct :
      (kind : ArtifactKind) (name : Text) (failure : Option Text) (ledger : List Artifact)
      → is_distinct ledger ≡ true
      → is_distinct (register w source kind name failure ledger).1 ≡ true
  unfolding register
  register-is_distinct kind name (some message) ledger h = h
  register-is_distinct kind name none ledger h =
      insert_source_artifact-is_distinct w source kind name [] ledger writable.queries h

  register-keeps :
      (kind : ArtifactKind) (name : Text) (failure : Option Text) (ledger : List Artifact)
      (s : Text) (k : ArtifactKind) (n : Text)
      → has_claim s k n ledger ≡ true
      → has_claim s k n (register w source kind name failure ledger).1 ≡ true
  unfolding register
  register-keeps kind name (some message) ledger s k n h = h
  register-keeps kind name none ledger s k n h =
      insert_source_artifact-has_claim w source kind name [] ledger s k n writable ∙ rw h refl

  register-claimed :
      (kind : ArtifactKind) (name : Text) (failure : Option Text) (ledger : List Artifact)
      → is_claimed source kind
          (register w source kind name failure ledger).0
          (register w source kind name failure ledger).1
        ≡ true
  unfolding register is_claimed is_claim kind_eq
  register-claimed kind name (some message) ledger = refl
  register-claimed kind name none ledger =
      let added =
        insert_source_artifact-has_claim w source kind name [] ledger source kind name writable in
      let sources = text_eq_refl source in let names = text_eq_refl name in rw added (ground arith)

-- What a loop that registers artifacts does to the ledger.
pub record ClaimsMade (source : Text) (kind : ArtifactKind) (ledger : List Artifact)
    (results : List ArtifactResult) (ledger' : List Artifact) : Type 0 where
  pub distinct : is_distinct ledger' ≡ true
  pub keeps :
      (s : Text) (k : ArtifactKind) (n : Text)
      → has_claim s k n ledger ≡ true
      → has_claim s k n ledger' ≡ true
  pub all_there : all_claimed source kind results ledger' ≡ true

pub all_claimed-keeps :
    (source : Text) (kind : ArtifactKind) (rs : List ArtifactResult) (ledger later : List Artifact)
    → ((n : Text) → has_claim source kind n ledger ≡ true → has_claim source kind n later ≡ true)
    → all_claimed source kind rs ledger ≡ true
    → all_claimed source kind rs later ≡ true
unfolding all_claimed
all_claimed-keeps source kind [] ledger later keeps h = refl
all_claimed-keeps source kind (r ∷ rs) ledger later keeps h =
    both (is_claimed-keeps source kind r ledger later keeps (ground arith))
      (all_claimed-keeps source kind rs ledger later keeps (ground arith))

all_claimed-append :
    (source : Text) (kind : ArtifactKind) (rs more : List ArtifactResult) (ledger : List Artifact)
    → all_claimed source kind rs ledger ≡ true
    → all_claimed source kind more ledger ≡ true
    → all_claimed source kind (rs ++ more) ledger ≡ true
unfolding all_claimed
all_claimed-append source kind [] more ledger h k = k
all_claimed-append source kind (r ∷ rs) more ledger h k =
    both (ground arith) (all_claimed-append source kind rs more ledger (ground arith) k)

ClaimsMade-append :
    (source : Text) (kind : ArtifactKind) (ledger : List Artifact) (rs : List ArtifactResult)
    (ledger' : List Artifact) (more : List ArtifactResult) (ledger'' : List Artifact)
    → ClaimsMade source kind ledger rs ledger'
    → ClaimsMade source kind ledger' more ledger''
    → ClaimsMade source kind ledger (rs ++ more) ledger''
ClaimsMade-append source kind ledger rs ledger' more ledger'' first second = record {
  distinct = second.distinct;
  keeps = λ s k n h. second.keeps s k n (first.keeps s k n h);
  all_there =
      all_claimed-append source kind rs more ledger''
        (all_claimed-keeps source kind rs ledger' ledger'' (second.keeps source kind)
          first.all_there)
        second.all_there;
}

module _ (w : InstallWorld) (source : Text) (writable : IsWritable w) where
  nothing_registered :
      (kind : ArtifactKind) (ledger : List Artifact)
      → is_distinct ledger ≡ true
      → ClaimsMade source kind ledger [] ledger
  unfolding all_claimed
  nothing_registered kind ledger h = record { distinct = h; keeps = λ s k n e. e; all_there = refl }

  registered_first :
      (kind : ArtifactKind) (name : Text) (failure : Option Text) (ledger : List Artifact)
      (rs : List ArtifactResult) (later : List Artifact)
      → ClaimsMade source kind (register w source kind name failure ledger).1 rs later
      → ClaimsMade source kind ledger ((register w source kind name failure ledger).0 ∷ rs) later
  unfolding all_claimed
  registered_first kind name failure ledger rs later made =
      let (result, ledger') = register w source kind name failure ledger in
      record {
        distinct = made.distinct;
        keeps = λ s k n h.
            made.keeps s k n (register-keeps w source writable kind name failure ledger s k n h);
        all_there =
            both
              (is_claimed-keeps source kind result ledger' later (made.keeps source kind)
                (register-claimed w source writable kind name failure ledger))
              made.all_there;
      }

  module _ (c : Checkout) (sel : InstallSelection) where
    pub register_templates-ClaimsMade :
        (force : Bool) (dirs : List Text) (ledger : List Artifact)
        → is_distinct ledger ≡ true
        → ClaimsMade source template ledger
            (register_templates c w source force sel dirs ledger).0
            (register_templates c w source force sel dirs ledger).1
    unfolding register_templates
    register_templates-ClaimsMade force [] ledger h = nothing_registered template ledger h
    register_templates-ClaimsMade force (dir ∷ dirs) ledger h =
        let name = template_name_for_dir c dir in
        let failure =
          first_error (w.install_template_dir dir force) (w.ensure_template_row name dir force) in
        let ledger' = (register w source template name failure ledger).1 in
        let rest = register_templates c w source force sel dirs ledger' in
        let distinct' = register-is_distinct w source writable template name failure ledger h in
        elim (Bool-cases (contains_text sel.templates name)) [
          | inl picked ↦ rw picked (
              registered_first template name failure ledger rest.0 rest.1
                (register_templates-ClaimsMade force dirs ledger' distinct'))
          | inr passed ↦ rw passed (register_templates-ClaimsMade force dirs ledger h)
        ]

    pub register_local_roles-ClaimsMade :
        (dirs : List Text) (ledger : List Artifact)
        → is_distinct ledger ≡ true
        → ClaimsMade source local_role ledger
            (register_local_roles c w source sel dirs ledger).0
            (register_local_roles c w source sel dirs ledger).1
    unfolding register_local_roles
    register_local_roles-ClaimsMade [] ledger h = nothing_registered local_role ledger h
    register_local_roles-ClaimsMade (dir ∷ dirs) ledger h =
        let name = local_role_name c dir in
        let failure = w.add_local_role_from_directory dir name in
        let ledger' = (register w source local_role name failure ledger).1 in
        let rest = register_local_roles c w source sel dirs ledger' in
        let distinct' = register-is_distinct w source writable local_role name failure ledger h in
        elim (Bool-cases (contains_text sel.local_roles name)) [
          | inl picked ↦ rw picked (
              registered_first local_role name failure ledger rest.0 rest.1
                (register_local_roles-ClaimsMade dirs ledger' distinct'))
          | inr passed ↦ rw passed (register_local_roles-ClaimsMade dirs ledger h)
        ]

    register_collection-ClaimsMade :
        (has_base : Bool) (dir : Text) (named : Option Text) (ledger : List Artifact)
        → is_distinct ledger ≡ true
        → ClaimsMade source local_collection ledger
            (register_collection w source has_base sel dir named ledger).0
            (register_collection w source has_base sel dir named ledger).1
    unfolding register_collection all_claimed
    register_collection-ClaimsMade has_base dir none ledger h = record {
      distinct = h;
      keeps = λ s k n e. e;
      all_there = refl;
    }
    register_collection-ClaimsMade has_base dir (some name) ledger h =
        let failure = collection_error w has_base dir in
        let ledger' = (register w source local_collection name failure ledger).1 in
        let distinct' =
          register-is_distinct w source writable local_collection name failure ledger h in
        elim (Bool-cases (contains_text sel.local_collections name)) [
          | inl picked ↦ rw picked (
              registered_first local_collection name failure ledger [] ledger'
                (nothing_registered local_collection ledger' distinct'))
          | inr passed ↦ rw passed (nothing_registered local_collection ledger h)
        ]

    pub register_local_collections-ClaimsMade :
        (has_base : Bool) (dirs : List Text) (ledger : List Artifact)
        → is_distinct ledger ≡ true
        → ClaimsMade source local_collection ledger
            (register_local_collections c w source has_base sel dirs ledger).0
            (register_local_collections c w source has_base sel dirs ledger).1
    unfolding register_local_collections
    register_local_collections-ClaimsMade has_base [] ledger h =
        nothing_registered local_collection ledger h
    register_local_collections-ClaimsMade has_base (dir ∷ dirs) ledger h =
        let named = collection_fqcn c dir in
        let one = register_collection w source has_base sel dir named ledger in
        let rest = register_local_collections c w source has_base sel dirs one.1 in
        let first = register_collection-ClaimsMade has_base dir named ledger h in
        ClaimsMade-append source local_collection ledger one.0 one.1 rest.0 rest.1 first
          (register_local_collections-ClaimsMade has_base dirs one.1 first.distinct)
