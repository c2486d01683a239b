-- ===== src/Sources/Distinct.antt =====
-- ludus-api/source_install.go, `insertSourceArtifact`: the claims in the ledger.
use ludus.Prelude.{
  ◌≡◌, refl, sym, ap, ◌∙◌, Bool, true, false, not, ◌&&◌, ◌||◌, inl, inr, List, [], ◌∷◌, ◌++◌,
  Bool-cases, arith,
}
use ludus.Prelude.Text.{Text, text_eq}
use ludus.Prelude.Splitting.{text_eq-equal, text_eq_comm}
use ludus.Sources.Install.{
  ArtifactKind, kind_eq, Artifact, is_claim, InstallWorld, has_claim, set_version,
  insert_source_artifact,
}

-- No claim is there twice.
unfoldable pub is_distinct : List Artifact → Bool
unfolding has_claim
is_distinct [] = true
is_distinct (a ∷ ledger) = not (has_claim a.source a.kind a.name ledger) && is_distinct ledger

-- The ledger can be read and written.
pub record IsWritable (w : InstallWorld) : Type 0 where
  pub has : w.has_collection ≡ true
  pub queries : w.can_query ≡ true
  pub saves : (a : Artifact) → w.can_save a ≡ true

has_claim-set_version :
    (w : InstallWorld) (source : Text) (kind : ArtifactKind) (name version : Text)
    (ledger : List Artifact) (s : Text) (k : ArtifactKind) (n : Text)
    → has_claim s k n (set_version w source kind name version ledger) ≡ has_claim s k n ledger
unfolding has_claim set_version
has_claim-set_version w source kind name version [] s k n = refl
has_claim-set_version w source kind name version (a ∷ ledger) s k n =
    let ih = has_claim-set_version w source kind name version ledger s k n in
    elim (Bool-cases (is_claim source kind name a)) [
      | inl here ↦
          elim (Bool-cases
            (not (text_eq a.version version) && w.can_save (record a { version = version }))) [
              | inl changed ↦ rw (here, changed) refl
              | inr same ↦ rw (here, same) refl
            ]
      | inr other ↦ rw (other, ih) refl
    ]

is_distinct-set_version :
    (w : InstallWorld) (source : Text) (kind : ArtifactKind) (name version : Text)
    (ledger : List Artifact)
    → is_distinct (set_version w source kind name version ledger) ≡ is_distinct ledger
unfolding is_distinct set_version
is_distinct-set_version w source kind name version [] = refl
is_distinct-set_version w source kind name version (a ∷ ledger) =
    let ih = is_distinct-set_version w source kind name version ledger in
    let same_claims =
      has_claim-set_version w source kind name version ledger a.source a.kind a.name in
    elim (Bool-cases (is_claim source kind name a)) [
      | inl here ↦
          elim (Bool-cases
            (not (text_eq a.version version) && w.can_save (record a { version = version }))) [
              | inl changed ↦ rw (here, changed) refl
              | inr same ↦ rw (here, same) refl
            ]
      | inr other ↦ rw (other, ih, same_claims) refl
    ]

has_claim-append :
    (s : Text) (k : ArtifactKind) (n : Text) (ledger : List Artifact) (row : Artifact)
    → has_claim s k n (ledger ++ row ∷ []) ≡ has_claim s k n ledger || is_claim s k n row
unfolding has_claim
has_claim-append s k n [] row = ground arith
has_claim-append s k n (a ∷ ledger) row = ground (arith, has_claim-append s k n ledger row)

is_claim_comm :
    (a b : Artifact) → is_claim a.source a.kind a.name b ≡ is_claim b.source b.kind b.name a
unfolding is_claim kind_eq
is_claim_comm a b =
    let sources = text_eq_comm a.source b.source in
    let names = text_eq_comm a.name b.name in ground (arith, sources, names)

is_distinct-append :
    (ledger : List Artifact) (row : Artifact)
    → is_distinct ledger ≡ true
    → has_claim row.source row.kind row.name ledger ≡ false
    → is_distinct (ledger ++ row ∷ []) ≡ true
unfolding is_distinct has_claim
is_distinct-append [] row h new = refl
is_distinct-append (a ∷ ledger) row h new =
    let more = has_claim-append a.source a.kind a.name ledger row in
    let swap = is_claim_comm a row in
    let ih = is_distinct-append ledger row (ground arith) (ground arith) in
    rw (more, swap, ih) (ground arith)

pub insert_source_artifact-is_distinct :
    (w : InstallWorld) (source : Text) (kind : ArtifactKind) (name version : Text)
    (ledger : List Artifact)
    → w.can_query ≡ true
    → is_distinct ledger ≡ true
    → is_distinct (insert_source_artifact w source kind name version ledger) ≡ true
unfolding insert_source_artifact
insert_source_artifact-is_distinct w source kind name version ledger query h =
    let row : Artifact = record { source = source; kind = kind; name = name; version = version } in
    elim (Bool-cases w.has_collection) [
      | inl has ↦ elim (Bool-cases (has_claim source kind name ledger)) [
        | inl here ↦
            rw (has, query, here) (is_distinct-set_version w source kind name version ledger ∙ h)
        | inr new ↦ elim (Bool-cases (w.can_save row)) [
          | inl saved ↦ rw (has, query, new, saved) (is_distinct-append ledger row h new)
          | inr failed ↦ rw (has, query, new, failed) h
        ]
      ]
      | inr missing ↦ rw missing h
    ]

has_claim_cong :
    (row : Artifact) (s : Text) (k : ArtifactKind) (n : Text) (ledger : List Artifact)
    → is_claim s k n row ≡ true
    → has_claim row.source row.kind row.name ledger ≡ has_claim s k n ledger
unfolding has_claim is_claim kind_eq
has_claim_cong row s k n [] h = refl
has_claim_cong row s k n (a ∷ ledger) h =
    let ih = has_claim_cong row s k n ledger h in
    let sources = ap (text_eq a.source) (text_eq-equal row.source s (ground arith)) in
    let names = ap (text_eq a.name) (text_eq-equal row.name n (ground arith)) in
    ground (arith, ih, sources, names)

-- A claim that is written is there, and the others stay.
pub insert_source_artifact-has_claim :
    (w : InstallWorld) (source : Text) (kind : ArtifactKind) (name version : Text)
    (ledger : List Artifact) (s : Text) (k : ArtifactKind) (n : Text)
    → IsWritable w
    → has_claim s k n (insert_source_artifact w source kind name version ledger)
      ≡ has_claim s k n ledger
        || is_claim s k n (record { source = source; kind = kind; name = name; version = version })
unfolding insert_source_artifact
insert_source_artifact-has_claim w source kind name version ledger s k n writable =
    let row : Artifact = record { source = source; kind = kind; name = name; version = version } in
    let has = writable.has in
    let query = writable.queries in
    let saved = writable.saves row in
    elim (Bool-cases (has_claim source kind name ledger)) [
      | inl here ↦
          (let covered : has_claim s k n ledger ≡ has_claim s k n ledger || is_claim s k n row =
              elim (Bool-cases (is_claim s k n row)) [
                | inl same ↦
                    (let there = sym (has_claim_cong row s k n ledger same) ∙ here in
                      rw (same, there) refl)
                | inr other ↦ rw other (ground arith)
              ] in
            rw (has, query, here)
              (has_claim-set_version w source kind name version ledger s k n ∙ covered))
      | inr new ↦ rw (has, query, new, saved) (has_claim-append s k n ledger row)
    ]

pub both : {a b : Bool} → a ≡ true → b ≡ true → a && b ≡ true
both h k = rw (h, k) refl
