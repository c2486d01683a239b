-- ===== src/Sources/Registered.antt =====
-- ludus-api/source_sync.go, `runSourceInstall`: the claims of the templates, roles and collections of
-- an install.
use ludus.Prelude.{◌≡◌, true, List}
use ludus.Prelude.Text.{Text}
use ludus.Sources.{Checkout, WalkedSource}
use ludus.Sources.Selection.{InstallSelection}
use ludus.Sources.Install.{
  template, local_role, local_collection, Artifact, InstallWorld, register_templates,
  register_local_roles, register_local_collections,
}
use ludus.Sources.Sync.{SyncOptions, register_local}
use ludus.Sources.Distinct.{IsWritable, is_distinct}
use ludus.Sources.Ledger.{
  all_claimed, all_claimed-keeps, register_templates-ClaimsMade, register_local_roles-ClaimsMade,
  register_local_collections-ClaimsMade,
}

-- Where the ledger can be read and written and has no claim twice, it has none twice after the
-- templates, roles and collections of an install are registered, and each of them whose result is OK
-- is claimed for the source.
pub register_local-all_claimed :
    (c : Checkout) (w : InstallWorld) (source : Text) (opts : SyncOptions) (walked : WalkedSource)
    (sel : InstallSelection) (ledger : List Artifact)
    → IsWritable w
    → is_distinct ledger ≡ true
    → (is_distinct (register_local c w source opts walked sel ledger).1 ≡ true)
      × (all_claimed source template
            (register_local c w source opts walked sel ledger).0.template_results
            (register_local c w source opts walked sel ledger).1
          ≡ true)
      × (all_claimed source local_role
            (register_local c w source opts walked sel ledger).0.role_results
            (register_local c w source opts walked sel ledger).1
          ≡ true)
      × (all_claimed source local_collection
            (register_local c w source opts walked sel ledger).0.collection_results
            (register_local c w source opts walked sel ledger).1
          ≡ true)
unfolding register_local
register_local-all_claimed c w source opts walked sel ledger writable h =
    let ts = register_templates c w source opts.force sel walked.templates ledger in
    let rs = register_local_roles c w source sel walked.local_roles ts.1 in
    let cs =
      register_local_collections c w source opts.has_base sel walked.local_collections rs.1 in
    let t =
      register_templates-ClaimsMade w source writable c sel opts.force walked.templates ledger h in
    let r =
      register_local_roles-ClaimsMade w source writable c sel walked.local_roles ts.1 t.distinct in
    let l =
      register_local_collections-ClaimsMade w source writable c sel opts.has_base
        walked.local_collections rs.1 r.distinct in
    (
      l.distinct,
      all_claimed-keeps source template ts.0 ts.1 cs.1
          (λ n e. l.keeps source template n (r.keeps source template n e)) t.all_there,
      all_claimed-keeps source local_role rs.0 rs.1 cs.1 (l.keeps source local_role) r.all_there,
      l.all_there,
    )
