-- ===== src/AccessPlaybook/Outcome.antt =====
-- range_access.go, `RunAccessControlPlaybook`: when the access playbook counts as failed.
use ludus.Prelude.{
  String, ◌≡◌, refl, ap, ◌∙◌, ◌≢◌, ◌↔◌, ◌⊎◌, inl, inr, Bool, true, false, some, [], ◌∷◌, ◌++◌, ◌&&◌,
  eqb_iff, Bool-cases, arith,
}
use ludus.Prelude.Text.{Text, codes}
use ludus.Archive.{has_prefix}
use ludus.AccessPlaybook.{
  World, vm_found, vm_not_found, done, router_powered_off, has_text,
  playbook_reports_undeployed_range_router, playbook_reports_router_unreachable,
  run_access_control_playbook,
}

-- A text stands somewhere in another.
pub record Occurs (t s : Text) : Type 0 where
  pub before : Text
  pub after : Text
  pub parts : s ≡ before ++ (t ++ after)

-- What stands behind a text at the front.
abbrev behind : Text → Text → Text
behind [] s = s
behind (c ∷ t) [] = []
behind (c ∷ t) (d ∷ s) = behind t s

has_prefix-behind : (t s : Text) → has_prefix t s ≡ true → s ≡ t ++ behind t s
unfolding has_prefix
has_prefix-behind [] s h = refl
has_prefix-behind (c ∷ t) [] h = cc
has_prefix-behind (c ∷ t) (d ∷ s) h =
    let same = (eqb_iff c d).0 (ground arith) in
    let rest = has_prefix-behind t s (ground arith) in ap (λ (x : Text). d ∷ x) rest ∙ rw same refl

has_prefix-append : (t after : Text) → has_prefix t (t ++ after) ≡ true
unfolding has_prefix
has_prefix-append [] after = refl
has_prefix-append (c ∷ t) after = ground (arith, eqb_iff c c, has_prefix-append t after)

has_text-prefix : (t s : Text) → has_prefix t s ≡ true → has_text s t ≡ true
unfolding has_text has_prefix
has_text-prefix [] [] h = refl
has_text-prefix (c ∷ t) [] h = cc
has_text-prefix t (d ∷ s) h = rw (has_text, h) refl

has_text-append : (t before after : Text) → has_text (before ++ (t ++ after)) t ≡ true
unfolding has_text
has_text-append t [] after = has_text-prefix t (t ++ after) (has_prefix-append t after)
has_text-append t (c ∷ before) after = ground (arith, has_text-append t before after)

has_text-parts : (t s : Text) → has_text s t ≡ true → Occurs t s
unfolding has_text
has_text-parts [] [] h = record { before = []; after = []; parts = refl }
has_text-parts (c ∷ t) [] h = cc
has_text-parts t (d ∷ s) h = elim (Bool-cases (has_prefix t (d ∷ s))) [
  | inl here ↦ record {
    before = [];
    after = behind t (d ∷ s);
    parts = has_prefix-behind t (d ∷ s) here;
  }
  | inr other ↦
      (let later = has_text-parts t s (ground arith) in
        record {
          before = d ∷ later.before;
          after = later.after;
          parts = ap (λ (x : Text). d ∷ x) later.parts;
        })
]

has_text-Occurs : (t s : Text) → (has_text s t ≡ true) ↔ Occurs t s
has_text-Occurs t s = (
  has_text-parts t s,
  λ o. ap (λ (x : Text). has_text x t) o.parts ∙ has_text-append t o.before o.after,
)

-- The output says that the range has not been deployed.
abbrev pub SaysUndeployed : Text → Type 0
SaysUndeployed output =
    Occurs (codes "Target router is not up.") output
    × Occurs (codes "range has not been deployed yet") output

-- The output has a failure of the named VM, and says that something cannot be reached.
abbrev pub SaysUnreachable : Text → Text → Type 0
SaysUnreachable name output =
    (name ≢ [])
    × Occurs (codes "fatal: [" ++ name ++ codes "]:") output
    × Occurs (codes "UNREACHABLE") output

both_true : (a b : Bool) → (a && b ≡ true) ↔ ((a ≡ true) × (b ≡ true))
both_true true true = ground arith
both_true true false = ground arith
both_true false b = ground arith

playbook_reports_undeployed_range_router-SaysUndeployed :
    (output : Text)
    → (playbook_reports_undeployed_range_router output ≡ true) ↔ SaysUndeployed output
unfolding playbook_reports_undeployed_range_router
playbook_reports_undeployed_range_router-SaysUndeployed output =
    let up = has_text-Occurs (codes "Target router is not up.") output in
    let yet = has_text-Occurs (codes "range has not been deployed yet") output in
    let both =
      both_true (has_text output (codes "Target router is not up."))
        (has_text output (codes "range has not been deployed yet")) in
    (λ h. (up.0 (both.0 h).0, yet.0 (both.0 h).1), λ says. both.1 (up.1 says.0, yet.1 says.1))

playbook_reports_router_unreachable-SaysUnreachable :
    (output name : Text)
    → (playbook_reports_router_unreachable output name ≡ true) ↔ SaysUnreachable name output
unfolding playbook_reports_router_unreachable
playbook_reports_router_unreachable-SaysUnreachable output [] =
    (λ h. cc, λ says. absurd (says.0 refl))
playbook_reports_router_unreachable-SaysUnreachable output (c ∷ name) =
    let line = codes "fatal: [" ++ (c ∷ name) ++ codes "]:" in
    let fatal = has_text-Occurs line output in
    let word = has_text-Occurs (codes "UNREACHABLE") output in
    let both = both_true (has_text output line) (has_text output (codes "UNREACHABLE")) in
    (
      λ h. ((λ e. cc), fatal.0 (both.0 h).0, word.0 (both.0 h).1),
      λ says. both.1 (fatal.1 says.1, word.1 says.2),
    )

-- By the tests of the code.
run_access_control_playbook-tests :
    (w : World) (range_id : String) (output : Text)
    → w.context_range ≡ true
    → w.run_playbook range_id ≡ some output
    → ((run_access_control_playbook w range_id ≡ done) ↔ (
        (playbook_reports_undeployed_range_router output ≡ true)
        ⊎ (w.find_router range_id ≡ vm_not_found)))
      × ((run_access_control_playbook w range_id ≡ router_powered_off) ↔ (
          (playbook_reports_undeployed_range_router output ≡ false)
          × (w.find_router range_id ≡ vm_found)
          × (playbook_reports_router_unreachable output (w.router_name range_id) ≡ true)))
unfolding run_access_control_playbook
run_access_control_playbook-tests w id output here ran = ground arith

false_iff_not : (b : Bool) (P : Type 0) → (b ≡ true) ↔ P → (b ≡ false) ↔ (¬ P)
false_iff_not true P h = ((λ e. cc), λ no. absurd (no (h.0 refl)))
false_iff_not false P h = ((λ e p. let e' = h.1 p in cc), λ no. refl)

-- With a range in the request, a failed playbook is passed over exactly when "Target router is not up."
-- and "range has not been deployed yet" both stand in its output, or no VM of the cluster has the
-- router's name. It is put down to the router's power exactly when the two texts do not both stand
-- there, the VM is in the cluster, its name is not empty, and both "fatal: [name]:" and "UNREACHABLE"
-- stand in the output.
pub run_access_control_playbook-iff_says :
    (w : World) (range_id : String) (output : Text)
    → w.context_range ≡ true
    → w.run_playbook range_id ≡ some output
    → ((run_access_control_playbook w range_id ≡ done)
        ↔ (SaysUndeployed output ⊎ (w.find_router range_id ≡ vm_not_found)))
      × ((run_access_control_playbook w range_id ≡ router_powered_off) ↔ (
          (¬ SaysUndeployed output)
          × (w.find_router range_id ≡ vm_found)
          × SaysUnreachable (w.router_name range_id) output))
run_access_control_playbook-iff_says w id output here ran =
    let (passed, powered) = run_access_control_playbook-tests w id output here ran in
    let undeployed = playbook_reports_undeployed_range_router-SaysUndeployed output in
    let not_undeployed = false_iff_not _ (SaysUndeployed output) undeployed in
    let off = playbook_reports_router_unreachable-SaysUnreachable output (w.router_name id) in
    (
      (
        λ h. elim (passed.0 h) [ inl says ↦ inl (undeployed.0 says) | inr gone ↦ inr gone ],
        λ h. passed.1 (elim h [ inl says ↦ inl (undeployed.1 says) | inr gone ↦ inr gone ]),
      ),
      (
        λ h. (let (a, b, c) = powered.0 h in (not_undeployed.0 a, b, off.0 c)),
        λ (a, b, c). powered.1 (not_undeployed.1 a, b, off.1 c),
      ),
    )
