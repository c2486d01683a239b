-- ===== src/Quota/Deploy.antt =====
-- quota.go, the two checks that a request has to pass: `CheckDeployQuota` and `CheckRangeQuota`.
use ludus.Prelude.{
  ℕ, zero, suc, ◌+◌, ◌-◌, ◌<◌, ◌≤◌, String, ◌≡◌, refl, ◌↔◌, ◌⊎◌, false, some, List, [], ◌∷◌, ◌++◌,
  map, arith, ap, ◌∙◌, length,
}
use ludus.Prelude.Result.{ok}
use ludus.Prelude.Int64.{ℤ, pos, limit64, ◌+ℤ◌, ◌-ℤ◌, +ℤ-pos, -ℤ-pos}
use ludus.Quota.{
  QuotaStatus, QuotaViolation, ServerDefaults, User, World, is_quota_exceeded, add_violation,
  deploy_violations, or_error, calculate_config_resources, check_deploy_quota, check_range_quota,
  resolve_user_effective_quotas,
}
use ludus.Quota.Usage.{
  Size, vm_of, cpu_sum, ram_sum, sum_over-without, resources_of, add_vms-no_resources, Answers,
  range_cpus, range_ram, range_vms, calculate_user_usage-eq_sums,
}

-- An amount is within a limit; 0 stands for no limit.
abbrev pub Fits : ℕ → ℕ → Type 0
Fits limit n = (limit ≡ 0) ⊎ (n ≤ limit)

not_exceeded_iff :
    (used requested limit : ℕ)
    → used + requested < limit64
    → (is_quota_exceeded (pos used) (pos requested) (pos limit) ≡ false)
      ↔ Fits limit (used + requested)
unfolding is_quota_exceeded
not_exceeded_iff u r l h = rw (+ℤ-pos u r h) (ground arith)

add_violation-eq-nil :
    (vs : List QuotaViolation) (s : String) (c r l : ℤ)
    → (add_violation vs s c r l ≡ []) ↔ ((vs ≡ []) × (is_quota_exceeded c r l ≡ false))
unfolding add_violation
add_violation-eq-nil [] s c r l = ground arith
add_violation-eq-nil (v ∷ vs) s c r l = ground arith

abbrev pub status_of : (ram cpu vms ranges : ℕ) → QuotaStatus
status_of ram cpu vms ranges = record {
  limit_ram = pos ram;
  limit_cpu = pos cpu;
  limit_vms = pos vms;
  limit_ranges = pos ranges;
}

-- The three tests of a deploy, of amounts that are natural numbers and sums that fit.
deploy_violations-eq_nil :
    (lr lc lv lg r c v n r' c' v' n' r'' c'' v'' n'' : ℕ)
    → r < limit64
    → c < limit64
    → v < limit64
    → r' ≤ r
    → c' ≤ c
    → v' ≤ v
    → (r - r') + r'' < limit64
    → (c - c') + c'' < limit64
    → (v - v') + v'' < limit64
    → (deploy_violations
          (status_of lr lc lv lg)
          (resources_of c r v n)
          (resources_of c' r' v' n')
          (resources_of c'' r'' v'' n'')
        ≡ [])
      ↔ (Fits lc ((c - c') + c'') × Fits lr ((r - r') + r'') × Fits lv ((v - v') + v''))
unfolding deploy_violations
deploy_violations-eq_nil lr lc lv lg r c v n r' c' v' n' r'' c'' v'' n'' hr hc hv kr kc kv br bc
      bv =
    rw (-ℤ-pos r r' hr kr, -ℤ-pos c c' hc kc, -ℤ-pos v v' hv kv) (both, back)
  where
    first : List QuotaViolation
    first = add_violation [] "CPU" (pos (c - c')) (pos c'') (pos lc)

    second : List QuotaViolation
    second = add_violation first "RAM" (pos (r - r')) (pos r'') (pos lr)

    third : List QuotaViolation
    third = add_violation second "VMs" (pos (v - v')) (pos v'') (pos lv)

    both :
        third ≡ [] → Fits lc ((c - c') + c'') × Fits lr ((r - r') + r'') × Fits lv ((v - v') + v'')
    both e =
        let (e2, v_fits) = (add_violation-eq-nil second "VMs" _ _ _).0 e in
        let (e1, r_fits) = (add_violation-eq-nil first "RAM" _ _ _).0 e2 in
        let (e0, c_fits) = (add_violation-eq-nil [] "CPU" _ _ _).0 e1 in
        (
          (not_exceeded_iff _ c'' lc bc).0 c_fits,
          (not_exceeded_iff _ r'' lr br).0 r_fits,
          (not_exceeded_iff _ v'' lv bv).0 v_fits,
        )

    back :
        Fits lc ((c - c') + c'') × Fits lr ((r - r') + r'') × Fits lv ((v - v') + v'') → third ≡ []
    back (fc, fr, fv) = (add_violation-eq-nil second "VMs" _ _ _).1 (
      (add_violation-eq-nil first "RAM" _ _ _).1 (
        (add_violation-eq-nil [] "CPU" _ _ _).1 (refl, (not_exceeded_iff _ c'' lc bc).1 fc),
        (not_exceeded_iff _ r'' lr br).1 fr,
      ),
      (not_exceeded_iff _ v'' lv bv).1 fv,
    )

-- Where less is counted than is subtracted, the difference is negative.
not_exceeded_by_guest :
    (current requested limit : ℕ)
    → current < limit64
    → requested < limit64
    → limit < limit64
    → requested ≤ limit + current
    → is_quota_exceeded (pos 0 -ℤ pos current) (pos requested) (pos limit) ≡ false
unfolding is_quota_exceeded ◌+ℤ◌ ◌-ℤ◌
not_exceeded_by_guest zero q l hc hq hl h = ground arith
not_exceeded_by_guest (suc c) q l hc hq hl h = ground arith

deploy_violations_of_guest :
    (lr lc lv lg n r' c' v' n' r'' c'' v'' n'' : ℕ)
    → lr < limit64
    → lc < limit64
    → lv < limit64
    → r' < limit64
    → c' < limit64
    → v' < limit64
    → r'' < limit64
    → c'' < limit64
    → v'' < limit64
    → r'' ≤ lr + r'
    → c'' ≤ lc + c'
    → v'' ≤ lv + v'
    → deploy_violations
        (status_of lr lc lv lg)
        (resources_of 0 0 0 n)
        (resources_of c' r' v' n')
        (resources_of c'' r'' v'' n'')
      ≡ []
unfolding deploy_violations
deploy_violations_of_guest lr lc lv lg n r' c' v' n' r'' c'' v'' n'' br bc bv kr kc kv qr qc qv hr
      hc hv =
    (add_violation-eq-nil _ "VMs" _ _ _).1 (
      (add_violation-eq-nil _ "RAM" _ _ _).1 (
        (add_violation-eq-nil [] "CPU" _ _ _).1 (refl, not_exceeded_by_guest c' c'' lc kc qc bc hc),
        not_exceeded_by_guest r' r'' lr kr qr br hr,
      ),
      not_exceeded_by_guest v' v'' lv kv qv bv hv,
    )

module _ (server : ServerDefaults) (w : World) (user : User) (stored : String → List Size)
    (answers : Answers w stored) (range_id range_record content : String) (config : List Size)
    (found : w.find_range range_id ≡ some range_record)
    (readable : w.read_config range_id ≡ some content)
    (parsed : w.unmarshal content ≡ some (map vm_of config))
    (current_cpus : cpu_sum (stored range_record) < limit64)
    (current_ram : ram_sum (stored range_record) < limit64)
    (current_vms : length (stored range_record) < limit64) (config_cpus : cpu_sum config < limit64)
    (config_ram : ram_sum config < limit64) (config_vms : length config < limit64) where
  -- What the check computes, where no sum overflows and no query fails.
  check_deploy_quota-eq_violations :
      range_cpus stored user.ranges < limit64
      → range_ram stored user.ranges < limit64
      → range_vms stored user.ranges < limit64
      → check_deploy_quota server w user range_id
        ≡ ok (
            deploy_violations
              (resolve_user_effective_quotas server user)
              (resources_of
                (range_cpus stored user.ranges)
                (range_ram stored user.ranges)
                (range_vms stored user.ranges)
                (length user.ranges))
              (resources_of
                (cpu_sum (stored range_record))
                (ram_sum (stored range_record))
                (length (stored range_record))
                0)
              (resources_of (cpu_sum config) (ram_sum config) (length config) 0))
  unfolding check_deploy_quota calculate_config_resources or_error
  check_deploy_quota-eq_violations hc hr hv = rw (
    check_deploy_quota,
    calculate_user_usage-eq_sums w stored answers user hc hr hv,
    found,
    answers range_record,
    readable,
    calculate_config_resources,
    parsed,
    add_vms-no_resources (stored range_record) current_cpus current_ram current_vms,
    add_vms-no_resources config config_cpus config_ram config_vms,
  )

  -- A user deploys one of the user's own ranges, every query answers, the config can be read and
  -- parsed, the limits are natural numbers, and no sum overflows: the check answers, and finds no
  -- violation exactly when, for CPUs, RAM and VMs alike, what the other ranges use and what the
  -- new config asks for are together within the limit, or there is no limit. What the range holds
  -- now does not count.
  pub check_deploy_quota-accepts_iff_Fits :
      (before after : List String)
      → user.ranges ≡ before ++ range_record ∷ after
      → (lr lc lv lg : ℕ) → resolve_user_effective_quotas server user ≡ status_of lr lc lv lg
      → range_cpus stored user.ranges + cpu_sum config < limit64
      → range_ram stored user.ranges + ram_sum config < limit64
      → range_vms stored user.ranges + length config < limit64
      → (vs : List QuotaViolation) × (check_deploy_quota server w user range_id ≡ ok vs)
        × ((vs ≡ []) ↔ (
            Fits lc (range_cpus stored (before ++ after) + cpu_sum config)
            × Fits lr (range_ram stored (before ++ after) + ram_sum config)
            × Fits lv (range_vms stored (before ++ after) + length config)))
  check_deploy_quota-accepts_iff_Fits before after own lr lc lv lg limits hc hr hv =
      let c = range_cpus stored user.ranges in
      let r = range_ram stored user.ranges in
      let v = range_vms stored user.ranges in
      let ec : c ≡ cpu_sum (stored range_record) + range_cpus stored (before ++ after) =
        rw own (sum_over-without (λ x. cpu_sum (stored x)) before range_record after) in
      let er : r ≡ ram_sum (stored range_record) + range_ram stored (before ++ after) =
        rw own (sum_over-without (λ x. ram_sum (stored x)) before range_record after) in
      let ev : v ≡ length (stored range_record) + range_vms stored (before ++ after) =
        rw own (sum_over-without (λ x. length (stored x)) before range_record after) in
      let lc' : c - cpu_sum (stored range_record) ≡ range_cpus stored (before ++ after) =
        omega (arith, ec) in
      let lr' : r - ram_sum (stored range_record) ≡ range_ram stored (before ++ after) =
        omega (arith, er) in
      let lv' : v - length (stored range_record) ≡ range_vms stored (before ++ after) =
        omega (arith, ev) in
      (
        _,
        rw limits at (check_deploy_quota-eq_violations (omega arith) (omega arith) (omega arith)),
        rw (lc', lr', lv') at
            (deploy_violations-eq_nil lr lc lv lg r c v (length user.ranges)
              (ram_sum (stored range_record)) (cpu_sum (stored range_record))
              (length (stored range_record)) 0 (ram_sum config) (cpu_sum config) (length config) 0
              (omega arith) (omega arith) (omega arith) (omega arith) (omega arith) (omega arith)
              (omega arith) (omega arith) (omega arith)),
      )

  -- The user has no ranges of the user's own and deploys a range that others own, every query
  -- answers, the config can be read and parsed, the limits are natural numbers, and no sum
  -- overflows: the check finds no violation for a config that is larger than each limit by no more
  -- than what the range holds now.
  pub check_deploy_quota-accepts_guest :
      (lr lc lv lg : ℕ)
      → user.ranges ≡ []
      → resolve_user_effective_quotas server user ≡ status_of lr lc lv lg
      → lc < limit64
      → lr < limit64
      → lv < limit64
      → cpu_sum config ≤ lc + cpu_sum (stored range_record)
      → ram_sum config ≤ lr + ram_sum (stored range_record)
      → length config ≤ lv + length (stored range_record)
      → check_deploy_quota server w user range_id ≡ ok []
  check_deploy_quota-accepts_guest lr lc lv lg no_own limits bc br bv hc hr hv =
      check_deploy_quota-eq_violations (rw no_own (omega arith)) (rw no_own (omega arith))
        (rw no_own (omega arith))
      ∙ rw (limits, no_own)
          (ap ok (
            deploy_violations_of_guest lr lc lv lg 0 (ram_sum (stored range_record))
              (cpu_sum (stored range_record)) (length (stored range_record)) 0 (ram_sum config)
              (cpu_sum config) (length config) 0 br bc bv current_ram current_cpus current_vms
              config_ram config_cpus config_vms hr hc hv))

-- The database answers for each range, the user's limits are natural numbers, and no sum
-- overflows: the check before a range is created answers, and finds no violation exactly when one
-- more range than the user has now is within the limit, or there is no limit.
pub check_range_quota-accepts_iff_Fits :
    (server : ServerDefaults) (w : World) (user : User) (stored : String → List Size)
    → Answers w stored
    → range_cpus stored user.ranges < limit64
    → range_ram stored user.ranges < limit64
    → range_vms stored user.ranges < limit64
    → length user.ranges + 1 < limit64
    → (lr lc lv lg : ℕ) → resolve_user_effective_quotas server user ≡ status_of lr lc lv lg
    → (vs : List QuotaViolation) × (check_range_quota server w user ≡ ok vs)
      × ((vs ≡ []) ↔ Fits lg (length user.ranges + 1))
unfolding check_range_quota
check_range_quota-accepts_iff_Fits server w user stored answers hc hr hv hn lr lc lv lg limits = (
  add_violation [] "Ranges" (pos (length user.ranges)) (pos 1) (pos lg),
  rw (check_range_quota, calculate_user_usage-eq_sums w stored answers user hc hr hv, limits),
  let exceeded = not_exceeded_iff (length user.ranges) 1 lg hn in
      let empty = add_violation-eq-nil [] "Ranges" (pos (length user.ranges)) (pos 1) (pos lg) in
      (λ e. exceeded.0 (empty.0 e).1, λ f. empty.1 (refl, exceeded.1 f)),
)
