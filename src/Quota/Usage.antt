-- ===== src/Quota/Usage.antt =====
-- quota.go: the loops over VM records, and sums of natural numbers.
use ludus.Prelude.{ℕ, ◌+◌, ◌<◌, String, ◌≡◌, some, List, [], ◌∷◌, ◌++◌, map, arith, length}
use ludus.Prelude.Result.{ok}
use ludus.Prelude.Int64.{pos, limit64, +ℤ-pos}
use ludus.Quota.{
  QuotaResources, no_resources, Vm, User, World, add_vm, add_vms, add_ranges, calculate_user_usage,
}

abbrev pub sum_over {ℓ} : {A : Type ℓ} → (A → ℕ) → List A → ℕ
sum_over f [] = 0
sum_over f (x ∷ xs) = f x + sum_over f xs

pub sum_over-without {ℓ} :
    {A : Type ℓ} (f : A → ℕ) (xs : List A) (x : A) (ys : List A)
    → sum_over f (xs ++ x ∷ ys) ≡ f x + sum_over f (xs ++ ys)
sum_over-without f [] x ys = omega arith
sum_over-without f (y ∷ xs) x ys = omega (arith, sum_over-without f xs x ys)

-- The CPUs and the gigabytes of RAM of a VM, as natural numbers.
pub record Size : Type 0 where
  pub cpus : ℕ
  pub gigabytes : ℕ

abbrev pub vm_of : Size → Vm
vm_of s = record { cpu = pos s.cpus; ram = pos s.gigabytes }

abbrev pub cpu_sum : List Size → ℕ
cpu_sum = sum_over (λ s. s.cpus)

abbrev pub ram_sum : List Size → ℕ
ram_sum = sum_over (λ s. s.gigabytes)

abbrev pub resources_of : (cpu ram vms ranges : ℕ) → QuotaResources
resources_of cpu ram vms ranges = record {
  total_ram = pos ram;
  total_cpu = pos cpu;
  total_vms = pos vms;
  total_ranges = pos ranges;
}

add_vm-resources_of :
    (c r v n : ℕ) (s : Size)
    → c + s.cpus < limit64
    → r + s.gigabytes < limit64
    → v + 1 < limit64
    → add_vm (resources_of c r v n) (vm_of s)
      ≡ resources_of (c + s.cpus) (r + s.gigabytes) (v + 1) n
unfolding add_vm
add_vm-resources_of c r v n s hc hr hv =
    cc (+ℤ-pos c s.cpus hc, +ℤ-pos r s.gigabytes hr, +ℤ-pos v 1 hv)

pub add_vms-resources_of :
    (c r v n : ℕ) (l : List Size)
    → c + cpu_sum l < limit64
    → r + ram_sum l < limit64
    → v + length l < limit64
    → add_vms (resources_of c r v n) (map vm_of l)
      ≡ resources_of (c + cpu_sum l) (r + ram_sum l) (v + length l) n
unfolding add_vms
add_vms-resources_of c r v n [] hc hr hv = ground arith
add_vms-resources_of c r v n (s ∷ l) hc hr hv =
    rw (add_vms, add_vm-resources_of c r v n s (omega arith) (omega arith) (omega arith))
      (ground (arith, add_vms-resources_of (c + s.cpus) (r + s.gigabytes) (v + 1) n l))

pub add_vms-no_resources :
    (l : List Size)
    → cpu_sum l < limit64
    → ram_sum l < limit64
    → length l < limit64
    → add_vms no_resources (map vm_of l) ≡ resources_of (cpu_sum l) (ram_sum l) (length l) 0
add_vms-no_resources l hc hr hv = ground (arith, add_vms-resources_of 0 0 0 0 l)

-- What the queries answer: the VMs of a range have natural sizes.
abbrev pub Answers : World → (String → List Size) → Type 0
Answers w stored = (r : String) → w.find_vms r ≡ some (map vm_of (stored r))

-- The three sums over ranges.
abbrev pub range_cpus : (String → List Size) → List String → ℕ
range_cpus stored = sum_over (λ r. cpu_sum (stored r))

abbrev pub range_ram : (String → List Size) → List String → ℕ
range_ram stored = sum_over (λ r. ram_sum (stored r))

abbrev pub range_vms : (String → List Size) → List String → ℕ
range_vms stored = sum_over (λ r. length (stored r))

add_ranges-resources_of :
    (w : World) (stored : String → List Size)
    → Answers w stored
    → (c r v n : ℕ) (rs : List String) → c + range_cpus stored rs < limit64
    → r + range_ram stored rs < limit64
    → v + range_vms stored rs < limit64
    → add_ranges w (resources_of c r v n) rs
      ≡ ok (
          resources_of
            (c + range_cpus stored rs)
            (r + range_ram stored rs)
            (v + range_vms stored rs)
            n)
unfolding add_ranges
add_ranges-resources_of w stored answers c r v n [] hc hr hv = ground arith
add_ranges-resources_of w stored answers c r v n (x ∷ rs) hc hr hv =
    let l = stored x in
    rw
      (
        add_ranges,
        answers x,
        add_vms-resources_of c r v n l (omega arith) (omega arith) (omega arith),
      )
      (ground (
        arith,
        add_ranges-resources_of w stored answers (c + cpu_sum l) (r + ram_sum l) (v + length l) n
            rs,
      ))

-- The usage of a user whose sums fit is the sum over the user's ranges.
pub calculate_user_usage-eq_sums :
    (w : World) (stored : String → List Size)
    → Answers w stored
    → (user : User) → range_cpus stored user.ranges < limit64
    → range_ram stored user.ranges < limit64
    → range_vms stored user.ranges < limit64
    → calculate_user_usage w user
      ≡ ok (
          resources_of
            (range_cpus stored user.ranges)
            (range_ram stored user.ranges)
            (range_vms stored user.ranges)
            (length user.ranges))
unfolding calculate_user_usage
calculate_user_usage-eq_sums w stored answers user hc hr hv =
    ground (arith, add_ranges-resources_of w stored answers 0 0 0 (length user.ranges) user.ranges)
