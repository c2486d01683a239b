-- ===== src/Quota/Tests.antt =====
-- The quota checks at concrete users and ranges.
use ludus.Prelude.{
  ℕ, String, ◌≡◌, refl, none, some, List, [], ◌∷◌, arith, ◌==◌, if◌then◌else◌, map, ◌↔◌, ◌⊎◌,
}
use ludus.Prelude.Result.{ok}
use ludus.Prelude.Int64.{pos, ◌≤ℤ◌}
use ludus.Quota.{
  Group, User, ServerDefaults, World, QuotaViolation, resolve_quota, resolve_quota_source,
  check_deploy_quota, check_range_quota, resolve_user_effective_quotas, get_group_default_quota,
  max_group_quota, group_quota_value,
}
use ludus.Quota.Resolve.{
  LabelFits, resolve_quota_source-LabelFits, AllBelow, IsValueOf, get_group_default_quota-is_max,
}
use ludus.Quota.Usage.{Size, vm_of}
use ludus.Quota.Deploy.{
  check_deploy_quota-accepts_iff_Fits, check_deploy_quota-accepts_guest,
  check_range_quota-accepts_iff_Fits, Fits, status_of,
}

abbrev size : ℕ → ℕ → Size
size c r = record { cpus = c; gigabytes = r }

-- Two ranges with VMs, and no VM in any other.
abbrev stored : String → List Size
stored r = if r == "r1" then size 4 8 ∷ size 2 4 ∷ [] else if r == "r2" then size 8 16 ∷ [] else []

abbrev config : List Size
config = size 2 4 ∷ size 2 4 ∷ []

abbrev world : World
world = record {
  find_vms = λ r. some (map vm_of (stored r));
  find_range = λ id. if id == "lab" then some "r1" else none;
  read_config = λ id. some "config";
  unmarshal = λ yaml. some (map vm_of config);
}

abbrev defaults : ServerDefaults
defaults = record {
  default_quota_ram = pos 0;
  default_quota_cpu = pos 0;
  default_quota_vms = pos 0;
  default_quota_ranges = pos 3;
}

abbrev analysts : Group
analysts = record {
  default_quota_ram = pos 32;
  default_quota_cpu = pos 12;
  default_quota_vms = pos 0;
  default_quota_ranges = pos 0;
}

abbrev user_with : List String → User
user_with ranges = record {
  quota_ram = pos 0;
  quota_cpu = pos 0;
  quota_vms = pos 4;
  quota_ranges = pos 0;
  groups = analysts ∷ [];
  ranges = ranges;
}

abbrev owner : User
owner = user_with ("r1" ∷ "r2" ∷ [])

abbrev guest : User
guest = user_with []

resolve_quota_source-LabelFits_example :
    LabelFits
      (pos 0)
      (pos 12)
      (pos 5)
      (resolve_quota (pos 0) (pos 12) (pos 5))
      (resolve_quota_source (pos 0) (pos 12) (pos 5))
resolve_quota_source-LabelFits_example =
    resolve_quota_source-LabelFits (pos 0) (pos 12) (pos 5) (omega arith)

get_group_default_quota-is_max_example :
    (pos 0 ≤ℤ get_group_default_quota owner "ram")
    × AllBelow (get_group_default_quota owner "ram") owner.groups "ram"
    × ((get_group_default_quota owner "ram" ≡ pos 0)
        ⊎ IsValueOf (get_group_default_quota owner "ram") owner.groups "ram")
get_group_default_quota-is_max_example = get_group_default_quota-is_max owner "ram"

limits :
    (ranges : List String)
    → resolve_user_effective_quotas defaults (user_with ranges) ≡ status_of 32 12 4 3
unfolding resolve_user_effective_quotas resolve_quota get_group_default_quota max_group_quota
    group_quota_value
limits ranges = refl

check_deploy_quota-accepts_iff_Fits_example :
    (vs : List QuotaViolation) × (check_deploy_quota defaults world owner "lab" ≡ ok vs)
    × ((vs ≡ []) ↔ (Fits 12 12 × Fits 32 24 × Fits 4 3))
check_deploy_quota-accepts_iff_Fits_example =
    check_deploy_quota-accepts_iff_Fits defaults world owner stored (λ r. refl) "lab" "r1" "config"
      config refl refl refl (omega arith) (omega arith) (omega arith) (omega arith) (omega arith)
      (omega arith) [] ("r2" ∷ []) refl 32 12 4 3 (limits owner.ranges) (omega arith) (omega arith)
      (omega arith)

check_deploy_quota-accepts_guest_example : check_deploy_quota defaults world guest "lab" ≡ ok []
check_deploy_quota-accepts_guest_example =
    check_deploy_quota-accepts_guest defaults world guest stored (λ r. refl) "lab" "r1" "config"
      config refl refl refl (omega arith) (omega arith) (omega arith) (omega arith) (omega arith)
      (omega arith) 32 12 4 3 refl (limits []) (omega arith) (omega arith) (omega arith)
      (omega arith) (omega arith) (omega arith)

check_range_quota-accepts_iff_Fits_example :
    (vs : List QuotaViolation) × (check_range_quota defaults world owner ≡ ok vs)
    × ((vs ≡ []) ↔ Fits 3 3)
check_range_quota-accepts_iff_Fits_example =
    check_range_quota-accepts_iff_Fits defaults world owner stored (λ r. refl) (omega arith)
      (omega arith) (omega arith) (omega arith) 32 12 4 3 (limits owner.ranges)
