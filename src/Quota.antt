-- ===== src/Quota.antt =====
-- ludus-api/quota.go: the limits of a user, the user's usage, and the checks made before a deploy
-- and before a range is created. `World` is what the functions ask of PocketBase, of the disk and of
-- the YAML parser.
pub mod Resolve
pub mod Usage
pub mod Deploy
mod Tests
use ludus.Prelude.{
  ℕ, String, ◌≡◌, Bool, true, false, Option, none, some, List, [], ◌∷◌, ◌++◌, length, ◌==◌,
  if◌then◌else◌,
}
use ludus.Prelude.Result.{Result, ok, err, ◌>>=◌}
use ludus.Prelude.Int64.{ℤ, pos, ◌+ℤ◌, ◌-ℤ◌, ltb_ℤ, eqb_ℤ}

pub record QuotaResources : Type 0 where
  pub total_ram : ℤ
  pub total_cpu : ℤ
  pub total_vms : ℤ
  pub total_ranges : ℤ

abbrev pub no_resources : QuotaResources
no_resources = record {
  total_ram = pos 0;
  total_cpu = pos 0;
  total_vms = pos 0;
  total_ranges = pos 0;
}

-- The four limits; the fields for the usage stay zero in this file of the source.
pub record QuotaStatus : Type 0 where
  pub limit_ram : ℤ
  pub limit_cpu : ℤ
  pub limit_vms : ℤ
  pub limit_ranges : ℤ

pub record QuotaViolation : Type 0 where
  pub resource : String
  pub limit : ℤ
  pub current : ℤ
  pub requested : ℤ

-- One virtual machine, as a database record or in a range config.
pub record Vm : Type 0 where
  pub cpu : ℤ
  pub ram : ℤ

pub record Group : Type 0 where
  pub default_quota_ram : ℤ
  pub default_quota_cpu : ℤ
  pub default_quota_vms : ℤ
  pub default_quota_ranges : ℤ

-- `ranges` holds the record ids of the user's direct ranges.
pub record User : Type 0 where
  pub quota_ram : ℤ
  pub quota_cpu : ℤ
  pub quota_vms : ℤ
  pub quota_ranges : ℤ
  pub groups : List Group
  pub ranges : List String

-- The defaults of `ServerConfiguration`.
pub record ServerDefaults : Type 0 where
  pub default_quota_ram : ℤ
  pub default_quota_cpu : ℤ
  pub default_quota_vms : ℤ
  pub default_quota_ranges : ℤ

-- Queries that may fail: the VM records of a range by its record id, the record id of a range by its
-- rangeID, the range config on disk, and the VMs that the YAML parser finds in it.
pub record World : Type 0 where
  pub find_vms : String → Option (List Vm)
  pub find_range : String → Option String
  pub read_config : String → Option String
  pub unmarshal : String → Option (List Vm)

pub data QuotaError : Type 0 where
  usage_failed range_not_found vms_not_found config_unreadable config_unparsable : QuotaError

-- `true` stands for a nil error.
unfoldable pub validate_quota_values : List (Option ℤ) → Bool
validate_quota_values [] = true
validate_quota_values (none ∷ vs) = validate_quota_values vs
validate_quota_values (some v ∷ vs) = if ltb_ℤ v (pos 0) then false else validate_quota_values vs

unfoldable pub resolve_quota : ℤ → ℤ → ℤ → ℤ
resolve_quota user_quota group_quota system_quota =
    if ltb_ℤ (pos 0) user_quota
    then user_quota
    else if ltb_ℤ (pos 0) group_quota
    then group_quota
    else system_quota

-- The labels "U", "G", "S" and "".
pub data QuotaSource : Type 0 where
  from_user from_group from_system unlimited : QuotaSource

unfoldable pub resolve_quota_source : ℤ → ℤ → ℤ → QuotaSource
resolve_quota_source user_quota group_quota system_quota =
    if ltb_ℤ (pos 0) user_quota
    then from_user
    else if ltb_ℤ (pos 0) group_quota
    then from_group
    else if ltb_ℤ (pos 0) system_quota
    then from_system
    else unlimited

unfoldable pub is_quota_exceeded : (current requested limit : ℤ) → Bool
is_quota_exceeded current requested limit =
    if eqb_ℤ limit (pos 0) then false else ltb_ℤ limit (current +ℤ requested)

-- The body of the loops that add up VMs.
unfoldable pub add_vm : QuotaResources → Vm → QuotaResources
add_vm u vm = record u {
  total_cpu = u.total_cpu +ℤ vm.cpu;
  total_ram = u.total_ram +ℤ vm.ram;
  total_vms = u.total_vms +ℤ pos 1;
}

unfoldable pub add_vms : QuotaResources → List Vm → QuotaResources
add_vms u [] = u
add_vms u (vm ∷ vms) = add_vms (add_vm u vm) vms

unfoldable pub calculate_config_resources : World → String → Result QuotaError QuotaResources
calculate_config_resources w yaml_data = elim (w.unmarshal yaml_data) [
  | none ↦ err config_unparsable
  | some vms ↦ ok (add_vms no_resources vms)
]

-- The switch on `quotaType`.
unfoldable pub group_quota_value : Group → String → ℤ
group_quota_value group quota_type =
    if quota_type == "ram"
    then group.default_quota_ram
    else if quota_type == "cpu"
    then group.default_quota_cpu
    else if quota_type == "vms"
    then group.default_quota_vms
    else if quota_type == "ranges"
    then group.default_quota_ranges
    else pos 0

unfoldable pub max_group_quota : ℤ → List Group → String → ℤ
max_group_quota max_quota [] quota_type = max_quota
max_group_quota max_quota (group ∷ groups) quota_type =
    let val = group_quota_value group quota_type in
    max_group_quota (if ltb_ℤ max_quota val then val else max_quota) groups quota_type

unfoldable pub get_group_default_quota : User → String → ℤ
get_group_default_quota user quota_type = max_group_quota (pos 0) user.groups quota_type

unfoldable pub resolve_user_effective_quotas : ServerDefaults → User → QuotaStatus
resolve_user_effective_quotas server user = record {
  limit_ram =
      resolve_quota user.quota_ram (get_group_default_quota user "ram") server.default_quota_ram;
  limit_cpu =
      resolve_quota user.quota_cpu (get_group_default_quota user "cpu") server.default_quota_cpu;
  limit_vms =
      resolve_quota user.quota_vms (get_group_default_quota user "vms") server.default_quota_vms;
  limit_ranges =
      resolve_quota user.quota_ranges (get_group_default_quota user "ranges")
        server.default_quota_ranges;
}

unfoldable pub add_ranges : World → QuotaResources → List String → Result QuotaError QuotaResources
add_ranges w usage [] = ok usage
add_ranges w usage (r ∷ rs) = elim (w.find_vms r) [
  | none ↦ err usage_failed
  | some vms ↦ add_ranges w (add_vms usage vms) rs
]

unfoldable pub calculate_user_usage : World → User → Result QuotaError QuotaResources
calculate_user_usage w user =
    add_ranges w (record no_resources { total_ranges = pos (length user.ranges) }) user.ranges

-- `if isQuotaExceeded(...) { violations = append(violations, ...) }`
unfoldable pub add_violation :
    List QuotaViolation → String → (current requested limit : ℤ) → List QuotaViolation
add_violation violations resource current requested limit =
    if is_quota_exceeded current requested limit
    then violations
      ++ record { resource = resource; limit = limit; current = current; requested = requested }
        ∷ []
    else violations

unfoldable pub or_error : {A : Type 0} → QuotaError → Option A → Result QuotaError A
or_error e none = err e
or_error e (some a) = ok a

-- The violations found once all the numbers are there.
unfoldable pub deploy_violations :
    QuotaStatus → (total current new : QuotaResources) → List QuotaViolation
deploy_violations status total current new =
    let effective_cpu = total.total_cpu -ℤ current.total_cpu in
    let effective_ram = total.total_ram -ℤ current.total_ram in
    let effective_vms = total.total_vms -ℤ current.total_vms in
    add_violation
      (add_violation (add_violation [] "CPU" effective_cpu new.total_cpu status.limit_cpu) "RAM"
        effective_ram new.total_ram status.limit_ram)
      "VMs" effective_vms new.total_vms status.limit_vms

unfoldable pub check_deploy_quota :
    ServerDefaults → World → User → String → Result QuotaError (List QuotaViolation)
check_deploy_quota server w user range_id = do
  total_usage ← calculate_user_usage w user
  range_record ← or_error range_not_found (w.find_range range_id)
  vm_records ← or_error vms_not_found (w.find_vms range_record)
  let current_range_usage = add_vms no_resources vm_records
  yaml_data ← or_error config_unreadable (w.read_config range_id)
  new_resources ← calculate_config_resources w yaml_data
  ok (
      deploy_violations (resolve_user_effective_quotas server user) total_usage current_range_usage
        new_resources)

unfoldable pub check_range_quota :
    ServerDefaults → World → User → Result QuotaError (List QuotaViolation)
check_range_quota server w user = do
  usage ← calculate_user_usage w user
  ok (
      add_violation [] "Ranges" usage.total_ranges (pos 1)
        (resolve_user_effective_quotas server user).limit_ranges)
