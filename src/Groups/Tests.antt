-- ===== src/Groups/Tests.antt =====
-- Bulk requests at concrete groups.
use ludus.Prelude.{
  ◌≡◌, ◌↔◌, ◌⊎◌, refl, true, false, none, some, [], ◌∷◌, ◌++◌, contains, ◌==◌, if◌then◌else◌,
}
use ludus.RangeAccess.{UserRecord}
use ludus.AccessPlaybook
use ludus.AccessPlaybook.{
  run_access_control_playbook, NodeLookup, vm_found, vm_not_found,
  playbook_reports_undeployed_range_router, playbook_reports_router_unreachable, done,
  router_powered_off, failed, has_text,
}
use ludus.AccessPlaybook.Outcome.{
  SaysUndeployed, SaysUnreachable, run_access_control_playbook-iff_says,
}
use ludus.Prelude.Text.{Text, codes}
use ludus.Groups.{
  Range, found, missing, State, World, Actor, powered_off, add_range, remove_range, bulk,
  group_access_in_proxmox, playbook_reason,
}
use ludus.Groups.Bulk.{empty_report, record_ids, add_ranges-adds_successes}
use ludus.Groups.Limits.{HaveNumber, add_ranges-one_number, remove_range-gives_range}

abbrev lab : Range
lab = record { id = "r1"; range_id = "lab"; number = 1 }

abbrev forest : Range
forest = record { id = "r2"; range_id = "forest"; number = 2 }

abbrev alice : UserRecord
alice = record { id = "u1"; ranges = 1 ∷ 2 ∷ [] }

abbrev unreachable : Text
unreachable = codes "fatal: [router]: UNREACHABLE!"

abbrev playbooks : AccessPlaybook.World
playbooks = record {
  context_range = true;
  run_playbook = λ id. if id == "forest" then some unreachable else none;
  router_name = λ id. codes "router";
  find_router = λ id. vm_found;
}

-- Alice owns both ranges; the playbook fails for the second one.
abbrev world : World
world = record {
  access = record { find_user = λ id. some alice; find_groups = λ id. some [] };
  playbooks = playbooks;
  find_range =
      λ id. if id == "lab" then found lab else if id == "forest" then found forest else missing;
  use_sdn = true;
  root_client = true;
  update_acl = λ path delete. true;
  range_is_deployed = λ id. some true;
}

abbrev manager : Actor
manager = record { id = "u1"; user_id = "AL"; is_admin = false }

abbrev empty_group : State
empty_group = record { ranges = []; pools = []; vnets = []; kept = none }

run_access_control_playbook-iff_says_example :
    ((run_access_control_playbook playbooks "forest" ≡ done)
      ↔ (SaysUndeployed unreachable ⊎ (vm_found ≡ vm_not_found)))
    × ((run_access_control_playbook playbooks "forest" ≡ router_powered_off) ↔ (
        (¬ SaysUndeployed unreachable)
        × (vm_found ≡ vm_found)
        × SaysUnreachable (codes "router") unreachable))
run_access_control_playbook-iff_says_example =
    run_access_control_playbook-iff_says playbooks "forest" unreachable refl refl

add_ranges-adds_successes_example :
    (bulk (add_range world manager) ("lab" ∷ "forest" ∷ []) empty_report empty_group).1.ranges
    ≡ []
      ++ record_ids world
          (bulk
            (add_range world manager)
            ("lab" ∷ "forest" ∷ [])
            empty_report
            empty_group).0.success
add_ranges-adds_successes_example =
    add_ranges-adds_successes world manager ("lab" ∷ "forest" ∷ []) empty_group

add_ranges-one_number_example :
    HaveNumber world 1
      (bulk (add_range world manager) ("lab" ∷ "forest" ∷ []) empty_report empty_group).0.success
unfolding contains
add_ranges-one_number_example =
    add_ranges-one_number world manager "lab" lab ("forest" ∷ []) empty_group alice [] refl refl
      refl refl refl refl

remove_range-gives_range_example :
    ((remove_range world manager "forest" empty_group).0 ≡ some powered_off)
    × ((remove_range world manager "forest" empty_group).1.ranges ≡ "r2" ∷ [])
unfolding contains group_access_in_proxmox playbook_reason run_access_control_playbook
    playbook_reports_undeployed_range_router playbook_reports_router_unreachable has_text
remove_range-gives_range_example =
    remove_range-gives_range world manager "forest" forest empty_group powered_off refl refl refl
      refl
