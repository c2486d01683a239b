-- ===== src/AccessPlaybook.antt =====
-- ludus-api/range_access.go, `RunAccessControlPlaybook`: what becomes of a playbook that failed. The
-- run of the playbook and the queries to Proxmox are in `World`.
pub mod Outcome
use ludus.Prelude.{
  String, Bool, true, false, ◌&&◌, Option, none, some, [], ◌∷◌, ◌++◌, if◌then◌else◌,
}
use ludus.Prelude.Text.{Text, codes, is_empty}
use ludus.Archive.{has_prefix}

pub data NodeLookup : Type 0 where
  vm_found vm_not_found lookup_failed : NodeLookup

-- By the rangeID of the target: the output of a playbook that failed, or `none` for success; the name
-- of the router VM; and the lookup of that VM in the cluster. `context_range` says whether the request
-- has a range of its own, which is put back afterwards.
pub record World : Type 0 where
  pub context_range : Bool
  pub run_playbook : String → Option Text
  pub router_name : String → Text
  pub find_router : String → NodeLookup

-- A nil error, `ErrRangeRouterPoweredOff`, and any other error.
pub data PlaybookEnd : Type 0 where
  done router_powered_off failed : PlaybookEnd

-- `strings.Contains`
unfoldable pub has_text : Text → Text → Bool
unfolding has_prefix
has_text [] t = is_empty t
has_text (c ∷ s) t = let later = has_text s t in if has_prefix t (c ∷ s) then true else later

unfoldable pub playbook_reports_router_unreachable : Text → Text → Bool
unfolding has_text
playbook_reports_router_unreachable output router_vm_name =
    if is_empty router_vm_name
    then false
    else has_text output (codes "fatal: [" ++ router_vm_name ++ codes "]:")
      && has_text output (codes "UNREACHABLE")

unfoldable pub playbook_reports_undeployed_range_router : Text → Bool
unfolding has_text
playbook_reports_undeployed_range_router output =
    has_text output (codes "Target router is not up.")
    && has_text output (codes "range has not been deployed yet")

unfoldable pub run_access_control_playbook : World → String → PlaybookEnd
run_access_control_playbook w range_id =
    if w.context_range
    then elim (w.run_playbook range_id) [
      | none ↦ done
      | some output ↦
          if playbook_reports_undeployed_range_router output
          then done
          else elim (w.find_router range_id) [
            | vm_not_found ↦ done
            | lookup_failed ↦ failed
            | vm_found ↦
                if playbook_reports_router_unreachable output (w.router_name range_id)
                then router_powered_off
                else failed
          ]
    ]
    else failed
