-- ===== src/Groups.antt =====
-- ludus-api/api_group_management.go, `AddRangesToGroup` and `RemoveRangesFromGroup`, with the calls of
-- proxmox.go that set the access lists. The state is what the handlers change: the ranges of the group
-- record, the access lists of the group in Proxmox, and the access that the request keeps.
pub mod Bulk
pub mod Limits
mod Tests
use ludus.Prelude.{
  ℕ, String, Bool, true, false, not, ◌&&◌, ◌||◌, Option, none, some, List, [], ◌∷◌, ◌++◌, ◌==◌, eqb,
  contains, contains_nat, if◌then◌else◌,
}
use ludus.RangeAccess
use ludus.RangeAccess.{Cache, has_range_access}
use ludus.AccessPlaybook
use ludus.AccessPlaybook.{run_access_control_playbook, done, router_powered_off, failed}

pub record Range : Type 0 where
  pub id : String
  pub range_id : String
  pub number : ℕ

pub data RangeLookup : Type 0 where
  found : Range → RangeLookup
  missing query_failed : RangeLookup

-- `/pool/<rangeID>` and `/sdn/zones/<zone>/r<number>`.
pub data AclPath : Type 0 where
  pool : String → AclPath
  vnet : ℕ → AclPath

pub record State : Type 0 where
  pub ranges : List String
  pub pools : List String
  pub vnets : List ℕ
  pub kept : Cache

-- What the handlers ask of PocketBase, Proxmox and the playbook. `update_acl path delete` says whether
-- Proxmox carries the change out.
pub record World : Type 0 where
  pub access : RangeAccess.World
  pub playbooks : AccessPlaybook.World
  pub find_range : String → RangeLookup
  pub use_sdn : Bool
  pub root_client : Bool
  pub update_acl : AclPath → Bool → Bool
  pub range_is_deployed : String → Option Bool

pub record Actor : Type 0 where
  pub id : String
  pub user_id : String
  pub is_admin : Bool

pub data Reason : Type 0 where
  lookup_error not_found already_has_access no_access proxmox_error : Reason
  powered_off deploy_check_error deployed : Reason

-- The modifiers `ranges+` and `ranges-` of a relation field.
unfoldable pub add_id : String → List String → List String
add_id x xs = if contains xs x then xs else xs ++ x ∷ []

unfoldable pub remove_id : String → List String → List String
remove_id x [] = []
remove_id x (y ∷ ys) = let rest = remove_id x ys in if y == x then rest else y ∷ rest

add_number : ℕ → List ℕ → List ℕ
add_number x xs = if contains_nat xs x then xs else xs ++ x ∷ []

remove_number : ℕ → List ℕ → List ℕ
remove_number x [] = []
remove_number x (y ∷ ys) = let rest = remove_number x ys in if eqb y x then rest else y ∷ rest

change_acl : AclPath → Bool → State → State
unfolding add_id remove_id add_number remove_number
change_acl (pool range_id) false s = record s { pools = add_id range_id s.pools }
change_acl (pool range_id) true s = record s { pools = remove_id range_id s.pools }
change_acl (vnet number) false s = record s { vnets = add_number number s.vnets }
change_acl (vnet number) true s = record s { vnets = remove_number number s.vnets }

-- `groupACLAction` and `sdnGroupVNetACLAction`; the Boolean says whether the call succeeded.
unfoldable pub acl_action : World → AclPath → Bool → State → Bool × State
unfolding change_acl
acl_action w path revoke s =
    if w.root_client && w.update_acl path revoke
    then (true, change_acl path revoke s)
    else (false, s)

-- `grantGroupAccessToRangeInProxmox`, and with `revoke` the revoking function.
unfoldable pub group_access_in_proxmox : World → Bool → Range → State → Bool × State
unfolding acl_action
group_access_in_proxmox w revoke r s =
    if w.use_sdn
    then (let (vnet_ok, s') = acl_action w (vnet r.number) revoke s in
        if vnet_ok then acl_action w (pool r.range_id) revoke s' else (false, s'))
    else acl_action w (pool r.range_id) revoke s

-- The error string after the playbook; `none` is the empty one.
unfoldable pub playbook_reason : World → Range → Option Reason
playbook_reason w r = elim (run_access_control_playbook w.playbooks r.range_id) [
  | done ↦ none
  | router_powered_off ↦ some powered_off
  | failed ↦ elim (w.range_is_deployed r.range_id) [
    | none ↦ some deploy_check_error
    | some is_deployed ↦ if is_deployed then some deployed else none
  ]
]

-- The end of a round: with an error string the record is put back.
finish_add : Option Reason → Range → State → Option Reason × State
finish_add none r s = (none, s)
finish_add (some reason) r s = (some reason, record s { ranges = remove_id r.id s.ranges })

finish_remove : Option Reason → Range → State → Option Reason × State
finish_remove none r s = (none, s)
finish_remove (some reason) r s = (some reason, record s { ranges = add_id r.id s.ranges })

-- A round of `AddRangesToGroup`, from the range record on.
unfoldable pub add_found_range : World → Actor → Range → State → Option Reason × State
unfolding finish_add
add_found_range w actor r s =
    if contains s.ranges r.id
    then (some already_has_access, s)
    else (let (allowed, kept) = has_range_access w.access actor.user_id r.number s.kept in
        let s' = record s { kept = kept } in
        if not allowed && not actor.is_admin
        then (some no_access, s')
        else (let (granted, s'') = group_access_in_proxmox w false r s' in
            if granted
            then finish_add (playbook_reason w r) r (record s'' { ranges = add_id r.id s''.ranges })
            else (some proxmox_error, s'')))

unfoldable pub add_range : World → Actor → String → State → Option Reason × State
add_range w actor range_id s = elim (w.find_range range_id) [
  | query_failed ↦ (some lookup_error, s)
  | missing ↦ (some not_found, s)
  | found r ↦ add_found_range w actor r s
]

-- A round of `RemoveRangesFromGroup`.
unfoldable pub remove_range : World → Actor → String → State → Option Reason × State
unfolding finish_remove
remove_range w actor range_id s = elim (w.find_range range_id) [
  | query_failed ↦ (some lookup_error, s)
  | missing ↦ (some not_found, s)
  | found r ↦
      let (revoked, s') = group_access_in_proxmox w true r s in
      if revoked
      then finish_remove (playbook_reason w r) r (record s' { ranges = remove_id r.id s'.ranges })
      else (some proxmox_error, s')
]

-- The lists that are sent back.
pub record Report : Type 0 where
  pub success : List String
  pub errors : List (String × Reason)

unfoldable pub report : String → Option Reason → Report → Report
report range_id none out = record out { success = out.success ++ range_id ∷ [] }
report range_id (some reason) out = record out { errors = out.errors ++ (range_id, reason) ∷ [] }

-- The loop over the requested rangeIDs, for either round.
unfoldable pub bulk :
    (String → State → Option Reason × State) → List String → Report → State → Report × State
bulk round [] out s = (out, s)
bulk round (range_id ∷ rest) out s =
    let (reason, s') = round range_id s in bulk round rest (report range_id reason out) s'

pub data Response : Type 0 where
  forbidden bad_request : Response
  bulk_response : Report → Response

-- ludus-api/groups.go
unfoldable pub user_is_manager_of_group : Actor → List String → Bool
user_is_manager_of_group actor managers = contains managers actor.id

-- The frame of the two handlers: the acting user has to manage the group or be an admin, and the
-- body has to name a range.
unfoldable pub handle_ranges :
    (String → State → Option Reason × State)
    → Actor
    → List String
    → List String
    → State
    → Response × State
handle_ranges round actor managers [] s =
    if not (user_is_manager_of_group actor managers) && not actor.is_admin
    then (forbidden, s)
    else (bad_request, s)
handle_ranges round actor managers (id ∷ ids) s =
    if not (user_is_manager_of_group actor managers) && not actor.is_admin
    then (forbidden, s)
    else (let (out, s') = bulk round (id ∷ ids) (record { success = []; errors = [] }) s in
        (bulk_response out, s'))

unfoldable pub add_ranges_to_group :
    World → Actor → List String → List String → State → Response × State
add_ranges_to_group w actor = handle_ranges (add_range w actor) actor

unfoldable pub remove_ranges_from_group :
    World → Actor → List String → List String → State → Response × State
remove_ranges_from_group w actor = handle_ranges (remove_range w actor) actor
