-- ===== src/Groups/Bulk.antt =====
-- api_group_management.go: what a bulk request leaves in the group record, and what it reports.
use ludus.Prelude.{
  String, ◌≡◌, refl, sym, ap, ◌∙◌, inl, inr, Bool, true, false, Option, none, some, List, [], ◌∷◌,
  ◌++◌, append-nil, append_assoc, contains, arith, eq_iff, Option-cases,
}
use ludus.RangeAccess.{has_range_access}
use ludus.Groups.{
  Range, RangeLookup, found, missing, query_failed, AclPath, pool, vnet, State, World, Actor,
  Reason, Report, add_id, remove_id, acl_action, group_access_in_proxmox, add_found_range,
  add_range, report, bulk,
}

acl_action-ranges :
    (w : World) (p : AclPath) (revoke : Bool) (s : State)
    → ((acl_action w p revoke s).1.ranges ≡ s.ranges) × ((acl_action w p revoke s).1.kept ≡ s.kept)
unfolding acl_action
acl_action-ranges w (pool i) false s = ground arith
acl_action-ranges w (pool i) true s = ground arith
acl_action-ranges w (vnet i) false s = ground arith
acl_action-ranges w (vnet i) true s = ground arith

-- Setting an access list leaves the group record alone.
pub group_access_in_proxmox-ranges :
    (w : World) (revoke : Bool) (r : Range) (s : State)
    → ((group_access_in_proxmox w revoke r s).1.ranges ≡ s.ranges)
      × ((group_access_in_proxmox w revoke r s).1.kept ≡ s.kept)
unfolding group_access_in_proxmox
group_access_in_proxmox-ranges w revoke r s = ground (
  arith,
  acl_action-ranges w (vnet r.number) revoke s,
  acl_action-ranges w (pool r.range_id) revoke (acl_action w (vnet r.number) revoke s).1,
  acl_action-ranges w (pool r.range_id) revoke s,
)

pub remove_id_snoc :
    (x : String) (xs : List String) → contains xs x ≡ false → remove_id x (xs ++ x ∷ []) ≡ xs
unfolding remove_id contains
remove_id_snoc x [] h = ground (arith, eq_iff x x)
remove_id_snoc x (y ∷ ys) h = ground (arith, remove_id_snoc x ys)

-- What a round does to the group's ranges, once the range is found and the access is checked.
module _ (w : World) (actor : Actor) (r : Range) (s : State) where
  abbrev checked : State
  checked = record s { kept = (has_range_access w.access actor.user_id r.number s.kept).1 }

  add_found_range-adds :
      (add_found_range w actor r s).0 ≡ none
      → (add_found_range w actor r s).1.ranges ≡ s.ranges ++ r.id ∷ []
  unfolding add_found_range add_id
  add_found_range-adds h = ground (arith, group_access_in_proxmox-ranges w false r checked)

  add_found_range-restores :
      (reason : Reason)
      → (add_found_range w actor r s).0 ≡ some reason
      → (add_found_range w actor r s).1.ranges ≡ s.ranges
  unfolding add_found_range add_id
  add_found_range-restores reason h =
      ground (arith, group_access_in_proxmox-ranges w false r checked, remove_id_snoc r.id s.ranges)

-- The records of the named ranges.
abbrev pub record_ids : World → List String → List String
record_ids w [] = []
record_ids w (range_id ∷ rest) = elim (w.find_range range_id) [
  | found r ↦ r.id ∷ record_ids w rest
  | missing ↦ record_ids w rest
  | query_failed ↦ record_ids w rest
]

record_ids-append :
    (w : World) (xs ys : List String) → record_ids w (xs ++ ys) ≡ record_ids w xs ++ record_ids w ys
record_ids-append w [] ys = refl
record_ids-append w (x ∷ xs) ys = ground (arith, record_ids-append w xs ys)

record_ids-snoc :
    (w : World) (xs : List String) (range_id : String) (r : Range)
    → w.find_range range_id ≡ found r
    → record_ids w (xs ++ range_id ∷ []) ≡ record_ids w xs ++ r.id ∷ []
record_ids-snoc w xs range_id r e = record_ids-append w xs (range_id ∷ []) ∙ rw (record_ids, e)

-- A round keeps the group's ranges in step with the list of successes.
module _ (w : World) (actor : Actor) (range_id : String) (out : Report) (s : State)
    (base : List String) (before : s.ranges ≡ base ++ record_ids w out.success) where
  abbrev InStep : Option Reason × State → Type 0
  InStep (reason, s') = s'.ranges ≡ base ++ record_ids w (report range_id reason out).success

  add_found_range-InStep :
      (r : Range) → w.find_range range_id ≡ found r → InStep (add_found_range w actor r s)
  unfolding report
  add_found_range-InStep r e = elim (Option-cases (add_found_range w actor r s).0) [
    | inl n ↦
        rw (n, report, record_ids-snoc w out.success range_id r e)
          (add_found_range-adds w actor r s n
            ∙ ap (λ l. l ++ r.id ∷ []) before
            ∙ append_assoc base (record_ids w out.success) (r.id ∷ []))
    | inr (reason, k) ↦ rw (k, report) (add_found_range-restores w actor r s reason k ∙ before)
  ]

  add_range-InStep : InStep (add_range w actor range_id s)
  unfolding add_range report
  add_range-InStep = by_lookup (w.find_range range_id) refl
    where
      by_lookup :
          (l : RangeLookup) → w.find_range range_id ≡ l → InStep (add_range w actor range_id s)
      by_lookup (found r) e = rw (add_range, e) (add_found_range-InStep r e)
      by_lookup missing e = rw (add_range, e) before
      by_lookup query_failed e = rw (add_range, e) before

bulk_in_step :
    (w : World) (actor : Actor) (ids : List String) (out : Report) (s : State) (base : List String)
    → s.ranges ≡ base ++ record_ids w out.success
    → (bulk (add_range w actor) ids out s).1.ranges
      ≡ base ++ record_ids w (bulk (add_range w actor) ids out s).0.success
unfolding bulk
bulk_in_step w actor [] out s base h = h
bulk_in_step w actor (range_id ∷ ids) out s base h =
    bulk_in_step w actor ids (report range_id (add_range w actor range_id s).0 out)
      (add_range w actor range_id s).1 base (add_range-InStep w actor range_id out s base h)

abbrev pub empty_report : Report
empty_report = record { success = []; errors = [] }

-- After a bulk request to add ranges the group has the ranges that it had, and behind them those of
-- the rangeIDs reported as successes, in order: what a failed round wrote is put back.
pub add_ranges-adds_successes :
    (w : World) (actor : Actor) (ids : List String) (s : State)
    → let (out, s') = bulk (add_range w actor) ids empty_report s in
      s'.ranges ≡ s.ranges ++ record_ids w out.success
add_ranges-adds_successes w actor ids s =
    bulk_in_step w actor ids empty_report s s.ranges (sym (append-nil s.ranges))
