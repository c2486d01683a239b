-- ===== src/Groups/Limits.antt =====
-- api_group_management.go: the access kept in a request, and the rollback of a removal.
use ludus.Prelude.{
  ℕ, String, ◌≡◌, ◌≢◌, refl, sym, ap, ◌∙◌, inl, inr, true, false, Option, none, some, List, [], ◌∷◌,
  ◌++◌, contains, contains_nat, eqb, eqb_iff, arith, Bool-cases,
}
use ludus.RangeAccess.{
  UserRecord, Cache, has_range_access, look_up_access, keep_requested, keep_requested_groups,
}
use ludus.RangeAccess.Caching.{
  has_range_access-of_kept, keep_requested_groups_only, keep_requested_only,
}
use ludus.Groups.{
  Range, RangeLookup, found, missing, query_failed, State, World, Actor, Reason, Report, add_id,
  remove_id, group_access_in_proxmox, playbook_reason, add_found_range, add_range, remove_range,
  report, bulk,
}
use ludus.Groups.Bulk.{group_access_in_proxmox-ranges, empty_report}

-- The request keeps an answer, and it is about one range number.
abbrev OnlyAbout : ℕ → Cache → Type 0
OnlyAbout n kept = (l : List ℕ) × (kept ≡ some l) × ((m : ℕ) → n ≢ m → contains_nat l m ≡ false)

first_answer :
    (w : World) (actor : Actor) (n : ℕ) (user : UserRecord) (groups : List (List ℕ))
    → w.access.find_user actor.user_id ≡ some user
    → w.access.find_groups user.id ≡ some groups
    → OnlyAbout n (has_range_access w.access actor.user_id n none).1
unfolding has_range_access look_up_access contains_nat
first_answer w actor n user groups e k =
    rw (look_up_access, e, k)
      (
        keep_requested_groups (keep_requested [] n user.ranges) n groups,
        refl,
        λ m h.
            keep_requested_groups_only (keep_requested [] n user.ranges) n m groups h
            ∙ keep_requested_only [] n m user.ranges h,
      )

found_is : {a b : Range} → found a ≡ found b → a ≡ b
found_is e = cc

-- Each of the rangeIDs names a range of this number.
abbrev pub HaveNumber : World → ℕ → List String → Type 0
HaveNumber w n [] = Unit
HaveNumber w n (x ∷ xs) =
    ((r : Range) → w.find_range x ≡ found r → r.number ≡ n) × HaveNumber w n xs

module _ (w : World) (actor : Actor) (no_admin : actor.is_admin ≡ false) (n : ℕ) where
  -- A round that finds such an answer keeps it, and succeeds for the range of that number only.
  later_round :
      (r : Range) (s : State)
      → OnlyAbout n s.kept
      → ((add_found_range w actor r s).1.kept ≡ s.kept)
        × ((add_found_range w actor r s).0 ≡ none → r.number ≡ n)
  unfolding add_found_range
  later_round r s (l, e, only) =
      let access = has_range_access-of_kept w.access actor.user_id r.number s.kept l e in
      let checked = record s {
        kept = (has_range_access w.access actor.user_id r.number s.kept).1;
      } in
      elim (Bool-cases (eqb n r.number)) [
        | inl same ↦ (
          ground (arith, access, group_access_in_proxmox-ranges w false r checked),
          λ _. sym ((eqb_iff n r.number).0 same),
        )
        | inr other ↦
            let refused : contains_nat l r.number ≡ false = only r.number (ground arith) in
            (
              ground (arith, access, group_access_in_proxmox-ranges w false r checked),
              ground (arith, access, refused),
            )
      ]

  HaveNumber-snoc :
      (xs : List String) (x : String)
      → HaveNumber w n xs
      → ((r : Range) → w.find_range x ≡ found r → r.number ≡ n)
      → HaveNumber w n (xs ++ x ∷ [])
  HaveNumber-snoc [] x h k = (k, tt)
  HaveNumber-snoc (y ∷ ys) x h k = (h.0, HaveNumber-snoc ys x h.1 k)

  abbrev Good : Report → State → Type 0
  Good out s = OnlyAbout n s.kept × HaveNumber w n out.success

  later_report :
      (range_id : String) (out : Report) (s : State) (reason : Option Reason)
      → HaveNumber w n out.success
      → (reason ≡ none → (r : Range) → w.find_range range_id ≡ found r → r.number ≡ n)
      → HaveNumber w n (report range_id reason out).success
  unfolding report
  later_report range_id out s none h k = HaveNumber-snoc out.success range_id h (k refl)
  later_report range_id out s (some reason) h k = h

  add_range-Good :
      (range_id : String) (out : Report) (s : State)
      → Good out s
      → Good (report range_id (add_range w actor range_id s).0 out) (add_range w actor range_id s).1
  unfolding add_range report
  add_range-Good range_id out s (only, h) = by_lookup (w.find_range range_id) refl
    where
      by_lookup :
          (l : RangeLookup)
          → w.find_range range_id ≡ l
          → Good
              (report range_id (add_range w actor range_id s).0 out)
              (add_range w actor range_id s).1
      by_lookup (found r) e =
          let (kept, number) = later_round r s only in
          rw (add_range, e)
            (
              rw kept only,
              later_report range_id out s (add_found_range w actor r s).0 h
                  (λ done r' e'. rw (found_is (sym e ∙ e')) at (number done)),
            )
      by_lookup missing e = rw (add_range, e) (only, h)
      by_lookup query_failed e = rw (add_range, e) (only, h)

  bulk-Good :
      (ids : List String) (out : Report) (s : State)
      → Good out s
      → HaveNumber w n (bulk (add_range w actor) ids out s).0.success
  unfolding bulk
  bulk-Good [] out s (only, h) = h
  bulk-Good (range_id ∷ ids) out s good =
      bulk-Good ids (report range_id (add_range w actor range_id s).0 out)
        (add_range w actor range_id s).1 (add_range-Good range_id out s good)

first_round_kept :
    (w : World) (actor : Actor) (r : Range) (s : State)
    → contains s.ranges r.id ≡ false
    → (add_found_range w actor r s).1.kept
      ≡ (has_range_access w.access actor.user_id r.number s.kept).1
unfolding add_found_range
first_round_kept w actor r s new = ground (
  arith,
  group_access_in_proxmox-ranges w false r
      (record s { kept = (has_range_access w.access actor.user_id r.number s.kept).1 }),
)

-- A user who is no admin asks for several ranges in one request that keeps no answer yet, the first
-- of them exists and is not in the group, and no query about the user fails: then every range that
-- the request reports as added has the number of the first one.
pub add_ranges-one_number :
    (w : World) (actor : Actor) (first_id : String) (first : Range) (ids : List String) (s : State)
    (user : UserRecord) (groups : List (List ℕ))
    → actor.is_admin ≡ false
    → s.kept ≡ none
    → w.find_range first_id ≡ found first
    → contains s.ranges first.id ≡ false
    → w.access.find_user actor.user_id ≡ some user
    → w.access.find_groups user.id ≡ some groups
    → HaveNumber w first.number (bulk (add_range w actor) (first_id ∷ ids) empty_report s).0.success
unfolding bulk add_range
add_ranges-one_number w actor first_id first ids s user groups no_admin fresh named new e k =
    bulk-Good w actor no_admin first.number ids
      (report first_id (add_range w actor first_id s).0 empty_report)
      (add_range w actor first_id s).1 (kept, number)
  where
    kept : OnlyAbout first.number (add_range w actor first_id s).1.kept
    kept =
        rw (add_range, named, first_round_kept w actor first s new, fresh)
          (first_answer w actor first.number user groups e k)

    number :
        HaveNumber w first.number
          (report first_id (add_range w actor first_id s).0 empty_report).success
    number =
        later_report w actor no_admin first.number first_id empty_report s
          (add_range w actor first_id s).0 tt
          (λ _ r named'. ap (λ x. x.number) (found_is (sym named' ∙ named)))

remove_id_absent : (x : String) (xs : List String) → contains xs x ≡ false → remove_id x xs ≡ xs
unfolding remove_id contains
remove_id_absent x [] h = refl
remove_id_absent x (y ∷ ys) h = ground (arith, remove_id_absent x ys)

-- A request to take a range from a group that does not have it, where Proxmox answers and the access
-- playbook fails for a reason that is reported: the range is reported as an error, and the group has
-- it afterwards.
pub remove_range-gives_range :
    (w : World) (actor : Actor) (range_id : String) (r : Range) (s : State) (reason : Reason)
    → w.find_range range_id ≡ found r
    → contains s.ranges r.id ≡ false
    → (group_access_in_proxmox w true r s).0 ≡ true
    → playbook_reason w r ≡ some reason
    → ((remove_range w actor range_id s).0 ≡ some reason)
      × ((remove_range w actor range_id s).1.ranges ≡ s.ranges ++ r.id ∷ [])
unfolding remove_range add_id
remove_range-gives_range w actor range_id r s reason named absent revoked failing =
    rw (remove_range, named)
      (ground (arith, group_access_in_proxmox-ranges w true r s, remove_id_absent r.id s.ranges))
