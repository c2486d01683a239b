-- ===== src/Quota/Resolve.antt =====
-- quota.go, which limit applies: `resolveQuota`, `ResolveQuotaSource` and `GetGroupDefaultQuota`.
use ludus.Prelude.{String, ◌≡◌, refl, ◌⊎◌, inl, false, List, [], ◌∷◌, arith, if◌then◌else◌}
use ludus.Prelude.Int64.{ℤ, pos, ◌≤ℤ◌, ltb_ℤ}
use ludus.Quota.{
  QuotaSource, from_user, from_group, from_system, unlimited, Group, User, resolve_quota,
  resolve_quota_source, is_quota_exceeded, group_quota_value, max_group_quota,
  get_group_default_quota,
}

-- What the label says of the limit.
pub record LabelFits (user_quota group_quota system_quota limit : ℤ) (label : QuotaSource)
    : Type 0 where
  pub user : label ≡ from_user → limit ≡ user_quota
  pub group : label ≡ from_group → (limit ≡ group_quota) × (user_quota ≤ℤ pos 0)
  pub system :
      label ≡ from_system → (limit ≡ system_quota) × (user_quota ≤ℤ pos 0) × (group_quota ≤ℤ pos 0)
  pub never_refuses :
      label ≡ unlimited
      → (current requested : ℤ) → is_quota_exceeded current requested limit ≡ false
  pub limited : (label ≡ unlimited) ⊎ (pos 1 ≤ℤ limit)

-- Where the system default is not negative, the label names the level whose value is the limit and
-- the levels before it set none; the label of no limit stands for a limit that refuses nothing, and
-- any other for a limit of at least one.
pub resolve_quota_source-LabelFits :
    (u g s : ℤ) → pos 0 ≤ℤ s → LabelFits u g s (resolve_quota u g s) (resolve_quota_source u g s)
unfolding resolve_quota resolve_quota_source is_quota_exceeded
resolve_quota_source-LabelFits u g s h = record {
  user = ground arith;
  group = ground arith;
  system = ground arith;
  never_refuses = λ e c r. ground arith;
  limited = ground arith;
}

-- Every group of the list has at most this value.
abbrev pub AllBelow : ℤ → List Group → String → Type 0
AllBelow m [] t = Unit
AllBelow m (g ∷ gs) t = (group_quota_value g t ≤ℤ m) × AllBelow m gs t

-- Some group of the list has this value.
abbrev pub IsValueOf : ℤ → List Group → String → Type 0
IsValueOf m [] t = ⊥
IsValueOf m (g ∷ gs) t = (group_quota_value g t ≡ m) ⊎ IsValueOf m gs t

AllBelow-le : (m n : ℤ) (gs : List Group) (t : String) → m ≤ℤ n → AllBelow m gs t → AllBelow n gs t
AllBelow-le m n [] t h a = tt
AllBelow-le m n (g ∷ gs) t h a = (omega arith, AllBelow-le m n gs t h a.1)

abbrev larger : ℤ → ℤ → ℤ
larger m v = if ltb_ℤ m v then v else m

larger_bounds : (m v : ℤ) → (m ≤ℤ larger m v) × (v ≤ℤ larger m v)
larger_bounds m v = ground arith

le-max_group_quota : (m : ℤ) (gs : List Group) (t : String) → m ≤ℤ max_group_quota m gs t
unfolding max_group_quota
le-max_group_quota m [] t = omega arith
le-max_group_quota m (g ∷ gs) t =
    let v = group_quota_value g t in
    omega (arith, larger_bounds m v, le-max_group_quota (larger m v) gs t)

max_group_quota-AllBelow :
    (m : ℤ) (gs : List Group) (t : String) → AllBelow (max_group_quota m gs t) gs t
unfolding max_group_quota
max_group_quota-AllBelow m [] t = tt
max_group_quota-AllBelow m (g ∷ gs) t =
    let v = group_quota_value g t in
    (
      omega (arith, larger_bounds m v, le-max_group_quota (larger m v) gs t),
      max_group_quota-AllBelow (larger m v) gs t,
    )

max_group_quota-IsValueOf :
    (m : ℤ) (gs : List Group) (t : String)
    → (max_group_quota m gs t ≡ m) ⊎ IsValueOf (max_group_quota m gs t) gs t
unfolding max_group_quota
max_group_quota-IsValueOf m [] t = inl refl
max_group_quota-IsValueOf m (g ∷ gs) t =
    ground (arith, max_group_quota-IsValueOf (larger m (group_quota_value g t)) gs t)

-- The group default is not negative, no group of the user sets a larger one for that kind of quota,
-- and it is 0 or the value that some group sets.
pub get_group_default_quota-is_max :
    (user : User) (t : String)
    → let m = get_group_default_quota user t in
      (pos 0 ≤ℤ m) × AllBelow m user.groups t × ((m ≡ pos 0) ⊎ IsValueOf m user.groups t)
unfolding get_group_default_quota
get_group_default_quota-is_max user t = (
  le-max_group_quota (pos 0) user.groups t,
  max_group_quota-AllBelow (pos 0) user.groups t,
  max_group_quota-IsValueOf (pos 0) user.groups t,
)
