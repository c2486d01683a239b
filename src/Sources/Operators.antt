-- ===== src/Sources/Operators.antt =====
-- ludus-api/source_catalog.go, `installedVersionSatisfies`: the operators of a pin.
use ludus.Prelude.{
  ℕ, ◌≡◌, refl, ap, ◌∙◌, Bool, false, not, ◌||◌, [], ◌∷◌, ◌++◌, eqb, arith, true, ◌↔◌, ◌⊎◌,
}
use ludus.Prelude.Text.{Text, codes, is_empty, is_space, text_eq, trim_space}
use ludus.Prelude.Trimming.{trim_space-trimmed}
use ludus.Archive.{has_prefix}
use ludus.Sources.Versions.{
  Order, less, same, greater, Operator, at_least, at_most, equals, differs, above, below,
  operator_text, all_operators, first_operator, parse_version_constraint, semverify, Semver, holds,
  order_satisfies, unless_empty, version_satisfies, installed_version_satisfies,
}

-- The version does not begin with "=".
abbrev pub is_plain_version : Text → Bool
is_plain_version [] = false
is_plain_version (c ∷ s) = not (eqb c b'=')

first_operator-text :
    (op : Operator) (w : Text)
    → is_plain_version w ≡ true
    → trim_space w ≡ w
    → first_operator all_operators (operator_text op ++ w) ≡ (op, w)
unfolding first_operator has_prefix
first_operator-text at_least w h e = ap (λ v. (at_least, v)) e
first_operator-text at_most w h e = ap (λ v. (at_most, v)) e
first_operator-text equals w h e = ap (λ v. (equals, v)) e
first_operator-text differs w h e = ap (λ v. (differs, v)) e
first_operator-text above [] h e = cc
first_operator-text above (c ∷ s) h e =
    let other : eqb b'=' c ≡ false = ground arith in rw (other, e) refl
first_operator-text below [] h e = cc
first_operator-text below (c ∷ s) h e =
    let other : eqb b'=' c ≡ false = ground arith in rw (other, e) refl

operator_text-trimmed :
    (op : Operator) (s : Text) (d : ℕ)
    → is_space d ≡ false
    → trim_space (operator_text op ++ (s ++ d ∷ [])) ≡ operator_text op ++ (s ++ d ∷ [])
unfolding is_space
operator_text-trimmed at_least s d h = trim_space-trimmed b'>' (b'=' ∷ s) d refl h
operator_text-trimmed at_most s d h = trim_space-trimmed b'<' (b'=' ∷ s) d refl h
operator_text-trimmed equals s d h = trim_space-trimmed b'=' (b'=' ∷ s) d refl h
operator_text-trimmed differs s d h = trim_space-trimmed b'!' (b'=' ∷ s) d refl h
operator_text-trimmed above s d h = trim_space-trimmed b'>' s d refl h
operator_text-trimmed below s d h = trim_space-trimmed b'<' s d refl h

is_empty-operator_text : (op : Operator) (w : Text) → is_empty (operator_text op ++ w) ≡ false
is_empty-operator_text at_least w = refl
is_empty-operator_text at_most w = refl
is_empty-operator_text equals w = refl
is_empty-operator_text differs w = refl
is_empty-operator_text above w = refl
is_empty-operator_text below w = refl

is_empty-plain_version : (w : Text) → is_plain_version w ≡ true → is_empty w ≡ false
is_empty-plain_version [] h = cc
is_empty-plain_version (c ∷ s) h = refl

parse_version_constraint-text :
    (op : Operator) (s : Text) (d : ℕ)
    → is_space d ≡ false
    → trim_space (s ++ d ∷ []) ≡ s ++ d ∷ []
    → is_plain_version (s ++ d ∷ []) ≡ true
    → parse_version_constraint (operator_text op ++ (s ++ d ∷ [])) ≡ (op, s ++ d ∷ [])
unfolding parse_version_constraint
parse_version_constraint-text op s d space trimmed plain =
    ap (first_operator all_operators) (operator_text-trimmed op s d space)
    ∙ first_operator-text op (s ++ d ∷ []) plain trimmed

order_satisfies-holds :
    (v : Semver) (op : Operator) (installed want : Text) (equal : Bool)
    → v.is_valid installed ≡ true
    → v.is_valid want ≡ true
    → order_satisfies v op installed want equal ≡ holds op (v.compare_versions installed want)
unfolding order_satisfies
order_satisfies-holds v op installed want equal h k = rw (h, k) refl

version_satisfies-holds :
    (v : Semver) (op : Operator) (installed want : Text)
    → is_empty want ≡ false
    → v.is_valid (semverify installed) ≡ true
    → v.is_valid (semverify want) ≡ true
    → version_satisfies v installed (op, want)
      ≡ holds op (v.compare_versions (semverify installed) (semverify want))
unfolding version_satisfies
version_satisfies-holds v op installed want present h k =
    let equal = text_eq installed want in
    ap (λ b. unless_empty b (order_satisfies v op (semverify installed) (semverify want) equal))
      present
    ∙ order_satisfies-holds v op (semverify installed) (semverify want) equal h k

-- The six comparisons that a pin can ask for, as it is written and as it is meant.
pub data Comparison : Type 0 where
  not_less not_greater the_same not_the_same strictly_greater strictly_less : Comparison

abbrev pub sign : Comparison → Text
sign not_less = codes ">="
sign not_greater = codes "<="
sign the_same = codes "=="
sign not_the_same = codes "!="
sign strictly_greater = codes ">"
sign strictly_less = codes "<"

abbrev pub IsMet : Comparison → Order → Type 0
IsMet not_less o = (o ≡ greater) ⊎ (o ≡ same)
IsMet not_greater o = (o ≡ less) ⊎ (o ≡ same)
IsMet the_same o = o ≡ same
IsMet not_the_same o = (o ≡ less) ⊎ (o ≡ greater)
IsMet strictly_greater o = o ≡ greater
IsMet strictly_less o = o ≡ less

abbrev operator_of : Comparison → Operator
operator_of not_less = at_least
operator_of not_greater = at_most
operator_of the_same = equals
operator_of not_the_same = differs
operator_of strictly_greater = above
operator_of strictly_less = below

sign-operator_text : (k : Comparison) → sign k ≡ operator_text (operator_of k)
sign-operator_text not_less = refl
sign-operator_text not_greater = refl
sign-operator_text the_same = refl
sign-operator_text not_the_same = refl
sign-operator_text strictly_greater = refl
sign-operator_text strictly_less = refl

holds-IsMet : (k : Comparison) (o : Order) → (holds (operator_of k) o ≡ true) ↔ IsMet k o
holds-IsMet not_less less = ground arith
holds-IsMet not_less same = ground arith
holds-IsMet not_less greater = ground arith
holds-IsMet not_greater less = ground arith
holds-IsMet not_greater same = ground arith
holds-IsMet not_greater greater = ground arith
holds-IsMet the_same less = ground arith
holds-IsMet the_same same = ground arith
holds-IsMet the_same greater = ground arith
holds-IsMet not_the_same less = ground arith
holds-IsMet not_the_same same = ground arith
holds-IsMet not_the_same greater = ground arith
holds-IsMet strictly_greater less = ground arith
holds-IsMet strictly_greater same = ground arith
holds-IsMet strictly_greater greater = ground arith
holds-IsMet strictly_less less = ground arith
holds-IsMet strictly_less same = ground arith
holds-IsMet strictly_less greater = ground arith

installed_version_satisfies-order :
    (v : Semver) (op : Operator) (given s : Text) (d : ℕ)
    → trim_space given ≡ given
    → is_empty given ≡ false
    → is_space d ≡ false
    → trim_space (s ++ d ∷ []) ≡ s ++ d ∷ []
    → is_plain_version (s ++ d ∷ []) ≡ true
    → v.is_valid (semverify given) ≡ true
    → v.is_valid (semverify (s ++ d ∷ [])) ≡ true
    → installed_version_satisfies v given (operator_text op ++ (s ++ d ∷ []))
      ≡ holds op (v.compare_versions (semverify given) (semverify (s ++ d ∷ [])))
unfolding installed_version_satisfies
installed_version_satisfies-order v op given s d trimmed present space w_trimmed plain valid
      w_valid =
    let w = s ++ d ∷ [] in
    let pin = operator_text op ++ w in
    let pin_trimmed : trim_space pin ≡ pin = operator_text-trimmed op s d space in
    let texts : is_empty given || is_empty pin ≡ false =
      rw (present, is_empty-operator_text op w) refl in
    let parsed : parse_version_constraint pin ≡ (op, w) =
      parse_version_constraint-text op s d space w_trimmed plain in
    ap
      (λ i.
        unless_empty (is_empty i || is_empty (trim_space pin))
          (version_satisfies v i (parse_version_constraint (trim_space pin))))
      trimmed
    ∙ ap
        (λ c.
          unless_empty (is_empty given || is_empty c)
            (version_satisfies v given (parse_version_constraint c)))
        pin_trimmed
    ∙ ap (λ b. unless_empty b (version_satisfies v given (parse_version_constraint pin))) texts
    ∙ ap (version_satisfies v given) parsed
    ∙ version_satisfies-holds v op given w (is_empty-plain_version w plain) valid w_valid

-- A pin is one of the signs ">=", "<=", "==", "!=", ">" and "<" in front of a version, which does not
-- begin with "=" and is trimmed. An installed version that is trimmed and not empty satisfies it
-- exactly when the order of the two versions, with a "v" in front where it is missing, is what the
-- sign means: not less, not greater, the same, not the same, greater, less. Both are valid to semver.
pub installed_version_satisfies-IsMet :
    (v : Semver) (k : Comparison) (given s : Text) (d : ℕ)
    → trim_space given ≡ given
    → is_empty given ≡ false
    → is_space d ≡ false
    → trim_space (s ++ d ∷ []) ≡ s ++ d ∷ []
    → is_plain_version (s ++ d ∷ []) ≡ true
    → v.is_valid (semverify given) ≡ true
    → v.is_valid (semverify (s ++ d ∷ [])) ≡ true
    → (installed_version_satisfies v given (sign k ++ (s ++ d ∷ [])) ≡ true)
      ↔ IsMet k (v.compare_versions (semverify given) (semverify (s ++ d ∷ [])))
installed_version_satisfies-IsMet v k given s d trimmed present space w_trimmed plain valid
      w_valid =
    rw
      (
        sign-operator_text k,
        installed_version_satisfies-order v (operator_of k) given s d trimmed present space
            w_trimmed plain valid w_valid,
      )
      (holds-IsMet k (v.compare_versions (semverify given) (semverify (s ++ d ∷ []))))
