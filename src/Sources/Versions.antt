-- ===== src/Sources/Versions.antt =====
-- ludus-api/source_catalog.go: whether an installed version satisfies the pin of a requirement.
use ludus.Prelude.{Bool, true, false, not, ◌&&◌, ◌||◌, List, [], ◌∷◌, drop, length, if◌then◌else◌}
use ludus.Prelude.Text.{Text, codes, is_empty, text_eq, trim_space}
use ludus.Archive.{has_prefix}

pub data Operator : Type 0 where
  at_least : Operator
  at_most : Operator
  equals : Operator
  differs : Operator
  above : Operator
  below : Operator

abbrev pub operator_text : Operator → Text
operator_text at_least = codes ">="
operator_text at_most = codes "<="
operator_text equals = codes "=="
operator_text differs = codes "!="
operator_text above = codes ">"
operator_text below = codes "<"

-- In the order in which they are tried.
abbrev pub all_operators : List Operator
all_operators = at_least ∷ at_most ∷ equals ∷ differs ∷ above ∷ below ∷ []

unfoldable pub first_operator : List Operator → Text → Operator × Text
unfolding has_prefix
first_operator [] s = (equals, s)
first_operator (op ∷ ops) s =
    let later = first_operator ops s in
    if has_prefix (operator_text op) s
    then (op, trim_space (drop (length (operator_text op)) s))
    else later

unfoldable pub parse_version_constraint : Text → Operator × Text
unfolding first_operator
parse_version_constraint s = first_operator all_operators (trim_space s)

unfoldable pub semverify : Text → Text
unfolding has_prefix
semverify v = if is_empty v || has_prefix (codes "v") v then v else b'v' ∷ v

-- What `semver.Compare` answers.
pub data Order : Type 0 where
  less : Order
  same : Order
  greater : Order

-- `semver.IsValid` and `semver.Compare`.
pub record Semver : Type 0 where
  pub is_valid : Text → Bool
  pub compare_versions : Text → Text → Order

abbrev pub holds : Operator → Order → Bool
holds equals same = true
holds equals _ = false
holds differs same = false
holds differs _ = true
holds above greater = true
holds above _ = false
holds at_least less = false
holds at_least _ = true
holds below less = true
holds below _ = false
holds at_most greater = false
holds at_most _ = true

abbrev is_equals : Operator → Bool
is_equals equals = true
is_equals _ = false

-- The two versions in the form of semver; where one is not valid, `equal` says whether they are the
-- same text.
unfoldable pub order_satisfies : Semver → Operator → Text → Text → Bool → Bool
order_satisfies v op installed want equal =
    if not (v.is_valid installed) || not (v.is_valid want)
    then is_equals op && equal
    else holds op (v.compare_versions installed want)

-- An early return of false.
abbrev pub unless_empty : Bool → Bool → Bool
unless_empty true answer = false
unless_empty false answer = answer

-- With the parsed constraint.
unfoldable pub version_satisfies : Semver → Text → Operator × Text → Bool
unfolding semverify text_eq order_satisfies
version_satisfies v installed (op, want) =
    unless_empty (is_empty want)
      (order_satisfies v op (semverify installed) (semverify want) (text_eq installed want))

unfoldable pub installed_version_satisfies : Semver → Text → Text → Bool
unfolding version_satisfies parse_version_constraint
installed_version_satisfies v given constraint =
    let installed = trim_space given in
    let pin = trim_space constraint in
    unless_empty (is_empty installed || is_empty pin)
      (version_satisfies v installed (parse_version_constraint pin))

pub data ArtifactState : Type 0 where
  state_not_installed : ArtifactState
  state_installed : ArtifactState
  state_upgrade_available : ArtifactState

unfoldable pub version_state : Semver → Text → Text → ArtifactState
unfolding installed_version_satisfies text_eq
version_state v installed_ver walked_version =
    if is_empty walked_version || is_empty installed_ver || text_eq walked_version installed_ver
    then state_installed
    else if installed_version_satisfies v installed_ver walked_version
    then state_installed
    else state_upgrade_available

-- The artifacts that are installed, by the kind and the name.
pub record InstalledArtifact : Type 0 where
  pub artifact_key : Text
  pub installed_version : Text

unfoldable pub artifact_state : Semver → List InstalledArtifact → Text → Text → ArtifactState × Text
unfolding version_state text_eq
artifact_state v [] key walked_version = (state_not_installed, [])
artifact_state v (a ∷ installed) key walked_version =
    let later = artifact_state v installed key walked_version in
    if text_eq a.artifact_key key
    then (version_state v a.installed_version walked_version, a.installed_version)
    else later
