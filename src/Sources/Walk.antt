-- ===== src/Sources/Walk.antt =====
-- ludus-api/source_walker.go, with the manifests of source_schema.go: the walk of the blueprints of a
-- checkout. The names of directory entries are segments, so `filepath.Join` puts them behind a "/".
use ludus.Prelude.{
  ℕ, zero, suc, Bool, true, false, not, ◌&&◌, ◌||◌, Option, none, some, List, [], ◌∷◌, ◌++◌, leb,
  ltb, length, if◌then◌else◌,
}
use ludus.Prelude.Text.{Text, codes, is_empty, split, text_eq}
use ludus.Prelude.Result.{Result, ok, err}
use ludus.Archive.{slash, dot_dot, is_dot, is_dot_dot, is_abs, has_prefix, clean, join_path}
use ludus.Sources.Requirements.{text_ltb, add_sorted}
use ludus.Sources.{BlueprintManifest, WalkedBlueprint, WalkedSource, all_token_characters}

-- blueprint.yml as the YAML parser gives it.
pub record RawManifest : Type 0 where
  pub manifest_version : ℕ
  pub manifest : BlueprintManifest
  pub config : Text
  pub thumbnail_path : Text

pub data ManifestError : Type 0 where
  not_yaml : ManifestError
  version_not_supported : ℕ → ManifestError
  id_required : ManifestError
  bad_id : ManifestError
  name_required : ManifestError
  version_required : ManifestError
  bad_version : ManifestError
  config_required : ManifestError
  absolute_path : Text → ManifestError
  outside_path : Text → ManifestError

-- A file: its text, that it does not exist, or another error.
pub data FileRead : Type 0 where
  contents : Text → FileRead
  not_exist : FileRead
  read_error : FileRead

pub record DirEntry : Type 0 where
  pub entry_name : Text
  pub is_dir : Bool
  pub is_symlink : Bool

pub data Listing : Type 0 where
  entries : List DirEntry → Listing
  no_directory : Listing
  listing_error : Listing

-- The file system, the YAML parser, which gives the version of a source.yml, and `semver.IsValid`.
pub record Tree : Type 0 where
  pub read_dir : Text → Listing
  pub read : Text → FileRead
  pub stat : Text → Bool
  pub unmarshal_manifest : Text → Option RawManifest
  pub semver_is_valid : Text → Bool
  pub unmarshal_source : Text → Option ℕ

abbrev pub path_in : Text → Text → Text
path_in dir name = dir ++ slash ∷ name

unfoldable pub contains_infix : Text → Text → Bool
unfolding has_prefix
contains_infix p [] = is_empty p
contains_infix p (c ∷ s) =
    let later = contains_infix p s in if has_prefix p (c ∷ s) then true else later

unfoldable pub validate_relative_path : Text → Option ManifestError
unfolding clean has_prefix contains_infix
validate_relative_path p =
    let cleaned = clean p in
    if is_abs p
    then some (absolute_path p)
    else if is_dot_dot cleaned
        || has_prefix (dot_dot ++ slash ∷ []) cleaned
        || contains_infix (slash ∷ dot_dot ++ slash ∷ []) cleaned
        || is_dot cleaned
        || is_abs cleaned
    then some (outside_path p)
    else none

abbrev starts_with_letter : Text → Bool
starts_with_letter [] = false
starts_with_letter (c ∷ s) = (leb b'A' c && leb c b'Z') || (leb b'a' c && leb c b'z')

abbrev all_tokens : List Text → Bool
all_tokens [] = true
all_tokens (s ∷ ss) = not (is_empty s) && (all_token_characters s && all_tokens ss)

-- `blueprintManifestIDRegex`
unfoldable pub is_manifest_id : Text → Bool
unfolding split
is_manifest_id id =
    let segments = split slash [] id in
    starts_with_letter id && (all_tokens segments && leb (length segments) 3)

abbrev with_v : Text → Text
with_v version = if has_prefix (codes "v") version then version else codes "v" ++ version

abbrev first_failure : List (Option ManifestError) → Option ManifestError
first_failure [] = none
first_failure (some e ∷ checks) = some e
first_failure (none ∷ checks) = first_failure checks

abbrev refuse : Bool → ManifestError → Option ManifestError
refuse bad e = if bad then some e else none

-- The checks, in their order. A missing version of the manifest is 1, which is the only one.
unfoldable pub manifest_failure : Tree → RawManifest → Option ManifestError
unfolding is_manifest_id validate_relative_path has_prefix
manifest_failure t raw =
    let m = raw.manifest in
    first_failure (
      refuse (ltb 1 raw.manifest_version) (version_not_supported raw.manifest_version)
      ∷ refuse (is_empty m.id) id_required
      ∷ refuse (not (is_manifest_id m.id)) bad_id
      ∷ refuse (is_empty m.name) name_required
      ∷ refuse (is_empty m.version) version_required
      ∷ refuse (not (t.semver_is_valid (with_v m.version))) bad_version
      ∷ refuse (is_empty raw.config) config_required
      ∷ validate_relative_path raw.config
      ∷ (if is_empty raw.thumbnail_path then none else validate_relative_path raw.thumbnail_path)
      ∷ [])

unfoldable pub parse_blueprint_manifest : Tree → Text → Result ManifestError RawManifest
unfolding manifest_failure
parse_blueprint_manifest t text = elim (t.unmarshal_manifest text) [
  | none ↦ err not_yaml
  | some raw ↦ elim (manifest_failure t raw) [ some e ↦ err e | none ↦ ok raw ]
]

pub data WalkError : Type 0 where
  manifest_error : ManifestError → WalkError
  config_missing : Text → WalkError
  unreadable : WalkError
  id_mismatch : Text → Text → WalkError
  source_not_yaml : WalkError
  source_version_not_supported : ℕ → WalkError

unfoldable pub blueprint_of : Tree → Text → RawManifest → Text → WalkedBlueprint
unfolding join_path
blueprint_of t dir raw requirements =
    let thumb = join_path dir raw.thumbnail_path in
    record {
      dir = dir;
      manifest = some raw.manifest;
      config_path = join_path dir raw.config;
      requirements_yaml = requirements;
      thumbnail_path = if not (is_empty raw.thumbnail_path) && t.stat thumb then thumb else [];
    }

-- By what is read of requirements.yml.
unfoldable pub with_requirements :
    Tree → Text → RawManifest → FileRead → Result WalkError (Option WalkedBlueprint)
unfolding blueprint_of
with_requirements t dir raw (contents text) = ok (some (blueprint_of t dir raw text))
with_requirements t dir raw not_exist = ok (some (blueprint_of t dir raw []))
with_requirements t dir raw read_error = err unreadable

-- `walkBlueprint` after the manifest is parsed.
unfoldable pub blueprint_in :
    Tree → Text → Result ManifestError RawManifest → Result WalkError (Option WalkedBlueprint)
unfolding with_requirements join_path
blueprint_in t dir (err e) = err (manifest_error e)
blueprint_in t dir (ok raw) =
    if t.stat (join_path dir raw.config)
    then with_requirements t dir raw (t.read (path_in dir (codes "requirements.yml")))
    else err (config_missing raw.config)

-- By what is read of blueprint.yml.
unfoldable pub with_manifest : Tree → Text → FileRead → Result WalkError (Option WalkedBlueprint)
unfolding parse_blueprint_manifest blueprint_in
with_manifest t dir not_exist = ok none
with_manifest t dir read_error = err unreadable
with_manifest t dir (contents text) = blueprint_in t dir (parse_blueprint_manifest t text)

unfoldable pub walk_blueprint : Tree → Text → Result WalkError (Option WalkedBlueprint)
unfolding with_manifest
walk_blueprint t dir = with_manifest t dir (t.read (path_in dir (codes "blueprint.yml")))

abbrev pub Walked : Type 0
Walked = Result WalkError (List WalkedBlueprint)

abbrev pub walked_id : Option BlueprintManifest → Text
walked_id none = []
walked_id (some m) = m.id

-- The blueprint of a directory with a manifest, whose id must be the path from the root.
unfoldable pub located : Text → Result WalkError (Option WalkedBlueprint) → Walked
unfolding text_eq
located rel (err e) = err e
located rel (ok none) = ok []
located rel (ok (some bp)) =
    if text_eq (walked_id bp.manifest) rel
    then ok (bp ∷ [])
    else err (id_mismatch rel (walked_id bp.manifest))

-- The first error ends the walk.
unfoldable pub append_walked : Walked → Walked → Walked
append_walked (err e) rest = err e
append_walked (ok bps) (err e) = err e
append_walked (ok bps) (ok more) = ok (bps ++ more)

-- The path from the root of the blueprints, which is none for the root itself.
abbrev pub rel_in : Option Text → Text → Text
rel_in none name = name
rel_in (some rel) name = rel ++ slash ∷ name

abbrev pub Deeper : Type 0
Deeper = Text → Option Text → Walked

-- An entry that is a directory: one with a manifest is a blueprint, and `deeper` walks another.
unfoldable pub walk_directory : Tree → Deeper → Text → Text → Walked
unfolding walk_blueprint located
walk_directory t deeper sub sub_rel =
    if t.stat (path_in sub (codes "blueprint.yml"))
    then located sub_rel (walk_blueprint t sub)
    else deeper sub (some sub_rel)

abbrev pub is_skipped : DirEntry → Bool
unfolding has_prefix
is_skipped e = not e.is_dir || has_prefix (codes ".") e.entry_name || e.is_symlink

-- The loop over the entries of a directory.
unfoldable pub walk_entries : Tree → Deeper → Text → Option Text → List DirEntry → Walked
unfolding walk_directory append_walked has_prefix
walk_entries t deeper dir rel [] = ok []
walk_entries t deeper dir rel (e ∷ es) =
    let rest = walk_entries t deeper dir rel es in
    if is_skipped e
    then rest
    else append_walked
        (walk_directory t deeper (path_in dir e.entry_name) (rel_in rel e.entry_name)) rest

unfoldable pub walk_listing : Tree → Deeper → Text → Option Text → Listing → Walked
unfolding walk_entries
walk_listing t deeper dir rel no_directory = ok []
walk_listing t deeper dir rel listing_error = err unreadable
walk_listing t deeper dir rel (entries es) = walk_entries t deeper dir rel es

-- By the number of levels that are left; at none, a directory without a manifest is passed over.
unfoldable pub walk_blueprint_tree : Tree → ℕ → Text → Option Text → Walked
unfolding walk_listing
walk_blueprint_tree t zero dir rel = walk_listing t (λ sub sub_rel. ok []) dir rel (t.read_dir dir)
walk_blueprint_tree t (suc levels) dir rel =
    walk_listing t (walk_blueprint_tree t levels) dir rel (t.read_dir dir)

abbrev pub max_blueprint_depth : ℕ
max_blueprint_depth = 2

-- `sort.Slice` by the ids.
unfoldable pub insert_by_id : WalkedBlueprint → List WalkedBlueprint → List WalkedBlueprint
unfolding text_ltb
insert_by_id bp [] = bp ∷ []
insert_by_id bp (b ∷ bps) =
    let later = insert_by_id bp bps in
    if text_ltb (walked_id b.manifest) (walked_id bp.manifest) then b ∷ later else bp ∷ b ∷ bps

unfoldable pub sort_by_id : List WalkedBlueprint → List WalkedBlueprint
unfolding insert_by_id
sort_by_id [] = []
sort_by_id (bp ∷ bps) = insert_by_id bp (sort_by_id bps)

-- The paths of the directories of a directory, sorted; none where it cannot be listed.
unfoldable pub subdirs_of : Text → List DirEntry → List Text
unfolding add_sorted
subdirs_of dir [] = []
subdirs_of dir (e ∷ es) =
    let rest = subdirs_of dir es in
    if e.is_dir then add_sorted (path_in dir e.entry_name) rest else rest

unfoldable pub walk_subdirs : Tree → Text → List Text
unfolding subdirs_of
walk_subdirs t dir = elim (t.read_dir dir) [
  | entries es ↦ subdirs_of dir es
  | no_directory ↦ []
  | listing_error ↦ []
]

-- The errors of source.yml, which may be missing.
unfoldable pub source_failure : Tree → FileRead → Option WalkError
source_failure t not_exist = none
source_failure t read_error = some unreadable
source_failure t (contents text) = elim (t.unmarshal_source text) [
  | none ↦ some source_not_yaml
  | some version ↦ if ltb 1 version then some (source_version_not_supported version) else none
]

unfoldable pub with_blueprints : Tree → Text → Walked → Result WalkError WalkedSource
unfolding sort_by_id walk_subdirs
with_blueprints t root (err e) = err e
with_blueprints t root (ok bps) = ok (record {
  blueprints = sort_by_id bps;
  templates = walk_subdirs t (path_in root (codes "templates"));
  local_roles = walk_subdirs t (path_in root (codes "ansible/roles"));
  local_collections = walk_subdirs t (path_in root (codes "ansible/collections"));
})

unfoldable pub unless_failed :
    Option WalkError → Result WalkError WalkedSource → Result WalkError WalkedSource
unless_failed (some e) walked = err e
unless_failed none walked = walked

unfoldable pub walk_source_repo : Tree → Text → Result WalkError WalkedSource
unfolding source_failure unless_failed with_blueprints walk_blueprint_tree
walk_source_repo t root =
    unless_failed (source_failure t (t.read (path_in root (codes "source.yml")))) (
      with_blueprints t root
        (walk_blueprint_tree t max_blueprint_depth (path_in root (codes "blueprints")) none))
