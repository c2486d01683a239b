-- ===== src/Sources/Located.antt =====
-- ludus-api/source_walker.go, `walkBlueprintTree`: where the blueprints of a walk stand.
use ludus.Prelude.{
  ℕ, zero, suc, ◌≡◌, refl, sym, subst, Bool, true, false, ◌&&◌, inl, inr, Option, none, some, List,
  [], ◌∷◌, ◌++◌, append_assoc, Bool-cases, arith,
}
use ludus.Prelude.Text.{Text, codes, text_eq}
use ludus.Prelude.Splitting.{text_eq-equal, text_eq_refl}
use ludus.Prelude.Result.{Result, ok, err}
use ludus.Archive.{slash, join_path}
use ludus.Sources.{BlueprintManifest, WalkedBlueprint, WalkedSource}
use ludus.Sources.Requirements.{text_ltb}
use ludus.Sources.Walk.{
  RawManifest, ManifestError, FileRead, contents, not_exist, read_error, DirEntry, Listing, entries,
  no_directory, listing_error, Tree, path_in, with_requirements, blueprint_in, with_manifest,
  walk_blueprint, WalkError, Walked, walked_id, located, append_walked, rel_in, Deeper,
  walk_directory, is_skipped, walk_entries, walk_listing, walk_blueprint_tree, max_blueprint_depth,
  insert_by_id, sort_by_id, with_blueprints, source_failure, unless_failed, walk_source_repo,
  parse_blueprint_manifest,
}

abbrev has_manifest : Option BlueprintManifest → Bool
has_manifest none = false
has_manifest (some m) = true

-- A blueprint with a manifest, in the directory that its id names.
unfoldable pub is_at : Text → WalkedBlueprint → Bool
unfolding text_eq
is_at root bp = has_manifest bp.manifest && text_eq bp.dir (path_in root (walked_id bp.manifest))

unfoldable pub all_at : Text → List WalkedBlueprint → Bool
unfolding is_at
all_at root [] = true
all_at root (bp ∷ bps) = is_at root bp && all_at root bps

-- What a walk that does not fail gives.
unfoldable pub walked_at : Text → Walked → Bool
unfolding all_at
walked_at root (err e) = true
walked_at root (ok bps) = all_at root bps

all_at-append :
    (root : Text) (xs ys : List WalkedBlueprint)
    → all_at root xs ≡ true
    → all_at root ys ≡ true
    → all_at root (xs ++ ys) ≡ true
unfolding all_at
all_at-append root [] ys h k = k
all_at-append root (x ∷ xs) ys h k = ground (arith, all_at-append root xs ys)

walked_at-append_walked :
    (root : Text) (first rest : Walked)
    → walked_at root first ≡ true
    → walked_at root rest ≡ true
    → walked_at root (append_walked first rest) ≡ true
unfolding walked_at append_walked
walked_at-append_walked root (err e) rest h k = refl
walked_at-append_walked root (ok xs) (err e) h k = refl
walked_at-append_walked root (ok xs) (ok ys) h k = all_at-append root xs ys h k

-- The blueprint of a directory, if there is one.
unfoldable pub in_dir : Text → Result WalkError (Option WalkedBlueprint) → Bool
unfolding text_eq
in_dir dir (err e) = true
in_dir dir (ok none) = true
in_dir dir (ok (some bp)) = has_manifest bp.manifest && text_eq bp.dir dir

with_requirements-in_dir :
    (t : Tree) (dir : Text) (raw : RawManifest) (requirements : FileRead)
    → in_dir dir (with_requirements t dir raw requirements) ≡ true
unfolding in_dir with_requirements
with_requirements-in_dir t dir raw (contents text) = text_eq_refl dir
with_requirements-in_dir t dir raw not_exist = text_eq_refl dir
with_requirements-in_dir t dir raw read_error = refl

blueprint_in-in_dir :
    (t : Tree) (dir : Text) (parsed : Result ManifestError RawManifest)
    → in_dir dir (blueprint_in t dir parsed) ≡ true
unfolding in_dir blueprint_in
blueprint_in-in_dir t dir (err e) = refl
blueprint_in-in_dir t dir (ok raw) =
    let found =
      with_requirements-in_dir t dir raw (t.read (path_in dir (codes "requirements.yml"))) in
    elim (Bool-cases (t.stat (join_path dir raw.config))) [
      | inl there ↦ rw there found
      | inr missing ↦ rw missing refl
    ]

with_manifest-in_dir :
    (t : Tree) (dir : Text) (manifest : FileRead) → in_dir dir (with_manifest t dir manifest) ≡ true
unfolding in_dir with_manifest
with_manifest-in_dir t dir not_exist = refl
with_manifest-in_dir t dir read_error = refl
with_manifest-in_dir t dir (contents text) =
    blueprint_in-in_dir t dir (parse_blueprint_manifest t text)

located-walked_at :
    (root rel : Text) (found : Result WalkError (Option WalkedBlueprint))
    → in_dir (path_in root rel) found ≡ true
    → walked_at root (located rel found) ≡ true
unfolding in_dir located walked_at all_at is_at
located-walked_at root rel (err e) h = refl
located-walked_at root rel (ok none) h = refl
located-walked_at root rel (ok (some bp)) h =
    elim (Bool-cases (text_eq (walked_id bp.manifest) rel)) [
      | inl same ↦
          (let e = text_eq-equal (walked_id bp.manifest) rel same in rw (same, e) (ground arith))
      | inr other ↦ rw other refl
    ]

-- The directory of a path from the root.
abbrev dir_at : Text → Option Text → Text
dir_at root none = root
dir_at root (some rel) = path_in root rel

path_in-dir_at :
    (root : Text) (rel : Option Text) (name : Text)
    → path_in (dir_at root rel) name ≡ path_in root (rel_in rel name)
path_in-dir_at root none name = refl
path_in-dir_at root (some rel) name = append_assoc root (slash ∷ rel) (slash ∷ name)

module _ (t : Tree) (root : Text) where
  abbrev GoesDeeper : Deeper → Type 0
  GoesDeeper deeper = (rel : Text) → walked_at root (deeper (path_in root rel) (some rel)) ≡ true

  walk_directory-walked_at :
      (deeper : Deeper) (sub_rel : Text)
      → GoesDeeper deeper
      → walked_at root (walk_directory t deeper (path_in root sub_rel) sub_rel) ≡ true
  unfolding walk_directory walk_blueprint
  walk_directory-walked_at deeper sub_rel h =
      let sub = path_in root sub_rel in
      let found = with_manifest-in_dir t sub (t.read (path_in sub (codes "blueprint.yml"))) in
      elim (Bool-cases (t.stat (path_in sub (codes "blueprint.yml")))) [
        | inl there ↦ rw there (located-walked_at root sub_rel (walk_blueprint t sub) found)
        | inr missing ↦ rw missing (h sub_rel)
      ]

  walk_entries-walked_at :
      (deeper : Deeper) (rel : Option Text) (es : List DirEntry)
      → GoesDeeper deeper
      → walked_at root (walk_entries t deeper (dir_at root rel) rel es) ≡ true
  unfolding walk_entries walked_at all_at
  walk_entries-walked_at deeper rel [] h = refl
  walk_entries-walked_at deeper rel (e ∷ es) h =
      let rest = walk_entries-walked_at deeper rel es h in
      let sub_rel = rel_in rel e.entry_name in
      let here =
        subst (λ sub. walked_at root (walk_directory t deeper sub sub_rel) ≡ true)
          (sym (path_in-dir_at root rel e.entry_name))
          (walk_directory-walked_at deeper sub_rel h) in
      let both =
        walked_at-append_walked root
          (walk_directory t deeper (path_in (dir_at root rel) e.entry_name) sub_rel)
          (walk_entries t deeper (dir_at root rel) rel es) here rest in
      elim (Bool-cases (is_skipped e)) [
        | inl skipped ↦ rw skipped rest
        | inr entered ↦ rw entered both
      ]

  walk_listing-walked_at :
      (deeper : Deeper) (rel : Option Text) (listing : Listing)
      → GoesDeeper deeper
      → walked_at root (walk_listing t deeper (dir_at root rel) rel listing) ≡ true
  unfolding walk_listing walked_at all_at
  walk_listing-walked_at deeper rel no_directory h = refl
  walk_listing-walked_at deeper rel listing_error h = refl
  walk_listing-walked_at deeper rel (entries es) h = walk_entries-walked_at deeper rel es h

  walk_blueprint_tree-walked_at :
      (levels : ℕ) (rel : Option Text)
      → walked_at root (walk_blueprint_tree t levels (dir_at root rel) rel) ≡ true
  unfolding walk_blueprint_tree walked_at all_at
  walk_blueprint_tree-walked_at zero rel =
      walk_listing-walked_at (λ sub sub_rel. ok []) rel (t.read_dir (dir_at root rel)) (λ r. refl)
  walk_blueprint_tree-walked_at (suc levels) rel =
      walk_listing-walked_at (walk_blueprint_tree t levels) rel (t.read_dir (dir_at root rel))
        (λ r. walk_blueprint_tree-walked_at levels (some r))

insert_by_id-all_at :
    (root : Text) (bp : WalkedBlueprint) (bps : List WalkedBlueprint)
    → is_at root bp ≡ true
    → all_at root bps ≡ true
    → all_at root (insert_by_id bp bps) ≡ true
unfolding insert_by_id all_at
insert_by_id-all_at root bp [] h k = ground arith
insert_by_id-all_at root bp (b ∷ bps) h k =
    let ih = insert_by_id-all_at root bp bps h (ground arith) in
    let first : is_at root b ≡ true = ground arith in
    elim (Bool-cases (text_ltb (walked_id b.manifest) (walked_id bp.manifest))) [
      | inl later ↦ rw (later, first) ih
      | inr here ↦ rw (here, h) k
    ]

sort_by_id-all_at :
    (root : Text) (bps : List WalkedBlueprint)
    → all_at root bps ≡ true
    → all_at root (sort_by_id bps) ≡ true
unfolding sort_by_id all_at
sort_by_id-all_at root [] h = refl
sort_by_id-all_at root (bp ∷ bps) h =
    insert_by_id-all_at root bp (sort_by_id bps) (ground arith)
      (sort_by_id-all_at root bps (ground arith))

-- What the walk of a repository gives, if it does not fail.
unfoldable pub repo_at : Text → Result WalkError WalkedSource → Bool
unfolding all_at
repo_at root (err e) = true
repo_at root (ok walked) = all_at (path_in root (codes "blueprints")) walked.blueprints

with_blueprints-repo_at :
    (t : Tree) (root : Text) (walked : Walked)
    → walked_at (path_in root (codes "blueprints")) walked ≡ true
    → repo_at root (with_blueprints t root walked) ≡ true
unfolding with_blueprints repo_at walked_at
with_blueprints-repo_at t root (err e) h = refl
with_blueprints-repo_at t root (ok bps) h =
    sort_by_id-all_at (path_in root (codes "blueprints")) bps h

unless_failed-repo_at :
    (root : Text) (failure : Option WalkError) (walked : Result WalkError WalkedSource)
    → repo_at root walked ≡ true
    → repo_at root (unless_failed failure walked) ≡ true
unfolding unless_failed repo_at
unless_failed-repo_at root (some e) walked h = refl
unless_failed-repo_at root none walked h = h

-- Each blueprint that the walk of a repository gives has a manifest, and stands in the directory below
-- blueprints/ that the id of its manifest spells, whatever files the repository has; a walk that fails
-- gives none.
pub walk_source_repo-repo_at :
    (t : Tree) (root : Text) → repo_at root (walk_source_repo t root) ≡ true
unfolding walk_source_repo repo_at
walk_source_repo-repo_at t root =
    let bp_root = path_in root (codes "blueprints") in
    let blueprints =
      with_blueprints-repo_at t root (walk_blueprint_tree t max_blueprint_depth bp_root none)
        (walk_blueprint_tree-walked_at t bp_root max_blueprint_depth none) in
    unless_failed-repo_at root (source_failure t (t.read (path_in root (codes "source.yml"))))
      (with_blueprints t root (walk_blueprint_tree t max_blueprint_depth bp_root none)) blueprints
