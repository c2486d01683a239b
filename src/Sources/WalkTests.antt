-- ===== src/Sources/WalkTests.antt =====
-- A repository with one blueprint and how it is walked, and versions of its artifacts.
use ludus.Prelude.{◌≡◌, ◌||◌, refl, ◌↔◌, Bool, true, false, some, List, [], ◌∷◌}
use ludus.Prelude.Text.{Text, codes, text_eq, trim_space}
use ludus.Prelude.Result.{Result, ok, err}
use ludus.Sources.{WalkedSource}
use ludus.Sources.Walk.{
  FileRead, contents, not_exist, Listing, entries, no_directory, Tree, WalkError, walk_source_repo,
}
use ludus.Sources.Located.{repo_at, walk_source_repo-repo_at}
use ludus.Sources.Versions.{
  Order, same, greater, Semver, semverify, installed_version_satisfies, version_state,
  state_upgrade_available,
}
use ludus.Sources.Operators.{not_less, IsMet, installed_version_satisfies-IsMet}
use ludus.Sources.Selection.{manifest_ids}

abbrev read_lab : Bool → FileRead
read_lab true = contents (codes "id: a/lab")
read_lab false = not_exist

abbrev list_lab : Bool → Bool → Listing
list_lab true in_a =
    entries (record { entry_name = codes "a"; is_dir = true; is_symlink = false } ∷ [])
list_lab false true =
    entries (record { entry_name = codes "lab"; is_dir = true; is_symlink = false } ∷ [])
list_lab false false = no_directory

-- A repository with the blueprint a/lab.
abbrev tree : Tree
tree = record {
  read_dir =
      λ dir. list_lab (text_eq dir (codes "/r/blueprints")) (text_eq dir (codes "/r/blueprints/a"));
  read = λ path. read_lab (text_eq path (codes "/r/blueprints/a/lab/blueprint.yml"));
  stat = λ path.
      text_eq path (codes "/r/blueprints/a/lab/blueprint.yml")
      || text_eq path (codes "/r/blueprints/a/lab/config.yml");
  unmarshal_manifest = λ text. some (record {
    manifest_version = 1;
    manifest = record {
      id = codes "a/lab";
      name = codes "Lab";
      description = [];
      version = codes "1.0.0";
      tags = [];
      min_ludus_version = [];
    };
    config = codes "config.yml";
    thumbnail_path = [];
  });
  semver_is_valid = λ version. true;
  unmarshal_source = λ text. some 1;
}

abbrev walked_ids : Result WalkError WalkedSource → List Text
unfolding manifest_ids
walked_ids (err e) = []
walked_ids (ok found) = manifest_ids found.blueprints

walk_source_repo_test : walked_ids (walk_source_repo tree (codes "/r")) ≡ codes "a/lab" ∷ []
unfolding walk_source_repo text_eq manifest_ids
walk_source_repo_test = refl

walk_source_repo-repo_at_example : repo_at (codes "/r") (walk_source_repo tree (codes "/r")) ≡ true
walk_source_repo-repo_at_example = walk_source_repo-repo_at tree (codes "/r")

abbrev order_of : Bool → Order
order_of true = same
order_of false = greater

-- Every text is a version, and all that differ are greater.
abbrev semver : Semver
semver = record { is_valid = λ t. true; compare_versions = λ s t. order_of (text_eq s t) }

installed_version_satisfies-IsMet_example :
    (installed_version_satisfies semver (codes "1.2.0") (codes ">=1.1.0") ≡ true)
    ↔ IsMet not_less greater
unfolding trim_space semverify text_eq
installed_version_satisfies-IsMet_example =
    installed_version_satisfies-IsMet semver not_less (codes "1.2.0") (codes "1.1.") b'0' refl refl
      refl refl refl refl refl

version_state_test : version_state semver (codes "1.2.0") (codes "<2.0.0") ≡ state_upgrade_available
unfolding version_state text_eq trim_space
version_state_test = refl
