-- ===== src/Sources/Tests.antt =====
-- A source with one blueprint, a template and a role, and what an install of it does.
use ludus.Prelude.{◌≡◌, refl, Bool, true, false, Option, none, some, List, [], ◌∷◌, ◌++◌}
use ludus.Prelude.Text.{Text, codes, text_eq}
use ludus.Prelude.Result.{ok, err}
use ludus.Sources.{Checkout, scalar, mapping, WalkedBlueprint, WalkedSource}
use ludus.Sources.Requirements.{find_undeclared_dependencies, missing_collection}
use ludus.Sources.Selection.{
  InstallSelection, Claims, missing_template, required_doc, expand_selection_with_blueprint_deps,
  is_selected, applied_selection, manifest_ids,
}
use ludus.Sources.Available.{IsAvailable, applied_selection-IsAvailable}
use ludus.Sources.Covered.{IsCovered, expand_selection_with_blueprint_deps-IsCovered}
use ludus.Sources.Rows.{BlueprintRow, Content, Source, RowsWorld, upsert_source_blueprints}
use ludus.Sources.Owned.{grants, others, add_grants, still_walked}
use ludus.Sources.Grants.{upsert_source_blueprints-grants, upsert_source_blueprints-others}
use ludus.Sources.Install.{
  InstallWorld, Artifact, template, local_role, local_collection, galaxy_role, has_claim,
  AnsibleInstallResult,
}
use ludus.Sources.Galaxy.{GalaxyWorld}
use ludus.Sources.Kept.{install_artifacts-has_claim}
use ludus.Sources.Sync.{SyncOptions, register_local, install_artifacts}
use ludus.Sources.Distinct.{is_distinct}
use ludus.Sources.Ledger.{all_claimed}
use ludus.Sources.Registered.{register_local-all_claimed}

abbrev checkout : Checkout
checkout = record {
  read_file = λ path. if_config (text_eq path (codes "/s/lab/config.yml"));
  find_packer_files = λ dir. none;
  extract_template_name = λ file. none;
  unmarshal_requirements = λ text. (
    true,
    record {
      roles =
          record { name = codes "web"; src = []; version = []; scm = [] }
          ∷ record { name = codes "geerlingguy.docker"; src = []; version = []; scm = [] }
          ∷ [];
      collections = [];
      subscription_roles = [];
    },
  );
  marshal_requirements = λ doc. some (codes "filtered");
  unmarshal_range_config = λ text. some (
      record {
        template = codes "deb";
        roles =
            scalar (codes "web")
            ∷ mapping ((codes "name", some (codes "community.crypto.cert")) ∷ [])
            ∷ [];
      }
      ∷ []);
  unmarshal_role_meta = λ text. none;
  parse_galaxy_manifest = λ text. none;
}
  where
    if_config : Bool → Option Text
    if_config true = some (codes "ludus: []")
    if_config false = none

abbrev lab : WalkedBlueprint
lab = record {
  dir = codes "/s/lab";
  manifest = some (record {
    id = codes "lab";
    name = codes "Lab";
    description = [];
    version = codes "1.0.0";
    tags = [];
    min_ludus_version = [];
  });
  config_path = codes "/s/lab/config.yml";
  requirements_yaml = codes "roles:";
  thumbnail_path = [];
}

abbrev walked : WalkedSource
walked = record {
  blueprints = lab ∷ [];
  templates = codes "/s/templates/deb" ∷ [];
  local_roles = codes "/s/ansible/roles/web" ∷ [];
  local_collections = [];
}

abbrev asked : InstallSelection
asked = record {
  blueprints = codes "lab" ∷ [];
  templates = [];
  local_roles = [];
  local_collections = [];
}

abbrev with_deps : InstallSelection
with_deps = record {
  blueprints = codes "lab" ∷ [];
  templates = codes "deb" ∷ [];
  local_roles = codes "web" ∷ [];
  local_collections = [];
}

abbrev no_claims : Claims
no_claims = record {
  blueprint_claims = none;
  template_claims = none;
  role_claims = none;
  collection_claims = none;
}

applied_selection_test :
    applied_selection checkout false (some asked) no_claims walked ≡ ok with_deps
unfolding applied_selection text_eq
applied_selection_test = refl

applied_selection_missing_test :
    applied_selection checkout false
      (some (record asked { templates = codes "debian" ∷ [] }))
      no_claims
      walked
    ≡ err (missing_template (codes "debian") ∷ [])
unfolding applied_selection text_eq
applied_selection_missing_test = refl

find_undeclared_dependencies_test :
    find_undeclared_dependencies checkout walked
    ≡ record {
      blueprint_id = codes "lab";
      role = codes "community.crypto.cert";
      kind = missing_collection (codes "community.crypto");
    }
      ∷ []
unfolding find_undeclared_dependencies text_eq
find_undeclared_dependencies_test = refl

applied_selection-IsAvailable_example : IsAvailable checkout walked with_deps
applied_selection-IsAvailable_example =
    applied_selection-IsAvailable checkout false (some asked) no_claims walked with_deps
      applied_selection_test

expand_selection_with_blueprint_deps-IsCovered_example :
    IsCovered checkout walked
      (required_doc checkout (codes "roles:"))
      (expand_selection_with_blueprint_deps checkout asked walked)
unfolding is_selected text_eq
expand_selection_with_blueprint_deps-IsCovered_example =
    expand_selection_with_blueprint_deps-IsCovered checkout walked asked [] [] lab refl refl

abbrev content : Content
content = record {
  name = codes "Old";
  description = [];
  version = codes "0.9.0";
  tags = [];
  min_ludus_version = [];
  blueprint_path = [];
  config_path = [];
  requirements_yaml = [];
  thumbnail = none;
}

abbrev row_of : Text → Text → BlueprintRow
row_of source id = record {
  source = source;
  source_blueprint_id = id;
  blueprint_id = codes "bsl/" ++ id;
  owner = codes "ann";
  shared_users = codes "bob" ∷ [];
  shared_groups = [];
  content = content;
}

abbrev rows : List BlueprintRow
rows = row_of (codes "r1") (codes "old") ∷ row_of (codes "r2") (codes "lab") ∷ []

abbrev rows_world : RowsWorld
rows_world = record {
  has_collection = true;
  can_query = λ id. true;
  can_list = true;
  can_find_conflict = true;
  can_save = λ row. true;
  can_delete = λ row. true;
  new_file_from_path = λ path. none;
  relative = λ path. some path;
}

abbrev bsl : Source
bsl = record { record_id = codes "r1"; source_id = codes "src"; owner = codes "root" }

upsert_source_blueprints-grants_example :
    grants (codes "r1") (upsert_source_blueprints rows_world bsl walked asked rows).1
    ≡ still_walked
        (manifest_ids (lab ∷ []))
        (add_grants bsl asked (lab ∷ []) (grants (codes "r1") rows))
unfolding upsert_source_blueprints text_eq
upsert_source_blueprints-grants_example =
    upsert_source_blueprints-grants rows_world bsl walked asked rows
      (record { queries = λ id. refl; lists = refl; deletes = λ row. refl }) refl

upsert_source_blueprints-others_example :
    others (codes "r1") (upsert_source_blueprints rows_world bsl walked asked rows).1
    ≡ row_of (codes "r2") (codes "lab") ∷ []
unfolding others text_eq
upsert_source_blueprints-others_example =
    upsert_source_blueprints-others rows_world bsl walked asked rows

-- The role cannot be copied.
abbrev install_world : InstallWorld
install_world = record {
  has_collection = true;
  can_query = true;
  can_save = λ a. true;
  can_delete = λ a. true;
  install_template_dir = λ dir force. none;
  ensure_template_row = λ name dir force. none;
  add_local_role_from_directory = λ dir name. some (codes "permission denied");
  add_local_collection_from_directory = λ dir. none;
}

abbrev options : SyncOptions
options = record {
  force = false;
  no_deps = false;
  selection = some asked;
  from_claims = false;
  has_base = true;
}

abbrev claim : Artifact
claim = record { source = codes "r1"; kind = template; name = codes "deb"; version = codes "1" }

register_local-all_claimed_example :
    (is_distinct
        (register_local checkout install_world (codes "r1") options walked with_deps (claim ∷ [])).1
      ≡ true)
    × (all_claimed
          (codes "r1")
          template
          (register_local checkout install_world
            (codes "r1")
            options
            walked
            with_deps
            (claim ∷ [])).0.template_results
          (register_local checkout install_world
            (codes "r1")
            options
            walked
            with_deps
            (claim ∷ [])).1
        ≡ true)
    × (all_claimed
          (codes "r1")
          local_role
          (register_local checkout install_world
            (codes "r1")
            options
            walked
            with_deps
            (claim ∷ [])).0.role_results
          (register_local checkout install_world
            (codes "r1")
            options
            walked
            with_deps
            (claim ∷ [])).1
        ≡ true)
    × (all_claimed
          (codes "r1")
          local_collection
          (register_local checkout install_world
            (codes "r1")
            options
            walked
            with_deps
            (claim ∷ [])).0.collection_results
          (register_local checkout install_world
            (codes "r1")
            options
            walked
            with_deps
            (claim ∷ [])).1
        ≡ true)
unfolding is_distinct
register_local-all_claimed_example =
    register_local-all_claimed checkout install_world (codes "r1") options walked with_deps
      (claim ∷ []) (record { has = refl; queries = refl; saves = λ a. refl }) refl

abbrev docker_role : AnsibleInstallResult
docker_role = record {
  result_type = [];
  result_name = codes "geerlingguy.docker";
  result_version = codes "7.0.0";
  failure = none;
}

-- Galaxy has the role of the requirements, and the license is valid.
abbrev galaxy : GalaxyWorld
galaxy = record {
  license_valid = true;
  catalog = [];
  install_roles = λ requirements. record { run_results = docker_role ∷ []; run_error = none };
  version_mismatches = λ results requirements. results;
  install_collections =
      λ requirements. record { run_results = []; run_error = some (codes "timeout") };
  install_subscription_role = λ name. none;
  add_vendored_role = λ dir name. none;
  role_version = λ dir. [];
}

install_artifacts-has_claim_example :
    (is_distinct
        (install_artifacts checkout install_world
          (codes "r1")
          options
          galaxy
          walked
          with_deps
          (claim ∷ [])).1
      ≡ true)
    × (has_claim
          (codes "r1")
          template
          (codes "deb")
          (install_artifacts checkout install_world
            (codes "r1")
            options
            galaxy
            walked
            with_deps
            (claim ∷ [])).1
        ≡ true)
unfolding is_distinct has_claim
install_artifacts-has_claim_example =
    install_artifacts-has_claim checkout install_world (codes "r1") options galaxy walked with_deps
      (claim ∷ []) (codes "r1") template (codes "deb")
      (record { has = refl; queries = refl; saves = λ a. refl }) refl refl

-- The role that Galaxy installs is claimed with its version.
galaxy_role_claimed :
    has_claim
      (codes "r1")
      galaxy_role
      (codes "geerlingguy.docker")
      (install_artifacts checkout install_world
        (codes "r1")
        options
        galaxy
        walked
        with_deps
        (claim ∷ [])).1
    ≡ true
unfolding has_claim install_artifacts
galaxy_role_claimed = refl
