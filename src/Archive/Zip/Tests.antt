-- ===== src/Archive/Zip/Tests.antt =====
-- An archive with a file that is larger than the cap.
use ludus.Prelude.{◌≡◌, ◌≢◌, ◌⊎◌, ◌≤◌, ◌+◌, refl, true, false, none, some, List, [], ◌∷◌, arith}
use ludus.Prelude.Text.{codes}
use ludus.Archive.{safe_extract_path, strip_prefix_segment, detect_single_root}
use ludus.Archive.Zip.{ExtractOptions, Entry, over_limit, World, extract_zip_file}
use ludus.Archive.Zip.Cap.{total_bytes, extract_zip_file-within_cap}

abbrev willing : World
willing = record { mkdir_all = λ path. true; create = λ path. true }

abbrev strict : ExtractOptions
strict = record { max_bytes = 100; strip_single_root = true; reject_dangerous_entries = true }

abbrev small : Entry
small = record {
  name = codes "lab/range.yml";
  is_symlink = false;
  is_dir = false;
  opens = true;
  readable = 60;
  read_failure = none;
}

abbrev archive : List Entry
archive = small ∷ record small { name = codes "lab/roles.yml" } ∷ []

extract_zip_file_test : extract_zip_file willing strict (codes "/opt/lab") archive ≡ (
  some over_limit,
  record {
    dirs = [];
    files = (codes "/opt/lab/range.yml", 60) ∷ (codes "/opt/lab/roles.yml", 41) ∷ [];
    written = 101;
  },
)
unfolding extract_zip_file safe_extract_path strip_prefix_segment detect_single_root
extract_zip_file_test = refl

extract_zip_file-within_cap_example :
    (total_bytes (extract_zip_file willing strict (codes "/opt/lab") archive).1.files ≤ 100 + 1)
    × (((extract_zip_file willing strict (codes "/opt/lab") archive).0 ≢ none)
        ⊎ (total_bytes (extract_zip_file willing strict (codes "/opt/lab") archive).1.files ≤ 100))
extract_zip_file-within_cap_example =
    extract_zip_file-within_cap willing strict (codes "/opt/lab") archive (omega arith)
