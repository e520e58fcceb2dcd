-- ===== src/Versioning.antt =====
-- py_ipfs_lite/versioning.py: the version file of a repository.
use py_ipfs_lite.Prelude.{String, Bool, true, false, Option, none, some}
use py_ipfs_lite.Errors.{Result, ok, raise, value_error}

-- The directory, and the stripped text of the file `version`.
pub record Repo : Type 0 where
  pub exists : Bool
  pub version : Option String

abbrev pub repo_version : String
repo_version = "1"

-- The file is written where it is missing, and kept otherwise, whatever its version is.
abbrev pub kept_or_new : Option String → Option String
kept_or_new none = some repo_version
kept_or_new (some v) = some v

-- `is_blank` is `not repo_path or not repo_path.strip()`.
abbrev pub init_repo_version : Bool → Repo → Result (Unit {0}) × Repo
init_repo_version true repo = (raise value_error, repo)
init_repo_version false repo = (ok tt, record { exists = true; version = kept_or_new repo.version })

abbrev pub get_repo_version : Repo → String
get_repo_version repo = elim repo.version [ none ↦ "unknown" | some v ↦ v ]
