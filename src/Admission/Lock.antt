-- ===== src/Admission/Lock.antt =====
-- `validate_lock` of scripts/dependency_admission.py. `fromisoformat` is that of `datetime`, behind the
-- replacement of Z: a time, or `none` where it raises.
pub mod Admitted
use text.Mathlib.Text.{starts_with}
use dewey.Prelude.{
  ℕ, String, Bool, true, false, Option, none, some, List, [], ◌∷◌, ◌++◌, is_some, get_or, str_eq,
  if◌then◌else◌,
}
use dewey.Admission.{Artifact, Source, registry, editable, other_source, Package, artifacts}
use dewey.Admission.Patterns.{is_sha256}

pub data LockError : Type 0 where
  no_packages : LockError
  not_editable not_registry no_artifacts : String → LockError
  bad_url bad_digest bad_time : String → String → LockError

abbrev pub pypi_registry : String
pypi_registry = "https://pypi.org/simple"

abbrev pub pypi_files : String
pypi_files = "https://files.pythonhosted.org/packages/"

abbrev pub is_editable : Source → Bool
is_editable (editable path) = str_eq path "."
is_editable s = false

abbrev pub is_registry : Source → Bool
is_registry (registry url) = str_eq url pypi_registry
is_registry s = false

abbrev pub unless : Bool → LockError → List LockError
unless true e = []
unless false e = e ∷ []

unfoldable pub source_errors : String → Package → List LockError
source_errors project p =
    if str_eq p.name project
    then unless (is_editable p.source) (not_editable p.name)
    else unless (is_registry p.source) (not_registry p.name)

abbrev pub some_artifact : List Artifact → Bool
some_artifact [] = false
some_artifact (a ∷ as') = true

unfoldable pub missing_errors : String → Package → List LockError
missing_errors project p =
    if str_eq p.name project then [] else unless (some_artifact (artifacts p)) (no_artifacts p.name)

module _ (fromisoformat : String → Option ℕ) where
  unfoldable pub artifact_errors : String → Artifact → List LockError
  artifact_errors name a =
      unless (starts_with a.url pypi_files) (bad_url name a.url)
      ++ (unless (is_sha256 (get_or a.digest "")) (bad_digest name (get_or a.digest ""))
          ++ unless (is_some (fromisoformat (get_or a.upload_time "")))
              (bad_time name (get_or a.upload_time "")))

  unfoldable pub all_artifact_errors : String → List Artifact → List LockError
  unfolding artifact_errors
  all_artifact_errors name [] = []
  all_artifact_errors name (a ∷ as') = artifact_errors name a ++ all_artifact_errors name as'

  unfoldable pub package_errors : String → Package → List LockError
  unfolding source_errors missing_errors all_artifact_errors
  package_errors project p =
      source_errors project p
      ++ (missing_errors project p ++ all_artifact_errors p.name (artifacts p))

  unfoldable pub all_package_errors : String → List Package → List LockError
  unfolding package_errors
  all_package_errors project [] = []
  all_package_errors project (p ∷ ps) = package_errors project p ++ all_package_errors project ps

  unfoldable pub validate_lock : String → List Package → List LockError
  unfolding all_package_errors
  validate_lock project [] = no_packages ∷ []
  validate_lock project (p ∷ ps) = all_package_errors project (p ∷ ps)
