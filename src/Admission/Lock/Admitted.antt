-- ===== src/Admission/Lock/Admitted.antt =====
-- What a lock file is that `validate_lock` finds no error in.
use text.Mathlib.Text.{starts_with}
use dewey.Prelude.{
  ℕ, String, Bool, true, false, Option, List, [], ◌∷◌, ◌++◌, ◌≡◌, ◌↔◌, refl, Bool-cases, inl, inr,
  All, is_some, get_or, str_eq, if◌then◌else◌,
}
use dewey.Admission.{Artifact, Package, artifacts}
use dewey.Admission.Patterns.{is_sha256}
use dewey.Admission.Lock.{
  LockError, unless, is_editable, is_registry, some_artifact, pypi_files, source_errors,
  missing_errors, artifact_errors, all_artifact_errors, package_errors, all_package_errors,
  validate_lock,
}

append-eq-nil : (xs ys : List LockError) → (xs ++ ys ≡ []) ↔ ((xs ≡ []) × (ys ≡ []))
append-eq-nil [] ys = (λ h. (refl, h), λ (h, k). k)
append-eq-nil (x ∷ xs) ys = (λ h. cc h, λ (h, k). cc h)

append_iff :
    {P Q : Type 0} (xs ys : List LockError)
    → (xs ≡ []) ↔ P
    → (ys ≡ []) ↔ Q
    → (xs ++ ys ≡ []) ↔ (P × Q)
append_iff xs ys p q = (
  λ h. let (a, b) = (append-eq-nil xs ys).0 h in (p.0 a, q.0 b),
  λ (a, b). (append-eq-nil xs ys).1 (p.1 a, q.1 b),
)

unless-eq-nil : (b : Bool) (e : LockError) → (unless b e ≡ []) ↔ (b ≡ true)
unless-eq-nil true e = (λ h. refl, λ h. refl)
unless-eq-nil false e = (λ h. cc h, λ h. cc h)

abbrev pub some_package : List Package → Bool
some_package [] = false
some_package (p ∷ ps) = true

module _ (fromisoformat : String → Option ℕ) where
  -- An artifact of PyPI, with a digest and a time.
  pub record IsHashed (a : Artifact) : Type 0 where
    pub hosted : starts_with a.url pypi_files ≡ true
    pub hashed : is_sha256 (get_or a.digest "") ≡ true
    pub dated : is_some (fromisoformat (get_or a.upload_time "")) ≡ true

  -- The project itself is editable; any other package comes from PyPI, with an artifact.
  pub record IsAdmitted (project : String) (p : Package) : Type 0 where
    pub sourced :
        (if str_eq p.name project then is_editable p.source else is_registry p.source) ≡ true
    pub shipped : (if str_eq p.name project then true else some_artifact (artifacts p)) ≡ true
    pub hashed : All IsHashed (artifacts p)

  artifact_errors-eq-nil :
      (name : String) (a : Artifact) → (artifact_errors fromisoformat name a ≡ []) ↔ IsHashed a
  unfolding artifact_errors
  artifact_errors-eq-nil name a =
      let iff = append_iff _ _ (unless-eq-nil (starts_with a.url pypi_files) _) (
        append_iff _ _ (unless-eq-nil (is_sha256 (get_or a.digest "")) _)
          (unless-eq-nil (is_some (fromisoformat (get_or a.upload_time ""))) _)) in
      (
        λ h. let (u, (s, t)) = iff.0 h in record { hosted = u; hashed = s; dated = t },
        λ h. iff.1 (h.hosted, (h.hashed, h.dated)),
      )

  all_artifact_errors-eq-nil :
      (name : String) (as' : List Artifact)
      → (all_artifact_errors fromisoformat name as' ≡ []) ↔ All IsHashed as'
  unfolding all_artifact_errors
  all_artifact_errors-eq-nil name [] = (λ h. tt, λ h. refl)
  all_artifact_errors-eq-nil name (a ∷ as') =
      append_iff (artifact_errors fromisoformat name a) (all_artifact_errors fromisoformat name as')
        (artifact_errors-eq-nil name a) (all_artifact_errors-eq-nil name as')

  source_errors-eq-nil :
      (project : String) (p : Package)
      → (source_errors project p ≡ [])
        ↔ ((if str_eq p.name project then is_editable p.source else is_registry p.source) ≡ true)
  unfolding source_errors
  source_errors-eq-nil project p = elim (Bool-cases (str_eq p.name project)) [
    | inl y ↦ rw y (unless-eq-nil (is_editable p.source) _)
    | inr n ↦ rw n (unless-eq-nil (is_registry p.source) _)
  ]

  missing_errors-eq-nil :
      (project : String) (p : Package)
      → (missing_errors project p ≡ [])
        ↔ ((if str_eq p.name project then true else some_artifact (artifacts p)) ≡ true)
  unfolding missing_errors
  missing_errors-eq-nil project p = elim (Bool-cases (str_eq p.name project)) [
    | inl y ↦ rw y (λ h. refl, λ h. refl)
    | inr n ↦ rw n (unless-eq-nil (some_artifact (artifacts p)) _)
  ]

  package_errors-eq-nil :
      (project : String) (p : Package)
      → (package_errors fromisoformat project p ≡ []) ↔ IsAdmitted project p
  unfolding package_errors
  package_errors-eq-nil project p =
      let iff =
        append_iff (source_errors project p)
          (missing_errors project p ++ all_artifact_errors fromisoformat p.name (artifacts p))
          (source_errors-eq-nil project p)
          (append_iff (missing_errors project p)
            (all_artifact_errors fromisoformat p.name (artifacts p))
            (missing_errors-eq-nil project p) (all_artifact_errors-eq-nil p.name (artifacts p))) in
      (
        λ h. let (s, (m, a)) = iff.0 h in record { sourced = s; shipped = m; hashed = a },
        λ h. iff.1 (h.sourced, (h.shipped, h.hashed)),
      )

  all_package_errors-eq-nil :
      (project : String) (ps : List Package)
      → (all_package_errors fromisoformat project ps ≡ []) ↔ All (IsAdmitted project) ps
  unfolding all_package_errors
  all_package_errors-eq-nil project [] = (λ h. tt, λ h. refl)
  all_package_errors-eq-nil project (p ∷ ps) =
      append_iff (package_errors fromisoformat project p)
        (all_package_errors fromisoformat project ps) (package_errors-eq-nil project p)
        (all_package_errors-eq-nil project ps)

  -- A lock file is without error exactly where it locks some package, the project itself is editable
  -- from the root, any other package comes from the index of PyPI with an artifact, and each artifact
  -- is hosted by PyPI and has a SHA-256 digest and a time of upload.
  pub validate_lock_lem :
      (project : String) (ps : List Package)
      → (validate_lock fromisoformat project ps ≡ [])
        ↔ ((some_package ps ≡ true) × All (IsAdmitted project) ps)
  unfolding validate_lock
  validate_lock_lem project [] = (λ h. cc h, λ (h, k). cc h)
  validate_lock_lem project (p ∷ ps) =
      let iff = all_package_errors-eq-nil project (p ∷ ps) in
      (λ h. (refl, iff.0 h), λ (h, k). iff.1 k)
