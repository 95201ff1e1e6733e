-- ===== src/Admission/Cooldown.antt =====
-- `validate_cooldown` of scripts/dependency_admission.py, with the changed packages, the checks against
-- PyPI and GitHub, and the exception for a hotfix. Times are microseconds, and every timestamp names
-- its offset.
pub mod Enforced
use dewey.Prelude.{
  ℕ, zero, suc, ◌+◌, ◌*◌, ◌/◌, String, Bool, true, false, not, ◌&&◌, ◌||◌, Option, none, some, List,
  [], ◌∷◌, ◌++◌, keep, map, max, leb, ltb, get_or, str_eq, ◌==◌, if◌then◌else◌,
}
use dewey.Admission.{Artifact, Package, artifacts}
use dewey.Admission.Hotfix.{PullRequest, hotfix_exception}
use dewey.Admission.Workflow.{WorkflowError, Pin, same_codes}

pub data CooldownError : Type 0 where
  no_base : CooldownError
  request_failed absent_url digest_disagrees no_canonical_time time_disagrees :
      String → CooldownError
  bad_action unreachable_action commit_mismatch no_commit_date : List ℕ → CooldownError
  workflow_error : ℕ → WorkflowError → CooldownError
  too_fresh : String → String → CooldownError
  too_fresh_action : List ℕ → List ℕ → CooldownError

abbrev same_key : Package → Package → Bool
same_key p q = str_eq p.name q.name && str_eq p.version q.version

-- `{package_key(package): package …}.get(key)`: the last one under a key is the one that stays.
unfoldable pub base_of : Package → List Package → Option Package
base_of p [] = none
base_of p (q ∷ qs) = elim (base_of p qs) [
  | some r ↦ some r
  | none ↦ if same_key q p then some q else none
]

abbrev pub is_same : (Package → Package → Bool) → Package → Option Package → Bool
is_same same p none = false
is_same same p (some q) = same q p

-- `same` is `==` on the dictionaries.
unfoldable pub changed_packages :
    (Package → Package → Bool) → String → List Package → List Package → List Package
unfolding base_of
changed_packages same project base current =
    keep (λ p. not (str_eq p.name project) && not (is_same same p (base_of p base))) current

-- An entry of PyPI's `urls`.
pub record CanonicalFile : Type 0 where
  pub url : String
  pub digest : Option String
  pub upload_time : Option String

unfoldable pub file_of : String → List CanonicalFile → Option CanonicalFile
file_of url [] = none
file_of url (f ∷ fs) = elim (file_of url fs) [
  | some g ↦ some g
  | none ↦ if str_eq f.url url then some f else none
]

abbrev latest : List ℕ → Option ℕ
latest [] = none
latest (t ∷ ts) = some (elim (latest ts) [ none ↦ t | some u ↦ max t u ])

-- What is outside: `fromisoformat` behind the replacement of Z, whether a digest of the lock is that of
-- PyPI with its prefix, what PyPI and GitHub answer (`none` where the request fails), and whether a
-- path names a repository.
pub record Registries : Type 0 where
  pub fromisoformat : String → Option ℕ
  pub same_digest : Option String → Option String → Bool
  pub pypi : Package → Option (List CanonicalFile)
  -- The commit's `sha` is the one asked for; its date.
  pub github : List ℕ → List ℕ → Option (Bool × Option String)
  pub is_repository : List ℕ → Bool

abbrev parsed_time : (String → Option ℕ) → Option String → Option ℕ
parsed_time parse none = none
parsed_time parse (some s) = parse s

-- `uv_timestamp`
abbrev milliseconds : Option ℕ → Option ℕ
milliseconds none = none
milliseconds (some t) = some (t / 1_000 * 1_000)

abbrev same_time : Option ℕ → ℕ → Bool
same_time none t = false
same_time (some u) t = u == t

abbrev pub failing : Bool → CooldownError → List CooldownError → List CooldownError
failing true e es = es
failing false e es = e ∷ es

-- `uploaded is None or now - uploaded < cooldown`
abbrev pub is_fresh : ℕ → ℕ → Option ℕ → Bool
is_fresh now cooldown none = true
is_fresh now cooldown (some t) = ltb now (t + cooldown)

-- The errors of the checks, and those of what is too fresh.
abbrev pub Checked : Type 0
Checked = List CooldownError × List CooldownError

-- The result of a check, of which a thing that is too fresh is `e`, in front of the others.
abbrev pub add_check : Bool → CooldownError → List CooldownError → Checked → Checked
add_check fresh e own (errors, too_fresh_ones) =
    (own ++ errors, if fresh then e ∷ too_fresh_ones else too_fresh_ones)

-- A pin with the path of its workflow.
abbrev pub Located : Type 0
Located = String × Pin

unfoldable pub base_commit : String → Pin → List Located → Option (List ℕ)
unfolding same_codes
base_commit path pin [] = none
base_commit path pin ((path', p) ∷ ps) =
    if str_eq path path' && (same_codes pin.action p.action && pin.occurrence == p.occurrence)
    then some p.commit
    else base_commit path pin ps

abbrev at_commit : Pin → Option (List ℕ) → Bool
at_commit pin none = false
at_commit pin (some commit) = same_codes commit pin.commit

-- The pins of `action_changes`; the order in which it sorts them is left out.
unfoldable pub changed_pins : List Located → List Located → List Located
unfolding base_commit
changed_pins base current =
    keep (λ (path, pin). not (at_commit pin (base_commit path pin base))) current

module _ (r : Registries) where
  -- `canonical` is the time of the canonical file.
  abbrev timed :
      String → Artifact → Option ℕ → List CooldownError × List ℕ → List CooldownError × List ℕ
  timed name a none (errors, uploads) = (no_canonical_time name ∷ errors, uploads)
  timed name a (some canonical) (errors, uploads) =
      let locked = milliseconds (r.fromisoformat (get_or a.upload_time "")) in
      (failing (same_time locked canonical) (time_disagrees name) errors, canonical ∷ uploads)

  abbrev compared :
      String
      → Artifact
      → Option CanonicalFile
      → List CooldownError × List ℕ
      → List CooldownError × List ℕ
  compared name a none (errors, uploads) = (absent_url name ∷ errors, uploads)
  compared name a (some f) rest =
      let (errors, uploads) =
        timed name a (milliseconds (parsed_time r.fromisoformat f.upload_time)) rest in
      (failing (r.same_digest a.digest f.digest) (digest_disagrees name) errors, uploads)

  unfoldable pub verify_artifacts :
      String → List CanonicalFile → List Artifact → List CooldownError × List ℕ
  unfolding file_of
  verify_artifacts name files [] = ([], [])
  verify_artifacts name files (a ∷ as') =
      compared name a (file_of a.url files) (verify_artifacts name files as')

  abbrev answered : Package → Option (List CanonicalFile) → List CooldownError × Option ℕ
  answered p none = (request_failed p.name ∷ [], none)
  answered p (some files) =
      let (errors, uploads) = verify_artifacts p.name files (artifacts p) in
      (errors, latest uploads)

  unfoldable pub verify_pypi_package : Package → List CooldownError × Option ℕ
  unfolding verify_artifacts
  verify_pypi_package p = answered p (r.pypi p)

  -- `latest_upload`: none as soon as one timestamp is not readable.
  abbrev all_times : List Artifact → Option (List ℕ)
  all_times [] = some []
  all_times (a ∷ as') = elim (parsed_time r.fromisoformat a.upload_time) [
    | none ↦ none
    | some t ↦ elim (all_times as') [ none ↦ none | some ts ↦ some (t ∷ ts) ]
  ]

  unfoldable pub latest_upload : Package → Option ℕ
  latest_upload p = elim (all_times (artifacts p)) [ none ↦ none | some ts ↦ latest ts ]

  abbrev dated : List ℕ → Option (Bool × Option String) → List CooldownError × Option ℕ
  dated action none = (unreachable_action action ∷ [], none)
  dated action (some (false, date)) = (commit_mismatch action ∷ [], none)
  dated action (some (true, date)) = elim (parsed_time r.fromisoformat date) [
    | none ↦ (no_commit_date action ∷ [], none)
    | some t ↦ ([], some t)
  ]

  unfoldable pub verify_github_action : List ℕ → List ℕ → List CooldownError × Option ℕ
  verify_github_action action commit =
      if r.is_repository action
      then dated action (r.github action commit)
      else (bad_action action ∷ [], none)

  abbrev pub uploaded : Bool → Package → List CooldownError × Option ℕ
  uploaded verify_canonical p =
      if verify_canonical then verify_pypi_package p else ([], latest_upload p)

  abbrev pub committed : Bool → Pin → List CooldownError × Option ℕ
  committed verify_canonical pin =
      if verify_canonical then verify_github_action pin.action pin.commit else ([], none)

  module _ (verify_canonical : Bool) (now cooldown : ℕ) where
    unfoldable pub check_packages : List Package → Checked
    unfolding verify_pypi_package latest_upload
    check_packages [] = ([], [])
    check_packages (p ∷ ps) =
        let (errors, time) = uploaded verify_canonical p in
        add_check (is_fresh now cooldown time) (too_fresh p.name p.version) errors
          (check_packages ps)

    unfoldable pub check_pins : List Located → Checked
    unfolding verify_github_action
    check_pins [] = ([], [])
    check_pins ((path, pin) ∷ pins) =
        let (errors, time) = committed verify_canonical pin in
        add_check (is_fresh now cooldown time) (too_fresh_action pin.action pin.commit) errors
          (check_pins pins)

-- What is admitted and what it is compared with. `workflow_errors` are those of the current and of the
-- base workflows; they and the pins are empty where the actions are not included.
pub record Change : Type 0 where
  pub current_lock : List Package
  pub base_lock : Option (List Package)
  pub current_pins : List Located
  pub base_pins : List Located
  pub workflow_errors : List (ℕ × WorkflowError)

abbrev as_errors : List (ℕ × WorkflowError) → List CooldownError
as_errors = map (λ (line, e). workflow_error line e)

abbrev pub judged : Bool → Checked → List CooldownError → Checked → List CooldownError
judged bypassed (errors, fresh) workflow (errors', fresh') =
    errors ++ (workflow ++ (errors' ++ (if bypassed then [] else fresh ++ fresh')))

module _ (r : Registries) (same : Package → Package → Bool) (label project : String) where
  unfoldable pub against :
      Bool → ℕ → ℕ → Option PullRequest → Change → Option (List Package) → List CooldownError
  unfolding hotfix_exception check_packages check_pins changed_packages changed_pins
  against verify_canonical now cooldown event c none = no_base ∷ []
  against verify_canonical now cooldown event c (some base) =
      judged (hotfix_exception label event)
        (check_packages r verify_canonical now cooldown
          (changed_packages same project base c.current_lock))
        (as_errors c.workflow_errors)
        (check_pins r verify_canonical now cooldown (changed_pins c.base_pins c.current_pins))

  unfoldable pub validate_cooldown : Bool → ℕ → ℕ → Option PullRequest → Change → List CooldownError
  unfolding against
  validate_cooldown verify_canonical now cooldown event c =
      against verify_canonical now cooldown event c c.base_lock
