-- ===== src/Admission/Gate/Admits.antt =====
-- What the gate lets through.
use dewey.Prelude.{
  ℕ, suc, String, Bool, true, false, Option, none, some, List, [], ◌∷◌, ◌++◌, ◌≡◌, refl, ap, sym,
  ◌∙◌, arith, All, map, Result, ok, err, Bool-cases, inl, inr, is_empty, nil_of_is_empty,
}
use dewey.Admission.{Package}
use dewey.Admission.Hotfix.{hotfix_exception}
use dewey.Admission.Lock.{validate_lock}
use dewey.Admission.Lock.Admitted.{IsAdmitted, validate_lock_lem}
use dewey.Admission.Requirements.{
  pin_error, build_errors, exact_requirement, is_locked, normalize_name, validate_requirements,
}
use dewey.Admission.Workflow.{
  Document, Found, Parsed, recursive_alias, is_mapping, with_found, walk, parse_entries,
  parse_actions,
}
use dewey.Admission.Workflow.Pinned.{IsCanonical, parse_entries_pinned}
use dewey.Admission.Cooldown.{
  Registries, Located, changed_packages, changed_pins, uploaded, committed, validate_cooldown,
}
use dewey.Admission.Cooldown.Enforced.{IsPassed, validate_cooldown_enforced}
use dewey.Admission.Gate.{
  Workflow, Actions, joined, actions_of, Inputs, in_lock, in_requirements, in_workflow, in_change,
  change, gate_errors, exit_code, main,
}

append_nil {ℓ} : {A : Type ℓ} (xs ys : List A) → xs ++ ys ≡ [] → (xs ≡ []) × (ys ≡ [])
append_nil [] ys h = (refl, h)
append_nil (x ∷ xs) ys h = cc h

map_nil {ℓ κ} : {A : Type ℓ} {B : Type κ} (f : A → B) (xs : List A) → map f xs ≡ [] → xs ≡ []
map_nil f [] h = refl
map_nil f (x ∷ xs) h = cc h

-- An exact pin of a version that the lock holds.
abbrev pub IsLockedPin : List Package → String → Type 0
IsLockedPin locked q =
    (name : List ℕ) × (version : List ℕ) × (exact_requirement q ≡ some (name, version))
    × (is_locked locked (normalize_name name) version ≡ true)

pin_error-IsLockedPin :
    (locked : List Package) (q : String) (given : Option (List ℕ × List ℕ))
    → exact_requirement q ≡ given
    → pin_error locked q given ≡ []
    → IsLockedPin locked q
pin_error-IsLockedPin locked q none e h = cc h
pin_error-IsLockedPin locked q (some (name, version)) e h =
    elim (Bool-cases (is_locked locked (normalize_name name) version)) [
      | inl y ↦ (name, version, e, y)
      | inr n ↦ cc (rw n at h)
    ]

build_errors-IsLockedPin :
    (locked : List Package) (qs : List String)
    → build_errors locked qs ≡ []
    → All (IsLockedPin locked) qs
unfolding build_errors
build_errors-IsLockedPin locked [] h = tt
build_errors-IsLockedPin locked (q ∷ qs) h =
    let (a, b) = append_nil (pin_error locked q (exact_requirement q)) _ h in
    (
      pin_error-IsLockedPin locked q (exact_requirement q) refl a,
      build_errors-IsLockedPin locked qs b,
    )

-- A workflow with one mapping at its top, no node within itself, and pinned references only.
abbrev pub IsPinnedWorkflow : Workflow → Type 0
IsPinnedWorkflow w =
    (d : Document) × (w.document ≡ ok d)
    × (f : Found) × (walk d.node (suc d.size) [] d.root ≡ some f)
    × All (IsCanonical w.lines) f.0
    × (f.1 ≡ [])

found_pinned :
    (lines : ℕ → List ℕ) (given : Option Found) (p : Parsed)
    → with_found lines given ≡ some p
    → p.errors ≡ []
    → (f : Found) × (given ≡ some f) × All (IsCanonical lines) f.0 × (f.1 ≡ [])
found_pinned lines none p h e = cc h
found_pinned lines (some (entries, loops)) p h e =
    let all : map (λ (line : ℕ). (line, recursive_alias)) loops
          ++ (parse_entries lines [] [] entries).errors
        ≡ [] =
      ground (arith, h, e) in
    let (a, b) = append_nil (map (λ (line : ℕ). (line, recursive_alias)) loops) _ all in
    ((entries, loops), refl, parse_entries_pinned lines [] entries b, map_nil _ loops a)

parsed_pinned :
    (lines : ℕ → List ℕ) (document : Result ℕ Document) (p : Parsed)
    → parse_actions lines document ≡ some p
    → p.errors ≡ []
    → (d : Document) × (document ≡ ok d)
      × (f : Found) × (walk d.node (suc d.size) [] d.root ≡ some f)
      × All (IsCanonical lines) f.0
      × (f.1 ≡ [])
unfolding parse_actions
parsed_pinned lines (err number) p h e = cc (h, e)
parsed_pinned lines (ok d) p h e = elim (Bool-cases (is_mapping (d.node d.root))) [
  | inl y ↦
      let (f, found, pinned, free) =
        found_pinned lines (walk d.node (suc d.size) [] d.root) p (rw y at h) e in
      (d, refl, f, found, pinned, free)
  | inr n ↦ cc (rw n at h, e)
]

joined_nil :
    (path : String) (given : Option Parsed) (rest : Option Actions) (pins : List Located)
    → joined path given rest ≡ some (pins, [])
    → (p : Parsed) × (given ≡ some p)
      × (p.errors ≡ [])
      × (pins' : List Located) × (rest ≡ some (pins', []))
joined_nil path none rest pins h = cc h
joined_nil path (some p) none pins h = cc h
joined_nil path (some p) (some (pins', errors)) pins h =
    let (a, b) = append_nil p.errors errors (ground (arith, h)) in
    (p, refl, a, pins', ap (λ e. some (pins', e)) b)

actions_pinned :
    (ws : List Workflow) (pins : List Located)
    → actions_of ws ≡ some (pins, [])
    → All IsPinnedWorkflow ws
unfolding actions_of
actions_pinned [] pins h = tt
actions_pinned (w ∷ ws) pins h =
    let (p, parsed, none_left, pins', rest) =
      joined_nil w.path (parse_actions w.lines w.document) (actions_of ws) pins h in
    (parsed_pinned w.lines w.document p parsed none_left, actions_pinned ws pins' rest)

module _ (r : Registries) (same : Package → Package → Bool) (i : Inputs) where
  -- The checks of a full run that enforces the cooldown.
  no_errors :
      (current base : Actions)
      → i.preflight ≡ false
      → i.enforce_cooldown ≡ true
      → gate_errors r same i current base ≡ []
      → (validate_lock r.fromisoformat i.project_package i.lock ≡ [])
        × (validate_requirements i.project i.lock ≡ [])
        × (current.1 ≡ [])
        × (validate_cooldown r same i.hotfix_label i.project_package true i.now i.cooldown i.event
              (change i true current base)
            ≡ [])
  unfolding gate_errors
  no_errors current base full enforce h =
      let h' = rw (full, enforce) at h in
      let (a, b) = append_nil _ _ h' in
      let (c, d) = append_nil _ _ b in
      let (e, f) = append_nil _ _ d in
      (
        map_nil in_lock _ a,
        map_nil in_requirements _ c,
        map_nil in_workflow _ e,
        map_nil in_change _ f,
      )

  exit_code_zero :
      (given given' : Option Actions)
      → exit_code r same i given given' ≡ some 0
      → (current : Actions) × (base : Actions) × (given ≡ some current)
        × (given' ≡ some base)
        × (gate_errors r same i current base ≡ [])
  exit_code_zero none given' h = cc h
  exit_code_zero (some current) none h = cc h
  exit_code_zero (some current) (some base) h =
      elim (Bool-cases (is_empty (gate_errors r same i current base))) [
        | inl y ↦ (current, base, refl, refl, sym (nil_of_is_empty _ y))
        | inr n ↦ absurd (ground (arith, h, n))
      ]

  build_requires_locked :
      validate_requirements i.project i.lock ≡ []
      → All (IsLockedPin i.lock) i.project.build_requires
  unfolding validate_requirements
  build_requires_locked h =
      let (a, b) = append_nil _ _ h in
      let (c, d) = append_nil _ _ b in
      let (e, f) = append_nil (build_errors i.lock i.project.build_requires) _ d in
      build_errors-IsLockedPin i.lock i.project.build_requires e

  -- Where a full run that enforces the cooldown exits with 0: every locked package is admitted, every
  -- requirement of the build system is an exact pin of a locked version, every workflow was parsed,
  -- its references are local or pinned to a full commit and no alias in it is recursive, the base
  -- has a lock file, and every package and every pin that changed since the base passed its check and
  -- is older than the cooldown, unless the pull request is a hotfix, where only the age is waived.
  pub main_admits :
      main r same i ≡ some 0
      → i.preflight ≡ false
      → i.enforce_cooldown ≡ true
      → let bypassed = hotfix_exception i.hotfix_label i.event in
        All (IsAdmitted r.fromisoformat i.project_package) i.lock
        × All (IsLockedPin i.lock) i.project.build_requires
        × All IsPinnedWorkflow i.workflows
        × ((current : Actions) × (base : Actions) × (base_lock : List Package) × (actions_of
                i.workflows
              ≡ some current)
            × (actions_of i.base_workflows ≡ some base)
            × (i.base_lock ≡ some base_lock)
            × All
                (λ p. IsPassed bypassed i.now i.cooldown (uploaded r true p))
                (changed_packages same i.project_package base_lock i.lock)
            × All
                (λ p. IsPassed bypassed i.now i.cooldown (committed r true p.1))
                (changed_pins base.0 current.0))
  unfolding main
  main_admits h full enforce =
      let (current, base, c, b, none_left) =
        exit_code_zero (actions_of i.workflows) (actions_of i.base_workflows) h in
      let (lock, requirements, workflows, cooldown) =
        no_errors current base full enforce none_left in
      let (base_lock, given, packages, pins) =
        validate_cooldown_enforced r same i.hotfix_label i.project_package true i.now i.cooldown
          i.event (change i true current base) cooldown in
      (
        ((validate_lock_lem r.fromisoformat i.project_package i.lock).0 lock).1,
        build_requires_locked requirements,
        actions_pinned i.workflows current.0 (c ∙ ap (λ e. some (current.0, e)) workflows),
        (current, base, base_lock, c, b, given, packages, pins),
      )
