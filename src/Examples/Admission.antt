-- ===== src/Examples/Admission.antt =====
-- A change of the dependencies that the gate lets through.
use dewey.Prelude.{
  ℕ, zero, suc, ◌<◌, String, Bool, true, false, none, some, List, [], ◌∷◌, ◌≡◌, refl, arith, All,
  ok, str_eq,
}
use dewey.Admission.{Artifact, registry, editable, Package}
use dewey.Admission.Patterns.{codes, is_sha256}
use dewey.Admission.Lock.Admitted.{IsAdmitted}
use dewey.Admission.Requirements.{Project}
use dewey.Admission.Workflow.{Node, scalar, mapping}
use dewey.Admission.Workflow.Walk.{parts}
use dewey.Admission.Hotfix.{hotfix_exception}
use dewey.Admission.Cooldown.{Registries, changed_packages, changed_pins, uploaded, committed}
use dewey.Admission.Cooldown.Enforced.{IsPassed}
use dewey.Admission.Gate.{Workflow, Actions, Inputs, actions_of, main}
use dewey.Admission.Gate.Admits.{IsLockedPin, IsPinnedWorkflow, main_admits}
use dewey.Admission.Gate.Exits.{code, main_exits}

abbrev wheel : Artifact
wheel = record {
  url = "https://files.pythonhosted.org/packages/a.whl";
  digest = some "sha256:0123456789abcdef0123456789abcdef0123456789abcdef0123456789abcdef";
  upload_time = some "2026-01-01T00:00:00Z";
}

abbrev wheel_only : String → String → Package
wheel_only name version = record {
  name = name;
  version = version;
  source = registry "https://pypi.org/simple";
  sdist = none;
  wheels = wheel ∷ [];
  rest = 0;
}

abbrev dewey_package : Package
dewey_package = record (wheel_only "dewey" "1") { source = editable "."; wheels = [] }

abbrev locked : List Package
locked = dewey_package ∷ wheel_only "hatchling" "2.0" ∷ wheel_only "pyyaml" "6.0" ∷ []

abbrev project : Project
project = record {
  name = "dewey";
  build_requires = "hatchling==2.0" ∷ [];
  groups = ("build", "hatchling==2.0" ∷ []) ∷ [];
  build_group = "hatchling==2.0" ∷ [];
  parser_group = "PyYAML==6.0" ∷ [];
}

abbrev checkout : String
checkout = "actions/checkout@0123456789abcdef0123456789abcdef01234567"

-- One `uses` entry, on line 3.
abbrev nodes : ℕ → Node
nodes zero = mapping 3 ((1, 2) ∷ [])
nodes (suc zero) = scalar 3 "tag:yaml.org,2002:str" "uses"
nodes (suc (suc n)) = scalar 3 "tag:yaml.org,2002:str" checkout

abbrev workflow : Workflow
workflow = record {
  path = "ci.yml";
  lines = λ n. codes "  - uses: actions/checkout@0123456789abcdef0123456789abcdef01234567 # v4";
  document = ok (record { size = 3; node = nodes; root = 0 });
}

abbrev registries : Registries
registries = record {
  fromisoformat = λ s. some 5_000;
  same_digest = λ a b. true;
  pypi = λ p.
      some
        (record { url = wheel.url; digest = none; upload_time = some "2026-01-01T00:00:00Z" } ∷ []);
  github = λ action commit. some (true, some "2026-01-01T00:00:00Z");
  is_repository = λ action. true;
}

abbrev same : Package → Package → Bool
same p q = str_eq p.version q.version

-- Everything is new against the base.
abbrev inputs : Inputs
inputs = record {
  preflight = false;
  enforce_cooldown = true;
  now = 90_000;
  cooldown = 70_000;
  hotfix_label = "dependency-hotfix";
  event = none;
  project_package = "dewey";
  project = project;
  lock = locked;
  base_lock = some [];
  workflows = workflow ∷ [];
  base_workflows = [];
}

admitted : main registries same inputs ≡ some 0
unfolding main is_sha256
admitted = refl

main_admits_example :
    All (IsAdmitted registries.fromisoformat "dewey") locked
    × All (IsLockedPin locked) project.build_requires
    × All IsPinnedWorkflow inputs.workflows
    × ((current : Actions) × (base : Actions) × (base_lock : List Package) × (actions_of
            inputs.workflows
          ≡ some current)
        × (actions_of [] ≡ some base)
        × (some [] ≡ some base_lock)
        × All
            (λ p. IsPassed false 90_000 70_000 (uploaded registries true p))
            (changed_packages same "dewey" base_lock locked)
        × All
            (λ p. IsPassed false 90_000 70_000 (committed registries true p.1))
            (changed_pins base.0 current.0))
unfolding hotfix_exception
main_admits_example = main_admits registries same inputs admitted refl refl

nodes-IsDocument : (i : ℕ) → i < 3 → All (λ j. j < 3) (parts (nodes i))
nodes-IsDocument zero h = omega arith
nodes-IsDocument (suc zero) h = tt
nodes-IsDocument (suc (suc n)) h = tt

main_exits_example : (refused : Bool) × (main registries same inputs ≡ some (code refused))
main_exits_example = main_exits registries same inputs ((nodes-IsDocument, omega arith), tt) tt
