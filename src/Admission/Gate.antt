-- ===== src/Admission/Gate.antt =====
-- `main` of scripts/dependency_admission.py: the checks together, and the exit code.
pub mod Admits
pub mod Exits
use dewey.Prelude.{
  ℕ, String, Bool, true, false, not, Option, none, some, List, [], ◌∷◌, ◌++◌, map, Result, is_empty,
  if◌then◌else◌,
}
use dewey.Admission.{Package}
use dewey.Admission.Lock.{LockError, validate_lock}
use dewey.Admission.Requirements.{RequirementError, Project, validate_requirements}
use dewey.Admission.Workflow.{Document, Pin, Parsed, WorkflowError, parse_actions}
use dewey.Admission.Hotfix.{PullRequest}
use dewey.Admission.Cooldown.{Registries, Located, CooldownError, Change, validate_cooldown}

-- A workflow file: its path, its lines, and what `yaml.compose` makes of it.
pub record Workflow : Type 0 where
  pub path : String
  pub lines : ℕ → List ℕ
  pub document : Result ℕ Document

abbrev pub Actions : Type 0
Actions = List Located × List (ℕ × WorkflowError)

abbrev pub joined : String → Option Parsed → Option Actions → Option Actions
joined path none rest = none
joined path (some p) none = none
joined path (some p) (some (pins, errors)) =
    some (map (λ pin. (path, pin)) p.actions ++ pins, p.errors ++ errors)

-- `current_actions` and `base_actions`.
unfoldable pub actions_of : List Workflow → Option Actions
unfolding parse_actions
actions_of [] = some ([], [])
actions_of (w ∷ ws) = joined w.path (parse_actions w.lines w.document) (actions_of ws)

pub record Inputs : Type 0 where
  pub preflight : Bool
  pub enforce_cooldown : Bool
  pub now : ℕ
  pub cooldown : ℕ
  pub hotfix_label : String
  pub event : Option PullRequest
  pub project_package : String
  pub project : Project
  pub lock : List Package
  pub base_lock : Option (List Package)
  pub workflows : List Workflow
  pub base_workflows : List Workflow

pub data GateError : Type 0 where
  in_lock : LockError → GateError
  in_requirements : RequirementError → GateError
  in_workflow : ℕ × WorkflowError → GateError
  in_change : CooldownError → GateError

-- With `include_actions`, the pins and the errors of both sides.
abbrev pub change : Inputs → Bool → Actions → Actions → Change
change i true (pins, errors) (base_pins, base_errors) = record {
  current_lock = i.lock;
  base_lock = i.base_lock;
  current_pins = pins;
  base_pins = base_pins;
  workflow_errors = errors ++ base_errors;
}
change i false current base = record {
  current_lock = i.lock;
  base_lock = i.base_lock;
  current_pins = [];
  base_pins = [];
  workflow_errors = [];
}

module _ (r : Registries) (same : Package → Package → Bool) where
  unfoldable pub gate_errors : Inputs → Actions → Actions → List GateError
  unfolding validate_lock validate_requirements validate_cooldown
  gate_errors i current base =
      map in_lock (validate_lock r.fromisoformat i.project_package i.lock)
      ++ (map in_requirements (validate_requirements i.project i.lock)
          ++ ((if i.preflight then [] else map in_workflow current.1)
              ++ (if i.enforce_cooldown
                  then map in_change (
                      validate_cooldown r same i.hotfix_label i.project_package true i.now
                        i.cooldown i.event (change i (not i.preflight) current base))
                  else [])))

  abbrev pub exit_code : Inputs → Option Actions → Option Actions → Option ℕ
  exit_code i (some current) (some base) =
      some (if is_empty (gate_errors i current base) then 0 else 1)
  exit_code i _ _ = none

  -- The exit code; `none` is a walk that is out of fuel.
  unfoldable pub main : Inputs → Option ℕ
  unfolding gate_errors actions_of
  main i = exit_code i (actions_of i.workflows) (actions_of i.base_workflows)
