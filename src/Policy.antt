-- ===== src/Policy.antt =====
-- src/dewey/policy.py: the policy of a task type, its layers, and the registry of declared ones.
-- A handler is a callable, of which only its identity is used here.
pub mod Backoff
pub mod Options
pub mod Accepted
pub mod Configured
pub mod Registry
pub mod Resolution
use dewey.Prelude.{
  ℕ, zero, suc, ◌-◌, ◌&&◌, String, ℤ, pos, Bool, true, false, not, Option, none, some, List, [],
  ◌∷◌, get_or, is_empty, str_eq, if◌then◌else◌,
}
use dewey.Core.Errors.{ExceptionClass, non_retryable_error, Raised, isinstance}
use dewey.Policy.Backoff.{BackoffPolicy, exponential, default_exponential}

pub record TaskPolicy : Type 0 where
  pub task_type : String
  pub handler : Option ℕ
  pub queue : String
  pub priority : ℤ
  pub max_attempts : ℕ
  pub backoff : BackoffPolicy
  pub retry_on : List ExceptionClass
  pub fail_fast_on : List ExceptionClass

unfoldable pub is_retryable : TaskPolicy → Raised → Bool
is_retryable p exc =
    if not (is_empty p.fail_fast_on) && isinstance exc p.fail_fast_on
    then false
    else if is_empty p.retry_on
    then true
    else isinstance exc p.retry_on

-- `replace(TASK_DEFAULTS, task_type=task_type)`
abbrev pub default_policy : String → TaskPolicy
default_policy task_type = record {
  task_type = task_type;
  handler = none;
  queue = "default";
  priority = pos 0;
  max_attempts = 5;
  backoff = default_exponential;
  retry_on = [];
  fail_fast_on = non_retryable_error ∷ [];
}

-- A layer: the policy fields that a decorator or a project's entry gives.
pub record Overrides : Type 0 where
  pub queue : Option String
  pub priority : Option ℤ
  pub max_attempts : Option ℕ
  pub backoff : Option BackoffPolicy
  pub retry_on : Option (List ExceptionClass)
  pub fail_fast_on : Option (List ExceptionClass)

-- `replace(policy, **overrides)`
unfoldable pub replace : TaskPolicy → Overrides → TaskPolicy
replace p o = record p {
  queue = get_or o.queue p.queue;
  priority = get_or o.priority p.priority;
  max_attempts = get_or o.max_attempts p.max_attempts;
  backoff = get_or o.backoff p.backoff;
  retry_on = get_or o.retry_on p.retry_on;
  fail_fast_on = get_or o.fail_fast_on p.fail_fast_on;
}
