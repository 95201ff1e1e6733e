-- ===== src/Core/Execution.antt =====
-- src/dewey/core/execution.py: what a failed attempt means. Durations and instants are
-- microseconds; `draw` is `random.uniform` as in dewey.Policy.Backoff.
pub mod Outcomes
use dewey.Prelude.{
  ℕ, ◌+◌, String, Bool, true, false, not, Option, none, some, List, [], ◌∷◌, Result, ok, err, ltb,
  if◌then◌else◌,
}
use dewey.Core.States.{TaskStatus, is_status, failed, dead, should_die}
use dewey.Core.Errors.{Raised, isinstance, retry_after}
use dewey.Policy.{TaskPolicy, is_retryable}
use dewey.Policy.Backoff.{delay_for}

pub data Reason : Type 0 where
  non_retryable attempts_exhausted retry : Reason

pub record FailureOutcome : Type 0 where
  pub status : TaskStatus
  pub retry_at : Option ℕ
  pub reason : Reason

abbrev pub is_dead : FailureOutcome → Bool
is_dead o = is_status dead o.status

abbrev later : Option ℕ → ℕ → ℕ
later none delay = delay
later (some requested) delay = if ltb delay requested then requested else delay

abbrev pub chosen_delay : (ℕ → ℕ) → TaskPolicy → Option (ℕ → ℕ) → ℕ → ℕ
chosen_delay draw policy none attempts = delay_for draw policy.backoff attempts
chosen_delay draw policy (some backoff) attempts = backoff attempts

-- Behind the test for a failure that is not to be retried.
unfoldable pub classify_retry :
    (ℕ → ℕ) → Option ℕ → TaskPolicy → ℕ → ℕ → ℕ → Option (ℕ → ℕ) → FailureOutcome
unfolding should_die
classify_retry draw requested policy attempts max_attempts now backoff =
    if should_die attempts max_attempts
    then record { status = dead; retry_at = none; reason = attempts_exhausted }
    else record {
      status = failed;
      retry_at = some (now + later requested (chosen_delay draw policy backoff attempts));
      reason = retry;
    }

unfoldable pub classify_failure :
    (ℕ → ℕ) → Raised → TaskPolicy → ℕ → ℕ → ℕ → Option (ℕ → ℕ) → FailureOutcome
unfolding classify_retry
classify_failure draw exc policy attempts max_attempts now backoff =
    if isinstance exc (retry_after ∷ [])
    then classify_retry draw (some exc.seconds) policy attempts max_attempts now backoff
    else if not (is_retryable policy exc)
    then record { status = dead; retry_at = none; reason = non_retryable }
    else classify_retry draw none policy attempts max_attempts now backoff

pub data UnknownTaskTypeError : Type 0 where
  no_handler : String → UnknownTaskTypeError

-- `policy` is the resolved policy, which every caller passes.
unfoldable pub resolve_handler : String → Option ℕ → Option ℕ → Result UnknownTaskTypeError ℕ
resolve_handler task_type (some explicit) registered = ok explicit
resolve_handler task_type none (some handler) = ok handler
resolve_handler task_type none none = err (no_handler task_type)
