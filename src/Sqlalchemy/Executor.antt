-- ===== src/Sqlalchemy/Executor.antt =====
-- `process_task` of src/dewey/sqlalchemy/executor.py, in its two transactions. The row lock of the
-- first `SELECT … FOR UPDATE` makes each of them one step. What the handler does is an argument,
-- and so is what other sessions commit between the transactions. The trace context and the log
-- lines are left out.
pub mod Create
pub mod Existing
pub mod Idempotent
pub mod Phases
pub mod Runs
pub mod Steps
use dewey.Prelude.{
  ℕ, suc, ◌+◌, String, Bool, true, false, not, ◌&&◌, ◌||◌, Option, none, some, List, [], ◌∷◌,
  is_some, some_le, some_gt, ◌==◌, Result, ok, err, if◌then◌else◌,
}
use dewey.Core.States
use dewey.Core.States.{
  TaskStatus, is_status, in_statuses, can_transition_to, pending, dispatching, processing,
  completed, failed,
}
use dewey.Core.Types.{TaskEntry}
use dewey.Core.Errors.{Raised, unknown_task_type_error, unknown_task_type_error-IsException}
use dewey.Core.Execution.{FailureOutcome, is_dead, classify_failure, resolve_handler}
use dewey.Policy.{TaskPolicy}
use dewey.Ledger.{Db, find, update}
use dewey.Sqlalchemy.Dispatch.{is_overdue, expire}

abbrev pub claimable_statuses : List TaskStatus
claimable_statuses = pending ∷ dispatching ∷ []

-- An ORM flush of the columns that were assigned on the row of an id.
abbrev pub save : ℕ → (TaskEntry → TaskEntry) → Db → Db
save task_id f db = record db { tasks = update (λ t. t.id == task_id) f db.tasks }

abbrev pub start : ℕ → TaskEntry → TaskEntry
start now t = record t {
  status = processing;
  attempts = suc t.attempts;
  dispatching_at = none;
  started_at = some now;
}

-- What phase 1 hands on: nothing, or the values cached before its commit.
pub data Phase1 : Type 0 where
  skipped : Phase1
  started : TaskEntry → Phase1

unfoldable pub claim_row : ℕ → ℕ → TaskEntry → Db → Phase1 × Db
claim_row now task_id t db =
    if States.is_terminal t.status
    then (skipped, db)
    else if not (in_statuses t.status claimable_statuses)
    then (skipped, db)
    else if is_overdue now t
    then (skipped, save task_id (expire now) db)
    else if is_some t.scheduled_for && some_gt t.scheduled_for now
    then (skipped, db)
    else if not (can_transition_to t.status processing)
    then (skipped, db)
    else (started (start now t), save task_id (start now) db)

unfoldable pub claim_found : ℕ → ℕ → Option TaskEntry → Db → Phase1 × Db
unfolding claim_row States.is_terminal can_transition_to
claim_found now task_id none db = (skipped, db)
claim_found now task_id (some t) db = claim_row now task_id t db

-- Phase 1, at the time read once the row is locked.
unfoldable pub phase1 : ℕ → ℕ → Db → Phase1 × Db
unfolding claim_found
phase1 now task_id db = claim_found now task_id (find task_id db.tasks) db

abbrev pub fail_with : FailureOutcome → String → TaskEntry → TaskEntry
fail_with outcome message t =
    if is_dead outcome
    then record t { status = outcome.status; error = message }
    else record t { status = outcome.status; error = message; scheduled_for = outcome.retry_at }

abbrev pub complete : ℕ → TaskEntry → TaskEntry
complete now t = record t { status = completed; error = ""; completed_at = some now }

-- The end of a run: the row is set if it is still processing, whoever set it so.
unfoldable pub finish_found : ℕ → (TaskEntry → TaskEntry) → Option TaskEntry → Db → Bool × Db
finish_found task_id f none db = (false, db)
finish_found task_id f (some t) db =
    if is_status processing t.status then (true, save task_id f db) else (false, db)

unfoldable pub finish : ℕ → (TaskEntry → TaskEntry) → Db → Bool × Db
unfolding finish_found
finish task_id f db = finish_found task_id f (find task_id db.tasks) db

-- Phase 3a, after the handler raised: never a success.
unfoldable pub phase3_failed :
    (ℕ → ℕ) → ℕ → ℕ → TaskEntry → TaskPolicy → Option (ℕ → ℕ) → Raised → Db → Bool × Db
unfolding finish
phase3_failed draw now task_id cached policy backoff exc db =
    let outcome =
      classify_failure draw exc policy cached.attempts cached.max_attempts now backoff in
    (false, (finish task_id (fail_with outcome exc.message) db).1)

-- Phase 3b, after the handler returned.
unfoldable pub phase3_completed : ℕ → ℕ → Db → Bool × Db
unfolding finish
phase3_completed now task_id db = finish task_id (complete now) db

-- What is outside the function: what a handler does with the arguments of the row, what the other
-- sessions commit while it runs, the time after it, and the random numbers.
pub record World : Type 0 where
  pub run : ℕ → TaskEntry → Option Raised
  pub meanwhile : Db → Db
  pub now_after : ℕ
  pub draw : ℕ → ℕ

abbrev unknown_task_type : TaskEntry → Raised
unknown_task_type t = record {
  cls = unknown_task_type_error;
  message = t.task_type;
  seconds = 0;
  is_exception = unknown_task_type_error-IsException;
}

-- `resolve_handler(…)(*args, **kwargs)`: an exception, if one is raised.
abbrev pub invoke : World → Option ℕ → TaskPolicy → TaskEntry → Option Raised
invoke w explicit policy t = elim (resolve_handler t.task_type explicit policy.handler) [
  | ok fn ↦ w.run fn t
  | err e ↦ some (unknown_task_type t)
]

unfoldable pub phase3 :
    World
    → Option ℕ
    → Option (ℕ → ℕ)
    → (String → TaskPolicy)
    → ℕ
    → TaskEntry
    → Option Raised
    → Db
    → Bool × Db
unfolding phase3_failed phase3_completed
phase3 w explicit backoff resolve task_id cached none db = phase3_completed w.now_after task_id db
phase3 w explicit backoff resolve task_id cached (some exc) db =
    phase3_failed w.draw w.now_after task_id cached (resolve cached.task_type) backoff exc db

unfoldable pub phases_2_3 :
    World → Option ℕ → Option (ℕ → ℕ) → (String → TaskPolicy) → ℕ → Phase1 → Db → Bool × Db
unfolding phase3 resolve_handler
phases_2_3 w explicit backoff resolve task_id skipped db = (false, db)
phases_2_3 w explicit backoff resolve task_id (started cached) db =
    phase3 w explicit backoff resolve task_id cached
      (invoke w explicit (resolve cached.task_type) cached) (w.meanwhile db)

-- `process_task(session, task_id, handler, backoff=…)`; `resolve` is `resolve_policy`.
unfoldable pub process_task :
    World → Option ℕ → Option (ℕ → ℕ) → (String → TaskPolicy) → ℕ → ℕ → Db → Bool × Db
unfolding phase1 phases_2_3
process_task w explicit backoff resolve now task_id db =
    let (claimed, db') = phase1 now task_id db in
    phases_2_3 w explicit backoff resolve task_id claimed db'
