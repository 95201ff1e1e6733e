-- ===== src/Sqlalchemy/AsyncExecutor.antt =====
-- src/dewey/sqlalchemy/async_executor.py: the executor over an `AsyncSession`. Any `await` of it may
-- be cancelled; a transaction that is cancelled before its commit leaves the tables as they were, and
-- one that is cancelled while it commits may be lost or may persist.
pub mod Twin
pub mod Cancelled
use dewey.Prelude.{
  ℕ, String, Bool, true, false, not, ◌&&◌, Option, none, some, is_some, some_gt, Result, ok, err,
  ◌>>=◌, ◌>>◌, get_or, str_eq, if◌then◌else◌, Await, returned, cancelled,
}
use dewey.Core.States
use dewey.Core.States.{is_status, in_statuses, can_transition_to, processing}
use dewey.Core.Types.{TaskEntry}
use dewey.Core.Errors.{Raised}
use dewey.Core.Execution.{classify_failure, resolve_handler}
use dewey.Core.Validation.{require_timezone_aware, empty_idempotency_key}
use dewey.Serialization.{encode_args, encode_kwargs}
use dewey.Policy.{TaskPolicy}
use dewey.Ledger.{Db, find, notify_work_available}
use dewey.Sqlalchemy.Dispatch.{is_overdue, expire}
use dewey.Sqlalchemy.Executor.{
  claimable_statuses, save, start, Phase1, skipped, started, fail_with, complete, World, invoke,
}
use dewey.Sqlalchemy.Executor.Create.{
  Request, CreateError, JsonEquality, new_task, insert_task, or_existing, raised_value,
  raised_serialization,
}

-- The place of the cancellation: none; phase 1, where its commit does not persist, or does; the
-- handler; phase 3, where its commit does not persist, or does.
pub data Cut : Type 0 where
  never claiming claimed handling finishing finished : Cut

unfoldable pub claim_row : ℕ → ℕ → TaskEntry → Db → Phase1 × Db
unfolding States.is_terminal can_transition_to
claim_row now task_id task db =
    if States.is_terminal task.status
    then (skipped, db)
    else if not (in_statuses task.status claimable_statuses)
    then (skipped, db)
    else if is_overdue now task
    then (skipped, save task_id (expire now) db)
    else if is_some task.scheduled_for && some_gt task.scheduled_for now
    then (skipped, db)
    else if not (can_transition_to task.status processing)
    then (skipped, db)
    else (started (start now task), save task_id (start now) db)

unfoldable pub claim_found : ℕ → ℕ → Option TaskEntry → Db → Phase1 × Db
unfolding claim_row
claim_found now task_id none db = (skipped, db)
claim_found now task_id (some task) db = claim_row now task_id task db

unfoldable pub phase1 : ℕ → ℕ → Db → Phase1 × Db
unfolding claim_found
phase1 now task_id db = claim_found now task_id (find task_id db.tasks) db

-- The end of a run: the row is set if it is still processing.
unfoldable pub finish_found : ℕ → (TaskEntry → TaskEntry) → Option TaskEntry → Db → Bool × Db
finish_found task_id set none db = (false, db)
finish_found task_id set (some task) db =
    if is_status processing task.status then (true, save task_id set db) else (false, db)

unfoldable pub phase3_failed :
    (ℕ → ℕ) → ℕ → ℕ → TaskEntry → TaskPolicy → Option (ℕ → ℕ) → Raised → Db → Bool × Db
unfolding finish_found
phase3_failed draw now task_id cached policy backoff exc db =
    let outcome =
      classify_failure draw exc policy cached.attempts cached.max_attempts now backoff in
    (false, (finish_found task_id (fail_with outcome exc.message) (find task_id db.tasks) db).1)

unfoldable pub phase3_completed : ℕ → ℕ → Db → Bool × Db
unfolding finish_found
phase3_completed now task_id db = finish_found task_id (complete now) (find task_id db.tasks) db

module _ (w : World) (explicit : Option ℕ) (backoff : Option (ℕ → ℕ))
    (resolve : String → TaskPolicy) (task_id : ℕ) where
  unfoldable pub phase3 : TaskEntry → Option Raised → Db → Bool × Db
  unfolding phase3_failed phase3_completed
  phase3 cached none db = phase3_completed w.now_after task_id db
  phase3 cached (some exc) db =
      phase3_failed w.draw w.now_after task_id cached (resolve cached.task_type) backoff exc db

  -- Phases 2 and 3. A `CancelledError` is no `Exception`: it passes the handler's `except`.
  unfoldable pub phases_2_3 : Cut → Phase1 → Db → Await Bool × Db
  unfolding phase3 resolve_handler
  phases_2_3 cut skipped db = (returned false, db)
  phases_2_3 never (started cached) db =
      let (done, db') =
        phase3 cached (invoke w explicit (resolve cached.task_type) cached) (w.meanwhile db) in
      (returned done, db')
  phases_2_3 claiming (started cached) db = (cancelled, db)
  phases_2_3 claimed (started cached) db = (cancelled, db)
  phases_2_3 handling (started cached) db = (cancelled, w.meanwhile db)
  phases_2_3 finishing (started cached) db = (cancelled, w.meanwhile db)
  phases_2_3 finished (started cached) db =
      let (done, db') =
        phase3 cached (invoke w explicit (resolve cached.task_type) cached) (w.meanwhile db) in
      (cancelled, db')

  -- `process_task_async(session, task_id, handler, backoff=…)`
  unfoldable pub process_task_async : Cut → ℕ → Db → Await Bool × Db
  unfolding phase1 phases_2_3
  process_task_async claiming now db = (cancelled, db)
  process_task_async claimed now db = (cancelled, (phase1 now task_id db).1)
  process_task_async cut now db =
      let (result, db') = phase1 now task_id db in phases_2_3 cut result db'

unfoldable pub create_task_async :
    (String → TaskPolicy) → ℕ → ℕ → Request → Db → Result CreateError (TaskEntry × Db)
unfolding insert_task
create_task_async resolve id now r db = do
  scheduled_for ← raised_value (require_timezone_aware r.scheduled_for "scheduled_for")
  expires_at ← raised_value (require_timezone_aware r.expires_at "expires_at")
  args ← raised_serialization (encode_args r.args)
  kwargs ← raised_serialization (encode_kwargs r.kwargs)
  let task = new_task id now (resolve r.task_type) r scheduled_for expires_at args kwargs
  db' ← insert_task task db
  ok (task, notify_work_available task.id task.queue db')

-- The nested call gets the policy's values filled in.
abbrev pub filled : TaskPolicy → Request → Request
filled policy r = record r {
  queue = some (get_or r.queue policy.queue);
  priority = some (get_or r.priority policy.priority);
  max_attempts = some (get_or r.max_attempts policy.max_attempts);
}

unfoldable pub create_or_get_task_async :
    JsonEquality
    → (String → TaskPolicy)
    → ℕ
    → ℕ
    → Request
    → Db
    → Result CreateError (TaskEntry × Db)
unfolding create_task_async or_existing
create_or_get_task_async eq resolve id now r db = do
  let key = get_or r.idempotency_key ""
  raised_value (if str_eq key "" then err empty_idempotency_key else ok tt)
  scheduled_for ← raised_value (require_timezone_aware r.scheduled_for "scheduled_for")
  expires_at ← raised_value (require_timezone_aware r.expires_at "expires_at")
  args ← raised_serialization (encode_args r.args)
  kwargs ← raised_serialization (encode_kwargs r.kwargs)
  let policy = resolve r.task_type
  let expected = new_task id now policy r scheduled_for expires_at args kwargs
  or_existing eq key expected db (create_task_async resolve id now (filled policy r) db)
