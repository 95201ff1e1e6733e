-- ===== src/Django/Executor.antt =====
-- `process_task`, `create_task` and `create_or_get_task` of src/dewey/django/executor.py. An object
-- is the row as it was read, with what was assigned since; `save(update_fields=…)` writes the named
-- columns of it and no other. The column `updated_at`, which every `save` names, is left out.
pub mod Creating
pub mod Processing
use dewey.Prelude.{
  ℕ, String, Bool, true, false, not, ◌&&◌, ◌||◌, Option, none, some, List, [], ◌∷◌, is_some,
  some_gt, some_le, ◌==◌, Result, ok, err, ◌>>=◌, ◌>>◌, get_or, str_eq, if◌then◌else◌,
}
use dewey.Core.States
use dewey.Core.States.{TaskStatus, is_status, in_statuses, can_transition_to, processing}
use dewey.Core.Types.{TaskEntry}
use dewey.Core.Errors.{Raised}
use dewey.Core.Execution.{is_dead, classify_failure, resolve_handler}
use dewey.Core.Validation.{require_timezone_aware, empty_idempotency_key}
use dewey.Serialization.{encode_args, encode_kwargs}
use dewey.Policy.{TaskPolicy}
use dewey.Ledger.{Db, find, update, notify_work_available}
use dewey.Sqlalchemy.Dispatch.{is_overdue, expire}
use dewey.Sqlalchemy.Executor.{
  claimable_statuses, start, Phase1, skipped, started, fail_with, complete, World, invoke,
}
use dewey.Sqlalchemy.Executor.Create.{
  Request, CreateError, JsonEquality, new_task, insert_task, or_existing, raised_value,
  raised_serialization,
}

pub data Column : Type 0 where
  status_ error_ scheduled_for_ dispatching_at_ started_at_ completed_at_ expired_at_ : Column
  attempts_ : Column

unfoldable pub copy : Column → TaskEntry → TaskEntry → TaskEntry
copy status_ task t = record t { status = task.status }
copy error_ task t = record t { error = task.error }
copy scheduled_for_ task t = record t { scheduled_for = task.scheduled_for }
copy dispatching_at_ task t = record t { dispatching_at = task.dispatching_at }
copy started_at_ task t = record t { started_at = task.started_at }
copy completed_at_ task t = record t { completed_at = task.completed_at }
copy expired_at_ task t = record t { expired_at = task.expired_at }
copy attempts_ task t = record t { attempts = task.attempts }

unfoldable pub write : List Column → TaskEntry → TaskEntry → TaskEntry
unfolding copy
write [] task t = t
write (c ∷ cs) task t = write cs task (copy c task t)

-- `task.save(update_fields=[…])`
abbrev pub save : List Column → TaskEntry → Db → Db
save update_fields task db = record db {
  tasks = update (λ t. t.id == task.id) (write update_fields task) db.tasks;
}

abbrev pub expire_fields : List Column
expire_fields = status_ ∷ expired_at_ ∷ dispatching_at_ ∷ []

abbrev pub start_fields : List Column
start_fields = status_ ∷ started_at_ ∷ dispatching_at_ ∷ attempts_ ∷ []

abbrev pub fail_fields : List Column
fail_fields = status_ ∷ error_ ∷ scheduled_for_ ∷ []

abbrev pub complete_fields : List Column
complete_fields = status_ ∷ completed_at_ ∷ error_ ∷ []

claim_object : ℕ → TaskEntry → Db → Phase1 × Db
unfolding States.is_terminal can_transition_to write
claim_object now task db =
    if States.is_terminal task.status
    then (skipped, db)
    else if not (in_statuses task.status claimable_statuses)
    then (skipped, db)
    else if is_overdue now task
    then (skipped, save expire_fields (expire now task) db)
    else if is_some task.scheduled_for && some_gt task.scheduled_for now
    then (skipped, db)
    else if not (can_transition_to task.status processing)
    then (skipped, db)
    else (started (start now task), save start_fields (start now task) db)

claim_found : ℕ → Option TaskEntry → Db → Phase1 × Db
unfolding claim_object
claim_found now none db = (skipped, db)
claim_found now (some task) db = claim_object now task db

-- Phase 1, at the time read once the row is locked.
unfoldable pub phase1 : ℕ → ℕ → Db → Phase1 × Db
unfolding claim_found
phase1 now task_id db = claim_found now (find task_id db.tasks) db

-- The end of a run: the locked object is set and saved if it is still processing.
finish_found : List Column → (TaskEntry → TaskEntry) → Option TaskEntry → Db → Bool × Db
unfolding write
finish_found update_fields set none db = (false, db)
finish_found update_fields set (some task) db =
    if is_status processing task.status
    then (true, save update_fields (set task) db)
    else (false, db)

-- Phase 3a, after the handler raised: never a success.
unfoldable pub phase3_failed :
    (ℕ → ℕ) → ℕ → ℕ → TaskEntry → TaskPolicy → Option (ℕ → ℕ) → Raised → Db → Bool × Db
unfolding finish_found
phase3_failed draw now task_id cached policy backoff exc db =
    let outcome =
      classify_failure draw exc policy cached.attempts cached.max_attempts now backoff in
    (false, (finish_found fail_fields (fail_with outcome exc.message) (find task_id db.tasks) db).1)

-- Phase 3b, after the handler returned.
unfoldable pub phase3_completed : ℕ → ℕ → Db → Bool × Db
unfolding finish_found
phase3_completed now task_id db =
    finish_found complete_fields (complete now) (find task_id db.tasks) db

phase3 :
    World → Option (ℕ → ℕ) → (String → TaskPolicy) → ℕ → TaskEntry → Option Raised → Db → Bool × Db
unfolding phase3_failed phase3_completed
phase3 w backoff resolve task_id cached none db = phase3_completed w.now_after task_id db
phase3 w backoff resolve task_id cached (some exc) db =
    phase3_failed w.draw w.now_after task_id cached (resolve cached.task_type) backoff exc db

phases_2_3 : World → Option ℕ → Option (ℕ → ℕ) → (String → TaskPolicy) → ℕ → Phase1 → Db → Bool × Db
unfolding phase3 resolve_handler
phases_2_3 w explicit backoff resolve task_id skipped db = (false, db)
phases_2_3 w explicit backoff resolve task_id (started cached) db =
    phase3 w backoff resolve task_id cached (invoke w explicit (resolve cached.task_type) cached)
      (w.meanwhile db)

-- `process_task(task_id, handler, backoff=…)`; `resolve` is `resolve_policy`.
unfoldable pub process_task :
    World → Option ℕ → Option (ℕ → ℕ) → (String → TaskPolicy) → ℕ → ℕ → Db → Bool × Db
unfolding phase1 phases_2_3
process_task w explicit backoff resolve now task_id db =
    let (claimed, db') = phase1 now task_id db in
    phases_2_3 w explicit backoff resolve task_id claimed db'

-- `objects.create(…)` raises `IntegrityError` where the row breaks a constraint.
unfoldable pub create_task :
    (String → TaskPolicy) → ℕ → ℕ → Request → Db → Result CreateError (TaskEntry × Db)
unfolding insert_task
create_task resolve id now r db = do
  scheduled_for ← raised_value (require_timezone_aware r.scheduled_for "scheduled_for")
  expires_at ← raised_value (require_timezone_aware r.expires_at "expires_at")
  args ← raised_serialization (encode_args r.args)
  kwargs ← raised_serialization (encode_kwargs r.kwargs)
  let task = new_task id now (resolve r.task_type) r scheduled_for expires_at args kwargs
  db' ← insert_task task db
  ok (task, notify_work_available task.id task.queue db')

-- The call of `create_task` that `create_or_get_task` makes, with the policy's values filled in.
abbrev pub resolved : TaskPolicy → Request → Request
resolved policy r = record r {
  queue = some (get_or r.queue policy.queue);
  priority = some (get_or r.priority policy.priority);
  max_attempts = some (get_or r.max_attempts policy.max_attempts);
}

unfoldable pub create_or_get_task :
    JsonEquality
    → (String → TaskPolicy)
    → ℕ
    → ℕ
    → Request
    → Db
    → Result CreateError (TaskEntry × Db)
unfolding create_task or_existing
create_or_get_task eq resolve id now r db = do
  let key = get_or r.idempotency_key ""
  raised_value (if str_eq key "" then err empty_idempotency_key else ok tt)
  scheduled_for ← raised_value (require_timezone_aware r.scheduled_for "scheduled_for")
  expires_at ← raised_value (require_timezone_aware r.expires_at "expires_at")
  args ← raised_serialization (encode_args r.args)
  kwargs ← raised_serialization (encode_kwargs r.kwargs)
  let policy = resolve r.task_type
  let expected = new_task id now policy r scheduled_for expires_at args kwargs
  or_existing eq key expected db (create_task resolve id now (resolved policy r) db)
