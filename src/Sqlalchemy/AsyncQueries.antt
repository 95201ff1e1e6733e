-- ===== src/Sqlalchemy/AsyncQueries.antt =====
-- The queries and actions of src/dewey/sqlalchemy/async_queries.py, over an `AsyncSession`.
pub mod Twin
use dewey.Prelude.{
  ℕ, ◌*◌, String, Bool, true, false, not, ◌&&◌, Option, none, some, List, [], ◌∷◌, length, Result,
  ok, err, keep, if◌then◌else◌,
}
use dewey.Core.Heartbeat.{DispatcherHeartbeat, serves}
use dewey.Core.States.{
  TaskStatus, is_status, can_transition_to, pending, dispatching, processing, failed, dead, expired,
}
use dewey.Core.Types.{TaskEntry}
use dewey.Ledger.{Db, find, update, delete, rows, count, notify_work_available, notify_all}
use dewey.Ledger.Engine.{Query, Engine}
use dewey.Ledger.Liveness.{Reader, in_window, requested}
use dewey.Sqlalchemy.Sweep.{older_than, column_before}
use dewey.Sqlalchemy.Executor.{save}
use dewey.Sqlalchemy.Queries.{
  groups, assign_all, zeros, has_status, of_type, oldest_first, newest_first, list_query,
  with_status, since_, reset, RetryError, no_transition, retry_where, kill, purge_where,
}

unfoldable pub get_dispatchers_async :
    Reader → Option String → Option (List String) → ℕ → ℕ → Db → List DispatcherHeartbeat
get_dispatchers_async r database queues fresh_within now db =
    keep (λ h. serves h (requested queues))
      (r.newest_first (keep (in_window now fresh_within database) db.dispatchers))

unfoldable pub get_stats_async : Db → List (TaskStatus × ℕ)
unfolding assign_all
get_stats_async db = assign_all (groups db.tasks) zeros

unfoldable pub get_pending_async : Engine → ℕ → Option String → Db → List TaskEntry
get_pending_async e limit task_type db =
    e.select (list_query pending task_type oldest_first limit) db.tasks

unfoldable pub get_processing_async : Engine → ℕ → Db → List TaskEntry
get_processing_async e limit db =
    e.select (list_query processing none (column_before (λ t. t.started_at)) limit) db.tasks

unfoldable pub get_dispatching_async : Engine → ℕ → Db → List TaskEntry
get_dispatching_async e limit db =
    e.select (list_query dispatching none (column_before (λ t. t.dispatching_at)) limit) db.tasks

-- No `LIMIT`: the number of rows bounds nothing.
unfoldable pub get_stuck_async : Engine → ℕ → ℕ → Db → List TaskEntry
get_stuck_async e older_than_minutes now db =
    e.select
      (record {
        matches = λ t.
            has_status processing t
            && older_than (older_than_minutes * 60_000_000) now t.started_at;
        before = column_before (λ t. t.started_at);
        limit = length db.tasks;
        skip_locked = false;
      })
      db.tasks

unfoldable pub get_failed_async : Engine → ℕ → Option String → Db → List TaskEntry
get_failed_async e limit task_type db =
    e.select (list_query failed task_type newest_first limit) db.tasks

unfoldable pub get_dead_async : Engine → ℕ → Option String → Db → List TaskEntry
get_dead_async e limit task_type db =
    e.select (list_query dead task_type newest_first limit) db.tasks

unfoldable pub get_expired_async : Engine → ℕ → Option String → Db → List TaskEntry
get_expired_async e limit task_type db =
    e.select (list_query expired task_type (λ a b. column_before (λ t. t.expired_at) b a) limit)
      db.tasks

unfoldable pub get_task_async : ℕ → Db → Option TaskEntry
get_task_async task_id db = find task_id db.tasks

unfoldable pub get_recent_async :
    Engine → ℕ → Option String → Option TaskStatus → Option ℕ → Db → List TaskEntry
get_recent_async e limit task_type status since db =
    e.select
      (record {
        matches = λ t. of_type task_type t && (with_status status t && since_ since t);
        before = newest_first;
        limit = limit;
        skip_locked = false;
      })
      db.tasks

unfoldable pub retry_found : ℕ → Option TaskEntry → Db → Option TaskEntry × Db
unfolding can_transition_to
retry_found task_id none db = (none, db)
retry_found task_id (some t) db =
    if is_status expired t.status
    then (none, db)
    else if not (can_transition_to t.status pending)
    then (some t, db)
    else (some (reset t), notify_work_available t.id t.queue (save task_id reset db))

unfoldable pub retry_task_async : ℕ → Db → Option TaskEntry × Db
unfolding retry_found
retry_task_async task_id db = retry_found task_id (find task_id db.tasks) db

-- `rowcount` is the number of rows that the `UPDATE` matched.
unfoldable pub bulk_retry_async : Option String → TaskStatus → Db → Result RetryError (ℕ × Db)
unfolding can_transition_to
bulk_retry_async task_type status db =
    let p = retry_where task_type status in
    if not (can_transition_to status pending)
    then err (no_transition status)
    else ok (
      count p db.tasks,
      notify_all (rows p db.tasks) (record db { tasks = update p reset db.tasks }),
    )

unfoldable pub kill_found : ℕ → Option TaskEntry → Db → Option TaskEntry × Db
unfolding can_transition_to
kill_found task_id none db = (none, db)
kill_found task_id (some t) db =
    if not (can_transition_to t.status dead)
    then (some t, db)
    else (some (kill t), save task_id kill db)

unfoldable pub kill_task_async : ℕ → Db → Option TaskEntry × Db
unfolding kill_found
kill_task_async task_id db = kill_found task_id (find task_id db.tasks) db

unfoldable pub purge_completed_async : ℕ → Option String → ℕ → Db → ℕ × Db
purge_completed_async older_than_days task_type now db =
    let p = purge_where older_than_days task_type now in
    (count p db.tasks, record db { tasks = delete p db.tasks })
