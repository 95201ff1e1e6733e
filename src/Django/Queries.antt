-- ===== src/Django/Queries.antt =====
-- The queries and actions of src/dewey/django/queries.py. `to_dataclass` makes a record with the
-- columns of its row. A queryset is lazy: chained filters make one `WHERE`.
pub mod Actions
use dewey.Prelude.{
  ℕ, ◌+◌, ◌*◌, String, Bool, true, false, not, ◌&&◌, Option, none, some, List, [], ◌∷◌, map, length,
  keep, leb, ltb, Result, ok, err, str_eq, is_some, some_le, some_lt, if◌then◌else◌,
}
use dewey.Core.States.{
  TaskStatus, is_status, can_transition_to, pending, dispatching, processing, failed, dead, expired,
}
use dewey.Core.Types.{TaskEntry}
use dewey.Ledger.{Db, find, update, delete, rows, count}
use dewey.Ledger.Engine.{Query, Engine}
use dewey.Sqlalchemy.Sweep.{older_than, column_before}
use dewey.Sqlalchemy.Queries.{
  groups, assign_all, zeros, has_status, of_type, oldest_first, newest_first, list_query,
  with_status, since_, reset, RetryError, no_transition, retry_where, kill, purge_where,
}
use dewey.Django.Executor.{Column, status_, scheduled_for_, error_, attempts_, write, save}

unfoldable pub get_stats : Db → List (TaskStatus × ℕ)
unfolding assign_all
get_stats db = assign_all (groups db.tasks) zeros

unfoldable pub get_pending : Engine → ℕ → Option String → Db → List TaskEntry
get_pending e limit task_type db =
    e.select (list_query pending task_type oldest_first limit) db.tasks

unfoldable pub get_processing : Engine → ℕ → Db → List TaskEntry
get_processing e limit db =
    e.select (list_query processing none (column_before (λ t. t.started_at)) limit) db.tasks

unfoldable pub get_dispatching : Engine → ℕ → Db → List TaskEntry
get_dispatching e limit db =
    e.select (list_query dispatching none (column_before (λ t. t.dispatching_at)) limit) db.tasks

-- No `LIMIT`: the number of rows bounds nothing.
unfoldable pub get_stuck : Engine → ℕ → ℕ → Db → List TaskEntry
get_stuck e older_than_minutes now db =
    e.select
      (record {
        matches = λ t.
            has_status processing t
            && older_than (older_than_minutes * 60_000_000) now t.started_at;
        before = column_before (λ t. t.started_at);
        limit = length db.tasks;
        skip_locked = false;
      })
      db.tasks

unfoldable pub get_failed : Engine → ℕ → Option String → Db → List TaskEntry
get_failed e limit task_type db = e.select (list_query failed task_type newest_first limit) db.tasks

unfoldable pub get_dead : Engine → ℕ → Option String → Db → List TaskEntry
get_dead e limit task_type db = e.select (list_query dead task_type newest_first limit) db.tasks

unfoldable pub get_expired : Engine → ℕ → Option String → Db → List TaskEntry
get_expired e limit task_type db =
    e.select (list_query expired task_type (λ a b. column_before (λ t. t.expired_at) b a) limit)
      db.tasks

unfoldable pub get_task : ℕ → Db → Option TaskEntry
get_task task_id db = find task_id db.tasks

unfoldable pub get_recent :
    Engine → ℕ → Option String → Option TaskStatus → Option ℕ → Db → List TaskEntry
get_recent e limit task_type status since db =
    e.select
      (record {
        matches = λ t. of_type task_type t && (with_status status t && since_ since t);
        before = newest_first;
        limit = limit;
        skip_locked = false;
      })
      db.tasks

abbrev pub reset_fields : List Column
reset_fields = status_ ∷ scheduled_for_ ∷ error_ ∷ attempts_ ∷ []

retry_found : Option TaskEntry → Db → Option TaskEntry × Db
unfolding can_transition_to write
retry_found none db = (none, db)
retry_found (some task) db =
    if is_status expired task.status
    then (none, db)
    else if not (can_transition_to task.status pending)
    then (some task, db)
    else (some (reset task), save reset_fields (reset task) db)

unfoldable pub retry_task : ℕ → Db → Option TaskEntry × Db
unfolding retry_found
retry_task task_id db = retry_found (find task_id db.tasks) db

-- `qs.update(…)` returns the number of rows that it matched.
unfoldable pub bulk_retry : Option String → TaskStatus → Db → Result RetryError (ℕ × Db)
unfolding can_transition_to
bulk_retry task_type status db =
    let p = retry_where task_type status in
    if not (can_transition_to status pending)
    then err (no_transition status)
    else ok (count p db.tasks, record db { tasks = update p reset db.tasks })

kill_found : Option TaskEntry → Db → Option TaskEntry × Db
unfolding can_transition_to write
kill_found none db = (none, db)
kill_found (some task) db =
    if not (can_transition_to task.status dead)
    then (some task, db)
    else (some (kill task), save (status_ ∷ []) (kill task) db)

unfoldable pub kill_task : ℕ → Db → Option TaskEntry × Db
unfolding kill_found
kill_task task_id db = kill_found (find task_id db.tasks) db

unfoldable pub purge_completed : ℕ → Option String → ℕ → Db → ℕ × Db
purge_completed older_than_days task_type now db =
    let p = purge_where older_than_days task_type now in
    (count p db.tasks, record db { tasks = delete p db.tasks })
