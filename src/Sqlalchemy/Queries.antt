-- ===== src/Sqlalchemy/Queries.antt =====
-- The queries and actions of src/dewey/sqlalchemy/queries.py. A row and the dataclass that
-- `_to_dataclass` makes of it are the same record. `if task_type:` takes `None` and `""` for no
-- filter. `status` filters take every member of the enum as set.
pub mod Actions
pub mod Purge
pub mod Stats
use dewey.Prelude.{
  ℕ, ◌+◌, ◌*◌, String, Bool, true, false, not, ◌&&◌, Option, none, some, List, [], ◌∷◌, map, keep,
  length, leb, ltb, Result, ok, err, str_eq, is_some, some_le, some_lt, if◌then◌else◌,
}
use dewey.Core.States.{
  TaskStatus, is_status, can_transition_to, pending, dispatching, processing, completed, failed,
  dead, expired,
}
use dewey.Core.Types.{TaskEntry}
use dewey.Ledger.{Db, find, update, delete, rows, count, notify_work_available, notify_all}
use dewey.Ledger.Engine.{Query, Engine}
use dewey.Sqlalchemy.Sweep.{older_than, column_before}
use dewey.Sqlalchemy.Executor.{save}

abbrev pub all_statuses : List TaskStatus
all_statuses = pending ∷ dispatching ∷ processing ∷ completed ∷ failed ∷ dead ∷ expired ∷ []

abbrev pub has_status : TaskStatus → TaskEntry → Bool
has_status s t = is_status s t.status

-- `GROUP BY status`: a group for each status that some row has.
abbrev pub groups : List TaskEntry → List (TaskStatus × ℕ)
groups ts = keep (λ g. ltb 0 g.1) (map (λ s. (s, count (has_status s) ts)) all_statuses)

-- `stats[s] = n`
unfoldable pub assign : TaskStatus → ℕ → List (TaskStatus × ℕ) → List (TaskStatus × ℕ)
assign s n [] = (s, n) ∷ []
assign s n (g ∷ stats) = if is_status s g.0 then (s, n) ∷ stats else g ∷ assign s n stats

unfoldable pub assign_all : List (TaskStatus × ℕ) → List (TaskStatus × ℕ) → List (TaskStatus × ℕ)
unfolding assign
assign_all [] stats = stats
assign_all (g ∷ gs) stats = assign_all gs (assign g.0 g.1 stats)

abbrev pub zeros : List (TaskStatus × ℕ)
zeros = map (λ s. (s, 0)) all_statuses

unfoldable pub get_stats : Db → List (TaskStatus × ℕ)
unfolding assign_all
get_stats db = assign_all (groups db.tasks) zeros

-- `if task_type: ….where(task_type == …)`
abbrev pub of_type : Option String → TaskEntry → Bool
of_type none t = true
of_type (some task_type) t = if str_eq task_type "" then true else str_eq task_type t.task_type

abbrev pub oldest_first : TaskEntry → TaskEntry → Bool
oldest_first a b = leb a.created_at b.created_at

abbrev pub newest_first : TaskEntry → TaskEntry → Bool
newest_first a b = leb b.created_at a.created_at

abbrev pub list_query : TaskStatus → Option String → (TaskEntry → TaskEntry → Bool) → ℕ → Query
list_query s task_type before limit = record {
  matches = λ t. has_status s t && of_type task_type t;
  before = before;
  limit = limit;
  skip_locked = false;
}

unfoldable pub get_pending : Engine → ℕ → Option String → Db → List TaskEntry
get_pending e limit task_type db =
    e.select (list_query pending task_type oldest_first limit) db.tasks

unfoldable pub get_processing : Engine → ℕ → Db → List TaskEntry
get_processing e limit db =
    e.select (list_query processing none (column_before (λ t. t.started_at)) limit) db.tasks

unfoldable pub get_dispatching : Engine → ℕ → Db → List TaskEntry
get_dispatching e limit db =
    e.select (list_query dispatching none (column_before (λ t. t.dispatching_at)) limit) db.tasks

-- No `LIMIT`: the number of rows bounds nothing.
unfoldable pub get_stuck : Engine → ℕ → ℕ → Db → List TaskEntry
get_stuck e older_than_minutes now db =
    e.select
      (record {
        matches = λ t.
            has_status processing t
            && older_than (older_than_minutes * 60_000_000) now t.started_at;
        before = column_before (λ t. t.started_at);
        limit = length db.tasks;
        skip_locked = false;
      })
      db.tasks

unfoldable pub get_failed : Engine → ℕ → Option String → Db → List TaskEntry
get_failed e limit task_type db = e.select (list_query failed task_type newest_first limit) db.tasks

unfoldable pub get_dead : Engine → ℕ → Option String → Db → List TaskEntry
get_dead e limit task_type db = e.select (list_query dead task_type newest_first limit) db.tasks

unfoldable pub get_expired : Engine → ℕ → Option String → Db → List TaskEntry
get_expired e limit task_type db =
    e.select (list_query expired task_type (λ a b. column_before (λ t. t.expired_at) b a) limit)
      db.tasks

unfoldable pub get_task : ℕ → Db → Option TaskEntry
get_task task_id db = find task_id db.tasks

abbrev pub with_status : Option TaskStatus → TaskEntry → Bool
with_status none t = true
with_status (some s) t = has_status s t

abbrev pub since_ : Option ℕ → TaskEntry → Bool
since_ none t = true
since_ (some since) t = leb since t.created_at

unfoldable pub get_recent :
    Engine → ℕ → Option String → Option TaskStatus → Option ℕ → Db → List TaskEntry
get_recent e limit task_type status since db =
    e.select
      (record {
        matches = λ t. of_type task_type t && (with_status status t && since_ since t);
        before = newest_first;
        limit = limit;
        skip_locked = false;
      })
      db.tasks

abbrev pub reset : TaskEntry → TaskEntry
reset t = record t { status = pending; scheduled_for = none; error = ""; attempts = 0 }

unfoldable pub retry_found : ℕ → Option TaskEntry → Db → Option TaskEntry × Db
unfolding can_transition_to
retry_found task_id none db = (none, db)
retry_found task_id (some t) db =
    if is_status expired t.status
    then (none, db)
    else if not (can_transition_to t.status pending)
    then (some t, db)
    else (some (reset t), notify_work_available t.id t.queue (save task_id reset db))

unfoldable pub retry_task : ℕ → Db → Option TaskEntry × Db
unfolding retry_found
retry_task task_id db = retry_found task_id (find task_id db.tasks) db

pub data RetryError : Type 0 where
  no_transition : TaskStatus → RetryError

abbrev pub retry_where : Option String → TaskStatus → TaskEntry → Bool
retry_where task_type status t = has_status status t && of_type task_type t

-- `rowcount` is the number of rows that the `UPDATE` matched.
unfoldable pub bulk_retry : Option String → TaskStatus → Db → Result RetryError (ℕ × Db)
unfolding can_transition_to
bulk_retry task_type status db =
    let p = retry_where task_type status in
    if not (can_transition_to status pending)
    then err (no_transition status)
    else ok (
      count p db.tasks,
      notify_all (rows p db.tasks) (record db { tasks = update p reset db.tasks }),
    )

abbrev pub kill : TaskEntry → TaskEntry
kill t = record t { status = dead }

unfoldable pub kill_found : ℕ → Option TaskEntry → Db → Option TaskEntry × Db
unfolding can_transition_to
kill_found task_id none db = (none, db)
kill_found task_id (some t) db =
    if not (can_transition_to t.status dead)
    then (some t, db)
    else (some (kill t), save task_id kill db)

unfoldable pub kill_task : ℕ → Db → Option TaskEntry × Db
unfolding kill_found
kill_task task_id db = kill_found task_id (find task_id db.tasks) db

abbrev pub day : ℕ
day = 24 * (3600 * 1_000_000)

abbrev pub purge_where : ℕ → Option String → ℕ → TaskEntry → Bool
purge_where older_than_days task_type now t =
    has_status completed t
    && (older_than (older_than_days * day) now t.completed_at && of_type task_type t)

unfoldable pub purge_completed : ℕ → Option String → ℕ → Db → ℕ × Db
purge_completed older_than_days task_type now db =
    let p = purge_where older_than_days task_type now in
    (count p db.tasks, record db { tasks = delete p db.tasks })
