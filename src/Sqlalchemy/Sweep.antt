-- ===== src/Sqlalchemy/Sweep.antt =====
-- The recovery passes of src/dewey/sqlalchemy/sweep.py. Each pass reads the clock once: `now`.
-- A duration is in microseconds, and `started_at < now - threshold` stands with the subtraction
-- moved to the other side. `RETURNING` lists the rows in the table's order; ids and queues are not
-- changed by the update. The log lines are left out.
pub mod Steps
use dewey.Prelude.{
  ℕ, ◌+◌, ◌*◌, Bool, true, false, ◌&&◌, Option, none, some, List, [], ◌∷◌, leb, ltb, contains,
  is_empty, is_some, some_le, if◌then◌else◌,
}
use dewey.Core.States.{
  TaskStatus, is_status, in_statuses, pending, dispatching, processing, failed, dead, expired,
}
use dewey.Core.Types.{TaskEntry}
use dewey.Ledger.{Db, update, rows, ids, notify_all}
use dewey.Ledger.Engine.{Query, Engine}
use dewey.Sqlalchemy.Dispatch.{Backend, is_overdue, expire}

abbrev pub default_stuck_threshold : ℕ
default_stuck_threshold = 10 * 60_000_000

abbrev pub default_dispatch_timeout : ℕ
default_dispatch_timeout = 300 * 1_000_000

-- `column < now - age`
abbrev pub older_than : ℕ → ℕ → Option ℕ → Bool
older_than age now none = false
older_than age now (some at) = ltb (at + age) now

-- `ORDER BY column`; the queries admit no NULL there.
abbrev pub column_before : (TaskEntry → Option ℕ) → TaskEntry → TaskEntry → Bool
column_before column a b = elim (column a) [
  | none ↦ true
  | some x ↦ elim (column b) [ none ↦ false | some y ↦ leb x y ]
]

abbrev pub failed_query : ℕ → ℕ → Query
failed_query limit now = record {
  matches = λ t. is_status failed t.status && some_le t.scheduled_for now;
  before = column_before (λ t. t.scheduled_for);
  limit = limit;
  skip_locked = false;
}

abbrev pub expiring : List TaskStatus
expiring = pending ∷ failed ∷ dispatching ∷ []

abbrev pub expired_query : ℕ → ℕ → Query
expired_query limit now = record {
  matches = λ t. in_statuses t.status expiring && is_overdue now t;
  before = column_before (λ t. t.expires_at);
  limit = limit;
  skip_locked = true;
}

abbrev pub stuck_query : ℕ → ℕ → ℕ → Query
stuck_query threshold limit now = record {
  matches = λ t. is_status processing t.status && older_than threshold now t.started_at;
  before = column_before (λ t. t.started_at);
  limit = limit;
  skip_locked = false;
}

abbrev pub dispatching_query : ℕ → ℕ → ℕ → Query
dispatching_query timeout limit now = record {
  matches = λ t. is_status dispatching t.status && older_than timeout now t.dispatching_at;
  before = column_before (λ t. t.dispatching_at);
  limit = limit;
  skip_locked = false;
}

-- The `WHERE` of the two updates of a recovery pass over rows in status `s`.
abbrev pub retry_guard : TaskStatus → List ℕ → TaskEntry → Bool
retry_guard s task_ids t =
    contains t.id task_ids && (is_status s t.status && ltb t.attempts t.max_attempts)

abbrev pub dead_guard : TaskStatus → List ℕ → TaskEntry → Bool
dead_guard s task_ids t =
    contains t.id task_ids && (is_status s t.status && leb t.max_attempts t.attempts)

-- What the three passes share behind their `SELECT`: rows with attempts left are set by `back` and
-- announced, the others by `bury`.
unfoldable pub recover :
    TaskStatus → (TaskEntry → TaskEntry) → (TaskEntry → TaskEntry) → List ℕ → Db → List ℕ × Db
recover s back bury task_ids db =
    let retry_rows = rows (retry_guard s task_ids) db.tasks in
    let tasks' =
      update (dead_guard s task_ids) bury (update (retry_guard s task_ids) back db.tasks) in
    if is_empty task_ids
    then ([], db)
    else (ids retry_rows, notify_all retry_rows (record db { tasks = tasks' }))

abbrev pub set_pending : TaskEntry → TaskEntry
set_pending t = record t { status = pending }

abbrev pub set_dead : TaskEntry → TaskEntry
set_dead t = record t { status = dead }

-- `dispatching_at=None` in both updates of `sweep_dispatching`.
abbrev pub clear_pending : TaskEntry → TaskEntry
clear_pending t = record t { status = pending; dispatching_at = none }

abbrev pub clear_dead : TaskEntry → TaskEntry
clear_dead t = record t { status = dead; dispatching_at = none }

unfoldable pub sweep_failed : Engine → ℕ → ℕ → Db → List ℕ × Db
unfolding recover
sweep_failed e limit now db =
    recover failed set_pending set_dead (ids (e.select (failed_query limit now) db.tasks)) db

abbrev pub expired_guard : List ℕ → TaskEntry → Bool
expired_guard task_ids t = contains t.id task_ids && in_statuses t.status expiring

unfoldable pub sweep_expired : Engine → ℕ → ℕ → Db → List ℕ × Db
sweep_expired e limit now db =
    let task_ids = ids (e.select (expired_query limit now) db.tasks) in
    if is_empty task_ids then ([], db) else (
      ids (rows (expired_guard task_ids) db.tasks),
      record db { tasks = update (expired_guard task_ids) (expire now) db.tasks },
    )

unfoldable pub sweep_stuck : Engine → ℕ → ℕ → ℕ → Db → List ℕ × Db
unfolding recover
sweep_stuck e threshold limit now db =
    recover processing set_pending set_dead
      (ids (e.select (stuck_query threshold limit now) db.tasks)) db

unfoldable pub sweep_dispatching : Engine → ℕ → ℕ → ℕ → Db → List ℕ × Db
unfolding recover
sweep_dispatching e timeout limit now db =
    recover dispatching clear_pending clear_dead
      (ids (e.select (dispatching_query timeout limit now) db.tasks)) db

pub record SweepResult : Type 0 where
  pub expired : List ℕ
  pub failed : List ℕ
  pub dispatching : List ℕ
  pub stuck : List ℕ

-- The clock readings of the four passes.
pub record SweepTimes : Type 0 where
  pub expired : ℕ
  pub failed : ℕ
  pub dispatching : ℕ
  pub stuck : ℕ

unfoldable pub sweep : Engine → ℕ → ℕ → ℕ → SweepTimes → Db → SweepResult × Db
sweep e stuck_threshold dispatch_timeout limit now db =
    let (expired_ids, db₁) = sweep_expired e limit now.expired db in
    let (failed_ids, db₂) = sweep_failed e limit now.failed db₁ in
    let (dispatching_ids, db₃) = sweep_dispatching e dispatch_timeout limit now.dispatching db₂ in
    let (stuck_ids, db₄) = sweep_stuck e stuck_threshold limit now.stuck db₃ in
    (
      record {
        expired = expired_ids;
        failed = failed_ids;
        dispatching = dispatching_ids;
        stuck = stuck_ids;
      },
      db₄,
    )

-- `SQLAlchemyDispatchBackend.run_sweep`.
unfoldable pub run_sweep : Engine → Backend → SweepTimes → Db → SweepResult × Db
unfolding sweep
run_sweep e b now db = sweep e b.stuck_threshold b.dispatch_timeout b.sweep_limit now db
