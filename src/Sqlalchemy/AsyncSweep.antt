-- ===== src/Sqlalchemy/AsyncSweep.antt =====
-- The recovery passes of src/dewey/sqlalchemy/async_sweep.py, over an `AsyncSession`, and `run_sweep`
-- of the asynchronous backend in src/dewey/sqlalchemy/dispatch.py. All passes run in one transaction:
-- a sweep that is cancelled before its commit leaves the tables as they were.
pub mod Twin
use dewey.Prelude.{
  ℕ, Bool, ◌&&◌, List, [], ◌∷◌, contains, is_empty, if◌then◌else◌, Await, returned, cancelled,
}
use dewey.Core.States.{TaskStatus, is_status, processing, dispatching, failed}
use dewey.Core.Types.{TaskEntry}
use dewey.Ledger.{Db, update, rows, ids, notify_all}
use dewey.Ledger.Engine.{Query, Engine}
use dewey.Sqlalchemy.Dispatch.{Backend, expire}
use dewey.Sqlalchemy.Sweep.{
  failed_query, expired_query, stuck_query, dispatching_query, retry_guard, dead_guard,
  expired_guard, set_pending, set_dead, clear_pending, clear_dead, SweepResult, SweepTimes,
}

unfoldable pub recover_async :
    TaskStatus → (TaskEntry → TaskEntry) → (TaskEntry → TaskEntry) → List ℕ → Db → List ℕ × Db
recover_async s back bury task_ids db =
    let retry_rows = rows (retry_guard s task_ids) db.tasks in
    let tasks' =
      update (dead_guard s task_ids) bury (update (retry_guard s task_ids) back db.tasks) in
    if is_empty task_ids
    then ([], db)
    else (ids retry_rows, notify_all retry_rows (record db { tasks = tasks' }))

unfoldable pub sweep_failed_async : Engine → ℕ → ℕ → Db → List ℕ × Db
unfolding recover_async
sweep_failed_async e limit now db =
    recover_async failed set_pending set_dead (ids (e.select (failed_query limit now) db.tasks)) db

unfoldable pub sweep_expired_async : Engine → ℕ → ℕ → Db → List ℕ × Db
sweep_expired_async e limit now db =
    let task_ids = ids (e.select (expired_query limit now) db.tasks) in
    if is_empty task_ids then ([], db) else (
      ids (rows (expired_guard task_ids) db.tasks),
      record db { tasks = update (expired_guard task_ids) (expire now) db.tasks },
    )

unfoldable pub sweep_stuck_async : Engine → ℕ → ℕ → ℕ → Db → List ℕ × Db
unfolding recover_async
sweep_stuck_async e threshold limit now db =
    recover_async processing set_pending set_dead
      (ids (e.select (stuck_query threshold limit now) db.tasks)) db

unfoldable pub sweep_dispatching_async : Engine → ℕ → ℕ → ℕ → Db → List ℕ × Db
unfolding recover_async
sweep_dispatching_async e timeout limit now db =
    recover_async dispatching clear_pending clear_dead
      (ids (e.select (dispatching_query timeout limit now) db.tasks)) db

unfoldable pub sweep_async : Engine → ℕ → ℕ → ℕ → SweepTimes → Db → SweepResult × Db
unfolding sweep_expired_async sweep_failed_async sweep_dispatching_async sweep_stuck_async
sweep_async e stuck_threshold dispatch_timeout limit now db =
    let (expired_ids, db₁) = sweep_expired_async e limit now.expired db in
    let (failed_ids, db₂) = sweep_failed_async e limit now.failed db₁ in
    let (dispatching_ids, db₃) =
      sweep_dispatching_async e dispatch_timeout limit now.dispatching db₂ in
    let (stuck_ids, db₄) = sweep_stuck_async e stuck_threshold limit now.stuck db₃ in
    (
      record {
        expired = expired_ids;
        failed = failed_ids;
        dispatching = dispatching_ids;
        stuck = stuck_ids;
      },
      db₄,
    )

-- `AsyncSQLAlchemyDispatchBackend.run_sweep`
unfoldable pub run_sweep_async : Bool → Engine → Backend → SweepTimes → Db → Await SweepResult × Db
unfolding sweep_async
run_sweep_async cut e b now db =
    let (result, db') = sweep_async e b.stuck_threshold b.dispatch_timeout b.sweep_limit now db in
    if cut then (cancelled, db) else (returned result, db')
