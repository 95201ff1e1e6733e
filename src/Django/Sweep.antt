-- ===== src/Django/Sweep.antt =====
-- The recovery passes of src/dewey/django/sweep.py. Each pass reads the ids that it will retry and
-- bury before it updates them, and announces nothing.
pub mod Laws
use dewey.Prelude.{ℕ, Bool, ◌&&◌, List, [], ◌∷◌, contains, is_empty, if◌then◌else◌}
use dewey.Core.States.{TaskStatus, is_status, processing, dispatching, failed}
use dewey.Core.Types.{TaskEntry}
use dewey.Ledger.{Db, update, rows, ids}
use dewey.Ledger.Engine.{Query, Engine}
use dewey.Sqlalchemy.Dispatch.{expire}
use dewey.Sqlalchemy.Sweep.{
  failed_query, expired_query, stuck_query, dispatching_query, retry_guard, dead_guard,
  expired_guard, set_pending, set_dead, clear_pending, clear_dead, SweepResult, SweepTimes,
}
use dewey.Django.Dispatch.{DjangoBackend}

-- `filter(id__in=…, status=…)`
abbrev pub in_status : TaskStatus → List ℕ → TaskEntry → Bool
in_status s task_ids t = contains t.id task_ids && is_status s t.status

-- What the three passes share behind their locking query.
unfoldable pub recover :
    TaskStatus → (TaskEntry → TaskEntry) → (TaskEntry → TaskEntry) → List ℕ → Db → List ℕ × Db
recover s back bury task_ids db =
    let retry_ids = ids (rows (retry_guard s task_ids) db.tasks) in
    let dead_ids = ids (rows (dead_guard s task_ids) db.tasks) in
    let tasks' =
      update (in_status s dead_ids) bury (update (in_status s retry_ids) back db.tasks) in
    if is_empty task_ids then ([], db) else (retry_ids, record db { tasks = tasks' })

unfoldable pub sweep_failed : Engine → ℕ → ℕ → Db → List ℕ × Db
unfolding recover
sweep_failed e limit now db =
    recover failed set_pending set_dead (ids (e.select (failed_query limit now) db.tasks)) db

unfoldable pub sweep_expired : Engine → ℕ → ℕ → Db → List ℕ × Db
sweep_expired e limit now db =
    let task_ids = ids (e.select (expired_query limit now) db.tasks) in
    if is_empty task_ids
    then ([], db)
    else (task_ids, record db { tasks = update (expired_guard task_ids) (expire now) db.tasks })

unfoldable pub sweep_stuck : Engine → ℕ → ℕ → ℕ → Db → List ℕ × Db
unfolding recover
sweep_stuck e threshold limit now db =
    recover processing set_pending set_dead
      (ids (e.select (stuck_query threshold limit now) db.tasks)) db

unfoldable pub sweep_dispatching : Engine → ℕ → ℕ → ℕ → Db → List ℕ × Db
unfolding recover
sweep_dispatching e timeout limit now db =
    recover dispatching clear_pending clear_dead
      (ids (e.select (dispatching_query timeout limit now) db.tasks)) db

unfoldable pub sweep : Engine → ℕ → ℕ → ℕ → SweepTimes → Db → SweepResult × Db
unfolding sweep_expired sweep_failed sweep_dispatching sweep_stuck
sweep e stuck_threshold dispatch_timeout limit now db =
    let (expired_ids, db₁) = sweep_expired e limit now.expired db in
    let (failed_ids, db₂) = sweep_failed e limit now.failed db₁ in
    let (dispatching_ids, db₃) = sweep_dispatching e dispatch_timeout limit now.dispatching db₂ in
    let (stuck_ids, db₄) = sweep_stuck e stuck_threshold limit now.stuck db₃ in
    (
      record {
        expired = expired_ids;
        failed = failed_ids;
        dispatching = dispatching_ids;
        stuck = stuck_ids;
      },
      db₄,
    )

-- `DjangoDispatchBackend.run_sweep`
unfoldable pub run_sweep : Engine → DjangoBackend → SweepTimes → Db → SweepResult × Db
unfolding sweep
run_sweep e b now db = sweep e b.stuck_threshold b.dispatch_timeout b.sweep_limit now db
