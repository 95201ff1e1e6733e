-- ===== src/Sqlalchemy/AsyncSweep/Twin.antt =====
-- The asynchronous passes next to the synchronous ones.
use dewey.Prelude.{ℕ, ◌≡◌, refl, ap, Bool, true, false, Await, returned, cancelled, if◌then◌else◌}
use dewey.Ledger.{Db}
use dewey.Ledger.Engine.{Engine}
use dewey.Sqlalchemy.Dispatch.{Backend}
use dewey.Sqlalchemy.Sweep
use dewey.Sqlalchemy.Sweep.{SweepTimes, SweepResult}
use dewey.Sqlalchemy.AsyncSweep.{
  recover_async, sweep_failed_async, sweep_expired_async, sweep_stuck_async,
  sweep_dispatching_async, sweep_async, run_sweep_async,
}

sweep_async-twin :
    (e : Engine) (stuck_threshold dispatch_timeout limit : ℕ) (now : SweepTimes) (db : Db)
    → sweep_async e stuck_threshold dispatch_timeout limit now db
      ≡ Sweep.sweep e stuck_threshold dispatch_timeout limit now db
unfolding sweep_async sweep_failed_async sweep_expired_async sweep_stuck_async
    sweep_dispatching_async recover_async Sweep.sweep Sweep.sweep_failed Sweep.sweep_expired
    Sweep.sweep_stuck Sweep.sweep_dispatching Sweep.recover
sweep_async-twin e stuck_threshold dispatch_timeout limit now db = refl

abbrev swept : SweepResult × Db → Await SweepResult × Db
swept r = let (result, db) = r in (returned result, db)

-- A sweep of the asynchronous backend does what one of the synchronous backend does, or, cancelled,
-- nothing.
pub run_sweep_async-twin :
    (cut : Bool) (e : Engine) (b : Backend) (now : SweepTimes) (db : Db)
    → run_sweep_async cut e b now db
      ≡ (if cut then (cancelled, db) else swept (Sweep.run_sweep e b now db))
unfolding run_sweep_async Sweep.run_sweep
run_sweep_async-twin true e b now db = refl
run_sweep_async-twin false e b now db =
    ap swept (sweep_async-twin e b.stuck_threshold b.dispatch_timeout b.sweep_limit now db)
