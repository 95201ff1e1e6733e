-- ===== src/Django/System/Simulation.antt =====
-- Each transaction over Django leaves the rows that one over SQLAlchemy leaves.
use dewey.Prelude.{ℕ, ◌≡◌, refl, sym, ap, ◌∙◌, String, Option, List, Result, ok, err, Distinct}
use dewey.Core.States.{TaskStatus, processing, dispatching, failed}
use dewey.Core.Types.{TaskEntry}
use dewey.Ledger.{Db, ids}
use dewey.Sqlalchemy.Sweep
use dewey.Sqlalchemy.Sweep.{
  set_pending, set_dead, clear_pending, clear_dead, failed_query, stuck_query, dispatching_query,
}
use dewey.Sqlalchemy.Queries
use dewey.Sqlalchemy.Queries.{RetryError}
use dewey.Sqlalchemy.System
use dewey.Django.Dispatch.Laws.{counterpart, claim-eq, release-eq}
use dewey.Django.Sweep.{sweep_failed, sweep_stuck, sweep_dispatching}
use dewey.Django.Sweep.Laws.{pass-Agrees, sweep_expired-Same}
use dewey.Django.Executor.Creating.{create_task-eq, create_or_get_task-eq}
use dewey.Django.Executor.Processing.{phase1-eq, phase3_failed-eq, phase3_completed-eq}
use dewey.Django.Queries.{bulk_retry, purge_completed}
use dewey.Django.Queries.Actions.{seen_result, retry_task-eq, bulk_retry-eq, kill_task-eq}
use dewey.Django.System.{Step}

-- A transaction over SQLAlchemy from `db` that leaves the rows of `db'`.
abbrev pub Matched : Db → Db → Type 0
Matched db db' = (mid : Db) × System.Step db mid × (db'.tasks ≡ mid.tasks)

abbrev tasks_of : Db → List TaskEntry
tasks_of db = db.tasks

exactly : (db db' mid : Db) → db' ≡ mid → System.Step db mid → Matched db db'
exactly db db' mid e s = (mid, s, ap tasks_of e)

same_rows : (db db' mid : Db) (ts : List TaskEntry) → db' ≡ mid → mid.tasks ≡ ts → db'.tasks ≡ ts
same_rows db db' mid ts e h = ap tasks_of e ∙ h

unseen :
    (r : Result RetryError (ℕ × Db)) (n : ℕ) (ts : List TaskEntry)
    → seen_result r ≡ ok (n, ts)
    → (mid : Db) × (r ≡ ok (n, mid)) × (ts ≡ mid.tasks)
unseen (err e) n ts h = cc h
unseen (ok (m, mid)) n ts h =
    let same : (m, mid.tasks) ≡ (n, ts) = cc h in
    let number : m ≡ n = ap (λ (r : ℕ × List TaskEntry). r.0) same in
    (mid, ap (λ k. ok (k, mid)) number, sym (ap (λ (r : ℕ × List TaskEntry). r.1) same))

bulk-Matched :
    (task_type : Option String) (status : TaskStatus) (n : ℕ) (db db' : Db)
    → bulk_retry task_type status db ≡ ok (n, db')
    → Matched db db'
bulk-Matched task_type status n db db' h =
    let (mid, e, same) =
      unseen (Queries.bulk_retry task_type status db) n db'.tasks
        (sym (bulk_retry-eq task_type status db) ∙ ap seen_result h) in
    (mid, System.Step.bulk_retries task_type status n e, same)

-- Every transaction over Django leaves the rows that some transaction over SQLAlchemy leaves from the
-- same tables, if no two rows have the same id.
pub simulates : (db db' : Db) → Step db db' → Distinct (ids db.tasks) → Matched db db'
unfolding sweep_failed sweep_stuck sweep_dispatching Sweep.sweep_failed Sweep.sweep_stuck
    Sweep.sweep_dispatching purge_completed Queries.purge_completed
simulates db db' (Step.create resolve id now r t h m) d = (
  db',
  System.Step.create resolve id now r t (sym (create_task-eq resolve id now r db) ∙ h) m,
  refl,
)
simulates db db' (Step.create_or_get eq resolve id now r t h m) d = (
  db',
  System.Step.create_or_get eq resolve id now r t
      (sym (create_or_get_task-eq eq resolve id now r db) ∙ h) m,
  refl,
)
simulates db db' (Step.claims e b limit now sql h) d =
    exactly db db' _ (h ∙ ap (λ r. r.1) (claim-eq e b limit now sql db))
      (System.Step.claims e (counterpart b) limit now sql refl)
simulates db db' (Step.releases task_ids h) d =
    exactly db db' _ (h ∙ release-eq task_ids db) (System.Step.releases task_ids refl)
simulates db db' (Step.starts now task_id h) d =
    exactly db db' _ (h ∙ ap (λ r. r.1) (phase1-eq now task_id db d))
      (System.Step.starts now task_id refl)
simulates db db' (Step.fails draw now task_id cached policy backoff exc h) d =
    exactly db db' _
      (h ∙ ap (λ r. r.1) (phase3_failed-eq draw now task_id cached policy backoff exc db d))
      (System.Step.fails draw now task_id cached policy backoff exc refl)
simulates db db' (Step.completes now task_id h) d =
    exactly db db' _ (h ∙ ap (λ r. r.1) (phase3_completed-eq now task_id db d))
      (System.Step.completes now task_id refl)
simulates db db' (Step.sweeps_failed e limit now sql h) d =
    let (same, _) =
      pass-Agrees failed set_pending set_dead (λ t. refl) (λ t. refl) e (failed_query limit now) db
        db (λ t. refl) (refl, d) in
    (_, System.Step.sweeps_failed e limit now sql refl, ap tasks_of h ∙ same.1)
simulates db db' (Step.sweeps_expired e limit now sql h) d = (
  _,
  System.Step.sweeps_expired e limit now sql refl,
  ap tasks_of h ∙ (sweep_expired-Same e limit now db db (refl, d)).0,
)
simulates db db' (Step.sweeps_stuck e threshold limit now sql h) d =
    let (same, _) =
      pass-Agrees processing set_pending set_dead (λ t. refl) (λ t. refl) e
        (stuck_query threshold limit now) db db (λ t. refl) (refl, d) in
    (_, System.Step.sweeps_stuck e threshold limit now sql refl, ap tasks_of h ∙ same.1)
simulates db db' (Step.sweeps_dispatching e timeout limit now sql h) d =
    let (same, _) =
      pass-Agrees dispatching clear_pending clear_dead (λ t. refl) (λ t. refl) e
        (dispatching_query timeout limit now) db db (λ t. refl) (refl, d) in
    (_, System.Step.sweeps_dispatching e timeout limit now sql refl, ap tasks_of h ∙ same.1)
simulates db db' (Step.retries task_id h) d = (
  _,
  System.Step.retries task_id refl,
  ap tasks_of h ∙ ap (λ r. r.1) (retry_task-eq task_id db d).0,
)
simulates db db' (Step.bulk_retries task_type status n h) d =
    bulk-Matched task_type status n db db' h
simulates db db' (Step.kills task_id h) d =
    exactly db db' _ (h ∙ ap (λ r. r.1) (kill_task-eq task_id db d))
      (System.Step.kills task_id refl)
simulates db db' (Step.purges older_than_days task_type now h) d =
    exactly db db' _ h (System.Step.purges older_than_days task_type now d refl)
