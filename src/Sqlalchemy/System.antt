-- ===== src/Sqlalchemy/System.antt =====
-- All transactions that the sessions of producers, dispatchers, workers and operators run on the
-- ledger of src/dewey/sqlalchemy, as one relation between the tables before and after: any order
-- of them, with any clock readings, is a run of the system. A worker's two transactions stand as
-- separate steps, and the second may carry the values of any attempt, as a stale worker's does.
pub mod Rows
pub mod Kept
pub mod Keys
pub mod Created
pub mod Changes
pub mod Reached
use dewey.Prelude.{ℕ, ◌≤◌, ◌≡◌, String, Option, List, Result, ok, Distinct}
use dewey.Core.States.{TaskStatus}
use dewey.Core.Types.{TaskEntry}
use dewey.Core.Errors.{Raised}
use dewey.Policy.{TaskPolicy}
use dewey.Ledger.{Db, ids}
use dewey.Ledger.Engine.{Engine, IsSql}
use dewey.Sqlalchemy.Dispatch.{Backend, claim, release}
use dewey.Sqlalchemy.Sweep.{sweep_failed, sweep_expired, sweep_stuck, sweep_dispatching}
use dewey.Sqlalchemy.Executor.{phase1, phase3_failed, phase3_completed}
use dewey.Sqlalchemy.Executor.Create.{Request, JsonEquality, create_task, create_or_get_task}
use dewey.Sqlalchemy.Queries.{retry_task, bulk_retry, kill_task, purge_completed}

-- A producer asks for at least one attempt. `id` is a primary key: no two rows share one.
pub data Step (db db' : Db) : Type 0 where
  create :
      (resolve : String → TaskPolicy) (id now : ℕ) (r : Request) (t : TaskEntry)
      → create_task resolve id now r db ≡ ok (t, db')
      → 1 ≤ t.max_attempts
      → Step db db'
  create_or_get :
      (eq : JsonEquality) (resolve : String → TaskPolicy) (id now : ℕ) (r : Request) (t : TaskEntry)
      → create_or_get_task eq resolve id now r db ≡ ok (t, db')
      → 1 ≤ t.max_attempts
      → Step db db'
  claims :
      (e : Engine) (b : Backend) (limit now : ℕ)
      → IsSql e
      → db' ≡ (claim e b limit now db).1
      → Step db db'
  releases : (task_ids : List ℕ) → db' ≡ release task_ids db → Step db db'
  starts : (now task_id : ℕ) → db' ≡ (phase1 now task_id db).1 → Step db db'
  fails :
      (draw : ℕ → ℕ) (now task_id : ℕ) (cached : TaskEntry) (policy : TaskPolicy)
      (backoff : Option (ℕ → ℕ)) (exc : Raised)
      → db' ≡ (phase3_failed draw now task_id cached policy backoff exc db).1
      → Step db db'
  completes : (now task_id : ℕ) → db' ≡ (phase3_completed now task_id db).1 → Step db db'
  sweeps_failed :
      (e : Engine) (limit now : ℕ) → IsSql e → db' ≡ (sweep_failed e limit now db).1 → Step db db'
  sweeps_expired :
      (e : Engine) (limit now : ℕ) → IsSql e → db' ≡ (sweep_expired e limit now db).1 → Step db db'
  sweeps_stuck :
      (e : Engine) (threshold limit now : ℕ)
      → IsSql e
      → db' ≡ (sweep_stuck e threshold limit now db).1
      → Step db db'
  sweeps_dispatching :
      (e : Engine) (timeout limit now : ℕ)
      → IsSql e
      → db' ≡ (sweep_dispatching e timeout limit now db).1
      → Step db db'
  retries : (task_id : ℕ) → db' ≡ (retry_task task_id db).1 → Step db db'
  bulk_retries :
      (task_type : Option String) (status : TaskStatus) (n : ℕ)
      → bulk_retry task_type status db ≡ ok (n, db')
      → Step db db'
  kills : (task_id : ℕ) → db' ≡ (kill_task task_id db).1 → Step db db'
  purges :
      (older_than_days : ℕ) (task_type : Option String) (now : ℕ)
      → Distinct (ids db.tasks)
      → db' ≡ (purge_completed older_than_days task_type now db).1
      → Step db db'

pub data Reaches (db : Db) : Db → Type 0 where
  here : Reaches db db
  then_ : {mid db' : Db} → Reaches db mid → Step mid db' → Reaches db db'
