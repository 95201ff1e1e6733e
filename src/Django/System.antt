-- ===== src/Django/System.antt =====
-- All transactions on the ledger of src/dewey/django, as one relation between the tables before and
-- after. The two packages write the same table, so a turn is a transaction of either.
pub mod Simulation
pub mod Reached
pub mod Budget
use dewey.Prelude.{ℕ, ◌≤◌, ◌≡◌, String, Option, List, Result, ok}
use dewey.Core.States.{TaskStatus}
use dewey.Core.Types.{TaskEntry}
use dewey.Core.Errors.{Raised}
use dewey.Policy.{TaskPolicy}
use dewey.Ledger.{Db}
use dewey.Ledger.Engine.{Engine, IsSql}
use dewey.Sqlalchemy.Executor.Create.{Request, JsonEquality}
use dewey.Sqlalchemy.System
use dewey.Django.Dispatch.{DjangoBackend, claim, release}
use dewey.Django.Sweep.{sweep_failed, sweep_expired, sweep_stuck, sweep_dispatching}
use dewey.Django.Executor.{phase1, phase3_failed, phase3_completed, create_task, create_or_get_task}
use dewey.Django.Queries.{retry_task, bulk_retry, kill_task, purge_completed}

-- A producer asks for at least one attempt.
pub data Step (db db' : Db) : Type 0 where
  create :
      (resolve : String → TaskPolicy) (id now : ℕ) (r : Request) (t : TaskEntry)
      → create_task resolve id now r db ≡ ok (t, db')
      → 1 ≤ t.max_attempts
      → Step db db'
  create_or_get :
      (eq : JsonEquality) (resolve : String → TaskPolicy) (id now : ℕ) (r : Request) (t : TaskEntry)
      → create_or_get_task eq resolve id now r db ≡ ok (t, db')
      → 1 ≤ t.max_attempts
      → Step db db'
  claims :
      (e : Engine) (b : DjangoBackend) (limit now : ℕ)
      → IsSql e
      → db' ≡ (claim e b limit now db).1
      → Step db db'
  releases : (task_ids : List ℕ) → db' ≡ release task_ids db → Step db db'
  starts : (now task_id : ℕ) → db' ≡ (phase1 now task_id db).1 → Step db db'
  fails :
      (draw : ℕ → ℕ) (now task_id : ℕ) (cached : TaskEntry) (policy : TaskPolicy)
      (backoff : Option (ℕ → ℕ)) (exc : Raised)
      → db' ≡ (phase3_failed draw now task_id cached policy backoff exc db).1
      → Step db db'
  completes : (now task_id : ℕ) → db' ≡ (phase3_completed now task_id db).1 → Step db db'
  sweeps_failed :
      (e : Engine) (limit now : ℕ) → IsSql e → db' ≡ (sweep_failed e limit now db).1 → Step db db'
  sweeps_expired :
      (e : Engine) (limit now : ℕ) → IsSql e → db' ≡ (sweep_expired e limit now db).1 → Step db db'
  sweeps_stuck :
      (e : Engine) (threshold limit now : ℕ)
      → IsSql e
      → db' ≡ (sweep_stuck e threshold limit now db).1
      → Step db db'
  sweeps_dispatching :
      (e : Engine) (timeout limit now : ℕ)
      → IsSql e
      → db' ≡ (sweep_dispatching e timeout limit now db).1
      → Step db db'
  retries : (task_id : ℕ) → db' ≡ (retry_task task_id db).1 → Step db db'
  bulk_retries :
      (task_type : Option String) (status : TaskStatus) (n : ℕ)
      → bulk_retry task_type status db ≡ ok (n, db')
      → Step db db'
  kills : (task_id : ℕ) → db' ≡ (kill_task task_id db).1 → Step db db'
  purges :
      (older_than_days : ℕ) (task_type : Option String) (now : ℕ)
      → db' ≡ (purge_completed older_than_days task_type now db).1
      → Step db db'

pub data Turn (db db' : Db) : Type 0 where
  of_sqlalchemy : System.Step db db' → Turn db db'
  of_django : Step db db' → Turn db db'

pub data Runs (db : Db) : Db → Type 0 where
  idle : Runs db db
  then_ : {mid db' : Db} → Runs db mid → Turn mid db' → Runs db db'
