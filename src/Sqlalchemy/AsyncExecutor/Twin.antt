-- ===== src/Sqlalchemy/AsyncExecutor/Twin.antt =====
-- The asynchronous executor, where nothing is cancelled.
use dewey.Prelude.{ℕ, ◌≡◌, refl, ap, ◌∙◌, String, Bool, false, Option, none, some, Await, returned}
use dewey.Core.Types.{TaskEntry}
use dewey.Core.Errors.{Raised}
use dewey.Policy.{TaskPolicy}
use dewey.Ledger.{Db, find}
use dewey.Sqlalchemy.Executor
use dewey.Sqlalchemy.Executor.{World, Phase1, skipped, started, invoke}
use dewey.Sqlalchemy.Executor.Create
use dewey.Sqlalchemy.Executor.Create.{Request, JsonEquality}
use dewey.Sqlalchemy.AsyncExecutor.{
  never, claim_row, claim_found, phase1, finish_found, phase3_failed, phase3_completed, phase3,
  phases_2_3, process_task_async, create_task_async, create_or_get_task_async,
}

claim_found-twin :
    (now task_id : ℕ) (o : Option TaskEntry) (db : Db)
    → claim_found now task_id o db ≡ Executor.claim_found now task_id o db
unfolding claim_found claim_row Executor.claim_found Executor.claim_row
claim_found-twin now task_id none db = refl
claim_found-twin now task_id (some t) db = refl

pub phase1-twin :
    (now task_id : ℕ) (db : Db) → phase1 now task_id db ≡ Executor.phase1 now task_id db
unfolding phase1 Executor.phase1
phase1-twin now task_id db = claim_found-twin now task_id (find task_id db.tasks) db

finish-twin :
    (task_id : ℕ) (set : TaskEntry → TaskEntry) (o : Option TaskEntry) (db : Db)
    → finish_found task_id set o db ≡ Executor.finish_found task_id set o db
unfolding finish_found Executor.finish_found
finish-twin task_id set none db = refl
finish-twin task_id set (some t) db = refl

module _ (w : World) (explicit : Option ℕ) (backoff : Option (ℕ → ℕ))
    (resolve : String → TaskPolicy) (task_id : ℕ) where
  phase3-twin :
      (cached : TaskEntry) (o : Option Raised) (db : Db)
      → phase3 w explicit backoff resolve task_id cached o db
        ≡ Executor.phase3 w explicit backoff resolve task_id cached o db
  unfolding phase3 phase3_failed phase3_completed Executor.phase3 Executor.phase3_failed
      Executor.phase3_completed Executor.finish
  phase3-twin cached none db = finish-twin task_id _ (find task_id db.tasks) db
  phase3-twin cached (some exc) db =
      ap (λ (r : Bool × Db). (false, r.1)) (finish-twin task_id _ (find task_id db.tasks) db)

  abbrev pub returning : Bool × Db → Await Bool × Db
  returning r = let (done, db) = r in (returned done, db)

  phases_2_3-twin :
      (claimed : Phase1) (db : Db)
      → phases_2_3 w explicit backoff resolve task_id never claimed db
        ≡ returning (Executor.phases_2_3 w explicit backoff resolve task_id claimed db)
  unfolding phases_2_3 Executor.phases_2_3
  phases_2_3-twin skipped db = refl
  phases_2_3-twin (started cached) db =
      ap returning
        (phase3-twin cached (invoke w explicit (resolve cached.task_type) cached) (w.meanwhile db))

  -- A run of `process_task_async` that is not cancelled returns and leaves what `process_task` does.
  pub process_task_async-twin :
      (now : ℕ) (db : Db)
      → process_task_async w explicit backoff resolve task_id never now db
        ≡ returning (Executor.process_task w explicit backoff resolve now task_id db)
  unfolding process_task_async Executor.process_task
  process_task_async-twin now db =
      ap (λ (r : Phase1 × Db). phases_2_3 w explicit backoff resolve task_id never r.0 r.1)
        (phase1-twin now task_id db)
      ∙ phases_2_3-twin (Executor.phase1 now task_id db).0 (Executor.phase1 now task_id db).1

-- Both calls that create a task do what the synchronous ones do.
pub create_or_get_task_async-twin :
    (eq : JsonEquality) (resolve : String → TaskPolicy) (id now : ℕ) (r : Request) (db : Db)
    → (create_task_async resolve id now r db ≡ Create.create_task resolve id now r db)
      × (create_or_get_task_async eq resolve id now r db
          ≡ Create.create_or_get_task eq resolve id now r db)
unfolding create_or_get_task_async create_task_async Create.create_or_get_task Create.create_task
create_or_get_task_async-twin eq resolve id now r db = (refl, refl)
