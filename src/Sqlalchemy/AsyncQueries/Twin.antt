-- ===== src/Sqlalchemy/AsyncQueries/Twin.antt =====
-- The asynchronous queries and actions next to the synchronous ones.
use dewey.Prelude.{ℕ, ◌≡◌, refl, String, Option, none, some, List}
use dewey.Core.States.{TaskStatus}
use dewey.Core.Types.{TaskEntry}
use dewey.Ledger.{Db, find}
use dewey.Ledger.Engine.{Engine}
use dewey.Ledger.Liveness.{Reader}
use dewey.Sqlalchemy.Heartbeats
use dewey.Sqlalchemy.Queries
use dewey.Sqlalchemy.AsyncQueries.{
  get_dispatchers_async, get_stats_async, get_pending_async, get_processing_async,
  get_dispatching_async, get_stuck_async, get_failed_async, get_dead_async, get_expired_async,
  get_task_async, get_recent_async, retry_found, retry_task_async, bulk_retry_async, kill_found,
  kill_task_async, purge_completed_async,
}

retry_found-twin :
    (task_id : ℕ) (o : Option TaskEntry) (db : Db)
    → retry_found task_id o db ≡ Queries.retry_found task_id o db
unfolding retry_found Queries.retry_found
retry_found-twin task_id none db = refl
retry_found-twin task_id (some t) db = refl

kill_found-twin :
    (task_id : ℕ) (o : Option TaskEntry) (db : Db)
    → kill_found task_id o db ≡ Queries.kill_found task_id o db
unfolding kill_found Queries.kill_found
kill_found-twin task_id none db = refl
kill_found-twin task_id (some t) db = refl

-- The four asynchronous actions return and leave what the synchronous ones do.
pub actions-twin :
    (task_id older_than_days now : ℕ) (task_type : Option String) (status : TaskStatus) (db : Db)
    → (retry_task_async task_id db ≡ Queries.retry_task task_id db)
      × (bulk_retry_async task_type status db ≡ Queries.bulk_retry task_type status db)
      × (kill_task_async task_id db ≡ Queries.kill_task task_id db)
      × (purge_completed_async older_than_days task_type now db
          ≡ Queries.purge_completed older_than_days task_type now db)
unfolding retry_task_async bulk_retry_async kill_task_async purge_completed_async Queries.retry_task
    Queries.bulk_retry Queries.kill_task Queries.purge_completed
actions-twin task_id older_than_days now task_type status db = (
  retry_found-twin task_id (find task_id db.tasks) db,
  refl,
  kill_found-twin task_id (find task_id db.tasks) db,
  refl,
)

-- The asynchronous queries report what the synchronous ones do.
pub queries-twin :
    (e : Engine) (r : Reader) (limit minutes now : ℕ) (task_id : ℕ)
    (task_type database : Option String) (queues : Option (List String))
    (status : Option TaskStatus) (since : Option ℕ) (db : Db)
    → (get_stats_async db ≡ Queries.get_stats db)
      × (get_pending_async e limit task_type db ≡ Queries.get_pending e limit task_type db)
      × (get_processing_async e limit db ≡ Queries.get_processing e limit db)
      × (get_dispatching_async e limit db ≡ Queries.get_dispatching e limit db)
      × (get_stuck_async e minutes now db ≡ Queries.get_stuck e minutes now db)
      × (get_failed_async e limit task_type db ≡ Queries.get_failed e limit task_type db)
      × (get_dead_async e limit task_type db ≡ Queries.get_dead e limit task_type db)
      × (get_expired_async e limit task_type db ≡ Queries.get_expired e limit task_type db)
      × (get_task_async task_id db ≡ Queries.get_task task_id db)
      × (get_recent_async e limit task_type status since db
          ≡ Queries.get_recent e limit task_type status since db)
      × (get_dispatchers_async r database queues minutes now db
          ≡ Heartbeats.get_dispatchers r database queues minutes now db)
unfolding get_stats_async get_pending_async get_processing_async get_dispatching_async
    get_stuck_async get_failed_async get_dead_async get_expired_async get_task_async
    get_recent_async get_dispatchers_async Queries.get_stats Queries.get_pending
    Queries.get_processing Queries.get_dispatching Queries.get_stuck Queries.get_failed
    Queries.get_dead Queries.get_expired Queries.get_task Queries.get_recent
    Heartbeats.get_dispatchers
queries-twin e r limit minutes now task_id task_type database queues status since db =
    (refl, refl, refl, refl, refl, refl, refl, refl, refl, refl, refl)
