-- ===== src/Sqlalchemy/AsyncBackend/Twin.antt =====
-- The asynchronous backend next to the synchronous one.
use dewey.Prelude.{ℕ, ◌≡◌, refl, Option, none, some, List, [], ◌∷◌, String, arith}
use dewey.Core.Types.{TaskEntry}
use dewey.Core.Heartbeat.{DispatcherHeartbeat}
use dewey.Ledger.{Db}
use dewey.Ledger.Engine.{Engine}
use dewey.Ledger.Liveness.{Instance, Reader, find_beat}
use dewey.Sqlalchemy.Dispatch
use dewey.Sqlalchemy.Dispatch.{Backend}
use dewey.Sqlalchemy.Heartbeats
use dewey.Sqlalchemy.AsyncBackend.{
  expire_overdue, claim_candidates, claim, release, earliest, next_due, refreshed, heartbeat, close,
}

earliest-twin :
    (queues : Option (List String)) (ts : List TaskEntry)
    → earliest queues ts ≡ Dispatch.earliest queues ts
unfolding earliest Dispatch.earliest
earliest-twin queues [] = refl
earliest-twin queues (t ∷ ts) = ground (arith, earliest-twin queues ts)

refreshed-twin :
    (b : Instance) (now : ℕ) (o : Option DispatcherHeartbeat) (hs : List DispatcherHeartbeat)
    → refreshed b now o hs ≡ Heartbeats.upsert b now o hs
unfolding refreshed Heartbeats.upsert
refreshed-twin b now none hs = refl
refreshed-twin b now (some row) hs = refl

-- Each operation of the asynchronous backend does what that of the synchronous backend does: it
-- claims, returns and wakes for the same rows, and writes the same heartbeats.
pub backend-twin :
    (e : Engine) (b : Backend) (r : Reader) (i : Instance) (limit now : ℕ) (task_ids : List ℕ)
    (db : Db)
    → (claim e b limit now db ≡ Dispatch.claim e b limit now db)
      × (release task_ids db ≡ Dispatch.release task_ids db)
      × (next_due b now db ≡ Dispatch.next_due b now db)
      × (heartbeat r i now db ≡ Heartbeats.heartbeat r i now db)
      × (close i db ≡ Heartbeats.close i db)
unfolding claim claim_candidates expire_overdue release next_due heartbeat close Dispatch.claim
    Dispatch.claim_candidates Dispatch.expire_overdue Dispatch.release Dispatch.next_due
    Heartbeats.heartbeat Heartbeats.close
backend-twin e b r i limit now task_ids db = (
  refl,
  refl,
  rw (earliest-twin b.queues db.tasks) refl,
  rw (refreshed-twin i now (find_beat i.instance_id db.dispatchers) db.dispatchers) refl,
  refl,
)
