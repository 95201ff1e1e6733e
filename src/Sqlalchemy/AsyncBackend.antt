-- ===== src/Sqlalchemy/AsyncBackend.antt =====
-- `AsyncSQLAlchemyDispatchBackend` of src/dewey/sqlalchemy/dispatch.py: each operation is one
-- transaction of an `AsyncSession`, and does nothing if it is cancelled before its commit.
pub mod Twin
use dewey.Prelude.{
  ℕ, Bool, true, false, ◌&&◌, not, String, Option, none, some, List, [], ◌∷◌, ◌++◌, leb, ◌==◌,
  contains, keep, is_empty, if◌then◌else◌,
}
use dewey.Core.States.{is_status, dispatching}
use dewey.Core.Types.{TaskEntry}
use dewey.Core.Heartbeat.{DispatcherHeartbeat}
use dewey.Ledger.{Db, update, rows, ids}
use dewey.Ledger.Engine.{Engine}
use dewey.Ledger.Liveness.{Instance, Reader, beat, find_beat, set_beat, stale_ids, without}
use dewey.Sqlalchemy.Dispatch.{
  Backend, overdue_query, candidates_query, expire, hand_over, claim_guard, give_back, wake_at,
  is_awaited, min_option,
}

-- The first half of the claim's transaction.
unfoldable pub expire_overdue : Engine → Backend → ℕ → ℕ → Db → Db
expire_overdue e b limit now db =
    let expired_ids = ids (e.select (overdue_query b limit now) db.tasks) in
    if is_empty expired_ids
    then db
    else record db { tasks = update (λ t. contains t.id expired_ids) (expire now) db.tasks }

-- The second half: the ids handed out, and the table with their rows marked.
unfoldable pub claim_candidates : Engine → Backend → ℕ → ℕ → Db → List ℕ × Db
claim_candidates e b limit now db =
    let task_ids = ids (e.select (candidates_query b limit now) db.tasks) in
    let claimed = ids (rows (claim_guard task_ids) db.tasks) in
    if is_empty task_ids then ([], db) else (
      keep (λ i. contains i claimed) task_ids,
      record db { tasks = update (claim_guard task_ids) (hand_over now) db.tasks },
    )

unfoldable pub claim : Engine → Backend → ℕ → ℕ → Db → List ℕ × Db
unfolding expire_overdue claim_candidates
claim e b limit now db = claim_candidates e b limit now (expire_overdue e b limit now db)

unfoldable pub release : List ℕ → Db → Db
release task_ids db = if is_empty task_ids then db else record db {
  tasks = update (λ t. contains t.id task_ids && is_status dispatching t.status) give_back db.tasks;
}

unfoldable pub earliest : Option (List String) → List TaskEntry → Option ℕ
earliest queues [] = none
earliest queues (t ∷ ts) =
    let rest = earliest queues ts in
    if is_awaited queues t then min_option (wake_at t) rest else rest

abbrev now_or_later : ℕ → Option ℕ → Option ℕ
now_or_later now none = none
now_or_later now (some due_at) = some (if leb now due_at then due_at else now)

unfoldable pub next_due : Backend → ℕ → Db → Option ℕ
unfolding earliest
next_due b now db = now_or_later now (earliest b.queues db.tasks)

refreshed :
    Instance → ℕ → Option DispatcherHeartbeat → List DispatcherHeartbeat → List DispatcherHeartbeat
unfolding set_beat
refreshed b now none hs = hs ++ beat b now ∷ []
refreshed b now (some row) hs = set_beat b.instance_id (λ h. record h { last_seen_at = now }) hs

unfoldable pub heartbeat : Reader → Instance → ℕ → Db → Db
unfolding refreshed
heartbeat r b now db =
    let hs = refreshed b now (find_beat b.instance_id db.dispatchers) db.dispatchers in
    record db { dispatchers = without (stale_ids r now hs) hs }

unfoldable pub close : Instance → Db → Db
close b db = record db {
  dispatchers = keep (λ h. not (h.instance_id == b.instance_id)) db.dispatchers;
}
