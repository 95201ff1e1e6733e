-- ===== src/Sqlalchemy/Dispatch.antt =====
-- `SQLAlchemyDispatchBackend` of src/dewey/sqlalchemy/dispatch.py: the claim query, the release and
-- the next wake-up time. `now` is what `datetime.now(UTC)` returns in the call.
pub mod Claim
pub mod Claimed
pub mod Order
pub mod Release
pub mod Wake
use dewey.Prelude.{
  ℕ, ◌+◌, ◌*◌, Bool, true, false, ◌&&◌, ◌||◌, not, String, Option, none, some, List, [], ◌∷◌, leb,
  ltb, ◌==◌, lebz, eqz, contains, keep, is_empty, is_some, some_le, some_gt, get_or, min,
  if◌then◌else◌,
}
use dewey.Core.States.{TaskStatus, is_status, in_statuses, pending, dispatching, failed, expired}
use dewey.Core.Types.{TaskEntry}
use dewey.Core.Heartbeat.{in_queues}
use dewey.Ledger.{Db, update, rows, ids}
use dewey.Ledger.Engine.{Query, Engine}

-- The attributes that `__init__` sets and the ledger operations read; durations in microseconds.
pub record Backend : Type 0 where
  pub queues : Option (List String)
  pub stuck_threshold : ℕ
  pub dispatch_timeout : ℕ
  pub sweep_limit : ℕ
  pub supports_skip_locked : Bool

-- `if self.queues is not None: ….where(queue.in_(self.queues))`
abbrev pub in_scope : Option (List String) → TaskEntry → Bool
in_scope none t = true
in_scope (some queues) t = in_queues t.queue queues

-- `expires_at IS NOT NULL AND expires_at <= now`
abbrev pub is_overdue : ℕ → TaskEntry → Bool
is_overdue now t = is_some t.expires_at && some_le t.expires_at now

-- `expires_at IS NULL OR expires_at > now`
abbrev pub is_in_time : ℕ → TaskEntry → Bool
is_in_time now t = not (is_some t.expires_at) || some_gt t.expires_at now

abbrev pub is_claimable : ℕ → TaskEntry → Bool
is_claimable now t =
    is_status pending t.status && (not (is_some t.scheduled_for) || some_le t.scheduled_for now)
    || is_status failed t.status && (some_le t.scheduled_for now && ltb t.attempts t.max_attempts)

-- `coalesce(scheduled_for, created_at)`
abbrev pub effective_due : TaskEntry → ℕ
effective_due t = get_or t.scheduled_for t.created_at

-- `ORDER BY priority DESC, effective_due ASC, created_at ASC`
abbrev pub claim_before : TaskEntry → TaskEntry → Bool
claim_before a b =
    if eqz a.priority b.priority
    then (if effective_due a == effective_due b
        then leb a.created_at b.created_at
        else leb (effective_due a) (effective_due b))
    else lebz b.priority a.priority

abbrev pub waiting : List TaskStatus
waiting = pending ∷ failed ∷ []

abbrev pub overdue_query : Backend → ℕ → ℕ → Query
overdue_query b limit now = record {
  matches = λ t. in_statuses t.status waiting && (is_overdue now t && in_scope b.queues t);
  before = λ _ _. true;
  limit = limit;
  skip_locked = b.supports_skip_locked;
}

abbrev pub candidates_query : Backend → ℕ → ℕ → Query
candidates_query b limit now = record {
  matches = λ t. is_claimable now t && (is_in_time now t && in_scope b.queues t);
  before = claim_before;
  limit = limit;
  skip_locked = b.supports_skip_locked;
}

-- `.values(status=EXPIRED, expired_at=now, dispatching_at=None)`
abbrev pub expire : ℕ → TaskEntry → TaskEntry
expire now t = record t { status = expired; dispatching_at = none; expired_at = some now }

-- `.values(status=DISPATCHING, dispatching_at=now)`
abbrev pub hand_over : ℕ → TaskEntry → TaskEntry
hand_over now t = record t { status = dispatching; dispatching_at = some now }

-- The first half of the claim's transaction.
unfoldable pub expire_overdue : Engine → Backend → ℕ → ℕ → Db → Db
expire_overdue e b limit now db =
    let expired_ids = ids (e.select (overdue_query b limit now) db.tasks) in
    if is_empty expired_ids
    then db
    else record db { tasks = update (λ t. contains t.id expired_ids) (expire now) db.tasks }

abbrev pub claim_guard : List ℕ → TaskEntry → Bool
claim_guard task_ids t = contains t.id task_ids && in_statuses t.status waiting

-- The second half: the ids handed out, and the table with their rows marked.
unfoldable pub claim_candidates : Engine → Backend → ℕ → ℕ → Db → List ℕ × Db
claim_candidates e b limit now db =
    let task_ids = ids (e.select (candidates_query b limit now) db.tasks) in
    let claimed = ids (rows (claim_guard task_ids) db.tasks) in
    if is_empty task_ids then ([], db) else (
      keep (λ i. contains i claimed) task_ids,
      record db { tasks = update (claim_guard task_ids) (hand_over now) db.tasks },
    )

unfoldable pub claim : Engine → Backend → ℕ → ℕ → Db → List ℕ × Db
unfolding expire_overdue claim_candidates
claim e b limit now db = claim_candidates e b limit now (expire_overdue e b limit now db)

-- The row that `release` returns to the backlog.
abbrev pub give_back : TaskEntry → TaskEntry
give_back t = record t { status = pending; dispatching_at = none }

unfoldable pub release : List ℕ → Db → Db
release task_ids db = if is_empty task_ids then db else record db {
  tasks = update (λ t. contains t.id task_ids && is_status dispatching t.status) give_back db.tasks;
}

-- The `CASE` of `next_due`: the deadline if it comes before the schedule.
abbrev pub wake_at : TaskEntry → Option ℕ
wake_at t = elim t.scheduled_for [
  | none ↦ none
  | some at ↦ elim t.expires_at [
    | none ↦ some at
    | some deadline ↦ if ltb deadline at then some deadline else some at
  ]
]

abbrev pub is_awaited : Option (List String) → TaskEntry → Bool
is_awaited queues t =
    is_some t.scheduled_for
    && ((is_status pending t.status || is_status failed t.status && ltb t.attempts t.max_attempts)
        && in_scope queues t)

-- SQL's `MIN` over a column: NULLs do not count, and the minimum of no row is NULL.
abbrev pub min_option : Option ℕ → Option ℕ → Option ℕ
min_option none b = b
min_option (some a) none = some a
min_option (some a) (some b) = some (min a b)

unfoldable pub earliest : Option (List String) → List TaskEntry → Option ℕ
earliest queues [] = none
earliest queues (t ∷ ts) =
    let rest = earliest queues ts in
    if is_awaited queues t then min_option (wake_at t) rest else rest

abbrev not_before : ℕ → Option ℕ → Option ℕ
not_before now none = none
not_before now (some due_at) = some (if leb now due_at then due_at else now)

unfoldable pub next_due : Backend → ℕ → Db → Option ℕ
unfolding earliest
next_due b now db = not_before now (earliest b.queues db.tasks)
