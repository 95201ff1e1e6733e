-- ===== src/Django/Dispatch.antt =====
-- `DjangoDispatchBackend` of src/dewey/django/dispatch.py: claim, release and the next wake-up time.
-- Both claim queries always skip locked rows, and a claim returns the ids that its query chose.
pub mod Laws
use dewey.Prelude.{
  ℕ, String, Bool, true, false, ◌&&◌, ◌||◌, not, Option, none, some, List, [], ◌∷◌, contains,
  is_empty, is_some, some_le, leb, ltb, if◌then◌else◌,
}
use dewey.Core.States.{is_status, in_statuses, pending, dispatching, failed}
use dewey.Core.Types.{TaskEntry}
use dewey.Ledger.{Db, update, ids, rows}
use dewey.Ledger.Engine.{Query, Engine}
use dewey.Sqlalchemy.Dispatch.{
  in_scope, is_overdue, is_in_time, is_claimable, claim_before, waiting, expire, hand_over,
  claim_guard, give_back, wake_at, min_option,
}
use dewey.Sqlalchemy.Sweep.{SweepResult, SweepTimes}

-- The attributes that `__init__` sets and the ledger operations read.
pub record DjangoBackend : Type 0 where
  pub queues : Option (List String)
  pub stuck_threshold : ℕ
  pub dispatch_timeout : ℕ
  pub sweep_limit : ℕ

abbrev overdue_rows : DjangoBackend → ℕ → ℕ → Query
overdue_rows b limit now = record {
  matches = λ t. in_statuses t.status waiting && (is_overdue now t && in_scope b.queues t);
  before = λ _ _. true;
  limit = limit;
  skip_locked = true;
}

abbrev pub claimable_rows : DjangoBackend → ℕ → ℕ → Query
claimable_rows b limit now = record {
  matches = λ t. is_claimable now t && (is_in_time now t && in_scope b.queues t);
  before = claim_before;
  limit = limit;
  skip_locked = true;
}

unfoldable pub expire_overdue : Engine → DjangoBackend → ℕ → ℕ → Db → Db
expire_overdue e b limit now db =
    let expired_ids = ids (e.select (overdue_rows b limit now) db.tasks) in
    if is_empty expired_ids
    then db
    else record db { tasks = update (λ t. contains t.id expired_ids) (expire now) db.tasks }

unfoldable pub claim_candidates : Engine → DjangoBackend → ℕ → ℕ → Db → List ℕ × Db
claim_candidates e b limit now db =
    let task_ids = ids (e.select (claimable_rows b limit now) db.tasks) in
    if is_empty task_ids
    then ([], db)
    else (task_ids, record db { tasks = update (claim_guard task_ids) (hand_over now) db.tasks })

unfoldable pub claim : Engine → DjangoBackend → ℕ → ℕ → Db → List ℕ × Db
unfolding expire_overdue claim_candidates
claim e b limit now db = claim_candidates e b limit now (expire_overdue e b limit now db)

-- The filters of `next_due`, in the order in which they are chained.
abbrev is_scheduled : Option (List String) → TaskEntry → Bool
is_scheduled queues t =
    ((is_status pending t.status || is_status failed t.status && ltb t.attempts t.max_attempts)
      && is_some t.scheduled_for)
    && in_scope queues t

-- `aggregate(Min(wake_at))`
earliest_wake : Option (List String) → List TaskEntry → Option ℕ
earliest_wake queues [] = none
earliest_wake queues (t ∷ ts) =
    let rest = earliest_wake queues ts in
    if is_scheduled queues t then min_option (wake_at t) rest else rest

abbrev due_or_now : ℕ → Option ℕ → Option ℕ
due_or_now now none = none
due_or_now now (some due_at) = some (if leb now due_at then due_at else now)

unfoldable pub next_due : DjangoBackend → ℕ → Db → Option ℕ
unfolding earliest_wake
next_due b now db = due_or_now now (earliest_wake b.queues db.tasks)

unfoldable pub release : List ℕ → Db → Db
release task_ids db = if is_empty task_ids then db else record db {
  tasks = update (λ t. contains t.id task_ids && is_status dispatching t.status) give_back db.tasks;
}
