-- ===== src/Sqlalchemy/System/Keys.antt =====
-- The primary key along a run: no transaction makes two rows of one id.
use dewey.Prelude.{
  ℕ, ◌≡◌, refl, ap, ◌∙◌, inl, inr, String, false, none, List, [], ◌∷◌, ◌++◌, Distinct, contains,
  arith, Bool-cases, Option-cases, is_empty, ok, ◌==◌,
}
use dewey.Core.States.{TaskStatus, is_status, processing, dispatching, failed}
use dewey.Core.Types.{TaskEntry}
use dewey.Core.Execution.{classify_failure}
use dewey.Policy.{TaskPolicy}
use dewey.Ledger.{Db, find, ids}
use dewey.Ledger.Laws.{KeepsId}
use dewey.Ledger.Keyed.{ids-update}
use dewey.Ledger.Engine.{Engine}
use dewey.Sqlalchemy.Dispatch.{
  Backend, expire_overdue, overdue_query, candidates_query, claim_candidates, claim, hand_over,
  give_back, release, expire,
}
use dewey.Sqlalchemy.Executor.{
  save, start, phase1, finish, phase3_failed, phase3_completed, complete, fail_with,
}
use dewey.Sqlalchemy.Executor.Phases.{phase1_cases, phase1_missing}
use dewey.Sqlalchemy.Executor.Create.{Request, create_task}
use dewey.Sqlalchemy.Sweep.{
  sweep_failed, sweep_expired, sweep_stuck, sweep_dispatching, recover, expired_query, set_pending,
  set_dead, clear_pending, clear_dead,
}
use dewey.Sqlalchemy.Sweep.Steps.{tasks-notify_all}
use dewey.Sqlalchemy.Queries.{
  retry_task, kill_task, purge_completed, reset, kill, retry_where, purge_where,
}
use dewey.Sqlalchemy.Queries.Actions.{
  tasks-notify_work_available, retry_task_cases, retry_task_missing, kill_task_cases,
  kill_task_missing, bulk_retry-Evolves,
}
use dewey.Sqlalchemy.Queries.Purge.{Distinct-delete}
use dewey.Sqlalchemy.System.{Step}
use dewey.Sqlalchemy.System.Created.{create_task-eq-ok, create_or_get_task-eq-ok}

contains-append :
    (i j : ℕ) (ks : List ℕ)
    → contains i ks ≡ false
    → (i == j) ≡ false
    → contains i (ks ++ j ∷ []) ≡ false
contains-append i j [] h n = ground (arith, n)
contains-append i j (k ∷ ks) h n = ground (arith, n, contains-append i j ks)

absent-find : (i : ℕ) (ts : List TaskEntry) → find i ts ≡ none → contains i (ids ts) ≡ false
unfolding find
absent-find i [] h = refl
absent-find i (t ∷ ts) h = ground (arith, h, absent-find i ts)

ids-append : (ts : List TaskEntry) (t : TaskEntry) → ids (ts ++ t ∷ []) ≡ ids ts ++ t.id ∷ []
ids-append [] t = refl
ids-append (u ∷ ts) t = ap (λ ks. u.id ∷ ks) (ids-append ts t)

Distinct-append :
    (i : ℕ) (ks : List ℕ) → Distinct ks → contains i ks ≡ false → Distinct (ks ++ i ∷ [])
Distinct-append i [] d h = (refl, tt)
Distinct-append i (k ∷ ks) d h =
    (contains-append k i ks d.0 (ground (arith, h)), Distinct-append i ks d.1 (ground (arith, h)))

pub created-Distinct :
    (ts : List TaskEntry) (t : TaskEntry)
    → Distinct (ids ts)
    → find t.id ts ≡ none
    → Distinct (ids (ts ++ t ∷ []))
created-Distinct ts t d free =
    rw (ids-append ts t) (Distinct-append t.id (ids ts) d (absent-find t.id ts free))

module _ (db : Db) where
  abbrev Kept : Db → Type 0
  Kept db' = ids db'.tasks ≡ ids db.tasks

  ids-save : (task_id : ℕ) (f : TaskEntry → TaskEntry) → KeepsId f → Kept (save task_id f db)
  ids-save task_id f keeps = ids-update _ f db.tasks keeps

  ids-release : (task_ids : List ℕ) → Kept (release task_ids db)
  unfolding release
  ids-release task_ids = elim (Bool-cases (is_empty task_ids)) [
    | inl nothing ↦ rw nothing refl
    | inr something ↦ rw something (ids-update _ give_back db.tasks (λ t. refl))
  ]

  ids-phase1 : (now task_id : ℕ) → Kept (phase1 now task_id db).1
  ids-phase1 now task_id = elim (Option-cases (find task_id db.tasks)) [
    | inl nowhere ↦ rw (phase1_missing now task_id db nowhere) refl
    | inr (t, h) ↦ rw (phase1_cases now task_id db t h) (
        ground (
          arith,
          ids-save task_id (expire now) (λ t. refl),
          ids-save task_id (start now) (λ t. refl),
        ))
  ]

  ids-finish : (task_id : ℕ) (f : TaskEntry → TaskEntry) → KeepsId f → Kept (finish task_id f db).1
  unfolding finish
  ids-finish task_id f keeps = elim (Option-cases (find task_id db.tasks)) [
    | inl nowhere ↦ rw nowhere refl
    | inr (t, h) ↦ rw h (elim (Bool-cases (is_status processing t.status)) [
      | inl p ↦ rw p (ids-save task_id f keeps)
      | inr n ↦ rw n refl
    ])
  ]

  ids-retry_task : (task_id : ℕ) → Kept (retry_task task_id db).1
  ids-retry_task task_id = elim (Option-cases (find task_id db.tasks)) [
    | inl nowhere ↦ rw (retry_task_missing task_id db nowhere) refl
    | inr (t, h) ↦ rw (retry_task_cases task_id db t h) (
        ground (
          arith,
          ap ids (tasks-notify_work_available t.id t.queue (save task_id reset db))
              ∙ ids-save task_id reset (λ t. refl),
        ))
  ]

  ids-kill_task : (task_id : ℕ) → Kept (kill_task task_id db).1
  ids-kill_task task_id = elim (Option-cases (find task_id db.tasks)) [
    | inl nowhere ↦ rw (kill_task_missing task_id db nowhere) refl
    | inr (t, h) ↦
        rw (kill_task_cases task_id db t h) (ground (arith, ids-save task_id kill (λ t. refl)))
  ]

  pub ids-recover :
      (s : TaskStatus) (back bury : TaskEntry → TaskEntry) (task_ids : List ℕ)
      → KeepsId back
      → KeepsId bury
      → Kept (recover s back bury task_ids db).1
  unfolding recover
  ids-recover s back bury task_ids keeps keeps' = elim (Bool-cases (is_empty task_ids)) [
    | inl nothing ↦ rw nothing refl
    | inr something ↦
        rw (something, tasks-notify_all)
          (ids-update _ bury _ keeps' ∙ ids-update _ back db.tasks keeps)
  ]

  module _ (e : Engine) (limit now : ℕ) where
    ids-sweep_expired : Kept (sweep_expired e limit now db).1
    unfolding sweep_expired
    ids-sweep_expired =
        elim (Bool-cases (is_empty (ids (e.select (expired_query limit now) db.tasks)))) [
          | inl nothing ↦ rw nothing refl
          | inr something ↦ rw something (ids-update _ (expire now) db.tasks (λ t. refl))
        ]

    ids-expire_overdue : (b : Backend) → Kept (expire_overdue e b limit now db)
    unfolding expire_overdue
    ids-expire_overdue b =
        elim (Bool-cases (is_empty (ids (e.select (overdue_query b limit now) db.tasks)))) [
          | inl nothing ↦ rw nothing refl
          | inr something ↦ rw something (ids-update _ (expire now) db.tasks (λ t. refl))
        ]

    ids-claim_candidates : (b : Backend) → Kept (claim_candidates e b limit now db).1
    unfolding claim_candidates
    ids-claim_candidates b =
        elim (Bool-cases (is_empty (ids (e.select (candidates_query b limit now) db.tasks)))) [
          | inl nothing ↦ rw nothing refl
          | inr something ↦ rw something (ids-update _ (hand_over now) db.tasks (λ t. refl))
        ]

ids-claim :
    (e : Engine) (b : Backend) (limit now : ℕ) (db : Db)
    → ids (claim e b limit now db).1.tasks ≡ ids db.tasks
unfolding claim
ids-claim e b limit now db =
    ids-claim_candidates (expire_overdue e b limit now db) e limit now b
    ∙ ids-expire_overdue db e limit now b

created_keys :
    (db db' : Db) (resolve : String → TaskPolicy) (id now : ℕ) (r : Request) (t : TaskEntry)
    → create_task resolve id now r db ≡ ok (t, db')
    → Distinct (ids db.tasks)
    → Distinct (ids db'.tasks)
created_keys db db' resolve id now r t h d =
    let (s, x, a, k, made, free, rows_) = create_task-eq-ok resolve id now r db db' t h in
    let own : t.id ≡ id = ap (λ (u : TaskEntry). u.id) made in
    rw rows_ (created-Distinct db.tasks t d (rw own free))

-- No transaction makes two rows of one id: the rows keep their ids, a new one is free, and a purge
-- only removes some.
pub Step-Distinct : (db db' : Db) → Step db db' → Distinct (ids db.tasks) → Distinct (ids db'.tasks)
unfolding phase3_failed phase3_completed purge_completed sweep_failed sweep_stuck sweep_dispatching
Step-Distinct db db' (Step.create resolve id now r t h m) d =
    created_keys db db' resolve id now r t h d
Step-Distinct db db' (Step.create_or_get eq resolve id now r t h m) d =
    elim (create_or_get_task-eq-ok eq resolve id now r db db' t h) [
      | inl h' ↦ created_keys db db' resolve id now r t h' d
      | inr e ↦ rw e d
    ]
Step-Distinct db db' (Step.claims e b limit now sql h) d = rw (h, ids-claim e b limit now db) d
Step-Distinct db db' (Step.releases task_ids h) d = rw (h, ids-release db task_ids) d
Step-Distinct db db' (Step.starts now task_id h) d = rw (h, ids-phase1 db now task_id) d
Step-Distinct db db' (Step.fails draw now task_id cached policy backoff exc h) d =
    let o = classify_failure draw exc policy cached.attempts cached.max_attempts now backoff in
    rw (h, ids-finish db task_id (fail_with o exc.message) (λ t. ground arith)) d
Step-Distinct db db' (Step.completes now task_id h) d =
    rw (h, ids-finish db task_id (complete now) (λ t. refl)) d
Step-Distinct db db' (Step.sweeps_failed e limit now sql h) d =
    rw (h, ids-recover db failed set_pending set_dead _ (λ t. refl) (λ t. refl)) d
Step-Distinct db db' (Step.sweeps_expired e limit now sql h) d =
    rw (h, ids-sweep_expired db e limit now) d
Step-Distinct db db' (Step.sweeps_stuck e threshold limit now sql h) d =
    rw (h, ids-recover db processing set_pending set_dead _ (λ t. refl) (λ t. refl)) d
Step-Distinct db db' (Step.sweeps_dispatching e timeout limit now sql h) d =
    rw (h, ids-recover db dispatching clear_pending clear_dead _ (λ t. refl) (λ t. refl)) d
Step-Distinct db db' (Step.retries task_id h) d = rw (h, ids-retry_task db task_id) d
Step-Distinct db db' (Step.bulk_retries task_type status n h) d =
    let (_, _, rows_) = bulk_retry-Evolves task_type status db db' n h in
    rw (rows_, ids-update (retry_where task_type status) reset db.tasks (λ t. refl)) d
Step-Distinct db db' (Step.kills task_id h) d = rw (h, ids-kill_task db task_id) d
Step-Distinct db db' (Step.purges older_than_days task_type now d' h) d =
    rw h (Distinct-delete (purge_where older_than_days task_type now) db.tasks d)
