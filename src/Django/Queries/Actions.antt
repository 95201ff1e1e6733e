-- ===== src/Django/Queries/Actions.antt =====
-- The actions of a dashboard over the two ORMs.
use dewey.Prelude.{
  ℕ, ◌≡◌, refl, ap, String, inl, inr, Option, some, List, [], ◌∷◌, Distinct, Bool-cases,
  Option-cases, Result, ok, err,
}
use dewey.Core.States.{TaskStatus, is_status, can_transition_to, pending, dead, expired}
use dewey.Core.Types.{TaskEntry}
use dewey.Ledger.{Db, find, ids}
use dewey.Sqlalchemy.Queries
use dewey.Sqlalchemy.Queries.{reset, RetryError, no_transition, retry_where, kill}
use dewey.Sqlalchemy.Queries.Actions.{
  tasks-notify_work_available, retry_task_cases, retry_task_missing, kill_task_cases,
  kill_task_missing,
}
use dewey.Sqlalchemy.Sweep.Steps.{tasks-notify_all}
use dewey.Django.Executor.{status_, write}
use dewey.Django.Executor.Processing.{save-eq}
use dewey.Django.Queries.{retry_task, bulk_retry, kill_task, reset_fields}

-- What an action returns, and the rows that it leaves.
abbrev pub seen {ℓ} : {A : Type ℓ} → A × Db → A × List TaskEntry
seen r = (r.0, r.1.tasks)

-- A retry over Django returns what the one over SQLAlchemy does and leaves the same rows, if the ids
-- of the table are distinct, but it announces nothing.
pub retry_task-eq :
    (task_id : ℕ) (db : Db)
    → Distinct (ids db.tasks)
    → (seen (retry_task task_id db) ≡ seen (Queries.retry_task task_id db))
      × ((retry_task task_id db).1.wakeups ≡ db.wakeups)
unfolding retry_task write
retry_task-eq task_id db d = elim (Option-cases (find task_id db.tasks)) [
  | inl nowhere ↦ rw (retry_task_missing task_id db nowhere, nowhere) (refl, refl)
  | inr (t, h) ↦
      rw (retry_task_cases task_id db t h, h)
        (elim (Bool-cases (is_status expired t.status)) [
          | inl e ↦ rw e (refl, refl)
          | inr e ↦ rw e (elim (Bool-cases (can_transition_to t.status pending)) [
            | inl c ↦
                rw (c, tasks-notify_work_available)
                  (
                    ap (λ (r : Db). (some (reset t), r.tasks))
                        (save-eq reset_fields reset task_id db t d h refl refl),
                    refl,
                  )
            | inr c ↦ rw c (refl, refl)
          ])
        ])
]

abbrev pub seen_result : Result RetryError (ℕ × Db) → Result RetryError (ℕ × List TaskEntry)
seen_result (ok r) = ok (seen r)
seen_result (err e) = err e

-- A bulk retry over Django refuses the statuses that the one over SQLAlchemy does, and otherwise
-- reports the same number and leaves the same rows.
pub bulk_retry-eq :
    (task_type : Option String) (status : TaskStatus) (db : Db)
    → seen_result (bulk_retry task_type status db)
      ≡ seen_result (Queries.bulk_retry task_type status db)
unfolding bulk_retry Queries.bulk_retry
bulk_retry-eq task_type status db = elim (Bool-cases (can_transition_to status pending)) [
  | inl c ↦ rw (c, tasks-notify_all) refl
  | inr c ↦ rw c refl
]

pub kill_task-eq :
    (task_id : ℕ) (db : Db)
    → Distinct (ids db.tasks)
    → kill_task task_id db ≡ Queries.kill_task task_id db
unfolding kill_task write
kill_task-eq task_id db d = elim (Option-cases (find task_id db.tasks)) [
  | inl nowhere ↦ rw (kill_task_missing task_id db nowhere, nowhere) refl
  | inr (t, h) ↦
      rw (kill_task_cases task_id db t h, h)
        (elim (Bool-cases (can_transition_to t.status dead)) [
          | inl c ↦ rw c (
              ap (λ r. (some (kill t), r)) (save-eq (status_ ∷ []) kill task_id db t d h refl refl))
          | inr c ↦ rw c refl
        ])
]
