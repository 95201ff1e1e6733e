-- ===== src/Sqlalchemy/Queries/Actions.antt =====
-- What the actions of a dashboard do to the row, on every branch.
use dewey.Prelude.{
  ℕ, ◌≡◌, refl, sym, ap, ◌∙◌, String, Bool, true, not, inl, inr, Option, none, some, Bool-cases,
  Option-cases, arith, ok, if◌then◌else◌,
}
use dewey.Core.States.{TaskStatus, is_status, can_transition_to, pending, dead, expired}
use dewey.Core.Types.{TaskEntry}
use dewey.Ledger.{Db, find, count, rows, update, notify_work_available, notify_all}
use dewey.Ledger.Evolution.{Evolves, Evolves-refl}
use dewey.Sqlalchemy.Executor.{save}
use dewey.Sqlalchemy.Executor.Phases.{find-save}
use dewey.Sqlalchemy.Executor.Steps.{save-Evolves}
use dewey.Sqlalchemy.Dispatch.Claim.{Sets}
use dewey.Sqlalchemy.Sweep.Steps.{tasks-notify_all}
use dewey.Sqlalchemy.Queries.{reset, retry_task, retry_where, bulk_retry, kill, kill_task}

pub tasks-notify_work_available :
    (i : ℕ) (q : String) (db : Db) → (notify_work_available i q db).tasks ≡ db.tasks
unfolding notify_work_available
tasks-notify_work_available i q db = ground arith

-- A retry returns nothing for an expired row; it returns a completed or a pending row as it is, and
-- changes nothing for these three; any other row it stores and returns as pending, with no attempt
-- used, no schedule and no error.
pub retry_task_cases :
    (task_id : ℕ) (db : Db) (t : TaskEntry)
    → find task_id db.tasks ≡ some t
    → retry_task task_id db ≡ (
        if is_status expired t.status
        then (none, db)
        else if not (can_transition_to t.status pending)
        then (some t, db)
        else (some (reset t), notify_work_available t.id t.queue (save task_id reset db)))
unfolding retry_task
retry_task_cases task_id db t h = rw h

pub retry_task_missing :
    (task_id : ℕ) (db : Db) → find task_id db.tasks ≡ none → retry_task task_id db ≡ (none, db)
unfolding retry_task
retry_task_missing task_id db h = rw h

pub kill_task_cases :
    (task_id : ℕ) (db : Db) (t : TaskEntry)
    → find task_id db.tasks ≡ some t
    → kill_task task_id db ≡ (
        if not (can_transition_to t.status dead)
        then (some t, db)
        else (some (kill t), save task_id kill db))
unfolding kill_task
kill_task_cases task_id db t h = rw h

pub kill_task_missing :
    (task_id : ℕ) (db : Db) → find task_id db.tasks ≡ none → kill_task task_id db ≡ (none, db)
unfolding kill_task
kill_task_missing task_id db h = rw h

abbrev pub may_reset : TaskEntry → Bool
may_reset t = can_transition_to t.status pending

abbrev pub may_die : TaskEntry → Bool
may_die t = can_transition_to t.status dead

-- A retry resets a row from which the state machine leads to pending, and no other row.
pub retry_task-Evolves :
    (task_id : ℕ) (db : Db)
    → Evolves (Sets may_reset reset) db.tasks (retry_task task_id db).1.tasks
retry_task-Evolves task_id db =
    let still = Evolves-refl (Sets may_reset reset) db.tasks (λ s. inl refl) in
    elim (Option-cases (find task_id db.tasks)) [
      | inl nowhere ↦ rw (retry_task_missing task_id db nowhere) still
      | inr (t, h) ↦
          rw (retry_task_cases task_id db t h) (elim (Bool-cases (is_status expired t.status)) [
            | inl e ↦ rw e still
            | inr e ↦ rw e (elim (Bool-cases (can_transition_to t.status pending)) [
              | inl c ↦
                  rw (c, tasks-notify_work_available)
                    (save-Evolves _ task_id reset db t (λ s. refl) (λ s. inl refl) h
                      (inr (refl, c)))
              | inr c ↦ rw c still
            ])
          ])
    ]

-- A kill sets a row from which the state machine leads to dead, and no other row.
pub kill_task-Evolves :
    (task_id : ℕ) (db : Db) → Evolves (Sets may_die kill) db.tasks (kill_task task_id db).1.tasks
kill_task-Evolves task_id db =
    let still = Evolves-refl (Sets may_die kill) db.tasks (λ s. inl refl) in
    elim (Option-cases (find task_id db.tasks)) [
      | inl nowhere ↦ rw (kill_task_missing task_id db nowhere) still
      | inr (t, h) ↦
          rw (kill_task_cases task_id db t h) (elim (Bool-cases (can_transition_to t.status dead)) [
            | inl c ↦
                rw c
                  (save-Evolves _ task_id kill db t (λ s. refl) (λ s. inl refl) h (inr (refl, c)))
            | inr c ↦ rw c still
          ])
    ]

-- A killed row is found dead, whether or not it was pending, dispatching, processing or failed; a
-- second kill returns the row and changes nothing.
pub kill_task_twice :
    (task_id : ℕ) (db : Db) (t : TaskEntry)
    → find task_id db.tasks ≡ some t
    → can_transition_to t.status dead ≡ true
    → (find task_id (kill_task task_id db).1.tasks ≡ some (kill t))
      × (kill_task task_id (kill_task task_id db).1 ≡ (some (kill t), (kill_task task_id db).1))
unfolding can_transition_to
kill_task_twice task_id db t h c =
    let first : kill_task task_id db ≡ (some (kill t), save task_id kill db) =
      kill_task_cases task_id db t h ∙ rw c in
    let stored = find-save task_id kill db t (λ s. refl) h in
    (
      ap (λ (r : Option TaskEntry × Db). find task_id r.1.tasks) first ∙ stored,
      rw first (kill_task_cases task_id (save task_id kill db) (kill t) stored),
    )

-- A bulk retry refuses the statuses from which the state machine does not lead to pending. For any
-- other it resets exactly the rows that have the status and the type, and reports their number.
pub bulk_retry-Evolves :
    (task_type : Option String) (status : TaskStatus) (db db' : Db) (n : ℕ)
    → bulk_retry task_type status db ≡ ok (n, db')
    → (can_transition_to status pending ≡ true)
      × (n ≡ count (retry_where task_type status) db.tasks)
      × (db'.tasks ≡ update (retry_where task_type status) reset db.tasks)
unfolding bulk_retry
bulk_retry-Evolves task_type status db db' n h =
    elim (Bool-cases (can_transition_to status pending)) [
      | inl c ↦
          let h' = rw c at h in
          let p = retry_where task_type status in
          let same : (
            count p db.tasks,
            notify_all (rows p db.tasks) (record db { tasks = update p reset db.tasks }),
          )
              ≡ (n, db') =
            cc h' in
          (
            c,
            sym (ap (λ (r : ℕ × Db). r.0) same),
            sym (ap (λ (r : ℕ × Db). r.1.tasks) same) ∙ tasks-notify_all (rows p db.tasks) _,
          )
      | inr c ↦ absurd (let h' = rw c at h in cc h')
    ]
