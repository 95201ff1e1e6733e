-- ===== src/Sqlalchemy/Executor/Phases.antt =====
-- What a worker does to the row that it was handed, phase by phase.
use dewey.Prelude.{
  ℕ, ◌≡◌, refl, ap, ◌∙◌, inl, inr, true, false, ◌&&◌, none, some, is_some, some_gt, arith,
  Bool-cases, Option-cases, ◌==◌, if◌then◌else◌,
}
use dewey.Core.States
use dewey.Core.States.{
  TaskStatus, is_status, in_statuses, can_transition_to, pending, processing, completed, expired,
}
use dewey.Core.Types.{TaskEntry}
use dewey.Ledger.{Db, find}
use dewey.Ledger.Laws.{KeepsId, id-find}
use dewey.Ledger.Evolution.{find-update_of_some}
use dewey.Sqlalchemy.Dispatch.{is_overdue, expire}
use dewey.Sqlalchemy.Executor.{
  claimable_statuses, save, start, Phase1, skipped, started, claim_row, phase1, finish,
}

-- The row of an id after a flush on it.
pub find-save :
    (task_id : ℕ) (f : TaskEntry → TaskEntry) (db : Db) (t : TaskEntry)
    → KeepsId f
    → find task_id db.tasks ≡ some t
    → find task_id (save task_id f db).tasks ≡ some (f t)
find-save task_id f db t keeps h =
    let own : t.id ≡ task_id = id-find task_id db.tasks t h in
    find-update_of_some (λ s. s.id == task_id) f task_id db.tasks t keeps h
    ∙ ap some (ground (arith, own))

phase1_found :
    (now task_id : ℕ) (db : Db) (t : TaskEntry)
    → find task_id db.tasks ≡ some t
    → phase1 now task_id db ≡ claim_row now task_id t db
unfolding phase1
phase1_found now task_id db t h = rw h

abbrev pub phase1_result : ℕ → ℕ → TaskEntry → Db → Phase1 × Db
phase1_result now task_id t db =
    if in_statuses t.status claimable_statuses
    then (if is_overdue now t
        then (skipped, save task_id (expire now) db)
        else if is_some t.scheduled_for && some_gt t.scheduled_for now
        then (skipped, db)
        else (started (start now t), save task_id (start now) db))
    else (skipped, db)

-- Phase 1 starts a row exactly if it is pending or dispatching, in time and due; then the row is
-- stored as processing since `now`, with one more attempt. It expires a row that is pending or
-- dispatching and past its deadline. Otherwise it changes nothing.
pub phase1_cases :
    (now task_id : ℕ) (db : Db) (t : TaskEntry)
    → find task_id db.tasks ≡ some t
    → phase1 now task_id db ≡ phase1_result now task_id t db
unfolding claim_row States.is_terminal can_transition_to
phase1_cases now task_id db t h = phase1_found now task_id db t h ∙ ground arith

pub phase1_missing :
    (now task_id : ℕ) (db : Db)
    → find task_id db.tasks ≡ none
    → phase1 now task_id db ≡ (skipped, db)
unfolding phase1
phase1_missing now task_id db h = rw h

claim_row_started :
    (now task_id : ℕ) (t cached : TaskEntry) (db : Db)
    → (claim_row now task_id t db).0 ≡ started cached
    → (in_statuses t.status claimable_statuses ≡ true)
      × (is_overdue now t ≡ false)
      × ((is_some t.scheduled_for && some_gt t.scheduled_for now) ≡ false)
      × (cached ≡ start now t)
      × ((claim_row now task_id t db).1 ≡ save task_id (start now) db)
unfolding claim_row States.is_terminal can_transition_to
claim_row_started now task_id t cached db h = ground arith

-- A row that phase 1 started was pending or dispatching, in time and due; it is handed on and
-- stored as processing since `now`, with one more attempt.
pub phase1_started :
    (now task_id : ℕ) (db : Db) (cached : TaskEntry)
    → (phase1 now task_id db).0 ≡ started cached
    → (t : TaskEntry) × (find task_id db.tasks ≡ some t)
      × (in_statuses t.status claimable_statuses ≡ true)
      × (is_overdue now t ≡ false)
      × ((is_some t.scheduled_for && some_gt t.scheduled_for now) ≡ false)
      × (cached ≡ start now t)
      × (find task_id (phase1 now task_id db).1.tasks ≡ some (start now t))
phase1_started now task_id db cached h = elim (Option-cases (find task_id db.tasks)) [
  | inl nowhere ↦ cc (h, ap (λ (r : Phase1 × Db). r.0) (phase1_missing now task_id db nowhere))
  | inr (t, f) ↦
      let e = phase1_found now task_id db t f in
      let (s, o, d, c, stored) = claim_row_started now task_id t cached db (rw e at h) in
      (
        t,
        f,
        s,
        o,
        d,
        c,
        ap (λ (r : Phase1 × Db). find task_id r.1.tasks) e
            ∙ (ap (λ (r : Db). find task_id r.tasks) stored
                ∙ find-save task_id (start now) db t (λ x. refl) f),
      )
]

-- A delivery of the same id after a start is a no-op: whatever the time, phase 1 skips it and
-- changes nothing.
pub phase1_again :
    (now now' task_id : ℕ) (db : Db) (cached : TaskEntry)
    → (phase1 now task_id db).0 ≡ started cached
    → phase1 now' task_id (phase1 now task_id db).1 ≡ (skipped, (phase1 now task_id db).1)
phase1_again now now' task_id db cached h =
    let (t, _, _, _, _, _, stored) = phase1_started now task_id db cached h in
    phase1_cases now' task_id (phase1 now task_id db).1 (start now t) stored

-- Where the row is gone or no longer processing when the handler has ended, the run reports no
-- success and changes nothing: a kill, a sweep or another worker's result stands.
pub finish_other :
    (task_id : ℕ) (f : TaskEntry → TaskEntry) (db : Db)
    → ((t : TaskEntry) → find task_id db.tasks ≡ some t → is_status processing t.status ≡ false)
    → finish task_id f db ≡ (false, db)
unfolding finish
finish_other task_id f db h = elim (Option-cases (find task_id db.tasks)) [
  | inl nowhere ↦ rw nowhere
  | inr (t, e) ↦ rw e (rw (h t e))
]

pub finish_processing :
    (task_id : ℕ) (f : TaskEntry → TaskEntry) (db : Db) (t : TaskEntry)
    → find task_id db.tasks ≡ some t
    → is_status processing t.status ≡ true
    → finish task_id f db ≡ (true, save task_id f db)
unfolding finish
finish_processing task_id f db t e h = rw e (rw h)

pub finish-true :
    (task_id : ℕ) (f : TaskEntry → TaskEntry) (db : Db)
    → (finish task_id f db).0 ≡ true
    → (t : TaskEntry) × (find task_id db.tasks ≡ some t)
      × (is_status processing t.status ≡ true)
      × ((finish task_id f db).1 ≡ save task_id f db)
unfolding finish
finish-true task_id f db h = elim (Option-cases (find task_id db.tasks)) [
  | inl nowhere ↦ absurd (let h' = rw nowhere at h in cc h')
  | inr (t, e) ↦ elim (Bool-cases (is_status processing t.status)) [
    | inl p ↦ (t, e, p, rw e (rw p))
    | inr n ↦ absurd (let h' = rw n at (rw e at h) in cc h')
  ]
]
