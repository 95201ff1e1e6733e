-- ===== src/Sqlalchemy/Executor/Steps.antt =====
-- What each transaction of a worker does to each row.
use dewey.Prelude.{
  ℕ, ◌≡◌, refl, sym, ap, subst, ◌∙◌, true, false, ◌&&◌, some, Option-cases, Bool-cases, inl, inr,
  is_some, some_gt, ==_iff, ◌==◌,
}
use dewey.Core.States.{is_status, in_statuses, processing}
use dewey.Core.Types.{TaskEntry}
use dewey.Ledger.{Db, find}
use dewey.Ledger.Laws.{KeepsId}
use dewey.Ledger.Evolution.{Evolves, update-Evolves, Evolves-refl}
use dewey.Sqlalchemy.Dispatch.{is_overdue, expire}
use dewey.Sqlalchemy.Dispatch.Claim.{Sets}
use dewey.Sqlalchemy.Executor.{claimable_statuses, save, start, phase1, finish}
use dewey.Sqlalchemy.Executor.Phases.{
  phase1_result, phase1_cases, phase1_missing, finish_other, finish_processing,
}

-- What may become of a row in phase 1.
pub data StartStep (now : ℕ) (t t' : TaskEntry) : Type 0 where
  untouched : t' ≡ t → StartStep now t t'
  overdue :
      t' ≡ expire now t
      → in_statuses t.status claimable_statuses ≡ true
      → is_overdue now t ≡ true
      → StartStep now t t'
  begun : t' ≡ start now t → in_statuses t.status claimable_statuses ≡ true → StartStep now t t'

-- A flush on one row relates the rows as it relates that one.
pub save-Evolves :
    (R : TaskEntry → TaskEntry → Type 0) (task_id : ℕ) (f : TaskEntry → TaskEntry) (db : Db)
    (t : TaskEntry)
    → KeepsId f
    → ((s : TaskEntry) → R s s)
    → find task_id db.tasks ≡ some t
    → R t (f t)
    → Evolves R db.tasks (save task_id f db).tasks
save-Evolves R task_id f db t keeps stay h r =
    update-Evolves R (λ s. s.id == task_id) f db.tasks keeps (λ s _. stay s)
      (λ s e p.
        let found : some s ≡ some t =
          sym e ∙ (ap (λ k. find k db.tasks) ((==_iff s.id task_id).0 p) ∙ h) in
        let same : t ≡ s = cc found in subst (λ x. R x (f x)) same r)

phase1_step :
    (now task_id : ℕ) (db : Db) (t : TaskEntry)
    → find task_id db.tasks ≡ some t
    → Evolves (StartStep now) db.tasks (phase1_result now task_id t db).1.tasks
phase1_step now task_id db t h =
    let still = Evolves-refl (StartStep now) db.tasks (λ s. untouched refl) in
    elim (Bool-cases (in_statuses t.status claimable_statuses)) [
      | inr no_ ↦ rw no_ still
      | inl c ↦ rw c (elim (Bool-cases (is_overdue now t)) [
        | inl o ↦ rw o (
            save-Evolves (StartStep now) task_id (expire now) db t (λ s. refl) (λ s. untouched refl)
              h (overdue refl c o))
        | inr o ↦ rw o (elim (Bool-cases (is_some t.scheduled_for && some_gt t.scheduled_for now)) [
          | inl later ↦ rw later still
          | inr due ↦ rw due (
              save-Evolves (StartStep now) task_id (start now) db t (λ s. refl)
                (λ s. untouched refl) h (begun refl c))
        ])
      ])
    ]

pub phase1-Evolves :
    (now task_id : ℕ) (db : Db) → Evolves (StartStep now) db.tasks (phase1 now task_id db).1.tasks
phase1-Evolves now task_id db = elim (Option-cases (find task_id db.tasks)) [
  | inl nowhere ↦
      rw (phase1_missing now task_id db nowhere) (Evolves-refl _ _ (λ t. untouched refl))
  | inr (t, h) ↦ rw (phase1_cases now task_id db t h) (phase1_step now task_id db t h)
]

-- What the end of a run does to a row: nothing, or it sets a row that was processing.
pub finish-Evolves :
    (task_id : ℕ) (f : TaskEntry → TaskEntry) (db : Db)
    → KeepsId f
    → Evolves (Sets (λ t. is_status processing t.status) f) db.tasks (finish task_id f db).1.tasks
finish-Evolves task_id f db keeps = elim (Option-cases (find task_id db.tasks)) [
  | inl nowhere ↦
      rw (finish_other task_id f db (λ t e. cc (nowhere, e))) (Evolves-refl _ _ (λ t. inl refl))
  | inr (t, h) ↦ elim (Bool-cases (is_status processing t.status)) [
    | inl p ↦
        rw (finish_processing task_id f db t h p)
          (save-Evolves _ task_id f db t keeps (λ s. inl refl) h (inr (refl, p)))
    | inr n ↦
        rw
          (finish_other task_id f db (λ s e.
            let found : some t ≡ some s = sym h ∙ e in
            let same : t ≡ s = cc found in
            subst (λ x. is_status processing x.status ≡ false) same n))
          (Evolves-refl _ _ (λ s. inl refl))
  ]
]
