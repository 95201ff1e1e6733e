-- ===== src/Django/Sweep/Laws.antt =====
-- The two ORMs' recovery passes.
use dewey.Prelude.{
  ℕ, ◌≡◌, refl, sym, subst, ◌∙◌, false, List, All-mono, All-both, Distinct, contains, arith,
  Bool-cases, inl, inr, is_empty,
}
use dewey.Core.States.{TaskStatus, is_status, processing, dispatching, failed}
use dewey.Core.Types.{TaskEntry}
use dewey.Ledger.{Db, rows, ids}
use dewey.Ledger.Laws.{KeepsId, set_if}
use dewey.Ledger.Keyed.{ids-update, contains-rows_self, update-update}
use dewey.Ledger.Engine.{Query, Engine}
use dewey.Sqlalchemy.Dispatch.{expire}
use dewey.Sqlalchemy.Sweep
use dewey.Sqlalchemy.Sweep.{
  retry_guard, dead_guard, set_pending, set_dead, clear_pending, clear_dead, failed_query,
  expired_query, stuck_query, dispatching_query, expired_guard, SweepTimes,
}
use dewey.Sqlalchemy.Sweep.Steps.{tasks-notify_all}
use dewey.Sqlalchemy.System.Keys.{ids-recover}
use dewey.Django.Sweep.{
  in_status, recover, sweep_failed, sweep_expired, sweep_stuck, sweep_dispatching, sweep,
}

-- Same ids, same rows.
abbrev pub Agrees : List ℕ × Db → List ℕ × Db → Type 0
Agrees r r' = (r.0 ≡ r'.0) × (r.1.tasks ≡ r'.1.tasks)

-- The same rows, under distinct ids.
abbrev pub Same : Db → Db → Type 0
Same db db' = (db.tasks ≡ db'.tasks) × Distinct (ids db'.tasks)

module _ (s : TaskStatus) (back bury : TaskEntry → TaskEntry) (keeps : KeepsId back)
    (leaves : (t : TaskEntry) → is_status s (back t).status ≡ false) where
  row_agrees :
      (task_ids retry_ids dead_ids : List ℕ) (t : TaskEntry)
      → contains t.id retry_ids ≡ retry_guard s task_ids t
      → contains t.id dead_ids ≡ dead_guard s task_ids t
      → set_if (in_status s dead_ids) bury (set_if (in_status s retry_ids) back t)
        ≡ set_if (dead_guard s task_ids) bury (set_if (retry_guard s task_ids) back t)
  row_agrees task_ids retry_ids dead_ids t h k = ground (arith, h, k, keeps t, leaves t)

  pub recover-Agrees :
      (task_ids : List ℕ) (db db' : Db)
      → db.tasks ≡ db'.tasks
      → Distinct (ids db'.tasks)
      → Agrees (recover s back bury task_ids db) (Sweep.recover s back bury task_ids db')
  unfolding recover Sweep.recover
  recover-Agrees task_ids db db' h d =
      let ts = db'.tasks in
      let retry_ids = ids (rows (retry_guard s task_ids) ts) in
      let dead_ids = ids (rows (dead_guard s task_ids) ts) in
      elim (Bool-cases (is_empty task_ids)) [
        | inl nothing ↦ rw nothing (refl, h)
        | inr something ↦
            rw (h, something, tasks-notify_all)
              (
                refl,
                update-update _ _ _ _ back bury ts (
                    All-mono _ _ (λ t h. row_agrees task_ids retry_ids dead_ids t h.0 h.1) ts
                      (All-both _ _ ts (contains-rows_self (retry_guard s task_ids) ts d)
                        (contains-rows_self (dead_guard s task_ids) ts d))),
              )
      ]

  -- A pass over the rows that its query chose, and the ids after it.
  pub pass-Agrees :
      (e : Engine) (q : Query) (db db' : Db)
      → KeepsId bury
      → Same db db'
      → let r' = Sweep.recover s back bury (ids (e.select q db'.tasks)) db' in
        Agrees (recover s back bury (ids (e.select q db.tasks)) db) r' × Distinct (ids r'.1.tasks)
  pass-Agrees e q db db' keeps' (h, d) =
      let task_ids = ids (e.select q db'.tasks) in
      (
        subst
            (λ ts.
              Agrees (recover s back bury (ids (e.select q ts)) db)
                (Sweep.recover s back bury task_ids db'))
            (sym h) (recover-Agrees task_ids db db' h d),
        rw (ids-recover db' s back bury task_ids keeps keeps') d,
      )

module _ (e : Engine) where
  pub sweep_expired-Same :
      (limit now : ℕ) (db db' : Db)
      → Same db db'
      → Same (sweep_expired e limit now db).1 (Sweep.sweep_expired e limit now db').1
  unfolding sweep_expired Sweep.sweep_expired
  sweep_expired-Same limit now db db' (h, d) =
      let task_ids = ids (e.select (expired_query limit now) db'.tasks) in
      elim (Bool-cases (is_empty task_ids)) [
        | inl nothing ↦ rw (h, nothing) (refl, d)
        | inr something ↦
            rw (h, something)
              (refl, rw (ids-update (expired_guard task_ids) (expire now) db'.tasks (λ t. refl)) d)
      ]

  -- A sweep over Django leaves the rows that one over SQLAlchemy leaves, and reports the same ids as
  -- failed, dispatching and stuck, if the ids of the table are distinct.
  sweep-Agrees :
      (stuck_threshold dispatch_timeout limit : ℕ) (now : SweepTimes) (db : Db)
      → Distinct (ids db.tasks)
      → let r = sweep e stuck_threshold dispatch_timeout limit now db in
        let r' = Sweep.sweep e stuck_threshold dispatch_timeout limit now db in
        (r.1.tasks ≡ r'.1.tasks)
        × (r.0.failed ≡ r'.0.failed)
        × (r.0.dispatching ≡ r'.0.dispatching)
        × (r.0.stuck ≡ r'.0.stuck)
  unfolding sweep Sweep.sweep sweep_failed sweep_stuck sweep_dispatching Sweep.sweep_failed
      Sweep.sweep_stuck Sweep.sweep_dispatching
  sweep-Agrees stuck_threshold dispatch_timeout limit now db d =
      let one = sweep_expired-Same limit now.expired db db (refl, d) in
      let (two, d₂) =
        pass-Agrees failed set_pending set_dead (λ t. refl) (λ t. refl) e
          (failed_query limit now.failed) _ _ (λ t. refl) one in
      let (three, d₃) =
        pass-Agrees dispatching clear_pending clear_dead (λ t. refl) (λ t. refl) e
          (dispatching_query dispatch_timeout limit now.dispatching) _ _ (λ t. refl) (two.1, d₂) in
      let (four, _) =
        pass-Agrees processing set_pending set_dead (λ t. refl) (λ t. refl) e
          (stuck_query stuck_threshold limit now.stuck) _ _ (λ t. refl) (three.1, d₃) in
      (four.1, two.0, three.0, four.0)

  wakeups-recover :
      (s : TaskStatus) (back bury : TaskEntry → TaskEntry) (task_ids : List ℕ) (db : Db)
      → (recover s back bury task_ids db).1.wakeups ≡ db.wakeups
  unfolding recover
  wakeups-recover s back bury task_ids db = elim (Bool-cases (is_empty task_ids)) [
    | inl nothing ↦ rw nothing refl
    | inr something ↦ rw something refl
  ]

  wakeups-pass :
      (s : TaskStatus) (back bury : TaskEntry → TaskEntry) (q : Query) (db : Db)
      → (recover s back bury (ids (e.select q db.tasks)) db).1.wakeups ≡ db.wakeups
  wakeups-pass s back bury q db = wakeups-recover s back bury (ids (e.select q db.tasks)) db

  wakeups-sweep_expired :
      (limit now : ℕ) (db : Db) → (sweep_expired e limit now db).1.wakeups ≡ db.wakeups
  unfolding sweep_expired
  wakeups-sweep_expired limit now db =
      elim (Bool-cases (is_empty (ids (e.select (expired_query limit now) db.tasks)))) [
        | inl nothing ↦ rw nothing refl
        | inr something ↦ rw something refl
      ]

  -- A sweep over Django announces nothing.
  pub wakeups-sweep :
      (stuck_threshold dispatch_timeout limit : ℕ) (now : SweepTimes) (db : Db)
      → (sweep e stuck_threshold dispatch_timeout limit now db).1.wakeups ≡ db.wakeups
  unfolding sweep sweep_failed sweep_stuck sweep_dispatching
  wakeups-sweep stuck_threshold dispatch_timeout limit now db =
      wakeups-pass processing set_pending set_dead (stuck_query stuck_threshold limit now.stuck) _
      ∙ (wakeups-pass dispatching clear_pending clear_dead
            (dispatching_query dispatch_timeout limit now.dispatching) _
          ∙ (wakeups-pass failed set_pending set_dead (failed_query limit now.failed) _
              ∙ wakeups-sweep_expired limit now.expired db))
