-- ===== src/Sqlalchemy/Sweep/Steps.antt =====
-- What each recovery pass does to each row.
use dewey.Prelude.{
  ℕ, ◌≤◌, ◌<◌, ◌≡◌, refl, ap, subst, ◌∙◌, ◌⊎◌, inl, inr, Bool, true, false, some, List, [], ◌∷◌,
  is_empty, arith, Bool-cases, and_left,
}
use dewey.Core.States.{TaskStatus, is_status, dispatching, processing, failed}
use dewey.Core.Types.{TaskEntry}
use dewey.Ledger.{Db, find, ids, notify_all, notify_work_available}
use dewey.Ledger.Laws.{KeepsId}
use dewey.Ledger.Engine.{Query, Engine, IsSql}
use dewey.Ledger.Evolution.{Evolves, update-Evolves, Evolves-refl, Evolves-trans, selected_matches}
use dewey.Sqlalchemy.Dispatch.{expire}
use dewey.Sqlalchemy.Dispatch.Claim.{Sets}
use dewey.Sqlalchemy.Sweep.{
  failed_query, expired_query, stuck_query, dispatching_query, retry_guard, dead_guard, recover,
  set_pending, set_dead, clear_pending, clear_dead, sweep_failed, expired_guard, sweep_expired,
  sweep_stuck, sweep_dispatching,
}

-- Announcing rows changes no row.
pub tasks-notify_all : (ts : List TaskEntry) (db : Db) → (notify_all ts db).tasks ≡ db.tasks
unfolding notify_all
tasks-notify_all [] db = refl
tasks-notify_all (t ∷ ts) db =
    tasks-notify_all ts (notify_work_available t.id t.queue db) ∙ ground arith

-- What may become of a row in a recovery pass with the `WHERE` p.
pub data RecoverStep (p : TaskEntry → Bool) (back bury : TaskEntry → TaskEntry) (t t' : TaskEntry)
    : Type 0 where
  untouched : t' ≡ t → RecoverStep p back bury t t'
  retried : t' ≡ back t → p t ≡ true → t.attempts < t.max_attempts → RecoverStep p back bury t t'
  buried : t' ≡ bury t → p t ≡ true → t.max_attempts ≤ t.attempts → RecoverStep p back bury t t'

module _ (e : Engine) (q : Query) (s : TaskStatus) (back bury : TaskEntry → TaskEntry)
    (sql : IsSql e) (keeps : KeepsId back) (keeps' : KeepsId bury)
    (leaves : (t : TaskEntry) → is_status s (back t).status ≡ false) where
  -- A recovery pass over the rows that its `SELECT` chose.
  recover-Evolves :
      (db : Db)
      → Evolves
          (RecoverStep q.matches back bury)
          db.tasks
          (recover s back bury (ids (e.select q db.tasks)) db).1.tasks
  unfolding recover
  recover-Evolves db =
      let task_ids = ids (e.select q db.tasks) in
      elim (Bool-cases (is_empty task_ids)) [
        | inl nothing ↦ rw nothing (Evolves-refl _ db.tasks (λ t. untouched refl))
        | inr something ↦
            rw (something, tasks-notify_all)
              (Evolves-trans First Second (RecoverStep q.matches back bury) _ _ _ join
                (update-Evolves First (retry_guard s task_ids) back db.tasks keeps
                  (λ t f. (f, inl refl)) (λ t f g. (f, inr (refl, g))))
                (update-Evolves Second (dead_guard s task_ids) bury _ keeps' (λ t f. inl refl)
                  (λ t f g. inr (refl, g))))
      ]
    where
      First : TaskEntry → TaskEntry → Type 0
      First t u =
          (find t.id db.tasks ≡ some t)
          × ((u ≡ t) ⊎ ((u ≡ back t) × (retry_guard s (ids (e.select q db.tasks)) t ≡ true)))

      Second : TaskEntry → TaskEntry → Type 0
      Second u v = (v ≡ u) ⊎ ((v ≡ bury u) × (dead_guard s (ids (e.select q db.tasks)) u ≡ true))

      join : (t u v : TaskEntry) → First t u → Second u v → RecoverStep q.matches back bury t v
      join t u v (f, inl p) (inl r) = untouched (r ∙ p)
      join t u v (f, inl p) (inr (r, g)) =
          let g' = subst (λ x. dead_guard s (ids (e.select q db.tasks)) x ≡ true) p g in
          buried (r ∙ ap bury p) (selected_matches e q t.id db.tasks t sql f (and_left _ _ g'))
            (ground arith)
      join t u v (f, inr (p, g)) (inl r) =
          retried (r ∙ p) (selected_matches e q t.id db.tasks t sql f (and_left _ _ g))
            (ground arith)
      join t u v (f, inr (p, g)) (inr (r, g')) =
          let h = subst (λ x. dead_guard s (ids (e.select q db.tasks)) x ≡ true) p g' in
          ground (arith, leaves t)

module _ (e : Engine) (sql : IsSql e) where
  -- `sweep_failed` makes a failed row whose retry is due pending again if it has attempts left, and
  -- dead if it has none; every other row, and every other field, stays.
  pub sweep_failed-Evolves :
      (limit now : ℕ) (db : Db)
      → Evolves
          (RecoverStep (failed_query limit now).matches set_pending set_dead)
          db.tasks
          (sweep_failed e limit now db).1.tasks
  unfolding sweep_failed
  sweep_failed-Evolves limit now db =
      recover-Evolves e (failed_query limit now) failed set_pending set_dead sql (λ t. refl)
        (λ t. refl) (λ t. refl) db

  -- `sweep_stuck` makes a row that has been processing for longer than the threshold pending again if
  -- it has attempts left, and dead if it has none; every other row, and every other field, stays.
  pub sweep_stuck-Evolves :
      (threshold limit now : ℕ) (db : Db)
      → Evolves
          (RecoverStep (stuck_query threshold limit now).matches set_pending set_dead)
          db.tasks
          (sweep_stuck e threshold limit now db).1.tasks
  unfolding sweep_stuck
  sweep_stuck-Evolves threshold limit now db =
      recover-Evolves e (stuck_query threshold limit now) processing set_pending set_dead sql
        (λ t. refl) (λ t. refl) (λ t. refl) db

  -- `sweep_dispatching` makes a row that has been dispatching for longer than the timeout pending again
  -- if it has attempts left, and dead if it has none, no longer marked as dispatching; every other row,
  -- and every other field, stays.
  pub sweep_dispatching-Evolves :
      (timeout limit now : ℕ) (db : Db)
      → Evolves
          (RecoverStep (dispatching_query timeout limit now).matches clear_pending clear_dead)
          db.tasks
          (sweep_dispatching e timeout limit now db).1.tasks
  unfolding sweep_dispatching
  sweep_dispatching-Evolves timeout limit now db =
      recover-Evolves e (dispatching_query timeout limit now) dispatching clear_pending clear_dead
        sql (λ t. refl) (λ t. refl) (λ t. refl) db

  -- `sweep_expired` expires rows that are pending, failed or dispatching and past their deadline; every
  -- other row stays.
  pub sweep_expired-Evolves :
      (limit now : ℕ) (db : Db)
      → Evolves
          (Sets (expired_query limit now).matches (expire now))
          db.tasks
          (sweep_expired e limit now db).1.tasks
  unfolding sweep_expired
  sweep_expired-Evolves limit now db =
      let q = expired_query limit now in
      let R = Sets q.matches (expire now) in
      let task_ids = ids (e.select q db.tasks) in
      elim (Bool-cases (is_empty task_ids)) [
        | inl nothing ↦ rw nothing (Evolves-refl R db.tasks (λ t. inl refl))
        | inr something ↦ rw something (
            update-Evolves R (expired_guard task_ids) (expire now) db.tasks (λ t. refl)
              (λ t f. inl refl)
              (λ t f g. inr (refl, selected_matches e q t.id db.tasks t sql f (and_left _ _ g))))
      ]
