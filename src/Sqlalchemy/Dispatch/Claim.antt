-- ===== src/Sqlalchemy/Dispatch/Claim.antt =====
-- What a claim does to each row, and what it returns.
use dewey.Prelude.{
  ℕ, ◌≡◌, refl, ap, subst, ◌∙◌, ◌⊎◌, inl, inr, Bool, true, contains, is_empty, Bool-cases, and_left,
  and_right,
}
use dewey.Core.States.{in_statuses}
use dewey.Core.Types.{TaskEntry}
use dewey.Ledger.{Db, ids}
use dewey.Ledger.Engine.{Engine, IsSql}
use dewey.Ledger.Evolution.{Evolves, update-Evolves, Evolves-refl, Evolves-trans, selected_matches}
use dewey.Sqlalchemy.Dispatch.{
  Backend, in_scope, is_overdue, is_in_time, is_claimable, waiting, overdue_query, candidates_query,
  expire, hand_over, expire_overdue, claim_guard, claim_candidates, claim,
}

-- What may become of a row while the claim runs.
pub data ClaimStep (b : Backend) (now : ℕ) (t t' : TaskEntry) : Type 0 where
  untouched : t' ≡ t → ClaimStep b now t t'
  overdue :
      t' ≡ expire now t
      → in_statuses t.status waiting ≡ true
      → is_overdue now t ≡ true
      → in_scope b.queues t ≡ true
      → ClaimStep b now t t'
  handed_over :
      t' ≡ hand_over now t
      → is_claimable now t ≡ true
      → is_in_time now t ≡ true
      → in_scope b.queues t ≡ true
      → ClaimStep b now t t'

-- A row is left alone, or it matched the statement's `WHERE` and was set.
abbrev pub Sets : (TaskEntry → Bool) → (TaskEntry → TaskEntry) → TaskEntry → TaskEntry → Type 0
Sets p f t t' = (t' ≡ t) ⊎ ((t' ≡ f t) × (p t ≡ true))

module _ (e : Engine) (b : Backend) (limit now : ℕ) (sql : IsSql e) where
  pub expire_overdue-Evolves :
      (db : Db)
      → Evolves
          (Sets (overdue_query b limit now).matches (expire now))
          db.tasks
          (expire_overdue e b limit now db).tasks
  unfolding expire_overdue
  expire_overdue-Evolves db =
      let q = overdue_query b limit now in
      let R = Sets q.matches (expire now) in
      elim (Bool-cases (is_empty (ids (e.select q db.tasks)))) [
        | inl nothing ↦ rw nothing (Evolves-refl R db.tasks (λ t. inl refl))
        | inr something ↦ rw something (
            update-Evolves R (λ t. contains t.id (ids (e.select q db.tasks))) (expire now) db.tasks
              (λ t. refl) (λ t f. inl refl)
              (λ t f c. inr (refl, selected_matches e q t.id db.tasks t sql f c)))
      ]

  claim_candidates-Evolves :
      (db : Db)
      → Evolves
          (Sets (candidates_query b limit now).matches (hand_over now))
          db.tasks
          (claim_candidates e b limit now db).1.tasks
  unfolding claim_candidates
  claim_candidates-Evolves db =
      let q = candidates_query b limit now in
      let R = Sets q.matches (hand_over now) in
      let task_ids = ids (e.select q db.tasks) in
      elim (Bool-cases (is_empty task_ids)) [
        | inl nothing ↦ rw nothing (Evolves-refl R db.tasks (λ t. inl refl))
        | inr something ↦ rw something (
            update-Evolves R (claim_guard task_ids) (hand_over now) db.tasks (λ t. refl)
              (λ t f. inl refl)
              (λ t f c. inr (refl, selected_matches e q t.id db.tasks t sql f (and_left _ _ c))))
      ]

  -- Every row after a claim stems from the row of its id before: it is unchanged, or it was past
  -- its deadline and is now expired, or it was due and in time and is now marked as dispatching.
  pub claim-Evolves :
      (db : Db) → Evolves (ClaimStep b now) db.tasks (claim e b limit now db).1.tasks
  unfolding claim
  claim-Evolves db =
      Evolves-trans _ _ (ClaimStep b now) _ _ _ join (expire_overdue-Evolves db)
        (claim_candidates-Evolves (expire_overdue e b limit now db))
    where
      join :
          (t u v : TaskEntry)
          → Sets (overdue_query b limit now).matches (expire now) t u
          → Sets (candidates_query b limit now).matches (hand_over now) u v
          → ClaimStep b now t v
      join t u v (inl p) (inl q) = untouched (q ∙ p)
      join t u v (inl p) (inr (q, m)) =
          let m' = subst (λ x. (candidates_query b limit now).matches x ≡ true) p m in
          handed_over (q ∙ ap (hand_over now) p) (and_left _ _ m') (and_left _ _ (and_right _ _ m'))
            (and_right _ _ (and_right _ _ m'))
      join t u v (inr (p, n)) (inl q) =
          overdue (q ∙ p) (and_left _ _ n) (and_left _ _ (and_right _ _ n))
            (and_right _ _ (and_right _ _ n))
      join t u v (inr (p, n)) (inr (q, m)) =
          cc (subst (λ x. (candidates_query b limit now).matches x ≡ true) p m)
