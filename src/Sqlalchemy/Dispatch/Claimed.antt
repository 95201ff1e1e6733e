-- ===== src/Sqlalchemy/Dispatch/Claimed.antt =====
-- What a claim returns: which rows, how many, and in which order.
use dewey.Prelude.{
  ℕ, ◌≤◌, ◌<◌, ◌⊎◌, Option, none, ◌≡◌, refl, ap, subst, ◌∙◌, inl, inr, true, some, List, contains,
  is_empty, length, length-map, arith, Bool-cases, Distinct, and_left, and_right, All, All-mono,
  All-both, nil_of_is_empty,
}
use dewey.Core.States.{in_statuses, pending, failed, dispatching}
use dewey.Core.Types.{TaskEntry}
use dewey.Ledger.{Db, find, rows, ids}
use dewey.Ledger.Laws.{id-find, contains-rows, contains-ids_self, keep-ids-All, row_of_id}
use dewey.Ledger.Engine.{Engine, IsSql}
use dewey.Ledger.Evolution.{find-update_of_some, selected_matches}
use dewey.Sqlalchemy.Dispatch.{
  Backend, in_scope, is_in_time, is_claimable, waiting, candidates_query, hand_over, expire_overdue,
  claim_guard, claim_candidates, claim,
}
use dewey.Sqlalchemy.Dispatch.Claim.{expire_overdue-Evolves}

-- A schedule that has come.
abbrev pub HasCome : ℕ → Option ℕ → Type 0
HasCome now none = ⊥
HasCome now (some at) = at ≤ now

-- No deadline, or one ahead.
abbrev pub IsAhead : ℕ → Option ℕ → Type 0
IsAhead now none = Unit
IsAhead now (some deadline) = now < deadline

-- A row that is due.
abbrev pub IsDue : ℕ → TaskEntry → Type 0
IsDue now t =
    ((t.status ≡ pending) × ((t.scheduled_for ≡ none) ⊎ HasCome now t.scheduled_for))
    ⊎ ((t.status ≡ failed) × HasCome now t.scheduled_for × (t.attempts < t.max_attempts))

claimable-IsDue : (now : ℕ) (t : TaskEntry) → is_claimable now t ≡ true → IsDue now t
claimable-IsDue now t h = ground arith

in_time-IsAhead : (now : ℕ) (t : TaskEntry) → is_in_time now t ≡ true → IsAhead now t.expires_at
in_time-IsAhead now t h = ground arith

pub IsDue-claimable : (now : ℕ) (t : TaskEntry) → IsDue now t → is_claimable now t ≡ true
IsDue-claimable now t (inl (p, inl n)) = rw (p, n) refl
IsDue-claimable now t (inl (p, inr c)) = rw p (ground (arith, c))
IsDue-claimable now t (inr (f, c, l)) = rw f (ground (arith, c, l))

pub IsAhead-in_time : (now : ℕ) (t : TaskEntry) → IsAhead now t.expires_at → is_in_time now t ≡ true
IsAhead-in_time now t h = ground (arith, h)

-- A row that may be claimed is waiting.
claimable_waits :
    (now : ℕ) (t : TaskEntry) → is_claimable now t ≡ true → in_statuses t.status waiting ≡ true
claimable_waits now t h = ground arith

module _ (e : Engine) (b : Backend) (limit now : ℕ) (sql : IsSql e) where
  abbrev pub chosen : Db → List TaskEntry
  chosen db = e.select (candidates_query b limit now) db.tasks

  chosen_claimed :
      (db : Db)
      → All
          (λ t. contains t.id (ids (rows (claim_guard (ids (chosen db))) db.tasks)) ≡ true)
          (chosen db)
  chosen_claimed db =
      All-mono _ _
        (λ t h.
          contains-rows (claim_guard (ids (chosen db))) t.id db.tasks t h.0.0
            (ground (arith, h.0.1, h.1, claimable_waits now t)))
        (chosen db)
        (All-both _ _ (chosen db) (sql.found _ db.tasks) (contains-ids_self (chosen db)))

  -- The second statement's ids all pass the test on what the update returned.
  pub claim_candidates-ids : (db : Db) → (claim_candidates e b limit now db).0 ≡ ids (chosen db)
  unfolding claim_candidates
  claim_candidates-ids db = elim (Bool-cases (is_empty (ids (chosen db)))) [
    | inl nothing ↦ rw nothing (nil_of_is_empty (ids (chosen db)) nothing)
    | inr something ↦ rw something (keep-ids-All _ (chosen db) (chosen_claimed db))
  ]

  -- What the second statement stores under an id that it chose.
  claim_candidates_stores :
      (db : Db) (i : ℕ) (t : TaskEntry)
      → contains i (ids (chosen db)) ≡ true
      → find i db.tasks ≡ some t
      → find i (claim_candidates e b limit now db).1.tasks ≡ some (hand_over now t)
  unfolding claim_candidates
  claim_candidates_stores db i t c f = elim (Bool-cases (is_empty (ids (chosen db)))) [
    | inl nothing ↦ cc (c, ap (contains i) (nil_of_is_empty (ids (chosen db)) nothing))
    | inr something ↦
        let m = selected_matches e (candidates_query b limit now) i db.tasks t sql f c in
        let own : t.id ≡ i = id-find i db.tasks t f in
        let g : claim_guard (ids (chosen db)) t ≡ true =
          ground (arith, ap (λ k. contains k (ids (chosen db))) own, claimable_waits now t) in
        rw something (
          find-update_of_some (claim_guard (ids (chosen db))) (hand_over now) i db.tasks t
            (λ s. refl) f
          ∙ ap some (rw g))
  ]

  pub claimed_candidate :
      (db : Db) (i : ℕ)
      → contains i (claim e b limit now db).0 ≡ true
      → (t : TaskEntry) × (find i db.tasks ≡ some t)
        × (is_claimable now t ≡ true)
        × (is_in_time now t ≡ true)
        × (in_scope b.queues t ≡ true)
        × (find i (claim e b limit now db).1.tasks ≡ some (hand_over now t))
  unfolding claim
  claimed_candidate db i h =
      let db' = expire_overdue e b limit now db in
      let c : contains i (ids (chosen db')) ≡ true = rw (claim_candidates-ids db') at h in
      let (t', f', m) =
        row_of_id (λ s. (candidates_query b limit now).matches s ≡ true) i db'.tasks (chosen db')
          (sql.found _ db'.tasks) c in
      let (t, f, s) = expire_overdue-Evolves e b limit now sql db i t' f' in
      elim s [
        | inl same ↦
            let m' = subst (λ x. (candidates_query b limit now).matches x ≡ true) same m in
            (
              t,
              f,
              and_left _ _ m',
              and_left _ _ (and_right _ _ m'),
              and_right _ _ (and_right _ _ m'),
              claim_candidates_stores db' i t' c f' ∙ ap (λ x. some (hand_over now x)) same,
            )
        | inr (gone, _) ↦ cc (subst (λ x. (candidates_query b limit now).matches x ≡ true) gone m)
      ]

  -- Each id that a claim returns is that of a row that was due, in time and in the dispatcher's
  -- queues before the call: pending, with no schedule or one that has come, or failed, with a schedule
  -- that has come and attempts left; with no deadline, or one ahead. After the call the row is
  -- dispatching since `now`, and otherwise as it was.
  pub claimed_row :
      (db : Db) (i : ℕ)
      → contains i (claim e b limit now db).0 ≡ true
      → (t : TaskEntry) × (find i db.tasks ≡ some t)
        × IsDue now t
        × IsAhead now t.expires_at
        × (in_scope b.queues t ≡ true)
        × (find i (claim e b limit now db).1.tasks
            ≡ some (record t { status = dispatching; dispatching_at = some now }))
  claimed_row db i h =
      let (t, f, c, d, s, stored) = claimed_candidate db i h in
      (t, f, claimable-IsDue now t c, in_time-IsAhead now t d, s, stored)

  -- A claim returns at most `limit` ids.
  pub length-claim_le : (db : Db) → length (claim e b limit now db).0 ≤ limit
  unfolding claim
  length-claim_le db =
      let db' = expire_overdue e b limit now db in
      rw (claim_candidates-ids db', length-map) (sql.limited _ db'.tasks)

  -- A claim returns no id twice.
  pub claim-Distinct : (db : Db) → Distinct (claim e b limit now db).0
  unfolding claim
  claim-Distinct db =
      let db' = expire_overdue e b limit now db in
      rw (claim_candidates-ids db') (sql.distinct _ db'.tasks)
