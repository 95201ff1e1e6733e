-- ===== src/Django/Dispatch/Laws.antt =====
-- The two backends' claims, releases and wake-up times.
use dewey.Prelude.{
  ℕ, ◌≡◌, refl, sym, ap, ◌∙◌, String, true, Option, List, [], ◌∷◌, arith, Bool-cases, inl, inr,
  is_empty,
}
use dewey.Core.Types.{TaskEntry}
use dewey.Ledger.{Db, update, ids}
use dewey.Ledger.Engine.{Engine, IsSql}
use dewey.Sqlalchemy.Dispatch
use dewey.Sqlalchemy.Dispatch.{Backend, claim_guard, hand_over, earliest}
use dewey.Sqlalchemy.Dispatch.Claimed.{claim_candidates-ids}
use dewey.Django.Dispatch.{
  DjangoBackend, expire_overdue, claim_candidates, claim, claimable_rows, earliest_wake, next_due,
  release,
}

-- The SQLAlchemy backend with the same settings, on a database that can skip locked rows.
abbrev pub counterpart : DjangoBackend → Backend
counterpart b = record {
  queues = b.queues;
  stuck_threshold = b.stuck_threshold;
  dispatch_timeout = b.dispatch_timeout;
  sweep_limit = b.sweep_limit;
  supports_skip_locked = true;
}

module _ (e : Engine) (b : DjangoBackend) (limit now : ℕ) (sql : IsSql e) where
  expire_overdue-eq :
      (db : Db)
      → expire_overdue e b limit now db ≡ Dispatch.expire_overdue e (counterpart b) limit now db
  unfolding expire_overdue Dispatch.expire_overdue
  expire_overdue-eq db = refl

  claim_candidates-eq :
      (db : Db)
      → claim_candidates e b limit now db ≡ Dispatch.claim_candidates e (counterpart b) limit now db
  unfolding claim_candidates Dispatch.claim_candidates
  claim_candidates-eq db =
      let task_ids = ids (e.select (claimable_rows b limit now) db.tasks) in
      let kept = claim_candidates-ids e (counterpart b) limit now sql db in
      elim (Bool-cases (is_empty task_ids)) [
        | inl nothing ↦ rw nothing refl
        | inr something ↦ rw something (
            ap
              (λ k.
                (k, record db { tasks = update (claim_guard task_ids) (hand_over now) db.tasks }))
              (sym (rw something at kept)))
      ]

  -- A claim by the Django backend does what one by the SQLAlchemy backend with the same settings
  -- does, where the database can skip locked rows: it returns the same ids in the same order and
  -- leaves the same tables, although it returns what its query chose and not what its update
  -- matched.
  pub claim-eq : (db : Db) → claim e b limit now db ≡ Dispatch.claim e (counterpart b) limit now db
  unfolding claim Dispatch.claim
  claim-eq db =
      ap (claim_candidates e b limit now) (expire_overdue-eq db)
      ∙ claim_candidates-eq (Dispatch.expire_overdue e (counterpart b) limit now db)

pub release-eq : (task_ids : List ℕ) (db : Db) → release task_ids db ≡ Dispatch.release task_ids db
unfolding release Dispatch.release
release-eq task_ids db = refl

earliest_wake-eq :
    (queues : Option (List String)) (ts : List TaskEntry)
    → earliest_wake queues ts ≡ earliest queues ts
unfolding earliest_wake earliest
earliest_wake-eq queues [] = refl
earliest_wake-eq queues (t ∷ ts) = ground (arith, earliest_wake-eq queues ts)

-- The Django backend wakes when the SQLAlchemy backend with the same queues does.
pub next_due-eq :
    (b : DjangoBackend) (now : ℕ) (db : Db)
    → next_due b now db ≡ Dispatch.next_due (counterpart b) now db
unfolding next_due Dispatch.next_due
next_due-eq b now db = rw (earliest_wake-eq b.queues db.tasks)
