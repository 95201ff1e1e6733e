-- ===== src/Sqlalchemy/System/Rows.antt =====
-- What any transaction does to a row, and what that means for its status and its columns.
use dewey.Prelude.{
  ℕ, ◌<◌, ◌≡◌, refl, ap, ◌⊎◌, inl, inr, Bool, true, ◌&&◌, Option, none, some, [], ◌∷◌, arith,
  is_some, Bool-cases, if◌then◌else◌, leb, ltb,
}
use dewey.Core.States.{
  is_status, in_statuses, can_transition_to, should_die, dispatching, processing, failed, completed,
  dead, expired,
}
use dewey.Core.Types.{TaskEntry}
use dewey.Core.Errors.{Raised, isinstance, retry_after}
use dewey.Core.Execution.{classify_failure, classify_retry}
use dewey.Policy.{TaskPolicy, is_retryable}
use dewey.Ledger.Evolution.{Follows}
use dewey.Sqlalchemy.Dispatch.{is_claimable, expire, hand_over, give_back}
use dewey.Sqlalchemy.Executor.{claimable_statuses, start, fail_with, complete}
use dewey.Sqlalchemy.Sweep.{expiring, set_pending, clear_dead}
use dewey.Sqlalchemy.Queries.{reset, kill}
use dewey.Sqlalchemy.Queries.Actions.{may_reset, may_die}

pub data RowStep (t t' : TaskEntry) : Type 0 where
  untouched : t' ≡ t → RowStep t t'
  expires : (now : ℕ) → t' ≡ expire now t → in_statuses t.status expiring ≡ true → RowStep t t'
  handed_over : (now : ℕ) → t' ≡ hand_over now t → is_claimable now t ≡ true → RowStep t t'
  given_back : t' ≡ give_back t → is_status dispatching t.status ≡ true → RowStep t t'
  begun :
      (now : ℕ) → t' ≡ start now t → in_statuses t.status claimable_statuses ≡ true → RowStep t t'
  fails :
      (draw : ℕ → ℕ) (exc : Raised) (policy : TaskPolicy) (attempts max_attempts now : ℕ)
      (backoff : Option (ℕ → ℕ))
      → t'
        ≡ fail_with
            (classify_failure draw exc policy attempts max_attempts now backoff)
            exc.message
            t
      → is_status processing t.status ≡ true
      → RowStep t t'
  completes : (now : ℕ) → t' ≡ complete now t → is_status processing t.status ≡ true → RowStep t t'
  requeued :
      t' ≡ set_pending t
      → in_statuses t.status (failed ∷ processing ∷ []) ≡ true
      → t.attempts < t.max_attempts
      → RowStep t t'
  abandoned : t' ≡ clear_dead t → is_status dispatching t.status ≡ true → RowStep t t'
  resets : t' ≡ reset t → may_reset t ≡ true → RowStep t t'
  killed : t' ≡ kill t → may_die t ≡ true → RowStep t t'

-- An outcome is dead, or failed with a time for the next attempt.
retry_cases :
    (draw : ℕ → ℕ) (requested : Option ℕ) (policy : TaskPolicy) (attempts max_attempts now : ℕ)
    (backoff : Option (ℕ → ℕ))
    → let o = classify_retry draw requested policy attempts max_attempts now backoff in
      (o.status ≡ dead) ⊎ ((o.status ≡ failed) × (at : ℕ) × (o.retry_at ≡ some at))
unfolding classify_retry
retry_cases draw requested policy attempts max_attempts now backoff =
    elim (Bool-cases (should_die attempts max_attempts)) [
      | inl d ↦ inl (rw d refl)
      | inr d ↦ inr (rw d (refl, _, refl))
    ]

outcome_cases :
    (draw : ℕ → ℕ) (exc : Raised) (policy : TaskPolicy) (attempts max_attempts now : ℕ)
    (backoff : Option (ℕ → ℕ))
    → let o = classify_failure draw exc policy attempts max_attempts now backoff in
      (o.status ≡ dead) ⊎ ((o.status ≡ failed) × (at : ℕ) × (o.retry_at ≡ some at))
unfolding classify_failure
outcome_cases draw exc policy attempts max_attempts now backoff =
    elim (Bool-cases (isinstance exc (retry_after ∷ []))) [
      | inl r ↦ rw r (retry_cases draw (some exc.seconds) policy attempts max_attempts now backoff)
      | inr r ↦ rw r (elim (Bool-cases (is_retryable policy exc)) [
        | inl y ↦ rw y (retry_cases draw none policy attempts max_attempts now backoff)
        | inr n ↦ rw n (inl refl)
      ])
    ]

pub failure_cases :
    (draw : ℕ → ℕ) (exc : Raised) (policy : TaskPolicy) (attempts max_attempts now : ℕ)
    (backoff : Option (ℕ → ℕ)) (t : TaskEntry)
    → let o = classify_failure draw exc policy attempts max_attempts now backoff in
      (fail_with o exc.message t ≡ record t { status = dead; error = exc.message })
      ⊎ ((at : ℕ) × (fail_with o exc.message t
            ≡ record t { status = failed; error = exc.message; scheduled_for = some at }))
failure_cases draw exc policy attempts max_attempts now backoff t =
    elim (outcome_cases draw exc policy attempts max_attempts now backoff) [
      | inl d ↦ inl (rw d refl)
      | inr (f, at, r) ↦ inr (at, rw (f, r) refl)
    ]

-- Each step of a row keeps its status or takes a transition that the state machine allows.
pub RowStep-Follows : (t t' : TaskEntry) → RowStep t t' → Follows t.status t'.status
unfolding can_transition_to
RowStep-Follows t t' (untouched e) = inl (ap (λ (r : TaskEntry). r.status) e)
RowStep-Follows t t' (expires now e h) = inr (rw e (ground (arith, h)))
RowStep-Follows t t' (handed_over now e h) = inr (rw e (ground (arith, h)))
RowStep-Follows t t' (given_back e h) = inr (rw e (ground (arith, h)))
RowStep-Follows t t' (begun now e h) = inr (rw e (ground (arith, h)))
RowStep-Follows t t' (fails draw exc policy attempts max_attempts now backoff e h) =
    elim (failure_cases draw exc policy attempts max_attempts now backoff t) [
      | inl f ↦ inr (rw (e, f) (ground (arith, h)))
      | inr (_, f) ↦ inr (rw (e, f) (ground (arith, h)))
    ]
RowStep-Follows t t' (completes now e h) = inr (rw e (ground (arith, h)))
RowStep-Follows t t' (requeued e h _) = inr (rw e (ground (arith, h)))
RowStep-Follows t t' (abandoned e h) = inr (rw e (ground (arith, h)))
RowStep-Follows t t' (resets e h) = inr (rw e h)
RowStep-Follows t t' (killed e h) = inr (rw e h)

-- The timestamp that a status relies on is set.
abbrev pub has_timestamp : TaskEntry → Bool
has_timestamp t = elim t.status [
  | dispatching ↦ is_some t.dispatching_at
  | processing ↦ is_some t.started_at
  | completed ↦ is_some t.completed_at
  | failed ↦ is_some t.scheduled_for
  | expired ↦ is_some t.expired_at
  | _ ↦ true
]

-- The attempts are within the budget, with one left for a row that waits for a worker.
abbrev pub in_budget : TaskEntry → Bool
in_budget t =
    if in_statuses t.status claimable_statuses
    then ltb t.attempts t.max_attempts
    else leb t.attempts t.max_attempts

abbrev pub is_sound : TaskEntry → Bool
is_sound t = ltb 0 t.max_attempts && (in_budget t && has_timestamp t)

pub RowStep-is_sound : (t t' : TaskEntry) → RowStep t t' → is_sound t ≡ true → is_sound t' ≡ true
unfolding can_transition_to
RowStep-is_sound t t' (untouched e) s = rw e s
RowStep-is_sound t t' (expires now e h) s = rw e (ground (arith, h, s))
RowStep-is_sound t t' (handed_over now e h) s = rw e (ground (arith, h, s))
RowStep-is_sound t t' (given_back e h) s = rw e (ground (arith, h, s))
RowStep-is_sound t t' (begun now e h) s = rw e (ground (arith, h, s))
RowStep-is_sound t t' (fails draw exc policy attempts max_attempts now backoff e h) s =
    elim (failure_cases draw exc policy attempts max_attempts now backoff t) [
      | inl f ↦ rw (e, f) (ground (arith, h, s))
      | inr (_, f) ↦ rw (e, f) (ground (arith, h, s))
    ]
RowStep-is_sound t t' (completes now e h) s = rw e (ground (arith, h, s))
RowStep-is_sound t t' (requeued e h l) s = rw e (ground (arith, h, s, l))
RowStep-is_sound t t' (abandoned e h) s = rw e (ground (arith, h, s))
RowStep-is_sound t t' (resets e h) s = rw e (ground (arith, h, s))
RowStep-is_sound t t' (killed e h) s = rw e (ground (arith, h, s))
