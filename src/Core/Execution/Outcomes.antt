-- ===== src/Core/Execution/Outcomes.antt =====
-- What `classify_failure` decides.
use dewey.Prelude.{
  ℕ, ◌+◌, ◌≤◌, ◌<◌, ◌≡◌, ◌⊎◌, true, Option, none, some, [], ◌∷◌, arith, if◌then◌else◌,
}
use dewey.Core.States.{failed, dead}
use dewey.Core.Errors.{Raised, isinstance, retry_after}
use dewey.Policy.{TaskPolicy}
use dewey.Core.Execution.{chosen_delay, classify_failure}

-- The delay that the handler itself asked for; 0 where it asked for none.
abbrev asked : Raised → ℕ
asked exc = if isinstance exc (retry_after ∷ []) then exc.seconds else 0

-- A failed attempt is retried only while attempts are left, and then not before the backoff has
-- passed, nor before the delay that a `RetryAfter` asked for.
retry_not_early :
    (draw : ℕ → ℕ) (exc : Raised) (policy : TaskPolicy) (attempts max_attempts now : ℕ)
    (backoff : Option (ℕ → ℕ)) (at : ℕ)
    → (classify_failure draw exc policy attempts max_attempts now backoff).retry_at ≡ some at
    → (attempts < max_attempts)
      × (now + chosen_delay draw policy backoff attempts ≤ at)
      × (now + asked exc ≤ at)
unfolding classify_failure
retry_not_early draw exc policy attempts max_attempts now backoff at h = ground arith

-- A retry has a time, and a dead letter has none.
pub retry_at_iff :
    (draw : ℕ → ℕ) (exc : Raised) (policy : TaskPolicy) (attempts max_attempts now : ℕ)
    (backoff : Option (ℕ → ℕ))
    → let o = classify_failure draw exc policy attempts max_attempts now backoff in
      ((o.status ≡ dead) × (o.retry_at ≡ none))
      ⊎ ((o.status ≡ failed) × ((at : ℕ) × (o.retry_at ≡ some at)))
unfolding classify_failure
retry_at_iff draw exc policy attempts max_attempts now backoff = ground arith

-- A `RetryAfter` with attempts left is retried whatever the policy says, also where `fail_fast_on`
-- lists its class.
pub retry_after_overrides_policy :
    (draw : ℕ → ℕ) (exc : Raised) (policy : TaskPolicy) (attempts max_attempts now : ℕ)
    (backoff : Option (ℕ → ℕ))
    → isinstance exc (retry_after ∷ []) ≡ true
    → attempts < max_attempts
    → (classify_failure draw exc policy attempts max_attempts now backoff).status ≡ failed
unfolding classify_failure
retry_after_overrides_policy draw exc policy attempts max_attempts now backoff h k = ground arith
