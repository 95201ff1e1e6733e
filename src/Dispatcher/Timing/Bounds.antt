-- ===== src/Dispatcher/Timing/Bounds.antt =====
-- How long the dispatcher waits.
use native.Mathlib.Nat.{pow-suc}
use dewey.Prelude.{
  ℕ, zero, suc, ◌+◌, ◌-◌, ◌*◌, ◌^◌, ◌≤◌, ◌<◌, ◌≡◌, ◌∙◌, refl, ap, true, Option, none, some, leb,
  min, ◌==◌, arith, if◌then◌else◌,
}
use dewey.Dispatcher.Timing.{
  BackoffState, note_failure, note_success, remaining_delay, SweepClock, due, due_every,
  bounded_wait,
}

-- A number of failures, one after another, at the given times.
pub failures : ℕ → (ℕ → ℕ) → BackoffState → BackoffState
failures zero at s = s
failures (suc n) at s = note_failure (at n) (failures n at s)

failures_keep :
    (n : ℕ) (at : ℕ → ℕ) (s : BackoffState)
    → ((failures n at s).base_seconds ≡ s.base_seconds)
      × ((failures n at s).cap_seconds ≡ s.cap_seconds)
unfolding failures note_failure
failures_keep zero at s = (refl, refl)
failures_keep (suc n) at s = failures_keep n at s

-- `min(base * 2 ** n, cap)`
abbrev pub exponential : ℕ → ℕ → ℕ → ℕ
exponential base n most = min (base * 2 ^ n) most

one_le_pow : (n : ℕ) → 1 ≤ 2 ^ n
one_le_pow zero = omega arith
one_le_pow (suc n) = rw pow-suc (omega (arith, one_le_pow n))

first_step : (base most : ℕ) → base ≤ most → base ≡ exponential base 0 most
first_step base most h = omega (arith, h)

mul_positive : (a b : ℕ) → 0 < a → 1 ≤ b → 1 ≤ a * b
mul_positive zero b h k = absurd (omega (arith, h))
mul_positive (suc a) b h k = omega (arith, k)

next_step :
    (delay b c base most q : ℕ)
    → delay ≡ min (base * q) most
    → b ≡ base
    → c ≡ most
    → 1 ≤ q
    → 0 < base
    → base ≤ most
    → (if delay == 0 then b else min (delay * 2) c) ≡ min (base * (q * 2)) most
next_step delay b c base most q d e f l p k =
    let positive : 1 ≤ base * q = mul_positive base q p l in
    let double : base * (q * 2) ≡ base * q * 2 = omega arith in
    rw (d, e, f, double) (ground (arith, positive, p, k))

-- After a success the delays double with each failure in a row up to the cap: the one after n + 1
-- failures is `min(base * 2 ** n, cap)`, at whatever times they come, if the base is positive and at
-- most the cap.
retry_delay-failures :
    (n : ℕ) (at : ℕ → ℕ) (s : BackoffState)
    → 0 < s.base_seconds
    → s.base_seconds ≤ s.cap_seconds
    → (failures (suc n) at (note_success s)).retry_delay
      ≡ exponential s.base_seconds n s.cap_seconds
unfolding failures note_failure note_success
retry_delay-failures zero at s p c = first_step s.base_seconds s.cap_seconds c
retry_delay-failures (suc n) at s p c =
    let (b, k) = failures_keep (suc n) at (note_success s) in
    rw pow-suc (
      next_step _ _ _ s.base_seconds s.cap_seconds (2 ^ n) (retry_delay-failures n at s p c) b k
        (one_le_pow n) p c)

-- The delay owed after a failure shrinks with the clock and is never more than the current step.
pub remaining_delay-note_failure :
    (now later : ℕ) (s : BackoffState)
    → 0 < s.base_seconds
    → 0 < s.cap_seconds
    → now ≤ later
    → remaining_delay later (note_failure now s) ≡ (now + (note_failure now s).retry_delay) - later
unfolding remaining_delay note_failure
remaining_delay-note_failure now later s p c l = ground arith

-- Where the idle poll is not zero, a wait is not zero either, is at most the idle poll, and is at most
-- the time until the next row is due unless that time has come.
bounded_wait_bounds :
    (idle now : ℕ) (due_at : Option ℕ)
    → 0 < idle
    → (bounded_wait idle due_at now ≤ idle)
      × (0 < bounded_wait idle due_at now)
      × ((at : ℕ) → due_at ≡ some at → now < at → bounded_wait idle due_at now ≤ at - now)
unfolding bounded_wait
bounded_wait_bounds idle now none p = ground arith
bounded_wait_bounds idle now (some at) p = ground arith

due_again :
    (interval now now' : ℕ) (c : SweepClock)
    → (due_every now (some interval) c).0 ≡ true
    → (due_every now' (some interval) (due_every now (some interval) c).1).0
      ≡ leb (now + interval) now'
unfolding due_every
due_again interval now now' c h = ground arith

interval_kept :
    (interval now : ℕ) (c : SweepClock)
    → (due_every now (some interval) c).1.interval_seconds ≡ c.interval_seconds
unfolding due_every
interval_kept interval now c = ground arith

-- Once a clock with an interval was due, it is next due exactly when the interval has passed.
pub due_spacing :
    (interval now now' : ℕ) (c : SweepClock)
    → c.interval_seconds ≡ some interval
    → (due now c).0 ≡ true
    → (due now' (due now c).1).0 ≡ leb (now + interval) now'
unfolding due
due_spacing interval now now' c i h =
    let first : due now c ≡ due_every now (some interval) c = ap (λ k. due_every now k c) i in
    rw first (
      ap (λ k. (due_every now' k (due_every now (some interval) c).1).0)
        (interval_kept interval now c ∙ i)
      ∙ due_again interval now now' c (rw first at h))
