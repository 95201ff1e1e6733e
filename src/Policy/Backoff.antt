-- ===== src/Policy/Backoff.antt =====
-- The backoff policies of src/dewey/policy.py and `retry_delay` of src/dewey/core/backoff.py.
-- A number of seconds is a number of microseconds, rounded down, as `timedelta` keeps it; a factor
-- or a fraction, a float in the source, is an exact fraction. `random.uniform(-spread, spread)` is
-- a parameter: `draw spread - spread`, where the documented range is `draw spread ≤ 2 * spread`.
pub mod Bounds
use dewey.Prelude.{
  ℕ, zero, ◌+◌, ◌-◌, ◌*◌, ◌/◌, ◌^◌, Bool, Option, none, some, min, max, ltb, if◌then◌else◌,
}

pub record Fraction : Type 0 where
  pub numerator : ℕ
  pub denominator : ℕ

abbrev pub second : ℕ
second = 1_000_000

abbrev pub scaled : ℕ → Fraction → ℕ
scaled n f = n * f.numerator / f.denominator

abbrev pub capped : Option ℕ → ℕ → ℕ
capped none n = n
capped (some cap) n = min n cap

-- `_jittered`: the subtraction that stops at 0 is the `max(0.0, …)`, which the cap, being no less
-- than 0, may come before or after.
unfoldable pub jittered : (ℕ → ℕ) → ℕ → Fraction → Option ℕ → ℕ
jittered draw seconds jitter cap =
    let spread = scaled seconds jitter in
    let moved = if ltb 0 jitter.numerator then seconds + draw spread - spread else seconds in
    capped cap moved

pub data BackoffPolicy : Type 0 where
  -- seconds, jitter
  constant : ℕ → Fraction → BackoffPolicy
  -- base_s, factor, cap_s, jitter
  exponential : ℕ → Fraction → ℕ → Fraction → BackoffPolicy
  custom : (ℕ → ℕ) → BackoffPolicy

-- `base_s * factor ** max(0, attempt - 1)`
abbrev pub raw_delay : ℕ → Fraction → ℕ → ℕ
raw_delay base factor attempt =
    base * factor.numerator ^ (attempt - 1) / factor.denominator ^ (attempt - 1)

unfoldable pub delay_for : (ℕ → ℕ) → BackoffPolicy → ℕ → ℕ
unfolding jittered
delay_for draw (constant seconds jitter) attempt = jittered draw seconds jitter none
delay_for draw (exponential base factor cap jitter) attempt =
    jittered draw (min (raw_delay base factor attempt) cap) jitter (some cap)
delay_for draw (custom fn) attempt = fn attempt

abbrev pub default_exponential : BackoffPolicy
default_exponential =
    exponential (120 * second) (record { numerator = 2; denominator = 1 }) (3600 * second)
      (record { numerator = 1; denominator = 4 })

-- `retry_delay` of src/dewey/core/backoff.py.
unfoldable pub retry_delay : (ℕ → ℕ) → ℕ → ℕ → ℕ → Fraction → ℕ
retry_delay draw attempts base_delay max_delay jitter =
    let delay = min (base_delay * 2 ^ attempts) max_delay in
    let jitter_amount = scaled delay jitter in
    if ltb 0 jitter.numerator
    then min (delay + draw jitter_amount - jitter_amount) max_delay
    else delay

unfoldable pub default_task_backoff : (ℕ → ℕ) → ℕ → ℕ
unfolding retry_delay
default_task_backoff draw attempts =
    retry_delay draw attempts (120 * second) (3600 * second)
      (record { numerator = 1; denominator = 4 })
