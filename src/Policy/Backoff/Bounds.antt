-- ===== src/Policy/Backoff/Bounds.antt =====
-- How long the backoffs wait.
use native.Mathlib.Nat.{pow-suc}
use dewey.Prelude.{ℕ, suc, ◌+◌, ◌*◌, ◌^◌, ◌≤◌, ◌≡◌, min, arith}
use dewey.Policy.Backoff.{Fraction, scaled, exponential, raw_delay, delay_for, retry_delay}

-- An exponential backoff never waits longer than its cap, whatever the jitter draws.
pub exponential-le-cap :
    (draw : ℕ → ℕ) (base : ℕ) (factor : Fraction) (cap : ℕ) (jitter : Fraction) (attempt : ℕ)
    → delay_for draw (exponential base factor cap jitter) attempt ≤ cap
unfolding delay_for
exponential-le-cap draw base factor cap jitter attempt = ground arith

-- The jitter moves a delay by at most its fraction, up or down, and up only as far as the cap.
exponential_jitter :
    (draw : ℕ → ℕ) (base : ℕ) (factor : Fraction) (cap : ℕ) (jitter : Fraction) (attempt : ℕ)
    → let delay = min (raw_delay base factor attempt) cap in
      let spread = scaled delay jitter in
      draw spread ≤ 2 * spread
      → (delay ≤ delay_for draw (exponential base factor cap jitter) attempt + spread)
        × (delay_for draw (exponential base factor cap jitter) attempt ≤ delay + spread)
unfolding delay_for
exponential_jitter draw base factor cap jitter attempt h = ground arith

-- `retry_delay` stays within its maximum; with no jitter it is the doubled base, cut off there.
pub retry_delay_bounds :
    (draw : ℕ → ℕ) (attempts base max_delay : ℕ) (jitter : Fraction)
    → retry_delay draw attempts base max_delay jitter ≤ max_delay
unfolding retry_delay
retry_delay_bounds draw attempts base max_delay jitter = ground arith

retry_delay_exact :
    (draw : ℕ → ℕ) (attempts base max_delay d : ℕ)
    → retry_delay draw attempts base max_delay (record { numerator = 0; denominator = d })
      ≡ min (base * 2 ^ attempts) max_delay
unfolding retry_delay
retry_delay_exact draw attempts base max_delay d = ground arith

-- With no jitter a later attempt waits twice as long as the one before, as long as the maximum
-- allows.
pub retry_delay_doubles :
    (draw : ℕ → ℕ) (attempts base max_delay d : ℕ)
    → let delay =
        λ (n : ℕ). retry_delay draw n base max_delay (record { numerator = 0; denominator = d }) in
      delay (suc attempts) ≡ min (2 * delay attempts) max_delay
retry_delay_doubles draw attempts base max_delay d =
    rw retry_delay_exact (rw retry_delay_exact (rw pow-suc (ground arith)))
