-- ===== src/Dispatcher/Timing.antt =====
-- The clocks of src/dewey/dispatcher.py: retry timing of an upstream, the recovery clock and the
-- bound on a wait. Durations and readings of the monotonic clock are microseconds.
pub mod Bounds
use dewey.Prelude.{
  ℕ, ◌+◌, ◌-◌, ◌*◌, Bool, true, false, Option, none, some, ltb, min, ◌==◌, if◌then◌else◌,
}

pub record BackoffState : Type 0 where
  pub base_seconds : ℕ
  pub cap_seconds : ℕ
  pub retry_delay : ℕ
  pub retry_at : ℕ

abbrev next_delay : BackoffState → ℕ
next_delay s = if s.retry_delay == 0 then s.base_seconds else min (s.retry_delay * 2) s.cap_seconds

unfoldable pub note_failure : ℕ → BackoffState → BackoffState
note_failure now s = record s { retry_delay = next_delay s; retry_at = now + next_delay s }

unfoldable pub note_success : BackoffState → BackoffState
note_success s = record s { retry_delay = 0; retry_at = 0 }

-- `max(0.0, retry_at - now)`
unfoldable pub remaining_delay : ℕ → BackoffState → ℕ
remaining_delay now s = if s.retry_delay == 0 then 0 else s.retry_at - now

pub record SweepClock : Type 0 where
  pub interval_seconds : Option ℕ
  pub last : Option ℕ

abbrev too_soon : ℕ → ℕ → Option ℕ → Bool
too_soon now interval none = false
too_soon now interval (some last) = ltb now (last + interval)

unfoldable pub due_every : ℕ → Option ℕ → SweepClock → Bool × SweepClock
due_every now none c = (false, c)
due_every now (some interval) c =
    if too_soon now interval c.last then (false, c) else (true, record c { last = some now })

unfoldable pub due : ℕ → SweepClock → Bool × SweepClock
unfolding due_every
due now c = due_every now c.interval_seconds c

-- `due_at` and `now` are instants in UTC.
unfoldable pub bounded_wait : ℕ → Option ℕ → ℕ → ℕ
bounded_wait idle_poll_seconds none now = idle_poll_seconds
bounded_wait idle_poll_seconds (some due_at) now =
    if (due_at - now) == 0
    then min idle_poll_seconds 50_000
    else min idle_poll_seconds (due_at - now)
