-- ===== src/Listen/Waiting.antt =====
-- `wait_for_work`, and `close` behind the removal of the heartbeat, of the synchronous backends:
-- src/dewey/sqlalchemy/dispatch.py. Those of src/dewey/django/dispatch.py are written with the same
-- statements. A timeout is a number of microseconds.
pub mod Runs
use dewey.Prelude.{ℕ, Bool, true, false, List, [], ◌∷◌, if◌then◌else◌}
use dewey.Listen.Sync.{Driver, Listener, supported, open_, close, wait}

-- `_listener` and `_listener_opened` of a backend.
pub record Waiter : Type 0 where
  pub listener_opened : Bool
  pub listener : Listener

module _ {ℓ} {W : Type ℓ} (db : Driver W) where
  -- `delete_heartbeat` stands for the transaction in front, which may fail and is then skipped.
  unfoldable pub close_backend : (W → W) → Waiter → W → Waiter × W
  close_backend delete_heartbeat b w =
      let (l, w') = close db b.listener (delete_heartbeat w) in (record b { listener = l }, w')

  module _ (sleep : ℕ → W → W) where
    -- An exception of `open` is logged, and the dispatcher polls.
    opened_once : Waiter → W → Waiter × W
    opened_once b w =
        let (_, l, w') = open_ db b.listener w in
        if b.listener_opened then (b, w) else (record { listener_opened = true; listener = l }, w')

    waited : ℕ → Waiter → W → Bool × Waiter × W
    waited timeout b w =
        let (received, l, w') = wait db timeout b.listener w in
        if supported b.listener
        then (received, record b { listener = l }, w')
        else (false, b, sleep timeout w)

    unfoldable pub wait_for_work : ℕ → Waiter → W → Bool × Waiter × W
    unfolding opened_once waited
    wait_for_work timeout b w = let (b', w') = opened_once b w in waited timeout b' w'
