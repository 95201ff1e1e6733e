-- ===== src/Listen/Async/Leak.antt =====
-- How the asyncio listener fails to start where it cannot subscribe.
use dewey.Prelude.{ℕ, String, true, false, none, List, ◌∷◌, ◌≡◌, arith, returned, raised}
use dewey.Listen.Payload.{Codec}
use dewey.Listen.Async.{
  AsyncDriver, AsyncWaiter, aenter, start_listener, wait_for_work, close_backend,
}

-- The connections that were made and not closed: only `connect` and a `close` that returns change
-- them.
pub record IsAsyncDriver {ℓ} {W : Type ℓ} (db : AsyncDriver W) (opened : W → List ℕ) : Type ℓ where
  pub opened-connect :
      (c : ℕ) (w : W) → (db.connect w).0 ≡ returned c → opened (db.connect w).1 ≡ c ∷ opened w
  pub opened-get_raw_connection : (c : ℕ) (w : W) → opened (db.get_raw_connection c w).1 ≡ opened w
  pub opened-add_listener : (c : ℕ) (w : W) → opened (db.add_listener c w).1 ≡ opened w
  pub opened-sleep : (t : ℕ) (w : W) → opened (db.sleep t w).1 ≡ opened w

-- A backend as its constructor makes it.
abbrev pub not_started : AsyncWaiter
not_started = record { listener_started = false; listener = none }

module _ {ℓ} {W : Type ℓ} (db : AsyncDriver W) (opened : W → List ℕ)
    (d : IsAsyncDriver db opened) where
  -- Where subscribing fails once the connection is made, `wait_for_work` drops the listener with the
  -- connection open, and `close` does not close it either: it removes the heartbeat, and nothing more.
  pub failed_subscribe_leaks :
      (codec : Codec) (timeout : ℕ) (arriving : List String) (delete_heartbeat : W → W) (c : ℕ)
      (w : W)
      → (db.connect w).0 ≡ returned c
      → (db.get_raw_connection c (db.connect w).1).0 ≡ returned true
      → (db.add_listener c (db.get_raw_connection c (db.connect w).1).1).0 ≡ raised
      → let (_, b, w') = wait_for_work db codec true timeout arriving not_started w in
        (opened w' ≡ c ∷ opened w)
        × (b.listener ≡ none)
        × (close_backend db delete_heartbeat b w' ≡ (returned tt, b, delete_heartbeat w'))
  unfolding wait_for_work close_backend start_listener aenter
  failed_subscribe_leaks codec timeout arriving delete_heartbeat c w made raw failed =
      let w₁ : W = (db.connect w).1 in
      let w₂ : W = (db.get_raw_connection c w₁).1 in
      let w₃ : W = (db.add_listener c w₂).1 in
      ground (
        arith,
        d.opened-connect c w,
        d.opened-get_raw_connection c w₁,
        d.opened-add_listener c w₂,
        d.opened-sleep timeout w₃,
      )
