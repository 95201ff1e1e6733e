-- ===== src/Listen/Waiting/Runs.antt =====
-- What any sequence of calls of `wait_for_work` and `close` does with connections.
use dewey.Prelude.{
  ℕ, ◌+◌, ◌≤◌, true, false, none, List, [], ◌∷◌, ◌≡◌, refl, sym, ap, ◌∙◌, arith, Bool-cases, inl,
  inr, if◌then◌else◌,
}
use dewey.Listen.Sync.{Driver, Listener, supported, close}
use dewey.Listen.Sync.Connections.{Seen, IsDriver, held, open-Held, close-Held, wait-Held}
use dewey.Listen.Waiting.{Waiter, opened_once, waited, wait_for_work, close_backend}

pub data Call : Type 0 where
  waits : ℕ → Call
  closes : Call

module _ {ℓ} {W : Type ℓ} (db : Driver W) (sleep : ℕ → W → W) (delete_heartbeat : W → W) where
  unfoldable pub run : List Call → Waiter → W → Waiter × W
  run [] b w = (b, w)
  run (waits timeout ∷ calls) b w =
      let (_, b', w') = wait_for_work db sleep timeout b w in run calls b' w'
  run (closes ∷ calls) b w = let (b', w') = close_backend db delete_heartbeat b w in run calls b' w'

  module _ (seen : W → Seen) (d : IsDriver db seen)
      (seen-sleep : (t : ℕ) (w : W) → seen (sleep t w) ≡ seen w)
      (seen-delete : (w : W) → seen (delete_heartbeat w) ≡ seen w) where
    -- Before the listener was opened there is no connection; afterwards it is not opened again.
    pub record IsSound (first : ℕ) (b : Waiter) (w : W) : Type 0 where
      pub holds : (seen w).opened ≡ held b.listener.conn
      pub fresh : b.listener_opened ≡ false → b.listener.conn ≡ none
      pub once : (seen w).attempts ≡ (if b.listener_opened then first + 1 else first)

    opened_once-IsSound :
        (first : ℕ) (b : Waiter) (w : W)
        → IsSound first b w
        → IsSound first (opened_once db sleep b w).0 (opened_once db sleep b w).1
    unfolding opened_once
    opened_once-IsSound first b w s = elim (Bool-cases b.listener_opened) [
      | inl y ↦
          rw y (record { holds = s.holds; fresh = λ e. cc e; once = ground (arith, s.once, y) })
      | inr n ↦
          let (holds, more) = open-Held db seen d b.listener w (s.fresh n) s.holds in
          rw n (record { holds = holds; fresh = λ e. cc e; once = ground (arith, more, s.once, n) })
    ]

    waited-IsSound :
        (first timeout : ℕ) (b : Waiter) (w : W)
        → b.listener_opened ≡ true
        → IsSound first b w
        → IsSound first (waited db sleep timeout b w).1 (waited db sleep timeout b w).2
    unfolding waited
    waited-IsSound first timeout b w opened s = elim (Bool-cases (supported b.listener)) [
      | inl y ↦
          let (holds, same) = wait-Held db seen d timeout b.listener w s.holds in
          rw y (record { holds = holds; fresh = λ e. cc (e, opened); once = same ∙ s.once })
      | inr n ↦ rw n (record {
        holds = ap (λ (v : Seen). v.opened) (seen-sleep timeout w) ∙ s.holds;
        fresh = s.fresh;
        once = ap (λ (v : Seen). v.attempts) (seen-sleep timeout w) ∙ s.once;
      })
    ]

    opened_once-opened : (b : Waiter) (w : W) → (opened_once db sleep b w).0.listener_opened ≡ true
    unfolding opened_once
    opened_once-opened b w = ground arith

    wait_for_work-IsSound :
        (first timeout : ℕ) (b : Waiter) (w : W)
        → IsSound first b w
        → IsSound first
            (wait_for_work db sleep timeout b w).1
            (wait_for_work db sleep timeout b w).2
    unfolding wait_for_work
    wait_for_work-IsSound first timeout b w s =
        waited-IsSound first timeout _ _ (opened_once-opened b w) (opened_once-IsSound first b w s)

    close_backend-IsSound :
        (first : ℕ) (b : Waiter) (w : W)
        → IsSound first b w
        → IsSound first
            (close_backend db delete_heartbeat b w).0
            (close_backend db delete_heartbeat b w).1
    unfolding close_backend close
    close_backend-IsSound first b w s =
        let w' : W = delete_heartbeat w in
        let (holds, same) =
          close-Held db seen d b.listener w'
            (ap (λ (v : Seen). v.opened) (seen-delete w) ∙ s.holds) in
        record {
          holds = holds;
          fresh = λ e. refl;
          once = same ∙ ap (λ (v : Seen). v.attempts) (seen-delete w) ∙ s.once;
        }

    run-IsSound :
        (first : ℕ) (calls : List Call) (b : Waiter) (w : W)
        → IsSound first b w
        → IsSound first (run calls b w).0 (run calls b w).1
    unfolding run
    run-IsSound first [] b w s = s
    run-IsSound first (waits timeout ∷ calls) b w s =
        run-IsSound first calls _ _ (wait_for_work-IsSound first timeout b w s)
    run-IsSound first (closes ∷ calls) b w s =
        run-IsSound first calls _ _ (close_backend-IsSound first b w s)

    -- However often a backend waits and is closed, and whatever fails in the driver, it asks for at
    -- most one connection to listen on; and what is open at the end is the one that it still holds,
    -- which is none if the last call closed it.
    pub run_connections :
        (calls : List Call) (l : Listener) (w : W)
        → l.conn ≡ none
        → (seen w).opened ≡ []
        → let (b, w') = run calls (record { listener_opened = false; listener = l }) w in
          ((seen w').attempts ≤ (seen w).attempts + 1)
          × ((seen w').opened ≡ held b.listener.conn)
          × ((seen (close_backend db delete_heartbeat b w').1).opened ≡ [])
    unfolding close_backend close
    run_connections calls l w free h =
        let start : Waiter = record { listener_opened = false; listener = l } in
        let s =
          run-IsSound (seen w).attempts calls start w
            (record { holds = h ∙ ap held (sym free); fresh = λ e. free; once = refl }) in
        (ground (arith, s.once), s.holds, (close_backend-IsSound (seen w).attempts _ _ s).holds)
