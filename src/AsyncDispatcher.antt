-- ===== src/AsyncDispatcher.antt =====
-- The asyncio loop of src/dewey/dispatcher.py, `AsyncDispatcher`, over any asynchronous backend and
-- transport. Each `await` may return, raise, or be cancelled; `except Exception` does not catch a
-- cancellation. The state is that of the synchronous dispatcher. The log lines are left out.
pub mod Twin
pub mod Cancelled
use dewey.Prelude.{
  ℕ, zero, suc, ◌+◌, Bool, true, false, not, ◌&&◌, Option, none, some, List, [], ◌∷◌, ◌++◌, leb,
  max, ◌==◌, is_empty, if◌then◌else◌, Await, returned, raised, cancelled,
}
use dewey.Dispatcher.{Dispatcher, unique, Next, pause, at_once, wait}
use dewey.Dispatcher.Timing.{note_failure, note_success, remaining_delay, due, bounded_wait}

abbrev pub Done : Type 0
Done = Await (Unit {0})

-- `AsyncDispatchBackend`, `dispatch_fn`, the two clocks and the stop event.
pub record AsyncEnvironment {ℓ} (W : Type ℓ) : Type ℓ where
  pub claim : ℕ → W → Await (List ℕ) × W
  pub release : List ℕ → W → Done × W
  pub run_sweep : W → Done × W
  pub heartbeat : Option (W → Done × W)
  pub next_due : W → Await (Option ℕ) × W
  pub wait_for_work : ℕ → W → Done × W
  pub close : W → Done × W
  pub dispatch_fn : ℕ → W → Done × W
  pub monotonic : W → ℕ
  pub wall_clock : W → ℕ
  pub stop_wait : ℕ → W → Done × W
  pub stopped : W → Bool

-- What comes after an `await` is done only where that returned.
abbrev pub after_await {ℓ κ ι} :
    {A : Type ℓ} {B : Type κ} {W : Type ι}
    → Await A × Dispatcher × W
    → (A → Dispatcher → W → Await B × Dispatcher × W)
    → Await B × Dispatcher × W
after_await r k =
    let (answer, d, w) = r in
    elim answer [ returned a ↦ k a d w | raised ↦ (raised, d, w) | cancelled ↦ (cancelled, d, w) ]

-- `try: await … except Exception: <log>`
abbrev pub quietly {ℓ} : {A : Type ℓ} → Await A → Done
quietly (returned a) = returned tt
quietly raised = returned tt
quietly cancelled = cancelled

module _ {ℓ} {W : Type ℓ} (env : AsyncEnvironment W) where
  unfoldable pub release_quietly : List ℕ → Dispatcher → W → Done × Dispatcher × W
  unfolding note_failure
  release_quietly task_ids d w =
      let (answer, w') = env.release task_ids w in
      elim answer [
        | returned _ ↦ (returned tt, d, w')
        | raised ↦ (
          returned tt,
          record d {
            pending_release = unique (d.pending_release ++ task_ids);
            db_health = note_failure (env.monotonic w') d.db_health;
          },
          w',
        )
        | cancelled ↦ (cancelled, d, w')
      ]

  -- `task_ids, self._pending_release = self._pending_release, []` comes before the `await`.
  unfoldable pub retry_pending_release : Dispatcher → W → Await Bool × Dispatcher × W
  unfolding note_failure note_success
  retry_pending_release d w =
      let (answer, w') = env.release d.pending_release w in
      elim (is_empty d.pending_release) [
        | true ↦ (returned true, d, w)
        | false ↦ elim answer [
          | returned _ ↦ (
            returned true,
            record d { pending_release = []; db_health = note_success d.db_health },
            w',
          )
          | raised ↦ (
            returned false,
            record d { db_health = note_failure (env.monotonic w') d.db_health },
            w',
          )
          | cancelled ↦ (cancelled, record d { pending_release = [] }, w')
        ]
      ]

  -- How many were accepted, what is left, and how the last call ended.
  unfoldable pub dispatch_each : List ℕ → W → ℕ × List ℕ × Done × W
  dispatch_each [] w = (0, [], returned tt, w)
  dispatch_each (task_id ∷ rest) w =
      let (answer, w') = env.dispatch_fn task_id w in
      let (sent, unsent, last, w'') = dispatch_each rest w' in
      elim answer [
        | returned _ ↦ (suc sent, unsent, last, w'')
        | raised ↦ (0, task_id ∷ rest, raised, w')
        | cancelled ↦ (0, task_id ∷ rest, cancelled, w')
      ]

  -- Behind the loop over the batch: a cancellation leaves at once, and releases nothing.
  unfoldable pub end_batch : Done → ℕ → List ℕ → Dispatcher → W → Await ℕ × Dispatcher × W
  unfolding release_quietly note_failure note_success
  end_batch (returned _) sent unsent d w =
      (returned sent, record d { health = note_success d.health }, w)
  end_batch raised sent unsent d w = after_await (release_quietly unsent d w) (λ _ d' w'.
      (returned sent, record d' { health = note_failure (env.monotonic w') d'.health }, w'))
  end_batch cancelled sent unsent d w = (cancelled, d, w)

  unfoldable pub dispatch_claimed : List ℕ → Dispatcher → W → Await ℕ × Dispatcher × W
  unfolding dispatch_each end_batch
  dispatch_claimed task_ids d w =
      let (sent, unsent, last, w') = dispatch_each task_ids w in end_batch last sent unsent d w'

  unfoldable pub dispatch_batch : Dispatcher → W → Await ℕ × Dispatcher × W
  unfolding dispatch_claimed
  dispatch_batch d w =
      let (claimed, w') = env.claim d.batch_size w in after_await (claimed, d, w') dispatch_claimed

  unfoldable pub maybe_sweep : Dispatcher → W → Done × Dispatcher × W
  unfolding due
  maybe_sweep d w =
      let (ready, clock) = due (env.monotonic w) d.sweep_clock in
      let (answer, w') = env.run_sweep w in
      let d' = record d { sweep_clock = clock } in
      elim ready [ true ↦ (quietly answer, d', w') | false ↦ (returned tt, d', w) ]

  abbrev pub beat : Option (W → Done × W) → W → Done × W
  beat none w = (returned tt, w)
  beat (some heartbeat) w = (quietly (heartbeat w).0, (heartbeat w).1)

  unfoldable pub maybe_heartbeat : Dispatcher → W → Done × Dispatcher × W
  unfolding due
  maybe_heartbeat d w =
      let (ready, clock) = due (env.monotonic w) d.heartbeat_clock in
      let (answer, w') = beat env.heartbeat w in
      let d' = record d { heartbeat_clock = clock } in
      elim ready [ true ↦ (answer, d', w') | false ↦ (returned tt, d', w) ]

  -- `dispatch_batch`, unless a stranded release pauses claiming.
  unfoldable pub batch_if : Bool → Dispatcher → W → Await ℕ × Dispatcher × W
  unfolding dispatch_batch
  batch_if true d w = dispatch_batch d w
  batch_if false d w = (returned 0, d, w)

  -- The body of the `try`.
  unfoldable pub attempt : Bool → Dispatcher → W → Await (ℕ × Option ℕ) × Dispatcher × W
  unfolding maybe_heartbeat maybe_sweep batch_if
  attempt release_ready d w = after_await (maybe_heartbeat d w) (λ _ d₁ w₁.
      after_await (maybe_sweep d₁ w₁) (λ _ d₂ w₂.
        after_await (batch_if release_ready d₂ w₂) (λ dispatched d₃ w₃.
          let (due_at, w₄) = env.next_due w₃ in
          after_await (due_at, d₃, w₄) (λ at d₄ w₅. (returned (dispatched, at), d₄, w₅)))))

  unfoldable pub decide : Dispatcher → W → ℕ → ℕ → Next
  unfolding remaining_delay
  decide d w dispatched timeout =
      let now = env.monotonic w in
      let delay = max (remaining_delay now d.health) (remaining_delay now d.db_health) in
      if not (delay == 0)
      then pause delay
      else if leb d.batch_size dispatched
      then at_once
      else wait timeout

  -- `except asyncio.CancelledError: raise`, `except Exception` and `else`.
  unfoldable pub conclude : Await (ℕ × Option ℕ) → Dispatcher → W → Await Next × Dispatcher × W
  unfolding note_failure note_success bounded_wait decide
  conclude (returned r) d w =
      let d' =
        if is_empty d.pending_release
        then record d { db_health = note_success d.db_health }
        else d in
      let timeout = bounded_wait d.idle_poll_seconds r.1 (env.wall_clock w) in
      (returned (decide d' w r.0 timeout), d', w)
  conclude raised d w =
      let d' = record d { db_health = note_failure (env.monotonic w) d.db_health } in
      (returned (decide d' w 0 d.idle_poll_seconds), d', w)
  conclude cancelled d w = (cancelled, d, w)

  unfoldable pub iteration : Dispatcher → W → Await Next × Dispatcher × W
  unfolding retry_pending_release attempt conclude
  iteration d w = after_await (retry_pending_release d w) (λ release_ready d₁ w₁.
      let (tried, d₂, w₂) = attempt release_ready d₁ w₁ in conclude tried d₂ w₂)

  unfoldable pub do_next : Next → W → Done × W
  do_next (pause delay) w = env.stop_wait delay w
  do_next at_once w = (returned tt, w)
  do_next (wait timeout) w = env.wait_for_work timeout w

  -- The `while` of `run(max_iterations=…)`.
  unfoldable pub loop : ℕ → Dispatcher → W → Done × Dispatcher × W
  unfolding iteration do_next
  loop zero d w = (returned tt, d, w)
  loop (suc n) d w = elim (env.stopped w) [
    | true ↦ (returned tt, d, w)
    | false ↦ after_await (iteration d w) (λ next d₁ w₁.
        let (waited, w₂) = do_next next w₁ in
        after_await (waited, d₁, w₂) (λ _ d₂ w₃. loop n d₂ w₃))
  ]

  -- `finally: await self.backend.close()`, whose exception replaces the one on its way.
  unfoldable pub run : ℕ → Dispatcher → W → Done × Dispatcher × W
  unfolding loop
  run n d w =
      let (answer, d', w') = loop n d w in
      let (closed, w'') = env.close w' in
      (elim closed [ returned _ ↦ answer | raised ↦ raised | cancelled ↦ cancelled ], d', w'')
