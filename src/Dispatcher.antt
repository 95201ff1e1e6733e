-- ===== src/Dispatcher.antt =====
-- The dispatcher's loop of src/dewey/dispatcher.py, over any backend and any transport. What these
-- do is a parameter: they act on a state `W` of all that is outside the dispatcher, and any call may
-- raise. A reading of a clock is a function of that state. The log lines, and the close
-- of the backend behind the loop, are left out.
pub mod Timing
pub mod Stranded
pub mod Accounts
use dewey.Prelude.{
  ℕ, zero, suc, ◌+◌, Bool, true, false, not, ◌&&◌, Option, none, some, List, [], ◌∷◌, ◌++◌, length,
  leb, ltb, max, ◌==◌, contains, keep, is_empty, if◌then◌else◌,
}
use dewey.Dispatcher.Timing.{
  BackoffState, note_failure, note_success, remaining_delay, SweepClock, due, bounded_wait,
}

-- `DispatchBackend`, `dispatch_fn`, the two clocks and the stop event. An operation that may raise
-- returns `none`, or `false`, where it did.
pub record Environment {ℓ} (W : Type ℓ) : Type ℓ where
  pub claim : ℕ → W → Option (List ℕ) × W
  pub release : List ℕ → W → Bool × W
  pub run_sweep : W → Bool × W
  pub heartbeat : Option (W → Bool × W)
  pub next_due : W → Option (Option ℕ) × W
  pub wait_for_work : ℕ → W → Bool × W
  pub dispatch_fn : ℕ → W → Bool × W
  pub monotonic : W → ℕ
  pub wall_clock : W → ℕ
  pub stop_wait : ℕ → W → W
  pub stopped : W → Bool

pub record Dispatcher : Type 0 where
  pub batch_size : ℕ
  pub idle_poll_seconds : ℕ
  pub health : BackoffState
  pub db_health : BackoffState
  pub sweep_clock : SweepClock
  pub heartbeat_clock : SweepClock
  pub pending_release : List ℕ

-- `list(dict.fromkeys(xs))`: each element once, where it stands first.
unfoldable pub unique : List ℕ → List ℕ
unique [] = []
unique (x ∷ xs) = x ∷ keep (λ y. not (y == x)) (unique xs)

-- What the loop does after an iteration.
pub data Next : Type 0 where
  pause : ℕ → Next
  at_once : Next
  wait : ℕ → Next

module _ {ℓ} {W : Type ℓ} (env : Environment W) where
  unfoldable pub release_quietly : List ℕ → Dispatcher → W → Dispatcher × W
  unfolding note_failure
  release_quietly task_ids d w =
      let (released, w') = env.release task_ids w in
      if released then (d, w') else (
        record d {
          pending_release = unique (d.pending_release ++ task_ids);
          db_health = note_failure (env.monotonic w') d.db_health;
        },
        w',
      )

  unfoldable pub retry_pending_release : Dispatcher → W → Bool × Dispatcher × W
  unfolding note_failure note_success
  retry_pending_release d w =
      let (released, w') = env.release d.pending_release w in
      if is_empty d.pending_release
      then (true, d, w)
      else if released
      then (true, record d { pending_release = []; db_health = note_success d.db_health }, w')
      else (false, record d { db_health = note_failure (env.monotonic w') d.db_health }, w')

  -- `for index, task_id in enumerate(task_ids)`: how many were accepted, and what is unsent when
  -- the transport raised.
  unfoldable pub dispatch_each : List ℕ → W → ℕ × List ℕ × W
  dispatch_each [] w = (0, [], w)
  dispatch_each (task_id ∷ rest) w =
      let (accepted, w') = env.dispatch_fn task_id w in
      let (sent, unsent, w'') = dispatch_each rest w' in
      if accepted then (suc sent, unsent, w'') else (0, task_id ∷ rest, w')

  -- Behind the claim: an empty claim and a batch that is sent whole both reset the transport's timing.
  unfoldable pub dispatch_claimed : List ℕ → Dispatcher → W → ℕ × Dispatcher × W
  unfolding release_quietly dispatch_each note_failure note_success
  dispatch_claimed task_ids d w =
      let (sent, unsent, w') = dispatch_each task_ids w in
      let (d', w'') = release_quietly unsent d w' in
      if is_empty unsent
      then (sent, record d { health = note_success d.health }, w')
      else (sent, record d' { health = note_failure (env.monotonic w'') d'.health }, w'')

  -- `none` where the claim raised.
  unfoldable pub batch_with : Option (List ℕ) → Dispatcher → W → Option ℕ × Dispatcher × W
  unfolding dispatch_claimed
  batch_with none d w = (none, d, w)
  batch_with (some task_ids) d w =
      let (sent, d', w') = dispatch_claimed task_ids d w in (some sent, d', w')

  unfoldable pub dispatch_batch : Dispatcher → W → Option ℕ × Dispatcher × W
  unfolding batch_with
  dispatch_batch d w = let (claimed, w') = env.claim d.batch_size w in batch_with claimed d w'

  unfoldable pub maybe_sweep : Dispatcher → W → Dispatcher × W
  unfolding due
  maybe_sweep d w =
      let (ready, clock) = due (env.monotonic w) d.sweep_clock in
      (record d { sweep_clock = clock }, if ready then (env.run_sweep w).1 else w)

  abbrev pub beat : Option (W → Bool × W) → W → W
  beat none w = w
  beat (some heartbeat) w = (heartbeat w).1

  unfoldable pub maybe_heartbeat : Dispatcher → W → Dispatcher × W
  unfolding due
  maybe_heartbeat d w =
      let (ready, clock) = due (env.monotonic w) d.heartbeat_clock in
      (record d { heartbeat_clock = clock }, if ready then beat env.heartbeat w else w)

  -- The end of an iteration: an upstream that is not healthy makes the loop pause for what is still
  -- owed to it, and a full batch skips the wait.
  unfoldable pub decide : Dispatcher → W → ℕ → ℕ → Next
  unfolding remaining_delay
  decide d w dispatched timeout =
      let now = env.monotonic w in
      let delay = max (remaining_delay now d.health) (remaining_delay now d.db_health) in
      if not (delay == 0)
      then pause delay
      else if leb d.batch_size dispatched
      then at_once
      else wait timeout

  -- `except Exception`
  abbrev pub failed_iteration : Dispatcher → W → Next × Dispatcher × W
  unfolding note_failure decide
  failed_iteration d w =
      let d' = record d { db_health = note_failure (env.monotonic w) d.db_health } in
      (decide d' w 0 d.idle_poll_seconds, d', w)

  -- `else`
  abbrev pub ended_iteration : ℕ → Option ℕ → Dispatcher → W → Next × Dispatcher × W
  unfolding note_success bounded_wait decide
  ended_iteration dispatched due_at d w =
      let d' =
        if is_empty d.pending_release
        then record d { db_health = note_success d.db_health }
        else d in
      (decide d' w dispatched (bounded_wait d.idle_poll_seconds due_at (env.wall_clock w)), d', w)

  unfoldable pub conclude_with : ℕ → Option (Option ℕ) → Dispatcher → W → Next × Dispatcher × W
  unfolding failed_iteration ended_iteration
  conclude_with dispatched none d w = failed_iteration d w
  conclude_with dispatched (some due_at) d w = ended_iteration dispatched due_at d w

  -- The rest of the `try` once the batch is over, where nothing has been raised.
  unfoldable pub conclude : Option ℕ → Dispatcher → W → Next × Dispatcher × W
  unfolding failed_iteration conclude_with
  conclude none d w = failed_iteration d w
  conclude (some dispatched) d w =
      let (next, w') = env.next_due w in conclude_with dispatched next d w'

  -- `dispatch_batch`, unless a stranded release pauses claiming.
  unfoldable pub batch_if : Bool → Dispatcher → W → Option ℕ × Dispatcher × W
  unfolding dispatch_batch
  batch_if true d w = dispatch_batch d w
  batch_if false d w = (some 0, d, w)

  -- One turn of the loop, up to the wait at its end.
  unfoldable pub iteration : Dispatcher → W → Next × Dispatcher × W
  unfolding retry_pending_release maybe_heartbeat maybe_sweep batch_if conclude
  iteration d w =
      let (release_ready, d₁, w₁) = retry_pending_release d w in
      let (d₂, w₂) = maybe_heartbeat d₁ w₁ in
      let (d₃, w₃) = maybe_sweep d₂ w₂ in
      let (dispatched, d₄, w₄) = batch_if release_ready d₃ w₃ in conclude dispatched d₄ w₄

  -- `wait_for_work` stands outside the `try`: where it raises, the loop is left.
  abbrev pub do_next : Next → W → Bool × W
  do_next (pause delay) w = (true, env.stop_wait delay w)
  do_next at_once w = (true, w)
  do_next (wait timeout) w = env.wait_for_work timeout w

  -- `run(max_iterations=…)`.
  unfoldable pub run : ℕ → Dispatcher → W → Dispatcher × W
  unfolding iteration
  run zero d w = (d, w)
  run (suc n) d w =
      let (next, d', w') = iteration d w in
      let (goes_on, w'') = do_next next w' in
      let rest = run n d' w'' in
      if env.stopped w then (d, w) else if goes_on then rest else (d', w'')
