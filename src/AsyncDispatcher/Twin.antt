-- ===== src/AsyncDispatcher/Twin.antt =====
-- The two loops, where nothing is cancelled.
use dewey.Prelude.{
  Await, returned, raised, ℕ, zero, suc, ◌≡◌, refl, Bool, true, false, Option, none, some, List, [],
  ◌∷◌, is_empty, Bool-cases, Option-cases, inl, inr,
}
use dewey.Dispatcher
use dewey.Dispatcher.{Environment, Dispatcher, Next, pause, at_once, wait}
use dewey.Dispatcher.Timing.{due}
use dewey.AsyncDispatcher.{
  Done, AsyncEnvironment, after_await, release_quietly, retry_pending_release, dispatch_each,
  end_batch, dispatch_claimed, dispatch_batch, maybe_sweep, beat, maybe_heartbeat, batch_if,
  attempt, decide, conclude, iteration, do_next, loop,
}

-- A call that raised, or returned.
abbrev pub answer_of : Bool → Done
answer_of true = returned tt
answer_of false = raised

abbrev pub value_of {ℓ} : {A : Type ℓ} → Option A → Await A
value_of none = raised
value_of (some a) = returned a

-- What a loop leaves, however it ends.
abbrev pub left_by {ℓ} : {W : Type ℓ} → Done × Dispatcher × W → Dispatcher × W
left_by r = let (answer, d, w) = r in (d, w)

module _ {ℓ} {W : Type ℓ} (env : Environment W) where
  -- The backend, the transport and the clocks of a synchronous dispatcher, awaited.
  abbrev pub lifted : AsyncEnvironment W
  lifted = record {
    claim = λ n w. let (ids, w') = env.claim n w in (value_of ids, w');
    release = λ ids w. let (done, w') = env.release ids w in (answer_of done, w');
    run_sweep = λ w. let (done, w') = env.run_sweep w in (answer_of done, w');
    heartbeat = elim env.heartbeat [
      | none ↦ none
      | some beats ↦ some (λ w. let (done, w') = beats w in (answer_of done, w'))
    ];
    next_due = λ w. let (at, w') = env.next_due w in (value_of at, w');
    wait_for_work = λ n w. let (done, w') = env.wait_for_work n w in (answer_of done, w');
    close = λ w. (returned tt, w);
    dispatch_fn = λ i w. let (done, w') = env.dispatch_fn i w in (answer_of done, w');
    monotonic = env.monotonic;
    wall_clock = env.wall_clock;
    stop_wait = λ n w. (returned tt, env.stop_wait n w);
    stopped = env.stopped;
  }

  abbrev done_of : Dispatcher × W → Done × Dispatcher × W
  done_of r = let (d, w) = r in (returned tt, d, w)

  release_quietly-eq :
      (ids : List ℕ) (d : Dispatcher) (w : W)
      → release_quietly lifted ids d w ≡ done_of (Dispatcher.release_quietly env ids d w)
  unfolding release_quietly Dispatcher.release_quietly
  release_quietly-eq ids d w = elim (Bool-cases (env.release ids w).0) [
    | inl y ↦ rw (y, release_quietly) refl
    | inr n ↦ rw (n, release_quietly) refl
  ]

  abbrev bool_of : Bool × Dispatcher × W → Await Bool × Dispatcher × W
  bool_of r = let (b, d, w) = r in (returned b, d, w)

  retry_pending_release-eq :
      (d : Dispatcher) (w : W)
      → retry_pending_release lifted d w ≡ bool_of (Dispatcher.retry_pending_release env d w)
  unfolding retry_pending_release Dispatcher.retry_pending_release
  retry_pending_release-eq d w = elim (Bool-cases (is_empty d.pending_release)) [
    | inl e ↦ rw (e, retry_pending_release) refl
    | inr e ↦ elim (Bool-cases (env.release d.pending_release w).0) [
      | inl y ↦ rw (e, y, retry_pending_release) refl
      | inr n ↦ rw (e, n, retry_pending_release) refl
    ]
  ]

  -- How a batch ends: the last call raised if anything is left.
  abbrev ended : ℕ × List ℕ × W → ℕ × List ℕ × Done × W
  ended r = let (sent, unsent, w) = r in (sent, unsent, answer_of (is_empty unsent), w)

  dispatch_each-eq :
      (ids : List ℕ) (w : W)
      → dispatch_each lifted ids w ≡ ended (Dispatcher.dispatch_each env ids w)
  unfolding dispatch_each Dispatcher.dispatch_each
  dispatch_each-eq [] w = refl
  dispatch_each-eq (i ∷ ids) w = elim (Bool-cases (env.dispatch_fn i w).0) [
    | inl y ↦ rw (y, dispatch_each, dispatch_each-eq ids (env.dispatch_fn i w).1) refl
    | inr n ↦ rw (n, dispatch_each) refl
  ]

  abbrev count_of : ℕ × Dispatcher × W → Await ℕ × Dispatcher × W
  count_of r = let (n, d, w) = r in (returned n, d, w)

  dispatch_claimed-eq :
      (ids : List ℕ) (d : Dispatcher) (w : W)
      → dispatch_claimed lifted ids d w ≡ count_of (Dispatcher.dispatch_claimed env ids d w)
  unfolding dispatch_claimed end_batch Dispatcher.dispatch_claimed
  dispatch_claimed-eq ids d w =
      let (sent, unsent, w') = Dispatcher.dispatch_each env ids w in
      rw (dispatch_each-eq ids w) (elim (Bool-cases (is_empty unsent)) [
        | inl e ↦ rw e refl
        | inr e ↦ rw (e, release_quietly-eq unsent d w') refl
      ])

  abbrev maybe_of : Option ℕ × Dispatcher × W → Await ℕ × Dispatcher × W
  maybe_of r = let (n, d, w) = r in (value_of n, d, w)

  dispatch_batch-eq :
      (d : Dispatcher) (w : W)
      → dispatch_batch lifted d w ≡ maybe_of (Dispatcher.dispatch_batch env d w)
  unfolding dispatch_batch Dispatcher.dispatch_batch Dispatcher.batch_with
  dispatch_batch-eq d w = elim (Option-cases (env.claim d.batch_size w).0) [
    | inl nothing ↦ rw nothing refl
    | inr (ids, e) ↦ rw e (dispatch_claimed-eq ids d (env.claim d.batch_size w).1)
  ]

  maybe_sweep-eq :
      (d : Dispatcher) (w : W) → maybe_sweep lifted d w ≡ done_of (Dispatcher.maybe_sweep env d w)
  unfolding maybe_sweep Dispatcher.maybe_sweep
  maybe_sweep-eq d w = elim (Bool-cases (due (env.monotonic w) d.sweep_clock).0) [
    | inr n ↦ rw (n, maybe_sweep) refl
    | inl y ↦ elim (Bool-cases (env.run_sweep w).0) [
      | inl done ↦ rw (y, done, maybe_sweep) refl
      | inr failed ↦ rw (y, failed, maybe_sweep) refl
    ]
  ]

  beat-eq :
      (o : Option (W → Bool × W)) (w : W)
      → beat lifted
          (elim o [
            | none ↦ none
            | some beats ↦ some (λ w. let (done, w') = beats w in (answer_of done, w'))
          ])
          w
        ≡ (returned tt, Dispatcher.beat env o w)
  beat-eq none w = refl
  beat-eq (some beats) w = elim (Bool-cases (beats w).0) [
    | inl done ↦ rw done refl
    | inr failed ↦ rw failed refl
  ]

  maybe_heartbeat-eq :
      (d : Dispatcher) (w : W)
      → maybe_heartbeat lifted d w ≡ done_of (Dispatcher.maybe_heartbeat env d w)
  unfolding maybe_heartbeat Dispatcher.maybe_heartbeat
  maybe_heartbeat-eq d w = elim (Bool-cases (due (env.monotonic w) d.heartbeat_clock).0) [
    | inr n ↦ rw (n, maybe_heartbeat) refl
    | inl y ↦ rw (y, maybe_heartbeat, beat-eq env.heartbeat w) refl
  ]

  batch_if-eq :
      (ready : Bool) (d : Dispatcher) (w : W)
      → batch_if lifted ready d w ≡ maybe_of (Dispatcher.batch_if env ready d w)
  unfolding batch_if Dispatcher.batch_if
  batch_if-eq true d w = dispatch_batch-eq d w
  batch_if-eq false d w = refl

  abbrev next_of : Next × Dispatcher × W → Await Next × Dispatcher × W
  next_of r = let (next, d, w) = r in (returned next, d, w)

  -- The rest of an iteration behind its batch.
  abbrev closing : Await ℕ × Dispatcher × W → Await Next × Dispatcher × W
  closing r =
      let (tried, d₁, w₁) = after_await r (λ dispatched d₃ w₃.
        let (due_at, w₄) = lifted.next_due w₃ in
        after_await (due_at, d₃, w₄) (λ at d₄ w₅. (returned (dispatched, at), d₄, w₅))) in
      conclude lifted tried d₁ w₁

  closing-eq :
      (o : Option ℕ) (d : Dispatcher) (w : W)
      → closing (value_of o, d, w) ≡ next_of (Dispatcher.conclude env o d w)
  unfolding conclude decide Dispatcher.conclude Dispatcher.conclude_with Dispatcher.decide
  closing-eq none d w = refl
  closing-eq (some n) d w = elim (Option-cases (env.next_due w).0) [
    | inl failed ↦ rw failed refl
    | inr (at, e) ↦ rw e refl
  ]

  iteration-eq :
      (d : Dispatcher) (w : W) → iteration lifted d w ≡ next_of (Dispatcher.iteration env d w)
  unfolding iteration attempt Dispatcher.iteration
  iteration-eq d w =
      let (ready, d₁, w₁) = Dispatcher.retry_pending_release env d w in
      let (d₂, w₂) = Dispatcher.maybe_heartbeat env d₁ w₁ in
      let (d₃, w₃) = Dispatcher.maybe_sweep env d₂ w₂ in
      let (dispatched, d₄, w₄) = Dispatcher.batch_if env ready d₃ w₃ in
      rw
        (
          retry_pending_release-eq d w,
          maybe_heartbeat-eq d₁ w₁,
          maybe_sweep-eq d₂ w₂,
          batch_if-eq ready d₃ w₃,
        )
        (closing-eq dispatched d₄ w₄)

  do_next-eq :
      (next : Next) (w : W)
      → do_next lifted next w
        ≡ (answer_of (Dispatcher.do_next env next w).0, (Dispatcher.do_next env next w).1)
  unfolding do_next
  do_next-eq (pause delay) w = refl
  do_next-eq at_once w = refl
  do_next-eq (wait timeout) w = refl

  -- The two loops are behaviourally identical: over a backend and a transport of which no call is
  -- cancelled, the asyncio loop leaves the dispatcher and all that is outside it in the state in which
  -- the synchronous loop leaves them, whatever fails on the way.
  pub loop-eq :
      (n : ℕ) (d : Dispatcher) (w : W) → left_by (loop lifted n d w) ≡ Dispatcher.run env n d w
  unfolding loop Dispatcher.run
  loop-eq zero d w = refl
  loop-eq (suc n) d w =
      let (next, d₁, w₁) = Dispatcher.iteration env d w in
      let (goes_on, w₂) = Dispatcher.do_next env next w₁ in
      elim (Bool-cases (env.stopped w)) [
        | inl y ↦ rw (y, loop) refl
        | inr no_ ↦ elim (Bool-cases goes_on) [
          | inl more ↦ rw (no_, loop, iteration-eq d w, do_next-eq next w₁, more) (loop-eq n d₁ w₂)
          | inr over ↦ rw (no_, loop, iteration-eq d w, do_next-eq next w₁, over) refl
        ]
      ]
