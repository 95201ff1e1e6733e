-- ===== src/Examples/Loops.antt =====
-- The dispatcher with a transport that refuses the id 4, over a database that refuses the release.
use dewey.Prelude.{
  ◌++◌, ℕ, suc, ◌+◌, ◌≤◌, ◌≡◌, refl, ◌⊎◌, true, false, not, none, some, List, [], ◌∷◌, length,
  contains, ◌==◌, take, arith, length-take-le,
}
use dewey.Dispatcher.{Environment, Dispatcher, unique, dispatch_batch, run}
use dewey.Dispatcher.Timing.{BackoffState, SweepClock}
use dewey.Dispatcher.Stranded.{run_bounded}
use dewey.Dispatcher.Accounts.{Accepts, after, Stops, behind, batch_accounts}
use dewey.AsyncDispatcher.{loop}
use dewey.AsyncDispatcher.Twin.{lifted, left_by, loop-eq}

-- The state outside is the time.
abbrev environment : Environment ℕ
environment = record {
  claim = λ limit w. (some (take limit (3 ∷ 4 ∷ 5 ∷ [])), suc w);
  release = λ task_ids w. (false, suc w);
  run_sweep = λ w. (true, suc w);
  heartbeat = none;
  next_due = λ w. (some none, suc w);
  wait_for_work = λ timeout w. (true, w + timeout);
  dispatch_fn = λ task_id w. (not (task_id == 4), suc w);
  monotonic = λ w. w;
  wall_clock = λ w. w;
  stop_wait = λ delay w. w + delay;
  stopped = λ w. false;
}

abbrev healthy : BackoffState
healthy = record { base_seconds = 10; cap_seconds = 60; retry_delay = 0; retry_at = 0 }

abbrev hourly : SweepClock
hourly = record { interval_seconds = some 100; last = none }

abbrev dispatcher : Dispatcher
dispatcher = record {
  batch_size = 3;
  idle_poll_seconds = 20;
  health = healthy;
  db_health = healthy;
  sweep_clock = hourly;
  heartbeat_clock = hourly;
  pending_release = [];
}

stranded : (dispatch_batch environment dispatcher 0).1.pending_release ≡ 4 ∷ 5 ∷ []
unfolding dispatch_batch unique
stranded = refl

limited :
    (limit w : ℕ) (task_ids : List ℕ)
    → (environment.claim limit w).0 ≡ some task_ids
    → length task_ids ≤ limit
limited limit w task_ids h =
    let same : take limit (3 ∷ 4 ∷ 5 ∷ []) ≡ task_ids = cc h in
    rw⁻¹ same (length-take-le limit (3 ∷ 4 ∷ 5 ∷ []))

run_bounded_example :
    length (run environment 4 dispatcher 0).0.pending_release
    ≤ (run environment 4 dispatcher 0).0.batch_size
run_bounded_example = run_bounded environment limited 4 dispatcher 0 (omega arith)

batch_accounts_example :
    (handed : List ℕ) × (rest : List ℕ) × (3 ∷ 4 ∷ 5 ∷ [] ≡ handed ++ rest)
    × Accepts environment handed 1
    × Stops environment rest (after environment handed 1)
    × ((dispatch_batch environment dispatcher 0).0 ≡ some (length handed))
    × ((i : ℕ)
        → contains i rest ≡ true
        → ((environment.release rest (behind environment rest (after environment handed 1))).0
            ≡ true)
          ⊎ (contains i (dispatch_batch environment dispatcher 0).1.pending_release ≡ true))
batch_accounts_example = batch_accounts environment dispatcher 0 (3 ∷ 4 ∷ 5 ∷ []) refl

loop-eq_example :
    left_by (loop (lifted environment) 4 dispatcher 0) ≡ run environment 4 dispatcher 0
loop-eq_example = loop-eq environment 4 dispatcher 0
