-- ===== src/Dispatcher/Stranded.antt =====
-- The claims that the dispatcher could not hand to the transport.
use dewey.Prelude.{
  ℕ, zero, suc, ◌≤◌, ◌≡◌, refl, sym, ◌∙◌, ◌⊎◌, inl, inr, Bool, true, false, not, ◌||◌, Option, none,
  some, List, [], ◌∷◌, ◌++◌, length, drop, ◌==◌, contains, keep, is_empty, arith, Bool-cases,
  length-keep-le, nil_of_is_empty,
}
use dewey.Dispatcher.{
  Environment, Dispatcher, unique, release_quietly, retry_pending_release, dispatch_each,
  dispatch_claimed, dispatch_batch, maybe_sweep, maybe_heartbeat, failed_iteration, ended_iteration,
  conclude, conclude_with, batch_with, batch_if, iteration, run, do_next,
}

length-unique-le : (xs : List ℕ) → length (unique xs) ≤ length xs
unfolding unique
length-unique-le [] = omega arith
length-unique-le (x ∷ xs) =
    omega (arith, length-unique-le xs, length-keep-le (λ y. not (y == x)) (unique xs))

contains-keep_other :
    (i x : ℕ) (xs : List ℕ)
    → (i == x) ≡ false
    → contains i (keep (λ y. not (y == x)) xs) ≡ contains i xs
contains-keep_other i x [] h = refl
contains-keep_other i x (y ∷ xs) h = ground (arith, contains-keep_other i x xs h)

pub contains-unique : (i : ℕ) (xs : List ℕ) → contains i (unique xs) ≡ contains i xs
unfolding unique
contains-unique i [] = refl
contains-unique i (x ∷ xs) = elim (Bool-cases (i == x)) [
  | inl e ↦ rw e refl
  | inr e ↦ rw e (contains-keep_other i x (unique xs) e ∙ contains-unique i xs)
]

pub contains-append :
    (i : ℕ) (xs ys : List ℕ) → contains i (xs ++ ys) ≡ (contains i xs || contains i ys)
contains-append i [] ys = refl
contains-append i (x ∷ xs) ys = ground (arith, contains-append i xs ys)

length-drop-le : (n : ℕ) (xs : List ℕ) → length (drop n xs) ≤ length xs
length-drop-le zero xs = omega arith
length-drop-le (suc n) [] = omega arith
length-drop-le (suc n) (x ∷ xs) = omega (arith, length-drop-le n xs)

-- What no part of an iteration but the batch and the retried release changes.
abbrev pub Same : Dispatcher → Dispatcher → Type 0
Same d d' = (d'.batch_size ≡ d.batch_size) × (d'.pending_release ≡ d.pending_release)

module _ {ℓ} {W : Type ℓ} (env : Environment W) where
  -- The transport has accepted the first `sent` ids, and the others are unsent.
  pub dispatch_each_split :
      (task_ids : List ℕ) (w : W)
      → (dispatch_each env task_ids w).1 ≡ drop (dispatch_each env task_ids w).0 task_ids
  unfolding dispatch_each
  dispatch_each_split [] w = refl
  dispatch_each_split (i ∷ rest) w = elim (Bool-cases (env.dispatch_fn i w).0) [
    | inl y ↦ rw y (dispatch_each_split rest (env.dispatch_fn i w).1)
    | inr n ↦ rw n refl
  ]

  retry_cases :
      (d : Dispatcher) (w : W)
      → let r = retry_pending_release env d w in
        (r.1.batch_size ≡ d.batch_size)
        × (((r.0 ≡ true) × (r.1.pending_release ≡ []))
            ⊎ ((r.0 ≡ false) × (r.1.pending_release ≡ d.pending_release)))
  unfolding retry_pending_release
  retry_cases d w = elim (Bool-cases (is_empty d.pending_release)) [
    | inl e ↦ rw e (refl, inl (refl, sym (nil_of_is_empty d.pending_release e)))
    | inr e ↦ rw e (elim (Bool-cases (env.release d.pending_release w).0) [
      | inl y ↦ rw y (refl, inl (refl, refl))
      | inr n ↦ rw n (refl, inr (refl, refl))
    ])
  ]

  sweep_Same : (d : Dispatcher) (w : W) → Same d (maybe_sweep env d w).0
  unfolding maybe_sweep
  sweep_Same d w = (refl, refl)

  heartbeat_Same : (d : Dispatcher) (w : W) → Same d (maybe_heartbeat env d w).0
  unfolding maybe_heartbeat
  heartbeat_Same d w = (refl, refl)

  failed_Same : (d : Dispatcher) (w : W) → Same d (failed_iteration env d w).1
  unfolding failed_iteration
  failed_Same d w = (refl, refl)

  ended_Same :
      (sent : ℕ) (due_at : Option ℕ) (d : Dispatcher) (w : W)
      → Same d (ended_iteration env sent due_at d w).1
  unfolding ended_iteration
  ended_Same sent due_at d w = elim (Bool-cases (is_empty d.pending_release)) [
    | inl e ↦ rw e (refl, refl)
    | inr e ↦ rw e (refl, refl)
  ]

  conclude_with-Same :
      (sent : ℕ) (o : Option (Option ℕ)) (d : Dispatcher) (w : W)
      → Same d (conclude_with env sent o d w).1
  unfolding conclude_with
  conclude_with-Same sent none d w = failed_Same d w
  conclude_with-Same sent (some due_at) d w = ended_Same sent due_at d w

  conclude-Same : (o : Option ℕ) (d : Dispatcher) (w : W) → Same d (conclude env o d w).1
  unfolding conclude
  conclude-Same none d w = failed_Same d w
  conclude-Same (some sent) d w = conclude_with-Same sent (env.next_due w).0 d (env.next_due w).1

  released_length :
      (task_ids : List ℕ) (d : Dispatcher) (w : W)
      → d.pending_release ≡ []
      → let d' = (release_quietly env task_ids d w).0 in
        (d'.batch_size ≡ d.batch_size) × (length d'.pending_release ≤ length task_ids)
  unfolding release_quietly
  released_length task_ids d w h = elim (Bool-cases (env.release task_ids w).0) [
    | inl y ↦ rw y (refl, rw h (omega arith))
    | inr n ↦ rw n (refl, rw h (length-unique-le task_ids))
  ]

  claimed_length :
      (task_ids : List ℕ) (d : Dispatcher) (w : W)
      → d.pending_release ≡ []
      → let d' = (dispatch_claimed env task_ids d w).1 in
        (d'.batch_size ≡ d.batch_size) × (length d'.pending_release ≤ length task_ids)
  unfolding dispatch_claimed
  claimed_length task_ids d w h =
      let unsent = (dispatch_each env task_ids w).1 in
      let (size, short) = released_length unsent d (dispatch_each env task_ids w).2 h in
      let part : length unsent ≤ length task_ids =
        rw (dispatch_each_split task_ids w) (length-drop-le _ task_ids) in
      elim (Bool-cases (is_empty unsent)) [
        | inl e ↦ rw e (refl, rw h (omega arith))
        | inr e ↦ rw e (size, omega (arith, short, part))
      ]

  module _
      (limited : (limit : ℕ) (w : W) (task_ids : List ℕ)
        → (env.claim limit w).0 ≡ some task_ids
        → length task_ids ≤ limit) where
    abbrev IsBounded : Dispatcher → Type 0
    IsBounded d = length d.pending_release ≤ d.batch_size

    batch_with-IsBounded :
        (o : Option (List ℕ)) (d : Dispatcher) (w : W)
        → d.pending_release ≡ []
        → ((task_ids : List ℕ) → o ≡ some task_ids → length task_ids ≤ d.batch_size)
        → let d' = (batch_with env o d w).1 in (d'.batch_size ≡ d.batch_size) × IsBounded d'
    unfolding batch_with
    batch_with-IsBounded none d w h l = (refl, rw h (omega arith))
    batch_with-IsBounded (some task_ids) d w h l =
        let (size, short) = claimed_length task_ids d w h in
        (size, omega (arith, size, short, l task_ids refl))

    batch-IsBounded :
        (d : Dispatcher) (w : W)
        → d.pending_release ≡ []
        → let d' = (dispatch_batch env d w).1 in (d'.batch_size ≡ d.batch_size) × IsBounded d'
    unfolding dispatch_batch
    batch-IsBounded d w h =
        batch_with-IsBounded (env.claim d.batch_size w).0 d (env.claim d.batch_size w).1 h
          (λ task_ids e. limited d.batch_size w task_ids e)

    batch_if-IsBounded :
        (ready : Bool) (d : Dispatcher) (w : W)
        → (ready ≡ true → d.pending_release ≡ [])
        → IsBounded d
        → let d' = (batch_if env ready d w).1 in (d'.batch_size ≡ d.batch_size) × IsBounded d'
    unfolding batch_if
    batch_if-IsBounded true d w h b = batch-IsBounded d w (h refl)
    batch_if-IsBounded false d w h b = (refl, b)

    concluded-IsBounded :
        (o : Option ℕ) (d : Dispatcher) (w : W)
        → IsBounded d
        → let d' = (conclude env o d w).1 in (d'.batch_size ≡ d.batch_size) × IsBounded d'
    concluded-IsBounded o d w b =
        let (size, same) = conclude-Same o d w in (size, rw (size, same) b)

    -- The rest of an iteration behind the retried release.
    rest-IsBounded :
        (ready : Bool) (d : Dispatcher) (w : W)
        → (ready ≡ true → d.pending_release ≡ [])
        → IsBounded d
        → let (d₂, w₂) = maybe_heartbeat env d w in
          let (d₃, w₃) = maybe_sweep env d₂ w₂ in
          let (o, d₄, w₄) = batch_if env ready d₃ w₃ in IsBounded (conclude env o d₄ w₄).1
    unfolding maybe_heartbeat maybe_sweep
    rest-IsBounded ready d w h b =
        let (d₂, w₂) = maybe_heartbeat env d w in
        let (d₃, w₃) = maybe_sweep env d₂ w₂ in
        let (o, d₄, w₄) = batch_if env ready d₃ w₃ in
        (concluded-IsBounded o d₄ w₄ (batch_if-IsBounded ready d₃ w₃ h b).1).1

    iteration-IsBounded : (d : Dispatcher) (w : W) → IsBounded d → IsBounded (iteration env d w).1
    unfolding iteration
    iteration-IsBounded d w b =
        let (size, r) = retry_cases d w in
        let (ready, d₁, w₁) = retry_pending_release env d w in
        elim r [
          | inl (y, none_) ↦ rest-IsBounded ready d₁ w₁ (λ _. none_) (rw none_ (omega arith))
          | inr (n, same) ↦ rest-IsBounded ready d₁ w₁ (λ y. cc (n, y)) (rw (same, size) b)
        ]

    -- The claims that the dispatcher holds without having handed them on or given them back are never
    -- more than a batch, however many iterations run, whatever fails in them, if a claim returns no
    -- more ids than it was asked for and the dispatcher starts within that bound.
    pub run_bounded :
        (n : ℕ) (d : Dispatcher) (w : W)
        → length d.pending_release ≤ d.batch_size
        → length (run env n d w).0.pending_release ≤ (run env n d w).0.batch_size
    unfolding run
    run_bounded zero d w b = b
    run_bounded (suc n) d w b = elim (Bool-cases (env.stopped w)) [
      | inl s ↦ rw s b
      | inr s ↦
          let next = iteration-IsBounded d w b in
          let (goes_on, w') = do_next env (iteration env d w).0 (iteration env d w).2 in
          rw s (elim (Bool-cases goes_on) [
            | inl g ↦ rw g (run_bounded n (iteration env d w).1 w' next)
            | inr g ↦ rw g next
          ])
    ]
