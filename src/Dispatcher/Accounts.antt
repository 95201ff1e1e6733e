-- ===== src/Dispatcher/Accounts.antt =====
-- What becomes of each id of a batch.
use dewey.Prelude.{
  ℕ, suc, subst, ◌≡◌, refl, ap, false, [], ◌∷◌, length, ◌∙◌, ◌⊎◌, inl, inr, true, some, List, ◌++◌,
  contains, is_empty, arith, Bool-cases, nil_of_is_empty,
}
use dewey.Dispatcher.{
  Environment, Dispatcher, release_quietly, dispatch_each, dispatch_claimed, batch_with,
  dispatch_batch,
}
use dewey.Dispatcher.Stranded.{contains-unique, contains-append}

module _ {ℓ} {W : Type ℓ} (env : Environment W) where
  released_or_held :
      (task_ids : List ℕ) (d : Dispatcher) (w : W) (i : ℕ)
      → contains i task_ids ≡ true
      → ((env.release task_ids w).0 ≡ true)
        ⊎ (contains i (release_quietly env task_ids d w).0.pending_release ≡ true)
  unfolding release_quietly
  released_or_held task_ids d w i c = elim (Bool-cases (env.release task_ids w).0) [
    | inl y ↦ inl y
    | inr n ↦ inr (
        rw n (
          contains-unique i (d.pending_release ++ task_ids)
          ∙ (contains-append i d.pending_release task_ids ∙ ground (arith, c))))
  ]

  claimed_sent :
      (task_ids : List ℕ) (d : Dispatcher) (w : W)
      → (dispatch_claimed env task_ids d w).0 ≡ (dispatch_each env task_ids w).0
  unfolding dispatch_claimed
  claimed_sent task_ids d w = elim (Bool-cases (is_empty (dispatch_each env task_ids w).1)) [
    | inl e ↦ rw e refl
    | inr e ↦ rw e refl
  ]

  claimed_accounts :
      (task_ids : List ℕ) (d : Dispatcher) (w : W) (i : ℕ)
      → contains i (dispatch_each env task_ids w).1 ≡ true
      → ((env.release (dispatch_each env task_ids w).1 (dispatch_each env task_ids w).2).0 ≡ true)
        ⊎ (contains i (dispatch_claimed env task_ids d w).1.pending_release ≡ true)
  unfolding dispatch_claimed
  claimed_accounts task_ids d w i c =
      let (sent, unsent, w') = dispatch_each env task_ids w in
      elim (Bool-cases (is_empty unsent)) [
        | inl e ↦ cc (c, ap (contains i) (nil_of_is_empty unsent e))
        | inr e ↦ rw e (released_or_held unsent d w' i c)
      ]

  -- The transport accepts one id after the other.
  abbrev pub Accepts : List ℕ → W → Type 0
  Accepts [] w = Unit
  Accepts (i ∷ is) w = ((env.dispatch_fn i w).0 ≡ true) × Accepts is (env.dispatch_fn i w).1

  -- What is outside behind these calls.
  abbrev pub after : List ℕ → W → W
  after [] w = w
  after (i ∷ is) w = after is (env.dispatch_fn i w).1

  -- Nothing is left, or the transport refuses the next id.
  abbrev pub Stops : List ℕ → W → Type 0
  Stops [] w = Unit
  Stops (i ∷ is) w = (env.dispatch_fn i w).0 ≡ false

  -- The time behind the calls, of which the last may be one that was refused.
  abbrev pub behind : List ℕ → W → W
  behind [] w = w
  behind (i ∷ is) w = (env.dispatch_fn i w).1

  handed_on :
      (task_ids : List ℕ) (w : W)
      → let (sent, unsent, w') = dispatch_each env task_ids w in
        (handed : List ℕ) × (task_ids ≡ handed ++ unsent)
        × (sent ≡ length handed)
        × Accepts handed w
        × Stops unsent (after handed w)
        × (w' ≡ behind unsent (after handed w))
  unfolding dispatch_each
  handed_on [] w = ([], refl, refl, tt, tt, refl)
  handed_on (i ∷ is) w = elim (Bool-cases (env.dispatch_fn i w).0) [
    | inl y ↦
        let (handed, e, n, a, s, l) = handed_on is (env.dispatch_fn i w).1 in
        rw y (i ∷ handed, ap (λ xs. i ∷ xs) e, ap suc n, (y, a), s, l)
    | inr n ↦ rw n ([], refl, refl, tt, n, refl)
  ]

  -- A batch that was claimed falls into the ids that the transport accepted, one after the other, of
  -- which the number is returned, and the rest, which is empty or starts with an id that it refused;
  -- each id of the rest was given back to the backlog, or is held for the next iteration to give back.
  pub batch_accounts :
      (d : Dispatcher) (w : W) (task_ids : List ℕ)
      → (env.claim d.batch_size w).0 ≡ some task_ids
      → let w' = (env.claim d.batch_size w).1 in
        (handed : List ℕ) × (rest : List ℕ) × (task_ids ≡ handed ++ rest)
        × Accepts handed w'
        × Stops rest (after handed w')
        × ((dispatch_batch env d w).0 ≡ some (length handed))
        × ((i : ℕ)
            → contains i rest ≡ true
            → ((env.release rest (behind rest (after handed w'))).0 ≡ true)
              ⊎ (contains i (dispatch_batch env d w).1.pending_release ≡ true))
  unfolding dispatch_batch batch_with dispatch_claimed
  batch_accounts d w task_ids h =
      let w' = (env.claim d.batch_size w).1 in
      let (handed, e, n, a, s, l) = handed_on task_ids w' in
      rw h (
        handed,
        (dispatch_each env task_ids w').1,
        e,
        a,
        s,
        ap some (claimed_sent task_ids d w' ∙ n),
        λ i c.
            subst
              (λ v.
                ((env.release (dispatch_each env task_ids w').1 v).0 ≡ true)
                ⊎ (contains i (dispatch_claimed env task_ids d w').1.pending_release ≡ true))
              l (claimed_accounts task_ids d w' i c),
      )
