-- ===== src/AsyncDispatcher/Cancelled.antt =====
-- A batch of the asyncio loop that is cancelled on the way.
use dewey.Prelude.{
  returned, raised, cancelled, ℕ, ◌≡◌, refl, ap, ◌⊎◌, inl, inr, List, [], ◌∷◌, ◌++◌, take,
}
use dewey.Dispatcher.{Dispatcher}
use dewey.AsyncDispatcher.{
  Done, AsyncEnvironment, release_quietly, dispatch_each, end_batch, dispatch_claimed,
}

Done-cases : (a : Done) → (a ≡ returned tt) ⊎ ((a ≡ raised) ⊎ (a ≡ cancelled))
Done-cases (returned u) = inl refl
Done-cases raised = inr (inl refl)
Done-cases cancelled = inr (inr refl)

module _ {ℓ} {W : Type ℓ} (env : AsyncEnvironment W) where
  -- What was accepted and what is left make up the batch.
  pub dispatch_each-split :
      (ids : List ℕ) (w : W)
      → let (sent, unsent, last, w') = dispatch_each env ids w in take sent ids ++ unsent ≡ ids
  unfolding dispatch_each
  dispatch_each-split [] w = refl
  dispatch_each-split (i ∷ ids) w = elim (Done-cases (env.dispatch_fn i w).0) [
    | inl e ↦
        rw (e, dispatch_each) (ap (λ xs. i ∷ xs) (dispatch_each-split ids (env.dispatch_fn i w).1))
    | inr (inl e) ↦ rw (e, dispatch_each) refl
    | inr (inr e) ↦ rw (e, dispatch_each) refl
  ]

  end_batch-cancelled :
      (last : Done) (sent : ℕ) (unsent : List ℕ) (d : Dispatcher) (w : W)
      → (end_batch env last sent unsent d w).0 ≡ cancelled
      → (end_batch env last sent unsent d w).1 ≡ d
  unfolding end_batch release_quietly
  end_batch-cancelled (returned u) sent unsent d w h = cc h
  end_batch-cancelled cancelled sent unsent d w h = refl
  end_batch-cancelled raised sent unsent d w h = elim (Done-cases (env.release unsent w).0) [
    | inl e ↦ absurd (let h' = rw (e, release_quietly) at h in cc h')
    | inr (inl e) ↦ absurd (let h' = rw (e, release_quietly) at h in cc h')
    | inr (inr e) ↦ rw (e, release_quietly) refl
  ]

  -- A batch that is cancelled changes nothing of what the dispatcher remembers: the claims that it has
  -- not handed on are not listed for a later release.
  pub dispatch_claimed-cancelled :
      (ids : List ℕ) (d : Dispatcher) (w : W)
      → (dispatch_claimed env ids d w).0 ≡ cancelled
      → (dispatch_claimed env ids d w).1 ≡ d
  unfolding dispatch_claimed
  dispatch_claimed-cancelled ids d w h =
      let (sent, unsent, last, w') = dispatch_each env ids w in
      end_batch-cancelled last sent unsent d w' h
