-- ===== src/Core/States.antt =====
-- The task status state machine of src/dewey/core/states.py.
use dewey.Prelude.{ℕ, ◌≡◌, Bool, true, false, ltb, leb, arith, not, List, [], ◌∷◌, ◌||◌}

pub data TaskStatus : Type 0 where
  pending dispatching processing completed failed dead expired : TaskStatus

-- `a == b` of two members of the enum.
abbrev pub is_status : TaskStatus → TaskStatus → Bool
is_status pending pending = true
is_status dispatching dispatching = true
is_status processing processing = true
is_status completed completed = true
is_status failed failed = true
is_status dead dead = true
is_status expired expired = true
is_status _ _ = false

abbrev pub in_statuses : TaskStatus → List TaskStatus → Bool
in_statuses s [] = false
in_statuses s (t ∷ ts) = is_status t s || in_statuses s ts

abbrev terminal_states : List TaskStatus
terminal_states = completed ∷ dead ∷ expired ∷ []

unfoldable pub is_terminal : TaskStatus → Bool
is_terminal s = in_statuses s terminal_states

-- The table of the transitions that are allowed out of each status.
abbrev allowed_transitions : TaskStatus → List TaskStatus
allowed_transitions pending = dispatching ∷ processing ∷ dead ∷ expired ∷ []
allowed_transitions dispatching = processing ∷ pending ∷ dead ∷ expired ∷ []
allowed_transitions processing = completed ∷ failed ∷ dead ∷ pending ∷ []
allowed_transitions failed = pending ∷ dispatching ∷ dead ∷ expired ∷ []
allowed_transitions dead = pending ∷ []
allowed_transitions completed = []
allowed_transitions expired = []

unfoldable pub can_transition_to : TaskStatus → TaskStatus → Bool
can_transition_to s target = in_statuses target (allowed_transitions s)

unfoldable pub should_retry : ℕ → ℕ → Bool
should_retry attempts max_attempts = ltb attempts max_attempts

unfoldable pub should_die : ℕ → ℕ → Bool
should_die attempts max_attempts = leb max_attempts attempts

-- The two decisions exclude one another and leave no case out.
pub should_die-not-should_retry : (a m : ℕ) → should_die a m ≡ not (should_retry a m)
unfolding should_die should_retry
should_die-not-should_retry a m = ground arith
