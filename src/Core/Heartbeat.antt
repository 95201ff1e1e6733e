-- ===== src/Core/Heartbeat.antt =====
-- src/dewey/core/heartbeat.py: the liveness row of a dispatcher. Durations and instants are
-- microseconds; an instance identifier is a UUID, of which only its identity is used.
use dewey.Prelude.{
  ℕ, ◌+◌, String, Bool, true, false, ◌&&◌, ◌||◌, Option, none, some, List, [], ◌∷◌, leb, str_eq,
}

pub record DispatcherHeartbeat : Type 0 where
  pub instance_id : ℕ
  pub dewey_version : String
  pub backend : String
  pub database : String
  pub queues : Option (List String)
  pub started_at : ℕ
  pub last_seen_at : ℕ

-- `x in xs` of queue names
abbrev pub in_queues : String → List String → Bool
in_queues q [] = false
in_queues q (x ∷ xs) = str_eq q x || in_queues q xs

-- `set(xs).issubset(ys)`
abbrev pub subset : List String → List String → Bool
subset [] ys = true
subset (x ∷ xs) ys = in_queues x ys && subset xs ys

-- `last_seen_at >= now - stale_after`, with the subtraction moved to the other side, since an
-- instant before the epoch is no number here.
unfoldable pub is_fresh : DispatcherHeartbeat → ℕ → ℕ → Bool
is_fresh h now stale_after = leb now (h.last_seen_at + stale_after)

covers : Option (List String) → Option (List String) → Bool
covers none served = true
covers (some requested) none = true
covers (some requested) (some served) = subset requested served

unfoldable pub serves : DispatcherHeartbeat → Option (List String) → Bool
unfolding covers
serves h requested_queues = covers requested_queues h.queues
