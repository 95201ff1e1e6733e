-- ===== src/Ledger/Liveness.antt =====
-- The table of dispatcher heartbeats, `DispatcherHeartbeatModel` of src/dewey/sqlalchemy/models.py
-- and `DispatcherHeartbeat` of src/dewey/django/models.py, and what the statements on it leave to the
-- database. `instance_id` is the primary key.
pub mod Laws
pub mod Readiness
use dewey.Prelude.{
  ℕ, ◌+◌, ◌*◌, ◌≤◌, ◌≡◌, String, Bool, true, false, not, ◌&&◌, ◌||◌, Option, none, some, List, [],
  ◌∷◌, map, keep, length, contains, ltb, leb, str_eq, ◌==◌, if◌then◌else◌,
}
use dewey.Core.Heartbeat.{DispatcherHeartbeat, serves}

-- `… in rows`, by a test
unfoldable pub any : (DispatcherHeartbeat → Bool) → List DispatcherHeartbeat → Bool
any p [] = false
any p (h ∷ hs) = p h || any p hs

unfoldable pub find_beat : ℕ → List DispatcherHeartbeat → Option DispatcherHeartbeat
find_beat i [] = none
find_beat i (h ∷ hs) = if h.instance_id == i then some h else find_beat i hs

-- `UPDATE … SET … WHERE instance_id = i`
unfoldable pub set_beat :
    ℕ
    → (DispatcherHeartbeat → DispatcherHeartbeat)
    → List DispatcherHeartbeat
    → List DispatcherHeartbeat
set_beat i f [] = []
set_beat i f (h ∷ hs) = (if h.instance_id == i then f h else h) ∷ set_beat i f hs

abbrev pub beat_ids : List DispatcherHeartbeat → List ℕ
beat_ids = map (λ (h : DispatcherHeartbeat). h.instance_id)

-- `ORDER BY last_seen_at DESC`, and the rows that a `LIMIT` without an order picks.
pub record Reader : Type 0 where
  pub newest_first : List DispatcherHeartbeat → List DispatcherHeartbeat
  pub take_any : ℕ → List DispatcherHeartbeat → List DispatcherHeartbeat

-- Ordering neither adds nor drops a row; a limit adds none, and keeps to the number.
pub record IsReader (r : Reader) : Type 0 where
  pub same_rows :
      (p : DispatcherHeartbeat → Bool) (hs : List DispatcherHeartbeat)
      → any p (r.newest_first hs) ≡ any p hs
  pub of_rows :
      (n : ℕ) (p : DispatcherHeartbeat → Bool) (hs : List DispatcherHeartbeat)
      → any p (r.take_any n hs) ≡ true
      → any p hs ≡ true
  pub limited : (n : ℕ) (hs : List DispatcherHeartbeat) → length (r.take_any n hs) ≤ n

-- The attributes of a backend that its heartbeat writes.
pub record Instance : Type 0 where
  pub instance_id : ℕ
  pub dewey_version : String
  pub backend : String
  pub database : String
  pub queues : Option (List String)
  pub started_at : ℕ

abbrev pub beat : Instance → ℕ → DispatcherHeartbeat
beat b now = record {
  instance_id = b.instance_id;
  dewey_version = b.dewey_version;
  backend = b.backend;
  database = b.database;
  queues = b.queues;
  started_at = b.started_at;
  last_seen_at = now;
}

-- DEFAULT_HEARTBEAT_RETENTION_DAYS
abbrev pub retention : ℕ
retention = 7 * (24 * (3600 * 1_000_000))

-- `last_seen_at < now - retention`, with the subtraction moved to the other side.
abbrev pub is_stale : ℕ → DispatcherHeartbeat → Bool
is_stale now h = ltb (h.last_seen_at + retention) now

abbrev pub stale_ids : Reader → ℕ → List DispatcherHeartbeat → List ℕ
stale_ids r now hs = beat_ids (r.take_any 1000 (keep (is_stale now) hs))

-- `DELETE … WHERE instance_id IN …`
abbrev pub without : List ℕ → List DispatcherHeartbeat → List DispatcherHeartbeat
without is hs = keep (λ h. not (contains h.instance_id is)) hs

-- The `WHERE` of `get_dispatchers`, and the test on each row behind it. `tuple(queues) if queues else
-- None` makes an empty selection none.
abbrev pub in_window : ℕ → ℕ → Option String → DispatcherHeartbeat → Bool
in_window now fresh_within database h =
    leb now (h.last_seen_at + fresh_within)
    && elim database [ none ↦ true | some d ↦ str_eq d h.database ]

abbrev pub requested : Option (List String) → Option (List String)
requested none = none
requested (some []) = none
requested (some (q ∷ qs)) = some (q ∷ qs)
