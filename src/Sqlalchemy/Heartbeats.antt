-- ===== src/Sqlalchemy/Heartbeats.antt =====
-- The liveness row of a dispatcher: `heartbeat` and the transaction of `close` in
-- src/dewey/sqlalchemy/dispatch.py, and `get_dispatchers` of src/dewey/sqlalchemy/queries.py.
pub mod Reported
use dewey.Prelude.{
  ℕ, String, Bool, not, Option, none, some, List, [], ◌∷◌, ◌++◌, keep, ◌==◌, if◌then◌else◌,
}
use dewey.Core.Heartbeat.{DispatcherHeartbeat, serves}
use dewey.Ledger.{Db}
use dewey.Ledger.Liveness.{
  Instance, Reader, beat, find_beat, set_beat, stale_ids, without, in_window, requested,
}

abbrev pub seen_at : ℕ → DispatcherHeartbeat → DispatcherHeartbeat
seen_at now h = record h { last_seen_at = now }

-- A row that is there only gets a new `last_seen_at`.
unfoldable pub upsert :
    Instance → ℕ → Option DispatcherHeartbeat → List DispatcherHeartbeat → List DispatcherHeartbeat
unfolding set_beat
upsert b now none hs = hs ++ beat b now ∷ []
upsert b now (some row) hs = set_beat b.instance_id (seen_at now) hs

unfoldable pub heartbeat : Reader → Instance → ℕ → Db → Db
unfolding upsert
heartbeat r b now db =
    let hs = upsert b now (find_beat b.instance_id db.dispatchers) db.dispatchers in
    record db { dispatchers = without (stale_ids r now hs) hs }

unfoldable pub close : Instance → Db → Db
close b db = record db {
  dispatchers = keep (λ h. not (h.instance_id == b.instance_id)) db.dispatchers;
}

unfoldable pub get_dispatchers :
    Reader → Option String → Option (List String) → ℕ → ℕ → Db → List DispatcherHeartbeat
get_dispatchers r database queues fresh_within now db =
    keep (λ h. serves h (requested queues))
      (r.newest_first (keep (in_window now fresh_within database) db.dispatchers))
