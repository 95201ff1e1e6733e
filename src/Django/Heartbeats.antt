-- ===== src/Django/Heartbeats.antt =====
-- The liveness row of a dispatcher: `heartbeat` and `close` of src/dewey/django/dispatch.py, and
-- `get_dispatchers` of src/dewey/django/queries.py.
pub mod Reported
use dewey.Prelude.{
  ℕ, String, Bool, not, Option, none, some, List, [], ◌∷◌, ◌++◌, keep, ◌==◌, is_empty,
  if◌then◌else◌,
}
use dewey.Core.Heartbeat.{DispatcherHeartbeat, serves}
use dewey.Ledger.{Db}
use dewey.Ledger.Liveness.{
  Instance, Reader, beat, find_beat, set_beat, stale_ids, without, in_window, requested,
}

-- `update_or_create(instance_id=…, defaults={…})` sets every other column of a row that is there.
update_or_create :
    Instance → ℕ → Option DispatcherHeartbeat → List DispatcherHeartbeat → List DispatcherHeartbeat
unfolding set_beat
update_or_create b now none hs = hs ++ beat b now ∷ []
update_or_create b now (some row) hs = set_beat b.instance_id (λ _. beat b now) hs

unfoldable pub heartbeat : Reader → Instance → ℕ → Db → Db
unfolding update_or_create
heartbeat r b now db =
    let hs = update_or_create b now (find_beat b.instance_id db.dispatchers) db.dispatchers in
    let stale = stale_ids r now hs in
    record db { dispatchers = if is_empty stale then hs else without stale hs }

unfoldable pub close : Instance → Db → Db
close b db = record db {
  dispatchers = keep (λ h. not (h.instance_id == b.instance_id)) db.dispatchers;
}

unfoldable pub get_dispatchers :
    Reader → Option String → Option (List String) → ℕ → ℕ → Db → List DispatcherHeartbeat
get_dispatchers r database queues fresh_within now db =
    keep (λ h. serves h (requested queues))
      (r.newest_first (keep (in_window now fresh_within database) db.dispatchers))
