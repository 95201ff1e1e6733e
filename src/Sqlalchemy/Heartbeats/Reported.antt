-- ===== src/Sqlalchemy/Heartbeats/Reported.antt =====
-- Dispatchers that readiness checks over SQLAlchemy report.
use dewey.Prelude.{
  ℕ, ◌≡◌, ap, ◌∙◌, String, Bool, true, false, ◌&&◌, Option, some, List, arith, ◌==◌, Option-cases,
  inl, inr,
}
use dewey.Core.Heartbeat.{DispatcherHeartbeat, serves}
use dewey.Ledger.{Db}
use dewey.Ledger.Liveness.{
  any, beat, find_beat, Instance, Reader, IsReader, is_stale, stale_ids, in_window, requested,
}
use dewey.Ledger.Liveness.Laws.{
  is_of, any-append, any-of_none, any-of_some, any-set_beat-false, find-set_beat, fresh_kept,
  id-find_beat, find-without, find-append_other, find-set_beat_other, any-set_beat_other,
}
use dewey.Ledger.Liveness.Readiness.{is_reported, nothing_left, any-reported, reported_behind}
use dewey.Sqlalchemy.Heartbeats.{upsert, heartbeat, close, get_dispatchers, seen_at}

module _ (r : Reader) (sql : IsReader r) (b : Instance) (now : ℕ) where
  -- The rows behind the write of a heartbeat, before the clean-up.
  abbrev written : List DispatcherHeartbeat → List DispatcherHeartbeat
  written hs = upsert b now (find_beat b.instance_id hs) hs

  own_fresh :
      (hs : List DispatcherHeartbeat)
      → any (λ h. is_stale now h && is_of b.instance_id h) (written hs) ≡ false
  unfolding upsert
  own_fresh hs = elim (Option-cases (find_beat b.instance_id hs)) [
    | inl nowhere ↦
        rw
          (
            nowhere,
            any-append (λ h. is_stale now h && is_of b.instance_id h) hs (beat b now),
            any-of_none b.instance_id (is_stale now) hs nowhere,
          )
          (ground arith)
    | inr (row, found) ↦
        rw found
          (any-set_beat-false b.instance_id (seen_at now) (is_stale now) hs (λ h. ground arith))
  ]

  own_written :
      (p : DispatcherHeartbeat → Bool) (hs : List DispatcherHeartbeat)
      → ((row : DispatcherHeartbeat)
          → find_beat b.instance_id hs ≡ some row
          → p (seen_at now row) ≡ p (beat b now))
      → p (beat b now) ≡ true
      → any p (written hs) ≡ true
  unfolding upsert
  own_written p hs same y = elim (Option-cases (find_beat b.instance_id hs)) [
    | inl nowhere ↦ rw (nowhere, any-append p hs (beat b now), y) (ground arith)
    | inr (row, found) ↦ rw found (
        any-of_some b.instance_id p _ (seen_at now row)
          (find-set_beat b.instance_id (seen_at now) hs row (λ h e. e) found) (same row found ∙ y))
  ]

  own_row :
      (database : Option String) (queues : Option (List String)) (fresh_within now' : ℕ)
      (row : DispatcherHeartbeat)
      → row.instance_id ≡ b.instance_id
      → row.queues ≡ b.queues
      → row.database ≡ b.database
      → is_reported database queues fresh_within now' b.instance_id (seen_at now row)
        ≡ is_reported database queues fresh_within now' b.instance_id (beat b now)
  unfolding serves
  own_row database queues fresh_within now' row i q d =
      rw (i, q)
        (ap
          (λ k.
            is_reported database queues fresh_within now' b.instance_id
              (record (beat b now) { database = k }))
          d)

  -- A dispatcher that has just beaten is reported by every readiness check from then on, as long as
  -- its beat is in the window, the check asks for its database or for any, and it serves the queues
  -- asked for. A row of the same instance that is there already names its queues and database.
  pub heartbeat-reported :
      (database : Option String) (queues : Option (List String)) (fresh_within now' : ℕ) (db : Db)
      → ((row : DispatcherHeartbeat)
          → find_beat b.instance_id db.dispatchers ≡ some row
          → (row.queues ≡ b.queues) × (row.database ≡ b.database))
      → in_window now' fresh_within database (beat b now) ≡ true
      → serves (beat b now) (requested queues) ≡ true
      → any
          (is_of b.instance_id)
          (get_dispatchers r database queues fresh_within now' (heartbeat r b now db))
        ≡ true
  unfolding heartbeat get_dispatchers
  heartbeat-reported database queues fresh_within now' db own inside able =
      reported_behind r sql database queues fresh_within now' b.instance_id now
        (written db.dispatchers) (own_fresh db.dispatchers)
        (own_written (is_reported database queues fresh_within now' b.instance_id) db.dispatchers
          (λ row found.
            own_row database queues fresh_within now' row
              (id-find_beat b.instance_id db.dispatchers row found) (own row found).0
              (own row found).1)
          (rw (inside, able) (ground arith)))

  -- A closed dispatcher is reported by no readiness check.
  close-reported :
      (database : Option String) (queues : Option (List String)) (fresh_within now' : ℕ) (db : Db)
      → any (is_of b.instance_id) (get_dispatchers r database queues fresh_within now' (close b db))
        ≡ false
  unfolding close get_dispatchers
  close-reported database queues fresh_within now' db =
      any-reported r sql database queues fresh_within now' b.instance_id _
      ∙ nothing_left database queues fresh_within now' b.instance_id db.dispatchers

  others_kept :
      (j : ℕ) (hs : List DispatcherHeartbeat)
      → (b.instance_id == j) ≡ false
      → (find_beat j (written hs) ≡ find_beat j hs)
        × (any (λ h. is_stale now h && is_of j h) (written hs)
            ≡ any (λ h. is_stale now h && is_of j h) hs)
  unfolding upsert
  others_kept j hs n = elim (Option-cases (find_beat b.instance_id hs)) [
    | inl nowhere ↦ rw nowhere (
      find-append_other j hs (beat b now) n,
      any-append (λ h. is_stale now h && is_of j h) hs (beat b now) ∙ rw n (ground arith),
    )
    | inr (row, found) ↦ rw found (
      find-set_beat_other b.instance_id j (seen_at now) hs n (λ h e. e),
      any-set_beat_other b.instance_id j (seen_at now) (is_stale now) hs n (λ h e. e),
    )
  ]

  -- A heartbeat leaves the row of another instance that is not past the retention as it was.
  heartbeat-others :
      (j : ℕ) (db : Db)
      → (b.instance_id == j) ≡ false
      → any (λ h. is_stale now h && is_of j h) db.dispatchers ≡ false
      → find_beat j (heartbeat r b now db).dispatchers ≡ find_beat j db.dispatchers
  unfolding heartbeat
  heartbeat-others j db n fresh =
      let (row, stale) = others_kept j db.dispatchers n in
      find-without j (stale_ids r now (written db.dispatchers)) (written db.dispatchers)
        (fresh_kept r j now (written db.dispatchers) sql (stale ∙ fresh))
      ∙ row
