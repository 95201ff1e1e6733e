-- ===== src/Django/Heartbeats/Reported.antt =====
-- Dispatchers that readiness checks over Django report.
use dewey.Prelude.{
  ℕ, ◌≡◌, refl, sym, ap, ◌∙◌, String, Bool, true, false, ◌&&◌, Option, List, arith, Option-cases,
  Bool-cases, inl, inr, is_empty, nil_of_is_empty, if◌then◌else◌,
}
use dewey.Core.Heartbeat.{DispatcherHeartbeat, serves}
use dewey.Ledger.{Db}
use dewey.Ledger.Liveness.{
  any, beat, find_beat, Instance, Reader, IsReader, is_stale, stale_ids, without, in_window,
  requested,
}
use dewey.Ledger.Liveness.Laws.{
  is_of, any-append, any-of_none, any-of_some, any-set_beat-false, find-set_beat, without-none,
}
use dewey.Ledger.Liveness.Readiness.{is_reported, reported, reported_behind}
use dewey.Django.Heartbeats.{update_or_create, heartbeat, get_dispatchers}

module _ (r : Reader) (sql : IsReader r) (b : Instance) (now : ℕ) where
  -- The rows behind the write of a heartbeat, before the clean-up.
  abbrev written : List DispatcherHeartbeat → List DispatcherHeartbeat
  written hs = update_or_create b now (find_beat b.instance_id hs) hs

  own_fresh :
      (hs : List DispatcherHeartbeat)
      → any (λ h. is_stale now h && is_of b.instance_id h) (written hs) ≡ false
  unfolding update_or_create
  own_fresh hs = elim (Option-cases (find_beat b.instance_id hs)) [
    | inl nowhere ↦
        rw
          (
            nowhere,
            any-append (λ h. is_stale now h && is_of b.instance_id h) hs (beat b now),
            any-of_none b.instance_id (is_stale now) hs nowhere,
          )
          (ground arith)
    | inr (row, found) ↦
        rw found
          (any-set_beat-false b.instance_id (λ _. beat b now) (is_stale now) hs (λ h. ground arith))
  ]

  own_written :
      (p : DispatcherHeartbeat → Bool) (hs : List DispatcherHeartbeat)
      → p (beat b now) ≡ true
      → any p (written hs) ≡ true
  unfolding update_or_create
  own_written p hs y = elim (Option-cases (find_beat b.instance_id hs)) [
    | inl nowhere ↦ rw (nowhere, any-append p hs (beat b now), y) (ground arith)
    | inr (row, found) ↦ rw found (
        any-of_some b.instance_id p _ (beat b now)
          (find-set_beat b.instance_id (λ _. beat b now) hs row (λ h e. refl) found) y)
  ]

  cleaned :
      (hs : List DispatcherHeartbeat)
      → (if is_empty (stale_ids r now hs) then hs else without (stale_ids r now hs) hs)
        ≡ without (stale_ids r now hs) hs
  cleaned hs = elim (Bool-cases (is_empty (stale_ids r now hs))) [
    | inl nothing ↦
        rw (nothing, sym (nil_of_is_empty (stale_ids r now hs) nothing)) (sym (without-none hs))
    | inr some_ ↦ rw some_ refl
  ]

  -- A dispatcher that has just beaten is reported by every readiness check from then on, as long as
  -- its beat is in the window, the check asks for its database or for any, and it serves the queues
  -- asked for, whatever row of the same instance was there before.
  pub django_heartbeat-reported :
      (database : Option String) (queues : Option (List String)) (fresh_within now' : ℕ) (db : Db)
      → in_window now' fresh_within database (beat b now) ≡ true
      → serves (beat b now) (requested queues) ≡ true
      → any
          (is_of b.instance_id)
          (get_dispatchers r database queues fresh_within now' (heartbeat r b now db))
        ≡ true
  unfolding heartbeat get_dispatchers
  django_heartbeat-reported database queues fresh_within now' db inside able =
      ap
        (λ hs.
          any (is_of b.instance_id)
            (reported r sql database queues fresh_within now' b.instance_id hs))
        (cleaned (written db.dispatchers))
      ∙ reported_behind r sql database queues fresh_within now' b.instance_id now
          (written db.dispatchers) (own_fresh db.dispatchers)
          (own_written (is_reported database queues fresh_within now' b.instance_id) db.dispatchers
            (rw (inside, able) (ground arith)))
