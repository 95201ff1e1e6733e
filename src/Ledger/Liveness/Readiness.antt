-- ===== src/Ledger/Liveness/Readiness.antt =====
-- What a readiness check reads behind a clean-up.
use dewey.Prelude.{
  ℕ, ◌≡◌, refl, ◌∙◌, String, Bool, true, false, not, ◌&&◌, Option, List, [], ◌∷◌, keep, arith, ◌==◌,
  ==_iff, and_right,
}
use dewey.Core.Heartbeat.{DispatcherHeartbeat, serves}
use dewey.Ledger.Liveness.{
  any, Reader, IsReader, is_stale, stale_ids, without, in_window, requested,
}
use dewey.Ledger.Liveness.Laws.{is_of, any-keep, any-without, fresh_kept}

module _ (database : Option String) (queues : Option (List String)) (fresh_within now' i : ℕ) where
  abbrev pub is_reported : DispatcherHeartbeat → Bool
  is_reported h =
      in_window now' fresh_within database h && (serves h (requested queues) && is_of i h)

  of_instance : (h : DispatcherHeartbeat) → is_reported h ≡ true → h.instance_id ≡ i
  of_instance h y = (==_iff h.instance_id i).0 (
      and_right (serves h (requested queues)) (is_of i h)
        (and_right (in_window now' fresh_within database h) _ y))

module _ (r : Reader) (sql : IsReader r) (database : Option String) (queues : Option (List String))
    (fresh_within now' i : ℕ) where
  abbrev pub reported : List DispatcherHeartbeat → List DispatcherHeartbeat
  reported hs =
      keep (λ h. serves h (requested queues))
        (r.newest_first (keep (in_window now' fresh_within database) hs))

  pub any-reported :
      (hs : List DispatcherHeartbeat)
      → any (is_of i) (reported hs) ≡ any (is_reported database queues fresh_within now' i) hs
  any-reported hs =
      any-keep (is_of i) (λ h. serves h (requested queues)) _
      ∙ (sql.same_rows (λ h. serves h (requested queues) && is_of i h) _
          ∙ any-keep (λ h. serves h (requested queues) && is_of i h)
              (in_window now' fresh_within database) hs)

  -- An instance whose row passes the tests is reported behind a clean-up that finds none of its rows
  -- stale.
  pub reported_behind :
      (now : ℕ) (hs : List DispatcherHeartbeat)
      → any (λ h. is_stale now h && is_of i h) hs ≡ false
      → any (is_reported database queues fresh_within now' i) hs ≡ true
      → any (is_of i) (reported (without (stale_ids r now hs) hs)) ≡ true
  reported_behind now hs fresh there =
      any-reported (without (stale_ids r now hs) hs)
      ∙ any-without (stale_ids r now hs) i (is_reported database queues fresh_within now' i) hs
          (fresh_kept r i now hs sql fresh) (of_instance database queues fresh_within now' i) there

-- Behind the deletion of an instance's row no row of it is left to report.
pub nothing_left :
    (database : Option String) (queues : Option (List String)) (fresh_within now' i : ℕ)
    (hs : List DispatcherHeartbeat)
    → any
        (is_reported database queues fresh_within now' i)
        (keep (λ h. not (h.instance_id == i)) hs)
      ≡ false
unfolding any
nothing_left database queues fresh_within now' i [] = refl
nothing_left database queues fresh_within now' i (h ∷ hs) =
    ground (arith, nothing_left database queues fresh_within now' i hs)
