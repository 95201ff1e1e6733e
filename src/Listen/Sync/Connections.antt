-- ===== src/Listen/Sync/Connections.antt =====
-- The connections that a listener takes and gives back.
use dewey.Prelude.{
  ℕ, suc, Bool, not, Option, none, some, List, [], ◌∷◌, ◌≡◌, refl, sym, ap, ◌∙◌, arith, keep, ◌==◌,
}
use dewey.Listen.Channel.{quote_identifier}
use dewey.Listen.Sync.{
  Flavour, psycopg2, psycopg3, Connection, Driver, Listener, connected, closed, heard, wait_for,
  subscribe, open_, close, wait_psycopg2, wait_psycopg3, wait, detect_flavour,
}

-- What a driver has done: the connections that it has made and not closed, and how often it was
-- asked for one.
pub record Seen : Type 0 where
  pub opened : List ℕ
  pub attempts : ℕ

abbrev pub with_new : Option Connection → List ℕ → List ℕ
with_new none xs = xs
with_new (some c) xs = c.id ∷ xs

abbrev pub held : Option (Connection × Flavour) → List ℕ
held none = []
held (some (c, flavour)) = c.id ∷ []

-- A connection is made by `connect` and ended by `close`, and by no other call.
pub record IsDriver {ℓ} {W : Type ℓ} (db : Driver W) (seen : W → Seen) : Type ℓ where
  pub seen-connect :
      (w : W)
      → seen (db.connect w).1 ≡ record {
        opened = with_new (db.connect w).0 (seen w).opened;
        attempts = suc (seen w).attempts;
      }
  pub seen-close :
      (c : Connection) (w : W)
      → seen (db.close c w)
        ≡ record (seen w) { opened = keep (λ i. not (i == c.id)) (seen w).opened }
  pub seen-set_autocommit :
      (f : Flavour) (c : Connection) (w : W) → seen (db.set_autocommit f c w).1 ≡ seen w
  pub seen-listen : (n : List ℕ) (c : Connection) (w : W) → seen (db.listen n c w).1 ≡ seen w
  pub seen-select : (t : ℕ) (c : Connection) (w : W) → seen (db.select t c w).1 ≡ seen w
  pub seen-poll : (c : Connection) (w : W) → seen (db.poll c w).1 ≡ seen w
  pub seen-notifies : (t : ℕ) (c : Connection) (w : W) → seen (db.notifies t c w).1 ≡ seen w
  pub seen-select_one : (c : Connection) (w : W) → seen (db.select_one c w).1 ≡ seen w

module _ {ℓ} {W : Type ℓ} (db : Driver W) (seen : W → Seen) (d : IsDriver db seen) where
  -- Nothing that was opened is lost: what is open is what the listener holds.
  abbrev pub Held : Listener → W → Type 0
  Held l w = (seen w).opened ≡ held l.conn

  subscribe-Held :
      (c : Connection) (f : Option Flavour) (l : Listener) (w : W)
      → l.conn ≡ none
      → (seen w).opened ≡ c.id ∷ []
      → Held (subscribe db c f l w).1 (subscribe db c f l w).2
        × ((seen (subscribe db c f l w).2).attempts ≡ (seen w).attempts)
  unfolding subscribe
  subscribe-Held c none l w free h = ground (arith, d.seen-close c w)
  subscribe-Held c (some f) l w free h =
      let w₁ : W = (db.set_autocommit f c w).1 in
      let w₂ : W = (db.listen (quote_identifier l.channel) c w₁).1 in
      ground (
        arith,
        d.seen-set_autocommit f c w,
        d.seen-listen (quote_identifier l.channel) c w₁,
        d.seen-close c w₁,
        d.seen-close c w₂,
      )

  connected-Held :
      (given : Option Connection) (l : Listener) (w : W)
      → l.conn ≡ none
      → (seen w).opened ≡ with_new given []
      → Held (connected db given l w).1 (connected db given l w).2
        × ((seen (connected db given l w).2).attempts ≡ (seen w).attempts)
  connected-Held none l w free h = (h ∙ sym (ap held free), refl)
  connected-Held (some c) l w free h = subscribe-Held c (detect_flavour c) l w free h

  pub open-Held :
      (l : Listener) (w : W)
      → l.conn ≡ none
      → Held l w
      → Held (open_ db l w).1 (open_ db l w).2
        × ((seen (open_ db l w).2).attempts ≡ suc (seen w).attempts)
  unfolding open_
  open-Held l w free h =
      let w' : W = (db.connect w).1 in
      let before : (seen w).opened ≡ [] = h ∙ ap held free in
      let opened : (seen w').opened ≡ with_new (db.connect w).0 [] =
        ground (arith, d.seen-connect w, before) in
      ground (arith, connected-Held (db.connect w).0 l w' free opened, d.seen-connect w, free)

  closed-Held :
      (given : Option (Connection × Flavour)) (w : W)
      → (seen w).opened ≡ held given
      → ((seen (closed db given w)).opened ≡ [])
        × ((seen (closed db given w)).attempts ≡ (seen w).attempts)
  closed-Held none w h = (h, refl)
  closed-Held (some (c, flavour)) w h = ground (arith, d.seen-close c w)

  pub close-Held :
      (l : Listener) (w : W)
      → Held l w
      → Held (close db l w).0 (close db l w).1
        × ((seen (close db l w).1).attempts ≡ (seen w).attempts)
  unfolding close
  close-Held l w h = closed-Held l.conn w h

  seen-wait_psycopg2 :
      (timeout : ℕ) (c : Connection) (w : W) → seen (wait_psycopg2 db timeout c w).1 ≡ seen w
  unfolding wait_psycopg2
  seen-wait_psycopg2 timeout c w =
      ground (arith, d.seen-select timeout c w, d.seen-poll c (db.select timeout c w).1)

  seen-wait_psycopg3 :
      (timeout : ℕ) (c : Connection) (w : W) → seen (wait_psycopg3 db timeout c w).1 ≡ seen w
  unfolding wait_psycopg3
  seen-wait_psycopg3 timeout c w =
      let w₁ : W = (db.notifies timeout c w).1 in
      ground (
        arith,
        d.seen-notifies timeout c w,
        d.seen-select timeout c w₁,
        d.seen-select_one c (db.select timeout c w₁).1,
      )

  heard-Held :
      (l : Listener) (result : Option Bool) (w : W)
      → Held l w
      → Held (heard db l (result, w)).1 (heard db l (result, w)).2
        × ((seen (heard db l (result, w)).2).attempts ≡ (seen w).attempts)
  unfolding close
  heard-Held l (some b) w h = (h, refl)
  heard-Held l none w h = close-Held l w h

  heard_kept :
      (l : Listener) (result : Option Bool × W) (w : W)
      → seen result.1 ≡ seen w
      → Held l w
      → Held (heard db l result).1 (heard db l result).2
        × ((seen (heard db l result).2).attempts ≡ (seen w).attempts)
  heard_kept l (result, w') w same h = ground (arith, heard-Held l result w')

  wait_for-Held :
      (timeout : ℕ) (given : Option (Connection × Flavour)) (l : Listener) (w : W)
      → Held l w
      → Held (wait_for db timeout given l w).1 (wait_for db timeout given l w).2
        × ((seen (wait_for db timeout given l w).2).attempts ≡ (seen w).attempts)
  wait_for-Held timeout none l w h = (h, refl)
  wait_for-Held timeout (some (c, psycopg2)) l w h =
      heard_kept l (wait_psycopg2 db timeout c w) w (seen-wait_psycopg2 timeout c w) h
  wait_for-Held timeout (some (c, psycopg3)) l w h =
      heard_kept l (wait_psycopg3 db timeout c w) w (seen-wait_psycopg3 timeout c w) h

  pub wait-Held :
      (timeout : ℕ) (l : Listener) (w : W)
      → Held l w
      → Held (wait db timeout l w).1 (wait db timeout l w).2
        × ((seen (wait db timeout l w).2).attempts ≡ (seen w).attempts)
  unfolding wait
  wait-Held timeout l w h = wait_for-Held timeout l.conn l w h
