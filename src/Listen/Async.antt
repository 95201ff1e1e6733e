-- ===== src/Listen/Async.antt =====
-- `AsyncPostgresWorkListener` of src/dewey/sqlalchemy/listen.py, and `wait_for_work` and the end of
-- `close` of the asynchronous backend in src/dewey/sqlalchemy/dispatch.py. The engine and asyncpg are
-- outside, and any await may raise or be cancelled, but for the one on the queue.
pub mod Delivery
pub mod Leak
use dewey.Prelude.{
  zero, suc, ℕ, String, Bool, true, false, not, ◌&&◌, Option, none, some, List, [], ◌∷◌, ◌++◌,
  length, ltb, leb, is_empty, Await, returned, raised, cancelled, if◌then◌else◌,
}
use dewey.Listen.Payload.{Codec, WorkNotification, parse_payload}

-- `get_raw_connection` returns whether the driver's connection has `add_listener`. A connection that
-- has it has `remove_listener` too.
pub record AsyncDriver {ℓ} (W : Type ℓ) : Type ℓ where
  pub connect : W → Await ℕ × W
  pub get_raw_connection : ℕ → W → Await Bool × W
  pub add_listener : ℕ → W → Await (Unit {0}) × W
  pub remove_listener : ℕ → W → Await (Unit {0}) × W
  pub close : ℕ → W → Await (Unit {0}) × W
  pub sleep : ℕ → W → Await (Unit {0}) × W

-- `driver` says that `_driver` is set.
pub record AsyncListener : Type 0 where
  pub max_queue_size : ℕ
  pub queue : List WorkNotification
  pub conn : Option ℕ
  pub driver : Bool

-- `_listener_started` and `_listener` of the backend.
pub record AsyncWaiter : Type 0 where
  pub listener_started : Bool
  pub listener : Option AsyncListener

-- The constructor, which raises ValueError for an engine that is not PostgreSQL's.
unfoldable pub new_listener : Bool → Option AsyncListener
new_listener postgresql =
    if postgresql
    then some (record { max_queue_size = 1_000; queue = []; conn = none; driver = false })
    else none

-- `put_nowait`: a queue of size 0 is unbounded, and a full one drops the payload.
unfoldable pub put_nowait : WorkNotification → AsyncListener → AsyncListener
put_nowait n l =
    if ltb 0 l.max_queue_size && leb l.max_queue_size (length l.queue)
    then l
    else record l { queue = l.queue ++ n ∷ [] }

abbrev pub put_parsed : Option WorkNotification → AsyncListener → AsyncListener
put_parsed none l = l
put_parsed (some n) l = put_nowait n l

-- An exception of `_parse_payload` ends the callback.
unfoldable pub on_notify : Codec → String → AsyncListener → AsyncListener
unfolding put_nowait
on_notify c payload l = put_parsed (parse_payload c payload) l

unfoldable pub notified : Codec → List String → AsyncListener → AsyncListener
unfolding on_notify
notified c [] l = l
notified c (payload ∷ payloads) l = notified c payloads (on_notify c payload l)

abbrev taken : ℕ → AsyncListener → List WorkNotification × AsyncListener
taken zero l = ([], l)
taken (suc timeout) l = (l.queue, record l { queue = [] })

-- `arriving` are the payloads that come before the first `get` returns or times out; the loop behind
-- it takes all that is queued. `asyncio.wait_for` with a timeout of 0 cancels the `get` before it has
-- run, whatever is queued.
unfoldable pub wait :
    Codec → ℕ → List String → AsyncListener → List WorkNotification × AsyncListener
unfolding notified
wait c timeout arriving l = taken timeout (notified c arriving l)

-- Go on where an await returned.
abbrev then_ {ℓ κ ι} :
    {W : Type ℓ} {A : Type κ} {B : Type ι}
    → Await A × W
    → (AsyncListener)
    → (A → W → Await B × AsyncListener × W)
    → Await B × AsyncListener × W
then_ (returned a, w) l k = k a w
then_ (raised, w) l k = (raised, l, w)
then_ (cancelled, w) l k = (cancelled, l, w)

module _ {ℓ} {W : Type ℓ} (db : AsyncDriver W) where
  abbrev add : ℕ → Bool → AsyncListener → W → Await (Unit {0}) × AsyncListener × W
  add conn true l w =
      let l' = record l { driver = true } in
      then_ (db.add_listener conn w) l' (λ _ w'. (returned tt, l', w'))
  add conn false l w = then_ (db.close conn w) l (λ _ w'. (raised, record l { conn = none }, w'))

  unfoldable pub aenter : AsyncListener → W → Await (Unit {0}) × AsyncListener × W
  aenter l w = then_ (db.connect w) l λ conn w₁.
      let l₁ = record l { conn = some conn } in
      then_ (db.get_raw_connection conn w₁) l₁ λ has_listeners w₂. add conn has_listeners l₁ w₂

  abbrev removed : Option ℕ → AsyncListener → W → Await (Unit {0}) × W
  removed (some conn) l w = if l.driver then db.remove_listener conn w else (returned tt, w)
  removed none l w = (returned tt, w)

  abbrev closed : Option ℕ → W → Await (Unit {0}) × W
  closed none w = (returned tt, w)
  closed (some conn) w = db.close conn w

  unfoldable pub aexit : AsyncListener → W → Await (Unit {0}) × AsyncListener × W
  aexit l w = then_ (removed l.conn l w) l λ _ w₁.
      then_ (closed l.conn w₁) l λ _ w₂. (returned tt, record l { conn = none; driver = false }, w₂)

  -- `except Exception`: the listener that failed is dropped, and the dispatcher polls.
  abbrev entered :
      AsyncWaiter → Await (Unit {0}) × AsyncListener × W → Await (Unit {0}) × AsyncWaiter × W
  entered b (returned _, l, w) =
      (returned tt, record { listener_started = true; listener = some l }, w)
  entered b (raised, l, w) = (returned tt, record b { listener_started = true }, w)
  entered b (cancelled, l, w) = (cancelled, record b { listener_started = true }, w)

  -- The constructor stands before the `try`.
  abbrev constructed : Option AsyncListener → AsyncWaiter → W → Await (Unit {0}) × AsyncWaiter × W
  constructed none b w = (raised, record b { listener_started = true }, w)
  constructed (some l) b w = entered b (aenter l w)

  unfoldable pub start_listener : Bool → AsyncWaiter → W → Await (Unit {0}) × AsyncWaiter × W
  unfolding aenter new_listener
  start_listener postgresql b w =
      if b.listener_started then (returned tt, b, w) else constructed (new_listener postgresql) b w

  abbrev slept : AsyncWaiter → Await (Unit {0}) × W → Await Bool × AsyncWaiter × W
  slept b (returned _, w) = (returned false, b, w)
  slept b (raised, w) = (raised, b, w)
  slept b (cancelled, w) = (cancelled, b, w)

  abbrev wait_on :
      Codec
      → ℕ
      → List String
      → Option AsyncListener
      → AsyncWaiter
      → W
      → Await Bool × AsyncWaiter × W
  wait_on c timeout arriving none b w = slept b (db.sleep timeout w)
  wait_on c timeout arriving (some l) b w =
      let (notifications, l') = wait c timeout arriving l in
      (returned (not (is_empty notifications)), record b { listener = some l' }, w)

  abbrev wait_started :
      Codec → ℕ → List String → Await (Unit {0}) × AsyncWaiter × W → Await Bool × AsyncWaiter × W
  wait_started c timeout arriving (returned _, b, w) = wait_on c timeout arriving b.listener b w
  wait_started c timeout arriving (raised, b, w) = (raised, b, w)
  wait_started c timeout arriving (cancelled, b, w) = (cancelled, b, w)

  -- `postgresql` says whether the engine is PostgreSQL's.
  unfoldable pub wait_for_work :
      Codec → Bool → ℕ → List String → AsyncWaiter → W → Await Bool × AsyncWaiter × W
  unfolding start_listener wait
  wait_for_work c postgresql timeout arriving b w =
      wait_started c timeout arriving (start_listener postgresql b w)

  abbrev left :
      AsyncWaiter → Await (Unit {0}) × AsyncListener × W → Await (Unit {0}) × AsyncWaiter × W
  left b (returned _, l, w) = (returned tt, record b { listener = none }, w)
  left b (raised, l, w) = (raised, record b { listener = some l }, w)
  left b (cancelled, l, w) = (cancelled, record b { listener = some l }, w)

  abbrev close_listener :
      Option AsyncListener → AsyncWaiter → W → Await (Unit {0}) × AsyncWaiter × W
  close_listener none b w = (returned tt, b, w)
  close_listener (some l) b w = left b (aexit l w)

  -- `delete_heartbeat` stands for the transaction in front, which may fail and is then skipped.
  unfoldable pub close_backend : (W → W) → AsyncWaiter → W → Await (Unit {0}) × AsyncWaiter × W
  unfolding aexit
  close_backend delete_heartbeat b w = close_listener b.listener b (delete_heartbeat w)
