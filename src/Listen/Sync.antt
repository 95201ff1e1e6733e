-- ===== src/Listen/Sync.antt =====
-- `SyncWorkListener` of src/dewey/listen_sync.py. The driver and its connections are outside: a state
-- `W` on which each call acts, and any call may raise. The log lines are left out.
pub mod Connections
use text.Mathlib.Text.{starts_with}
use dewey.Prelude.{ℕ, String, Bool, true, false, ◌&&◌, Option, none, some, List, if◌then◌else◌}
use dewey.Listen.Channel.{quote_identifier}

pub data Flavour : Type 0 where
  psycopg2 psycopg3 : Flavour

-- What `_detect_flavour` looks at: the name of the connection's module, empty where it is none, and
-- the attributes that the connection has.
pub record Connection : Type 0 where
  pub id : ℕ
  pub module_name : String
  pub has_notifies : Bool
  pub notifies_callable : Bool
  pub has_poll : Bool

-- How the call `conn.notifies(timeout=…, stop_after=1)` ends: psycopg before 3.2 takes no timeout.
pub data Notifies : Type 0 where
  type_error : Notifies
  raises : Notifies
  yields : Bool → Notifies

-- The DBAPI and `select`. `none`, or `false`, is a call that raised. `poll` is `conn.poll()` with
-- the list of notifications read, as a test, and emptied; `listen` the statement LISTEN on an identifier,
-- by a cursor that is closed after it; `select_one` the statement SELECT 1.
pub record Driver {ℓ} (W : Type ℓ) : Type ℓ where
  pub connect : W → Option Connection × W
  pub set_autocommit : Flavour → Connection → W → Bool × W
  pub listen : List ℕ → Connection → W → Bool × W
  pub select : ℕ → Connection → W → Option Bool × W
  pub poll : Connection → W → Option Bool × W
  pub notifies : ℕ → Connection → W → Notifies × W
  pub select_one : Connection → W → Bool × W
  pub close : Connection → W → W

unfoldable pub detect_flavour : Connection → Option Flavour
detect_flavour conn =
    if starts_with conn.module_name "psycopg2"
    then some psycopg2
    else if starts_with conn.module_name "psycopg"
    then some psycopg3
    else if conn.has_notifies && conn.notifies_callable
    then some psycopg3
    else if conn.has_poll && conn.has_notifies
    then some psycopg2
    else none

-- The listener's `_conn` and `_flavour`; the flavour is set wherever the connection is.
pub record Listener : Type 0 where
  pub channel : List ℕ
  pub conn : Option (Connection × Flavour)

abbrev pub supported : Listener → Bool
supported l = elim l.conn [ none ↦ false | some _ ↦ true ]

module _ {ℓ} {W : Type ℓ} (db : Driver W) where
  -- Behind a connection: LISTEN runs outside a transaction. Where it fails, the connection is closed
  -- and the exception goes on, which `false` stands for.
  unfoldable pub subscribe : Connection → Option Flavour → Listener → W → Bool × Listener × W
  subscribe conn none l w = (true, l, db.close conn w)
  subscribe conn (some flavour) l w =
      let (committing, w₁) = db.set_autocommit flavour conn w in
      let (listening, w₂) = db.listen (quote_identifier l.channel) conn w₁ in
      if committing
      then (if listening
          then (true, record l { conn = some (conn, flavour) }, w₂)
          else (false, l, db.close conn w₂))
      else (false, l, db.close conn w₁)

  abbrev pub connected : Option Connection → Listener → W → Bool × Listener × W
  connected none l w = (false, l, w)
  connected (some conn) l w = subscribe conn (detect_flavour conn) l w

  unfoldable pub open_ : Listener → W → Bool × Listener × W
  unfolding subscribe detect_flavour
  open_ l w =
      if supported l then (true, l, w) else let (conn, w') = db.connect w in connected conn l w'

  abbrev pub closed : Option (Connection × Flavour) → W → W
  closed none w = w
  closed (some (conn, flavour)) w = db.close conn w

  unfoldable pub close : Listener → W → Listener × W
  close l w = (record l { conn = none }, closed l.conn w)

  -- `select.select(…)[0]`: `false` where the time ran out.
  abbrev polled : Connection → Option Bool × W → Option Bool × W
  polled conn (none, w) = (none, w)
  polled conn (some false, w) = (some false, w)
  polled conn (some true, w) = db.poll conn w

  unfoldable pub wait_psycopg2 : ℕ → Connection → W → Option Bool × W
  wait_psycopg2 timeout conn w = polled conn (db.select timeout conn w)

  abbrev drained : Connection → Option Bool × W → Option Bool × W
  drained conn (none, w) = (none, w)
  drained conn (some false, w) = (some false, w)
  drained conn (some true, w) =
      let (consumed, w') = db.select_one conn w in (if consumed then some true else none, w')

  abbrev notified : ℕ → Connection → Notifies × W → Option Bool × W
  notified timeout conn (raises, w) = (none, w)
  notified timeout conn (yields b, w) = (some b, w)
  notified timeout conn (type_error, w) = drained conn (db.select timeout conn w)

  unfoldable pub wait_psycopg3 : ℕ → Connection → W → Option Bool × W
  wait_psycopg3 timeout conn w = notified timeout conn (db.notifies timeout conn w)

  abbrev pub wait_on : ℕ → Connection → Flavour → W → Option Bool × W
  wait_on timeout conn psycopg2 w = wait_psycopg2 timeout conn w
  wait_on timeout conn psycopg3 w = wait_psycopg3 timeout conn w

  -- `except Exception`: the listener is closed, and waits no more.
  abbrev pub heard : Listener → Option Bool × W → Bool × Listener × W
  heard l (some b, w) = (b, l, w)
  heard l (none, w) = let (l', w') = close l w in (false, l', w')

  abbrev pub wait_for : ℕ → Option (Connection × Flavour) → Listener → W → Bool × Listener × W
  wait_for timeout none l w = (false, l, w)
  wait_for timeout (some (conn, flavour)) l w = heard l (wait_on timeout conn flavour w)

  unfoldable pub wait : ℕ → Listener → W → Bool × Listener × W
  unfolding close wait_psycopg2 wait_psycopg3
  wait timeout l w = wait_for timeout l.conn l w
