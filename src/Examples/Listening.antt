-- ===== src/Examples/Listening.antt =====
-- Listeners, payloads and trace contexts.
use dewey.Prelude.{
  ℕ, suc, ◌≤◌, true, false, not, none, some, List, [], ◌∷◌, ◌++◌, ◌≡◌, refl, arith, keep, ◌==◌, inr,
  returned, raised,
}
use dewey.Serialization.{Json, text, object, Fields, end, field}
use dewey.Serialization.Objects.{get_key, set_key, update, or_else, IsObject}
use dewey.Listen.Payload.{Codec, work_payload, parse_payload, parse_payload-work_payload}
use dewey.Listen.Channel.{
  quote, quote_identifier, read_identifier, read_identifier-quote_identifier,
}
use dewey.Listen.Sync.{Driver, Connection, Listener, yields}
use dewey.Listen.Sync.Connections.{Seen, IsDriver, held}
use dewey.Listen.Waiting.{close_backend}
use dewey.Listen.Waiting.Runs.{Call, waits, closes, run, run_connections}
use dewey.Listen.Async.{wait_for_work}
use dewey.Listen.Async
use dewey.Listen.Async.{AsyncDriver, AsyncListener, AsyncWaiter}
use dewey.Listen.Async.Delivery.{Event, arrives, notifications, payloads, history, history_delivers}
use dewey.Listen.Async.Delivery
use dewey.Listen.Async.Leak.{IsAsyncDriver, not_started, failed_subscribe_leaks}
use dewey.Logging.{get_trace_context, bind_to_metadata, traced}
use dewey.Logging.Carried.{traced_context}

abbrev connection : Connection
connection = record {
  id = 7;
  module_name = "psycopg";
  has_notifies = true;
  notifies_callable = true;
  has_poll = false;
}

-- A driver whose first wait fails.
abbrev driver : Driver Seen
driver = record {
  connect = λ w. (some connection, record { opened = 7 ∷ w.opened; attempts = suc w.attempts });
  set_autocommit = λ f c w. (true, w);
  listen = λ n c w. (true, w);
  select = λ t c w. (some true, w);
  poll = λ c w. (none, w);
  notifies = λ t c w. (yields true, w);
  select_one = λ c w. (true, w);
  close = λ c w. record w { opened = keep (λ i. not (i == c.id)) w.opened };
}

driver-IsDriver : IsDriver driver (λ w. w)
driver-IsDriver = record {
  seen-connect = λ w. refl;
  seen-close = λ c w. refl;
  seen-set_autocommit = λ f c w. refl;
  seen-listen = λ n c w. refl;
  seen-select = λ t c w. refl;
  seen-poll = λ c w. refl;
  seen-notifies = λ t c w. refl;
  seen-select_one = λ c w. refl;
}

abbrev calls : List Call
calls = waits 5 ∷ waits 5 ∷ closes ∷ waits 5 ∷ []

abbrev listener : Listener
listener = record { channel = b'w' ∷ []; conn = none }

abbrev nothing_yet : Seen
nothing_yet = record { opened = []; attempts = 0 }

run_connections_example :
    let (b, w') =
      run driver
        (λ t w. w)
        (λ w. w)
        calls
        (record { listener_opened = false; listener = listener })
        nothing_yet in
    (w'.attempts ≤ 1)
    × (w'.opened ≡ held b.listener.conn)
    × ((close_backend driver (λ w. w) b w').1.opened ≡ [])
run_connections_example =
    run_connections driver (λ t w. w) (λ w. w) (λ w. w) driver-IsDriver (λ t w. refl) (λ w. refl)
      calls listener nothing_yet refl refl

read_identifier-quote_identifier_example :
    read_identifier (quote_identifier (b'a' ∷ quote ∷ [])) ≡ some (b'a' ∷ quote ∷ [], [])
read_identifier-quote_identifier_example = read_identifier-quote_identifier (b'a' ∷ quote ∷ [])

abbrev sent : Json
sent = object (field "kind" (text "task") (field "id" (text "7") (field "queue" (text "mail") end)))

abbrev codec : Codec
codec = record {
  dumps = λ j. "{\"kind\":\"task\",\"id\":\"7\",\"queue\":\"mail\"}";
  loads = λ s. some sent;
}

parse_payload-work_payload_example :
    parse_payload codec (work_payload codec "task" "7" (some "mail"))
    ≡ some (record { kind = "task"; id = "7"; queue = some "mail" })
parse_payload-work_payload_example = parse_payload-work_payload codec "task" "7" (some "mail") refl

abbrev async_listener : AsyncListener
async_listener = record { max_queue_size = 3; queue = []; conn = none; driver = false }

abbrev events : List Event
events = arrives "a" ∷ Delivery.waits 5 ("b" ∷ []) ∷ arrives "c" ∷ []

history_delivers_example :
    let (delivered, l') = history codec events async_listener in
    delivered ++ l'.queue ≡ notifications codec (payloads events)
unfolding payloads
history_delivers_example = history_delivers codec events async_listener (inr (omega arith))

-- A driver that cannot subscribe.
abbrev refusing : AsyncDriver (List ℕ)
refusing = record {
  connect = λ w. (returned 7, 7 ∷ w);
  get_raw_connection = λ c w. (returned true, w);
  add_listener = λ c w. (raised, w);
  remove_listener = λ c w. (returned tt, w);
  close = λ c w. (returned tt, keep (λ i. not (i == c)) w);
  sleep = λ t w. (returned tt, w);
}

refusing-IsAsyncDriver : IsAsyncDriver refusing (λ w. w)
refusing-IsAsyncDriver = record {
  opened-connect = λ c w h. ground (arith, h);
  opened-get_raw_connection = λ c w. refl;
  opened-add_listener = λ c w. refl;
  opened-sleep = λ t w. refl;
}

failed_subscribe_leaks_example :
    let (_, b, w') = wait_for_work refusing codec true 5 [] not_started [] in
    (w' ≡ 7 ∷ [])
    × (b.listener ≡ none)
    × (Async.close_backend refusing (λ w. w) b w' ≡ (returned tt, b, w'))
failed_subscribe_leaks_example =
    failed_subscribe_leaks refusing (λ w. w) refusing-IsAsyncDriver codec 5 [] (λ w. w) 7 [] refl
      refl refl

abbrev trace : Fields
trace = field "request_id" (text "r1") end

traced_context_example :
    let m = field "source" (text "web") (field "trace" (object trace) end) in
    (traced m (λ c. (get_key "request_id" (get_trace_context c), none)) none
      ≡ (some (text "r1"), none))
    × (get_key "source" m
        ≡ or_else (get_key "source" end) (get_key "source" (field "source" (text "web") end)))
unfolding bind_to_metadata get_key set_key update IsObject
traced_context_example =
    traced_context (λ j. none) (field "source" (text "web") end) end
      (field "source" (text "web") (field "trace" (object trace) end)) trace "request_id" "source"
      (text "r1") (λ c. none) none (refl, tt) tt refl refl refl refl
