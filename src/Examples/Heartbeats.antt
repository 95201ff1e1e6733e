-- ===== src/Examples/Heartbeats.antt =====
-- A dispatcher that beats, next to one that is long gone, and a producer that asks twice.
use dewey.Prelude.{
  ℕ, zero, suc, ◌≡◌, refl, ap, Bool, true, some, [], ◌∷◌, ok, arith, take, length-take-le, List,
}
use dewey.Core.Heartbeat.{DispatcherHeartbeat, serves}
use dewey.Core.Validation.{require_timezone_aware}
use dewey.Serialization.{encode_args, encode_kwargs}
use dewey.Policy.{default_policy}
use dewey.Ledger.{Db, find, notify_work_available}
use dewey.Ledger.Liveness.{any, find_beat, Instance, Reader, IsReader, beat}
use dewey.Ledger.Liveness.Laws.{is_of}
use dewey.Sqlalchemy.Executor.Create.{JsonEquality, create_task, create_or_get_task}
use dewey.Sqlalchemy.Executor.Idempotent.{create_or_get_task-again}
use dewey.Sqlalchemy.Heartbeats.{heartbeat, get_dispatchers}
use dewey.Sqlalchemy.Heartbeats.Reported.{heartbeat-reported}
use dewey.Examples.{empty_db}
use dewey.Examples.Systems.{request, created, with_task}

abbrev reader : Reader
reader = record { newest_first = λ hs. hs; take_any = take }

any-take :
    (n : ℕ) (p : DispatcherHeartbeat → Bool) (hs : List DispatcherHeartbeat)
    → any p (take n hs) ≡ true
    → any p hs ≡ true
unfolding any
any-take zero p hs h = cc h
any-take (suc n) p [] h = h
any-take (suc n) p (x ∷ hs) h = ground (arith, h, any-take n p hs)

reader-IsReader : IsReader reader
reader-IsReader = record { same_rows = λ p hs. refl; of_rows = any-take; limited = length-take-le }

abbrev instance_ : Instance
instance_ = record {
  instance_id = 1;
  dewey_version = "1";
  backend = "sqlalchemy";
  database = "default";
  queues = some ("mail" ∷ "default" ∷ []);
  started_at = 10;
}

abbrev other : DispatcherHeartbeat
other = beat (record instance_ { instance_id = 2; started_at = 5 }) 60

abbrev beaten : Db
beaten = record empty_db { dispatchers = beat instance_ 40 ∷ other ∷ [] }

same_instance :
    (row : DispatcherHeartbeat)
    → find_beat 1 beaten.dispatchers ≡ some row
    → (row.queues ≡ instance_.queues) × (row.database ≡ instance_.database)
unfolding find_beat
same_instance row found =
    let same : row ≡ beat instance_ 40 = cc found in
    (
      ap (λ (h : DispatcherHeartbeat). h.queues) same,
      ap (λ (h : DispatcherHeartbeat). h.database) same,
    )

heartbeat-reported_example :
    any (is_of 1) (
      get_dispatchers reader
        (some "default")
        (some ("mail" ∷ []))
        45
        100
        (heartbeat reader instance_ 70 beaten))
    ≡ true
unfolding find_beat serves
heartbeat-reported_example =
    heartbeat-reported reader reader-IsReader instance_ 70 (some "default") (some ("mail" ∷ [])) 45
      100 beaten same_instance refl refl

abbrev json_equality : JsonEquality
json_equality = record { same_args = λ _ _. true; same_kwargs = λ _ _. true }

create_or_get_mail :
    create_or_get_task json_equality default_policy 1 7 request empty_db ≡ ok (created, with_task)
unfolding create_or_get_task create_task require_timezone_aware encode_args encode_kwargs find
    notify_work_available
create_or_get_mail = refl

create_or_get_task-again_example :
    create_or_get_task json_equality default_policy 2 9 request with_task ≡ ok (created, with_task)
create_or_get_task-again_example =
    create_or_get_task-again json_equality
      (record { args_refl = λ a. refl; kwargs_refl = λ k. refl }) default_policy request 1 2 7 9
      created empty_db with_task create_or_get_mail
