-- ===== src/Examples/Shared.antt =====
-- A run of the two packages on one ledger, and Django's operations on a table with a row of each
-- kind.
use dewey.Prelude.{ℕ, ◌+◌, ◌≤◌, ◌≡◌, refl, true, none, some, Distinct, false}
use dewey.Sqlalchemy
use dewey.Django
use dewey.Core.States.{is_terminal}
use dewey.Core.Types.{TaskEntry}
use dewey.Policy.{default_policy}
use dewey.Ledger.{Db, find, ids, update, rows}
use dewey.Ledger.Evolution.{Holds}
use dewey.Ledger.Engine.Sorting.{sorting}
use dewey.Ledger.Engine.Sorting.Laws.{sorting-IsSql}
use dewey.Sqlalchemy.Dispatch.{claim, hand_over}
use dewey.Sqlalchemy.Executor.{start}
use dewey.Sqlalchemy.Sweep.{SweepTimes}
use dewey.Sqlalchemy.System.{here, then_}
use dewey.Sqlalchemy.System.Rows.{is_sound}
use dewey.Sqlalchemy.System.Reached.{reached_sound, is_recoverable}
use dewey.Django.Dispatch.{DjangoBackend}
use dewey.Django.Dispatch.Laws.{counterpart, claim-eq}
use dewey.Django.Executor.{phase1}
use dewey.Django.Executor.Processing.{process_task-eq}
use dewey.Django.System.{Step, of_sqlalchemy, of_django, Runs, idle}
use dewey.Django.System.Simulation.{Matched, simulates}
use dewey.Django.System.Reached.{shared_sound, shared_recoverable}
use dewey.Django.System.Budget.{starts, is_held, starts_bounded}
use dewey.Examples.{db, engine, backend, empty_db}
use dewey.Examples.Runs.{raising}
use dewey.Examples.Systems.{created, with_task, after_claim, creates, claims}

abbrev distinct_db : Distinct (ids db.tasks)
distinct_db = (refl, (refl, (refl, (refl, (refl, (refl, (refl, tt)))))))

-- Django's worker takes the row that SQLAlchemy's dispatcher claimed.
abbrev after_start : Db
after_start = (phase1 70 1 after_claim).1

abbrev taken : TaskEntry
taken = start 70 (hand_over 60 created)

abbrev worked : Runs with_task after_start
worked = Runs.then_ (Runs.then_ idle (of_sqlalchemy claims)) (of_django (Step.starts 70 1 refl))

abbrev shared : Runs empty_db after_start
shared =
    Runs.then_ (Runs.then_ (Runs.then_ idle (of_sqlalchemy creates)) (of_sqlalchemy claims))
      (of_django (Step.starts 70 1 refl))

none_sound : Holds (λ t. is_sound t ≡ true) empty_db.tasks
unfolding find
none_sound i t f = cc f

created_sound : Holds (λ t. is_sound t ≡ true) with_task.tasks
created_sound = reached_sound empty_db with_task (then_ here creates) none_sound

simulates_example : Matched db (Django.Sweep.sweep_failed engine 10 60 db).1
simulates_example =
    simulates db (Django.Sweep.sweep_failed engine 10 60 db).1
      (Step.sweeps_failed engine 10 60 (sorting-IsSql (λ _. false)) refl) distinct_db

shared_sound_example :
    Distinct (ids after_start.tasks) × Holds (λ t. is_sound t ≡ true) after_start.tasks
shared_sound_example = shared_sound empty_db after_start shared tt none_sound

shared_recoverable_example :
    (at : ℕ) × ((now : ℕ) → at ≤ now → is_recoverable backend 10 now taken ≡ true)
unfolding claim sorting update rows find phase1 is_terminal
shared_recoverable_example =
    shared_recoverable backend 10 1 empty_db after_start taken refl shared refl refl

starts_bounded_example :
    (t : TaskEntry) × (find 1 with_task.tasks ≡ some t) × (t.attempts + starts 1 worked ≤ 5)
unfolding claim sorting update rows find phase1 is_held
starts_bounded_example =
    starts_bounded 1 with_task after_start worked taken (refl, tt) created_sound refl refl

process_task-eq_example :
    Django.Executor.process_task raising (some 8) none default_policy 60 1 db
    ≡ Sqlalchemy.Executor.process_task raising (some 8) none default_policy 60 1 db
unfolding Sqlalchemy.Executor.phase1 find update
process_task-eq_example =
    process_task-eq raising (some 8) none default_policy 60 1 db distinct_db distinct_db

abbrev django : DjangoBackend
django = record { queues = none; stuck_threshold = 100; dispatch_timeout = 50; sweep_limit = 100 }

claim-eq_example :
    Django.Dispatch.claim engine django 2 60 db ≡ claim engine (counterpart django) 2 60 db
claim-eq_example = claim-eq engine django 2 60 (sorting-IsSql (λ _. false)) db

abbrev times : SweepTimes
times = record { expired = 200; failed = 201; dispatching = 202; stuck = 203 }
