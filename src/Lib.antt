-- ===== src/Lib.antt =====
-- dewey: a task ledger in PostgreSQL, with a dispatcher that hands task ids to a transport, workers
-- that run them, and a sweep that recovers what was lost on the way.
--
-- A producer writes a row (create_task). A dispatcher claims rows that are due, marks them as
-- dispatching and hands their ids to the transport; what the transport refuses it releases. A worker
-- (process_task) starts the row in one transaction, runs the handler, and stores the result in
-- another. The sweep returns rows that are failed and due, stuck in processing, or never started, to
-- the backlog, or buries those without attempts left. An operator may retry, kill and purge rows.
--
-- Files, and what they model:
--   Prelude.antt          numbers, tests, lists, dictionaries and results that all parts share
--   Core.antt             src/dewey/core and src/dewey/errors.py: statuses and transitions, the row,
--                         exceptions, classify_failure
--   Serialization.antt    src/dewey/serialization.py: encode_value, encode_args, encode_kwargs
--   Policy.antt           src/dewey/policy.py, src/dewey/core/backoff.py: policies, backoffs,
--                         PolicyRegistry, task, resolve_policy, _validate,
--                         configure_policies
--   Ledger.antt           the tables, the SQL statements on them and the NOTIFYs; Ledger/Engine.antt
--                         the part of SELECT that the database decides, with the laws of SQL, which
--                         Ledger/Engine/Sorting.antt shows to hold of an engine that sorts;
--                         Ledger/Liveness.antt the table of dispatcher heartbeats
--   Sqlalchemy.antt       src/dewey/sqlalchemy: dispatch.py (claim, release, next_due, run_sweep,
--                         heartbeat), sweep.py, executor.py, queries.py; Sqlalchemy/System.antt all of
--                         their transactions as one step relation; AsyncExecutor, AsyncSweep,
--                         AsyncQueries and AsyncBackend beside it the asynchronous twins
--   Django.antt           src/dewey/django: dispatch.py, sweep.py, executor.py, queries.py over
--                         Django's ORM, with its partial saves; Django/System.antt all of their
--                         transactions, and runs in which both packages take turns on one ledger;
--                         Django/Settings.antt conf.py and checks.py, Django/Command.antt the command
--                         dewey_dispatcher up to its dispatcher
--   Dispatcher.antt       src/dewey/dispatcher.py: the loop, over any backend and transport
--   AsyncDispatcher.antt  src/dewey/dispatcher.py: the asyncio loop, whose calls may be cancelled
--   Listen.antt           src/dewey/listen_sync.py, src/dewey/sqlalchemy/listen.py and wait_for_work and
--                         close of the backends: Listen/Payload.antt the text of a NOTIFY,
--                         Listen/Channel.antt the quoted channel, Listen/Sync.antt SyncWorkListener,
--                         Listen/Async.antt AsyncPostgresWorkListener, Listen/Waiting.antt the backends
--   Logging.antt          src/dewey/core/logging.py: the trace context
--   Admission.antt        scripts/dependency_admission.py: Admission/Patterns.antt its regular
--                         expressions, Lock, Workflow, Requirements and Cooldown the checks of these
--                         names, Hotfix the exception from the cooldown, Gate main with its exit code
--   Examples.antt         concrete tables and runs
--
-- State and operations: a database is a record of tables as committed between two transactions, and a
-- transaction is a function on it that also takes the clock readings it makes. A SELECT ... FOR UPDATE
-- makes the rest of its transaction one step; rows that other sessions hold are a parameter of the
-- engine. Timestamps and durations are microseconds, ids are numbers, handlers are numbers. A handler,
-- what other sessions commit while it runs, and the random numbers of the jitter are arguments.
--
-- Bounds and fuel: each loop of a dispatcher takes the number of iterations, which is the source's
-- max_iterations. The walk of a workflow's YAML takes as fuel one more than its nodes, which is
-- enough since a node that is within itself is not entered again. The nesting of arguments is bounded
-- by max_depth, 10, as in the source.
--
-- Not modelled: an exception of a handler that is no `Exception`, which ends the worker and leaves
-- the row to the sweep, the adapters of third-party queues, Django's models and the readiness
-- command, signals, the OverflowError of a delay beyond what timedelta holds, log records,
-- `updated_at`, the text of messages, `dumps` of src/dewey/serialization.py, indexes and column
-- widths, the inventory report of the dependency gate, and the other scripts. The JSON text of a
-- payload, the database drivers and asyncpg are parameters with the laws that are needed; so are
-- what TOML, YAML and JSON parse to, and the answers of git, PyPI and GitHub.
pub mod Prelude
pub mod Core
pub mod Serialization
pub mod Policy
pub mod Ledger
pub mod Logging
pub mod Listen
pub mod Sqlalchemy
pub mod Django
pub mod Dispatcher
pub mod AsyncDispatcher
pub mod Admission
pub mod Examples
