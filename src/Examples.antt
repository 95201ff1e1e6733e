-- ===== src/Examples.antt =====
-- Concrete tables, backends and requests, and the theorems at them.
pub mod Claims
pub mod Sweeps
pub mod Runs
pub mod Systems
pub mod Shared
pub mod Heartbeats
pub mod Loops
pub mod Policies
pub mod Listening
pub mod Admission
pub mod Settings
use dewey.Prelude.{ℕ, String, pos, Bool, true, false, Option, none, some, List, [], ◌∷◌}
use dewey.Core.States.{TaskStatus, pending, processing, dispatching, failed, completed}
use dewey.Core.Types.{TaskEntry}
use dewey.Serialization.{nil, end}
use dewey.Ledger.{Db}
use dewey.Ledger.Engine.{Engine}
use dewey.Ledger.Engine.Sorting.{sorting}
use dewey.Sqlalchemy.Dispatch.{Backend}

-- A row with two attempts to spend, created at 5.
abbrev pub row : ℕ → TaskStatus → TaskEntry
row id status = record {
  id = id;
  task_type = "mail";
  status = status;
  args = nil;
  kwargs = end;
  queue = "default";
  priority = pos 0;
  attempts = 0;
  max_attempts = 2;
  error = "";
  created_at = 5;
  scheduled_for = none;
  dispatching_at = none;
  started_at = none;
  completed_at = none;
  idempotency_key = none;
  metadata = end;
  expires_at = none;
  initial_scheduled_for = none;
  expired_at = none;
}

abbrev pub ready : TaskEntry
ready = row 1 pending

abbrev pub urgent : TaskEntry
urgent = record (row 2 pending) { priority = pos 9 }

-- Failed once, to be retried at 50.
abbrev pub waiting_retry : TaskEntry
waiting_retry = record (row 3 failed) { attempts = 1; scheduled_for = some 50; error = "boom" }

abbrev pub overdue : TaskEntry
overdue = record (row 4 pending) { expires_at = some 20 }

abbrev pub running : TaskEntry
running = record (row 5 processing) { attempts = 1; started_at = some 30 }

abbrev pub handed : TaskEntry
handed = record (row 6 dispatching) { dispatching_at = some 30 }

abbrev pub finished : TaskEntry
finished = record (row 7 completed) { attempts = 1; completed_at = some 40 }

abbrev pub table : List TaskEntry
table = ready ∷ urgent ∷ waiting_retry ∷ overdue ∷ running ∷ handed ∷ finished ∷ []

abbrev pub db : Db
db = record { postgresql = true; tasks = table; wakeups = []; dispatchers = [] }

abbrev pub empty_db : Db
empty_db = record { postgresql = true; tasks = []; wakeups = []; dispatchers = [] }

abbrev pub backend : Backend
backend = record {
  queues = none;
  stuck_threshold = 100;
  dispatch_timeout = 50;
  sweep_limit = 100;
  supports_skip_locked = true;
}

abbrev pub engine : Engine
engine = sorting (λ _. false)
