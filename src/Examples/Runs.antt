-- ===== src/Examples/Runs.antt =====
-- A worker at the row 1, whose handler returns or raises.
use dewey.Prelude.{ℕ, ◌⊎◌, ◌≤◌, ◌≡◌, refl, false, true, none, some}
use dewey.Core.States.{can_transition_to, is_terminal, is_status, processing, completed}
use dewey.Core.Types.{TaskEntry}
use dewey.Core.Errors.{retry_after, retry_after-IsException}
use dewey.Policy.{default_policy}
use dewey.Ledger.{find, update}
use dewey.Sqlalchemy.Executor.{start, phase1, started, skipped, World, invoke, process_task}
use dewey.Sqlalchemy.Executor.Phases.{phase1_again}
use dewey.Sqlalchemy.Executor.Runs.{ended, process_ended, process_killed, process_true}
use dewey.Sqlalchemy.Queries.{kill_task}
use dewey.Sqlalchemy.System.Reached.{is_recoverable}
use dewey.Sqlalchemy.AsyncExecutor.{claimed, finished, process_task_async}
use dewey.Sqlalchemy.AsyncExecutor.Cancelled.{cancelled_recoverable}
use dewey.Examples.{backend, db, ready}

-- The handler asks for another attempt after 500.
abbrev pub raising : World
raising = record {
  run = λ fn t. some (record {
    cls = retry_after;
    message = "later";
    seconds = 500;
    is_exception = retry_after-IsException;
  });
  meanwhile = λ d. d;
  now_after = 90;
  draw = λ n. n;
}

abbrev returning : World
returning = record { run = λ fn t. none; meanwhile = λ d. d; now_after = 90; draw = λ n. n }

abbrev with_kill : World
with_kill = record {
  run = λ fn t. none;
  meanwhile = λ d. (kill_task 1 d).1;
  now_after = 90;
  draw = λ n. n;
}

phase1_again_example : phase1 61 1 (phase1 60 1 db).1 ≡ (skipped, (phase1 60 1 db).1)
unfolding phase1 find
phase1_again_example = phase1_again 60 61 1 db (start 60 ready) refl

process_ended_example :
    process_task raising (some 8) none default_policy 60 1 db
    ≡ ended raising
        (some 8)
        none
        default_policy
        60
        1
        db
        (start 60 ready)
        (raising.meanwhile (phase1 60 1 db).1)
        (invoke raising (some 8) (default_policy "mail") (start 60 ready))
unfolding phase1 find update
process_ended_example =
    process_ended raising (some 8) none default_policy 60 1 db (start 60 ready) (start 60 ready)
      refl refl refl

process_killed_example :
    process_task with_kill (some 8) none default_policy 60 1 db
    ≡ (false, with_kill.meanwhile (phase1 60 1 db).1)
unfolding phase1 find update kill_task can_transition_to
process_killed_example =
    process_killed with_kill (some 8) none default_policy 60 1 db (start 60 ready) refl
      (λ t e. cc e)

process_true_example :
    (cached : TaskEntry) × (t : TaskEntry) × ((phase1 60 1 db).0 ≡ started cached)
    × (invoke returning (some 8) (default_policy cached.task_type) cached ≡ none)
    × (find 1 (returning.meanwhile (phase1 60 1 db).1).tasks ≡ some t)
    × (is_status processing t.status ≡ true)
    × (find 1 (process_task returning (some 8) none default_policy 60 1 db).1.tasks
        ≡ some (record t { status = completed; error = ""; completed_at = some 90 }))
unfolding process_task find update
process_true_example = process_true returning (some 8) none default_policy 60 1 db refl

cancelled_recoverable_example :
    (t' : TaskEntry) × (find 1
        (process_task_async returning (some 8) none default_policy 1 finished 60 db).1.tasks
      ≡ some t')
    × (((is_terminal t'.status ≡ true) × ((finished ≡ claimed) ⊎ (finished ≡ finished)))
        ⊎ ((at : ℕ) × ((now' : ℕ) → at ≤ now' → is_recoverable backend 10 now' t' ≡ true)))
unfolding process_task_async find is_terminal
cancelled_recoverable_example =
    cancelled_recoverable returning (some 8) none default_policy 1 60 db backend 10 finished ready
      refl refl refl refl refl
