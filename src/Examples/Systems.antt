-- ===== src/Examples/Systems.antt =====
-- A run of the system from an empty table: a task is created, claimed and started.
use dewey.Prelude.{◌≡◌, refl, false, none, some, [], ◌∷◌, ok, arith}
use dewey.Core.Types.{TaskEntry}
use dewey.Core.Validation.{require_timezone_aware}
use dewey.Serialization.{nil, end, encode_args, encode_kwargs}
use dewey.Policy.{default_policy}
use dewey.Ledger.{Db, find, update, rows, notify_work_available}
use dewey.Ledger.Evolution.{Follows}
use dewey.Ledger.Engine.Sorting.{sorting}
use dewey.Ledger.Engine.Sorting.Laws.{sorting-IsSql}
use dewey.Sqlalchemy.Dispatch.{claim, hand_over}
use dewey.Sqlalchemy.Executor.Create.{Request, new_task, create_task}
use dewey.Sqlalchemy.System.{Step}
use dewey.Sqlalchemy.System.Kept.{payload, Counts}
use dewey.Sqlalchemy.System.Reached.{step-Follows, step_payload, step_counts}
use dewey.Examples.{engine, backend, empty_db}

abbrev pub request : Request
request = record {
  task_type = "mail";
  args = none;
  kwargs = none;
  queue = none;
  priority = none;
  max_attempts = none;
  scheduled_for = none;
  expires_at = none;
  idempotency_key = some "k";
  metadata = none;
}

abbrev pub created : TaskEntry
created = new_task 1 7 (default_policy "mail") request none none nil end

abbrev pub with_task : Db
with_task = record empty_db {
  tasks = created ∷ [];
  wakeups = record { entry_id = 1; queue = "default" } ∷ [];
}

pub create_mail : create_task default_policy 1 7 request empty_db ≡ ok (created, with_task)
unfolding create_task require_timezone_aware encode_args encode_kwargs find notify_work_available
create_mail = refl

abbrev pub after_claim : Db
after_claim = (claim engine backend 2 60 with_task).1

abbrev pub creates : Step empty_db with_task
creates = Step.create default_policy 1 7 request created create_mail (omega arith)

abbrev pub claims : Step with_task after_claim
claims = Step.claims engine backend 2 60 (sorting-IsSql (λ _. false)) refl

step-Follows_example : Follows created.status (hand_over 60 created).status
unfolding claim sorting update rows find
step-Follows_example =
    step-Follows with_task after_claim 1 created (hand_over 60 created) claims refl refl

step_payload_example : payload (hand_over 60 created) ≡ payload created
unfolding claim sorting update rows find
step_payload_example =
    step_payload with_task after_claim 1 created (hand_over 60 created) claims refl refl

step_counts_example : Counts created (hand_over 60 created)
unfolding claim sorting update rows find
step_counts_example =
    step_counts with_task after_claim 1 created (hand_over 60 created) claims refl refl
