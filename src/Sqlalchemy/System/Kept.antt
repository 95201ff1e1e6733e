-- ===== src/Sqlalchemy/System/Kept.antt =====
-- What the steps of a row leave alone.
use dewey.Prelude.{ℕ, suc, ◌≡◌, ap, ◌∙◌, inl, inr, String, true, Option, ℤ}
use dewey.Core.States.{in_statuses, can_transition_to, pending, processing}
use dewey.Core.Types.{TaskEntry}
use dewey.Serialization.{Items, Fields}
use dewey.Sqlalchemy.Executor.{claimable_statuses}
use dewey.Sqlalchemy.System.Rows.{RowStep, failure_cases}

-- What a producer asked for.
pub record Payload : Type 0 where
  pub id : ℕ
  pub task_type : String
  pub args : Items
  pub kwargs : Fields
  pub queue : String
  pub priority : ℤ
  pub max_attempts : ℕ
  pub created_at : ℕ
  pub idempotency_key : Option String
  pub metadata : Fields
  pub expires_at : Option ℕ
  pub initial_scheduled_for : Option ℕ

abbrev pub payload : TaskEntry → Payload
payload t = record {
  id = t.id;
  task_type = t.task_type;
  args = t.args;
  kwargs = t.kwargs;
  queue = t.queue;
  priority = t.priority;
  max_attempts = t.max_attempts;
  created_at = t.created_at;
  idempotency_key = t.idempotency_key;
  metadata = t.metadata;
  expires_at = t.expires_at;
  initial_scheduled_for = t.initial_scheduled_for;
}

pub payload-RowStep : (t t' : TaskEntry) → RowStep t t' → payload t' ≡ payload t
payload-RowStep t t' (RowStep.untouched e) = ap payload e
payload-RowStep t t' (RowStep.expires now e h) = ap payload e
payload-RowStep t t' (RowStep.handed_over now e h) = ap payload e
payload-RowStep t t' (RowStep.given_back e h) = ap payload e
payload-RowStep t t' (RowStep.begun now e h) = ap payload e
payload-RowStep t t' (RowStep.fails draw exc policy attempts max_attempts now backoff e h) =
    elim (failure_cases draw exc policy attempts max_attempts now backoff t) [
      | inl f ↦ ap payload (e ∙ f)
      | inr (_, f) ↦ ap payload (e ∙ f)
    ]
payload-RowStep t t' (RowStep.completes now e h) = ap payload e
payload-RowStep t t' (RowStep.requeued e h l) = ap payload e
payload-RowStep t t' (RowStep.abandoned e h) = ap payload e
payload-RowStep t t' (RowStep.resets e h) = ap payload e
payload-RowStep t t' (RowStep.killed e h) = ap payload e

-- What the count of attempts may do: stay, rise by one where a worker starts a row that waits for it,
-- or go back to none where an operator puts the row back to pending.
pub data Counts (t t' : TaskEntry) : Type 0 where
  kept : t'.attempts ≡ t.attempts → Counts t t'
  counted :
      t'.attempts ≡ suc t.attempts
      → t'.status ≡ processing
      → in_statuses t.status claimable_statuses ≡ true
      → Counts t t'
  cleared :
      t'.attempts ≡ 0
      → t'.status ≡ pending
      → can_transition_to t.status pending ≡ true
      → Counts t t'

abbrev attempts_of : TaskEntry → ℕ
attempts_of t = t.attempts

pub RowStep-Counts : (t t' : TaskEntry) → RowStep t t' → Counts t t'
RowStep-Counts t t' (RowStep.untouched e) = kept (ap attempts_of e)
RowStep-Counts t t' (RowStep.expires now e h) = kept (ap attempts_of e)
RowStep-Counts t t' (RowStep.handed_over now e h) = kept (ap attempts_of e)
RowStep-Counts t t' (RowStep.given_back e h) = kept (ap attempts_of e)
RowStep-Counts t t' (RowStep.begun now e h) =
    counted (ap attempts_of e) (ap (λ (u : TaskEntry). u.status) e) h
RowStep-Counts t t' (RowStep.fails draw exc policy attempts max_attempts now backoff e h) =
    elim (failure_cases draw exc policy attempts max_attempts now backoff t) [
      | inl f ↦ kept (ap attempts_of (e ∙ f))
      | inr (_, f) ↦ kept (ap attempts_of (e ∙ f))
    ]
RowStep-Counts t t' (RowStep.completes now e h) = kept (ap attempts_of e)
RowStep-Counts t t' (RowStep.requeued e h l) = kept (ap attempts_of e)
RowStep-Counts t t' (RowStep.abandoned e h) = kept (ap attempts_of e)
RowStep-Counts t t' (RowStep.resets e h) =
    cleared (ap attempts_of e) (ap (λ (u : TaskEntry). u.status) e) h
RowStep-Counts t t' (RowStep.killed e h) = kept (ap attempts_of e)
