-- ===== src/Core/Types.antt =====
-- A task row: the dataclass of src/dewey/core/types.py and the columns of
-- src/dewey/sqlalchemy/models.py and src/dewey/django/models.py, which agree field by field.
-- An id is a UUID, of which only its identity is used: a number. A timestamp is an aware datetime
-- in UTC: the microseconds since an epoch. `updated_at` is stamped by a column hook of the ORM,
-- read by nothing in the program, and left out.
use dewey.Prelude.{ℕ, String, ℤ, Option, Bool, ltb, ◌&&◌}
use dewey.Serialization.{Items, Fields}
use dewey.Core.States
use dewey.Core.States.{TaskStatus, is_status, failed}

pub record TaskEntry : Type 0 where
  pub id : ℕ
  pub task_type : String
  pub status : TaskStatus
  pub args : Items
  pub kwargs : Fields
  pub queue : String
  pub priority : ℤ
  pub attempts : ℕ
  pub max_attempts : ℕ
  pub error : String
  pub created_at : ℕ
  pub scheduled_for : Option ℕ
  pub dispatching_at : Option ℕ
  pub started_at : Option ℕ
  pub completed_at : Option ℕ
  pub idempotency_key : Option String
  pub metadata : Fields
  pub expires_at : Option ℕ
  pub initial_scheduled_for : Option ℕ
  pub expired_at : Option ℕ

unfoldable pub is_terminal : TaskEntry → Bool
unfolding States.is_terminal
is_terminal t = States.is_terminal t.status

unfoldable pub is_retryable : TaskEntry → Bool
is_retryable t = is_status failed t.status && ltb t.attempts t.max_attempts
