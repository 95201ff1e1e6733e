-- ===== src/Sqlalchemy/Executor/Create.antt =====
-- `create_task` and `create_or_get_task` of src/dewey/sqlalchemy/executor.py. The id and the
-- creation time are the column defaults, `uuid4()` and `utcnow()`, and are arguments. `INSERT` fails
-- on a primary key that is taken and on the unique constraint over (task_type, idempotency_key),
-- where NULL keys do not collide; `begin_nested` then leaves the tables as they were.
use dewey.Prelude.{
  ℕ, String, ℤ, Bool, true, false, ◌&&◌, ◌||◌, Option, none, some, List, [], ◌∷◌, ◌++◌, Result, ok,
  err, ◌>>=◌, ◌>>◌, get_or, is_some, is_empty, eqz, ◌==◌, str_eq, if◌then◌else◌,
}
use dewey.Core.States.{pending}
use dewey.Core.Types.{TaskEntry}
use dewey.Core.Validation.{DateTime, ValueError, empty_idempotency_key, require_timezone_aware}
use dewey.Serialization.{Value, Items, Fields, end, SerializationError, encode_args, encode_kwargs}
use dewey.Policy.{TaskPolicy}
use dewey.Ledger.{Db, find, notify_work_available}

-- The arguments of a producer's call. `metadata or {}` makes `None` and `{}` the same.
pub record Request : Type 0 where
  pub task_type : String
  pub args : Option Value
  pub kwargs : Option Value
  pub queue : Option String
  pub priority : Option ℤ
  pub max_attempts : Option ℕ
  pub scheduled_for : Option DateTime
  pub expires_at : Option DateTime
  pub idempotency_key : Option String
  pub metadata : Option Fields

-- The immutable creation fields that `create_or_get_task` compares, in the order of its dictionary.
pub data Field : Type 0 where
  task_type_ args_ kwargs_ queue_ priority_ max_attempts_ scheduled_for_ expires_at_ : Field

pub data CreateError : Type 0 where
  value_error : ValueError → CreateError
  serialization_error : SerializationError → CreateError
  integrity_error : CreateError
  idempotency_conflict_error : List Field → CreateError

abbrev pub raised_value {ℓ} : {A : Type ℓ} → Result ValueError A → Result CreateError A
raised_value (ok a) = ok a
raised_value (err e) = err (value_error e)

abbrev pub raised_serialization {ℓ} :
    {A : Type ℓ} → Result SerializationError A → Result CreateError A
raised_serialization (ok a) = ok a
raised_serialization (err e) = err (serialization_error e)

abbrev pub same_key : String → String → TaskEntry → Bool
same_key task_type key t =
    str_eq task_type t.task_type && elim t.idempotency_key [ none ↦ false | some k ↦ str_eq key k ]

-- `SELECT … WHERE task_type = … AND idempotency_key = …`
unfoldable pub find_key : String → String → List TaskEntry → Option TaskEntry
find_key task_type key [] = none
find_key task_type key (t ∷ ts) =
    if same_key task_type key t then some t else find_key task_type key ts

abbrev pub key_taken : String → Option String → List TaskEntry → Bool
key_taken task_type none ts = false
key_taken task_type (some key) ts = is_some (find_key task_type key ts)

-- `session.add(task); session.flush()`
unfoldable pub insert_task : TaskEntry → Db → Result CreateError Db
unfolding find_key
insert_task t db =
    if is_some (find t.id db.tasks) || key_taken t.task_type t.idempotency_key db.tasks
    then err integrity_error
    else ok (record db { tasks = db.tasks ++ t ∷ [] })

-- The row that `create_task` writes.
abbrev pub new_task :
    ℕ → ℕ → TaskPolicy → Request → Option ℕ → Option ℕ → Items → Fields → TaskEntry
new_task id now policy r scheduled_for expires_at args kwargs = record {
  id = id;
  task_type = r.task_type;
  status = pending;
  args = args;
  kwargs = kwargs;
  queue = get_or r.queue policy.queue;
  priority = get_or r.priority policy.priority;
  attempts = 0;
  max_attempts = get_or r.max_attempts policy.max_attempts;
  error = "";
  created_at = now;
  scheduled_for = scheduled_for;
  dispatching_at = none;
  started_at = none;
  completed_at = none;
  idempotency_key = r.idempotency_key;
  metadata = get_or r.metadata end;
  expires_at = expires_at;
  initial_scheduled_for = scheduled_for;
  expired_at = none;
}

unfoldable pub create_task :
    (String → TaskPolicy) → ℕ → ℕ → Request → Db → Result CreateError (TaskEntry × Db)
unfolding insert_task
create_task resolve id now r db = do
  scheduled_for ← raised_value (require_timezone_aware r.scheduled_for "scheduled_for")
  expires_at ← raised_value (require_timezone_aware r.expires_at "expires_at")
  args ← raised_serialization (encode_args r.args)
  kwargs ← raised_serialization (encode_kwargs r.kwargs)
  let t = new_task id now (resolve r.task_type) r scheduled_for expires_at args kwargs
  db' ← insert_task t db
  ok (t, notify_work_available id t.queue db')

-- Python's `==` on the decoded JSON of two columns.
pub record JsonEquality : Type 0 where
  pub same_args : Items → Items → Bool
  pub same_kwargs : Fields → Fields → Bool

abbrev pub same_time : Option ℕ → Option ℕ → Bool
same_time none none = true
same_time (some a) (some b) = a == b
same_time _ _ = false

abbrev unless : Bool → Field → List Field → List Field
unless same name rest = if same then rest else name ∷ rest

-- `tuple(name for name, value in expected.items() if actual[name] != value)`
unfoldable pub differing : JsonEquality → TaskEntry → TaskEntry → List Field
differing eq expected existing = unless (str_eq expected.task_type existing.task_type) task_type_ (
    unless (eq.same_args expected.args existing.args) args_ (
      unless (eq.same_kwargs expected.kwargs existing.kwargs) kwargs_ (
        unless (str_eq expected.queue existing.queue) queue_ (
          unless (eqz expected.priority existing.priority) priority_ (
            unless (expected.max_attempts == existing.max_attempts) max_attempts_ (
              unless (same_time expected.scheduled_for existing.initial_scheduled_for)
                scheduled_for_
                (unless (same_time expected.expires_at existing.expires_at) expires_at_ [])))))))

unfoldable pub compare_existing :
    JsonEquality → TaskEntry → Db → Option TaskEntry → Result CreateError (TaskEntry × Db)
unfolding differing
compare_existing eq expected db none = err integrity_error
compare_existing eq expected db (some existing) =
    let names = differing eq expected existing in
    if is_empty names then ok (existing, db) else err (idempotency_conflict_error names)

-- `except IntegrityError`: the savepoint has undone the insert.
unfoldable pub or_existing :
    JsonEquality
    → String
    → TaskEntry
    → Db
    → Result CreateError (TaskEntry × Db)
    → Result CreateError (TaskEntry × Db)
unfolding compare_existing
or_existing eq key expected db (ok created) = ok created
or_existing eq key expected db (err integrity_error) =
    compare_existing eq expected db (find_key expected.task_type key db.tasks)
or_existing eq key expected db (err e) = err e

-- `r.idempotency_key` is the required argument `idempotency_key`; `None` and `""` are refused.
unfoldable pub create_or_get_task :
    JsonEquality
    → (String → TaskPolicy)
    → ℕ
    → ℕ
    → Request
    → Db
    → Result CreateError (TaskEntry × Db)
unfolding create_task or_existing
create_or_get_task eq resolve id now r db = do
  let key = get_or r.idempotency_key ""
  raised_value (if str_eq key "" then err empty_idempotency_key else ok tt)
  scheduled_for ← raised_value (require_timezone_aware r.scheduled_for "scheduled_for")
  expires_at ← raised_value (require_timezone_aware r.expires_at "expires_at")
  args ← raised_serialization (encode_args r.args)
  kwargs ← raised_serialization (encode_kwargs r.kwargs)
  let expected = new_task id now (resolve r.task_type) r scheduled_for expires_at args kwargs
  or_existing eq key expected db (create_task resolve id now r db)
