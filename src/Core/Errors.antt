-- ===== src/Core/Errors.antt =====
-- src/dewey/errors.py: the exception classes that Dewey raises and interprets, beside the built-in
-- ones that they derive from and classes of the application. An application's class has one base.
use dewey.Prelude.{ℕ, ◌+◌, String, Bool, true, false, ◌≡◌, refl, ◌||◌, List, [], ◌∷◌, ◌==◌}

pub data ExceptionClass : Type 0 where
  base_exception exception type_error lookup_error : ExceptionClass
  dewey_error transient_error non_retryable_error retry_after serialization_error : ExceptionClass
  idempotency_conflict_error duplicate_task_type_error unknown_task_type_error : ExceptionClass
  application : ℕ → ExceptionClass → ExceptionClass

-- The identity of a class object.
abbrev class_id : ExceptionClass → ℕ
class_id base_exception = 0
class_id exception = 1
class_id type_error = 2
class_id lookup_error = 3
class_id dewey_error = 4
class_id transient_error = 5
class_id non_retryable_error = 6
class_id retry_after = 7
class_id serialization_error = 8
class_id idempotency_conflict_error = 9
class_id duplicate_task_type_error = 10
class_id unknown_task_type_error = 11
class_id (application n base) = 12 + n

abbrev dewey_bases : List ExceptionClass
dewey_bases = dewey_error ∷ exception ∷ base_exception ∷ []

-- The class and all its bases.
abbrev mro : ExceptionClass → List ExceptionClass
mro base_exception = base_exception ∷ []
mro exception = exception ∷ base_exception ∷ []
mro type_error = type_error ∷ exception ∷ base_exception ∷ []
mro lookup_error = lookup_error ∷ exception ∷ base_exception ∷ []
mro dewey_error = dewey_bases
mro transient_error = transient_error ∷ dewey_bases
mro non_retryable_error = non_retryable_error ∷ dewey_bases
mro retry_after = retry_after ∷ dewey_bases
mro serialization_error = serialization_error ∷ type_error ∷ dewey_bases
mro idempotency_conflict_error = idempotency_conflict_error ∷ dewey_bases
mro duplicate_task_type_error = duplicate_task_type_error ∷ dewey_bases
mro unknown_task_type_error = unknown_task_type_error ∷ lookup_error ∷ dewey_bases
mro (application n base) = application n base ∷ mro base

abbrev in_classes : ExceptionClass → List ExceptionClass → Bool
in_classes c [] = false
in_classes c (d ∷ ds) = class_id c == class_id d || in_classes c ds

unfoldable pub issubclass : ExceptionClass → ExceptionClass → Bool
issubclass c d = in_classes d (mro c)

-- An `Exception` that a handler raised, which is what the executors catch: what is only a
-- `BaseException`, such as SystemExit, ends the worker where it is, and is not among these. `seconds`,
-- in microseconds, is what a `RetryAfter` carries.
pub record Raised : Type 0 where
  pub cls : ExceptionClass
  pub message : String
  pub seconds : ℕ
  pub is_exception : issubclass cls exception ≡ true

pub unknown_task_type_error-IsException : issubclass unknown_task_type_error exception ≡ true
unfolding issubclass
unknown_task_type_error-IsException = refl

pub retry_after-IsException : issubclass retry_after exception ≡ true
unfolding issubclass
retry_after-IsException = refl

-- `isinstance(exc, classes)` for a tuple of classes.
unfoldable pub isinstance : Raised → List ExceptionClass → Bool
unfolding issubclass
isinstance exc [] = false
isinstance exc (c ∷ cs) = issubclass exc.cls c || isinstance exc cs
