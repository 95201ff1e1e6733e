-- ===== src/Policy/Options.antt =====
-- `_validate` and `configure_policies` of src/dewey/policy.py: the options of a policy as they are
-- given, before they are known to be policy fields. A tuple holds exception classes here. The
-- dictionary that `_validate` changes in place is the one that it returns.
use dewey.Prelude.{
  ℕ, String, ℤ, pos, Bool, true, false, ◌||◌, Option, none, some, List, [], ◌∷◌, Result, ok, err,
  ◌>>◌, ◌>>=◌, ltb, str_eq, if◌then◌else◌,
}
use dewey.Prelude.Dict.{lookup, assign}
use dewey.Core.Errors.{ExceptionClass}
use dewey.Policy.Backoff.{BackoffPolicy}

-- A Python value, as far as `_validate` tells them apart.
pub data Given : Type 0 where
  int_value : ℤ → Given
  bool_value : Bool → Given
  str_value : String → Given
  class_value : ExceptionClass → Given
  tuple_value : List ExceptionClass → Given
  backoff_value : BackoffPolicy → Given
  other_value : ℕ → Given

pub data OptionError : Type 0 where
  unknown_fields : List String → OptionError
  max_attempts_error : Given → OptionError
  classes_error : String → Given → OptionError
  backoff_error : Given → OptionError

abbrev pub Options : Type 0
Options = List (String × Given)

unfoldable pub is_policy_field : String → Bool
is_policy_field k =
    str_eq k "queue"
    || str_eq k "priority"
    || str_eq k "max_attempts"
    || str_eq k "backoff"
    || str_eq k "retry_on"
    || str_eq k "fail_fast_on"

-- `set(overrides) - POLICY_FIELDS`
unfoldable pub unknown : Options → List String
unknown [] = []
unknown ((k, v) ∷ overrides) =
    let rest = unknown overrides in if is_policy_field k then rest else k ∷ rest

unfoldable pub check_fields : List String → Result OptionError (Unit {0})
check_fields [] = ok tt
check_fields (k ∷ ks) = err (unknown_fields (k ∷ ks))

abbrev pub is_attempts : Given → Bool
is_attempts (int_value (pos n)) = ltb 0 n
is_attempts v = false

abbrev pub is_classes : Given → Bool
is_classes (tuple_value cs) = true
is_classes (class_value c) = true
is_classes v = false

abbrev pub is_backoff : Given → Bool
is_backoff (backoff_value b) = true
is_backoff v = false

unfoldable pub check_max_attempts : Option Given → Result OptionError (Unit {0})
check_max_attempts none = ok tt
check_max_attempts (some v) = if is_attempts v then ok tt else err (max_attempts_error v)

-- A bare exception class is replaced by the tuple of it alone.
unfoldable pub as_tuple : String → Options → Option Given → Result OptionError Options
as_tuple key overrides (some (class_value c)) = ok (assign key (tuple_value (c ∷ [])) overrides)
as_tuple key overrides (some (tuple_value cs)) = ok overrides
as_tuple key overrides (some v) = err (classes_error key v)
as_tuple key overrides none = ok overrides

unfoldable pub check_backoff : Options → Option Given → Result OptionError Options
check_backoff overrides none = ok overrides
check_backoff overrides (some v) = if is_backoff v then ok overrides else err (backoff_error v)

unfoldable pub validate : Options → Result OptionError Options
unfolding check_fields check_max_attempts as_tuple check_backoff
validate overrides =
    check_fields (unknown overrides)
    >> check_max_attempts (lookup "max_attempts" overrides)
    >> (as_tuple "retry_on" overrides (lookup "retry_on" overrides) >>= λ a.
        as_tuple "fail_fast_on" a (lookup "fail_fast_on" a) >>= λ b.
        check_backoff b (lookup "backoff" b))

-- The project's layer, by task type.
abbrev pub Layer : Type 0
Layer = List (String × Options)

unfoldable pub validate_all : Layer → Result OptionError (Unit {0})
unfolding validate
validate_all [] = ok tt
validate_all ((t, overrides) ∷ policies) = validate overrides >>= λ o. validate_all policies

unfoldable pub configure_each : Layer → Layer → Layer
configure_each [] layer = layer
configure_each ((t, overrides) ∷ policies) layer =
    configure_each policies (assign t overrides layer)

unfoldable pub configure_policies : Layer → Layer → Result OptionError Layer
unfolding validate_all configure_each
configure_policies policies layer = validate_all policies >> ok (configure_each policies layer)
