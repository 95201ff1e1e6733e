-- ===== src/Examples/Policies.antt =====
-- Policies, failures and arguments.
use dewey.Prelude.{ℕ, ◌≡◌, refl, ◌↔◌, String, true, none, some, [], ◌∷◌, ok, arith, pos}
use dewey.Core.States.{failed}
use dewey.Core.Errors.{Raised, retry_after, retry_after-IsException, isinstance}
use dewey.Core.Execution.{classify_failure}
use dewey.Core.Execution.Outcomes.{retry_after_overrides_policy}
use dewey.Policy.{TaskPolicy, default_policy}
use dewey.Policy.Backoff.{Fraction}
use dewey.Prelude.Dict.{lookup}
use dewey.Policy.Options.{Given, int_value, class_value, Options, Layer, validate}
use dewey.Policy.Accepted.{is_permitted, validate_accepts}
use dewey.Serialization.{
  Json, array, cons, nil, integer, finite, number, Value, sequence, item, done, float_,
  encode_value,
}
use dewey.Serialization.Stability.{Number, as_int, loaded, encode_value_again}

abbrev later : Raised
later = record {
  cls = retry_after;
  message = "later";
  seconds = 500;
  is_exception = retry_after-IsException;
}

abbrev policy : TaskPolicy
policy = default_policy "mail"

retry_after_overrides_policy_example :
    (classify_failure
      (λ n. n)
      later
      (record policy { fail_fast_on = retry_after ∷ [] })
      1
      2
      60
      none).status
    ≡ failed
unfolding isinstance
retry_after_overrides_policy_example =
    retry_after_overrides_policy (λ n. n) later (record policy { fail_fast_on = retry_after ∷ [] })
      1 2 60 none refl (omega arith)

abbrev quarter : Fraction
quarter = record { numerator = 1; denominator = 4 }

abbrev double : Fraction
double = record { numerator = 2; denominator = 1 }

abbrev options : Options
options = ("max_attempts", int_value (pos 3)) ∷ ("retry_on", class_value retry_after) ∷ []

validate_accepts_example :
    ((o : Options) × (validate options ≡ ok o))
    ↔ ((k : String) (v : Given) → lookup k options ≡ some v → is_permitted k v ≡ true)
validate_accepts_example = validate_accepts options

abbrev layer : Layer
layer = ("mail", options) ∷ []

-- 1e23, of which JSONB makes an int.
abbrev argument : Value
argument = sequence (item (float_ (number 4_950_912_855_330_343_670)) done)

abbrev column : Json
column = array (cons (finite 4_950_912_855_330_343_670) nil)

abbrev read_back : ℕ → Number
read_back bits = as_int (pos 100_000_000_000_000_000_000_000)

encode_value_again_example :
    encode_value 0 (loaded read_back column)
    ≡ ok (array (cons (integer (pos 100_000_000_000_000_000_000_000)) nil))
unfolding encode_value
encode_value_again_example = encode_value_again read_back 0 argument column refl
