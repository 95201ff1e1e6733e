-- ===== src/Core/Validation.antt =====
-- src/dewey/core/validation.py: a `datetime` argument carries a UTC offset or it does not.
use dewey.Prelude.{ℕ, Option, none, some, Result, ok, err, String}

pub data DateTime : Type 0 where
  aware : ℕ → DateTime
  naive : ℕ → DateTime

pub data ValueError : Type 0 where
  not_aware : String → ValueError
  empty_idempotency_key : ValueError

-- The instant of an argument that passes.
unfoldable pub require_timezone_aware : Option DateTime → String → Result ValueError (Option ℕ)
require_timezone_aware none field = ok none
require_timezone_aware (some (aware at)) field = ok (some at)
require_timezone_aware (some (naive at)) field = err (not_aware field)
