-- ===== src/Prelude/Int.antt =====
-- Signed integers, for columns and arguments that may be negative.
use Prim.Native.Nat.{ℕ}
use mathlib.Core.Bool.{Bool, true, false}
use dewey.Prelude.Tests.{leb, ◌==◌}

-- `negsuc n` is -(n + 1).
pub data ℤ : Type 0 where
  pos : ℕ → ℤ
  negsuc : ℕ → ℤ

abbrev pub lebz : ℤ → ℤ → Bool
lebz (pos a) (pos b) = leb a b
lebz (pos a) (negsuc b) = false
lebz (negsuc a) (pos b) = true
lebz (negsuc a) (negsuc b) = leb b a

abbrev pub eqz : ℤ → ℤ → Bool
eqz (pos a) (pos b) = a == b
eqz (negsuc a) (negsuc b) = a == b
eqz _ _ = false
