-- ===== src/Prelude/Integers.antt =====
-- Signed integers.
use Prim.Native.Nat.{ℕ}
use mathlib.Core.Bool.{Bool, false}
use snowcone.Prelude.Tests.{◌==◌}

-- A Lua integer.
pub data Integer : Type 0 where
  pos : ℕ → Integer
  -- `neg n` is `- n - 1`.
  neg : ℕ → Integer

abbrev pub integer_eq : Integer → Integer → Bool
integer_eq (pos a) (pos b) = a == b
integer_eq (neg a) (neg b) = a == b
integer_eq (pos a) (neg b) = false
integer_eq (neg a) (pos b) = false
