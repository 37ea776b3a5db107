-- ===== src/Prelude/Ints.antt =====
-- The signed integers over the native naturals, for the `int` parameters of the interface.
use Prim.Native.Nat.{ℕ, zero, suc}
use mathlib.Core.Bool.{Bool, true, false}
use pthipth.Prelude.Tests.{ltb, ◌==◌}

pub data ℤ : Type 0 where
  pos negsuc : (n : ℕ) → ℤ

-- `a < b`
abbrev pub ltz : ℤ → ℤ → Bool
ltz (pos a) (pos b) = ltb a b
ltz (pos a) (negsuc b) = false
ltz (negsuc a) (pos b) = true
ltz (negsuc a) (negsuc b) = ltb b a

abbrev pub incr : ℤ → ℤ
incr (pos a) = pos (suc a)
incr (negsuc zero) = pos 0
incr (negsuc (suc a)) = negsuc a

abbrev pub decr : ℤ → ℤ
decr (pos zero) = negsuc 0
decr (pos (suc a)) = pos a
decr (negsuc a) = negsuc (suc a)

abbrev pub minus_one : ℤ
minus_one = negsuc 0

abbrev pub is_zero : ℤ → Bool
is_zero (pos n) = n == 0
is_zero (negsuc n) = false
