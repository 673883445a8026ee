-- ===== src/Prelude/Int.antt =====
-- Signed integers over the native numbers: the values of a Go `int` before they are normalised.
use Prim.Native.Nat.{ℕ, ◌-◌, ◌%◌, ◌^◌}
use mathlib.Core.Bool.{Bool, true, false}
use enterprise_rag.Prelude.Tests.{ltb, if◌then◌else◌}

-- `negsuc n` is -(n + 1).
pub data ℤ : Type 0 where
  pos : ℕ → ℤ
  negsuc : ℕ → ℤ

-- `value < bound`, for a bound that is not negative.
abbrev pub int_ltb : ℤ → ℕ → Bool
int_ltb (pos n) bound = ltb n bound
int_ltb (negsuc n) bound = true

abbrev pub to_ℕ : ℤ → ℕ
to_ℕ (pos n) = n
to_ℕ (negsuc n) = 0

-- `a < b`.
abbrev pub int_less : ℤ → ℤ → Bool
int_less (pos a) (pos b) = ltb a b
int_less (pos a) (negsuc b) = false
int_less (negsuc a) (pos b) = true
int_less (negsuc a) (negsuc b) = ltb b a

-- A natural number as Go's `int`, which wraps around at 64 bits.
abbrev pub int64 : ℕ → ℤ
int64 n = let r = n % 2 ^ 64 in if ltb r (2 ^ 63) then ℤ.pos r else ℤ.negsuc (2 ^ 64 - r - 1)
