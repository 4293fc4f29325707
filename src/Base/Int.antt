-- ===== src/Base/Int.antt =====
-- Signed integers over the native numbers, and two's complement.
use Prim.Native.Nat.{ℕ, ◌-◌, ◌^◌}
use mathlib.Core.Bool.{Bool, true, false}
use shellspectre.Base.Tests.{ltb, if◌then◌else◌}

-- `negsuc n` is -(n + 1).
pub data ℤ : Type 0 where
  pos : ℕ → ℤ
  negsuc : ℕ → ℤ

-- An unsigned bit pattern of `w` bits read as a signed integer.
abbrev pub as_signed : ℕ → ℕ → ℤ
as_signed w n = if ltb n (2 ^ (w - 1)) then pos n else negsuc (2 ^ w - 1 - n)

abbrev pub is_negative : ℤ → Bool
is_negative (pos _) = false
is_negative (negsuc _) = true

-- `n <= 0`
abbrev pub is_nonpositive : ℤ → Bool
is_nonpositive (pos n) = ltb n 1
is_nonpositive (negsuc _) = true
