-- ===== src/Prelude/Int.antt =====
-- Signed results over the native numbers, under the library's names: an error is returned as the
-- negative of its code.
use Prim.Native.Nat.{ℕ, zero, suc, ◌-◌, ◌%◌, ◌^◌}
use mathlib.Core.Bool.{Bool, true, false}
use operating_system_cortex.Prelude.Tests.{◌==◌}

-- `negsuc n` is -(n + 1).
pub data ℤ : Type 0 where
  pos : ℕ → ℤ
  negsuc : ℕ → ℤ

-- `-code`
abbrev pub neg : ℕ → ℤ
neg zero = pos 0
neg (suc n) = negsuc n

-- `x < 0`
abbrev pub is_neg : ℤ → Bool
is_neg (pos n) = false
is_neg (negsuc n) = true

-- `x == n`
abbrev pub is_pos : ℕ → ℤ → Bool
is_pos n (pos m) = m == n
is_pos n (negsuc m) = false

-- The cast to `u8`.
abbrev pub u8_of : ℤ → ℕ
u8_of (pos n) = n % 2 ^ 8
u8_of (negsuc n) = 2 ^ 8 - 1 - n % 2 ^ 8
