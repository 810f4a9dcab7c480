-- ===== src/Align.antt =====
-- include/citrus/align.h: addresses and sizes rounded to a power of two.
use Prim.Native.Nat.{bit_and, bit_or}
use operating_system_cortex.Prelude.{ℕ, ◌+◌, ◌-◌, ◌==◌, not, if◌then◌else◌}
use operating_system_cortex.Prelude.Bits.{◌>>>◌, u32, not32, sub32}
pub mod Rounding
pub mod Powers

unfoldable pub align_up_ptr : (ptr align_bytes : ℕ) → ℕ
align_up_ptr ptr align_bytes =
    if not (bit_and ptr (sub32 align_bytes 1) == 0)
    then bit_and (u32 (ptr + sub32 align_bytes 1)) (not32 (sub32 align_bytes 1))
    else ptr

unfoldable pub align_down_ptr : (ptr align_bytes : ℕ) → ℕ
align_down_ptr ptr align_bytes = bit_and ptr (not32 (sub32 align_bytes 1))

unfoldable pub align_up : (val align_bytes : ℕ) → ℕ
align_up val align_bytes =
    if not (bit_and val (sub32 align_bytes 1) == 0)
    then bit_and (u32 (val + align_bytes)) (not32 (sub32 align_bytes 1))
    else val

unfoldable pub align_down : (val align_bytes : ℕ) → ℕ
align_down val align_bytes = bit_and val (not32 (sub32 align_bytes 1))

-- `number |= number >> k;` for each of the shifts.
abbrev pub smear : (number : ℕ) → ℕ
smear number =
    let n1 = bit_or number (number >>> 1) in
    let n2 = bit_or n1 (n1 >>> 2) in
    let n3 = bit_or n2 (n2 >>> 4) in let n4 = bit_or n3 (n3 >>> 8) in bit_or n4 (n4 >>> 16)

unfoldable pub round_up_power_two : (number : ℕ) → ℕ
round_up_power_two number = u32 (smear (sub32 number 1) + 1)

unfoldable pub round_down_power_two : (number : ℕ) → ℕ
round_down_power_two number = let n = smear number in n - (n >>> 1)
