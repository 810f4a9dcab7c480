-- ===== src/Prelude/Xor.antt =====
-- `^` on unsigned words: a single bit flips.
use Prim.Native.Nat.{bit_xor, bit_xor-bitwise, bitwise, differ}
use mathlib.Core.Path.{◌≡◌, refl, sym, ap, ◌∙◌}
use native.Mathlib.Nat.{pow-suc, mul_comm, div-div-eq-div-mul}
use native.Mathlib.Omega.{arith}
use Prim.Native.Nat.{ℕ, zero, suc, ◌+◌, ◌-◌, ◌*◌, ◌/◌, ◌%◌, ◌^◌, ◌≤◌, ◌<◌}
use mathlib.Core.Bool.{false}
use operating_system_cortex.Prelude.Tests.{◌==◌}
use operating_system_cortex.Prelude.Bits.{rounds_enough}

zero-bit_xor : (b : ℕ) → bit_xor 0 b ≡ b
zero-bit_xor b = bit_xor-bitwise 0 b

lowest_digit :
    (a b : ℕ)
    → bitwise (λ t. t) differ (suc a) b
      ≡ bitwise (λ t. t) differ (suc a / 2) (b / 2) * 2 + differ (suc a % 2) (b % 2)
lowest_digit a b =
    ap (λ (t : ℕ). t * 2 + differ (suc a % 2) (b % 2))
      (rounds_enough (λ t. t) differ (suc a / 2) a (b / 2) (suc a / 2) (omega arith))

zero-digits : (b : ℕ) → b ≡ b / 2 * 2 + differ (0 % 2) (b % 2)
zero-digits b = omega arith

bit_xor_step : (a b : ℕ) → bit_xor a b ≡ bit_xor (a / 2) (b / 2) * 2 + differ (a % 2) (b % 2)
bit_xor_step zero b =
    zero-bit_xor b
    ∙ zero-digits b
    ∙ ap (λ (t : ℕ). t * 2 + differ (0 % 2) (b % 2)) (sym (zero-bit_xor (b / 2)))
bit_xor_step (suc a) b =
    let high = bit_xor-bitwise (suc a / 2) (b / 2) in
    bit_xor-bitwise (suc a) b ∙ rw high (lowest_digit a b)

differ-zero : (x : ℕ) → differ x 0 ≡ x
differ-zero zero = refl
differ-zero (suc x) = refl

differ-one : (x : ℕ) → x < 2 → differ x 1 ≡ 1 - x
differ-one zero h = refl
differ-one (suc zero) h = refl
differ-one (suc (suc x)) h = absurd (omega arith)

with_zero : (size a : ℕ) → a ≤ size → bit_xor a 0 ≡ a
with_zero size zero h = refl
with_zero zero (suc a) h = absurd (omega arith)
with_zero (suc size) (suc a) h = omega (
  arith,
  bit_xor_step (suc a) 0,
  with_zero size (suc a / 2) (omega arith),
  differ-zero (suc a % 2),
)

-- Bit `i` of `w`.
abbrev pub flag : (w i : ℕ) → ℕ
flag w i = w / 2 ^ i % 2

flag_step : (w i : ℕ) → flag w (suc i) ≡ flag (w / 2) i
flag_step w i =
    ap (λ (t : ℕ). t % 2)
      (ap (λ (t : ℕ). w / t) (pow-suc 2 i ∙ mul_comm (2 ^ i) 2)
        ∙ sym (div-div-eq-div-mul w 2 (2 ^ i)))

step_zero : (w : ℕ) → bit_xor w 1 ≡ w / 2 * 2 + (1 - w % 2)
step_zero w = omega (
  arith,
  bit_xor_step w 1,
  with_zero (w / 2) (w / 2) (omega arith),
  differ-one (w % 2) (omega arith),
)

step_suc : (w i : ℕ) → bit_xor w (2 ^ suc i) ≡ bit_xor (w / 2) (2 ^ i) * 2 + w % 2
step_suc w i =
    let half : 2 ^ suc i / 2 ≡ 2 ^ i = omega (arith, pow-suc 2 i) in
    let even : 2 ^ suc i % 2 ≡ 0 = omega (arith, pow-suc 2 i) in
    bit_xor_step w (2 ^ suc i) ∙ rw (half, even, differ-zero (w % 2)) refl

-- `w ^ (1 << i)` flips bit `i`,
pub flag-flip_self : (w i : ℕ) → flag (bit_xor w (2 ^ i)) i ≡ 1 - flag w i
flag-flip_self w zero = rw step_zero (omega arith)
flag-flip_self w (suc i) =
    let half : (bit_xor (w / 2) (2 ^ i) * 2 + w % 2) / 2 ≡ bit_xor (w / 2) (2 ^ i) = omega arith in
    rw (step_suc, flag_step, half, flag_step w i, flag-flip_self (w / 2) i) refl

-- and no other bit.
pub flag-flip_ne : (w i j : ℕ) → (i == j) ≡ false → flag (bit_xor w (2 ^ i)) j ≡ flag w j
flag-flip_ne w zero zero h = absurd (ground arith)
flag-flip_ne w zero (suc j) h =
    let half : (w / 2 * 2 + (1 - w % 2)) / 2 ≡ w / 2 = omega arith in
    rw (step_zero, flag_step, half, flag_step w j) refl
flag-flip_ne w (suc i) zero h = rw step_suc (omega arith)
flag-flip_ne w (suc i) (suc j) h =
    let half : (bit_xor (w / 2) (2 ^ i) * 2 + w % 2) / 2 ≡ bit_xor (w / 2) (2 ^ i) = omega arith in
    rw (step_suc, flag_step, half, flag_step w j, flag-flip_ne (w / 2) i j (ground arith)) refl

-- It adds the weight of a bit that is clear, and takes away that of a bit that is set.
pub flip_clear : (w i : ℕ) → flag w i ≡ 0 → bit_xor w (2 ^ i) ≡ w + 2 ^ i
flip_clear w zero h = rw step_zero (omega arith)
flip_clear w (suc i) h =
    rw (step_suc, flip_clear (w / 2) i (sym (flag_step w i) ∙ h)) (omega (arith, pow-suc 2 i))

pub flip_set : (w i : ℕ) → flag w i ≡ 1 → bit_xor w (2 ^ i) + 2 ^ i ≡ w
flip_set w zero h = rw step_zero (omega arith)
flip_set w (suc i) h =
    rw step_suc (omega (arith, pow-suc 2 i, flip_set (w / 2) i (sym (flag_step w i) ∙ h)))
