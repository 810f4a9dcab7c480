-- ===== src/Align/Rounding.antt =====
-- Rounding by masks is rounding by division.
use Prim.Native.Nat.{bit_and}
use native.Mathlib.Nat.{
  pow-suc, one-le-pow, div-lt_iff_lt-mul, mod-eq_of_lt, mod-add-div', mod-lt, mul-mod_left,
  add-mod_right,
}
use operating_system_cortex.Prelude.{
  ℕ, zero, suc, ◌+◌, ◌-◌, ◌*◌, ◌/◌, ◌^◌, ◌%◌, ◌≤◌, ◌<◌, ◌≡◌, ◌≢◌, sym, ◌∙◌, ap, ◌==◌, arith,
  Bool-cases, inl, inr,
}
use operating_system_cortex.Prelude.Bits.{u32, not32, sub32, bit_and-mask, bit_and-shift}
use operating_system_cortex.Align.{align_up_ptr, align_down_ptr, align_up, align_down}

pub pow_split : (k j : ℕ) → 2 ^ (k + j) ≡ 2 ^ j * 2 ^ k
pow_split zero j = let e : 0 + j ≡ j = omega arith in ap (λ (t : ℕ). 2 ^ t) e ∙ omega arith
pow_split (suc k) j =
    let e : suc k + j ≡ suc (k + j) = omega arith in
    ap (λ (t : ℕ). 2 ^ t) e ∙ pow-suc 2 (k + j) ∙ grind (arith, pow_split k j, pow-suc 2 k)

fields : (k j : ℕ) → k + j ≡ 32 → 2 ^ j * 2 ^ k ≡ 2 ^ 32
fields k j e = sym (pow_split k j) ∙ ap (λ (t : ℕ). 2 ^ t) e

pub less_one : (x d : ℕ) → 1 ≤ x → (x - 1) * d + d ≡ x * d
less_one zero d h = absurd (omega arith)
less_one (suc x) d h = let e : suc x - 1 ≡ x = omega arith in rw e (grind arith)

high_mask : (k j : ℕ) → k + j ≡ 32 → not32 (2 ^ k - 1) ≡ (2 ^ j - 1) * 2 ^ k
high_mask k j e =
    let d = less_one (2 ^ j) (2 ^ k) (one-le-pow j 2 (omega arith)) in
    omega (arith, d, fields k j e, one-le-pow k 2 (omega arith))

quotient_fits : (a k j : ℕ) → k + j ≡ 32 → a < 2 ^ 32 → a / 2 ^ k < 2 ^ j
quotient_fits a k j e h = (div-lt_iff_lt-mul (one-le-pow k 2 (omega arith))).1 (rw (fields k j e) h)

-- The mask of a power of two clears the bits below it.
pub mask_down :
    (a k j : ℕ) → k + j ≡ 32 → a < 2 ^ 32 → bit_and a (not32 (2 ^ k - 1)) ≡ a / 2 ^ k * 2 ^ k
mask_down a k j e h = rw (high_mask k j e) (
    bit_and-shift k a (2 ^ j - 1)
    ∙ ap (λ (t : ℕ). t * 2 ^ k)
        (bit_and-mask j (a / 2 ^ k) ∙ mod-eq_of_lt (quotient_fits a k j e h)))

-- The largest multiple of `d` not above `x`.
pub multiple : (x d : ℕ) → 0 < d → (x / d * d % d ≡ 0) × (x / d * d ≤ x) × (x < x / d * d + d)
multiple x d h =
    let m = mod-add-div' x d in
    let small = mod-lt x h in (mul-mod_left (x / d) d, omega (arith, m), omega (arith, m, small))

module _ (k j : ℕ) (split : k + j ≡ 32) where
  positive : 1 ≤ 2 ^ k
  positive = one-le-pow k 2 (omega arith)

  pub mask : sub32 (2 ^ k) 1 ≡ 2 ^ k - 1
  mask =
      let d = less_one (2 ^ j) (2 ^ k) (one-le-pow j 2 (omega arith)) in
      omega (arith, d, fields k j split, positive)

  -- `align_down` and `align_down_ptr` give the largest multiple of a power of two that is not above
  -- the value.
  pub align_down_lem :
      (val : ℕ)
      → val < 2 ^ 32
      → (align_down val (2 ^ k) ≡ val / 2 ^ k * 2 ^ k)
        × (align_down_ptr val (2 ^ k) ≡ val / 2 ^ k * 2 ^ k)
  unfolding align_down align_down_ptr
  align_down_lem val h = let d = mask_down val k j split h in (rw mask d, rw mask d)

  -- `align_up` gives the smallest multiple of a power of two that is not below the value, where the
  -- sum does not wrap.
  pub align_up_lem :
      (val : ℕ)
      → val + 2 ^ k < 2 ^ 32
      → (align_up val (2 ^ k) % 2 ^ k ≡ 0)
        × (val ≤ align_up val (2 ^ k))
        × (align_up val (2 ^ k) < val + 2 ^ k)
  unfolding align_up
  align_up_lem val h = elim (Bool-cases (val % 2 ^ k == 0)) [
    | inl e ↦
        let clear : val % 2 ^ k ≡ 0 = ground arith in
        rw (mask, bit_and-mask k val, e) (clear, omega arith, omega (arith, positive))
    | inr e ↦
        let sum : u32 (val + 2 ^ k) ≡ val + 2 ^ k = omega arith in
        let x = multiple (val + 2 ^ k) (2 ^ k) positive in
        let rest : val % 2 ^ k ≢ 0 = ground arith in
        let m = mod-add-div' (val + 2 ^ k) (2 ^ k) in
        rw (mask, bit_and-mask k val, e, sum, mask_down (val + 2 ^ k) k j split h)
          (x.0, omega (arith, x.2), omega (arith, m, add-mod_right val (2 ^ k), rest))
  ]

  -- `align_up_ptr` gives the smallest multiple of a power of two that is not below the pointer, where
  -- the sum does not wrap.
  pub align_up_ptr_lem :
      (ptr : ℕ)
      → ptr + 2 ^ k < 2 ^ 32
      → (align_up_ptr ptr (2 ^ k) % 2 ^ k ≡ 0)
        × (ptr ≤ align_up_ptr ptr (2 ^ k))
        × (align_up_ptr ptr (2 ^ k) < ptr + 2 ^ k)
  unfolding align_up_ptr
  align_up_ptr_lem ptr h = elim (Bool-cases (ptr % 2 ^ k == 0)) [
    | inl e ↦
        let clear : ptr % 2 ^ k ≡ 0 = ground arith in
        rw (mask, bit_and-mask k ptr, e) (clear, omega arith, omega (arith, positive))
    | inr e ↦
        let sum : u32 (ptr + (2 ^ k - 1)) ≡ ptr + (2 ^ k - 1) = omega arith in
        let x = multiple (ptr + (2 ^ k - 1)) (2 ^ k) positive in
        rw (mask, bit_and-mask k ptr, e, sum, mask_down (ptr + (2 ^ k - 1)) k j split (omega arith))
          (x.0, omega (arith, x.2, positive), omega (arith, x.1, positive))
  ]
