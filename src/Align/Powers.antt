-- ===== src/Align/Powers.antt =====
-- `round_up_power_two` and `round_down_power_two` give the nearest powers of two: every shift doubles
-- the number of digits that are set from the highest one on.
use Prim.Native.Nat.{min, bit_or}
use native.Mathlib.Nat.{
  pow-suc, one-le-pow, div-div-eq-div-mul, pow-le-pow_right, mul_comm, div-eq_of_lt,
  mul-add-div_right,
}
use operating_system_cortex.Prelude.{
  ℕ, zero, suc, ◌+◌, ◌-◌, ◌*◌, ◌/◌, ◌^◌, ◌≤◌, ◌<◌, ◌≡◌, refl, sym, ◌∙◌, ap, arith, leb, Bool-cases,
  inl, inr,
}
use operating_system_cortex.Prelude.Bits.{◌>>>◌, sub32, bit_or_step, bit_or-zero}
use operating_system_cortex.Align.{smear, round_up_power_two, round_down_power_two}
use operating_system_cortex.Align.Rounding.{pow_split, less_one}

-- The high digits of `|`.
bit_or-high : (j a b : ℕ) → bit_or a b / 2 ^ j ≡ bit_or (a / 2 ^ j) (b / 2 ^ j)
bit_or-high zero a b =
    let one : (x : ℕ) → x / 2 ^ 0 ≡ x = λ x. omega arith in rw (one a, one b, one (bit_or a b)) refl
bit_or-high (suc j) a b =
    let split : (x : ℕ) → x / 2 ^ suc j ≡ x / 2 / 2 ^ j = λ x.
      ap (λ (t : ℕ). x / t) (pow-suc 2 j ∙ omega arith) ∙ sym (div-div-eq-div-mul x 2 (2 ^ j)) in
    let half : bit_or a b / 2 ≡ bit_or (a / 2) (b / 2) = ground (arith, bit_or_step a b) in
    split (bit_or a b)
    ∙ ap (λ (t : ℕ). t / 2 ^ j) half
    ∙ bit_or-high j (a / 2) (b / 2)
    ∙ rw (split a, split b) refl

-- `|` with a mask sets the low digits.
bit_or-mask : (k a : ℕ) → bit_or a (2 ^ k - 1) ≡ a / 2 ^ k * 2 ^ k + (2 ^ k - 1)
bit_or-mask zero a = bit_or-zero a ∙ omega arith
bit_or-mask (suc k) a =
    let split : a / 2 ^ suc k ≡ a / 2 / 2 ^ k =
      ap (λ (t : ℕ). a / t) (pow-suc 2 k ∙ omega arith) ∙ sym (div-div-eq-div-mul a 2 (2 ^ k)) in
    ground (
      arith,
      bit_or_step a (2 ^ suc k - 1),
      bit_or-mask k (a / 2),
      pow-suc 2 k,
      one-le-pow k 2,
      split,
      ap (λ (t : ℕ). a / 2 / 2 ^ k * t) (pow-suc 2 k),
    )

-- The `w` digits of `n` above the lowest `k` are the highest, and all of them are set.
abbrev Filled : (w k n : ℕ) → Type 0
Filled w k n = n / 2 ^ k ≡ 2 ^ w - 1

all_ones : (k w : ℕ) → (2 ^ w - 1) * 2 ^ k + (2 ^ k - 1) ≡ 2 ^ (k + w) - 1
all_ones k w = omega (
  arith,
  less_one (2 ^ w) (2 ^ k) (one-le-pow w 2 (omega arith)),
  pow_split k w,
  one-le-pow k 2 (omega arith),
)

-- Twice the digits are set.
doubled : (w j n : ℕ) → Filled w (w + j) n → Filled (w + w) j (bit_or n (n >>> w))
doubled w j n h =
    let low : n / 2 ^ w / 2 ^ j ≡ 2 ^ w - 1 =
      div-div-eq-div-mul n (2 ^ w) (2 ^ j)
      ∙ ap (λ (t : ℕ). n / t) (sym (pow_split j w) ∙ ap (λ (t : ℕ). 2 ^ t) (omega arith))
      ∙ h in
    let high : n / 2 ^ j / 2 ^ w ≡ 2 ^ w - 1 =
      div-div-eq-div-mul n (2 ^ j) (2 ^ w) ∙ ap (λ (t : ℕ). n / t) (sym (pow_split w j)) ∙ h in
    bit_or-high j n (n >>> w)
    ∙ ap (λ (t : ℕ). bit_or (n / 2 ^ j) t) low
    ∙ bit_or-mask w (n / 2 ^ j)
    ∙ ap (λ (t : ℕ). t * 2 ^ w + (2 ^ w - 1)) high
    ∙ all_ones w w

short_quotient : (k w : ℕ) → k ≤ w → (2 ^ w - 1) / 2 ^ (w - k) ≡ 2 ^ k - 1
short_quotient k w less =
    let e : w - k + k ≡ w = omega arith in
    let d = one-le-pow (w - k) 2 (omega arith) in
    let sum : 2 ^ w - 1 ≡ (2 ^ k - 1) * 2 ^ (w - k) + (2 ^ (w - k) - 1) =
      sym (all_ones (w - k) k ∙ ap (λ (t : ℕ). 2 ^ t - 1) e) in
    let none_left : (2 ^ (w - k) - 1) / 2 ^ (w - k) ≡ 0 = div-eq_of_lt (omega (arith, d)) in
    ap (λ (t : ℕ). t / 2 ^ (w - k)) sum
    ∙ mul-add-div_right d (2 ^ k - 1) (2 ^ (w - k) - 1)
    ∙ omega (arith, none_left)

-- All are.
completed : (w k n : ℕ) → k ≤ w → Filled w k n → Filled (k + w) 0 (bit_or n (n >>> w))
completed w k n less h =
    let e : k + (w - k) ≡ w = omega arith in
    let low : n / 2 ^ w ≡ 2 ^ k - 1 =
      ap (λ (t : ℕ). n / t)
        (ap (λ (t : ℕ). 2 ^ t) (sym e) ∙ pow_split k (w - k) ∙ mul_comm (2 ^ (w - k)) (2 ^ k))
      ∙ sym (div-div-eq-div-mul n (2 ^ k) (2 ^ (w - k)))
      ∙ ap (λ (t : ℕ). t / 2 ^ (w - k)) h
      ∙ short_quotient k w less in
    let whole : bit_or n (n >>> w) / 2 ^ 0 ≡ bit_or n (n >>> w) = omega arith in
    whole
    ∙ ap (λ (t : ℕ). bit_or n t) low
    ∙ bit_or-mask k n
    ∙ ap (λ (t : ℕ). t * 2 ^ k + (2 ^ k - 1)) h
    ∙ all_ones k w

-- A shift by the number of digits that are set doubles it, up to all of them; one by more does
-- nothing.
Filled-shift :
    (s T n : ℕ)
    → Filled (min s T) (T - min s T) n
    → Filled (min (s + s) T) (T - min (s + s) T) (bit_or n (n >>> s))
Filled-shift s T n h = elim (Bool-cases (leb (s + s) T)) [
  | inl e ↦
      let before : min s T ≡ s = ground arith in
      let after : min (s + s) T ≡ s + s = ground arith in
      let rest : T - s ≡ s + (T - (s + s)) = ground arith in
      rw after (doubled s (T - (s + s)) n (rw (before, rest) at h))
  | inr e ↦ elim (Bool-cases (leb s T)) [
    | inl f ↦
        let before : min s T ≡ s = ground arith in
        let after : min (s + s) T ≡ T - s + s = ground arith in
        let rest : T - (T - s + s) ≡ 0 = ground arith in
        rw (after, rest) (completed s (T - s) n (ground arith) (rw before at h))
    | inr f ↦
        let before : min s T ≡ T = ground arith in
        let after : min (s + s) T ≡ T = ground arith in
        let rest : T - T ≡ 0 = omega arith in
        let all : Filled T 0 n = rw (before, rest) at h in
        let small = pow-le-pow_right {n = 2} (omega arith) {i = T} {j = s} (ground arith) in
        let gone : n / 2 ^ s ≡ 0 =
          div-eq_of_lt (omega (arith, all, small, one-le-pow T 2 (omega arith))) in
        rw (after, rest, gone, bit_or-zero n) all
  ]
]

-- All digits of the result are set.
smear_lem : (top n : ℕ) → top < 32 → 2 ^ top ≤ n → n < 2 ^ suc top → smear n ≡ 2 ^ suc top - 1
smear_lem top n small low high =
    let n1 = bit_or n (n >>> 1) in
    let n2 = bit_or n1 (n1 >>> 2) in
    let n3 = bit_or n2 (n2 >>> 4) in
    let n4 = bit_or n3 (n3 >>> 8) in
    let f1 = Filled-shift 1 (suc top) n (rw (one_digit, rest) first) in
    let f2 = Filled-shift 2 (suc top) n1 f1 in
    let f3 = Filled-shift 4 (suc top) n2 f2 in
    let f4 = Filled-shift 8 (suc top) n3 f3 in
    let f5 = Filled-shift 16 (suc top) n4 f4 in
    let all : min 32 (suc top) ≡ suc top = omega arith in
    let none_left : suc top - suc top ≡ 0 = omega arith in
    let full : Filled (suc top) 0 (smear n) = rw (all, none_left) at f5 in omega (arith, full)
  where
    one_digit : min 1 (suc top) ≡ 1
    one_digit = omega arith

    rest : suc top - 1 ≡ top
    rest = omega arith

    first : Filled 1 top n
    first =
        let e : n ≡ 1 * 2 ^ top + (n - 2 ^ top) = omega (arith, low) in
        let none_left : (n - 2 ^ top) / 2 ^ top ≡ 0 =
          div-eq_of_lt (omega (arith, high, low, pow-suc 2 top)) in
        ap (λ (t : ℕ). t / 2 ^ top) e
        ∙ mul-add-div_right (one-le-pow top 2 (omega arith)) 1 (n - 2 ^ top)
        ∙ omega (arith, none_left)

-- For a number from 1 up, `round_down_power_two` gives the largest power of two that is not above it.
pub round_down_power_two_lem :
    (top number : ℕ)
    → top < 32
    → 2 ^ top ≤ number
    → number < 2 ^ suc top
    → round_down_power_two number ≡ 2 ^ top
unfolding round_down_power_two
round_down_power_two_lem top number small low high =
    rw (smear_lem top number small low high) (omega (arith, pow-suc 2 top))

-- For a number from 2 up to `2 ^ 31`, `round_up_power_two` gives the smallest power of two that is
-- not below it.
pub round_up_power_two_lem :
    (top number : ℕ)
    → top < 31
    → 2 ^ top < number
    → number ≤ 2 ^ suc top
    → round_up_power_two number ≡ 2 ^ suc top
unfolding round_up_power_two
round_up_power_two_lem top number small low high =
    let fits = pow-le-pow_right {n = 2} (omega arith) {i = suc top} {j = 31} (omega arith) in
    let less : sub32 number 1 ≡ number - 1 = omega (arith, fits, low, high) in
    let full = smear_lem top (number - 1) (omega arith) (omega arith) (omega arith) in
    let some_left = one-le-pow (suc top) 2 (omega arith) in
    rw (less, full) (omega (arith, fits, some_left))
