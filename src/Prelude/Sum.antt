-- ===== src/Prelude/Sum.antt =====
-- The sum of a function over the numbers below a bound.
use Prim.Native.Nat.{ℕ, zero, suc, ◌+◌, ◌≤◌, ◌<◌}
use mathlib.Core.Path.{◌≡◌, refl}
use mathlib.Core.Logic.{inl, inr}
use mathlib.Core.Bool.{false}
use native.Mathlib.Omega.{arith}
use operating_system_cortex.Prelude.Tests.{◌==◌, if◌then◌else◌, Bool-cases}

abbrev pub sum : ℕ → (ℕ → ℕ) → ℕ
sum zero f = 0
sum (suc n) f = sum n f + f n

pub sum-same : (n : ℕ) (f g : ℕ → ℕ) → ((i : ℕ) → i < n → g i ≡ f i) → sum n g ≡ sum n f
sum-same zero f g same = refl
sum-same (suc n) f g same =
    omega (arith, sum-same n f g (λ i h. same i (omega arith)), same n (omega arith))

-- One value changes.
pub sum-change :
    (n k : ℕ) (f g : ℕ → ℕ)
    → k < n
    → ((i : ℕ) → (i == k) ≡ false → g i ≡ f i)
    → sum n g + f k ≡ sum n f + g k
sum-change zero k f g h same = absurd (omega arith)
sum-change (suc n) k f g h same = elim (Bool-cases (n == k)) [
  | inl here ↦
      let at : n ≡ k = ground arith in
      rw at (omega (arith, sum-same k f g (λ i below. same i (ground arith))))
  | inr other ↦ omega (arith, sum-change n k f g (ground arith) same, same n other)
]

pub sum_mono : (n : ℕ) (f g : ℕ → ℕ) → ((i : ℕ) → f i ≤ g i) → sum n f ≤ sum n g
sum_mono zero f g h = omega arith
sum_mono (suc n) f g h = omega (arith, sum_mono n f g h, h n)

-- Two values change.
pub sum-change_two :
    (n j k : ℕ) (f g : ℕ → ℕ)
    → j < n
    → k < n
    → j < k
    → ((i : ℕ) → (i == j) ≡ false → (i == k) ≡ false → g i ≡ f i)
    → sum n g + f j + f k ≡ sum n f + g j + g k
sum-change_two n j k f g hj hk lt same =
    let one : ℕ → ℕ = λ i. if i == j then g j else f i in
    let first : sum n one + f j ≡ sum n f + one j = sum-change n j f one hj (λ i h. rw h refl) in
    let at_j : one j ≡ g j = ground arith in
    let at_k : one k ≡ f k = ground arith in
    let second : sum n g + one k ≡ sum n one + g k = sum-change n k one g hk (λ i h.
      elim (Bool-cases (i == j)) [
        | inl here ↦ let at : i ≡ j = ground arith in rw (here, at) refl
        | inr other ↦ rw other (same i other h)
      ]) in
    omega (arith, first, second, at_j, at_k)

pub sum-zero : (n : ℕ) → sum n (λ i. 0) ≡ 0
sum-zero zero = refl
sum-zero (suc n) = omega (arith, sum-zero n)

pub sum-le : (m n : ℕ) (f : ℕ → ℕ) → m ≤ n → sum m f ≤ sum n f
sum-le m zero f h = let e : m ≡ 0 = omega arith in rw e (omega arith)
sum-le m (suc n) f h = elim (Bool-cases (m == suc n)) [
  | inl here ↦ let e : m ≡ suc n = ground arith in rw e (omega arith)
  | inr less ↦ omega (arith, sum-le m n f (ground arith))
]
