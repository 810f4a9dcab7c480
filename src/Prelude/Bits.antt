-- ===== src/Prelude/Bits.antt =====
-- The C operators on unsigned words: `|` of disjoint fields and `&` with a mask, as arithmetic.
use Prim.Native.Nat.{
  ℕ, zero, suc, ◌+◌, ◌-◌, ◌*◌, ◌/◌, ◌%◌, ◌^◌, ◌≤◌, ◌<◌, min, max, bit_and, bit_or, bitwise, digits,
  bit_and-bitwise, bit_or-bitwise,
}
use mathlib.Core.Path.{◌≡◌, refl, ap, ◌∙◌}
use native.Mathlib.Nat.{pow-suc, one-le-pow, mul-one}
use native.Mathlib.Omega.{arith}

infixl 68 ◌<<<◌ ◌>>>◌
-- `x << k` before it is cut off, and `x >> k`.
abbrev pub ◌<<<◌ : ℕ → ℕ → ℕ
x <<< k = x * 2 ^ k

abbrev pub ◌>>>◌ : ℕ → ℕ → ℕ
x >>> k = x / 2 ^ k

-- The casts to `u8`, `u16`, `u32` and `u64`.
abbrev pub u8 : ℕ → ℕ
u8 x = x % 2 ^ 8

abbrev pub u16 : ℕ → ℕ
u16 x = x % 2 ^ 16

abbrev pub u32 : ℕ → ℕ
u32 x = x % 2 ^ 32

abbrev pub u64 : ℕ → ℕ
u64 x = x % 2 ^ 64

-- `~x` and `a - b` on `u32`.
abbrev pub not32 : ℕ → ℕ
not32 x = 2 ^ 32 - 1 - x

abbrev pub sub32 : ℕ → ℕ → ℕ
sub32 a b = u32 (a + 2 ^ 32 - b)

-- The digits of `&` and `|` do not depend on the rounds beyond those that `a` has digits for.
pub rounds_enough :
    (rest : ℕ → ℕ) (op : ℕ → ℕ → ℕ) (a n : ℕ) (b m : ℕ)
    → a ≤ min n m
    → digits rest op n a b ≡ digits rest op m a b
rounds_enough rest op zero zero b zero h = refl
rounds_enough rest op zero zero b (suc m) h = refl
rounds_enough rest op zero (suc n) b zero h = refl
rounds_enough rest op zero (suc n) b (suc m) h = refl
rounds_enough rest op (suc a) zero b m h = absurd (omega arith)
rounds_enough rest op (suc a) (suc n) b zero h = absurd (omega arith)
rounds_enough rest op (suc a) (suc n) b (suc m) h =
    rw (rounds_enough rest op (suc a / 2) n (b / 2) m (omega arith)) refl

pub zero-bit_and : (b : ℕ) → bit_and 0 b ≡ 0
zero-bit_and b = bit_and-bitwise 0 b

pub zero-bit_or : (b : ℕ) → bit_or 0 b ≡ b
zero-bit_or b = bit_or-bitwise 0 b

lowest_digit :
    (rest : ℕ → ℕ) (op : ℕ → ℕ → ℕ) (a b : ℕ)
    → bitwise rest op (suc a) b ≡ bitwise rest op (suc a / 2) (b / 2) * 2 + op (suc a % 2) (b % 2)
lowest_digit rest op a b =
    ap (λ (t : ℕ). t * 2 + op (suc a % 2) (b % 2))
      (rounds_enough rest op (suc a / 2) a (b / 2) (suc a / 2) (omega arith))

-- The lowest digit of `&` and of `|`.
pub bit_and_step : (a b : ℕ) → bit_and a b ≡ bit_and (a / 2) (b / 2) * 2 + min (a % 2) (b % 2)
bit_and_step zero b = rw (zero-bit_and b) (omega (arith, zero-bit_and (b / 2)))
bit_and_step (suc a) b =
    let high = bit_and-bitwise (suc a / 2) (b / 2) in
    bit_and-bitwise (suc a) b ∙ rw high (lowest_digit (λ t. zero) min a b)

pub bit_or_step : (a b : ℕ) → bit_or a b ≡ bit_or (a / 2) (b / 2) * 2 + max (a % 2) (b % 2)
bit_or_step zero b = omega (arith, zero-bit_or b, zero-bit_or (b / 2))
bit_or_step (suc a) b =
    let high = bit_or-bitwise (suc a / 2) (b / 2) in
    bit_or-bitwise (suc a) b ∙ rw high (lowest_digit (λ t. t) max a b)

with_zero : (size a : ℕ) → a ≤ size → (bit_and a 0 ≡ 0) × (bit_or a 0 ≡ a)
with_zero size zero h = (refl, refl)
with_zero zero (suc a) h = absurd (omega arith)
with_zero (suc size) (suc a) h =
    let half = with_zero size (suc a / 2) (omega arith) in
    (omega (arith, bit_and_step (suc a) 0, half.0), omega (arith, bit_or_step (suc a) 0, half.1))

pub bit_and-zero : (a : ℕ) → bit_and a 0 ≡ 0
bit_and-zero a = (with_zero a a (omega arith)).0

pub bit_or-zero : (a : ℕ) → bit_or a 0 ≡ a
bit_or-zero a = (with_zero a a (omega arith)).1

double-shift : (q k : ℕ) → q * 2 ^ suc k ≡ 2 * (q * 2 ^ k)
double-shift q k = omega (arith, ap (λ (t : ℕ). q * t) (pow-suc 2 k))

-- `r | (q << k)` is a sum when `r` fits `k` bits.
pub bit_or-shift : (k q r : ℕ) → r < 2 ^ k → bit_or r (q <<< k) ≡ r + q * 2 ^ k
bit_or-shift zero q r fits = let e : r ≡ 0 = omega arith in rw (e, zero-bit_or) (omega arith)
bit_or-shift (suc k) q r fits = omega (
  arith,
  bit_or_step r (q * 2 ^ suc k),
  double-shift q k,
  pow-suc 2 k,
  ap (λ (t : ℕ). bit_or (r / 2) t) (half q k),
  bit_or-shift k q (r / 2) (omega (arith, pow-suc 2 k)),
)
  where
    half : (q k : ℕ) → q * 2 ^ suc k / 2 ≡ q * 2 ^ k
    half q k = omega (arith, double-shift q k)

-- `(q << k) | r` too.
pub shift-bit_or : (k q r : ℕ) → r < 2 ^ k → bit_or (q <<< k) r ≡ q * 2 ^ k + r
shift-bit_or zero q r fits = let e : r ≡ 0 = omega arith in rw (e, bit_or-zero) (omega arith)
shift-bit_or (suc k) q r fits = omega (
  arith,
  bit_or_step (q * 2 ^ suc k) r,
  double-shift q k,
  pow-suc 2 k,
  ap (λ (t : ℕ). bit_or t (r / 2)) (half q k),
  shift-bit_or k q (r / 2) (omega (arith, pow-suc 2 k)),
)
  where
    half : (q k : ℕ) → q * 2 ^ suc k / 2 ≡ q * 2 ^ k
    half q k = omega (arith, double-shift q k)

bit_and-low_fields : (k q r : ℕ) → r < 2 ^ k → bit_and (q * 2 ^ k + r) (2 ^ k - 1) ≡ r
bit_and-low_fields zero q r fits = rw bit_and-zero (omega arith)
bit_and-low_fields (suc k) q r fits = ground (
  arith,
  bit_and_step (q * 2 ^ suc k + r) (2 ^ suc k - 1),
  double-shift q k,
  pow-suc 2 k,
  one-le-pow k 2,
  bit_and-low_fields k q (r / 2),
)

bit_and-high_fields :
    (k q r m : ℕ) → r < 2 ^ k → bit_and (q * 2 ^ k + r) (m * 2 ^ k) ≡ bit_and q m * 2 ^ k
bit_and-high_fields zero q r m fits = let e : q * 2 ^ 0 + r ≡ q = omega arith in rw e (simp mul-one)
bit_and-high_fields (suc k) q r m fits = ground (
  arith,
  bit_and_step (q * 2 ^ suc k + r) (m * 2 ^ suc k),
  double-shift q k,
  double-shift m k,
  double-shift (bit_and q m) k,
  pow-suc 2 k,
  bit_and-high_fields k q (r / 2) m,
)

-- `a & ((1 << k) - 1)` is the remainder by `2 ^ k`.
pub bit_and-mask : (k a : ℕ) → bit_and a (2 ^ k - 1) ≡ a % 2 ^ k
bit_and-mask k a = ground (arith, one-le-pow k 2, bit_and-low_fields k (a / 2 ^ k) (a % 2 ^ k))

-- `a & (m << k)` drops the `k` low bits of `a` and masks the rest.
pub bit_and-shift : (k a m : ℕ) → bit_and a (m <<< k) ≡ bit_and (a / 2 ^ k) m * 2 ^ k
bit_and-shift k a m =
    ground (arith, one-le-pow k 2, bit_and-high_fields k (a / 2 ^ k) (a % 2 ^ k) m)

-- `x | r` is a sum where `r` fits the `k` low bits, which are clear in `x`.
pub bit_or-below : (k x r : ℕ) → x % 2 ^ k ≡ 0 → r < 2 ^ k → bit_or x r ≡ x + r
bit_or-below k x r clear fits =
    let e : x ≡ x / 2 ^ k * 2 ^ k = omega arith in
    ap (λ (t : ℕ). bit_or t r) e ∙ shift-bit_or k (x / 2 ^ k) r fits ∙ omega arith
