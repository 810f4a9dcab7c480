-- ===== src/Sprint/Digits.antt =====
-- lib/sprint.c: the digits that `put_number` writes.
use native.Mathlib.Nat.{div-add-mod'}
use operating_system_cortex.Prelude.{
  ℕ, zero, suc, ◌+◌, ◌*◌, ◌/◌, ◌%◌, ◌^◌, ◌<◌, ◌≤◌, ◌≡◌, refl, ap, sym, ◌∙◌, ◌⊎◌, inl, inr, List, [],
  ◌∷◌, ◌++◌, map, append-nil, ◌==◌, arith, Bool-cases, Bool, true, false, ◌&&◌, get_or,
  if◌then◌else◌,
}
use operating_system_cortex.Sprint.{letter, number_loop}

-- The bases that `vsprint` calls with.
abbrev pub IsBase : ℕ → Type 0
IsBase base = (base ≡ 2) ⊎ ((base ≡ 10) ⊎ (base ≡ 16))

-- The number whose digits are `ds`, behind those of `n`.
abbrev pub value : (base n : ℕ) (ds : List ℕ) → ℕ
value base n [] = n
value base n (d ∷ ds) = value base (n * base + d) ds

abbrev pub AreDigits : (base : ℕ) → List ℕ → Type 0
AreDigits base [] = Unit
AreDigits base (d ∷ ds) = (d < base) × AreDigits base ds

AreDigits-append :
    (base x : ℕ) (ds : List ℕ) → AreDigits base ds → x < base → AreDigits base (ds ++ x ∷ [])
AreDigits-append base x [] h l = (l, tt)
AreDigits-append base x (d ∷ ds) h l = (h.0, AreDigits-append base x ds h.1 l)

value-append :
    (base n x : ℕ) (ds : List ℕ) → value base n (ds ++ x ∷ []) ≡ value base n ds * base + x
value-append base n x [] = refl
value-append base n x (d ∷ ds) = value-append base (n * base + d) x ds

map-append_one :
    (f : ℕ → ℕ) (xs : List ℕ) (x : ℕ) (ys : List ℕ)
    → map f (xs ++ x ∷ []) ++ ys ≡ map f xs ++ f x ∷ ys
map-append_one f [] x ys = refl
map-append_one f (y ∷ xs) x ys = ap (λ (r : List ℕ). f y ∷ r) (map-append_one f xs x ys)

-- There is no zero in front.
abbrev pub HeadNonzero : List ℕ → Type 0
HeadNonzero [] = Unit
HeadNonzero (d ∷ ds) = 0 < d

HeadNonzero-append :
    (base x u q : ℕ) (ds : List ℕ)
    → HeadNonzero ds
    → value base 0 ds ≡ q
    → q * base + x ≡ u
    → 0 < u
    → HeadNonzero (ds ++ x ∷ [])
HeadNonzero-append base x u q [] heads e f some_left =
    let none_above : q ≡ 0 = sym e in
    let last : 0 * base + x ≡ u = rw none_above at f in ground (arith, last, some_left)
HeadNonzero-append base x u q (d ∷ ds) heads e f some_left = heads

-- What a division by a base does: the quotient is smaller by a bit, and the rest is a digit.
smaller :
    (u base fuel : ℕ) → IsBase base → u < 2 ^ suc fuel → (u / base < 2 ^ fuel) × (u % base < base)
smaller u base fuel (inl e) h = rw e (omega arith, omega arith)
smaller u base fuel (inr (inl e)) h = rw e (omega arith, omega arith)
smaller u base fuel (inr (inr e)) h = rw e (omega arith, omega arith)

number_loop-digits :
    (fuel u base lower : ℕ) (tmp : List ℕ)
    → IsBase base
    → u < 2 ^ fuel
    → (ds : List ℕ) × AreDigits base ds
      × HeadNonzero ds
      × (value base 0 ds ≡ u)
      × (number_loop fuel u base lower tmp ≡ map (letter lower) ds ++ tmp)
unfolding number_loop
number_loop-digits zero u base lower tmp b h = ([], tt, tt, omega arith, refl)
number_loop-digits (suc fuel) u base lower tmp b h = elim (Bool-cases (u == 0)) [
  | inl none_left ↦ let z : 0 ≡ u = ground arith in ([], tt, tt, z, rw none_left refl)
  | inr goes ↦
      let (less, is_digit) = smaller u base fuel b h in
      let (ds, digits, heads, e, runs) =
        number_loop-digits fuel (u / base) base lower (letter lower (u % base) ∷ tmp) b less in
      (
        ds ++ u % base ∷ [],
        AreDigits-append base (u % base) ds digits is_digit,
        HeadNonzero-append base (u % base) u (u / base) ds heads e (div-add-mod' u base)
            (ground arith),
        value-append base 0 (u % base) ds ∙ rw e (div-add-mod' u base),
        rw goes (runs ∙ sym (map-append_one (letter lower) ds (u % base) tmp)),
      )
]

-- "0123456789abcdef", and with capitals.
abbrev small_digits : List ℕ
small_digits =
    0x30 ∷ 0x31 ∷ 0x32 ∷ 0x33 ∷ 0x34 ∷ 0x35 ∷ 0x36 ∷ 0x37 ∷ 0x38 ∷ 0x39 ∷ 0x61 ∷ 0x62 ∷ 0x63 ∷ 0x64
    ∷ 0x65 ∷ 0x66 ∷ []

abbrev capital_digits : List ℕ
capital_digits =
    0x30 ∷ 0x31 ∷ 0x32 ∷ 0x33 ∷ 0x34 ∷ 0x35 ∷ 0x36 ∷ 0x37 ∷ 0x38 ∷ 0x39 ∷ 0x41 ∷ 0x42 ∷ 0x43 ∷ 0x44
    ∷ 0x45 ∷ 0x46 ∷ []

-- The characters of digits.
abbrev pub text : (small : Bool) (ds : List ℕ) → List ℕ
text small ds = map (λ d. get_or (if small then small_digits else capital_digits) d 0) ds

abbrev all_below : ℕ → (ℕ → Bool) → Bool
all_below zero f = true
all_below (suc n) f = f n && all_below n f

all_below-at : (n : ℕ) (f : ℕ → Bool) (i : ℕ) → all_below n f ≡ true → i < n → f i ≡ true
all_below-at zero f i h l = absurd (omega arith)
all_below-at (suc n) f i h l = elim (Bool-cases (i == n)) [
  | inl e ↦ let last : i ≡ n = ground arith in rw last (ground (arith, h))
  | inr e ↦ all_below-at n f i (ground (arith, h)) (ground arith)
]

letter_small : (d : ℕ) → d < 16 → letter 0x20 d ≡ get_or small_digits d 0
letter_small d h =
    let same = all_below-at 16 (λ i. letter 0x20 i == get_or small_digits i 0) d refl h in
    ground (arith, same)

letter_capital : (d : ℕ) → d < 16 → letter 0 d ≡ get_or capital_digits d 0
letter_capital d h =
    let same = all_below-at 16 (λ i. letter 0 i == get_or capital_digits i 0) d refl h in
    ground (arith, same)

letters-text :
    (small : Bool) (base : ℕ) (ds : List ℕ)
    → base ≤ 16
    → AreDigits base ds
    → map (letter (if small then 0x20 else 0)) ds ≡ text small ds
letters-text true base [] h digits = refl
letters-text false base [] h digits = refl
letters-text true base (d ∷ ds) h digits =
    cc (letter_small d (omega (arith, digits.0)), letters-text true base ds h digits.1)
letters-text false base (d ∷ ds) h digits =
    cc (letter_capital d (omega (arith, digits.0)), letters-text false base ds h digits.1)

-- A zero stands in front only if it is the number.
abbrev pub NoZeroInFront : List ℕ → Type 0
NoZeroInFront [] = ⊥
NoZeroInFront (d ∷ ds) = (0 < d) ⊎ (ds ≡ [])

-- The digits that `put_number` has in `tmp`.
pub written_digits :
    (u base : ℕ) (small : Bool)
    → IsBase base
    → u < 2 ^ 32
    → (ds : List ℕ) × AreDigits base ds
      × NoZeroInFront ds
      × (value base 0 ds ≡ u)
      × ((if u == 0 then 0x30 ∷ [] else number_loop 32 u base (if small then 0x20 else 0) [])
          ≡ text small ds)
written_digits u base small b h = elim (Bool-cases (u == 0)) [
  | inl is_zero ↦
      let z : 0 * base + 0 ≡ u = ground arith in
      (0 ∷ [], (ground (arith, b), tt), inr refl, z, rw is_zero (zero_text small))
  | inr goes ↦
      let (ds, digits, heads, e, runs) =
        number_loop-digits 32 u base (if small then 0x20 else 0) [] b h in
      (
        ds,
        digits,
        no_zero ds heads e (ground arith),
        e,
        rw (goes, runs, append-nil (map (letter (if small then 0x20 else 0)) ds))
            (letters-text small base ds (ground (arith, b)) digits),
      )
]
  where
    no_zero : (ds : List ℕ) → HeadNonzero ds → value base 0 ds ≡ u → 0 < u → NoZeroInFront ds
    no_zero [] heads e some_left = omega (arith, e, some_left)
    no_zero (d ∷ ds) heads e some_left = inl heads

    zero_text : (small : Bool) → 0x30 ∷ [] ≡ text small (0 ∷ [])
    zero_text true = refl
    zero_text false = refl
