-- ===== src/Buddy/Map.antt =====
-- The bitmaps: each order has its words, which are all that is asked for, and a toggle flips one bit.
use Prim.Native.Nat.{bit_and}
use native.Mathlib.Nat.{one-le-pow, mul-div_left, pow-le-pow_right, lt_of_mul-lt-mul_right}
use operating_system_cortex.Prelude.{
  ℕ, suc, ◌+◌, ◌-◌, ◌*◌, ◌/◌, ◌%◌, ◌^◌, ◌≤◌, ◌<◌, ◌≡◌, ◌≢◌, refl, sym, ap, ◌∙◌, true, false, ◌&&◌,
  ◌==◌, ltb, if◌then◌else◌, arith, Bool-cases, inl, inr,
}
use operating_system_cortex.Prelude.Bits.{
  ◌<<<◌, ◌>>>◌, u32, not32, sub32, bit_and-shift, bit_and-mask,
}
use operating_system_cortex.Prelude.Xor.{flag, flag-flip_self, flag-flip_ne}
use operating_system_cortex.Align.Rounding.{mask_down, mask, pow_split}
use operating_system_cortex.Buddy.{Buddy, get_order_map_words, get_bit, toggle_bit, get_parent_bit}

-- Bit `q` of the map of `order`.
abbrev pub map_bit : (order q : ℕ) → Buddy → ℕ
map_bit order q b = flag (b.words (b.map order + q / 32)) (q % 32)

-- The maps of the orders up to `top` lie behind each other, the highest order first.
abbrev pub Apart : (top : ℕ) → (ℕ → ℕ) → Type 0
Apart top map =
    (o p : ℕ) → 1 ≤ o → o < p → p ≤ top → map p + get_order_map_words p (suc top) ≤ map o

-- A block of `order` starts at `k`, within the zone.
abbrev pub IsBlock : (top order k : ℕ) → Type 0
IsBlock top order k = (order ≤ top) × (k % 2 ^ order ≡ 0) × (k + 2 ^ order ≤ 2 ^ top)

pub one_shifted : (k : ℕ) → 1 <<< k ≡ 2 ^ k
one_shifted k = omega arith

-- Clearing the bits below `2 ^ k`.
pub clear_below :
    (x k : ℕ) → k < 32 → x < 2 ^ 32 → bit_and x (not32 (sub32 (1 <<< k) 1)) ≡ x / 2 ^ k * 2 ^ k
clear_below x k small fits =
    let rest : k + (32 - k) ≡ 32 = omega arith in
    rw (one_shifted k, mask k (32 - k) rest) (mask_down x k (32 - k) rest fits)

-- The parent bit is the number of the pair in its order.
pub get_parent_bit_lem :
    (k order : ℕ) → order < 31 → k < 2 ^ 32 → get_parent_bit k order ≡ k / 2 ^ suc order
unfolding get_parent_bit
get_parent_bit_lem k order small fits =
    let next : order + 1 ≡ suc order = omega arith in
    rw (next, clear_below k (suc order) (omega arith) fits)
      (mul-div_left (k / 2 ^ suc order) (one-le-pow (suc order) 2 (omega arith)))

pub get_bit_lem :
    (q order : ℕ) (b : Buddy) → get_bit q (b.map order) b.words ≡ map_bit order q b * 2 ^ (q % 32)
unfolding get_bit
get_bit_lem q order b =
    let w = b.words (b.map order + q / 32) in
    bit_and-shift (q % 32) (b.words (b.map order + q / 32)) 1
    ∙ ap (λ (t : ℕ). t * 2 ^ (q % 32)) (bit_and-mask 1 (w / 2 ^ (q % 32)))

pub pow_mono : (i j : ℕ) → i ≤ j → 2 ^ i ≤ 2 ^ j
pow_mono i j h = pow-le-pow_right {n = 2} (omega arith) {i = i} {j = j} h

-- The words for `2 ^ e` bits, at least one.
abbrev pub words_for : ℕ → ℕ
words_for e = if u32 (1 <<< e) >>> 5 == 0 then u32 (1 <<< e) >>> 5 + 1 else u32 (1 <<< e) >>> 5

pub word_count : (e : ℕ) → e < 32 → (u32 (1 <<< e) ≡ 2 ^ e) × (2 ^ e < 2 ^ 32)
word_count e small =
    let fits = pow_mono e 31 (omega arith) in (omega (arith, one_shifted e), omega arith)

pub words_for-small : (e : ℕ) → e < 5 → words_for e ≡ 1
words_for-small e small =
    let fits = pow_mono e 4 (omega arith) in rw (word_count e (omega arith)).0 (ground arith)

pub words_for-large : (n : ℕ) → n < 27 → words_for (5 + n) ≡ 2 ^ n
words_for-large n small =
    rw (word_count (5 + n) (omega arith)).0
      (ground (arith, pow_split 5 n, one-le-pow n 2 (omega arith)))

bit_within : (e q : ℕ) → e < 32 → q < 2 ^ e → q / 32 < words_for e
bit_within e q small fits = elim (Bool-cases (ltb e 5)) [
  | inl h ↦ let few = pow_mono e 4 (ground arith) in omega (arith, words_for-small e (ground arith))
  | inr h ↦
      let n : 5 + (e - 5) ≡ e = ground arith in
      omega (
        arith,
        pow_split 5 (e - 5),
        ap words_for n,
        ap (λ (t : ℕ). 2 ^ t) n,
        words_for-large (e - 5) (omega arith),
      )
]

-- A bit of an order within the zone stands in the words of that order.
pub within_words :
    (top order q : ℕ)
    → order ≤ top
    → top < 32
    → q * 2 ^ order < 2 ^ top
    → q / 32 < get_order_map_words order (suc top)
unfolding get_order_map_words
within_words top order q h small fits =
    let e : suc top - order - 1 ≡ top - order = omega arith in
    let whole : order + (top - order) ≡ top = omega arith in
    let room : q * 2 ^ order < 2 ^ (top - order) * 2 ^ order =
      rw (sym (pow_split order (top - order)), whole) fits in
    rw e (bit_within (top - order) q (omega arith) (lt_of_mul-lt-mul_right (2 ^ order) room))

-- A toggle flips the bit
pub toggle_bit_self :
    (order q : ℕ) (b : Buddy)
    → map_bit order q (record b { words = toggle_bit q (b.map order) b.words })
      ≡ 1 - map_bit order q b
unfolding toggle_bit
toggle_bit_self order q b =
    let here : (b.map order + q / 32 == b.map order + q / 32) ≡ true = ground arith in
    rw (here, one_shifted (q % 32)) (flag-flip_self (b.words (b.map order + q / 32)) (q % 32))

other_map :
    {top : ℕ} {map : ℕ → ℕ} (o p x y : ℕ)
    → Apart top map
    → 1 ≤ o
    → o < p
    → p ≤ top
    → y < get_order_map_words p (suc top)
    → map o + x ≢ map p + y
other_map o p x y apart h1 h2 h3 within at = omega (arith, apart o p h1 h2 h3)

one_order :
    {top : ℕ} {map : ℕ → ℕ} (o p x y : ℕ)
    → Apart top map
    → 1 ≤ o
    → o ≤ top
    → 1 ≤ p
    → p ≤ top
    → x < get_order_map_words o (suc top)
    → y < get_order_map_words p (suc top)
    → map o + x ≡ map p + y
    → o ≡ p
one_order o p x y apart h1 h2 h3 h4 hx hy at = elim (Bool-cases (ltb o p)) [
  | inl lt ↦ absurd (other_map o p x y apart h1 (ground arith) h4 hy at)
  | inr low ↦ elim (Bool-cases (ltb p o)) [
    | inl lt ↦ absurd (other_map p o y x apart h3 (ground arith) h2 hx (sym at))
    | inr high ↦ ground arith
  ]
]

-- and no other bit of a map.
pub toggle_bit_ne :
    (top order q o p : ℕ) (b : Buddy)
    → Apart top b.map
    → top < 32
    → 1 ≤ order
    → order ≤ top
    → q * 2 ^ order < 2 ^ top
    → 1 ≤ o
    → o ≤ top
    → p * 2 ^ o < 2 ^ top
    → (order == o && q == p) ≡ false
    → map_bit o p (record b { words = toggle_bit q (b.map order) b.words }) ≡ map_bit o p b
unfolding toggle_bit
toggle_bit_ne top order q o p b apart small h1 h2 hq h3 h4 hp other =
    let q_in = within_words top order q h2 small hq in
    let p_in = within_words top o p h4 small hp in
    elim (Bool-cases (b.map o + p / 32 == b.map order + q / 32)) [
      | inl same ↦
          let at : b.map o + p / 32 ≡ b.map order + q / 32 = ground arith in
          let equal = one_order order o (q / 32) (p / 32) apart h1 h2 h3 h4 q_in p_in (sym at) in
          let bits : (q % 32 == p % 32) ≡ false = ground arith in
          rw (same, one_shifted (q % 32))
            (flag-flip_ne (b.words (b.map o + p / 32)) (q % 32) (p % 32) bits)
      | inr differs ↦ rw differs refl
    ]
