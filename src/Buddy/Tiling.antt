-- ===== src/Buddy/Tiling.antt =====
-- The blocks of a zone: which pages start one, of which order, and whether it is free.
use operating_system_cortex.Prelude.{
  ℕ, zero, suc, ◌+◌, ◌*◌, ◌/◌, ◌%◌, ◌^◌, ◌≤◌, ◌<◌, ◌≡◌, refl, ap, ◌∙◌, Bool, true, false, ◌&&◌,
  ◌==◌, if◌then◌else◌, arith,
}
use operating_system_cortex.Prelude.Sum.{sum, sum-change_two}
use native.Mathlib.Nat.{pow-suc, one-le-pow, mod-add-div', mul-mod_left, add-mod_right}

-- `level` is 0 where no block starts, and one more than the order where one does.
pub record Tiling : Type 0 where
  pub level : ℕ → ℕ
  pub vacant : ℕ → Bool

-- A free block of order `o` starts at `k`.
abbrev pub is_free : Tiling → (o k : ℕ) → Bool
is_free t o k = (t.level k == suc o) && t.vacant k

-- The level of the block in use that starts at `k`.
abbrev pub used_level : Tiling → (k : ℕ) → ℕ
used_level t k = if t.vacant k then 0 else t.level k

-- The pages of a block of a level.
abbrev pub pages : ℕ → ℕ
pages zero = 0
pages (suc o) = 2 ^ o

-- The blocks are aligned, within `2 ^ top` pages, do not overlap, and leave no page out.
pub record IsTiling (top : ℕ) (t : Tiling) : Type 0 where
  pub aligned : (k o : ℕ) → t.level k ≡ suc o → (o ≤ top) × (k % 2 ^ o ≡ 0) × (k + 2 ^ o ≤ 2 ^ top)
  pub apart : (k o j : ℕ) → t.level k ≡ suc o → k < j → j < k + 2 ^ o → t.level j ≡ 0
  pub whole : sum (2 ^ top) (λ k. pages (t.level k)) ≡ 2 ^ top

-- A block is taken or given back, one in use is split and its upper half given back, and one in use
-- is merged with the other half of its pair.
abbrev pub mark : Bool → ℕ → Tiling → Tiling
mark v k t = record t { vacant = λ p. if p == k then v else t.vacant p }

abbrev pub halve : (c k : ℕ) → Tiling → Tiling
halve c k t = record t {
  level = λ p. if p == k then suc c else if p == k + 2 ^ c then suc c else t.level p;
  vacant = λ p. if p == k + 2 ^ c then true else t.vacant p;
}

abbrev pub join : (o low : ℕ) → Tiling → Tiling
join o low t = record t {
  level = λ p. if p == low then suc (suc o) else if p == low + 2 ^ o then 0 else t.level p;
  vacant = λ p. if p == low then false else t.vacant p;
}

-- A block is a pair of blocks of the order below.
pub halves : (c k : ℕ) → k % 2 ^ suc c ≡ 0 → (k % 2 ^ c ≡ 0) × ((k + 2 ^ c) % 2 ^ c ≡ 0)
halves c k even =
    let m = mod-add-div' k (2 ^ suc c) in
    let twice : k ≡ k / 2 ^ suc c * 2 * 2 ^ c =
      omega (arith, m, ap (λ (t : ℕ). k / 2 ^ suc c * t) (pow-suc 2 c)) in
    let lower : k % 2 ^ c ≡ 0 =
      ap (λ (t : ℕ). t % 2 ^ c) twice ∙ mul-mod_left (k / 2 ^ suc c * 2) (2 ^ c) in
    (lower, add-mod_right k (2 ^ c) ∙ lower)

-- No page is lost or counted twice when two blocks change within one.
two_blocks :
    (n j d : ℕ) (f g : ℕ → ℕ)
    → j + d < n
    → 0 < d
    → ((i : ℕ) → (i == j) ≡ false → (i == j + d) ≡ false → g i ≡ f i)
    → g j + g (j + d) ≡ f j + f (j + d)
    → sum n g ≡ sum n f
two_blocks n j d f g within positive same kept =
    omega
      (arith, kept, sum-change_two n j (j + d) f g (omega arith) (omega arith) (omega arith) same)

pub halve-IsTiling :
    {top : ℕ} {t : Tiling} (c k : ℕ)
    → IsTiling top t
    → t.level k ≡ suc (suc c)
    → IsTiling top (halve c k t)
halve-IsTiling {top} {t} c k r at =
    let whole = r.aligned k (suc c) at in
    let pair = halves c k whole.1 in
    let positive = one-le-pow c 2 (omega arith) in
    let double = pow-suc 2 c in
    let at_low_half : (k == k) ≡ true = ground arith in
    let past : (k + 2 ^ c == k) ≡ false = ground arith in
    let at_half : (k + 2 ^ c == k + 2 ^ c) ≡ true = ground arith in
    let none = r.apart k (suc c) (k + 2 ^ c) at (omega arith) (omega arith) in
    record {
      aligned = λ p o h. ground (arith, whole, pair, r.aligned p o, pow-suc 2 c);
      apart = λ p o j h low high. ground (
        arith,
        r.apart p o j,
        r.apart k (suc c) j at,
        r.apart k (suc c) p at,
        pow-suc 2 c,
        r.apart p o k,
        one-le-pow c 2 (omega arith),
      );
      whole =
          two_blocks (2 ^ top) k (2 ^ c) (λ p. pages (t.level p))
            (λ p. pages ((halve c k t).level p)) (omega (arith, whole)) positive
            (λ i h g. rw (h, g) refl) (rw (at_low_half, past, at_half, at, none) (omega arith))
          ∙ r.whole;
    }

pub join-IsTiling :
    {top : ℕ} {t : Tiling} (o low : ℕ)
    → IsTiling top t
    → o < top
    → low % 2 ^ suc o ≡ 0
    → t.level low ≡ suc o
    → t.level (low + 2 ^ o) ≡ suc o
    → IsTiling top (join o low t)
join-IsTiling {top} {t} c k r room even at_low at_high =
    let lower = r.aligned k c at_low in
    let upper = r.aligned (k + 2 ^ c) c at_high in
    let positive = one-le-pow c 2 (omega arith) in
    let double = pow-suc 2 c in
    let at_low_half : (k == k) ≡ true = ground arith in
    let past : (k + 2 ^ c == k) ≡ false = ground arith in
    let at_half : (k + 2 ^ c == k + 2 ^ c) ≡ true = ground arith in
    record {
      aligned = λ p o h. ground (arith, lower, upper, r.aligned p o, pow-suc 2 c);
      apart = λ p o j h low high. ground (
        arith,
        r.apart p o j,
        r.apart k c j at_low,
        r.apart (k + 2 ^ c) c j at_high,
        r.apart p o k,
        pow-suc 2 c,
      );
      whole =
          two_blocks (2 ^ top) k (2 ^ c) (λ p. pages (t.level p))
            (λ p. pages ((join c k t).level p)) (omega (arith, upper)) positive
            (λ i h g. rw (h, g) refl)
            (rw (at_low_half, past, at_half, at_low, at_high) (omega arith))
          ∙ r.whole;
    }
