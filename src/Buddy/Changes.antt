-- ===== src/Buddy/Changes.antt =====
-- What a step changes in the tiling, and how the parent bit tells of the buddy.
use operating_system_cortex.Prelude.{
  ℕ, suc, ◌+◌, ◌*◌, ◌/◌, ◌%◌, ◌^◌, ◌<◌, ◌≡◌, refl, sym, ap, ◌∙◌, Bool, true, false, not, ◌==◌,
  arith, Bool-cases, ◌⊎◌, inl, inr,
}
use native.Mathlib.Nat.{one-le-pow, mod-add-div'}
use operating_system_cortex.Prelude.Bits.{◌<<<◌}
use operating_system_cortex.Prelude.Xor.{flip_clear, flip_set}
use Prim.Native.Nat.{bit_xor}
use operating_system_cortex.Buddy.{get_parent_bit}
use operating_system_cortex.Buddy.Map.{one_shifted, get_parent_bit_lem}
use operating_system_cortex.Buddy.Pairs.{Change, odd, pair_bit, half_of_pair, pair_of_half}
use operating_system_cortex.Buddy.Tiling.{Tiling, IsTiling, is_free, mark, halve, join}

pub mark-Change :
    (t : Tiling) (o k : ℕ) (v : Bool)
    → t.level k ≡ suc o
    → t.vacant k ≡ not v
    → Change o k t (mark v k t)
mark-Change t o k v at was p j = elim (Bool-cases (j == k)) [
  | inl here ↦ ground arith
  | inr other ↦ ground arith
]

pub mark-IsTiling :
    {top : ℕ} {t : Tiling} (v : Bool) (k : ℕ) → IsTiling top t → IsTiling top (mark v k t)
mark-IsTiling v k r = record { aligned = r.aligned; apart = r.apart; whole = r.whole }

pub halve-Change :
    (t : Tiling) (c k : ℕ)
    → t.level k ≡ suc (suc c)
    → t.vacant k ≡ false
    → t.level (k + 2 ^ c) ≡ 0
    → Change c (k + 2 ^ c) t (halve c k t)
halve-Change t c k at used none p j = ground (arith, one-le-pow c 2 (omega arith))

-- The block of order `o` at `j` is free, that at `k` in use, and `low` is the lower of them.
pub join-Change :
    (t : Tiling) (o k j low : ℕ)
    → t.level k ≡ suc o
    → t.vacant k ≡ false
    → t.level j ≡ suc o
    → t.vacant j ≡ true
    → (low ≡ k) × (j ≡ k + 2 ^ o) ⊎ (low ≡ j) × (k ≡ j + 2 ^ o)
    → Change o j t (join o low t)
join-Change t o k j low at_k used at_j free (inl (h, e)) p i =
    ground (arith, one-le-pow o 2 (omega arith))
join-Change t o k j low at_k used at_j free (inr (h, e)) p i =
    ground (arith, one-le-pow o 2 (omega arith))

pub same_parent :
    (c k : ℕ)
    → c < 31
    → k + 2 ^ c < 2 ^ 32
    → k % 2 ^ suc c ≡ 0
    → get_parent_bit k c ≡ get_parent_bit (k + 2 ^ c) c
same_parent c k small fits even =
    let whole : k ≡ k / 2 ^ suc c * 2 ^ suc c = omega (arith, mod-add-div' k (2 ^ suc c)) in
    let upper : (k + 2 ^ c) / 2 ^ suc c ≡ k / 2 ^ suc c =
      ap (λ (t : ℕ). (t + 2 ^ c) / 2 ^ suc c) whole ∙ (pair_of_half c (k / 2 ^ suc c)).1 in
    get_parent_bit_lem k c small (omega arith)
    ∙ sym upper
    ∙ sym (get_parent_bit_lem (k + 2 ^ c) c small fits)

-- `low` and what follows it are the pair of `k` and `j`.
abbrev pub Halves : (o k j low : ℕ) → Type 0
Halves o k j low = (low ≡ k) × (j ≡ k + 2 ^ o) ⊎ (low ≡ j) × (k ≡ j + 2 ^ o)

pub both_levels :
    (t : Tiling) (o k j low : ℕ)
    → t.level k ≡ suc o
    → t.level j ≡ suc o
    → Halves o k j low
    → (t.level low ≡ suc o) × (t.level (low + 2 ^ o) ≡ suc o)
both_levels t o k j low at_k at_j (inl (h, e)) = (rw h at_k, rw (h, ← e) at_j)
both_levels t o k j low at_k at_j (inr (h, e)) = (rw h at_j, rw (h, ← e) at_k)

pub parents :
    (o k j low : ℕ)
    → o < 31
    → k + 2 ^ o < 2 ^ 32
    → j + 2 ^ o < 2 ^ 32
    → low % 2 ^ suc o ≡ 0
    → Halves o k j low
    → get_parent_bit k o ≡ get_parent_bit j o
parents o k j low small fits_k fits_j even (inl (h, e)) =
    rw e (same_parent o k small fits_k (rw (← h) even))
parents o k j low small fits_k fits_j even (inr (h, e)) =
    rw e (sym (same_parent o j small fits_j (rw (← h) even)))

-- The block of order `o` at `k` is in use, and its buddy at `j` is free, where `low` is the lower.
abbrev pub Buddies : (t : Tiling) (o k j low : ℕ) → Type 0
Buddies t o k j low = (t.level j ≡ suc o) × (t.vacant j ≡ true) × Halves o k j low

odd-left : (x y : Bool) → x ≡ false → odd x y ≡ 1 → y ≡ true
odd-left true y h e = absurd (ground arith)
odd-left false true h e = refl
odd-left false false h e = absurd (omega arith)

odd-right : (x y : Bool) → y ≡ false → odd x y ≡ 1 → x ≡ true
odd-right true y h e = refl
odd-right false true h e = absurd (ground arith)
odd-right false false h e = absurd (omega arith)

upper_free :
    (t : Tiling) (o k low : ℕ)
    → low ≡ k
    → t.vacant k ≡ false
    → odd (is_free t o low) (is_free t o (low + 2 ^ o)) ≡ 1
    → Buddies t o k (k + 2 ^ o) low
upper_free t o k low at used one =
    let not_free : is_free t o low ≡ false = rw at (ground arith) in
    let free = odd-left (is_free t o low) (is_free t o (low + 2 ^ o)) not_free one in
    let there : is_free t o (k + 2 ^ o) ≡ true = rw (← at) free in
    (ground (arith, there), ground (arith, there), inl (at, refl))

lower_free :
    (t : Tiling) (o k low : ℕ)
    → k ≡ low + 2 ^ o
    → t.vacant k ≡ false
    → odd (is_free t o low) (is_free t o (low + 2 ^ o)) ≡ 1
    → Buddies t o k low low
lower_free t o k low at used one =
    let not_free : is_free t o (low + 2 ^ o) ≡ false = rw (← at) (ground arith) in
    let free = odd-right (is_free t o low) (is_free t o (low + 2 ^ o)) not_free one in
    (ground (arith, free), ground (arith, free), inr (refl, at))

-- The parent bit of a block in use tells whether its buddy is free.
pub buddy_of :
    (t : Tiling) (o k : ℕ)
    → k % 2 ^ o ≡ 0
    → t.vacant k ≡ false
    → pair_bit t o (k / 2 ^ suc o) ≡ 1
    → Buddies t o k (bit_xor k (1 <<< o)) (k / 2 ^ suc o * 2 ^ suc o)
buddy_of t o k aligned used one =
    let low = k / 2 ^ suc o * 2 ^ suc o in
    elim (half_of_pair o k aligned) [
      | inl (lower, clear) ↦
          rw (one_shifted o, flip_clear k o clear) (upper_free t o k low (sym lower) used one)
      | inr (upper, set) ↦
          let other : bit_xor k (2 ^ o) ≡ low = omega (arith, flip_set k o set) in
          rw (one_shifted o, other) (lower_free t o k low upper used one)
    ]
