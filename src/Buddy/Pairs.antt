-- ===== src/Buddy/Pairs.antt =====
-- Two blocks of an order make a pair, and a bit tells whether just one of them is free.
use native.Mathlib.Nat.{
  pow-suc, one-le-pow, mod-add-div', mul-add-div_right, mul-div_left, div-div-eq-div-mul,
  div-eq_of_lt,
}
use operating_system_cortex.Prelude.{
  ℕ, suc, ◌+◌, ◌-◌, ◌*◌, ◌/◌, ◌%◌, ◌^◌, ◌≤◌, ◌<◌, ◌≡◌, refl, sym, ap, ◌∙◌, Bool, true, false, not,
  ◌&&◌, ◌==◌, if◌then◌else◌, arith, Bool-cases, ◌⊎◌, inl, inr,
}
use operating_system_cortex.Buddy.{Buddy, toggle_parent}
use operating_system_cortex.Buddy.Map.{
  map_bit, Apart, get_parent_bit_lem, toggle_bit_self, toggle_bit_ne, pow_mono,
}
use operating_system_cortex.Buddy.Tiling.{Tiling, is_free}

abbrev pub odd : Bool → Bool → ℕ
odd true true = 0
odd true false = 1
odd false true = 1
odd false false = 0

-- A block is the lower or the upper one of its pair.
pub half_of_pair :
    (c j : ℕ)
    → j % 2 ^ c ≡ 0
    → (j ≡ j / 2 ^ suc c * 2 ^ suc c) × (j / 2 ^ c % 2 ≡ 0)
      ⊎ (j ≡ j / 2 ^ suc c * 2 ^ suc c + 2 ^ c) × (j / 2 ^ c % 2 ≡ 1)
half_of_pair c j aligned =
    let e = j / 2 ^ c in
    let half : j / 2 ^ suc c ≡ e / 2 =
      ap (λ (t : ℕ). j / t) (pow-suc 2 c) ∙ sym (div-div-eq-div-mul j (2 ^ c) 2) in
    let twice : e / 2 * 2 ^ suc c ≡ 2 * (e / 2 * 2 ^ c) =
      omega (arith, ap (λ (t : ℕ). e / 2 * t) (pow-suc 2 c)) in
    let whole : j ≡ e * 2 ^ c = omega (arith, mod-add-div' j (2 ^ c)) in
    rw half (elim (Bool-cases (e % 2 == 0)) [
      | inl even ↦
          let split : e ≡ 2 * (e / 2) = ground arith in
          inl (omega (arith, ap (λ (t : ℕ). t * 2 ^ c) split), ground arith)
      | inr not_even ↦
          let split : e ≡ 2 * (e / 2) + 1 = ground arith in
          inr (omega (arith, ap (λ (t : ℕ). t * 2 ^ c) split), ground arith)
    ])

pub pair_of_half :
    (c q : ℕ) → (q * 2 ^ suc c / 2 ^ suc c ≡ q) × ((q * 2 ^ suc c + 2 ^ c) / 2 ^ suc c ≡ q)
pair_of_half c q =
    let positive = one-le-pow (suc c) 2 (omega arith) in
    let below : 2 ^ c < 2 ^ suc c = omega (arith, pow-suc 2 c, one-le-pow c 2 (omega arith)) in
    let rest : 2 ^ c / 2 ^ suc c ≡ 0 = div-eq_of_lt below in
    (mul-div_left q positive, mul-add-div_right positive q (2 ^ c) ∙ omega (arith, rest))

odd-not_left : (x y : Bool) → odd (not x) y ≡ 1 - odd x y
odd-not_left true true = refl
odd-not_left true false = refl
odd-not_left false true = refl
odd-not_left false false = refl

odd-not_right : (x y : Bool) → odd x (not y) ≡ 1 - odd x y
odd-not_right true true = refl
odd-not_right true false = refl
odd-not_right false true = refl
odd-not_right false false = refl

-- The two blocks of pair `q` of order `p`.
abbrev pub pair_bit : Tiling → (p q : ℕ) → ℕ
pair_bit t p q = odd (is_free t p (q * 2 ^ suc p)) (is_free t p (q * 2 ^ suc p + 2 ^ p))

abbrev pub Bits : (top : ℕ) → Buddy → Tiling → Type 0
Bits top b t = (o q : ℕ) → o < top → q * 2 ^ suc o < 2 ^ top → map_bit (suc o) q b ≡ pair_bit t o q

-- One block becomes free, or stops being free.
abbrev pub Change : (o j : ℕ) → Tiling → Tiling → Type 0
Change o j t t' =
    (p k : ℕ) → is_free t' p k ≡ (if p == o && k == j then not (is_free t p k) else is_free t p k)

changed_pair :
    (o j : ℕ) (t t' : Tiling)
    → j % 2 ^ o ≡ 0
    → Change o j t t'
    → pair_bit t' o (j / 2 ^ suc o) ≡ 1 - pair_bit t o (j / 2 ^ suc o)
changed_pair o j t t' aligned change =
    let q = j / 2 ^ suc o in
    let x = is_free t o (q * 2 ^ suc o) in
    let y = is_free t o (q * 2 ^ suc o + 2 ^ o) in
    let positive = one-le-pow o 2 (omega arith) in
    elim (half_of_pair o j aligned) [
      | inl (low, _) ↦
          let hit : (o == o && q * 2 ^ suc o == j) ≡ true = ground arith in
          let miss : (o == o && q * 2 ^ suc o + 2 ^ o == j) ≡ false = ground arith in
          rw (change o (q * 2 ^ suc o), change o (q * 2 ^ suc o + 2 ^ o), hit, miss)
            (odd-not_left x y)
      | inr (high, _) ↦
          let miss : (o == o && q * 2 ^ suc o == j) ≡ false = ground arith in
          let hit : (o == o && q * 2 ^ suc o + 2 ^ o == j) ≡ true = ground arith in
          rw (change o (q * 2 ^ suc o), change o (q * 2 ^ suc o + 2 ^ o), hit, miss)
            (odd-not_right x y)
    ]

same_pair :
    (o j p q : ℕ) (t t' : Tiling)
    → (p == o && q == j / 2 ^ suc o) ≡ false
    → Change o j t t'
    → pair_bit t' p q ≡ pair_bit t p q
same_pair o j p q t t' other change =
    let (low, high) = pair_of_half p q in
    let miss : (p == o && q * 2 ^ suc p == j) ≡ false = ground arith in
    let miss' : (p == o && q * 2 ^ suc p + 2 ^ p == j) ≡ false = ground arith in
    rw (change p (q * 2 ^ suc p), change p (q * 2 ^ suc p + 2 ^ p), miss, miss') refl

-- When one block becomes free or stops being free, the toggle of its parent bit keeps the map true.
pub toggle_parent-Bits :
    (top o j : ℕ) (b : Buddy) (t t' : Tiling)
    → top < 31
    → o < top
    → j % 2 ^ o ≡ 0
    → j < 2 ^ top
    → Apart top b.map
    → Bits top b t
    → Change o j t t'
    → Bits top (toggle_parent j o b) t'
toggle_parent-Bits top o j b t t' small room aligned within apart bits change p q lt fits =
    let parent =
      get_parent_bit_lem j o (omega arith) (omega (arith, pow_mono top 32 (omega arith))) in
    let next : o + 1 ≡ suc o = omega arith in
    let low : j / 2 ^ suc o * 2 ^ suc o < 2 ^ top = omega (arith, mod-add-div' j (2 ^ suc o)) in
    rw (parent, next)
      (elim (Bool-cases (p == o && q == j / 2 ^ suc o)) [
        | inl here ↦
            let same : p ≡ o = ground arith in
            let pair : q ≡ j / 2 ^ suc o = ground arith in
            rw (same, pair)
              (toggle_bit_self (suc o) (j / 2 ^ suc o) b
                ∙ ap (λ (n : ℕ). 1 - n) (bits o (j / 2 ^ suc o) room low)
                ∙ sym (changed_pair o j t t' aligned change))
        | inr other ↦
            toggle_bit_ne top (suc o) (j / 2 ^ suc o) (suc p) q b apart (omega arith) (omega arith)
              (omega arith) low (omega arith) (omega arith) fits (ground arith)
            ∙ bits p q lt fits
            ∙ sym (same_pair o j p q t t' other change)
      ])

-- The block that is the whole zone has no parent.
pub whole-Bits :
    (top o j : ℕ) (b : Buddy) (t t' : Tiling)
    → top ≤ o
    → Bits top b t
    → Change o j t t'
    → Bits top b t'
whole-Bits top o j b t t' room bits change p q lt fits =
    bits p q lt fits ∙ sym (same_pair o j p q t t' (ground arith) change)
