-- ===== src/Buddy/Loops.antt =====
-- The two loops of an allocation: looking for an order, and splitting.
use operating_system_cortex.Prelude.{
  ℕ, zero, suc, ◌+◌, ◌^◌, ◌≤◌, ◌<◌, ◌≡◌, refl, false, [], List-cases, is_nil, ◌==◌, arith,
  Bool-cases, ◌⊎◌, inl, inr,
}
use native.Mathlib.Nat.{one-le-pow, pow-suc}
use operating_system_cortex.Buddy.{Buddy, find_order, split}
use operating_system_cortex.Buddy.Steps.{IsHeld, halve-IsHeld}
use operating_system_cortex.Buddy.Tiling.{Tiling, halve}
use operating_system_cortex.Buddy.Zone.{SameUsed, SameUsed-trans}

-- The loop gives the first order with a free block, or the order behind the last.
pub find_order_lem :
    (n o : ℕ) (b : Buddy)
    → (o ≤ find_order n o b)
      × (find_order n o b ≤ o + n)
      × ((p : ℕ) → o ≤ p → p < find_order n o b → b.free_list p ≡ [])
      × ((find_order n o b ≡ o + n)
          ⊎ (find_order n o b < o + n) × (is_nil (b.free_list (find_order n o b)) ≡ false))
unfolding find_order
find_order_lem zero o b =
    (omega arith, omega arith, λ p low high. absurd (omega arith), inl (omega arith))
find_order_lem (suc n) o b = elim (List-cases (b.free_list o)) [
  | inl empty ↦
      let next = find_order_lem n (o + 1) b in
      rw empty (
        omega (arith, next.0),
        omega (arith, next.1),
        (λ p low high. elim (Bool-cases (p == o)) [
          | inl here ↦ let at : p ≡ o = ground arith in rw at empty
          | inr later ↦ next.2 p (ground arith) high
        ]),
        elim next.3 [
          | inl all ↦ inl (omega (arith, all))
          | inr found ↦ inr (omega (arith, found.0), found.1)
        ],
      )
  | inr (k, ks, filled) ↦ rw filled (
    omega arith,
    omega arith,
    (λ p low high. absurd (omega arith)),
    inr (omega arith, rw filled refl),
  )
]

-- The loop that splits.
pub split-IsHeld :
    (n order k top : ℕ) (b : Buddy) (t : Tiling)
    → top < 31
    → IsHeld top b t
    → t.level k ≡ suc (order + n)
    → t.vacant k ≡ false
    → (t' : Tiling) × IsHeld top (split n order k b) t'
      × (t'.level k ≡ suc order)
      × (t'.vacant k ≡ false)
      × SameUsed k t t'
      × ((split n order k b).used ≡ b.used)
      × ((p : ℕ) → (split n order k b).order p ≡ b.order p)
unfolding split
split-IsHeld zero order k top b t small h at used =
    (t, h, omega arith, used, λ j other. refl, refl, λ p. refl)
split-IsHeld (suc n) order k top b t small h at used =
    let c = order + n in
    let at_c : t.level k ≡ suc (suc (order + n)) = omega arith in
    let next = halve-IsHeld small h (order + n) k at_c used in
    let positive = one-le-pow (order + n) 2 (omega arith) in
    let none =
      h.tiling.apart k (suc c) (k + 2 ^ c) at_c (omega arith) (omega (arith, pow-suc 2 c)) in
    let rest =
      split-IsHeld n order k top _ (halve (order + n) k t) small next (ground arith)
        (ground arith) in
    (
      rest.0,
      rest.1,
      rest.2,
      rest.3,
      SameUsed-trans k t (halve (order + n) k t) rest.0 (λ j other. ground (arith, none)) rest.4,
      rest.5,
      rest.6,
    )
