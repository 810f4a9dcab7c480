-- ===== src/Buddy/Free.antt =====
-- A block that is freed is merged with its buddy as long as that is free.
use operating_system_cortex.Prelude.{
  ℕ, zero, suc, ◌+◌, ◌-◌, ◌*◌, ◌/◌, ◌%◌, ◌^◌, ◌≤◌, ◌<◌, ◌≡◌, refl, sym, ap, ◌∙◌, true, false, ◌==◌,
  ltb, if◌then◌else◌, arith, Bool-cases, inl, inr,
}
use Prim.Native.Nat.{bit_xor, bit_and}
use native.Mathlib.Nat.{one-le-pow, mod-add-div'}
use operating_system_cortex.Prelude.Bits.{◌<<<◌, not32, sub32}
use operating_system_cortex.Prelude.Outcome.{ok}
use operating_system_cortex.Buddy.{
  Buddy, coalesce, buddy_free_pages, add_first, toggle_parent, get_bit, get_parent_bit, linked,
  delete_node,
}
use operating_system_cortex.Buddy.Map.{get_bit_lem, get_parent_bit_lem, clear_below, map_bit}
use operating_system_cortex.Buddy.Pairs.{pair_bit}
use operating_system_cortex.Buddy.Lists.{linked-Lists}
use operating_system_cortex.Buddy.Changes.{Buddies}
use operating_system_cortex.Buddy.Steps.{
  IsHeld, block_room, release-IsHeld, release_whole-IsHeld, join-IsHeld,
}
use operating_system_cortex.Buddy.Tiling.{Tiling, used_level, mark, join, pages}
use operating_system_cortex.Buddy.Zone.{
  IsZone, SameUsed, pages_in_use, pages_in_use-change, block_bytes,
}

-- The block at `k` is not in use any more, and the others are as before.
abbrev pub Freed : ℕ → Tiling → Tiling → Type 0
Freed k t t' = (j : ℕ) → used_level t' j ≡ (if j == k then 0 else used_level t j)

zero_product : (x d : ℕ) → 1 ≤ d → (x * d == 0) ≡ (x == 0)
zero_product zero d h = ground arith
zero_product (suc x) d h = ground arith

-- The bit that the loop reads is the bit of the pair.
parent_bit :
    (o k top : ℕ) (b : Buddy) (t : Tiling)
    → top < 31
    → IsHeld top b t
    → t.level k ≡ suc o
    → o < top
    → (map_bit (suc o) (k / 2 ^ suc o) b ≡ pair_bit t o (k / 2 ^ suc o))
      × ((get_bit (get_parent_bit k o) (b.map (o + 1)) b.words == 0)
          ≡ (map_bit (suc o) (k / 2 ^ suc o) b == 0))
parent_bit o k top b t small h at lt =
    let place = block_room small h o k at in
    let next : o + 1 ≡ suc o = omega arith in
    let parent = get_parent_bit_lem k o (omega arith) (omega (arith, place.3)) in
    let q = k / 2 ^ suc o in
    let low : q * 2 ^ suc o < 2 ^ top = omega (arith, place.2, mod-add-div' k (2 ^ suc o)) in
    (
      h.bits o q lt low,
      rw (next, parent, get_bit_lem q (suc o) b)
          (zero_product (map_bit (suc o) q b) (2 ^ (q % 32)) (one-le-pow (q % 32) 2 (omega arith))),
    )

joined_Freed :
    (t t' : Tiling) (o k j low : ℕ)
    → t.vacant k ≡ false
    → Buddies t o k j low
    → Freed low (join o low t) t'
    → Freed k t t'
joined_Freed t t' o k j low used (at, free, inl (h, e)) freed i =
    freed i ∙ ground (arith, one-le-pow o 2 (omega arith))
joined_Freed t t' o k j low used (at, free, inr (h, e)) freed i =
    freed i ∙ ground (arith, one-le-pow o 2 (omega arith))

coalesce-IsHeld :
    (n o k top : ℕ) (b : Buddy) (t : Tiling)
    → top < 31
    → o + n ≡ top
    → IsHeld top b t
    → t.level k ≡ suc o
    → t.vacant k ≡ false
    → (k' : ℕ) × (o' : ℕ) × (b' : Buddy) × (t' : Tiling) × (coalesce n k o b ≡ ok (k', o', b'))
      × IsHeld top (add_first k' o' b') t'
      × Freed k t t'
      × (b'.used ≡ b.used)
      × ((p : ℕ) → b'.order p ≡ b.order p)
unfolding coalesce
coalesce-IsHeld zero o k top b t small left h at used = (
  k,
  o,
  b,
  mark true k t,
  refl,
  release_whole-IsHeld small h o k at used (omega arith),
  λ j. ground arith,
  refl,
  λ p. refl,
)
coalesce-IsHeld (suc n) o k top b t small left h at used =
    let lt : o < top = omega arith in
    let bit = parent_bit o k top b t small h at lt in
    elim (Bool-cases (map_bit (suc o) (k / 2 ^ suc o) b == 0)) [
      | inl clear ↦
          rw (bit.1, clear)
            (
              k,
              o,
              toggle_parent k o b,
              mark true k t,
              refl,
              release-IsHeld small h o k at used lt,
              (λ j. ground arith),
              refl,
              λ p. refl,
            )
      | inr set ↦
          let one : pair_bit t o (k / 2 ^ suc o) ≡ 1 = ground (arith, bit.0) in
          let low = k / 2 ^ suc o * 2 ^ suc o in
          let j = bit_xor k (1 <<< o) in
          let place = block_room small h o k at in
          let joined = join-IsHeld small h o k at used lt one in
          let (at_j, free, halves) = joined.0 in
          let there : linked b.max_orders j (toggle_parent k o b) ≡ true =
            linked-Lists top o j b.max_orders (toggle_parent k o b) t h.lists place.0 (ground arith)
              (omega (arith, h.orders)) in
          let next : o + 1 ≡ suc o = omega arith in
          let index : bit_and k (not32 (sub32 (1 <<< (o + 1)) 1)) ≡ low =
            rw next (clear_below k (suc o) (omega arith) (omega (arith, place.3))) in
          let rest =
            coalesce-IsHeld n (o + 1) low top (delete_node j (toggle_parent k o b)) (join o low t)
              small (omega arith) joined.1 (ground arith) (ground arith) in
          rw (bit.1, set, there, index)
            (
              rest.0,
              rest.1,
              rest.2,
              rest.3,
              rest.4,
              rest.5,
              joined_Freed t rest.3 o k j low used joined.0 rest.6,
              rest.7,
              rest.8,
            )
    ]

in_use_at :
    (t : Tiling) (k o : ℕ) → used_level t k ≡ suc o → (t.level k ≡ suc o) × (t.vacant k ≡ false)
in_use_at t k o in_use = elim (Bool-cases (t.vacant k)) [
  | inl free ↦
      let empty : used_level t k ≡ 0 = rw free refl in absurd (omega (arith, in_use, empty))
  | inr used ↦ let whole : used_level t k ≡ t.level k = rw used refl in (sym whole ∙ in_use, used)
]

-- Nothing that is held depends on the count of the bytes.
same-IsHeld :
    {top n : ℕ} {b : Buddy} {t : Tiling} → IsHeld top b t → IsHeld top (record b { used = n }) t
same-IsHeld h = record {
  orders = h.orders;
  tiling = h.tiling;
  lists = h.lists;
  apart = h.apart;
  bits = h.bits;
}

-- The bytes of a block are counted while it is in use.
Freed-pages :
    (k o top : ℕ) (t t' : Tiling)
    → k < 2 ^ top
    → used_level t k ≡ suc o
    → Freed k t t'
    → pages_in_use top t' + 2 ^ o ≡ pages_in_use top t
Freed-pages k o top t t' within in_use freed =
    let same : SameUsed k t t' = λ j other. freed j ∙ rw other refl in
    let gone : pages (used_level t' k) ≡ 0 = ap pages (freed k) ∙ self_zero k (used_level t k) in
    let before : pages (used_level t k) ≡ 2 ^ o = ap pages in_use in
    omega (arith, pages_in_use-change top k t t' within same, gone, before)
  where
    self_zero : (k n : ℕ) → pages (if k == k then 0 else n) ≡ 0
    self_zero k n = let self : (k == k) ≡ true = ground arith in rw self refl

Freed-IsZone :
    (k o top : ℕ) (b b' : Buddy) (t t' : Tiling)
    → IsZone top b t
    → k < 2 ^ top
    → used_level t k ≡ suc o
    → IsHeld top b' t'
    → Freed k t t'
    → ((p : ℕ) → b'.order p ≡ b.order p)
    → b'.used ≡ b.used - 4096 * 2 ^ o
    → IsZone top b' t'
Freed-IsZone k o top b b' t t' z within in_use held freed kept bytes = record {
  held = held;
  order = λ p n now. kept p ∙ z.order p n (still p n (freed p) now);
  used = omega (arith, bytes, z.used, Freed-pages k o top t t' within in_use freed);
}
  where
    still :
        (p n : ℕ)
        → used_level t' p ≡ (if p == k then 0 else used_level t p)
        → used_level t' p ≡ suc n
        → used_level t p ≡ suc n
    still p n at now = ground (arith, at, now)

-- When the first page of a block in use is given to `buddy_free_pages`, no list node is taken out
-- that is in no list, the zone is in order afterwards, that block is in use no more and the others
-- stay, and `used` goes down by the bytes of the block.
pub buddy_free_pages_lem :
    (k o top : ℕ) (b : Buddy) (t : Tiling)
    → top < 20
    → IsZone top b t
    → used_level t k ≡ suc o
    → (b' : Buddy) × (t' : Tiling) × (buddy_free_pages k b ≡ ok b')
      × IsZone top b' t'
      × Freed k t t'
      × (b'.used + 4096 * 2 ^ o ≡ b.used)
unfolding buddy_free_pages
buddy_free_pages_lem k o top b t small z in_use =
    let order = z.order k o in_use in
    let (at, used) = in_use_at t k o in_use in
    let place = z.held.tiling.aligned k o at in
    let within : k < 2 ^ top = omega (arith, place.2, one-le-pow o 2 (omega arith)) in
    let rounds : b.max_orders - 1 - o ≡ top - o = omega (arith, z.held.orders) in
    let merged =
      coalesce-IsHeld (top - o) o k top b t (omega arith) (omega (arith, place.0)) z.held at used in
    let bytes = merged.7 in
    let counted = Freed-pages k o top t merged.3 within in_use merged.6 in
    let size = block_bytes o (omega (arith, place.0)) in
    let enough : ltb merged.2.used (4096 * 2 ^ o) ≡ false =
      ground (arith, bytes, z.used, counted) in
    let less : merged.2.used - 4096 * 2 ^ o ≡ b.used - 4096 * 2 ^ o = omega (arith, bytes) in
    rw (order, rounds, merged.4, size, enough)
      (
        _,
        merged.3,
        refl,
        Freed-IsZone k o top b _ t merged.3 z within in_use (same-IsHeld merged.5) merged.6 merged.8
            less,
        merged.6,
        omega (arith, less, z.used, counted),
      )
