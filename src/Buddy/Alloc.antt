-- ===== src/Buddy/Alloc.antt =====
-- Allocation gives a free block of the order asked for.
use operating_system_cortex.Prelude.{
  ℕ, suc, ◌+◌, ◌-◌, ◌*◌, ◌^◌, ◌≤◌, ◌<◌, ◌≡◌, refl, sym, ap, ◌∙◌, Bool, true, false, List, [], ◌∷◌,
  List-cases, is_nil, ◌==◌, ltb, leb, if◌then◌else◌, arith, Bool-cases, ◌⊎◌, inl, inr,
}
use mathlib.Core.Bool.{false≢true}
use native.Mathlib.Nat.{one-le-pow}
use operating_system_cortex.Prelude.Bits.{◌<<<◌, u32}
use operating_system_cortex.Prelude.Sets.{has}
use operating_system_cortex.Prelude.Outcome.{ok, panic}
use operating_system_cortex.Buddy.{
  Buddy, find_order, split, buddy_alloc_pages, delete_first, toggle_parent,
}
use operating_system_cortex.Buddy.Map.{pow_mono}
use operating_system_cortex.Buddy.Steps.{IsHeld, take-IsHeld}
use operating_system_cortex.Buddy.Tiling.{Tiling, is_free, used_level, mark, pages}
use operating_system_cortex.Buddy.Zone.{
  IsZone, SameUsed, SameUsed-trans, pages_in_use-change, pages_in_use-bound, block_bytes,
}
use operating_system_cortex.Buddy.Loops.{find_order_lem, split-IsHeld}

-- The last writes of `buddy_alloc_pages`.
abbrev pub finish : (order k : ℕ) → Buddy → Buddy
finish order k b = record b {
  order = λ p. if p == k then order else b.order p;
  used = u32 (b.used + u32 ((1 <<< order) * 4096));
}

alloc_from :
    (order top c k : ℕ) (ks : List ℕ) (b : Buddy)
    → b.max_orders ≡ suc top
    → find_order (b.max_orders - order) order b ≡ c
    → c ≤ top
    → b.free_list c ≡ k ∷ ks
    → buddy_alloc_pages order b
      ≡ ok (
        k,
        finish order k (
            split
              (c - order)
              order
              k
              (delete_first c (if ltb c top then toggle_parent k c b else b))),
      )
unfolding buddy_alloc_pages
alloc_from order top c k ks b orders found room filled =
    let there : leb (suc top) c ≡ false = ground arith in
    let last : suc top - 1 ≡ top = omega arith in rw (found, orders, there, last, filled) refl

alloc_none :
    (order top : ℕ) (b : Buddy)
    → b.max_orders ≡ suc top
    → find_order (b.max_orders - order) order b ≡ suc top
    → buddy_alloc_pages order b ≡ panic
unfolding buddy_alloc_pages
alloc_none order top b orders found =
    let behind : leb (suc top) (suc top) ≡ true = ground arith in rw (found, orders, behind) refl

-- A block that was free is in use: what the zone is then.
pub finish-IsZone :
    (order top k : ℕ) (b b' : Buddy) (t t' : Tiling)
    → top < 20
    → IsZone top b t
    → order ≤ top
    → k < 2 ^ top
    → t.vacant k ≡ true
    → IsHeld top b' t'
    → t'.level k ≡ suc order
    → t'.vacant k ≡ false
    → SameUsed k t t'
    → b'.used ≡ b.used
    → ((p : ℕ) → b'.order p ≡ b.order p)
    → IsZone top (finish order k b') t' × ((finish order k b').used ≡ b.used + 4096 * 2 ^ order)
finish-IsZone order top k b b' t t' small z room within free h at used same bytes kept =
    let sums = pages_in_use-change top k t t' within same in
    let before : pages (used_level t k) ≡ 0 = rw free refl in
    let after : pages (used_level t' k) ≡ 2 ^ order = rw (used, at) refl in
    let bound = pages_in_use-bound top t' h.tiling in
    let total : u32 (b'.used + u32 ((1 <<< order) * 4096)) ≡ b.used + 4096 * 2 ^ order =
      rw (block_bytes order (omega arith))
        (omega (arith, sums, before, after, bound, bytes, z.used, pow_mono top 19 (omega arith))) in
    (
      record {
        held = record {
          orders = h.orders;
          tiling = h.tiling;
          lists = h.lists;
          apart = h.apart;
          bits = h.bits;
        };
        order = λ p o in_use. elim (Bool-cases (p == k)) [
          | inl here ↦ let at_k : p ≡ k = ground arith in rw here (ground (arith, in_use, at, used))
          | inr other ↦ rw (other, kept p) (z.order p o (sym (same p other) ∙ in_use))
        ];
        used = total ∙ omega (arith, sums, before, after, z.used);
      },
      total,
    )

-- The order has no free block, where its list is empty.
none_at :
    (top p k : ℕ) (b : Buddy) (t : Tiling)
    → IsHeld top b t
    → p ≤ top
    → b.free_list p ≡ []
    → is_free t p k ≡ false
none_at top p k b t h room empty = sym ((h.lists p room).0 k) ∙ ap (has k) empty

toggled_fields :
    (x : Bool) (k c : ℕ) (b : Buddy)
    → ((if x then toggle_parent k c b else b).used ≡ b.used)
      × ((p : ℕ) → (if x then toggle_parent k c b else b).order p ≡ b.order p)
toggled_fields true k c b = (refl, λ p. refl)
toggled_fields false k c b = (refl, λ p. refl)

-- A block of order `c` serves for `order`.
alloc_block :
    (order top c k : ℕ) (ks : List ℕ) (b : Buddy) (t : Tiling)
    → top < 20
    → IsZone top b t
    → order ≤ c
    → c ≤ top
    → find_order (b.max_orders - order) order b ≡ c
    → b.free_list c ≡ k ∷ ks
    → (b' : Buddy) × (t' : Tiling) × (buddy_alloc_pages order b ≡ ok (k, b'))
      × IsZone top b' t'
      × (is_free t c k ≡ true)
      × (used_level t' k ≡ suc order)
      × SameUsed k t t'
      × (b'.used ≡ b.used + 4096 * 2 ^ order)
alloc_block order top c k ks b t small z low room found filled =
    let below : top < 31 = omega arith in
    let taken = take-IsHeld below z.held c k ks room filled in
    let at : t.level k ≡ suc (order + (c - order)) = ground (arith, taken.0) in
    let marked : (mark false k t).vacant k ≡ false = ground arith in
    let parts = split-IsHeld (c - order) order k top _ (mark false k t) below taken.1 at marked in
    let fields = toggled_fields (ltb c top) k c b in
    let place = z.held.tiling.aligned k (order + (c - order)) at in
    let same = SameUsed-trans k t (mark false k t) parts.0 (λ j other. rw other refl) parts.4 in
    let done =
      finish-IsZone order top k b _ t parts.0 small z (omega arith)
        (omega (arith, place.2, one-le-pow (order + (c - order)) 2 (omega arith)))
        (ground (arith, taken.0)) parts.1 parts.2 parts.3 same (parts.5 ∙ fields.0)
        (λ p. parts.6 p ∙ fields.1 p) in
    (
      finish order k _,
      parts.0,
      alloc_from order top c k ks b z.held.orders found room filled,
      done.0,
      taken.0,
      rw (parts.3, parts.2) refl,
      same,
      done.1,
    )

-- From a zone of `2 ^ top` pages, `buddy_alloc_pages` gives the first page of a block of the order
-- asked for, which comes out of a free block of the smallest order that has one; the zone is in
-- order afterwards, the other blocks in use stay, and `used` goes up by the bytes of the block.
-- Without a free block of that order or above it is a panic.
pub buddy_alloc_pages_lem :
    (order top : ℕ) (b : Buddy) (t : Tiling)
    → top < 20
    → IsZone top b t
    → order ≤ top
    → ((buddy_alloc_pages order b ≡ panic)
        × ((p k : ℕ) → order ≤ p → p ≤ top → is_free t p k ≡ false))
      ⊎ (k : ℕ) × (c : ℕ) × (b' : Buddy) × (t' : Tiling) × (buddy_alloc_pages order b ≡ ok (k, b'))
        × IsZone top b' t'
        × (is_free t c k ≡ true)
        × ((p j : ℕ) → order ≤ p → p < c → is_free t p j ≡ false)
        × (used_level t' k ≡ suc order)
        × SameUsed k t t'
        × (b'.used ≡ b.used + 4096 * 2 ^ order)
buddy_alloc_pages_lem order top b t small z room =
    let found = find_order_lem (b.max_orders - order) order b in
    let c = find_order (b.max_orders - order) order b in
    let none : (p j : ℕ) → order ≤ p → p < c → p ≤ top → is_free t p j ≡ false =
      λ p j low high room. none_at top p j b t z.held room (found.2 p low high) in
    elim found.3 [
      | inl all ↦
          let behind : c ≡ suc top = omega (arith, all, z.held.orders) in
          inl (
            alloc_none order top b z.held.orders behind,
            λ p k low high. none p k low (omega (arith, behind)) high,
          )
      | inr (within, filled) ↦
          let inside : c ≤ top = omega (arith, within, z.held.orders) in
          elim (List-cases (b.free_list c)) [
            | inl empty ↦ absurd (false≢true (sym filled ∙ ap is_nil empty))
            | inr (k, ks, split) ↦
                let block = alloc_block order top c k ks b t small z found.0 inside refl split in
                inr (
                  k,
                  c,
                  block.0,
                  block.1,
                  block.2,
                  block.3,
                  block.4,
                  (λ p j low high. none p j low high (omega arith)),
                  block.5,
                  block.6,
                  block.7,
                )
          ]
    ]
