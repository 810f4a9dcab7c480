-- ===== src/Buddy/Init.antt =====
-- The allocator starts with one free block, and with room for every bit.
use operating_system_cortex.Prelude.{
  ℕ, suc, ◌+◌, ◌-◌, ◌*◌, ◌/◌, ◌%◌, ◌^◌, ◌≤◌, ◌<◌, ◌≡◌, ◌≢◌, refl, ◌∙◌, true, false, ◌&&◌, [], ◌∷◌,
  ◌==◌, ltb, leb, if◌then◌else◌, arith, Bool-cases, ==_iff, inl, inr,
}
use native.Mathlib.Nat.{one-le-pow, zero-mod, zero-div}
use operating_system_cortex.Prelude.Sum.{sum, sum-change, sum-zero}
use operating_system_cortex.Align.Powers.{round_down_power_two_lem}
use operating_system_cortex.Pid.{ctz}
use operating_system_cortex.Pid.Sequence.{every_below-holds}
use operating_system_cortex.Buddy.{
  Buddy, init_orders, buddy_alloc_init, get_order_map_words, get_map_size, add_first,
}
use operating_system_cortex.Buddy.Map.{Apart, within_words}
use operating_system_cortex.Buddy.Steps.{IsHeld}
use operating_system_cortex.Buddy.Tiling.{Tiling, IsTiling, pages, is_free}
use operating_system_cortex.Buddy.Zone.{IsZone}
use operating_system_cortex.Buddy.Layout.{
  init_orders-fields, init_orders-empty, init_orders-first, init_orders-next, maps_lem,
}

-- One free block of order `top`.
abbrev pub one_block : ℕ → Tiling
one_block top = record { level = λ k. if k == 0 then suc top else 0; vacant = λ k. true }

one_block-IsTiling : (top : ℕ) → IsTiling top (one_block top)
one_block-IsTiling top = record {
  aligned = λ k o at.
      let zero_at : k ≡ 0 = ground (arith, at) in
      let order : o ≡ top = ground (arith, at) in
      rw (zero_at, order) (omega arith, zero-mod (2 ^ top), omega arith);
  apart = λ k o j at low high. ground (arith, at);
  whole = all;
}
  where
    all : sum (2 ^ top) (λ k. pages (if k == 0 then suc top else 0)) ≡ 2 ^ top
    all = omega (
      arith,
      sum-change (2 ^ top) 0 (λ k. 0) (λ k. pages (if k == 0 then suc top else 0))
          (one-le-pow top 2 (omega arith)) (λ i other. rw other refl),
      sum-zero (2 ^ top),
    )

ctz-pow : (n : ℕ) → n < 32 → ctz (2 ^ n) ≡ n
unfolding ctz
ctz-pow n small =
    (==_iff (ctz (2 ^ n)) n).0 (every_below-holds 32 (λ n. ctz (2 ^ n) == n) n refl small)

-- The lists and the bits of a zone that is one block.
one_block-IsHeld :
    (top : ℕ) (b : Buddy)
    → b.max_orders ≡ suc top
    → Apart top b.map
    → b.free_list top ≡ 0 ∷ []
    → ((o : ℕ) → o < top → b.free_list o ≡ [])
    → ((o q : ℕ) → 1 ≤ o → o ≤ top → q * 2 ^ o < 2 ^ top → b.words (b.map o + q / 32) ≡ 0)
    → IsHeld top b (one_block top)
one_block-IsHeld top b orders apart full empty clear = record {
  orders = orders;
  tiling = one_block-IsTiling top;
  lists = λ o room. elim (Bool-cases (o == top)) [
    | inl here ↦ let e : o ≡ top = ground arith in rw (e, full) ((λ k. ground arith), (refl, tt))
    | inr other ↦ rw (empty o (ground arith)) ((λ k. ground arith), tt)
  ];
  apart = apart;
  bits = λ o q lt fits.
      let not_free : (k : ℕ) → is_free (one_block top) o k ≡ false = λ k. ground arith in
      rw
        (
          clear (suc o) q (omega arith) lt fits,
          not_free (q * 2 ^ suc o),
          not_free (q * 2 ^ suc o + 2 ^ o),
        )
        (rw (zero-div (2 ^ (q % 32))) refl);
}

-- The allocator with `map_size` words of its maps cleared, before its orders are set up,
abbrev pub cleared : (top map : ℕ) → Buddy → Buddy
cleared top map b = record b {
  used = 0;
  max_orders = suc top;
  words = λ w. if leb map w && ltb w (map + get_map_size (suc top)) then 0 else b.words w;
}

-- and afterwards.
abbrev pub started : (top map : ℕ) → Buddy → Buddy
started top map b = add_first 0 top (init_orders (suc top) map (cleared top map b))

started_maps :
    (top map : ℕ) (b : Buddy)
    → 1 ≤ top
    → top < 20
    → Apart top (started top map b).map
      × ((o : ℕ)
          → 1 ≤ o
          → o ≤ top
          → (map ≤ (started top map b).map o)
            × ((started top map b).map o + get_order_map_words o (suc top)
                ≤ map + get_map_size (suc top)))
started_maps top map b h1 h2 =
    maps_lem top map (started top map b).map (omega arith)
      (init_orders-first top map (cleared top map b) h1)
      (λ o low high. init_orders-next (suc top) map (cleared top map b) o low (omega arith))

started_words :
    (top map : ℕ) (b : Buddy)
    → 1 ≤ top
    → top < 20
    → (o q : ℕ) → 1 ≤ o
    → o ≤ top
    → q * 2 ^ o < 2 ^ top
    → (map ≤ (started top map b).map o + q / 32)
      × ((started top map b).map o + q / 32 < map + get_map_size (suc top))
started_words top map b h1 h2 o q low high fits =
    let area = (started_maps top map b h1 h2).1 o low high in
    let within = within_words top o q high (omega arith) fits in
    (omega (arith, area.0), omega (arith, area.1, within))

pub started-IsZone :
    (top map : ℕ) (b : Buddy) → 1 ≤ top → top < 20 → IsZone top (started top map b) (one_block top)
started-IsZone top map b h1 h2 =
    let fields = init_orders-fields (suc top) map (cleared top map b) in
    let self : (top == top) ≡ true = ground arith in
    record {
      held =
          one_block-IsHeld top (started top map b) fields.0 (started_maps top map b h1 h2).0
            (rw (self, init_orders-empty (suc top) map (cleared top map b) top (omega arith)) refl)
            (λ o lt.
              let other : (o == top) ≡ false = ground arith in
              rw other (init_orders-empty (suc top) map (cleared top map b) o (omega arith)))
            (λ o q low high fits.
              let area = started_words top map b h1 h2 o q low high fits in
              let first : leb map ((started top map b).map o + q / 32) ≡ true =
                ground (arith, area.0) in
              let last : ltb ((started top map b).map o + q / 32) (map + get_map_size (suc top))
                  ≡ true =
                ground (arith, area.1) in
              fields.2 ((started top map b).map o + q / 32) ∙ rw (first, last) refl);
      order = λ k o in_use. absurd (omega (arith, in_use));
      used = fields.1 ∙ omega (arith, sum-zero (2 ^ top));
    }

-- A zone of at least `2 ^ top` and fewer than `2 ^ (top + 1)` pages starts as one free block of order `top`, and
-- every bit of every map stands in the area that `kmalloc` gives for them. It holds for `top` from
-- 1 to 19, when `kmalloc` does not fail.
pub buddy_alloc_init_lem :
    (page_cnt map orders top : ℕ) (b : Buddy)
    → 1 ≤ top
    → top < 20
    → 2 ^ top ≤ page_cnt
    → page_cnt < 2 ^ suc top
    → map ≢ 0
    → orders ≢ 0
    → (b' : Buddy) × (buddy_alloc_init page_cnt map orders b ≡ (1, b'))
      × IsZone top b' (one_block top)
      × ((o q : ℕ)
          → 1 ≤ o
          → o ≤ top
          → q * 2 ^ o < 2 ^ top
          → (map ≤ b'.map o + q / 32) × (b'.map o + q / 32 < map + get_map_size (suc top)))
unfolding buddy_alloc_init
buddy_alloc_init_lem page_cnt map orders top b h1 h2 low high ok_map ok_orders =
    let pages = round_down_power_two_lem top page_cnt (omega arith) low high in
    let c = ctz-pow top (omega arith) in
    let next : top + 1 ≡ suc top = omega arith in
    let back : suc top - 1 ≡ top = omega arith in
    let some_map : (map == 0) ≡ false = ground (arith, ok_map) in
    let some_orders : (orders == 0) ≡ false = ground (arith, ok_orders) in
    let m = started_maps top map b h1 h2 in
    (
      started top map b,
      rw (pages, c, next, back, some_map, some_orders) refl,
      started-IsZone top map b h1 h2,
      started_words top map b h1 h2,
    )
