-- ===== src/Buddy/Layout.antt =====
-- Where `buddy_alloc_init` puts the maps, and that they fit the area asked for.
use operating_system_cortex.Prelude.{
  ℕ, zero, suc, ◌+◌, ◌-◌, ◌≤◌, ◌<◌, ◌≡◌, refl, sym, ap, ◌∙◌, true, false, [], ◌==◌, ltb, leb,
  if◌then◌else◌, arith, Bool-cases, inl, inr,
}
use operating_system_cortex.Prelude.Sum.{sum, sum-le}
use operating_system_cortex.Pid.Sequence.{every_below-holds}
use operating_system_cortex.Buddy.{Buddy, init_orders, get_order_map_words, get_map_size}
use operating_system_cortex.Buddy.Map.{Apart, words_for}

init_orders-above :
    (i m : ℕ) (b : Buddy) (o : ℕ)
    → i ≤ o
    → ((init_orders i m b).map o ≡ b.map o) × ((init_orders i m b).free_list o ≡ b.free_list o)
unfolding init_orders
init_orders-above zero m b o h = (refl, refl)
init_orders-above (suc i) m b o h =
    let other : (o == i) ≡ false = ground arith in
    let rest =
      init_orders-above i (if i == 0 then m else m + get_order_map_words i b.max_orders) _ o
        (omega arith) in
    (rest.0 ∙ rw other refl, rest.1 ∙ rw other refl)

pub init_orders-fields :
    (i m : ℕ) (b : Buddy)
    → ((init_orders i m b).max_orders ≡ b.max_orders)
      × ((init_orders i m b).used ≡ b.used)
      × ((w : ℕ) → (init_orders i m b).words w ≡ b.words w)
unfolding init_orders
init_orders-fields zero m b = (refl, refl, λ w. refl)
init_orders-fields (suc i) m b =
    init_orders-fields i (if i == 0 then m else m + get_order_map_words i b.max_orders) _

pub init_orders-empty : (i m : ℕ) (b : Buddy) (o : ℕ) → o < i → (init_orders i m b).free_list o ≡ []
unfolding init_orders
init_orders-empty zero m b o h = absurd (omega arith)
init_orders-empty (suc i) m b o h = elim (Bool-cases (o == i)) [
  | inl here ↦
      let at : i ≤ o = ground arith in
      (init_orders-above i (if i == 0 then m else m + get_order_map_words i b.max_orders) _ o at).1
      ∙ rw here refl
  | inr other ↦
      init_orders-empty i (if i == 0 then m else m + get_order_map_words i b.max_orders) _ o
        (ground arith)
]

-- The map of the highest order comes first,
pub init_orders-first : (i m : ℕ) (b : Buddy) → 1 ≤ i → (init_orders (suc i) m b).map i ≡ m
unfolding init_orders
init_orders-first i m b h =
    let same : (i == i) ≡ true = ground arith in
    let positive : (i == 0) ≡ false = ground arith in
    (init_orders-above i (if i == 0 then m else m + get_order_map_words i b.max_orders) _ i
      (omega arith)).0
    ∙ rw (same, positive) refl

-- and each of the others behind that of the order above.
pub init_orders-next :
    (i m : ℕ) (b : Buddy) (o : ℕ)
    → 1 ≤ o
    → suc o < i
    → (init_orders i m b).map o
      ≡ (init_orders i m b).map (suc o) + get_order_map_words (suc o) b.max_orders
unfolding init_orders
init_orders-next zero m b o h lt = absurd (omega arith)
init_orders-next (suc i) m b o h lt = elim (Bool-cases (suc o == i)) [
  | inl here ↦
      let at : i ≡ suc o = ground arith in
      let positive : (suc o == 0) ≡ false = ground arith in
      let self : (suc o == suc o) ≡ true = ground arith in
      let top_map : (init_orders (suc (suc o)) m b).map (suc o) ≡ m =
        init_orders-first (suc o) m b (omega arith) in
      let below : (init_orders (suc (suc o)) m b).map o
          ≡ m + get_order_map_words (suc o) b.max_orders =
        init_orders-first o (if suc o == 0 then m else m + get_order_map_words (suc o) b.max_orders)
          _ h
        ∙ rw positive refl in
      rw at (below ∙ sym (ap (λ (x : ℕ). x + get_order_map_words (suc o) b.max_orders) top_map))
  | inr other ↦
      init_orders-next i (if i == 0 then m else m + get_order_map_words i b.max_orders) _ o h
        (ground arith)
]

-- Words for the orders that lie above each other in a zone.
words_sum : (n : ℕ) → n < 32 → sum n words_for ≤ get_map_size (suc n)
unfolding get_map_size
words_sum n small =
    let table =
      every_below-holds 32 (λ n. leb (sum n words_for) (get_map_size (suc n))) n refl small in
    ground (arith, table)

Apart-steps :
    (e top : ℕ) (map : ℕ → ℕ)
    → ((o : ℕ) → 1 ≤ o → suc o ≤ top → map o ≡ map (suc o) + get_order_map_words (suc o) (suc top))
    → (o : ℕ) → 1 ≤ o
    → o + suc e ≤ top
    → map (o + suc e) + get_order_map_words (o + suc e) (suc top) ≤ map o
Apart-steps zero top map next o h room =
    let e : o + 1 ≡ suc o = omega arith in rw e (omega (arith, next o h (omega arith)))
Apart-steps (suc e) top map next o h room =
    let at : o + suc (suc e) ≡ suc o + suc e = omega arith in
    rw at (
      omega (
        arith,
        next o h (omega arith),
        Apart-steps e top map next (suc o) (omega arith) (omega arith),
      ))

words_at : (top e : ℕ) → e ≤ top → get_order_map_words (top - e) (suc top) ≡ words_for e
unfolding get_order_map_words
words_at top e h = let back : suc top - (top - e) - 1 ≡ e = omega arith in rw back refl

-- Where the map of an order ends.
map_end :
    (e top m : ℕ) (map : ℕ → ℕ)
    → map top ≡ m
    → ((o : ℕ) → 1 ≤ o → suc o ≤ top → map o ≡ map (suc o) + get_order_map_words (suc o) (suc top))
    → e < top
    → map (top - e) + words_for e ≡ m + sum (suc e) words_for
map_end zero top m map at_top next h =
    let same : top - 0 ≡ top = omega arith in rw (same, at_top) (omega arith)
map_end (suc e) top m map at_top next h =
    let above : suc (top - suc e) ≡ top - e = omega arith in
    let step : map (top - suc e) ≡ map (top - e) + get_order_map_words (top - e) (suc top) =
      next (top - suc e) (omega arith) (omega arith)
      ∙ ap (λ (o : ℕ). map o + get_order_map_words o (suc top)) above in
    omega (arith, step, words_at top e (omega arith), map_end e top m map at_top next (omega arith))

-- The maps lie apart from each other, within the area asked for.
pub maps_lem :
    (top m : ℕ) (map : ℕ → ℕ)
    → top < 32
    → map top ≡ m
    → ((o : ℕ) → 1 ≤ o → suc o ≤ top → map o ≡ map (suc o) + get_order_map_words (suc o) (suc top))
    → Apart top map
      × ((o : ℕ)
          → 1 ≤ o
          → o ≤ top
          → (m ≤ map o) × (map o + get_order_map_words o (suc top) ≤ m + get_map_size (suc top)))
maps_lem top m map small at_top next =
    let apart : Apart top map = λ o p h lt room.
      let e : o + suc (p - suc o) ≡ p = omega arith in
      rw e at (Apart-steps (p - suc o) top map next o h (omega arith)) in
    (
      apart,
      λ o h room.
          let e : top - (top - o) ≡ o = omega arith in
          let end = rw e at (map_end (top - o) top m map at_top next (omega arith)) in
          let words = rw e at (words_at top (top - o) (omega arith)) in
          (
            elim (Bool-cases (ltb o top)) [
              | inl lt ↦ omega (arith, at_top, apart o top h (ground arith) (omega arith))
              | inr last ↦ let same : o ≡ top = ground arith in rw (same, at_top) (omega arith)
            ],
            omega (
              arith,
              end,
              words,
              words_sum top small,
              sum-le (suc (top - o)) top words_for (omega arith),
            ),
          ),
    )
