-- ===== src/Buddy/Tests.antt =====
-- Runs of the buddy allocator on a zone of 16 pages.
use operating_system_cortex.Prelude.{
  ℕ, ◌+◌, ◌*◌, ◌/◌, ◌^◌, ◌≤◌, ◌<◌, ◌≡◌, refl, [], ◌∷◌, true, false, arith, ◌⊎◌,
}
use operating_system_cortex.Prelude.Outcome.{Outcome, ok, panic, ◌>>=◌}
use operating_system_cortex.Align.{round_down_power_two}
use operating_system_cortex.Pid.{ctz, ctz_loop}
use operating_system_cortex.Buddy.{
  Buddy, get_order_map_words, get_map_size, get_bit, toggle_bit, get_parent_bit, init_orders,
  buddy_alloc_init, find_order, split, buddy_alloc_pages, coalesce, buddy_free_pages, delete_first,
}
use operating_system_cortex.Buddy.Steps.{take-IsHeld}
use operating_system_cortex.Buddy.Tiling.{Tiling, is_free, used_level, mark}
use operating_system_cortex.Buddy.Zone.{IsZone, SameUsed}
use operating_system_cortex.Buddy.Alloc.{buddy_alloc_pages_lem, finish, finish-IsZone}
use operating_system_cortex.Buddy.Free.{buddy_free_pages_lem, Freed}
use operating_system_cortex.Buddy.Init.{buddy_alloc_init_lem, one_block, started, started-IsZone}

abbrev unset : Buddy
unset = record {
  max_orders = 0;
  used = 0;
  free_list = λ o. [];
  map = λ o. 0;
  words = λ w. 77;
  order = λ p. 0;
}

abbrev zone : Buddy
zone = (buddy_alloc_init 20 100 200 unset).1

zone_max_orders : zone.max_orders ≡ 5
unfolding buddy_alloc_init init_orders round_down_power_two ctz ctz_loop
zone_max_orders = refl

page_of : Outcome (ℕ × Buddy) → ℕ
page_of (ok (p, b)) = p
page_of (Outcome.error code) = 1000
page_of panic = 2000
page_of Outcome.undefined = 3000

-- Two pages, then four, then the first page back, then two again.
some_blocks :
    ((buddy_alloc_pages 1 zone >>= λ (p, b).
    buddy_alloc_pages 2 b >>= λ (q, b). buddy_free_pages p b >>= λ b. ok (q, b))
      >>= λ (q, b). ok (q ∷ b.used ∷ get_order_map_words 1 5 ∷ b.free_list 3))
    ≡ ok (4 ∷ 16384 ∷ 1 ∷ 8 ∷ [])
unfolding buddy_alloc_init init_orders round_down_power_two ctz ctz_loop buddy_alloc_pages
    find_order split coalesce buddy_free_pages get_order_map_words get_map_size get_bit toggle_bit
    get_parent_bit
some_blocks = refl

buddy_alloc_init_lem_example :
    (b' : Buddy) × (buddy_alloc_init 20 100 200 unset ≡ (1, b'))
    × IsZone 4 b' (one_block 4)
    × ((o q : ℕ)
        → 1 ≤ o
        → o ≤ 4
        → q * 2 ^ o < 2 ^ 4
        → (100 ≤ b'.map o + q / 32) × (b'.map o + q / 32 < 100 + get_map_size 5))
buddy_alloc_init_lem_example =
    buddy_alloc_init_lem 20 100 200 4 unset (omega arith) (omega arith) (omega arith) (omega arith)
      (omega arith) (omega arith)

abbrev new_zone : Buddy
new_zone = started 4 100 unset

new_zone-IsZone : IsZone 4 new_zone (one_block 4)
new_zone-IsZone = started-IsZone 4 100 unset (omega arith) (omega arith)

buddy_alloc_pages_lem_example :
    ((buddy_alloc_pages 1 new_zone ≡ panic)
      × ((p k : ℕ) → 1 ≤ p → p ≤ 4 → is_free (one_block 4) p k ≡ false))
    ⊎ (k : ℕ) × (c : ℕ) × (b' : Buddy) × (t' : Tiling) × (buddy_alloc_pages 1 new_zone ≡ ok (k, b'))
      × IsZone 4 b' t'
      × (is_free (one_block 4) c k ≡ true)
      × ((p j : ℕ) → 1 ≤ p → p < c → is_free (one_block 4) p j ≡ false)
      × (used_level t' k ≡ 2)
      × SameUsed k (one_block 4) t'
      × (b'.used ≡ new_zone.used + 4096 * 2 ^ 1)
buddy_alloc_pages_lem_example =
    buddy_alloc_pages_lem 1 4 new_zone (one_block 4) (omega arith) new_zone-IsZone (omega arith)

-- The whole zone in use.
abbrev full_tiling : Tiling
full_tiling = mark false 0 (one_block 4)

abbrev full_zone : Buddy
full_zone = finish 4 0 (delete_first 4 new_zone)

full_zone-IsZone : IsZone 4 full_zone full_tiling
unfolding init_orders
full_zone-IsZone =
    let taken = take-IsHeld (omega arith) new_zone-IsZone.held 4 0 [] (omega arith) refl in
    (finish-IsZone 4 4 0 new_zone (delete_first 4 new_zone) (one_block 4) full_tiling (omega arith)
      new_zone-IsZone (omega arith) (omega arith) refl taken.1 refl refl (λ j other. rw other refl)
      refl (λ p. refl)).0

buddy_free_pages_lem_example :
    (b' : Buddy) × (t' : Tiling) × (buddy_free_pages 0 full_zone ≡ ok b')
    × IsZone 4 b' t'
    × Freed 0 full_tiling t'
    × (b'.used + 4096 * 2 ^ 4 ≡ full_zone.used)
buddy_free_pages_lem_example =
    buddy_free_pages_lem 0 4 4 full_zone full_tiling (omega arith) full_zone-IsZone refl
