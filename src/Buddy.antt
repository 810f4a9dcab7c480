-- ===== src/Buddy.antt =====
-- mm/buddy_alloc.c: blocks of 2 ^ order pages, split and merged in pairs. A page is named by its
-- index in the zone; a free list is the sequence of its pages, which is what the circular lists of
-- ListNode are shown to be.
pub mod Map
pub mod Pairs
pub mod Lists
pub mod Changes
pub mod Steps
pub mod Zone
pub mod Loops
pub mod Alloc
pub mod Free
pub mod Layout
pub mod Init
pub mod Tiling
mod Tests
use Prim.Native.Nat.{bit_and, bit_xor}
use operating_system_cortex.Prelude.{
  ℕ, zero, suc, ◌+◌, ◌-◌, ◌*◌, ◌/◌, ◌%◌, ◌^◌, Bool, true, false, not, ◌&&◌, ◌||◌, List, [], ◌∷◌,
  ◌==◌, ltb, leb, is_nil, tail, if◌then◌else◌,
}
use operating_system_cortex.Prelude.Bits.{◌<<<◌, ◌>>>◌, u32, not32, sub32}
use operating_system_cortex.Prelude.Outcome.{Outcome, ok, panic, ◌>>=◌}
use operating_system_cortex.Prelude.Sets.{has, erase}
use operating_system_cortex.Align.{round_down_power_two}
use operating_system_cortex.Pid.{ctz}
use operating_system_cortex.Sched.Rotation.{first}

-- `struct buddy_struct` with its orders, the words of their bitmaps, and `page->order` of the
-- pages of the zone. `map` is `orders[i].map`, as an index of a word.
pub record Buddy : Type 0 where
  pub max_orders : ℕ
  pub used : ℕ
  pub free_list : ℕ → List ℕ
  pub map : ℕ → ℕ
  pub words : ℕ → ℕ
  pub order : ℕ → ℕ

unfoldable pub get_order_map_words : (order max_orders : ℕ) → ℕ
get_order_map_words order max_orders =
    let tmp = u32 (1 <<< (max_orders - order - 1)) >>> 5 in if tmp == 0 then tmp + 1 else tmp

unfoldable pub get_map_size : (max_orders : ℕ) → ℕ
get_map_size max_orders =
    let num_blocks = u32 (1 <<< (max_orders - 2)) in u32 (num_blocks <<< 1) >>> 5 + 4

unfoldable pub get_bit : (bit ptr : ℕ) → (ℕ → ℕ) → ℕ
get_bit bit ptr words = bit_and (words (ptr + bit / 32)) (1 <<< (bit % 32))

unfoldable pub toggle_bit : (bit ptr : ℕ) → (ℕ → ℕ) → ℕ → ℕ
toggle_bit bit ptr words w =
    if w == ptr + bit / 32 then bit_xor (words w) (1 <<< (bit % 32)) else words w

unfoldable pub get_parent_bit : (index order : ℕ) → ℕ
get_parent_bit index order = bit_and index (not32 (sub32 (1 <<< (order + 1)) 1)) >>> (order + 1)

unfoldable pub buddy_get_total : (page_cnt : ℕ) → ℕ
buddy_get_total page_cnt = u32 (page_cnt * 4096)

unfoldable pub buddy_get_used : Buddy → ℕ
buddy_get_used b = b.used

unfoldable pub buddy_get_free : (page_cnt : ℕ) → Buddy → ℕ
buddy_get_free page_cnt b = sub32 (u32 (page_cnt * 4096)) b.used

-- `list_add_first` and `list_delete_first` on the free list of an order.
abbrev pub add_first : (page order : ℕ) → Buddy → Buddy
add_first page order b = record b {
  free_list = λ o. if o == order then page ∷ b.free_list o else b.free_list o;
}

abbrev pub delete_first : (order : ℕ) → Buddy → Buddy
delete_first order b = record b {
  free_list = λ o. if o == order then tail (b.free_list o) else b.free_list o;
}

-- `list_delete_node` takes a page out of the list that it is in, and there must be one.
abbrev pub linked : (orders page : ℕ) → Buddy → Bool
linked zero page b = false
linked (suc o) page b = has page (b.free_list o) || linked o page b

abbrev pub delete_node : (page : ℕ) → Buddy → Buddy
delete_node page b = record b { free_list = λ o. erase page (b.free_list o) }

abbrev pub toggle_parent : (index order : ℕ) → Buddy → Buddy
toggle_parent index order b = record b {
  words = toggle_bit (get_parent_bit index order) (b.map (order + 1)) b.words;
}

-- The loop of `buddy_alloc_init`, from `i` down.
unfoldable pub init_orders : (i map : ℕ) → Buddy → Buddy
init_orders zero map b = b
init_orders (suc i) map b =
    init_orders i (if i == 0 then map else map + get_order_map_words i b.max_orders) (record b {
      map = λ o. if o == i then (if i == 0 then 0 else map) else b.map o;
      free_list = λ o. if o == i then [] else b.free_list o;
    })

-- `map` and `orders` are what `kmalloc` gives. The value returned, and the allocator.
unfoldable pub buddy_alloc_init : (page_cnt map orders : ℕ) → Buddy → ℕ × Buddy
buddy_alloc_init page_cnt map orders b =
    let max_orders = ctz (round_down_power_two page_cnt) + 1 in
    let b1 = record b { used = 0; max_orders = max_orders } in
    let map_size = get_map_size max_orders in
    let b2 = record b1 {
      words = λ w. if leb map w && ltb w (map + map_size) then 0 else b1.words w;
    } in
    if map == 0
    then (0, b1)
    else if orders == 0
    then (0, b2)
    else (1, add_first 0 (max_orders - 1) (init_orders max_orders map b2))

-- The loop that looks for an order with a free block, from `curr_order` on, with `n` orders left.
unfoldable pub find_order : (n curr_order : ℕ) → Buddy → ℕ
find_order zero curr_order b = curr_order
find_order (suc n) curr_order b =
    let rest = find_order n (curr_order + 1) b in
    if not (is_nil (b.free_list curr_order)) then curr_order else rest

-- The loop that splits a block of order `order + n` down to `order`.
unfoldable pub split : (n order page_index : ℕ) → Buddy → Buddy
split zero order page_index b = b
split (suc n) order page_index b =
    let curr_order = order + n in
    split n order page_index (
      add_first (page_index + (1 <<< curr_order)) curr_order
        (toggle_parent page_index curr_order b))

unfoldable pub buddy_alloc_pages : (order : ℕ) → Buddy → Outcome (ℕ × Buddy)
buddy_alloc_pages order b =
    let curr_order = find_order (b.max_orders - order) order b in
    let page = first (b.free_list curr_order) in
    let b1 = if ltb curr_order (b.max_orders - 1) then toggle_parent page curr_order b else b in
    let b2 = split (curr_order - order) order page (delete_first curr_order b1) in
    if leb b.max_orders curr_order
    then panic
    else ok (
      page,
      record b2 {
        order = λ p. if p == page then order else b2.order p;
        used = u32 (b2.used + u32 ((1 <<< order) * 4096));
      },
    )

-- The loop that merges a block with its buddy, with `n` orders left: the block and its order.
unfoldable pub coalesce : (n index order : ℕ) → Buddy → Outcome (ℕ × ℕ × Buddy)
coalesce zero index order b = ok (index, order, b)
coalesce (suc n) index order b =
    let bit = get_parent_bit index order in
    let bit_val = get_bit bit (b.map (order + 1)) b.words in
    let b1 = toggle_parent index order b in
    let buddy_index = bit_xor index (1 <<< order) in
    let rest =
      coalesce n (bit_and index (not32 (sub32 (1 <<< (order + 1)) 1))) (order + 1)
        (delete_node buddy_index b1) in
    if bit_val == 0
    then ok (index, order, b1)
    else if linked b.max_orders buddy_index b1
    then rest
    else Outcome.undefined

unfoldable pub buddy_free_pages : (page : ℕ) → Buddy → Outcome Buddy
buddy_free_pages page b =
    coalesce (b.max_orders - 1 - b.order page) page (b.order page) b >>= λ (index, order, b1).
    let b2 = add_first index order b1 in
    let size = u32 ((1 <<< b.order page) * 4096) in
    if ltb b2.used size then panic else ok (record b2 { used = b2.used - size })
