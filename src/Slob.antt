-- ===== src/Slob.antt =====
-- mm/slob.c and include/citrus/slob.h: the allocator behind `kmalloc`. A node is its address; the
-- memory gives the two fields of the `struct slob_node` at every address. Sections in which
-- interrupts are off are single steps, and the list is followed on fuel.
pub mod Blocks
pub mod Insert
pub mod Search
pub mod Alloc
pub mod Init
mod Tests
use Prim.Native.Nat.{bit_and}
use operating_system_cortex.Prelude.{
  ℕ, zero, suc, ◌+◌, ◌-◌, ◌*◌, Bool, true, false, Option, none, some, ◌==◌, ltb, leb, not,
  if◌then◌else◌,
}
use operating_system_cortex.Prelude.Bits.{u32, sub32, not32}
use operating_system_cortex.Prelude.Outcome.{Outcome, ok, panic}

abbrev pub slob_align : ℕ
slob_align = 8

abbrev pub slob_min_block : ℕ
slob_min_block = 16

-- `sizeof(struct slob_node)`
abbrev pub node_size : ℕ
node_size = 8

-- The mark of a block in use.
abbrev pub in_use : ℕ
in_use = 0xC0DEBABE

-- `struct slob_struct` with its statistics, and the nodes. `first_node` is the address of its `node`.
pub record Slob : Type 0 where
  pub start_addr : ℕ
  pub end_addr : ℕ
  pub used : ℕ
  pub total : ℕ
  pub first_node : ℕ
  pub last_node : ℕ
  pub size : ℕ → ℕ
  pub next : ℕ → ℕ

-- `p->size = v`, `p->next = v`
abbrev pub set_size : (p v : ℕ) → Slob → Slob
set_size p v s = record s { size = λ q. if q == p then v else s.size q }

abbrev pub set_next : (p v : ℕ) → Slob → Slob
set_next p v s = record s { next = λ q. if q == p then v else s.next q }

-- `slob_get_free`, `slob_get_used` and `slob_get_total`
abbrev pub slob_get_free : Slob → ℕ
slob_get_free s = sub32 s.total s.used

abbrev pub slob_get_used : Slob → ℕ
slob_get_used s = s.used

abbrev pub slob_get_total : Slob → ℕ
slob_get_total s = s.total

-- The two alignments of `slob_init`.
abbrev pub aligned_start : ℕ → ℕ
aligned_start addr =
    if not (bit_and addr (slob_align - 1) == 0)
    then bit_and (u32 (addr + slob_align)) (not32 (slob_align - 1))
    else addr

abbrev pub aligned_end : ℕ → ℕ
aligned_end addr =
    if not (bit_and addr (slob_align - 1) == 0) then bit_and addr (not32 (slob_align - 1)) else addr

-- `slob_init` with the address of the zone's first byte, its pages, and the address of the `node`
-- in the `struct slob_struct`. The result is what it returns.
unfoldable pub slob_init : (start page_cnt node : ℕ) → Slob → ℕ × Slob
slob_init start page_cnt node s =
    let end_ = u32 (start + u32 (page_cnt * 4096)) in
    let start_addr = aligned_start start in
    let end_addr = aligned_end end_ in
    let last = sub32 end_addr (node_size * node_size) in
    let size = sub32 last node in
    let s1 = record s {
      start_addr = start_addr;
      end_addr = end_addr;
      first_node = node;
      last_node = last;
    } in
    let s2 =
      set_next start_addr last
        (set_size start_addr size (set_next node start_addr (set_size node 0 s1))) in
    let s3 = set_size last 0 (set_next last 0 s2) in
    if ltb end_ start
    then (0, record s { start_addr = start; end_addr = end_ })
    else (1, record s3 { used = 0; total = s3.size start_addr })

-- The loop of `slob_insert_free`; 0 is NULL.
unfoldable pub find_before : (fuel it node : ℕ) → Slob → Option ℕ
find_before zero it node s = none
find_before (suc fuel) it node s =
    let rest = find_before fuel (s.next it) node s in
    if it == 0 then some 0 else if ltb node (s.next it) then some it else rest

-- `if (node != it) it->next = node;`
abbrev pub link : (it node : ℕ) → Slob → Slob
link it node s = if not (node == it) then set_next it node s else s

-- The forward merge of `node`, which goes between `it` and `it->next`.
unfoldable pub merge_forward : (last it node : ℕ) → Slob → Slob
merge_forward last it node s =
    let behind = s.next it in
    let merged =
      set_next node (s.next behind) (set_size node (u32 (s.size node + s.size behind)) s) in
    if u32 (node + s.size node) == behind
    then if not (behind == last) then merged else set_next node behind s
    else set_next node behind s

-- What `slob_insert_free` does behind its loop.
unfoldable pub insert_after : (last it node : ℕ) → Slob → Slob
insert_after last it node s =
    let s1 = set_size it (u32 (s.size it + s.size node)) s in
    if u32 (it + s.size it) == node
    then link it it (merge_forward last it it s1)
    else link it node (merge_forward last it node s)

abbrev pub insert_found : (last node : ℕ) → Option ℕ → Slob → Option (ℕ × Slob)
insert_found last node none s = none
insert_found last node (some it) s =
    if it == 0 then some (0, s) else some (1, insert_after last it node s)

unfoldable pub slob_insert_free : (fuel first last node : ℕ) → Slob → Option (ℕ × Slob)
slob_insert_free fuel first last node s = insert_found last node (find_before fuel first node s) s

-- The size of a block for a request.
unfoldable pub block_size : (size : ℕ) → ℕ
block_size size =
    let s1 = u32 (size + node_size) in
    if not (bit_and s1 (slob_align - 1) == 0)
    then bit_and (u32 (s1 + slob_align)) (not32 (slob_align - 1))
    else s1

-- The loop of `slob_alloc`: `it_prev` and `it`, which is 0 when there is no block.
unfoldable pub search : (fuel size it_prev it : ℕ) → Slob → Option (ℕ × ℕ)
search zero size it_prev it s = none
search (suc fuel) size it_prev it s =
    let rest = search fuel size it (s.next it) s in
    if it == 0 then some (it_prev, 0) else if leb size (s.size it) then some (it_prev, it) else rest

-- The end of `slob_alloc`, with the size of the block and what `slob_insert_free` has left.
abbrev pub taken : (it size : ℕ) → Slob → ℕ × Slob
taken it size s = (
  u32 (it + node_size),
  set_next it in_use (set_size it size (record s { used = u32 (s.used + size) })),
)

abbrev pub after_insert : (it size : ℕ) → Option (ℕ × Slob) → Option (ℕ × Slob)
after_insert it size none = none
after_insert it size (some (r, s)) = some (taken it size s)

-- `slob_alloc` behind its search.
unfoldable pub take_block : (fuel size it_prev it : ℕ) → Slob → Option (ℕ × Slob)
take_block fuel size it_prev it s =
    let s1 = set_next it_prev (s.next it) s in
    let new_size = sub32 (s.size it) size in
    let new = u32 (it + size) in
    let split = slob_insert_free fuel s1.first_node s1.last_node new (set_size new new_size s1) in
    if leb slob_min_block new_size
    then after_insert it size split
    else some (taken it (s.size it) s1)

abbrev pub take_found : (fuel size : ℕ) → Option (ℕ × ℕ) → Slob → Option (ℕ × Slob)
take_found fuel size none s = none
take_found fuel size (some (it_prev, it)) s =
    if it == 0 then some (0, s) else take_block fuel size it_prev it s

-- `slob_alloc`: the pointer, or 0 for NULL.
unfoldable pub slob_alloc : (fuel size : ℕ) → Slob → Option (ℕ × Slob)
slob_alloc fuel size s =
    let found = search fuel (block_size size) s.first_node (s.next s.first_node) s in
    if size == 0 then some (0, s) else take_found fuel (block_size size) found s

abbrev pub freed : Option (ℕ × Slob) → Option (Outcome Slob)
freed none = none
freed (some (r, s)) = some (ok s)

unfoldable pub slob_free : (fuel ptr : ℕ) → Slob → Option (Outcome Slob)
slob_free fuel ptr s =
    let node = sub32 ptr node_size in
    let s1 = record s { used = sub32 s.used (s.size node) } in
    if ptr == 0
    then some panic
    else if not (s.next node == in_use)
    then some panic
    else if ltb node s.first_node
    then some panic
    else if leb s.last_node node
    then some panic
    else freed (slob_insert_free fuel s.first_node s.last_node node s1)

abbrev pub extended : (bytes : ℕ) → Option (ℕ × Slob) → Option Slob
extended bytes none = none
extended bytes (some (r, s)) = some (record s { total = u32 (s.total + bytes) })

-- `slob_extend`, but for the zone's count of pages. The body of its loop is empty, so it never ends
-- unless the first node is followed by the last: then the result is `none`.
unfoldable pub slob_extend : (fuel pages : ℕ) → Slob → Option Slob
slob_extend fuel pages s =
    let bytes = u32 (pages * 4096) in
    let end_addr = u32 (s.end_addr + bytes) in
    let last = sub32 end_addr node_size in
    let s1 =
      set_size last 0 (set_next last 0 (record s { end_addr = end_addr; last_node = last })) in
    let s2 = set_size s.last_node bytes (set_next s.last_node 0 (set_next s.first_node last s1)) in
    if s.next s.first_node == s.last_node
    then extended bytes (slob_insert_free fuel s.first_node last s.last_node s2)
    else none
