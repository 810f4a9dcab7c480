-- ===== src/Slob/Init.antt =====
-- The state that `slob_init` sets up.
use operating_system_cortex.Prelude.{
  ℕ, ◌+◌, ◌-◌, ◌*◌, ◌%◌, ◌^◌, ◌≤◌, ◌<◌, ◌≡◌, refl, [], ◌∷◌, ltb, ◌==◌, true, false, arith,
}
use operating_system_cortex.Prelude.Bits.{u32, sub32, bit_and-mask}
use operating_system_cortex.Slob.{Slob, slob_init, aligned_start, aligned_end, set_size, set_next}
use operating_system_cortex.Slob.Alloc.{IsSlob}

aligned_start-whole : (addr : ℕ) → addr % 4096 ≡ 0 → aligned_start addr ≡ addr
aligned_start-whole addr h = ground (arith, h, bit_and-mask 3 addr)

aligned_end-whole : (addr : ℕ) → addr % 4096 ≡ 0 → aligned_end addr ≡ addr
aligned_end-whole addr h = ground (arith, h, bit_and-mask 3 addr)

-- The two nodes and the block between them.
abbrev pub set_up : (start last node end_ : ℕ) → Slob → Slob
set_up start last node end_ s = set_size last 0 (
    set_next last 0 (
      set_next start last (
        set_size start (last - node) (
          set_next node start (
            set_size node 0 (record s {
              start_addr = start;
              end_addr = end_;
              used = 0;
              total = last - node;
              first_node = node;
              last_node = last;
            }))))))

pub set_up-IsSlob :
    (start last node end_ : ℕ) (s : Slob)
    → 0 < node
    → node < start
    → start < last
    → start + last < 2 ^ 32 + node
    → last < 2 ^ 32
    → IsSlob (set_up start last node end_ s) ((start, last - node) ∷ [])
set_up-IsSlob start last node end_ s real above more fits small = record {
  linked = ground arith;
  ordered = (omega arith, omega arith, omega arith, (omega arith, omega arith, tt, tt));
  last_next = ground arith;
  last_size = ground arith;
  real = real;
}

-- For whole pages behind the node of the allocator, `slob_init` returns 1 and leaves a state in
-- order with one free block from the first page on, with nothing in use. Its size is the distance
-- from the allocator's own node to the last node, so it reaches beyond the last node by the distance
-- from the allocator's node to the first page.
pub slob_init-IsSlob :
    (start page_cnt node : ℕ) (s : Slob)
    → start % 4096 ≡ 0
    → 1 ≤ page_cnt
    → start + page_cnt * 4096 < 2 ^ 32
    → 0 < node
    → node < start
    → start + (start + page_cnt * 4096) < 2 ^ 32 + node
    → (s' : Slob) × (slob_init start page_cnt node s ≡ (1, s'))
      × IsSlob s' ((start, s'.last_node - node) ∷ [])
      × (s'.last_node + 64 ≡ start + page_cnt * 4096)
      × (s'.used ≡ 0)
      × (start + (s'.last_node - node) ≡ s'.last_node + (start - node))
unfolding slob_init
slob_init-IsSlob start page_cnt node s whole some_pages fits real above room =
    let end_ = start + page_cnt * 4096 in
    let last = end_ - 64 in
    let e1 : u32 (start + u32 (page_cnt * 4096)) ≡ end_ = omega (arith, fits) in
    let e2 = aligned_start-whole start whole in
    let e3 = aligned_end-whole end_ (omega (arith, whole)) in
    let e4 : sub32 end_ 64 ≡ last = omega (arith, fits, some_pages) in
    let e5 : sub32 last node ≡ last - node = omega (arith, fits, some_pages, above) in
    let e6 : ltb end_ start ≡ false = ground arith in
    let e7 : (start == last) ≡ false = ground (arith, fits, some_pages) in
    let e8 : (start == start) ≡ true = ground arith in
    (
      set_up start last node end_ s,
      rw (e1, e6, e2, e3, e4, e5, e7, e8) refl,
      set_up-IsSlob start last node end_ s real above (omega (arith, some_pages))
          (omega (arith, room)) (omega (arith, fits)),
      omega (arith, some_pages),
      refl,
      omega (arith, above, some_pages),
    )
