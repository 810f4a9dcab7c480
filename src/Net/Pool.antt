-- ===== src/Net/Pool.antt =====
-- net/netbuf.c: the pool of packet buffers. A buffer is named by the address of its list node.
use operating_system_cortex.Prelude.{
  ℕ, zero, suc, ◌+◌, ◌-◌, ◌≡◌, ◌≢◌, refl, true, false, List, [], ◌∷◌, ◌==◌, if◌then◌else◌, arith,
  not, ◌&&◌, is_nil, tail,
}
use operating_system_cortex.Prelude.Outcome.{Outcome, ok, panic}
use operating_system_cortex.Prelude.Sets.{◌∉◌}
use operating_system_cortex.ListNode
use operating_system_cortex.ListNode.{Ptr, null, Memory}
use operating_system_cortex.ListNode.Ring.{IsRing, init-IsRing}
use operating_system_cortex.ListNode.Insert.{add_first-IsRing}
use operating_system_cortex.Sched.Rotation.{first}
use operating_system_cortex.ListNode.Delete.{delete_first-IsRing}

-- `netbuf_pool`, the list nodes, and `buf->ptr` of each buffer.
pub record Pool : Type 0 where
  pub pool : Ptr
  pub nodes : Memory
  pub ptr : Ptr → ℕ

abbrev pub max_header_size : ℕ
max_header_size = 74

-- `buf->buf`: the data stands in front of the list node, 1536 bytes and 32 reserved ones.
abbrev pub data_of : Ptr → ℕ
data_of node = node - (1536 + 32)

-- `kmalloc i` is the node in the buffer that the `i`-th call of `kmalloc` gives.
fill_pool : (kmalloc : ℕ → Ptr) (count i : ℕ) → Ptr → Memory → Outcome Memory
fill_pool kmalloc zero i pool m = ok m
fill_pool kmalloc (suc count) i pool m =
    let rest = fill_pool kmalloc count (suc i) pool (ListNode.add_first (kmalloc i) pool m) in
    if kmalloc i == null then panic else rest

unfoldable pub netbuf_init : (kmalloc : ℕ → Ptr) → Ptr → Memory → Outcome Memory
unfolding fill_pool
netbuf_init kmalloc pool m = fill_pool kmalloc 1024 0 pool (ListNode.init pool m)

unfoldable pub alloc_netbuf : Pool → Ptr × Pool
alloc_netbuf s =
    let node = s.nodes.next s.pool in
    if node == s.pool then (null, s) else (
      node,
      record s {
        ptr = λ p. if p == node then data_of node + max_header_size else s.ptr p;
        nodes = ListNode.delete_first s.pool s.nodes;
      },
    )

unfoldable pub free_netbuf : Ptr → Pool → Pool
free_netbuf node s = record s { nodes = ListNode.add_first node s.pool s.nodes }

-- The nodes of calls `i` to `i + count - 1`, the last in front of `xs`.
abbrev pub stacked : (ℕ → Ptr) → (count i : ℕ) → List Ptr → List Ptr
stacked kmalloc zero i xs = xs
stacked kmalloc (suc count) i xs = stacked kmalloc count (suc i) (kmalloc i ∷ xs)

-- From call `i` on, `count` calls give buffers that are new: not NULL, and neither the pool's head
-- nor one of `xs`.
abbrev pub AllNew : (ℕ → Ptr) → (count i : ℕ) → Ptr → List Ptr → Type 0
AllNew kmalloc zero i pool xs = Unit
AllNew kmalloc (suc count) i pool xs =
    (kmalloc i ≢ null)
    × (kmalloc i ∉ pool ∷ xs)
    × AllNew kmalloc count (suc i) pool (kmalloc i ∷ xs)

fill_pool-IsRing :
    (kmalloc : ℕ → Ptr) (count i : ℕ) (pool : Ptr) (xs : List Ptr) (m : Memory)
    → IsRing m pool xs
    → AllNew kmalloc count i pool xs
    → (g : Memory) × (fill_pool kmalloc count i pool m ≡ ok g)
      × IsRing g pool (stacked kmalloc count i xs)
unfolding fill_pool
fill_pool-IsRing kmalloc zero i pool xs m r v = (m, refl, r)
fill_pool-IsRing kmalloc (suc count) i pool xs m r v =
    let real : (kmalloc i == null) ≡ false = ground (arith, v.0) in
    rw real (
      fill_pool-IsRing kmalloc count (suc i) pool (kmalloc i ∷ xs)
        (ListNode.add_first (kmalloc i) pool m) (add_first-IsRing (kmalloc i) xs r v.1).0 v.2)

-- `netbuf_init` ends with all 1024 buffers in the pool, as long as `kmalloc` gives new ones.
pub netbuf_init-IsRing :
    (kmalloc : ℕ → Ptr) (pool : Ptr) (m : Memory)
    → AllNew kmalloc 1024 0 pool []
    → (g : Memory) × (netbuf_init kmalloc pool m ≡ ok g) × IsRing g pool (stacked kmalloc 1024 0 [])
unfolding netbuf_init
netbuf_init-IsRing kmalloc pool m v =
    fill_pool-IsRing kmalloc 1024 0 pool [] (ListNode.init pool m) (init-IsRing m pool).0 v

-- `alloc_netbuf` takes the buffer in front of the pool and sets its pointer behind the room for
-- the headers; from an empty pool it gives NULL and changes nothing.
pub alloc_netbuf_lem :
    (s : Pool) (xs : List Ptr)
    → IsRing s.nodes s.pool xs
    → ((alloc_netbuf s).0 ≡ first xs)
      × IsRing (alloc_netbuf s).1.nodes s.pool (tail xs)
      × ((p : Ptr)
          → (alloc_netbuf s).1.ptr p
            ≡ (if not (is_nil xs) && p == first xs then data_of p + max_header_size else s.ptr p))
unfolding alloc_netbuf
alloc_netbuf_lem s [] r =
    let empty : (s.nodes.next s.pool == s.pool) ≡ true = ground (arith, r.chain) in
    rw empty (refl, r, λ p. refl)
alloc_netbuf_lem s (x ∷ xs) r =
    let at_x : s.nodes.next s.pool ≡ x = r.chain.0.0 in
    let filled : (x == s.pool) ≡ false = ground (arith, r.distinct) in
    rw (at_x, filled) (refl, delete_first-IsRing (x ∷ xs) r, λ p. ground arith)

-- A buffer that goes back to the pool is the next that `alloc_netbuf` gives, and the pool is then
-- as before.
pub free_netbuf-alloc_netbuf :
    (n : Ptr) (s : Pool) (xs : List Ptr)
    → IsRing s.nodes s.pool xs
    → n ∉ s.pool ∷ xs
    → ((alloc_netbuf (free_netbuf n s)).0 ≡ n)
      × IsRing (alloc_netbuf (free_netbuf n s)).1.nodes s.pool xs
unfolding free_netbuf
free_netbuf-alloc_netbuf n s xs r out =
    let a = alloc_netbuf_lem (free_netbuf n s) (n ∷ xs) (add_first-IsRing n xs r out).0 in
    (a.0, a.1)
