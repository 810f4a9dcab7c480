-- ===== src/Slob/Alloc/Whole.antt =====
-- `slob_alloc` as a whole, and a block that is taken and given back.
use operating_system_cortex.Prelude.{
  ℕ, suc, ◌+◌, ◌^◌, ◌<◌, ◌≡◌, refl, ap, Option, ◌∙◌, sym, ◌⊎◌, inl, inr, false, none, some, List,
  ◌∷◌, ◌==◌, arith, length,
}
use operating_system_cortex.Prelude.Bits.{sub32}
use operating_system_cortex.Prelude.Outcome.{ok}
use operating_system_cortex.Slob.{Slob, block_size, slob_alloc, slob_free}
use operating_system_cortex.Slob.Blocks.{covers}
use operating_system_cortex.Slob.Search.{first_fit, first_fit-Fits, search-Found}
use operating_system_cortex.Slob.Alloc.{IsSlob, NoStart-last, block_size_lem, slob_free_lem}
use operating_system_cortex.Slob.Alloc.Take.{Taken, take_block-Taken}

-- Where a block begins that is given, else `b`.
abbrev start_of : (b : ℕ) → Option (ℕ × ℕ) → ℕ
start_of b none = b
start_of b (some r) = r.0

module _ (fuel size : ℕ) (s : Slob) (bs : List (ℕ × ℕ)) where
  -- The pointer, the block behind it, the free blocks that are left, and the state.
  abbrev pub Allocated : Type 0
  Allocated =
      (b : ℕ) × (j : ℕ) × (n : ℕ) × (bs' : List (ℕ × ℕ)) × (s' : Slob) × (first_fit
          (block_size size) bs
        ≡ some (b, j))
      × (slob_alloc fuel size s ≡ some (b + 8, s'))
      × Taken size b j n bs bs' s s'

  -- `slob_alloc` ends. It gives NULL and changes nothing if no free block is large enough; else it
  -- takes the first one that is, or its lower end, which has room for the request behind the node,
  -- is marked and counted, and whose bytes are no longer free; the other free bytes stay free. It
  -- holds when the taken part ends before the last node.
  pub slob_alloc_lem :
      IsSlob s bs
      → 0 < size
      → size + 16 < 2 ^ 32
      → suc (length bs) < fuel
      → ((b j : ℕ)
          → first_fit (block_size size) bs ≡ some (b, j)
          → b + block_size size < s.last_node)
      → (first_fit (block_size size) bs ≡ none) × (slob_alloc fuel size s ≡ some (0, s)) ⊎ Allocated
  unfolding slob_alloc
  slob_alloc_lem v some_size fits enough room =
      let need = block_size size in
      let large = block_size_lem size fits in
      let asked : (size == 0) ≡ false = ground (arith, some_size) in
      elim (search-Found fuel need s s.last_node s.first_node 0 bs v.linked v.ordered v.last_next
        v.last_size (omega (arith, large.0)) enough) [
          | inl r ↦ inl (r.0, rw (asked, r.1.1) refl)
          | inr r ↦
              let (prev, b, j, fit, found, is_j, linked, apart) = r in
              let f = first_fit-Fits need s.last_node s.first_node 0 bs b j v.ordered fit in
              let not_last =
                apart s.last_node (NoStart-last s.last_node ((s.first_node, 0) ∷ bs) v.ordered) in
              let nonzero : (b == 0) ≡ false = ground (arith, f.0) in
              let (n, bs', s', done, t) =
                take_block-Taken fuel size need prev b j s bs v large.0 is_j linked not_last f
                  (room b j fit) (omega arith) in
              inr (b, j, n, bs', s', fit, rw (asked, found, nonzero) done, t)
        ]

  -- When a free block is large enough for a request and the taken part ends before the last node,
  -- `slob_alloc` gives a pointer and a state from which `slob_free` of this pointer ends without a
  -- panic, with the same fuel. The state is in order then, the same bytes are free as before, and as
  -- many bytes are in use.
  pub slob_free-slob_alloc :
      (b j : ℕ)
      → IsSlob s bs
      → 0 < size
      → size + 16 < 2 ^ 32
      → suc (length bs) < fuel
      → first_fit (block_size size) bs ≡ some (b, j)
      → b + block_size size < s.last_node
      → s.used < 2 ^ 32
      → (ptr : ℕ) × (s' : Slob) × (s2 : Slob) × (bs2 : List (ℕ × ℕ)) × (slob_alloc fuel size s
          ≡ some (ptr, s'))
        × (slob_free fuel ptr s' ≡ some (ok s2))
        × IsSlob s2 bs2
        × ((x : ℕ) → covers bs2 x ≡ covers bs x)
        × (s2.used ≡ s.used)
  slob_free-slob_alloc b j v some_size fits enough fit room few =
      elim (slob_alloc_lem v some_size fits enough (λ c i f. same_room c i (sym f ∙ fit))) [
        | inl (none_fits, done) ↦ absurd (clash (sym none_fits ∙ fit))
        | inr (c, i, n, bs', s', f, done, t) ↦
            let (t0, t1, t2, t3, t4, t5, t6, t7, t8, t9, t10, t11) = t in
            let (s2, bs2, freed, v2, now, used, others) =
              slob_free_lem fuel c n s' bs' t0 t2 t1 t6 t7 (omega (arith, t4)) t8
                (omega (arith, t4, t8)) t9 (omega (arith, t11, enough)) in
            (
              c + 8,
              s',
              s2,
              bs2,
              done,
              freed,
              v2,
              (λ x. now x ∙ sym (t10 x)),
              used ∙ ap (λ (k : ℕ). sub32 k n) t3 ∙ omega (arith, few, t8),
            )
      ]
    where
      same_room :
          (c i : ℕ)
          → ◌≡◌ {A = Option (ℕ × ℕ)} (some (c, i)) (some (b, j))
          → c + block_size size < s.last_node
      same_room c i e = let same : c ≡ b = ap (start_of b) e in omega (arith, room, same)

      clash : ◌≡◌ {A = Option (ℕ × ℕ)} none (some (b, j)) → ⊥
      clash e = cc
