-- ===== src/BootAlloc/Regions.antt =====
-- What the allocators give is aligned, and lies behind all that they gave before.
use operating_system_cortex.Prelude.{
  ℕ, ◌+◌, ◌^◌, ◌%◌, ◌≤◌, ◌<◌, ◌≡◌, ◌≢◌, refl, ◌⊎◌, inl, inr, false, none, some, ◌==◌, ltb, arith,
  Bool-cases,
}
use operating_system_cortex.Prelude.Bits.{u32}
use operating_system_cortex.Prelude.Outcome.{ok, panic}
use operating_system_cortex.Align.{align_up_ptr}
use operating_system_cortex.Align.Rounding.{align_up_ptr_lem}
use operating_system_cortex.BootAlloc.{
  BootAlloc, boot_alloc, boot_alloc_retire, CacheAlloc, cache_alloc,
}

-- While the boot allocator is in use, and the addresses do not wrap, a block of `size` bytes is a
-- multiple of the alignment, starts at or behind the end of the last and ends at the new end; once
-- the allocator is retired a call is a panic.
pub boot_alloc_lem :
    (k j size : ℕ) (s : BootAlloc)
    → k + j ≡ 32
    → s.enabled ≢ 0
    → s.ptr + 2 ^ k + size < 2 ^ 32
    → (block : ℕ) × (s' : BootAlloc) × (boot_alloc size (2 ^ k) s ≡ ok (block, s'))
      × (block % 2 ^ k ≡ 0)
      × (s.ptr ≤ block)
      × (s'.ptr ≡ block + size)
      × (s'.ptr < s.ptr + 2 ^ k + size)
      × (boot_alloc size (2 ^ k) (boot_alloc_retire s') ≡ panic)
unfolding boot_alloc boot_alloc_retire
boot_alloc_lem k j size s split on room =
    let a = align_up_ptr_lem k j split s.ptr (omega arith) in
    let in_use : (s.enabled == 0) ≡ false = ground arith in
    let end : u32 (align_up_ptr s.ptr (2 ^ k) + size) ≡ align_up_ptr s.ptr (2 ^ k) + size =
      omega (arith, a.2) in
    (
      align_up_ptr s.ptr (2 ^ k),
      record s { ptr = align_up_ptr s.ptr (2 ^ k) + size },
      rw (in_use, end) refl,
      a.0,
      a.1,
      refl,
      omega (arith, a.2),
      refl,
    )

-- While the cache allocator is in use, and the addresses do not wrap, it gives a block of `size`
-- bytes that is a multiple of the alignment and lies behind the blocks before it and within its
-- region, or NULL and changes nothing.
pub cache_alloc_lem :
    (k j size : ℕ) (s : CacheAlloc)
    → k + j ≡ 32
    → s.enabled ≢ 0
    → s.pos + 2 ^ k + size < 2 ^ 32
    → (cache_alloc size (2 ^ k) s ≡ ok (none, s)) × (s.end < s.pos + 2 ^ k + size)
      ⊎ (block : ℕ) × (s' : CacheAlloc) × (cache_alloc size (2 ^ k) s ≡ ok (some block, s'))
        × (block % 2 ^ k ≡ 0)
        × (s.pos ≤ block)
        × (s'.pos ≡ block + size)
        × (s'.pos ≤ s.end)
        × (s'.end ≡ s.end)
unfolding cache_alloc
cache_alloc_lem k j size s split on room =
    let a = align_up_ptr_lem k j split s.pos (omega arith) in
    let in_use : (s.enabled == 0) ≡ false = ground arith in
    let new = align_up_ptr s.pos (2 ^ k) in
    let end : u32 (align_up_ptr s.pos (2 ^ k) + size) ≡ align_up_ptr s.pos (2 ^ k) + size =
      omega (arith, a.2) in
    elim (Bool-cases (ltb s.end (align_up_ptr s.pos (2 ^ k) + size))) [
      | inl e ↦ inl (rw (in_use, end, e) refl, ground (arith, a.2))
      | inr e ↦ inr (
        align_up_ptr s.pos (2 ^ k),
        record s { pos = align_up_ptr s.pos (2 ^ k) + size },
        rw (in_use, end, e) refl,
        a.0,
        a.1,
        refl,
        ground arith,
        refl,
      )
    ]
