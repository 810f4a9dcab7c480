-- ===== src/BootAlloc.antt =====
-- mm/boot_alloc.c and mm/cache_alloc.c: the two allocators that only go forward.
pub mod Regions
mod Tests
use operating_system_cortex.Prelude.{
  ℕ, ◌+◌, ◌-◌, Bool, true, false, Option, none, some, ◌==◌, ltb, not, if◌then◌else◌,
}
use operating_system_cortex.Prelude.Bits.{u32}
use operating_system_cortex.Prelude.Outcome.{Outcome, ok, panic}
use operating_system_cortex.Align.{align_up_ptr}

-- `boot_alloc_en` and `boot_alloc_ptr`.
pub record BootAlloc : Type 0 where
  pub enabled : ℕ
  pub ptr : ℕ

-- `kernel_end` is the address of `_kernel_e`, which the linker gives.
unfoldable pub boot_alloc_init : (kernel_end : ℕ) → BootAlloc
boot_alloc_init kernel_end = record { enabled = 1; ptr = kernel_end }

unfoldable pub boot_alloc : (size align : ℕ) → BootAlloc → Outcome (ℕ × BootAlloc)
boot_alloc size align s =
    let ret = align_up_ptr s.ptr align in
    if s.enabled == 0 then panic else ok (ret, record s { ptr = u32 (ret + size) })

unfoldable pub boot_alloc_retire : BootAlloc → BootAlloc
boot_alloc_retire s = record s { enabled = 0 }

unfoldable pub boot_alloc_get_end_vaddr : BootAlloc → ℕ
boot_alloc_get_end_vaddr s = s.ptr

-- `enabled`, `end` and `pos` of the cache allocator.
pub record CacheAlloc : Type 0 where
  pub enabled : ℕ
  pub end : ℕ
  pub pos : ℕ

-- The region that `cache_alloc_init` takes from the boot allocator; the page attributes are left
-- out.
unfoldable pub cache_alloc_init : BootAlloc → Outcome (CacheAlloc × BootAlloc)
cache_alloc_init s = with_region (boot_alloc 0x100000 0x100000 s)
  where
    with_region : Outcome (ℕ × BootAlloc) → Outcome (CacheAlloc × BootAlloc)
    with_region (ok (buffer, s')) =
        ok (record { enabled = 1; end = u32 (buffer + 0x100000); pos = buffer }, s')
    with_region (Outcome.error code) = Outcome.error code
    with_region panic = panic
    with_region Outcome.undefined = Outcome.undefined

-- The address, or `none` for NULL.
unfoldable pub cache_alloc : (size align : ℕ) → CacheAlloc → Outcome (Option ℕ × CacheAlloc)
cache_alloc size align s =
    let new = align_up_ptr s.pos align in
    if s.enabled == 0
    then panic
    else if ltb s.end (u32 (new + size))
    then ok (none, s)
    else ok (some new, record s { pos = u32 (new + size) })
