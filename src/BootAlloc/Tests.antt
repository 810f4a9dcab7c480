-- ===== src/BootAlloc/Tests.antt =====
-- Runs of the two allocators.
use operating_system_cortex.Prelude.{ℕ, ◌+◌, ◌^◌, ◌%◌, ◌≤◌, ◌<◌, ◌≡◌, refl, arith}
use operating_system_cortex.Prelude.Outcome.{ok, panic}
use operating_system_cortex.BootAlloc.{BootAlloc, boot_alloc, boot_alloc_retire, CacheAlloc}
use operating_system_cortex.BootAlloc.Regions.{boot_alloc_lem}

abbrev booted : BootAlloc
booted = record { enabled = 1; ptr = 0x20012345 }

boot_alloc_lem_example :
    (block : ℕ) × (s' : BootAlloc) × (boot_alloc 100 (2 ^ 12) booted ≡ ok (block, s'))
    × (block % 2 ^ 12 ≡ 0)
    × (0x20012345 ≤ block)
    × (s'.ptr ≡ block + 100)
    × (s'.ptr < 0x20012345 + 2 ^ 12 + 100)
    × (boot_alloc 100 (2 ^ 12) (boot_alloc_retire s') ≡ panic)
boot_alloc_lem_example = boot_alloc_lem 12 20 100 booted refl (λ e. omega arith) (omega arith)

abbrev region : CacheAlloc
region = record { enabled = 1; end = 0x20200000; pos = 0x20100004 }
