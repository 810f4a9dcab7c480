-- ===== src/Bytes/Tests.antt =====
-- Runs of the memory functions on a memory that holds at each address its low byte.
use operating_system_cortex.Prelude.{ℕ, ◌+◌, ◌^◌, ◌%◌, ◌<◌, ◌≡◌, inl, arith}
use operating_system_cortex.Bytes.{Memory, mem_copy}
use operating_system_cortex.Bytes.Regions.{Outside, mem_copy_lem}
use operating_system_cortex.Bytes.Words.{IsBytes}

abbrev ramp : Memory
ramp p = p % 2 ^ 8

ramp-IsBytes : IsBytes ramp
ramp-IsBytes p = omega arith

-- The regions overlap, and the target lies lower.
mem_copy_lem_example :
    ((i : ℕ) → i < 7 → mem_copy 102 100 7 ramp (100 + i) ≡ ramp (102 + i))
    × ((q : ℕ) → Outside 100 7 q → mem_copy 102 100 7 ramp q ≡ ramp q)
mem_copy_lem_example = mem_copy_lem 102 100 7 ramp ramp-IsBytes (omega arith) (inl (omega arith))
