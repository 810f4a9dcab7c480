-- ===== src/Disks/Table.antt =====
-- fs/disk.c: the names of the partitions of a disk.
use operating_system_cortex.Prelude.{
  ℕ, zero, suc, ◌+◌, ◌*◌, ◌≤◌, ◌<◌, ◌≡◌, refl, ap, inl, inr, Bool, false, not, ◌&&◌, ◌||◌, some,
  List, [], ◌∷◌, ◌++◌, ◌==◌, ltb, leb, if◌then◌else◌, length, arith, Bool-cases,
}
use operating_system_cortex.Prelude.Bits.{u8}
use operating_system_cortex.Prelude.Outcome.{ok}
use operating_system_cortex.Bytes.{Memory, read_le32}
use operating_system_cortex.Disks.{
  Partition, DiskInfo, no_partition, partition_set_name, entries_loop, disk_find_partitions,
}

-- The entries of the table that stand for a partition, with the numbers they have in the table.
abbrev pub is_used : (pte : ℕ) → Memory → Bool
is_used pte buf =
    if leb 0x01 (buf pte) && leb (buf pte) 0x7F then false else not (read_le32 (pte + 12) buf == 0)

-- What the table says of the entries from `i` on: an unused entry gives a partition of no sectors
-- and a used one the next digit of a name, its number, its place and its size.
abbrev pub Describes : (buf : Memory) (disk : DiskInfo) (i digit : ℕ) → List Partition → Type 0
Describes buf disk i digit [] = Unit
Describes buf disk i digit (part ∷ parts) =
    if is_used (446 + 16 * i) buf
    then (part.name ≡ disk.name ++ (digit ∷ []))
      × (part.part_number ≡ i)
      × (part.start_lba ≡ read_le32 (446 + 16 * i + 8) buf)
      × (part.sect_count ≡ read_le32 (446 + 16 * i + 12) buf)
      × (part.disk ≡ some disk.read)
      × Describes buf disk (suc i) (suc digit) parts
    else (part ≡ no_partition) × Describes buf disk (suc i) digit parts

set_name :
    (disk : DiskInfo) (k : ℕ) (part : Partition)
    → k < 10
    → partition_set_name disk k part ≡ ok (record part { name = disk.name ++ ((0x31 + k) ∷ []) })
unfolding partition_set_name
set_name disk k part h =
    let few : ltb 9 k ≡ false = ground arith in
    let e : u8 (0x31 + k) ≡ 0x31 + k = omega arith in rw (few, e) refl

-- The loop ends, and never with a panic, while there are digits left.
entries_loop-Describes :
    (left i k : ℕ) (buf : Memory) (disk : DiskInfo)
    → k + left ≤ 10
    → (ps : List Partition) × (entries_loop left i k (446 + 16 * i) buf disk ≡ ok ps)
      × (length ps ≡ left)
      × Describes buf disk i (0x31 + k) ps
unfolding entries_loop
entries_loop-Describes zero i k buf disk h = ([], refl, refl, tt)
entries_loop-Describes (suc left) i k buf disk h =
    let pte = 446 + 16 * i in
    let e : 446 + 16 * suc i ≡ pte + 16 = omega arith in
    let skip = entries_loop-Describes left (suc i) k buf disk (omega arith) in
    let take = entries_loop-Describes left (suc i) (suc k) buf disk (omega arith) in
    let run_skip : entries_loop left (suc i) k (pte + 16) buf disk ≡ ok skip.0 = rw e at skip.1 in
    let run_take : entries_loop left (suc i) (suc k) (pte + 16) buf disk ≡ ok take.0 =
      rw e at take.1 in
    let digit : 0x31 + suc k ≡ suc (0x31 + k) = omega arith in
    elim (Bool-cases (leb 0x01 (buf pte) && leb (buf pte) 0x7F)) [
      | inl bad ↦
          (no_partition ∷ skip.0, rw (bad, run_skip) refl, ap suc skip.2, rw bad (refl, skip.3))
      | inr good ↦ elim (Bool-cases (read_le32 (pte + 12) buf == 0)) [
        | inl empty ↦ (
          no_partition ∷ skip.0,
          rw (good, empty, run_skip) refl,
          ap suc skip.2,
          rw (good, empty) (refl, skip.3),
        )
        | inr used ↦ (
          record no_partition {
            disk = some disk.read;
            name = disk.name ++ ((0x31 + k) ∷ []);
            part_number = i;
            start_lba = read_le32 (pte + 8) buf;
            sect_count = read_le32 (pte + 12) buf;
          }
              ∷ take.0,
          (rw
              (
                good,
                used,
                set_name disk k
                    (record no_partition {
                      disk = some disk.read;
                      part_number = i;
                      start_lba = read_le32 (pte + 8) buf;
                      sect_count = read_le32 (pte + 12) buf;
                    })
                    (omega arith),
                run_take,
              )
              refl),
          ap suc take.2,
          rw (good, used) (refl, refl, refl, refl, refl, rw digit at take.3),
        )
      ]
    ]

-- A first sector with the two bytes of an MBR at its end: the disk gets four partitions as its
-- table describes them, named by the disk's name and the digits from 1 on without a gap.
pub disk_find_partitions-Describes :
    (disk : DiskInfo) (buf : Memory)
    → disk.read 0 ≡ some buf
    → buf 510 ≡ 0x55
    → buf 511 ≡ 0xAA
    → (ps : List Partition) × (disk_find_partitions disk ≡ ok (record disk { partitions = ps }))
      × (length ps ≡ 4)
      × Describes buf disk 0 0x31 ps
unfolding disk_find_partitions
disk_find_partitions-Describes disk buf reads b0 b1 =
    let (ps, runs, four, described) = entries_loop-Describes 4 0 0 buf disk (omega arith) in
    let valid : (not (buf 510 == 0x55) || not (buf 511 == 0xAA)) ≡ false = ground (arith, b0, b1) in
    (ps, rw (reads, valid, runs) refl, four, described)
