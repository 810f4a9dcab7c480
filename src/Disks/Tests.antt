-- ===== src/Disks/Tests.antt =====
-- Runs of the disks on a small table of partitions.
use operating_system_cortex.Prelude.{
  ℕ, ◌≡◌, refl, inr, none, some, List, [], ◌∷◌, ◌++◌, ◌==◌, if◌then◌else◌, length, get_or, arith,
}
use operating_system_cortex.Prelude.Outcome.{ok}
use operating_system_cortex.Bytes.{Memory}
use operating_system_cortex.Disks.{
  DiskType, Partition, DiskInfo, SysDisk, no_partition, next_letter, disk_set_name, disk_init,
  add_disk, disk_find_partitions, get_part_from_path,
}
use operating_system_cortex.Disks.Lookup.{Found, get_part_from_path-Found}
use operating_system_cortex.Disks.Table.{Describes, disk_find_partitions-Describes}

-- "sda"
abbrev sda : List ℕ
sda = 0x73 ∷ 0x64 ∷ 0x61 ∷ []

abbrev sda2 : List ℕ
sda2 = sda ++ (0x32 ∷ [])

abbrev first_part : Partition
first_part = record no_partition { name = sda ++ (0x31 ∷ []); sect_count = 10 }

abbrev second_part : Partition
second_part = record no_partition { name = sda2; sect_count = 20 }

abbrev two_parts : SysDisk
two_parts = record { disks = []; partitions = first_part ∷ second_part ∷ [] }

-- "/sda2/x"
abbrev path : Memory
path a = get_or (0x2F ∷ 0x73 ∷ 0x64 ∷ 0x61 ∷ 0x32 ∷ 0x2F ∷ 0x78 ∷ []) a 0

get_part_from_path-Found_example :
    ((get_part_from_path 0 path two_parts).0 ≡ 5)
    × Found sda2 two_parts.partitions (get_part_from_path 0 path two_parts).1
get_part_from_path-Found_example =
    get_part_from_path-Found sda2 0 path two_parts 1 refl
      ((
        refl,
        omega arith,
        omega arith,
        (
          refl,
          omega arith,
          omega arith,
          (refl, omega arith, omega arith, (refl, omega arith, omega arith, tt)),
        ),
      ))
      (omega arith) (inr refl)

-- One partition in the second entry of the table, from sector 8 on, with 64 sectors.
abbrev mbr : Memory
mbr a =
    if a == 470
    then 8
    else if a == 474
    then 64
    else if a == 510
    then 0x55
    else if a == 511
    then 0xAA
    else 0

abbrev sd_card : DiskInfo
sd_card = record {
  name = sda;
  disk_type = DiskType.disk_sd;
  partitions = [];
  read = λ page. if page == 0 then some mbr else none;
}

disk_find_partitions-Describes_example :
    (ps : List Partition) × (disk_find_partitions sd_card ≡ ok (record sd_card { partitions = ps }))
    × (length ps ≡ 4)
    × Describes mbr sd_card 0 0x31 ps
disk_find_partitions-Describes_example = disk_find_partitions-Describes sd_card mbr refl refl refl

-- The second disk of a kind is "sdb".
second_disk :
    (disk_set_name DiskType.disk_sd (add_disk sd_card disk_init) sd_card).name
    ≡ 0x73 ∷ 0x64 ∷ 0x62 ∷ []
unfolding disk_set_name next_letter
second_disk = refl
