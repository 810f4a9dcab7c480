-- ===== src/Disks.antt =====
-- fs/disk.c and fs/fs.c: the disks and partitions of the system, and how a path finds its
-- partition. A name field holds the characters before its NULL; the two lists of the system are
-- their elements in order.
pub mod Lookup
pub mod Table
mod Tests
use operating_system_cortex.Prelude.{
  ℕ, zero, suc, ◌+◌, ◌*◌, Bool, true, false, ◌&&◌, ◌||◌, not, Option, none, some, List, [], ◌∷◌,
  ◌++◌, ◌==◌, ltb, leb, if◌then◌else◌,
}
use operating_system_cortex.Prelude.Bits.{u8}
use operating_system_cortex.Prelude.Int.{ℤ, pos, is_pos}
use operating_system_cortex.Prelude.Outcome.{Outcome, ok, error, panic, ◌>>=◌}
use operating_system_cortex.Bytes.{Memory, read_le32}
use operating_system_cortex.CString.{string_length}
use operating_system_cortex.Fat.{Disk, Fat, File}
use operating_system_cortex.Fat.Mount.{fat_mount_partition}
use operating_system_cortex.Fat.Entries.{Result}
use operating_system_cortex.Fat.Paths.{fat_file_open, fat_dir_open}

pub data DiskType : Type 0 where
  disk_sd disk_mmc : DiskType

abbrev pub same_type : DiskType → DiskType → Bool
same_type disk_sd disk_sd = true
same_type disk_mmc disk_mmc = true
same_type disk_sd disk_mmc = false
same_type disk_mmc disk_sd = false

-- "sd" and "mmc"
abbrev pub disk_names : DiskType → List ℕ
disk_names disk_sd = 0x73 ∷ 0x64 ∷ []
disk_names disk_mmc = 0x6D ∷ 0x6D ∷ 0x63 ∷ []

-- `none` stands for a NULL pointer.
pub record Partition : Type 0 where
  pub fs : Option Fat
  pub disk : Option Disk
  pub name : List ℕ
  pub label : List ℕ
  pub part_number : ℕ
  pub start_lba : ℕ
  pub sect_count : ℕ

pub record DiskInfo : Type 0 where
  pub name : List ℕ
  pub disk_type : DiskType
  pub partitions : List Partition
  pub read : Disk

pub record SysDisk : Type 0 where
  pub disks : List DiskInfo
  pub partitions : List Partition

abbrev pub disk_init : SysDisk
disk_init = record { disks = []; partitions = [] }

abbrev pub add_disk : DiskInfo → SysDisk → SysDisk
add_disk disk s = record s { disks = s.disks ++ (disk ∷ []) }

abbrev pub add_partition : Partition → SysDisk → SysDisk
add_partition vol s = record s { partitions = s.partitions ++ (vol ∷ []) }

unfoldable pub partition_set_name : DiskInfo → (index : ℕ) → Partition → Outcome Partition
partition_set_name disk index part =
    if ltb 9 index then panic else ok (record part { name = disk.name ++ (u8 (0x31 + index) ∷ []) })

-- What `mem_set` with 0 leaves of a partition.
abbrev pub no_partition : Partition
no_partition = record {
  fs = none;
  disk = none;
  name = [];
  label = [];
  part_number = 0;
  start_lba = 0;
  sect_count = 0;
}

-- The loop of `disk_find_partitions` over the entries of the table, from `pte` on.
unfoldable pub entries_loop :
    (left i part_index pte : ℕ) → Memory → DiskInfo → Outcome (List Partition)
entries_loop zero i part_index pte buf disk = ok []
entries_loop (suc left) i part_index pte buf disk =
    let skip : Outcome (List Partition) =
      entries_loop left (suc i) part_index (pte + 16) buf disk >>= λ ps. ok (no_partition ∷ ps) in
    let take : Outcome (List Partition) =
      partition_set_name disk part_index (record no_partition {
        disk = some disk.read;
        part_number = i;
        start_lba = read_le32 (pte + 8) buf;
        sect_count = read_le32 (pte + 12) buf;
      })
      >>= λ part.
          entries_loop left (suc i) (suc part_index) (pte + 16) buf disk >>= λ ps. ok (part ∷ ps) in
    if leb 0x01 (buf pte) && leb (buf pte) 0x7F
    then skip
    else if not (read_le32 (pte + 12) buf == 0)
    then take
    else skip

-- `disk_find_partitions` behind the read of the first sector.
abbrev pub in_mbr : Option Memory → DiskInfo → Outcome DiskInfo
in_mbr none disk = panic
in_mbr (some buf) disk =
    if not (buf 510 == 0x55) || not (buf 511 == 0xAA)
    then ok (record disk {
      partitions = no_partition ∷ no_partition ∷ no_partition ∷ no_partition ∷ [];
    })
    else entries_loop 4 0 0 446 buf disk >>= λ ps. ok (record disk { partitions = ps })

unfoldable pub disk_find_partitions : DiskInfo → Outcome DiskInfo
disk_find_partitions disk = in_mbr (disk.read 0) disk

-- The loop of `disk_set_name` over the disks.
unfoldable pub next_letter : (letter : ℕ) → DiskType → List DiskInfo → ℕ
next_letter letter kind [] = letter
next_letter letter kind (disk ∷ disks) =
    next_letter (if same_type disk.disk_type kind then u8 (letter + 1) else letter) kind disks

unfoldable pub disk_set_name : DiskType → SysDisk → DiskInfo → DiskInfo
disk_set_name kind s disk = record disk {
  name = disk_names kind ++ (next_letter 0x61 kind s.disks ∷ []);
}

-- The loop of `partition_name_cmp` when `cnt` characters are still to be compared.
unfoldable pub cmp_loop : (cnt : ℕ) (part_name : List ℕ) (name : ℕ) → Memory → Bool
cmp_loop zero [] name m = true
cmp_loop zero (c ∷ cs) name m = false
cmp_loop (suc cnt) [] name m = false
cmp_loop (suc cnt) (c ∷ cs) name m =
    let rest = cmp_loop cnt cs (suc name) m in if not (c == m name) then false else rest

-- `cnt++`, and the first `--cnt`, both on eight bits.
unfoldable pub partition_name_cmp : (part_name : List ℕ) (name cnt : ℕ) → Memory → Bool
partition_name_cmp part_name name cnt m = cmp_loop (u8 (u8 (cnt + 1) + 0xFF)) part_name name m

unfoldable pub name_to_partition : (name cnt : ℕ) → Memory → List Partition → Option Partition
name_to_partition name cnt m [] = none
name_to_partition name cnt m (part ∷ parts) =
    let rest = name_to_partition name cnt m parts in
    if partition_name_cmp part.name name cnt m then some part else rest

-- "No label"
abbrev pub no_label : List ℕ
no_label = 0x4E ∷ 0x6F ∷ 0x20 ∷ 0x6C ∷ 0x61 ∷ 0x62 ∷ 0x65 ∷ 0x6C ∷ []

-- What follows `fat_mount_partition` in a round of the loop of `disk_add`. The only code that the
-- model has for it is `edisk`: its allocation succeeds.
abbrev pub mounted : Outcome Fat → Partition → SysDisk → Outcome SysDisk
mounted (ok fat) part s = ok (add_partition (record part { fs = some fat; label = no_label }) s)
mounted (error code) part s = ok s
mounted panic part s = panic
mounted Outcome.undefined part s = Outcome.undefined

-- The loop of `disk_add` over the partitions.
unfoldable pub mount_loop : List Partition → Disk → SysDisk → Outcome SysDisk
mount_loop [] read s = ok s
mount_loop (part ∷ parts) read s =
    if part.sect_count == 0
    then mount_loop parts read s
    else mounted (fat_mount_partition read part.start_lba) part s >>= λ s'. mount_loop parts read s'

-- The disk and the system share the partitions in C; here those in the list of the system have what
-- the mount stores.
unfoldable pub disk_add : DiskInfo → DiskType → SysDisk → Outcome SysDisk
disk_add disk kind s =
    let named = disk_set_name kind s disk in
    disk_find_partitions named >>= λ found.
    mount_loop found.partitions found.read (add_disk found s)

-- The loop of `get_part_from_path`, with `left` of its 255 rounds to go: the characters it counts.
unfoldable pub name_length : (left src : ℕ) → Memory → ℕ
name_length zero src m = 0
name_length (suc left) src m =
    let rest = name_length left (suc src) m in
    if not (m src == 0) && not (m src == 0x2F) then suc rest else 0

-- `get_part_from_path`: `*path`, and the partition.
unfoldable pub get_part_from_path : (path : ℕ) → Memory → SysDisk → ℕ × Option Partition
get_part_from_path path m s =
    let frag = if m path == 0x2F then path + 1 else path in
    let cnt = name_length 0xFF frag m in (frag + cnt, name_to_partition frag cnt m s.partitions)

-- A file from `kzmalloc`.
abbrev pub zero_file : File
zero_file = record {
  file_offset = 0;
  offset = 0;
  page = 0;
  size = 0;
  cache = λ a. 0;
  cache_page = 0;
  cache_dirty = 0;
  fat_words = λ a. 0;
  fat_cache_page = 0;
}

-- `if (err)`: the file is freed and NULL returned.
abbrev pub opened : Result → Option (Outcome (Option File))
opened none = none
opened (some (ok (err, f))) = if is_pos 0 err then some (ok (some f)) else some (ok none)
opened (some (error code)) = some (error code)
opened (some panic) = some panic
opened (some Outcome.undefined) = some Outcome.undefined

-- One of the two functions of fs/fat.c that open a path, which has its length as an argument.
abbrev pub Open : Type 0
Open = Fat → Disk → (path size : ℕ) → Memory → File → Result

abbrev pub with_length :
    Option ℕ → (ℕ → Option (Outcome (Option File))) → Option (Outcome (Option File))
with_length none next = none
with_length (some size) next = next size

-- The file system and the disk of a partition that is in the list are set.
abbrev pub open_on :
    Open → (fuel path : ℕ) → Memory → Option Fat → Option Disk → Option (Outcome (Option File))
open_on open_ fuel path m none disk = some Outcome.undefined
open_on open_ fuel path m (some fat) none = some Outcome.undefined
open_on open_ fuel path m (some fat) (some disk) =
    with_length (string_length fuel path m) (λ size. opened (open_ fat disk path size m zero_file))

abbrev pub open_in :
    Open → (fuel path : ℕ) → Memory → Option Partition → Option (Outcome (Option File))
open_in open_ fuel path m none = some (ok none)
open_in open_ fuel path m (some part) = open_on open_ fuel path m part.fs part.disk

-- `none` inside the outcome is the NULL that a failure returns.
unfoldable pub dir_open : (fuel path : ℕ) → Memory → SysDisk → Option (Outcome (Option File))
dir_open fuel path m s =
    let (local, part) = get_part_from_path path m s in
    open_in (fat_dir_open fuel fuel) fuel local m part

unfoldable pub file_open : (fuel path : ℕ) → Memory → SysDisk → Option (Outcome (Option File))
file_open fuel path m s =
    let (local, part) = get_part_from_path path m s in
    open_in (fat_file_open fuel fuel) fuel local m part
