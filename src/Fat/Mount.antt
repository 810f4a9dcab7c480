-- ===== src/Fat/Mount.antt =====
-- fs/fat.c: the checks of the first page of a partition, and the `struct fat` made from it.
pub mod Masks
use Prim.Native.Nat.{bit_or}
use operating_system_cortex.Prelude.{
  ℕ, zero, suc, ◌+◌, ◌-◌, ◌*◌, ◌/◌, ◌^◌, Bool, true, false, ◌&&◌, not, Option, none, some, ◌==◌,
  ltb, leb, if◌then◌else◌,
}
use operating_system_cortex.Prelude.Bits.{◌<<<◌, ◌>>>◌, u32, sub32}
use operating_system_cortex.Prelude.Outcome.{Outcome, ok, error, panic, ◌>>=◌}
use operating_system_cortex.Bytes.{Memory, read_le16, read_le32}
use operating_system_cortex.Pid.{ctz}
use operating_system_cortex.Fat.{Disk, edisk, Fat}

abbrev pub bpb_signature_ok : Memory → Bool
bpb_signature_ok bpb = bpb 510 == 0x55 && bpb 511 == 0xAA

-- `mem_cmp(bpb + at, "FAT", 3)`
abbrev says_fat : (start : ℕ) → Memory → Bool
says_fat start bpb = bpb start == 0x46 && bpb (start + 1) == 0x41 && bpb (start + 2) == 0x54

unfoldable pub bpb_contain_valid_fat : Memory → Bool
bpb_contain_valid_fat bpb =
    if says_fat 54 bpb then true else if says_fat 82 bpb then true else false

-- `none` is a division by zero.
unfoldable pub bpb_contain_fat32 : Memory → Outcome Bool
unfolding bpb_contain_valid_fat
bpb_contain_fat32 bpb =
    let fat_pages = if not (read_le16 22 bpb == 0) then read_le16 22 bpb else read_le32 36 bpb in
    let tot_pages = if not (read_le16 19 bpb == 0) then read_le16 19 bpb else read_le32 32 bpb in
    let data_pages = sub32 (sub32 tot_pages (read_le16 14 bpb)) (u32 (fat_pages * bpb 16)) in
    if not (bpb_contain_valid_fat bpb)
    then ok false
    else if not (read_le16 17 bpb == 0)
    then ok false
    else if bpb 13 == 0
    then Outcome.undefined
    else ok (leb 65525 (data_pages / bpb 13))

-- The loop of `fat_order_to_mask`.
unfoldable pub mask_loop : (order res : ℕ) → ℕ
mask_loop zero res = res
mask_loop (suc order) res = mask_loop order (bit_or (u32 (res <<< 1)) 1)

unfoldable pub fat_order_to_mask : (order : ℕ) → Outcome ℕ
unfolding mask_loop
fat_order_to_mask order = if ltb order 32 then ok (mask_loop order 0) else panic

unfoldable pub build_fat_struct : (start_lba : ℕ) → Memory → Outcome Fat
build_fat_struct start_lba bpb =
    let page_order = ctz (read_le16 11 bpb) in
    let clust_order = ctz (bpb 13) in
    let fat_start = u32 (start_lba + read_le16 14 bpb) in
    fat_order_to_mask page_order >>= λ page_mask. fat_order_to_mask clust_order >>= λ clust_mask.
    fat_order_to_mask (sub32 page_order 2) >>= λ fat_ent_mask. ok (record {
      page_order = page_order;
      page_mask = page_mask;
      clust_order = clust_order;
      clust_mask = clust_mask;
      fat_ent_order = sub32 page_order 2;
      fat_ent_mask = fat_ent_mask;
      root_clust_num = read_le32 44 bpb;
      data_start = u32 (fat_start + u32 (bpb 16 * read_le32 36 bpb));
      fat_start = fat_start;
      bpb_start = start_lba;
      info_start = u32 (start_lba + read_le16 48 bpb);
      fats = bpb 16;
    })

-- `fat_mount_partition`; `kmalloc` succeeds.
unfoldable pub fat_mount_partition : Disk → (start_lba : ℕ) → Outcome Fat
fat_mount_partition disk start_lba = elim (disk start_lba) [
  | none ↦ panic
  | some bpb ↦
      if not (bpb_signature_ok bpb)
      then error edisk
      else bpb_contain_fat32 bpb >>= λ is_fat32.
          if is_fat32 then build_fat_struct start_lba bpb else error edisk
]
