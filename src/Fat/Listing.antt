-- ===== src/Fat/Listing.antt =====
-- fs/fat.c: what `fat_dir_read` tells of an entry.
pub mod Packed
use Prim.Native.Nat.{bit_and}
use operating_system_cortex.Prelude.{
  ℕ, zero, suc, ◌+◌, ◌-◌, ◌*◌, ◌%◌, ◌^◌, Bool, true, false, not, Option, none, some, ◌==◌,
  if◌then◌else◌,
}
use operating_system_cortex.Prelude.Bits.{◌>>>◌, u8, u32, sub32}
use operating_system_cortex.Prelude.Int.{ℤ, pos, neg, is_neg, is_pos}
use operating_system_cortex.Prelude.Outcome.{Outcome, ok, error, panic, ◌>>=◌}
use operating_system_cortex.Bytes.{Memory, put, read_le16, read_le32}
use operating_system_cortex.Net.Arp.{enoent}
use operating_system_cortex.Fat.{Disk, edisk, Fat, File}
use operating_system_cortex.Fat.Chain.{fat_cache}
use operating_system_cortex.Fat.Names.{fat_get_sfn_crc, fat_get_lfn_name, fat_sfn_to_file_name}
use operating_system_cortex.Fat.Entries.{entry, jump_entries}

-- The fields of `struct file_time` have 5, 6 and 5 bits, those of `struct file_date` 16, 8 and 8.
pub record FileTime : Type 0 where
  pub hour : ℕ
  pub min : ℕ
  pub sec : ℕ

pub record FileDate : Type 0 where
  pub year : ℕ
  pub month : ℕ
  pub day : ℕ

unfoldable pub fat_get_time : (time : ℕ) → FileTime
fat_get_time time = record {
  hour = (time >>> 11) % 2 ^ 5;
  min = bit_and (time >>> 5) 0x3F % 2 ^ 6;
  sec = (bit_and time 0x1F * 2) % 2 ^ 5;
}

unfoldable pub fat_get_date : (date : ℕ) → FileDate
fat_get_date date = record {
  year = (1980 + bit_and (date >>> 9) 0x7F) % 2 ^ 16;
  month = bit_and (date >>> 5) 0xF % 2 ^ 8;
  day = bit_and date 0x1F % 2 ^ 8;
}

-- `struct file_info` without the name, which stands in memory.
pub record FileInfo : Type 0 where
  pub attr : ℕ
  pub create_time : FileTime
  pub create_date : FileDate
  pub write_time : FileTime
  pub write_date : FileDate
  pub access_date : FileDate
  pub size : ℕ

unfoldable pub fat_get_sfn_info : (sfn : ℕ) → Memory → FileInfo
fat_get_sfn_info sfn m = record {
  attr = m (sfn + 11);
  create_time = fat_get_time (read_le16 (sfn + 14) m);
  create_date = fat_get_date (read_le16 (sfn + 16) m);
  write_time = fat_get_time (read_le16 (sfn + 22) m);
  write_date = fat_get_date (read_le16 (sfn + 24) m);
  access_date = fat_get_date (read_le16 (sfn + 18) m);
  size = read_le32 (sfn + 28) m;
}

-- What a call gives, the file and the memory with the name behind it.
abbrev pub Named : Type 0
Named = Option (Outcome (ℤ × ℕ × Memory × File))

-- `if (err < 0) return err;` behind `jump_entries`, and what follows.
abbrev pub if_jumped : Outcome (ℤ × File) → Memory → (File → Named) → Named
if_jumped (ok (err, f)) m next = if is_neg err then some (ok (err, 0, m, f)) else next f
if_jumped (error code) m next = some (error code)
if_jumped panic m next = some panic
if_jumped Outcome.undefined m next = some Outcome.undefined

-- The loop of `get_lfn_full_name`, and what follows it. `*bytes_written` is the second part.
unfoldable pub full_name_loop :
    (fuel : ℕ) → Fat → Disk → (buffer cnt crc : ℕ) → Memory → File → Named
full_name_loop zero fat disk buffer cnt crc m f = none
full_name_loop (suc fuel) fat disk buffer cnt crc m f =
    let seq = bit_and (entry f 0) 0x1F in
    let (size, m') = fat_get_lfn_name (entry f) (u32 (buffer + u32 (13 * sub32 seq 1))) m in
    if_jumped (jump_entries fat disk 1 f) m' (λ f'.
      let rest = full_name_loop fuel fat disk buffer (u32 (cnt + size)) crc m' f' in
      if not (seq == 1)
      then rest
      else if not (crc == fat_get_sfn_crc (entry f'))
      then some (ok (neg edisk, 0, m', f'))
      else some (ok (pos 0, u8 (u32 (cnt + size)), m', f')))

unfoldable pub get_lfn_full_name : (fuel : ℕ) → Fat → Disk → (buffer : ℕ) → Memory → File → Named
get_lfn_full_name fuel fat disk buffer m f =
    if bit_and (entry f 0) 0x40 == 0
    then some (ok (neg edisk, 0, m, f))
    else full_name_loop fuel fat disk buffer 0 (entry f 13) m f

-- `if (err < 0) return err;` and the end of the name.
abbrev pub terminated : (buffer : ℕ) → Named → Named
terminated buffer none = none
terminated buffer (some (ok (err, cnt, m, f))) =
    if is_neg err
    then some (ok (err, cnt, m, f))
    else some (ok (pos 0, cnt, put (buffer + cnt) 0 m, f))
terminated buffer (some (error code)) = some (error code)
terminated buffer (some panic) = some panic
terminated buffer (some Outcome.undefined) = some Outcome.undefined

unfoldable pub fat_get_entry_name : (fuel : ℕ) → Fat → Disk → (buffer : ℕ) → Memory → File → Named
fat_get_entry_name fuel fat disk buffer m f =
    if entry f 0 == 0x00
    then some (ok (neg enoent, 0, m, f))
    else if entry f 0 == 0xE5
    then some (ok (neg enoent, 0, m, f))
    else if not (entry f 11 == 0x0F)
    then some (ok (pos 0, 0, fat_sfn_to_file_name (entry f) buffer m, f))
    else terminated buffer (get_lfn_full_name fuel fat disk buffer m f)

pub record FilePtr : Type 0 where
  pub file_offset : ℕ
  pub page_offset : ℕ
  pub page : ℕ

abbrev pub fat_file_save : File → FilePtr
fat_file_save f = record { file_offset = f.file_offset; page_offset = f.offset; page = f.page }

unfoldable pub fat_file_restore : Disk → FilePtr → File → Outcome (ℤ × File)
fat_file_restore disk ptr f =
    fat_cache disk
      (record f { page = ptr.page; offset = ptr.page_offset; file_offset = ptr.file_offset })

-- The part of `fat_dir_read` behind the name.
abbrev pub with_info :
    Disk → FilePtr → Named → Option (Outcome (ℤ × Option FileInfo × Memory × File))
with_info disk ptr none = none
with_info disk ptr (some (ok (err, cnt, m, f))) =
    if not (is_pos 0 err)
    then some (ok (err, none, m, f))
    else some (
        fat_file_restore disk ptr f >>= λ (err', f').
        ok (err', some (fat_get_sfn_info f.offset f.cache), m, f'))
with_info disk ptr (some (error code)) = some (error code)
with_info disk ptr (some panic) = some panic
with_info disk ptr (some Outcome.undefined) = some Outcome.undefined

-- `fat_dir_read`: the `info` that it writes, if it does, and the name at `name`.
unfoldable pub fat_dir_read :
    (fuel : ℕ)
    → Fat
    → Disk
    → (name : ℕ) → Memory
    → File
    → Option (Outcome (ℤ × Option FileInfo × Memory × File))
fat_dir_read fuel fat disk name m f =
    with_info disk (fat_file_save f) (fat_get_entry_name fuel fat disk name m f)
