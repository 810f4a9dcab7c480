-- ===== src/Fat.antt =====
-- fs/fat.c and include/citrus/fat.h: the FAT32 file system. A disk gives the bytes of a page, or
-- `none` when its `read` fails; a page has 512 bytes.
pub mod Mount
pub mod Chain
pub mod Names
pub mod Paths
pub mod Entries
pub mod Listing
mod Tests
use operating_system_cortex.Prelude.{ℕ, ◌*◌, Option}
use operating_system_cortex.Bytes.{Memory, get_word}

abbrev pub Disk : Type 0
Disk = ℕ → Option Memory

abbrev pub edisk : ℕ
edisk = 1

abbrev pub enofile : ℕ
enofile = 2

abbrev pub eeof : ℕ
eeof = 3

abbrev pub eeocc : ℕ
eeocc = 4

abbrev pub fat_entry_mask : ℕ
fat_entry_mask = 0xFFFFFFF

pub record Fat : Type 0 where
  pub page_order : ℕ
  pub page_mask : ℕ
  pub clust_order : ℕ
  pub clust_mask : ℕ
  pub fat_ent_order : ℕ
  pub fat_ent_mask : ℕ
  pub root_clust_num : ℕ
  pub data_start : ℕ
  pub fat_start : ℕ
  pub bpb_start : ℕ
  pub info_start : ℕ
  pub fats : ℕ

-- What the functions use of a `struct file`; the caches are indexed by bytes and by words.
pub record File : Type 0 where
  pub file_offset : ℕ
  pub offset : ℕ
  pub page : ℕ
  pub size : ℕ
  pub cache : Memory
  pub cache_page : ℕ
  pub cache_dirty : ℕ
  pub fat_words : ℕ → ℕ
  pub fat_cache_page : ℕ

-- A page as the words of `fat_cache`.
abbrev pub words_of : Memory → ℕ → ℕ
words_of m i = get_word (4 * i) m
