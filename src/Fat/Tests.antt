-- ===== src/Fat/Tests.antt =====
-- Runs of the file system on small disks.
use mathlib.Core.Logic.{◌↔◌}
use operating_system_cortex.Prelude.{
  ℕ, ◌+◌, ◌*◌, ◌%◌, ◌≤◌, ◌<◌, ◌≡◌, ◌≢◌, refl, true, ◌⊎◌, some, ◌==◌, if◌then◌else◌, arith,
}
use operating_system_cortex.Prelude.Int.{pos, neg}
use operating_system_cortex.Prelude.Outcome.{ok}
use operating_system_cortex.Bytes.{Memory, read_le16, get_word}
use operating_system_cortex.Pid.{ctz, ctz_loop}
use operating_system_cortex.Fat.{Disk, eeof, eeocc, Fat, File, words_of}
use operating_system_cortex.Fat.Mount.{build_fat_struct}
use operating_system_cortex.Fat.Mount.Masks.{IsFat, build_fat_struct-IsFat}
use operating_system_cortex.Fat.Chain.{follow_cluster_chain, get_fat_ent_status}
use operating_system_cortex.Fat.Chain.Table.{
  Cached, SameButTable, walk, table_entry, follow_cluster_chain-walk, follow_cluster_chain-ne-eeocc,
}
use operating_system_cortex.Fat.Paths.{fat_file_read}
use operating_system_cortex.Fat.Paths.Reading.{Sized, Loaded, fat_file_read_lem}
use operating_system_cortex.Fat.Names.{fat_lfn_cmp_frag}
use operating_system_cortex.Fat.Names.Long.{fat_lfn_cmp_frag_iff}

-- Sectors of 512 bytes, and clusters of 8 of them.
abbrev boot : Memory
boot a = if a == 12 then 2 else if a == 13 then 8 else 0

boot_sector : ctz (read_le16 11 boot) ≡ 9
unfolding read_le16 ctz ctz_loop
boot_sector = refl

boot_cluster : ctz (boot 13) ≡ 3
unfolding ctz ctz_loop
boot_cluster = refl

build_fat_struct-IsFat_example : (fat : Fat) × (build_fat_struct 2048 boot ≡ ok fat) × IsFat fat
build_fat_struct-IsFat_example =
    build_fat_struct-IsFat 2048 boot (omega (arith, boot_sector)) (omega (arith, boot_sector))
      (omega (arith, boot_cluster))

abbrev small_fat : Fat
small_fat = record {
  page_order = 9;
  page_mask = 511;
  clust_order = 3;
  clust_mask = 7;
  fat_ent_order = 7;
  fat_ent_mask = 127;
  root_clust_num = 2;
  data_start = 100;
  fat_start = 10;
  bpb_start = 0;
  info_start = 1;
  fats = 1;
}

-- Cluster 2 is followed by 3, which is the last.
abbrev table_page : Memory
table_page a =
    if a == 8
    then 3
    else if a == 12
    then 0xFF
    else if a == 13
    then 0xFF
    else if a == 14
    then 0xFF
    else if a == 15
    then 0x0F
    else 0

abbrev table_disk : Disk
table_disk p = some (if p == 10 then table_page else λ a. 0)

abbrev new_file : File
new_file = record {
  file_offset = 0;
  offset = 0;
  page = 100;
  size = 4;
  cache = λ i. (100 * 512 + i) % 256;
  cache_page = 100;
  cache_dirty = 0;
  fat_words = words_of table_page;
  fat_cache_page = 10;
}

follow_cluster_chain-walk_example :
    let r = follow_cluster_chain small_fat table_disk 2 2 new_file in
    (r.0 ≡ (walk small_fat table_disk 2 (pos 0) 2).0)
    × (r.1 ≡ (walk small_fat table_disk 2 (pos 0) 2).1)
    × Cached table_disk r.2
    × SameButTable new_file r.2
follow_cluster_chain-walk_example =
    follow_cluster_chain-walk small_fat table_disk 2 2 new_file (table_page, refl, λ i. refl)

walk_runs : walk small_fat table_disk 2 (pos 0) 2 ≡ (pos eeof, some 0xFFFFFFF)
unfolding walk table_entry get_word get_fat_ent_status
walk_runs = refl

follow_cluster_chain-ne-eeocc_example :
    (follow_cluster_chain small_fat table_disk 2 5 new_file).0 ≢ neg eeocc
follow_cluster_chain-ne-eeocc_example =
    follow_cluster_chain-ne-eeocc small_fat table_disk 2 5 new_file

-- "/a/bc/"
abbrev path_text : Memory
path_text a =
    if a == 0
    then 0x2F
    else if a == 1
    then 0x61
    else if a == 2
    then 0x2F
    else if a == 3
    then 0x62
    else if a == 4
    then 0x63
    else if a == 5
    then 0x2F
    else 0

abbrev ramp : ℕ → ℕ
ramp a = a % 256

abbrev ramp_disk : Disk
ramp_disk p = some (λ i. ramp (p * 512 + i))

small_fat-Sized : Sized small_fat
small_fat-Sized = record {
  order = 3;
  at_least = omega arith;
  at_most = omega arith;
  page_order = refl;
  page_mask = refl;
  clust_mask = refl;
}

new_file-Loaded : Loaded small_fat ramp_disk ramp small_fat-Sized (λ p. refl) new_file
new_file-Loaded = record { held = λ i h. refl; at_page = refl; clean = refl; inside = omega arith }

fat_file_read_lem_example :
    (m' : Memory) × (f' : File) × (fat_file_read small_fat ramp_disk 7 9 (λ a. 0) new_file
      ≡ ok (pos 0, 4, m', f'))
    × (((j : ℕ) → j < 4 → m' (7 + j) ≡ ramp (51200 + j))
        × ((q : ℕ) → (q < 7) ⊎ (11 ≤ q) → m' q ≡ 0))
    × (Loaded small_fat ramp_disk ramp small_fat-Sized (λ p. refl) f'
        × (f'.page * 512 + f'.offset ≡ 51204)
        × (f'.file_offset ≡ 4)
        × (f'.size ≡ 4))
fat_file_read_lem_example =
    fat_file_read_lem small_fat ramp_disk ramp small_fat-Sized (λ p. refl) 7 9 (λ a. 0) new_file
      new_file-Loaded (omega arith) (omega arith) (omega arith)

fat_lfn_cmp_frag_iff_example :
    (fat_lfn_cmp_frag path_text 5 (λ i. 0x62 + i) 2 3 ≡ true)
    ↔ (3 < 5) × (3 + 2 ≤ 5) × ((j : ℕ) → j < 2 → path_text (3 + j) ≡ 0x62 + j)
fat_lfn_cmp_frag_iff_example =
    fat_lfn_cmp_frag_iff path_text (λ i. 0x62 + i) 5 2 3 (omega arith) (omega arith)
