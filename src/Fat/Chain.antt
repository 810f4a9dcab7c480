-- ===== src/Fat/Chain.antt =====
-- fs/fat.c: the two caches of a file, the chain of its clusters, and the movement of its pointer.
pub mod Table
use Prim.Native.Nat.{bit_and}
use operating_system_cortex.Prelude.{
  ℕ, zero, suc, ◌+◌, ◌-◌, ◌*◌, ◌^◌, Bool, true, false, ◌&&◌, not, Option, none, some, ◌==◌, ltb,
  leb, if◌then◌else◌,
}
use operating_system_cortex.Prelude.Bits.{◌<<<◌, ◌>>>◌, u32, sub32, not32}
use operating_system_cortex.Prelude.Int.{ℤ, pos, neg, is_neg, is_pos, u8_of}
use operating_system_cortex.Prelude.Outcome.{Outcome, ok, panic, ◌>>=◌}
use operating_system_cortex.Fat.{Disk, edisk, eeof, eeocc, fat_entry_mask, Fat, File, words_of}

unfoldable pub cache_fat_page : Disk → (glob_page : ℕ) → File → ℤ × File
cache_fat_page disk glob_page f =
    if glob_page == f.fat_cache_page then (pos 0, f) else elim (disk glob_page) [
      | none ↦ (neg edisk, f)
      | some m ↦ (pos 0, record f { fat_words = words_of m; fat_cache_page = glob_page })
    ]

unfoldable pub get_fat_ent_status : (fat_entry : ℕ) → ℤ
get_fat_ent_status fat_entry =
    let e = bit_and fat_entry fat_entry_mask in
    if leb 2 e && leb e 0xFFFFFEF
    then pos 0
    else if leb 0xFFFFFF8 e && leb e 0xFFFFFFF
    then pos eeof
    else neg edisk

-- The page of the table that has a cluster's entry, and the entry's place in it.
abbrev pub ent_page : Fat → (clust : ℕ) → ℕ
ent_page fat clust = u32 (fat.fat_start + (clust >>> fat.fat_ent_order))

abbrev pub ent_index : Fat → (clust : ℕ) → ℕ
ent_index fat clust = bit_and clust fat.fat_ent_mask

-- The loop of `follow_cluster_chain`, with `left` rounds to go: what is returned, and what is
-- written to `*clust_ptr`, if it is.
unfoldable pub chain_loop :
    Fat → Disk → (left : ℕ) (err : ℤ) (clust : ℕ) → File → ℤ × Option ℕ × File
chain_loop fat disk zero err clust f = (err, some clust, f)
chain_loop fat disk (suc left) err clust f =
    let cached = cache_fat_page disk (ent_page fat clust) f in
    let ent = bit_and (cached.1.fat_words (ent_index fat clust)) fat_entry_mask in
    let status = get_fat_ent_status ent in
    let rest = chain_loop fat disk left status ent cached.1 in
    if is_neg cached.0
    then (cached.0, none, cached.1)
    else if is_neg status
    then (status, none, cached.1)
    else if is_pos eeocc status && ltb 0 left
    then (neg eeocc, none, cached.1)
    else rest

unfoldable pub follow_cluster_chain : Fat → Disk → (clust count : ℕ) → File → ℤ × Option ℕ × File
follow_cluster_chain fat disk clust count f = chain_loop fat disk count (pos 0) clust f

unfoldable pub fat_cache : Disk → File → Outcome (ℤ × File)
fat_cache disk f =
    if f.page == f.cache_page
    then ok (pos 0, f)
    else if not (f.cache_dirty == 0)
    then panic
    else elim (disk f.page) [
      | none ↦ panic
      | some m ↦ ok (pos 0, record f { cache = m; cache_page = f.page })
    ]

-- The end of `fat_inc_file_ptr` behind a move to another page.
unfoldable pub resolve_offset : Fat → Disk → File → Outcome (ℕ × File)
resolve_offset fat disk f =
    fat_cache disk (record f { offset = bit_and f.offset fat.page_mask }) >>= λ (err, f').
    ok (if is_neg err then u8_of err else 0, f')

-- The move to a page of another cluster, `curr_clust` being what `follow_cluster_chain` wrote.
abbrev pub to_cluster : Fat → (rel_page page_inc curr_clust : ℕ) → File → File
to_cluster fat rel_page page_inc curr_clust f =
    let next_clust_offset = bit_and (u32 (rel_page + page_inc)) fat.clust_mask in
    let new_clust_page =
      u32 (fat.data_start + u32 (sub32 curr_clust fat.root_clust_num <<< fat.clust_mask)) in
    record f { page = u32 (new_clust_page + next_clust_offset) }

abbrev pub next_cluster :
    Fat → Disk → (rel_page page_inc : ℕ) → ℤ × Option ℕ × File → Outcome (ℕ × File)
next_cluster fat disk rel_page page_inc (err, none, f) = ok (u8_of err, f)
next_cluster fat disk rel_page page_inc (err, some curr_clust, f) =
    if is_neg err
    then ok (u8_of err, f)
    else resolve_offset fat disk (to_cluster fat rel_page page_inc curr_clust f)

-- `fat_inc_file_ptr`, whose result is a `u8`. A shift by 32 or more is undefined.
unfoldable pub fat_inc_file_ptr : Fat → Disk → (bytes : ℕ) → File → Outcome (ℕ × File)
fat_inc_file_ptr fat disk bytes f =
    let f1 = record f {
      file_offset = u32 (f.file_offset + bytes);
      offset = u32 (f.offset + bytes);
    } in
    let page_inc = f1.offset >>> fat.page_order in
    let rel_page = sub32 f1.page fat.data_start in
    let curr_clust = u32 ((rel_page >>> fat.clust_mask) + fat.root_clust_num) in
    let clust_cnt = u32 (bit_and rel_page fat.clust_mask + page_inc) >>> fat.clust_mask in
    if bit_and f1.offset (not32 fat.page_mask) == 0
    then ok (0, f1)
    else if leb 32 fat.clust_mask
    then Outcome.undefined
    else if not (clust_cnt == 0)
    then next_cluster fat disk rel_page page_inc
        (follow_cluster_chain fat disk curr_clust clust_cnt f1)
    else resolve_offset fat disk (record f1 { page = u32 (f1.page + page_inc) })
