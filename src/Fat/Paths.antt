-- ===== src/Fat/Paths.antt =====
-- fs/fat.c: paths, files and directories that are opened, and what is read from them.
pub mod Fragments
pub mod Reading
use Prim.Native.Nat.{bit_and}
use operating_system_cortex.Prelude.{
  ℕ, zero, suc, ◌+◌, ◌-◌, ◌*◌, Bool, true, false, ◌&&◌, not, Option, none, some, List, [], ◌∷◌,
  ◌++◌, ◌==◌, ltb, leb, if◌then◌else◌,
}
use operating_system_cortex.Prelude.Bits.{◌<<<◌, ◌>>>◌, u8, u32, sub32}
use operating_system_cortex.Prelude.Int.{ℤ, pos, neg, is_neg, is_pos}
use operating_system_cortex.Prelude.Outcome.{Outcome, ok, error, panic, ◌>>=◌}
use operating_system_cortex.Bytes.{Memory, put, read_le16, read_le32}
use operating_system_cortex.Net.Arp.{enoent}
use operating_system_cortex.Fat.{Disk, edisk, enofile, eeof, Fat, File}
use operating_system_cortex.Fat.Chain.{fat_cache, fat_inc_file_ptr}
use operating_system_cortex.Fat.Names.{fat_get_sfn_crc, fat_get_lfn_name, fat_sfn_to_file_name}
use operating_system_cortex.Fat.Entries.{
  Result, and_then, and_then_some, unless_neg, entry, jump_entries, fat_dir_search,
  fat_dir_ent_to_clust,
}

-- `while ((curr_frag < end) && (*curr_frag != '/'))`, with `left` characters before the end: how
-- many rounds it makes.
unfoldable pub till_slash : (left curr_frag : ℕ) → Memory → ℕ
till_slash zero curr_frag m = 0
till_slash (suc left) curr_frag m =
    let rest = till_slash left (suc curr_frag) m in if m curr_frag == 0x2F then 0 else suc rest

-- `get_next_path_frag`: the length, and `*frag`.
unfoldable pub get_next_path_frag : (path size frag : ℕ) → Memory → ℕ × ℕ
get_next_path_frag path size frag m =
    let end_ = path + size in
    let curr_frag = frag + till_slash (end_ - frag) frag m + 1 in
    if leb end_ curr_frag then (0, frag) else (till_slash (end_ - curr_frag) curr_frag m, curr_frag)

unfoldable pub set_cluster : Fat → Disk → (clust : ℕ) → File → Outcome (ℤ × File)
set_cluster fat disk clust f =
    if ltb clust fat.root_clust_num
    then ok (neg edisk, f)
    else fat_cache disk (record f {
      page = u32 (u32 ((clust - fat.root_clust_num) <<< fat.clust_order) + fat.data_start);
      offset = 0;
    })

unfoldable pub dir_set_root : Fat → Disk → File → Outcome (ℤ × File)
dir_set_root fat disk f =
    fat_cache disk (record f { file_offset = 0; offset = 0; page = fat.data_start })

unfoldable pub dir_is_root : Fat → File → Bool
dir_is_root fat f = f.page == fat.data_start && f.offset == 0

-- The part of the loop of `fat_follow_path` behind the search.
unfoldable pub enter : Fat → Disk → File → Outcome (ℤ × File)
enter fat disk f =
    let f' = record f { file_offset = 0; size = read_le32 (f.offset + 28) f.cache } in
    let clust = fat_dir_ent_to_clust f.offset f.cache in
    if entry f 0 == 0x2E && entry f 1 == 0x2E && clust == 0
    then dir_set_root fat disk f'
    else set_cluster fat disk clust f'

-- `fat_follow_path` from `frag` on; `fuel` is for its own loop, `rounds` for those it calls.
unfoldable pub follow_frags :
    (fuel rounds : ℕ) → Fat → Disk → (path size frag : ℕ) → Memory → File → Result
follow_frags zero rounds fat disk path size frag m f = none
follow_frags (suc fuel) rounds fat disk path size frag m f =
    let (len, frag') = get_next_path_frag path size frag m in
    let found : Result =
      and_then_some (fat_dir_search rounds rounds fat disk (λ i. m (frag' + i)) len f) (λ err f1.
        let next : Result =
          and_then (enter fat disk f1)
            (unless_neg (λ err f2. follow_frags fuel rounds fat disk path size frag' m f2)) in
        if is_pos 0 err then next else some (ok (err, f1))) in
    if len == 0 then some (ok (pos 0, f)) else found

unfoldable pub fat_follow_path :
    (fuel rounds : ℕ) → Fat → Disk → (path size : ℕ) → Memory → File → Result
fat_follow_path fuel rounds fat disk path size m f =
    follow_frags fuel rounds fat disk path size path m f

-- `if (err == ENOFILE) return -err;`, and what follows.
abbrev pub unless_no_file : (ℤ → File → Result) → ℤ → File → Result
unless_no_file next err f = if is_pos enofile err then some (ok (neg enofile, f)) else next err f

unfoldable pub fat_file_open :
    (fuel rounds : ℕ) → Fat → Disk → (path size : ℕ) → Memory → File → Result
fat_file_open fuel rounds fat disk path size m f = and_then (dir_set_root fat disk f) (λ err f1.
    let rest : Result =
      and_then_some (fat_follow_path fuel rounds fat disk path size m f1)
        (unless_neg (unless_no_file (λ err f2. some (ok (pos 0, f2))))) in
    if is_pos 0 err then rest else some (ok (err, f1)))

unfoldable pub fat_dir_open :
    (fuel rounds : ℕ) → Fat → Disk → (path size : ℕ) → Memory → File → Result
fat_dir_open fuel rounds fat disk path size m f = and_then (dir_set_root fat disk f) (
    unless_neg (λ err f1. and_then_some (fat_follow_path fuel rounds fat disk path size m f1) (
      unless_neg (
        unless_no_file (λ err f2.
          if bit_and (entry f2 11) 0x10 == 0 && not (dir_is_root fat f2)
          then some (ok (neg enofile, f2))
          else some (ok (pos 0, f2)))))))

-- The loop of `fat_file_read` with `left` rounds to go, and `i` done: what it writes to `data`
-- goes to the memory, and the count, the result and the file are given.
unfoldable pub read_loop :
    Fat → Disk → (left i buf : ℕ) (err : ℤ) → Memory → File → Outcome (ℤ × ℕ × Memory × File)
read_loop fat disk zero i buf err m f = ok (err, i, m, f)
read_loop fat disk (suc left) i buf err m f =
    let m' = put (buf + i) (entry f 0) m in
    fat_inc_file_ptr fat disk 1 f >>= λ (err', f').
    let rest = read_loop fat disk left (suc i) buf (pos err') m' f' in
    if leb f'.size f'.file_offset
    then ok (pos err', suc i, m', f')
    else if not (err' == 0)
    then ok (pos err', suc i, m', f')
    else rest

unfoldable pub fat_file_read :
    Fat → Disk → (buf req_cnt : ℕ) → Memory → File → Outcome (ℤ × ℕ × Memory × File)
fat_file_read fat disk buf req_cnt m f =
    if f.size == 0 then ok (neg eeof, 0, m, f) else read_loop fat disk req_cnt 0 buf (pos 0) m f
