-- ===== src/Fat/Entries.antt =====
-- fs/fat.c: entries of a directory. Loops that follow the disk's contents run on fuel, and end in
-- `none` when it is used up.
use Prim.Native.Nat.{bit_and, bit_or}
use operating_system_cortex.Prelude.{
  ℕ, zero, suc, ◌+◌, ◌*◌, not, Option, none, some, ◌==◌, if◌then◌else◌,
}
use operating_system_cortex.Prelude.Bits.{◌<<<◌, u32, sub32}
use operating_system_cortex.Prelude.Int.{ℤ, pos, neg, is_neg, is_pos}
use operating_system_cortex.Prelude.Outcome.{Outcome, ok, error, panic, ◌>>=◌}
use operating_system_cortex.Bytes.{Memory, read_le16}
use operating_system_cortex.Fat.{Disk, edisk, enofile, eeof, Fat, File}
use operating_system_cortex.Fat.Chain.{fat_inc_file_ptr}
use operating_system_cortex.Fat.Names.{
  fat_sfn_compare_uni, fat_lfn_cmp_frag, fat_get_sfn_crc, fat_get_lfn_name,
}

abbrev pub Result : Type 0
Result = Option (Outcome (ℤ × File))

-- What follows a call whose result is in `err`.
abbrev pub and_then : Outcome (ℤ × File) → (ℤ → File → Result) → Result
and_then (ok (err, f)) next = next err f
and_then (error code) next = some (error code)
and_then panic next = some panic
and_then Outcome.undefined next = some Outcome.undefined

-- `if (err < 0) return err;`, and what follows.
abbrev pub unless_neg : (ℤ → File → Result) → ℤ → File → Result
unless_neg next err f = if is_neg err then some (ok (err, f)) else next err f

abbrev pub and_then_some : Result → (ℤ → File → Result) → Result
and_then_some none next = none
and_then_some (some r) next = and_then r next

-- The entry that the file pointer is at.
abbrev pub entry : File → ℕ → ℕ
entry f i = f.cache (f.offset + i)

unfoldable pub jump_entries : Fat → Disk → (entries : ℕ) → File → Outcome (ℤ × File)
jump_entries fat disk entries f =
    fat_inc_file_ptr fat disk (u32 (entries * 32)) f >>= λ (err, f'). ok (pos err, f')

-- The loop of `get_next_valid_entry`.
unfoldable pub next_used : (fuel : ℕ) → Fat → Disk → File → Result
next_used zero fat disk f = none
next_used (suc fuel) fat disk f = and_then (jump_entries fat disk 1 f) (
    unless_neg (λ err f'.
      let rest = next_used fuel fat disk f' in
      if entry f' 0 == 0x00
      then some (ok (pos eeof, f'))
      else if entry f' 0 == 0xE5
      then rest
      else some (ok (pos 0, f'))))

unfoldable pub get_next_valid_entry : (fuel : ℕ) → Fat → Disk → File → Result
get_next_valid_entry fuel fat disk f =
    if entry f 11 == 0x0F
    then and_then (jump_entries fat disk (bit_and (entry f 0) 0x1F) f)
        (unless_neg (λ err f'. next_used fuel fat disk f'))
    else next_used fuel fat disk f

-- The loop of `fat_compare_entry` over the entries of a long name, and what follows it.
unfoldable pub lfn_loop :
    (fuel : ℕ) → Fat → Disk → (file_name : ℕ → ℕ) → (len crc : ℕ) → File → Result
lfn_loop zero fat disk file_name len crc f = none
lfn_loop (suc fuel) fat disk file_name len crc f =
    let seq = bit_and (entry f 0) 0x1F in
    let (lfn_size, lfn) = fat_get_lfn_name (entry f) 0 (λ i. 0) in
    let matches = fat_lfn_cmp_frag file_name len lfn lfn_size (u32 (13 * sub32 seq 1)) in
    let mismatch : Result =
      and_then (jump_entries fat disk seq f) (unless_neg (λ err f'. some (ok (pos enofile, f')))) in
    let match : Result = and_then (jump_entries fat disk 1 f) (
      unless_neg (λ err f'.
        let rest = lfn_loop fuel fat disk file_name len crc f' in
        if not (seq == 1)
        then rest
        else if not (crc == fat_get_sfn_crc (entry f'))
        then some (ok (neg edisk, f'))
        else some (ok (pos 0, f')))) in
    if not matches then mismatch else match

unfoldable pub fat_compare_entry :
    (fuel : ℕ) → Fat → Disk → (file_name : ℕ → ℕ) → (len : ℕ) → File → Result
fat_compare_entry fuel fat disk file_name len f =
    if not (entry f 11 == 0x0F)
    then some (ok (if fat_sfn_compare_uni (entry f) file_name len then pos 0 else pos enofile, f))
    else if bit_and (entry f 0) 0x40 == 0
    then some panic
    else lfn_loop fuel fat disk file_name len (entry f 13) f

-- `rounds` is the fuel of the two functions that it calls.
unfoldable pub fat_dir_search :
    (fuel rounds : ℕ) → Fat → Disk → (file_name : ℕ → ℕ) → (len : ℕ) → File → Result
fat_dir_search zero rounds fat disk file_name len f = none
fat_dir_search (suc fuel) rounds fat disk file_name len f =
    and_then_some (fat_compare_entry rounds fat disk file_name len f) (λ err f1.
      let next : Result = and_then_some (get_next_valid_entry rounds fat disk f1) (
        unless_neg (λ err f2.
          let rest = fat_dir_search fuel rounds fat disk file_name len f2 in
          if is_pos eeof err then some (ok (pos enofile, f2)) else rest)) in
      if is_neg err
      then some (ok (err, f1))
      else if is_pos 0 err
      then some (ok (err, f1))
      else next)

unfoldable pub fat_dir_ent_to_clust : (dir_ent : ℕ) → Memory → ℕ
fat_dir_ent_to_clust dir_ent m =
    bit_or (bit_or 0 (read_le16 (dir_ent + 26) m)) (u32 (read_le16 (dir_ent + 20) m <<< 16))
