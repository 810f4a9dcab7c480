-- ===== src/Fat/Names.antt =====
-- fs/fat.c: file names, as they stand in a directory and in a path. A name is a function that gives
-- the character at each index.
pub mod Long
use Prim.Native.Nat.{bit_and}
use operating_system_cortex.Prelude.{
  ℕ, zero, suc, ◌+◌, ◌-◌, ◌*◌, Bool, true, false, ◌&&◌, not, List, [], ◌∷◌, ◌==◌, ltb, leb,
  if◌then◌else◌,
}
use operating_system_cortex.Prelude.Bits.{◌<<<◌, ◌>>>◌, u8, sub32}
use operating_system_cortex.Prelude.Sets.{has}
use operating_system_cortex.Bytes.{Memory, put}

unfoldable pub fat_to_upper : (a : ℕ) → ℕ
fat_to_upper a = if leb a 0x7A && leb 0x61 a then a - 32 else a

unfoldable pub fat_to_lower : (a : ℕ) → ℕ
fat_to_lower a = if leb a 0x5A && leb 0x41 a then a + 32 else a

abbrev pub illegal_sfn_chars : List ℕ
illegal_sfn_chars =
    0x22 ∷ 0x2A ∷ 0x2B ∷ 0x2C ∷ 0x2E ∷ 0x2F ∷ 0x3A ∷ 0x3B ∷ 0x3C ∷ 0x3D ∷ 0x3E ∷ 0x3F ∷ 0x5B ∷ 0x5C
    ∷ 0x5D ∷ 0x7C ∷ []

unfoldable pub is_sfn_char_valid : (sfn_char : ℕ) → Bool
is_sfn_char_valid sfn_char =
    if has sfn_char illegal_sfn_chars then false else if ltb sfn_char 0x20 then false else true

unfoldable pub fat_sfn_cmp_char_uni : (sfn_char file_char : ℕ) → Bool
fat_sfn_cmp_char_uni sfn_char file_char =
    if not (is_sfn_char_valid sfn_char)
    then false
    else if sfn_char == 0x20
    then false
    else fat_to_upper file_char == fat_to_upper sfn_char

-- `for (; i < n; i++) if (sfn[i] != ' ') return 0;`, with `left` rounds to go.
unfoldable pub all_spaces : (left i : ℕ) → (sfn : ℕ → ℕ) → Bool
all_spaces zero i sfn = true
all_spaces (suc left) i sfn =
    let rest = all_spaces left (suc i) sfn in if not (sfn i == 0x20) then false else rest

-- A loop of `fat_sfn_compare_uni` ends with the function, or stops at an index of `sfn`.
pub data Scan : Type 0 where
  returned : Bool → Scan
  stopped : (sfn_index : ℕ) → Scan

-- Its first loop, with `left` rounds to go.
unfoldable pub base_loop : (left i len : ℕ) → (sfn file_name : ℕ → ℕ) → Scan
base_loop zero i len sfn file_name = stopped i
base_loop (suc left) i len sfn file_name =
    let rest = base_loop left (suc i) len sfn file_name in
    if leb len i
    then returned (all_spaces (suc left) i sfn)
    else if file_name i == 0x2E
    then stopped i
    else if not (fat_sfn_cmp_char_uni (sfn i) (file_name i))
    then returned false
    else rest

-- The loop over the extension.
unfoldable pub extension_loop : (left i name_index len : ℕ) → (sfn file_name : ℕ → ℕ) → Bool
extension_loop zero i name_index len sfn file_name = true
extension_loop (suc left) i name_index len sfn file_name =
    let rest = extension_loop left (suc i) (suc name_index) len sfn file_name in
    if leb len name_index
    then all_spaces (suc left) i sfn
    else if not (fat_sfn_cmp_char_uni (sfn i) (file_name name_index))
    then false
    else rest

-- What follows the first loop.
unfoldable pub compare_rest : Scan → (len : ℕ) → (sfn file_name : ℕ → ℕ) → Bool
compare_rest (returned b) len sfn file_name = b
compare_rest (stopped i) len sfn file_name =
    let name_index = if i == 7 then i + 2 else i + 1 in
    if leb len (i + 1)
    then false
    else if i == 7 && not (file_name (i + 1) == 0x2E)
    then false
    else if not (all_spaces (8 - i) i sfn)
    then false
    else extension_loop 3 8 name_index len sfn file_name

unfoldable pub fat_sfn_compare_uni : (sfn file_name : ℕ → ℕ) → (len : ℕ) → Bool
fat_sfn_compare_uni sfn file_name len =
    compare_rest (base_loop 8 0 len sfn file_name) len sfn file_name

-- The loop of `fat_lfn_cmp_frag` from `i` on, and the test behind it.
unfoldable pub frag_loop : (left i len : ℕ) → (file_name frag : ℕ → ℕ) → Bool
frag_loop zero i len file_name frag = true
frag_loop (suc left) i len file_name frag =
    let rest = frag_loop left (suc i) len file_name frag in
    if leb len i then false else if not (file_name i == frag i) then false else rest

unfoldable pub fat_lfn_cmp_frag :
    (file_name : ℕ → ℕ) (len : ℕ) (frag : ℕ → ℕ) (frag_len offset : ℕ) → Bool
fat_lfn_cmp_frag file_name len frag frag_len offset =
    if ltb (sub32 len 1) offset
    then false
    else frag_loop frag_len 0 (sub32 len offset) (λ i. file_name (offset + i)) frag

unfoldable pub crc_loop : (left i crc : ℕ) → (sfn : ℕ → ℕ) → ℕ
crc_loop zero i crc sfn = crc
crc_loop (suc left) i crc sfn =
    crc_loop left (suc i) (u8 ((bit_and crc 1 <<< 7) + (crc >>> 1) + sfn i)) sfn

unfoldable pub fat_get_sfn_crc : (sfn : ℕ → ℕ) → ℕ
fat_get_sfn_crc sfn = crc_loop 11 0 0 sfn

-- The inner loop of `fat_get_lfn_name`: whether it met the end of the name, `cnt`, and the buffer.
unfoldable pub lfn_part :
    (size offset cnt : ℕ) → (lfn : ℕ → ℕ) → (buffer : ℕ) → Memory → Bool × ℕ × Memory
lfn_part zero offset cnt lfn buffer m = (false, cnt, m)
lfn_part (suc size) offset cnt lfn buffer m =
    let rest =
      lfn_part size (offset + 2) (suc cnt) lfn buffer (put (buffer + cnt) (lfn offset) m) in
    if lfn offset == 0 then (true, cnt, m) else rest

abbrev pub lfn_index : List (ℕ × ℕ)
lfn_index = (5, 1) ∷ (6, 14) ∷ (2, 28) ∷ []

unfoldable pub lfn_parts :
    List (ℕ × ℕ) → (cnt : ℕ) → (lfn : ℕ → ℕ) → (buffer : ℕ) → Memory → ℕ × Memory
lfn_parts [] cnt lfn buffer m = (cnt, m)
lfn_parts ((size, offset) ∷ parts) cnt lfn buffer m =
    let (ended, cnt', m') = lfn_part size offset cnt lfn buffer m in
    let rest = lfn_parts parts cnt' lfn buffer m' in if ended then (cnt', m') else rest

unfoldable pub fat_get_lfn_name : (lfn : ℕ → ℕ) → (buffer : ℕ) → Memory → ℕ × Memory
fat_get_lfn_name lfn buffer m = lfn_parts lfn_index 0 lfn buffer m

-- `fat_sfn_to_file_name`: its first loop gives `i`.
unfoldable pub base_name : (left i : ℕ) → (sfn : ℕ → ℕ) → (buffer : ℕ) → Memory → ℕ × Memory
base_name zero i sfn buffer m = (i, m)
base_name (suc left) i sfn buffer m =
    let rest = base_name left (suc i) sfn buffer (put (buffer + i) (fat_to_lower (sfn i)) m) in
    if sfn i == 0x20 then (i, m) else rest

-- Its second loop gives `j`.
unfoldable pub extension_name : (left j i : ℕ) → (sfn : ℕ → ℕ) → (buffer : ℕ) → Memory → ℕ × Memory
extension_name zero j i sfn buffer m = (j, m)
extension_name (suc left) j i sfn buffer m =
    let rest =
      extension_name left (suc j) i sfn buffer
        (put (buffer + i + j + 1) (fat_to_lower (sfn (8 + j))) m) in
    if sfn (8 + j) == 0x20 then (j, m) else rest

unfoldable pub fat_sfn_to_file_name : (sfn : ℕ → ℕ) → (buffer : ℕ) → Memory → Memory
fat_sfn_to_file_name sfn buffer m =
    let (i, m1) = base_name 8 0 sfn buffer m in
    let (j, m2) = extension_name 3 0 i sfn buffer m1 in
    let m3 = if not (j == 0) then put (buffer + i) 0x2E m2 else m2 in
    put (buffer + i + j + (if not (j == 0) then 1 else 0)) 0 m3
