-- ===== src/Bytes.antt =====
-- lib/mem.c: filling, copying and comparing memory, and words read from and stored to bytes in
-- either order. Memory gives the byte at each address; addresses do not wrap.
pub mod Regions
pub mod Words
mod Tests
use Prim.Native.Nat.{bit_and, bit_or}
use operating_system_cortex.Prelude.{
  ℕ, zero, suc, ◌+◌, ◌-◌, ◌*◌, ◌/◌, ◌^◌, ◌%◌, Bool, ◌==◌, if◌then◌else◌,
}
use operating_system_cortex.Prelude.Bits.{◌<<<◌, ◌>>>◌, u8, u16, u32, u64, not32}

abbrev pub Memory : Type 0
Memory = ℕ → ℕ

-- `*ptr = byte`
abbrev pub put : ℕ → ℕ → Memory → Memory
put p v m q = if q == p then v else m q

-- `*(u32 *)ptr = word` and its read, little-endian.
unfoldable pub put_word : ℕ → ℕ → Memory → Memory
put_word p w m =
    put (p + 3) (u8 (w >>> 24))
      (put (p + 2) (u8 (w >>> 16)) (put (p + 1) (u8 (w >>> 8)) (put p (u8 w) m)))

unfoldable pub get_word : ℕ → Memory → ℕ
get_word p m = m p + m (p + 1) * 2 ^ 8 + m (p + 2) * 2 ^ 16 + m (p + 3) * 2 ^ 24

-- `while (wsize--) *ptr_w++ = wfill;`: the memory and the pointer behind the last word.
set_words : ℕ → (ptr wfill : ℕ) → Memory → Memory
set_words zero ptr wfill m = m
set_words (suc wsize) ptr wfill m = set_words wsize (ptr + 4) wfill (put_word ptr wfill m)

set_bytes : ℕ → (ptr fill : ℕ) → Memory → Memory
set_bytes zero ptr fill m = m
set_bytes (suc bsize) ptr fill m = set_bytes bsize (ptr + 1) fill (put ptr fill m)

-- The number of whole words, and of bytes behind them.
abbrev pub word_count : ℕ → ℕ
word_count size = bit_and size (not32 (4 - 1)) >>> 2

abbrev pub byte_count : ℕ → ℕ
byte_count size = bit_and size (4 - 1)

unfoldable pub mem_set : (ptr fill size : ℕ) → Memory → Memory
unfolding set_words set_bytes
mem_set ptr fill size m =
    let wfill =
      bit_or (bit_or (bit_or (u32 (fill <<< 24)) (u32 (fill <<< 16))) (u32 (fill <<< 8))) fill in
    let wsize = word_count size in
    set_bytes (byte_count size) (ptr + 4 * wsize) fill (set_words wsize ptr wfill m)

copy_words : ℕ → (src dest : ℕ) → Memory → Memory
copy_words zero src dest m = m
copy_words (suc wsize) src dest m =
    copy_words wsize (src + 4) (dest + 4) (put_word dest (get_word src m) m)

copy_bytes : ℕ → (src dest : ℕ) → Memory → Memory
copy_bytes zero src dest m = m
copy_bytes (suc bsize) src dest m = copy_bytes bsize (src + 1) (dest + 1) (put dest (m src) m)

unfoldable pub mem_copy : (src dest size : ℕ) → Memory → Memory
unfolding copy_words copy_bytes
mem_copy src dest size m =
    let wsize = word_count size in
    copy_bytes (byte_count size) (src + 4 * wsize) (dest + 4 * wsize) (copy_words wsize src dest m)

-- 1 if the regions are equal, 0 at the first byte that differs.
unfoldable pub mem_cmp : (src1 src2 size : ℕ) → Memory → ℕ
mem_cmp src1 src2 zero m = 1
mem_cmp src1 src2 (suc size) m =
    let rest = mem_cmp (src1 + 1) (src2 + 1) size m in if m src1 == m src2 then rest else 0

-- `val |= src[i] << k` for each byte in turn.
unfoldable pub read_le16 : ℕ → Memory → ℕ
read_le16 p m = bit_or (bit_or 0 (m p <<< 0)) (m (p + 1) <<< 8)

unfoldable pub read_le32 : ℕ → Memory → ℕ
read_le32 p m =
    bit_or (bit_or (bit_or (bit_or 0 (m p <<< 0)) (m (p + 1) <<< 8)) (m (p + 2) <<< 16))
      (m (p + 3) <<< 24)

unfoldable pub read_le64 : ℕ → Memory → ℕ
read_le64 p m =
    let v1 = bit_or (bit_or 0 (m p <<< 0)) (m (p + 1) <<< 8) in
    let v3 = bit_or (bit_or v1 (m (p + 2) <<< 16)) (m (p + 3) <<< 24) in
    let v5 = bit_or (bit_or v3 (m (p + 4) <<< 32)) (m (p + 5) <<< 40) in
    bit_or (bit_or v5 (m (p + 6) <<< 48)) (m (p + 7) <<< 56)

unfoldable pub read_be16 : ℕ → Memory → ℕ
read_be16 p m = bit_or (bit_or 0 (m p <<< 8)) (m (p + 1) <<< 0)

unfoldable pub read_be32 : ℕ → Memory → ℕ
read_be32 p m =
    bit_or (bit_or (bit_or (bit_or 0 (m p <<< 24)) (m (p + 1) <<< 16)) (m (p + 2) <<< 8))
      (m (p + 3) <<< 0)

unfoldable pub read_be64 : ℕ → Memory → ℕ
read_be64 p m =
    let v1 = bit_or (bit_or 0 (m p <<< 56)) (m (p + 1) <<< 48) in
    let v3 = bit_or (bit_or v1 (m (p + 2) <<< 40)) (m (p + 3) <<< 32) in
    let v5 = bit_or (bit_or v3 (m (p + 4) <<< 24)) (m (p + 5) <<< 16) in
    bit_or (bit_or v5 (m (p + 6) <<< 8)) (m (p + 7) <<< 0)

unfoldable pub store_be16 : (val ptr : ℕ) → Memory → Memory
store_be16 val ptr m =
    put (ptr + 1) (bit_and (val >>> 0) 0xff) (put ptr (bit_and (val >>> 8) 0xff) m)

unfoldable pub store_be32 : (val ptr : ℕ) → Memory → Memory
store_be32 val ptr m = put (ptr + 3) (bit_and (val >>> 0) 0xff) (
    put (ptr + 2) (bit_and (val >>> 8) 0xff)
      (put (ptr + 1) (bit_and (val >>> 16) 0xff) (put ptr (bit_and (val >>> 24) 0xff) m)))
