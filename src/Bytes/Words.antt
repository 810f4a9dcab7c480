-- ===== src/Bytes/Words.antt =====
-- Words in bytes: what the reads give, and that reading undoes storing.
use Prim.Native.Nat.{bit_and, bit_or}
use operating_system_cortex.Prelude.{
  ℕ, zero, suc, ◌+◌, ◌*◌, ◌/◌, ◌%◌, ◌^◌, ◌<◌, ◌≤◌, ◌≡◌, ◌⊎◌, ◌∙◌, arith,
}
use native.Mathlib.Nat.{add-zero}
use operating_system_cortex.Prelude.Bits.{
  ◌<<<◌, ◌>>>◌, bit_or-shift, shift-bit_or, zero-bit_or, bit_and-mask, bit_or-below,
}
use operating_system_cortex.Bytes.{
  Memory, read_le16, read_le32, read_le64, read_be16, read_be32, read_be64, store_be16, store_be32,
}

-- Every byte of the memory fits eight bits.
abbrev pub IsBytes : Memory → Type 0
IsBytes m = (p : ℕ) → m p < 2 ^ 8

pub byte_mask : (a : ℕ) → bit_and a 0xff ≡ a % 2 ^ 8
byte_mask a = bit_and-mask 8 a

-- Fields `|`-ed together from the lowest up.
module _ (a b c d : ℕ) (ha : a < 2 ^ 8) (hb : b < 2 ^ 8) (hc : c < 2 ^ 8) where
  or_two : bit_or (bit_or 0 (a <<< 0)) (b <<< 8) ≡ a + b * 2 ^ 8
  or_two = let e : a <<< 0 ≡ a = omega arith in rw (zero-bit_or, e) (bit_or-shift 8 b a ha)

  or_four :
      bit_or (bit_or (bit_or (bit_or 0 (a <<< 0)) (b <<< 8)) (c <<< 16)) (d <<< 24)
      ≡ a + b * 2 ^ 8 + c * 2 ^ 16 + d * 2 ^ 24
  or_four =
      rw (or_two, bit_or-shift 16 c (a + b * 2 ^ 8) (omega arith))
        (bit_or-shift 24 d (a + b * 2 ^ 8 + c * 2 ^ 16) (omega arith))

-- Fields `|`-ed together from the highest down.
module _ (a b c d : ℕ) (hb : b < 2 ^ 8) (hc : c < 2 ^ 8) (hd : d < 2 ^ 8) where
  or_two_down : bit_or (bit_or 0 (a <<< 24)) (b <<< 16) ≡ a * 2 ^ 24 + b * 2 ^ 16
  or_two_down =
      rw zero-bit_or (bit_or-below 24 (a * 2 ^ 24) (b * 2 ^ 16) (omega arith) (omega arith))

  or_four_down :
      bit_or (bit_or (bit_or (bit_or 0 (a <<< 24)) (b <<< 16)) (c <<< 8)) (d <<< 0)
      ≡ a * 2 ^ 24 + b * 2 ^ 16 + c * 2 ^ 8 + d
  or_four_down =
      let e : d <<< 0 ≡ d = omega arith in
      rw
        (
          or_two_down,
          bit_or-below 16 (a * 2 ^ 24 + b * 2 ^ 16) (c * 2 ^ 8) (omega arith) (omega arith),
          e,
        )
        (bit_or-below 8 (a * 2 ^ 24 + b * 2 ^ 16 + c * 2 ^ 8) d (omega arith) (omega arith))

module _ {m : Memory} (p : ℕ) (b : IsBytes m) where
  read_le16-sum : read_le16 p m ≡ m p + m (p + 1) * 2 ^ 8
  unfolding read_le16
  read_le16-sum = or_two (m p) (m (p + 1)) 0 0 (b p) (b (p + 1)) (omega arith)

  read_be16-sum : read_be16 p m ≡ m p * 2 ^ 8 + m (p + 1)
  unfolding read_be16
  read_be16-sum =
      let e : m (p + 1) <<< 0 ≡ m (p + 1) = omega arith in
      rw (zero-bit_or, e) (shift-bit_or 8 (m p) (m (p + 1)) (b (p + 1)))

  read_le32-sum : read_le32 p m ≡ m p + m (p + 1) * 2 ^ 8 + m (p + 2) * 2 ^ 16 + m (p + 3) * 2 ^ 24
  unfolding read_le32
  read_le32-sum = or_four (m p) (m (p + 1)) (m (p + 2)) (m (p + 3)) (b p) (b (p + 1)) (b (p + 2))

  read_be32-sum : read_be32 p m ≡ m p * 2 ^ 24 + m (p + 1) * 2 ^ 16 + m (p + 2) * 2 ^ 8 + m (p + 3)
  unfolding read_be32
  read_be32-sum =
      or_four_down (m p) (m (p + 1)) (m (p + 2)) (m (p + 3)) (b (p + 1)) (b (p + 2)) (b (p + 3))

  read_le64-sum :
      read_le64 p m
      ≡ m p
        + m (p + 1) * 2 ^ 8
        + m (p + 2) * 2 ^ 16
        + m (p + 3) * 2 ^ 24
        + m (p + 4) * 2 ^ 32
        + m (p + 5) * 2 ^ 40
        + m (p + 6) * 2 ^ 48
        + m (p + 7) * 2 ^ 56
  unfolding read_le64
  read_le64-sum =
      rw
        (
          or_four (m p) (m (p + 1)) (m (p + 2)) (m (p + 3)) (b p) (b (p + 1)) (b (p + 2)),
          bit_or-shift 32 (m (p + 4)) v3 f4,
          bit_or-shift 40 (m (p + 5)) v4 f5,
          bit_or-shift 48 (m (p + 6)) v5 f6,
        )
        (bit_or-shift 56 (m (p + 7)) v6 f7)
    where
      v3 : ℕ
      v3 = m p + m (p + 1) * 2 ^ 8 + m (p + 2) * 2 ^ 16 + m (p + 3) * 2 ^ 24

      v4 : ℕ
      v4 = v3 + m (p + 4) * 2 ^ 32

      v5 : ℕ
      v5 = v4 + m (p + 5) * 2 ^ 40

      v6 : ℕ
      v6 = v5 + m (p + 6) * 2 ^ 48

      f4 : v3 < 2 ^ 32
      f4 = omega (arith, b p, b (p + 1), b (p + 2), b (p + 3))

      f5 : v4 < 2 ^ 40
      f5 = omega (arith, f4, b (p + 4))

      f6 : v5 < 2 ^ 48
      f6 = omega (arith, f5, b (p + 5))

      f7 : v6 < 2 ^ 56
      f7 = omega (arith, f6, b (p + 6))

  read_be64-sum :
      read_be64 p m
      ≡ m p * 2 ^ 56
        + m (p + 1) * 2 ^ 48
        + m (p + 2) * 2 ^ 40
        + m (p + 3) * 2 ^ 32
        + m (p + 4) * 2 ^ 24
        + m (p + 5) * 2 ^ 16
        + m (p + 6) * 2 ^ 8
        + m (p + 7)
  unfolding read_be64
  read_be64-sum =
      let e : m (p + 7) <<< 0 ≡ m (p + 7) = omega arith in
      rw
        (
          zero-bit_or,
          e,
          bit_or-below 56 (m p * 2 ^ 56) (m (p + 1) * 2 ^ 48) (omega arith)
              (omega (arith, b (p + 1))),
          bit_or-below 48 v1 (m (p + 2) * 2 ^ 40) (omega arith) (omega (arith, b (p + 2))),
          bit_or-below 40 v2 (m (p + 3) * 2 ^ 32) (omega arith) (omega (arith, b (p + 3))),
          bit_or-below 32 v3 (m (p + 4) * 2 ^ 24) (omega arith) (omega (arith, b (p + 4))),
          bit_or-below 24 v4 (m (p + 5) * 2 ^ 16) (omega arith) (omega (arith, b (p + 5))),
          bit_or-below 16 v5 (m (p + 6) * 2 ^ 8) (omega arith) (omega (arith, b (p + 6))),
        )
        (bit_or-below 8 v6 (m (p + 7)) (omega arith) (b (p + 7)))
    where
      v1 : ℕ
      v1 = m p * 2 ^ 56 + m (p + 1) * 2 ^ 48

      v2 : ℕ
      v2 = v1 + m (p + 2) * 2 ^ 40

      v3 : ℕ
      v3 = v2 + m (p + 3) * 2 ^ 32

      v4 : ℕ
      v4 = v3 + m (p + 4) * 2 ^ 24

      v5 : ℕ
      v5 = v4 + m (p + 5) * 2 ^ 16

      v6 : ℕ
      v6 = v5 + m (p + 6) * 2 ^ 8

-- The bytes from `p` on as the digits of one number, the lowest first and the highest first.
abbrev pub little : ℕ → ℕ → Memory → ℕ
little zero p m = 0
little (suc n) p m = little n p m + m (p + n) * 2 ^ (8 * n)

abbrev pub big : ℕ → ℕ → Memory → ℕ
big zero p m = 0
big (suc n) p m = big n p m * 2 ^ 8 + m (p + n)

-- The six reads give the number whose digits to the base 256 are the bytes, in the order of their
-- names.
pub reads-digits :
    {m : Memory} (p : ℕ)
    → IsBytes m
    → (read_le16 p m ≡ little 2 p m)
      × (read_le32 p m ≡ little 4 p m)
      × (read_le64 p m ≡ little 8 p m)
      × (read_be16 p m ≡ big 2 p m)
      × (read_be32 p m ≡ big 4 p m)
      × (read_be64 p m ≡ big 8 p m)
reads-digits {m} p b = (
  read_le16-sum p b ∙ rw add-zero (omega arith),
  read_le32-sum p b ∙ rw add-zero (omega arith),
  read_le64-sum p b ∙ rw add-zero (omega arith),
  read_be16-sum p b ∙ rw add-zero (omega arith),
  read_be32-sum p b ∙ rw add-zero (omega arith),
  read_be64-sum p b ∙ rw add-zero (omega arith),
)

-- Reading big-endian what `store_be16` stored gives the value back, and no other byte changes.
pub read_be16-store_be16 :
    {m : Memory} (val p : ℕ)
    → IsBytes m
    → val < 2 ^ 16
    → (read_be16 p (store_be16 val p m) ≡ val)
      × IsBytes (store_be16 val p m)
      × ((q : ℕ) → (q < p) ⊎ (p + 2 ≤ q) → store_be16 val p m q ≡ m q)
read_be16-store_be16 {m} val p b h = (
  omega (arith, read_be16-sum p kept, at0, at1),
  kept,
  λ q out. unfold store_be16 in ground arith,
)
  where
    kept : IsBytes (store_be16 val p m)
    kept q =
        unfold store_be16 in ground (arith, b q, byte_mask (val / 2 ^ 0), byte_mask (val / 2 ^ 8))

    at0 : store_be16 val p m p ≡ val / 2 ^ 8 % 2 ^ 8
    at0 = unfold store_be16 in ground (arith, byte_mask (val / 2 ^ 8))

    at1 : store_be16 val p m (p + 1) ≡ val % 2 ^ 8
    at1 = unfold store_be16 in ground (arith, byte_mask (val / 2 ^ 0))

-- Reading big-endian what `store_be32` stored gives the value back, and no other byte changes.
pub read_be32-store_be32 :
    {m : Memory} (val p : ℕ)
    → IsBytes m
    → val < 2 ^ 32
    → (read_be32 p (store_be32 val p m) ≡ val)
      × IsBytes (store_be32 val p m)
      × ((q : ℕ) → (q < p) ⊎ (p + 4 ≤ q) → store_be32 val p m q ≡ m q)
read_be32-store_be32 {m} val p b h = (
  omega (arith, read_be32-sum p kept, at.0, at.1, at.2, at.3),
  kept,
  λ q out. unfold store_be32 in ground arith,
)
  where
    masks :
        (bit_and (val >>> 0) 0xff ≡ val % 2 ^ 8)
        × (bit_and (val >>> 8) 0xff ≡ val / 2 ^ 8 % 2 ^ 8)
        × (bit_and (val >>> 16) 0xff ≡ val / 2 ^ 16 % 2 ^ 8)
        × (bit_and (val >>> 24) 0xff ≡ val / 2 ^ 24 % 2 ^ 8)
    masks = omega (
      arith,
      byte_mask (val / 2 ^ 0),
      byte_mask (val / 2 ^ 8),
      byte_mask (val / 2 ^ 16),
      byte_mask (val / 2 ^ 24),
    )

    kept : IsBytes (store_be32 val p m)
    kept q = unfold store_be32 in ground (arith, b q, masks)

    at :
        (store_be32 val p m p ≡ val / 2 ^ 24 % 2 ^ 8)
        × (store_be32 val p m (p + 1) ≡ val / 2 ^ 16 % 2 ^ 8)
        × (store_be32 val p m (p + 2) ≡ val / 2 ^ 8 % 2 ^ 8)
        × (store_be32 val p m (p + 3) ≡ val % 2 ^ 8)
    at = unfold store_be32 in ground (arith, masks)
