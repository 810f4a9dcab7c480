-- ===== src/Tftp/Download.antt =====
-- net/tftp.c: a file that comes in blocks is put together.
use operating_system_cortex.Prelude.{
  ℕ, suc, ◌+◌, ◌-◌, ◌^◌, ◌≤◌, ◌<◌, ◌≡◌, refl, ◌∙◌, ◌⊎◌, inl, inr, true, false, ◌&&◌, some, List, [],
  ◌∷◌, ◌==◌, ltb, leb, if◌then◌else◌, length, arith, Bool-cases,
}
use operating_system_cortex.Prelude.Bits.{u32, sub32}
use operating_system_cortex.Prelude.Outcome.{ok}
use operating_system_cortex.Bytes.{Memory, mem_copy, read_be16}
use operating_system_cortex.Bytes.Words.{IsBytes}
use operating_system_cortex.Bytes.Regions.{Forward, Outside, mem_copy_lem}
use operating_system_cortex.Net.{Netbuf}
use operating_system_cortex.Tftp.{tftp_data, acked, receive_loop}

-- A buffer holds the block of this number with `len` bytes of the file, apart from the `size` bytes
-- at `dest`.
pub record IsBlock (m : Memory) (dest size block len : ℕ) (b : Netbuf) : Type 0 where
  pub op : read_be16 b.ptr m ≡ tftp_data
  pub number : read_be16 (b.ptr + 2) m ≡ block
  pub frame_len : b.frame_len ≡ 4 + len
  pub apart : (b.ptr + 4 + len ≤ dest) ⊎ (dest + size ≤ b.ptr)

-- The blocks from `block` on in order, each of 512 bytes but the last, which is shorter: `left`
-- bytes of the file are to come.
abbrev pub Blocks : Memory → (dest size block left : ℕ) → List Netbuf → Type 0
Blocks m dest size block left [] = left < 0
Blocks m dest size block left (b ∷ []) = (left < 512) × IsBlock m dest size block left b
Blocks m dest size block left (b ∷ (c ∷ bs)) =
    (512 ≤ left)
    × IsBlock m dest size block 512 b
    × Blocks m dest size (suc block) (left - 512) (c ∷ bs)

-- The byte `i` of the file that the blocks carry.
abbrev pub file_byte : Memory → List Netbuf → (i : ℕ) → ℕ
file_byte m [] i = 0
file_byte m (b ∷ bs) i =
    let rest = file_byte m bs (i - 512) in if ltb i 512 then m (b.ptr + 4 + i) else rest

-- The numbers from `block` on, one for each buffer.
abbrev pub numbers : (block : ℕ) → List Netbuf → List ℕ
numbers block [] = []
numbers block (b ∷ bs) = block ∷ numbers (suc block) bs

-- Nothing but the region is different.
abbrev pub SameOutside : (dest size : ℕ) → Memory → Memory → Type 0
SameOutside dest size m g = (q : ℕ) → Outside dest size q → g q ≡ m q

read_be16-SameOutside :
    (p dest size : ℕ) (m g : Memory)
    → SameOutside dest size m g
    → Outside dest size p
    → Outside dest size (p + 1)
    → read_be16 p g ≡ read_be16 p m
unfolding read_be16
read_be16-SameOutside p dest size m g same o0 o1 = rw (same p o0, same (p + 1) o1) refl

IsBlock-SameOutside :
    {dest size block len : ℕ} (b : Netbuf) (m g : Memory)
    → SameOutside dest size m g
    → IsBlock m dest size block len b
    → IsBlock g dest size block len b
IsBlock-SameOutside {dest} {size} b m g same v =
    let out : (i : ℕ) → i < 4 → Outside dest size (b.ptr + i) = λ i h. ground (arith, v.apart) in
    let e : b.ptr + 0 ≡ b.ptr = omega arith in
    let e3 : b.ptr + 3 ≡ b.ptr + 2 + 1 = omega arith in
    let first : Outside dest size b.ptr = rw e at (out 0 (omega arith)) in
    let fourth : Outside dest size (b.ptr + 2 + 1) = rw e3 at (out 3 (omega arith)) in
    record {
      op = read_be16-SameOutside b.ptr dest size m g same first (out 1 (omega arith)) ∙ v.op;
      number =
          read_be16-SameOutside (b.ptr + 2) dest size m g same (out 2 (omega arith)) fourth
          ∙ v.number;
      frame_len = v.frame_len;
      apart = v.apart;
    }

Blocks-SameOutside :
    (bs : List Netbuf) (dest size block left : ℕ) (m g : Memory)
    → SameOutside dest size m g
    → Blocks m dest size block left bs
    → Blocks g dest size block left bs
Blocks-SameOutside [] dest size block left m g same h = h
Blocks-SameOutside (b ∷ []) dest size block left m g same h =
    (h.0, IsBlock-SameOutside b m g same h.1)
Blocks-SameOutside (b ∷ (c ∷ bs)) dest size block left m g same h = (
  h.0,
  IsBlock-SameOutside b m g same h.1,
  Blocks-SameOutside (c ∷ bs) dest size (suc block) (left - 512) m g same h.2,
)

file_byte-SameOutside :
    (bs : List Netbuf) (dest size block left i : ℕ) (m g : Memory)
    → SameOutside dest size m g
    → Blocks m dest size block left bs
    → i < left
    → file_byte g bs i ≡ file_byte m bs i
file_byte-SameOutside [] dest size block left i m g same h l = absurd (omega (arith, h))
file_byte-SameOutside (b ∷ []) dest size block left i m g same h l =
    let early : ltb i 512 ≡ true = ground (arith, h.0) in
    rw early (same (b.ptr + 4 + i) (ground (arith, h.1.apart)))
file_byte-SameOutside (b ∷ (c ∷ bs)) dest size block left i m g same h l =
    elim (Bool-cases (ltb i 512)) [
      | inl early ↦
          let near : i < 512 = ground arith in
          rw early (same (b.ptr + 4 + i) (ground (arith, h.1.apart)))
      | inr late ↦
          let far : i - 512 < left - 512 = ground (arith, h.0) in
          rw late (
            file_byte-SameOutside (c ∷ bs) dest size (suc block) (left - 512) (i - 512) m g same h.2
              far)
    ]

mem_copy-IsBytes :
    (src dest len : ℕ) (m : Memory)
    → IsBytes m
    → len < 2 ^ 32
    → Forward src dest len
    → IsBytes (mem_copy src dest len m)
mem_copy-IsBytes src dest len m bytes small f q =
    let (inside, outside) = mem_copy_lem src dest len m bytes small f in
    elim (Bool-cases (leb dest q && ltb q (dest + len))) [
      | inl hit ↦
          let e : dest + (q - dest) ≡ q = ground arith in
          let there : mem_copy src dest len m (dest + (q - dest)) ≡ m (src + (q - dest)) =
            inside (q - dest) (ground arith) in
          let eq : mem_copy src dest len m q ≡ m (src + (q - dest)) = rw e at there in
          omega (arith, eq, bytes (src + (q - dest)))
      | inr out ↦ let eq = outside q (ground arith) in omega (arith, eq, bytes q)
    ]

module _ (dest size : ℕ) where
  -- What a round does with a block that is the next one.
  round :
      (b : Netbuf) (bs : List Netbuf) (buffer block len : ℕ) (m : Memory)
      → IsBlock m dest size block len b
      → len ≤ 512
      → receive_loop (b ∷ bs) buffer block m ≡ (
          if len == 512
          then acked block
              (receive_loop bs (buffer + len) (u32 (block + 1)) (mem_copy (b.ptr + 4) buffer len m))
          else some (ok (mem_copy (b.ptr + 4) buffer len m, block ∷ [])))
  unfolding receive_loop
  round b bs buffer block len m v short =
      let e : sub32 b.frame_len 4 ≡ len = omega (arith, v.frame_len) in
      let right : (read_be16 b.ptr m == tftp_data) ≡ true = ground (arith, v.op) in
      let next : (read_be16 (b.ptr + 2) m == block) ≡ true = ground (arith, v.number) in
      elim (Bool-cases (len == 512)) [
        | inl full ↦ rw (right, next, e, full) refl
        | inr last ↦ rw (right, next, e, last) refl
      ]

  -- The loop ends with the acknowledgement of every block, in order, and the file in its place.
  receives :
      (bs : List Netbuf) (buffer block left : ℕ) (m : Memory)
      → IsBytes m
      → Blocks m dest size block left bs
      → block + length bs < 2 ^ 16
      → dest ≤ buffer
      → buffer + left ≤ dest + size
      → (g : Memory) × (receive_loop bs buffer block m ≡ some (ok (g, numbers block bs)))
        × ((i : ℕ) → i < left → g (buffer + i) ≡ file_byte m bs i)
        × ((q : ℕ) → Outside buffer left q → g q ≡ m q)
  receives [] buffer block left m bytes h few low high = absurd (omega (arith, h))
  receives (b ∷ []) buffer block left m bytes h few low high =
      let copied =
        mem_copy_lem (b.ptr + 4) buffer left m bytes (omega (arith, h.0))
          (ground (arith, h.1.apart)) in
      let last : (left == 512) ≡ false = ground (arith, h.0) in
      (
        mem_copy (b.ptr + 4) buffer left m,
        round b [] buffer block left m h.1 (omega (arith, h.0)) ∙ rw last refl,
        λ i l. let early : ltb i 512 ≡ true = ground (arith, h.0) in rw early (copied.0 i l),
        copied.1,
      )
  receives (b ∷ (c ∷ bs)) buffer block left m bytes h few low high =
      let m' = mem_copy (b.ptr + 4) buffer 512 m in
      let fwd : Forward (b.ptr + 4) buffer 512 = ground (arith, h.0, h.1.apart) in
      let copied = mem_copy_lem (b.ptr + 4) buffer 512 m bytes (omega arith) fwd in
      let same : SameOutside dest size m m' = λ q o. copied.1 q (ground (arith, h.0)) in
      let (g, runs, inside, outside) =
        receives (c ∷ bs) (buffer + 512) (suc block) (left - 512) m'
          (mem_copy-IsBytes (b.ptr + 4) buffer 512 m bytes (omega arith) fwd)
          (Blocks-SameOutside (c ∷ bs) dest size (suc block) (left - 512) m m' same h.2)
          (omega arith) (omega arith) (omega (arith, h.0)) in
      let next : u32 (block + 1) ≡ suc block = omega arith in
      (
        g,
        round b (c ∷ bs) buffer block 512 m h.1 (omega arith) ∙ rw (next, runs) refl,
        λ i l. elim (Bool-cases (ltb i 512)) [
          | inl early ↦ rw early (outside (buffer + i) (ground arith) ∙ copied.0 i (ground arith))
          | inr late ↦
              let e : buffer + 512 + (i - 512) ≡ buffer + i = ground arith in
              let far : i - 512 < left - 512 = ground (arith, h.0) in
              let there : g (buffer + i) ≡ file_byte m' (c ∷ bs) (i - 512) =
                rw e at (inside (i - 512) far) in
              rw late (
                there
                ∙ file_byte-SameOutside (c ∷ bs) dest size (suc block) (left - 512) (i - 512) m m'
                    same h.2 far)
        ],
        λ q o. outside q (ground (arith, h.0)) ∙ copied.1 q (ground (arith, h.0)),
      )

-- A file of `size` bytes that comes in blocks from number 1 on, fewer than 65,535, each of 512
-- bytes but the last, apart from the `size` bytes at `buffer`: the loop ends, acknowledges each
-- block once and in order, the file stands at `buffer`, and no other byte is changed.
pub receive_loop-Blocks :
    (bs : List Netbuf) (buffer size : ℕ) (m : Memory)
    → IsBytes m
    → Blocks m buffer size 1 size bs
    → length bs < 65535
    → (g : Memory) × (receive_loop bs buffer 1 m ≡ some (ok (g, numbers 1 bs)))
      × ((i : ℕ) → i < size → g (buffer + i) ≡ file_byte m bs i)
      × ((q : ℕ) → Outside buffer size q → g q ≡ m q)
receive_loop-Blocks bs buffer size m bytes h few =
    receives buffer size bs buffer 1 size m bytes h (omega arith) (omega arith) (omega arith)
