-- ===== src/Bytes/Regions.antt =====
-- `mem_set`, `mem_copy` and `mem_cmp`: the word loop and the byte loop together treat every byte
-- of the region once, and no other.
use Prim.Native.Nat.{bit_or}
use native.Mathlib.Nat.{add-zero}
use native.Mathlib.Decide.{dec_lt}
use operating_system_cortex.Prelude.{
  ℕ, zero, suc, ◌+◌, ◌-◌, ◌*◌, ◌/◌, ◌^◌, ◌<◌, ◌≤◌, ◌≡◌, refl, ◌⊎◌, inr, ◌∙◌, ◌↔◌, Bool, ◌&&◌, arith,
  ltb, leb, if◌then◌else◌,
}
use operating_system_cortex.Prelude.Bits.{◌<<<◌, u32, bit_or-below, bit_and-mask, bit_and-shift}
use operating_system_cortex.Bytes.{
  Memory, put, put_word, get_word, set_words, set_bytes, word_count, byte_count, mem_set,
  copy_words, copy_bytes, mem_copy, mem_cmp,
}
use operating_system_cortex.Bytes.Words.{IsBytes}

-- The address `q` is one of the `n` from `p` on.
abbrev pub within : ℕ → ℕ → ℕ → Bool
within p n q = leb p q && ltb q (p + n)

count-split : (size : ℕ) → size < 2 ^ 32 → 4 * word_count size + byte_count size ≡ size
count-split size h =
    omega
      (arith, bit_and-mask 2 size, bit_and-shift 2 size (2 ^ 30 - 1), bit_and-mask 30 (size / 4))

abbrev repeated : ℕ → ℕ
repeated fill =
    bit_or (bit_or (bit_or (u32 (fill <<< 24)) (u32 (fill <<< 16))) (u32 (fill <<< 8))) fill

repeated-sum :
    (fill : ℕ) → fill < 2 ^ 8 → repeated fill ≡ fill * 2 ^ 24 + fill * 2 ^ 16 + fill * 2 ^ 8 + fill
repeated-sum fill h =
    let e24 : u32 (fill <<< 24) ≡ fill * 2 ^ 24 = omega arith in
    let e16 : u32 (fill <<< 16) ≡ fill * 2 ^ 16 = omega arith in
    let e8 : u32 (fill <<< 8) ≡ fill * 2 ^ 8 = omega arith in
    rw
      (
        e24,
        e16,
        e8,
        bit_or-below 24 (fill * 2 ^ 24) (fill * 2 ^ 16) (omega arith) (omega arith),
        bit_or-below 16 (fill * 2 ^ 24 + fill * 2 ^ 16) (fill * 2 ^ 8) (omega arith) (omega arith),
      )
      (bit_or-below 8 (fill * 2 ^ 24 + fill * 2 ^ 16 + fill * 2 ^ 8) fill (omega arith) h)

set_bytes-within :
    (n p fill : ℕ) (m : Memory) (q : ℕ)
    → set_bytes n p fill m q ≡ (if within p n q then fill else m q)
unfolding set_bytes
set_bytes-within zero p fill m q = ground arith
set_bytes-within (suc n) p fill m q =
    ground (arith, set_bytes-within n (p + 1) fill (put p fill m) q)

put_word-fill :
    (p w fill : ℕ) (m : Memory) (q : ℕ)
    → fill < 2 ^ 8
    → w ≡ fill * 2 ^ 24 + fill * 2 ^ 16 + fill * 2 ^ 8 + fill
    → put_word p w m q ≡ (if within p 4 q then fill else m q)
unfolding put_word
put_word-fill p w fill m q h e = ground arith

set_words-within :
    (n p w fill : ℕ) (m : Memory) (q : ℕ)
    → fill < 2 ^ 8
    → w ≡ fill * 2 ^ 24 + fill * 2 ^ 16 + fill * 2 ^ 8 + fill
    → set_words n p w m q ≡ (if within p (4 * n) q then fill else m q)
unfolding set_words
set_words-within zero p w fill m q h e = ground arith
set_words-within (suc n) p w fill m q h e = ground (
  arith,
  set_words-within n (p + 4) w fill (put_word p w m) q h e,
  put_word-fill p w fill m q h e,
)

-- `mem_set` writes the fill byte to exactly the `size` bytes from `ptr` on.
pub mem_set_lem :
    (ptr fill size : ℕ) (m : Memory) (q : ℕ)
    → fill < 2 ^ 8
    → size < 2 ^ 32
    → mem_set ptr fill size m q ≡ (if within ptr size q then fill else m q)
unfolding mem_set
mem_set_lem ptr fill size m q hf hs = ground (
  arith,
  count-split size hs,
  set_bytes-within (byte_count size) (ptr + 4 * word_count size) fill
      (set_words (word_count size) ptr (repeated fill) m) q,
  set_words-within (word_count size) ptr (repeated fill) fill m q hf (repeated-sum fill hf),
)

-- A forward copy is safe for regions that do not overlap, and where the target lies lower.
abbrev pub Forward : ℕ → ℕ → ℕ → Type 0
Forward src dest n = (dest ≤ src) ⊎ (src + n ≤ dest)

-- The address `q` is none of the `n` from `p` on.
abbrev pub Outside : ℕ → ℕ → ℕ → Type 0
Outside p n q = (q < p) ⊎ (p + n ≤ q)

copy_bytes-Outside :
    (n src dest : ℕ) (m : Memory) (q : ℕ) → Outside dest n q → copy_bytes n src dest m q ≡ m q
unfolding copy_bytes
copy_bytes-Outside zero src dest m q o = refl
copy_bytes-Outside (suc n) src dest m q o =
    ground (arith, copy_bytes-Outside n (src + 1) (dest + 1) (put dest (m src) m) q)

copy_bytes-inside :
    (n src dest : ℕ) (m : Memory) (i : ℕ)
    → Forward src dest n
    → i < n
    → copy_bytes n src dest m (dest + i) ≡ m (src + i)
unfolding copy_bytes
copy_bytes-inside zero src dest m i f h = absurd (omega arith)
copy_bytes-inside (suc n) src dest m zero f h =
    rw
      (
        add-zero dest,
        add-zero src,
        copy_bytes-Outside n (src + 1) (dest + 1) (put dest (m src) m) dest (omega arith),
      )
      (ground arith)
copy_bytes-inside (suc n) src dest m (suc i) f h =
    let at : dest + suc i ≡ dest + 1 + i = omega arith in
    let from : src + suc i ≡ src + 1 + i = omega arith in
    rw
      (
        at,
        from,
        copy_bytes-inside n (src + 1) (dest + 1) (put dest (m src) m) i (omega arith) (omega arith),
      )
      (ground arith)

put_word-Outside : (p w : ℕ) (m : Memory) (q : ℕ) → Outside p 4 q → put_word p w m q ≡ m q
unfolding put_word
put_word-Outside p w m q o = ground arith

put_word-get_word :
    (src dest : ℕ) (m : Memory)
    → IsBytes m
    → (i : ℕ) → i < 4
    → put_word dest (get_word src m) m (dest + i) ≡ m (src + i)
unfolding put_word get_word
put_word-get_word src dest m b i h = ground (arith, b src, b (src + 1), b (src + 2), b (src + 3))

put_word-IsBytes : (p w : ℕ) (m : Memory) → IsBytes m → IsBytes (put_word p w m)
unfolding put_word
put_word-IsBytes p w m b q = ground (arith, b q)

copy_words-Outside :
    (n src dest : ℕ) (m : Memory) (q : ℕ) → Outside dest (4 * n) q → copy_words n src dest m q ≡ m q
unfolding copy_words
copy_words-Outside zero src dest m q o = refl
copy_words-Outside (suc n) src dest m q o = ground (
  arith,
  copy_words-Outside n (src + 4) (dest + 4) (put_word dest (get_word src m) m) q,
  put_word-Outside dest (get_word src m) m q,
)

copy_words-inside :
    (n src dest : ℕ) (m : Memory) (i : ℕ)
    → IsBytes m
    → Forward src dest (4 * n)
    → i < 4 * n
    → copy_words n src dest m (dest + i) ≡ m (src + i)
unfolding copy_words
copy_words-inside zero src dest m i b f h = absurd (omega arith)
copy_words-inside (suc n) src dest m i b f h = elim (dec_lt i 4) [
  | yes here ↦
      rw
        (copy_words-Outside n (src + 4) (dest + 4) (put_word dest (get_word src m) m) (dest + i)
          (omega arith))
        (put_word-get_word src dest m b i here)
  | no there ↦
      let at : dest + i ≡ dest + 4 + (i - 4) = omega arith in
      let from : src + i ≡ src + 4 + (i - 4) = omega arith in
      rw
        (
          at,
          from,
          copy_words-inside n (src + 4) (dest + 4) (put_word dest (get_word src m) m) (i - 4)
              (put_word-IsBytes dest (get_word src m) m b) (omega arith) (omega arith),
        )
        (put_word-Outside dest (get_word src m) m (src + 4 + (i - 4)) (omega arith))
]

-- The word loop, then the byte loop behind it.
copy_both-inside :
    (w k src dest : ℕ) (m : Memory) (i : ℕ)
    → IsBytes m
    → Forward src dest (4 * w + k)
    → i < 4 * w + k
    → copy_bytes k (src + 4 * w) (dest + 4 * w) (copy_words w src dest m) (dest + i) ≡ m (src + i)
copy_both-inside w k src dest m i b f h = elim (dec_lt i (4 * w)) [
  | yes front ↦
      rw
        (copy_bytes-Outside k (src + 4 * w) (dest + 4 * w) (copy_words w src dest m) (dest + i)
          (omega arith))
        (copy_words-inside w src dest m i b (omega arith) front)
  | no back ↦
      let at : dest + i ≡ dest + 4 * w + (i - 4 * w) = omega arith in
      let from : src + i ≡ src + 4 * w + (i - 4 * w) = omega arith in
      rw
        (
          at,
          from,
          copy_bytes-inside k (src + 4 * w) (dest + 4 * w) (copy_words w src dest m) (i - 4 * w)
              (omega arith) (omega arith),
        )
        (copy_words-Outside w src dest m (src + 4 * w + (i - 4 * w)) (omega arith))
]

copy_both-Outside :
    (w k src dest : ℕ) (m : Memory) (q : ℕ)
    → Outside dest (4 * w + k) q
    → copy_bytes k (src + 4 * w) (dest + 4 * w) (copy_words w src dest m) q ≡ m q
copy_both-Outside w k src dest m q o =
    copy_bytes-Outside k (src + 4 * w) (dest + 4 * w) (copy_words w src dest m) q (omega arith)
    ∙ copy_words-Outside w src dest m q (omega arith)

-- `mem_copy` copies each of the `size` bytes and changes no other, where the regions do not
-- overlap or the target lies lower.
pub mem_copy_lem :
    (src dest size : ℕ) (m : Memory)
    → IsBytes m
    → size < 2 ^ 32
    → Forward src dest size
    → ((i : ℕ) → i < size → mem_copy src dest size m (dest + i) ≡ m (src + i))
      × ((q : ℕ) → Outside dest size q → mem_copy src dest size m q ≡ m q)
unfolding mem_copy
mem_copy_lem src dest size m b h f =
    let e = count-split size h in
    (
      λ i hi.
          copy_both-inside (word_count size) (byte_count size) src dest m i b (rw e f) (rw e hi),
      λ q o. copy_both-Outside (word_count size) (byte_count size) src dest m q (rw e o),
    )

-- `mem_cmp` is 1 exactly if the two regions agree at every offset, and 0 otherwise.
pub mem_cmp_iff :
    (src1 src2 size : ℕ) (m : Memory)
    → ((mem_cmp src1 src2 size m ≡ 1) ↔ ((i : ℕ) → i < size → m (src1 + i) ≡ m (src2 + i)))
      × ((mem_cmp src1 src2 size m ≡ 0) ⊎ (mem_cmp src1 src2 size m ≡ 1))
unfolding mem_cmp
mem_cmp_iff src1 src2 zero m = ((λ e i h. absurd (omega arith), λ a. refl), inr refl)
mem_cmp_iff src1 src2 (suc size) m =
    let ih = mem_cmp_iff (src1 + 1) (src2 + 1) size m in
    (
      (
        λ e i h. agree (ground arith) (ih.0.0 (ground arith)) i h,
        λ a. ground (arith, shift_back a, ih.0.1 (λ i h. shifted a i h)),
      ),
      ground (arith, ih.1),
    )
  where
    agree :
        m src1 ≡ m src2
        → ((i : ℕ) → i < size → m (src1 + 1 + i) ≡ m (src2 + 1 + i))
        → (i : ℕ) → i < suc size
        → m (src1 + i) ≡ m (src2 + i)
    agree first rest zero h = rw (add-zero src1, add-zero src2) first
    agree first rest (suc i) h =
        let e1 : src1 + suc i ≡ src1 + 1 + i = omega arith in
        let e2 : src2 + suc i ≡ src2 + 1 + i = omega arith in rw (e1, e2) (rest i (omega arith))

    shift_back : ((i : ℕ) → i < suc size → m (src1 + i) ≡ m (src2 + i)) → m src1 ≡ m src2
    shift_back a = rw (add-zero src1, add-zero src2) at (a 0 (omega arith))

    shifted :
        ((i : ℕ) → i < suc size → m (src1 + i) ≡ m (src2 + i))
        → (i : ℕ) → i < size
        → m (src1 + 1 + i) ≡ m (src2 + 1 + i)
    shifted a i h =
        let e1 : src1 + 1 + i ≡ src1 + suc i = omega arith in
        let e2 : src2 + 1 + i ≡ src2 + suc i = omega arith in rw (e1, e2) (a (suc i) (omega arith))
