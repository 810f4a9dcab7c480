-- ===== src/Fat/Paths/Reading.antt =====
-- What `fat_file_read` reads where it does not look at the table.
use Prim.Native.Nat.{bit_and}
use native.Mathlib.Nat.{one-le-pow}
use operating_system_cortex.Prelude.{
  ℕ, zero, suc, ◌+◌, ◌-◌, ◌*◌, ◌^◌, ◌≤◌, ◌<◌, ◌≡◌, refl, ap, ◌∙◌, true, false, ◌⊎◌, inl, inr, some,
  ◌==◌, leb, ltb, min, arith, Bool-cases,
}
use operating_system_cortex.Prelude.Bits.{◌>>>◌, u32, sub32, not32, bit_and-mask}
use operating_system_cortex.Prelude.Int.{pos}
use operating_system_cortex.Prelude.Outcome.{ok}
use operating_system_cortex.Align.Rounding.{mask_down}
use operating_system_cortex.Buddy.Map.{pow_mono}
use operating_system_cortex.Bytes.{Memory, put}
use operating_system_cortex.Fat.{Disk, Fat, File}
use operating_system_cortex.Fat.Chain.{fat_cache, fat_inc_file_ptr, resolve_offset}
use operating_system_cortex.Fat.Entries.{entry}
use operating_system_cortex.Fat.Paths.{read_loop, fat_file_read}

-- Pages of 512 bytes, and clusters of 4, 8 or 16 of them.
pub record Sized (fat : Fat) : Type 0 where
  pub order : ℕ
  pub at_least : 2 ≤ order
  pub at_most : order ≤ 4
  pub page_order : fat.page_order ≡ 9
  pub page_mask : fat.page_mask ≡ 2 ^ 9 - 1
  pub clust_mask : fat.clust_mask ≡ 2 ^ order - 1

-- The count of clusters to go on by is zero for a step to the next page.
stays :
    (order rel : ℕ)
    → 2 ≤ order
    → order ≤ 4
    → u32 (bit_and rel (2 ^ order - 1) + 1) >>> (2 ^ order - 1) ≡ 0
stays zero rel a b = absurd (omega arith)
stays (suc zero) rel a b = absurd (omega arith)
stays (suc (suc zero)) rel a b = omega (arith, bit_and-mask 2 rel)
stays (suc (suc (suc zero))) rel a b = omega (arith, bit_and-mask 3 rel)
stays (suc (suc (suc (suc zero)))) rel a b = omega (arith, bit_and-mask 4 rel)
stays (suc (suc (suc (suc (suc k))))) rel a b = absurd (omega arith)

small_shift : (order : ℕ) → order ≤ 4 → leb 32 (2 ^ order - 1) ≡ false
small_shift order h = let fits = pow_mono order 4 h in ground (arith, fits, one-le-pow order 2)

module _ (fat : Fat) (disk : Disk) (content : ℕ → ℕ) (sized : Sized fat)
    (readable : (p : ℕ) → disk p ≡ some (λ i. content (p * 512 + i))) where
  -- The cache holds the page that the file pointer is at.
  pub record Loaded (f : File) : Type 0 where
    pub held : (i : ℕ) → i < 512 → f.cache i ≡ content (f.page * 512 + i)
    pub at_page : f.cache_page ≡ f.page
    pub clean : f.cache_dirty ≡ 0
    pub inside : f.offset < 512

  -- The place on the disk that the file pointer is at.
  abbrev pub place : File → ℕ
  place f = f.page * 512 + f.offset

  -- A step by one byte.
  abbrev Steps : File → File → Type 0
  Steps f f' =
      Loaded f'
      × (place f' ≡ place f + 1)
      × (f'.file_offset ≡ f.file_offset + 1)
      × (f'.size ≡ f.size)
      × (f'.page ≤ f.page + 1)

  resolve-page :
      (f : File)
      → f.offset ≡ 512
      → f.cache_dirty ≡ 0
      → (f.page == f.cache_page) ≡ false
      → resolve_offset fat disk f
        ≡ ok (
          0,
          record f { offset = 0; cache = λ i. content (f.page * 512 + i); cache_page = f.page },
        )
  unfolding resolve_offset fat_cache
  resolve-page f at_end clean other =
      let back : bit_and f.offset fat.page_mask ≡ 0 =
        rw sized.page_mask (bit_and-mask 9 f.offset ∙ omega (arith, at_end)) in
      let idle : (f.cache_dirty == 0) ≡ true = ground (arith, clean) in
      rw (other, idle, readable f.page)
        (ap
          (λ (o : ℕ). ok (
            0,
            record f { offset = o; cache = λ i. content (f.page * 512 + i); cache_page = f.page },
          ))
          back)

  inc_one :
      (f : File)
      → Loaded f
      → f.file_offset + 1 < 2 ^ 32
      → f.page + 1 < 2 ^ 32
      → (f' : File) × (fat_inc_file_ptr fat disk 1 f ≡ ok (0, f')) × Steps f f'
  unfolding fat_inc_file_ptr
  inc_one f l small far =
      let m = mask_down (f.offset + 1) 9 23 refl (omega (arith, l.inside)) in
      let o : u32 (f.offset + 1) ≡ f.offset + 1 = omega (arith, l.inside) in
      let w : u32 (f.file_offset + 1) ≡ f.file_offset + 1 = omega arith in
      elim (Bool-cases (ltb (f.offset + 1) 512)) [
        | inl e ↦
            let stay : (bit_and (f.offset + 1) (not32 (2 ^ 9 - 1)) == 0) ≡ true =
              ground (arith, m) in
            (
              record f { file_offset = f.file_offset + 1; offset = f.offset + 1 },
              rw (o, w, sized.page_mask, stay) refl,
              (
                record {
                  held = l.held;
                  at_page = l.at_page;
                  clean = l.clean;
                  inside = ground arith;
                },
                omega arith,
                refl,
                refl,
                omega arith,
              ),
            )
        | inr e ↦
            let go : (bit_and (f.offset + 1) (not32 fat.page_mask) == 0) ≡ false =
              rw sized.page_mask (ground (arith, m, l.inside)) in
            let small_mask : leb 32 fat.clust_mask ≡ false =
              rw sized.clust_mask (small_shift sized.order sized.at_most) in
            let at_end : f.offset + 1 ≡ 512 = ground (arith, l.inside) in
            let inc : (f.offset + 1) >>> fat.page_order ≡ 1 =
              rw sized.page_order (omega (arith, at_end)) in
            let p : u32 (f.page + 1) ≡ f.page + 1 = omega arith in
            let rel = sub32 f.page fat.data_start in
            let stay : (u32 (bit_and rel fat.clust_mask + 1) >>> fat.clust_mask == 0) ≡ true =
              rw sized.clust_mask (rw (stays sized.order rel sized.at_least sized.at_most) refl) in
            let other : (f.page + 1 == f.cache_page) ≡ false = ground (arith, l.at_page) in
            let f1 = record f {
              file_offset = f.file_offset + 1;
              offset = f.offset + 1;
              page = f.page + 1;
            } in
            (
              record f1 {
                offset = 0;
                cache = λ i. content ((f.page + 1) * 512 + i);
                cache_page = f.page + 1;
              },
              rw (o, w, go, small_mask, inc, stay, p) (resolve-page f1 at_end l.clean other),
              (
                record {
                  held = λ i h. refl;
                  at_page = refl;
                  clean = l.clean;
                  inside = omega arith;
                },
                omega (arith, at_end),
                refl,
                refl,
                omega arith,
              ),
            )
      ]

  -- The bytes of the disk from `from` on stand at `buf`, and nothing else has changed.
  abbrev pub Copied : (buf from n : ℕ) → Memory → Memory → Type 0
  Copied buf from n m m' =
      ((j : ℕ) → j < n → m' (buf + j) ≡ content (from + j))
      × ((q : ℕ) → (q < buf) ⊎ (buf + n ≤ q) → m' q ≡ m q)

  abbrev Advanced : (n : ℕ) → File → File → Type 0
  Advanced n f f' =
      Loaded f'
      × (place f' ≡ place f + n)
      × (f'.file_offset ≡ f.file_offset + n)
      × (f'.size ≡ f.size)

  Copied-first :
      (buf from n v : ℕ) (m m' : Memory)
      → v ≡ content from
      → Copied (buf + 1) (from + 1) n (put buf v m) m'
      → Copied buf from (n + 1) m m'
  Copied-first buf from n v m m' e (copied, others) = (bytes, λ q h. ground (arith, others q))
    where
      bytes : (j : ℕ) → j < n + 1 → m' (buf + j) ≡ content (from + j)
      bytes zero h =
          let a : buf + 0 ≡ buf = omega arith in
          let b : from + 0 ≡ from = omega arith in
          let kept : m' buf ≡ put buf v m buf = others buf (inl (omega arith)) in
          rw (a, b, kept) (ground (arith, e))
      bytes (suc j) h =
          let a : buf + 1 + j ≡ buf + suc j = omega arith in
          let b : from + 1 + j ≡ from + suc j = omega arith in rw (a, b) at (copied j (omega arith))

  -- The loop ends with `n` bytes more.
  abbrev Reads : (left i buf n : ℕ) → Memory → File → Type 0
  Reads left i buf n m f =
      (m' : Memory) × (f' : File) × (read_loop fat disk left i buf (pos 0) m f
        ≡ ok (pos 0, i + n, m', f'))
      × Copied (buf + i) (place f) n m m'
      × Advanced n f f'

  read_loop_lem :
      (left i buf : ℕ) (m : Memory) (f : File)
      → Loaded f
      → f.file_offset < f.size
      → f.size < 2 ^ 32
      → f.page + left < 2 ^ 32
      → Reads left i buf (min left (f.size - f.file_offset)) m f
  unfolding read_loop
  read_loop_lem zero i buf m f l more small far =
      let nothing : min 0 (f.size - f.file_offset) ≡ 0 = omega arith in
      let e : i + 0 ≡ i = omega arith in
      rw (nothing, e)
        (
          m,
          f,
          refl,
          ((λ j h. absurd (omega arith)), (λ q h. refl)),
          (l, omega arith, omega arith, refl),
        )
  read_loop_lem (suc left) i buf m f l more small far =
      let r = inc_one f l (omega arith) (omega arith) in
      go r.0 r.1 r.2
        (λ x y z. read_loop_lem left (suc i) buf (put (buf + i) (entry f 0) m) r.0 r.2.0 x y z)
    where
      first : entry f 0 ≡ content (place f)
      first =
          let e : f.offset + 0 ≡ f.offset = omega arith in ap f.cache e ∙ l.held f.offset l.inside

      go :
          (f1 : File)
          → fat_inc_file_ptr fat disk 1 f ≡ ok (0, f1)
          → Steps f f1
          → (f1.file_offset < f1.size
              → f1.size < 2 ^ 32
              → f1.page + left < 2 ^ 32
              → Reads left
                  (suc i)
                  buf
                  (min left (f1.size - f1.file_offset))
                  (put (buf + i) (entry f 0) m)
                  f1)
          → Reads (suc left) i buf (min (suc left) (f.size - f.file_offset)) m f
      go f1 inc s next = elim (Bool-cases (leb f1.size f1.file_offset)) [
        | inl e ↦
            let n : min (suc left) (f.size - f.file_offset) ≡ 0 + 1 = ground (arith, s.2, s.3) in
            let c : i + (0 + 1) ≡ suc i = omega arith in
            rw (n, inc, e, c)
              (
                put (buf + i) (entry f 0) m,
                f1,
                refl,
                Copied-first (buf + i) (place f) 0 (entry f 0) m (put (buf + i) (entry f 0) m) first
                    (λ j h. absurd (omega arith), λ q h. refl),
                (s.0, s.1, s.2, s.3),
              )
        | inr e ↦
            let k = min left (f1.size - f1.file_offset) in
            let n : min (suc left) (f.size - f.file_offset) ≡ k + 1 = ground (arith, s.2, s.3) in
            let (m', f', eq, copied, adv) =
              next (ground arith) (omega (arith, s.3)) (omega (arith, s.4)) in
            let c : suc i + k ≡ i + (k + 1) = omega arith in
            let at_buf : buf + suc i ≡ buf + i + 1 = omega arith in
            rw (n, inc, e)
              (
                m',
                f',
                rw c at eq,
                Copied-first (buf + i) (place f) k (entry f 0) m m' first
                    (rw (at_buf, s.1) at copied),
                (adv.0, omega (arith, adv.1, s.1), omega (arith, adv.2, s.2), adv.3 ∙ s.3),
              )
      ]

  -- Where every page of the disk can be read and clusters have 4, 8 or 16 pages, `fat_file_read`
  -- from a file pointer that is before the file's end ends without an error. The count is what is
  -- asked for, cut off at the end of the file; the bytes are those that stand on the disk from the
  -- file pointer on, whatever the table says, and the pointer is behind them; no other byte of
  -- memory changes.
  pub fat_file_read_lem :
      (buf req_cnt : ℕ) (m : Memory) (f : File)
      → Loaded f
      → f.file_offset < f.size
      → f.size < 2 ^ 32
      → f.page + req_cnt < 2 ^ 32
      → let n = min req_cnt (f.size - f.file_offset) in
        (m' : Memory) × (f' : File) × (fat_file_read fat disk buf req_cnt m f
          ≡ ok (pos 0, n, m', f'))
        × Copied buf (place f) n m m'
        × Advanced n f f'
  unfolding fat_file_read
  fat_file_read_lem buf req_cnt m f l more small far =
      let some_left : (f.size == 0) ≡ false = ground (arith, more) in
      let e : buf + 0 ≡ buf = omega arith in
      let n = min req_cnt (f.size - f.file_offset) in
      let z : 0 + n ≡ n = omega arith in
      let r = read_loop_lem req_cnt 0 buf m f l more small far in
      (r.0, r.1, rw some_left (rw z at r.2), rw e at r.3, r.4)
