-- ===== src/Net/Layers.antt =====
-- What each header holds, and that it leaves the packet behind it alone.
use operating_system_cortex.Prelude.{ℕ, ◌+◌, ◌-◌, ◌^◌, ◌≤◌, ◌<◌, ◌≡◌, refl, ◌∙◌, ◌⊎◌, inr, arith}
use operating_system_cortex.Prelude.Bits.{u16, u32}
use operating_system_cortex.Bytes.{Memory, put, read_be16, store_be16, store_be32}
use operating_system_cortex.Bytes.Words.{read_be16-store_be16}
use operating_system_cortex.Net.{Netbuf}
use operating_system_cortex.Net.Headers.{udp_header, ip_header}

-- From `p` on the memory is the same.
abbrev pub SameFrom : ℕ → Memory → Memory → Type 0
SameFrom p m g = (q : ℕ) → p ≤ q → g q ≡ m q

pub read_be16-same :
    (p : ℕ) (m g : Memory) → g p ≡ m p → g (p + 1) ≡ m (p + 1) → read_be16 p g ≡ read_be16 p m
unfolding read_be16
read_be16-same p m g e f = rw (e, f) refl

pub read_be16-from :
    (p q : ℕ) (m g : Memory) → SameFrom p m g → p ≤ q → read_be16 q g ≡ read_be16 q m
read_be16-from p q m g same h = read_be16-same q m g (same q h) (same (q + 1) (omega arith))

pub read_stored : (val p : ℕ) (m : Memory) → val < 2 ^ 16 → read_be16 p (store_be16 val p m) ≡ val
read_stored val p m h =
    let blank : Memory = λ q. 0 in
    read_be16-same p (store_be16 val p blank) (store_be16 val p m)
      (unfold store_be16 in ground arith) (unfold store_be16 in ground arith)
    ∙ (read_be16-store_be16 {m = blank} val p (λ q. omega arith) h).0

store_be16-from : (val p q : ℕ) (m : Memory) → (q < p) ⊎ (p + 2 ≤ q) → store_be16 val p m q ≡ m q
unfolding store_be16
store_be16-from val p q m h = ground arith

store_be32-from : (val p q : ℕ) (m : Memory) → (q < p) ⊎ (p + 4 ≤ q) → store_be32 val p m q ≡ m q
unfolding store_be32
store_be32-from val p q m h = ground arith

put-from : (v p q : ℕ) (m : Memory) → (q < p) ⊎ (p + 1 ≤ q) → put p v m q ≡ m q
put-from v p q m h = ground arith

-- The UDP header from `o` on.
pub udp_written : (o len src_port dest_port : ℕ) → Memory → Memory
udp_written o len src_port dest_port m =
    store_be16 src_port o (store_be16 dest_port (o + 2) (store_be16 (len + 8) (o + 4) m))

pub udp_header_lem :
    (o len src_port dest_port : ℕ) (b : Netbuf) (m : Memory)
    → b.ptr ≡ o + 8
    → b.frame_len ≡ len
    → len + 8 < 2 ^ 16
    → udp_header src_port dest_port b m
      ≡ (record b { ptr = o; frame_len = len + 8 }, udp_written o len src_port dest_port m)
unfolding udp_header udp_written
udp_header_lem o len src_port dest_port b m at size h =
    let e1 : b.ptr - 4 ≡ o + 4 = omega arith in
    let e2 : b.ptr - 4 - 2 ≡ o + 2 = omega arith in
    let e3 : b.ptr - 4 - 2 - 2 ≡ o = omega arith in
    let short : u16 (b.frame_len + 8) ≡ len + 8 = omega arith in
    let long : u32 (b.frame_len + 8) ≡ len + 8 = omega arith in rw (e3, e2, e1, short, long) refl

pub udp_written_lem :
    (o len src_port dest_port : ℕ) (m : Memory)
    → len + 8 < 2 ^ 16
    → src_port < 2 ^ 16
    → dest_port < 2 ^ 16
    → (read_be16 o (udp_written o len src_port dest_port m) ≡ src_port)
      × (read_be16 (o + 2) (udp_written o len src_port dest_port m) ≡ dest_port)
      × (read_be16 (o + 4) (udp_written o len src_port dest_port m) ≡ len + 8)
      × SameFrom (o + 8) m (udp_written o len src_port dest_port m)
unfolding udp_written
udp_written_lem o len src_port dest_port m hl hs hd = (
  read_stored src_port o m2 hs,
  read_be16-from (o + 2) (o + 2) m2 (store_be16 src_port o m2) over2 (omega arith)
      ∙ read_stored dest_port (o + 2) m1 hd,
  read_be16-from (o + 2) (o + 4) m2 (store_be16 src_port o m2) over2 (omega arith)
      ∙ read_be16-from (o + 4) (o + 4) m1 m2 over1 (omega arith)
      ∙ read_stored (len + 8) (o + 4) m hl,
  λ q h.
      over2 q (omega arith)
      ∙ over1 q (omega arith)
      ∙ store_be16-from (len + 8) (o + 4) q m (inr (omega arith)),
)
  where
    m1 : Memory
    m1 = store_be16 (len + 8) (o + 4) m

    m2 : Memory
    m2 = store_be16 dest_port (o + 2) m1

    over1 : SameFrom (o + 4) m1 m2
    over1 q h = store_be16-from dest_port (o + 2) q m1 (inr (omega arith))

    over2 : SameFrom (o + 2) m2 (store_be16 src_port o m2)
    over2 q h = store_be16-from src_port o q m2 (inr (omega arith))

-- The IP header from `o` on.
pub ip_written : (o len src_ip dest_ip : ℕ) → Memory → Memory
ip_written o len src_ip dest_ip m = put o 0x45 (
    put (o + 1) 0 (
      store_be16 (len + 20) (o + 2) (
        store_be16 0 (o + 4) (
          store_be16 0x4000 (o + 6) (
            put (o + 8) 10
              (put (o + 9) 0x11 (store_be32 src_ip (o + 12) (store_be32 dest_ip (o + 16) m))))))))

pub ip_header_lem :
    (o len src_ip dest_ip : ℕ) (b : Netbuf) (m : Memory)
    → b.ptr ≡ o + 20
    → b.frame_len ≡ len
    → len + 20 < 2 ^ 16
    → ip_header src_ip dest_ip b m
      ≡ (record b { ptr = o; frame_len = len + 20 }, ip_written o len src_ip dest_ip m)
unfolding ip_header ip_written
ip_header_lem o len src_ip dest_ip b m at size h =
    let e1 : b.ptr - 4 ≡ o + 16 = omega arith in
    let e2 : b.ptr - 4 - 4 ≡ o + 12 = omega arith in
    let e3 : b.ptr - 4 - 4 - 3 ≡ o + 9 = omega arith in
    let e4 : b.ptr - 4 - 4 - 3 - 1 ≡ o + 8 = omega arith in
    let e5 : b.ptr - 4 - 4 - 3 - 1 - 2 ≡ o + 6 = omega arith in
    let e6 : b.ptr - 4 - 4 - 3 - 1 - 2 - 2 ≡ o + 4 = omega arith in
    let e7 : b.ptr - 4 - 4 - 3 - 1 - 2 - 2 - 2 ≡ o + 2 = omega arith in
    let e8 : b.ptr - 4 - 4 - 3 - 1 - 2 - 2 - 2 - 1 ≡ o + 1 = omega arith in
    let e9 : b.ptr - 4 - 4 - 3 - 1 - 2 - 2 - 2 - 1 - 1 ≡ o = omega arith in
    let long : u32 (b.frame_len + 20) ≡ len + 20 = omega arith in
    let short : u16 (len + 20) ≡ len + 20 = omega arith in
    rw (e9, e8, e7, e6, e5, e4, e3, e2, e1, long, short) refl

pub ip_written_lem :
    (o len src_ip dest_ip : ℕ) (m : Memory)
    → len + 20 < 2 ^ 16
    → (ip_written o len src_ip dest_ip m o ≡ 0x45)
      × (read_be16 (o + 2) (ip_written o len src_ip dest_ip m) ≡ len + 20)
      × (ip_written o len src_ip dest_ip m (o + 9) ≡ 0x11)
      × SameFrom (o + 20) m (ip_written o len src_ip dest_ip m)
unfolding ip_written
ip_written_lem o len src_ip dest_ip m h = (
  ground arith,
  read_be16-same (o + 2) m2 (put o 0x45 (put (o + 1) 0 m2)) (ground arith) (ground arith)
      ∙ read_stored (len + 20) (o + 2) m1 h,
  fixed (o + 9) (omega arith) ∙ ground arith,
  λ q h. fixed q (omega arith) ∙ words q h,
)
  where
    m0 : Memory
    m0 =
        put (o + 8) 10
          (put (o + 9) 0x11 (store_be32 src_ip (o + 12) (store_be32 dest_ip (o + 16) m)))

    m1 : Memory
    m1 = store_be16 0 (o + 4) (store_be16 0x4000 (o + 6) m0)

    m2 : Memory
    m2 = store_be16 (len + 20) (o + 2) m1

    fixed : (q : ℕ) → o + 8 ≤ q → put o 0x45 (put (o + 1) 0 m2) q ≡ m0 q
    fixed q h =
        put-from 0x45 o q (put (o + 1) 0 m2) (inr (omega arith))
        ∙ put-from 0 (o + 1) q m2 (inr (omega arith))
        ∙ store_be16-from (len + 20) (o + 2) q m1 (inr (omega arith))
        ∙ store_be16-from 0 (o + 4) q (store_be16 0x4000 (o + 6) m0) (inr (omega arith))
        ∙ store_be16-from 0x4000 (o + 6) q m0 (inr (omega arith))

    words : (q : ℕ) → o + 20 ≤ q → m0 q ≡ m q
    words q h =
        put-from 10 (o + 8) q
          (put (o + 9) 0x11 (store_be32 src_ip (o + 12) (store_be32 dest_ip (o + 16) m)))
          (inr (omega arith))
        ∙ put-from 0x11 (o + 9) q (store_be32 src_ip (o + 12) (store_be32 dest_ip (o + 16) m))
            (inr (omega arith))
        ∙ store_be32-from src_ip (o + 12) q (store_be32 dest_ip (o + 16) m) (inr (omega arith))
        ∙ store_be32-from dest_ip (o + 16) q m (inr (omega arith))
