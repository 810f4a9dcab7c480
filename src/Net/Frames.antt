-- ===== src/Net/Frames.antt =====
-- A frame that the layers send is the frame that the layers take apart.
use operating_system_cortex.Prelude.{
  ℕ, zero, suc, ◌+◌, ◌-◌, ◌^◌, ◌≤◌, ◌<◌, ◌≡◌, refl, ◌∙◌, ◌⊎◌, inl, inr, Bool, true, false, not,
  some, ◌==◌, leb, if◌then◌else◌, arith, Bool-cases,
}
use Prim.Native.Nat.{bit_and}
use operating_system_cortex.Prelude.Bits.{u32, sub32, ◌>>>◌}
use operating_system_cortex.Bytes.{Memory, put, read_be16}
use operating_system_cortex.Net.{Netbuf}
use operating_system_cortex.Net.Headers.{
  push_mac, mac_header, sent, mac_send, ip_send, udp_send_from,
}
use operating_system_cortex.Net.Receive.{to_port, udp_handle, ip_receive, mac_receive}
use operating_system_cortex.Net.Layers.{
  SameFrom, read_be16-from, udp_written, udp_header_lem, udp_written_lem, ip_written, ip_header_lem,
  ip_written_lem,
}

-- The bytes of an address stand in their order, and no other byte changes.
pub push_mac_lem :
    (n : ℕ) (mac : ℕ → ℕ) (o : ℕ) (m : Memory)
    → ((i : ℕ) → i < n → push_mac n mac (o + n) m (o + i) ≡ mac i)
      × ((q : ℕ) → (q < o) ⊎ (o + n ≤ q) → push_mac n mac (o + n) m q ≡ m q)
unfolding push_mac
push_mac_lem zero mac o m = (λ i h. absurd (omega arith), λ q h. refl)
push_mac_lem (suc n) mac o m =
    let back : o + suc n - 1 ≡ o + n = omega arith in
    let rest = push_mac_lem n mac o (put (o + n) (mac n) m) in
    rw back (
      λ i h. elim (Bool-cases (i == n)) [
        | inl e ↦
            let last : i ≡ n = ground arith in
            rw last (rest.1 (o + n) (inr (omega arith)) ∙ ground arith)
        | inr e ↦ rest.0 i (ground arith)
      ],
      λ q h. rest.1 q (ground arith) ∙ ground arith,
    )

-- The Ethernet header from `o` on.
pub mac_written : (o : ℕ) (dest own : ℕ → ℕ) (type : ℕ) → Memory → Memory
mac_written o dest own type m = push_mac 6 dest (o + 6) (
    push_mac 6 own (o + 6 + 6)
      (put (o + 6 + 6) (bit_and (type >>> 8) 0xFF) (put (o + 13) (bit_and type 0xFF) m)))

pub mac_written_lem :
    (o : ℕ) (dest own : ℕ → ℕ) (m : Memory)
    → ((i : ℕ) → i < 6 → mac_written o dest own 0x0800 m (o + i) ≡ dest i)
      × ((i : ℕ) → i < 6 → mac_written o dest own 0x0800 m (o + 6 + i) ≡ own i)
      × (read_be16 (o + 12) (mac_written o dest own 0x0800 m) ≡ 0x0800)
      × SameFrom (o + 14) m (mac_written o dest own 0x0800 m)
unfolding mac_written
mac_written_lem o dest own m = (
  outer.0,
  λ i h. outer.1 (o + 6 + i) (inr (omega arith)) ∙ inner.0 i h,
  read_be16-from (o + 12) (o + 12) typed
        (push_mac 6 dest (o + 6) (push_mac 6 own (o + 6 + 6) typed)) (λ q h. from q h) (omega arith)
      ∙ type_field,
  λ q h. from q (omega arith) ∙ ground arith,
)
  where
    typed : Memory
    typed = put (o + 6 + 6) 8 (put (o + 13) 0 m)

    inner :
        ((i : ℕ) → i < 6 → push_mac 6 own (o + 6 + 6) typed (o + 6 + i) ≡ own i)
        × ((q : ℕ) → (q < o + 6) ⊎ (o + 6 + 6 ≤ q) → push_mac 6 own (o + 6 + 6) typed q ≡ typed q)
    inner = push_mac_lem 6 own (o + 6) typed

    outer :
        ((i : ℕ)
          → i < 6
          → push_mac 6 dest (o + 6) (push_mac 6 own (o + 6 + 6) typed) (o + i) ≡ dest i)
        × ((q : ℕ)
            → (q < o) ⊎ (o + 6 ≤ q)
            → push_mac 6 dest (o + 6) (push_mac 6 own (o + 6 + 6) typed) q
              ≡ push_mac 6 own (o + 6 + 6) typed q)
    outer = push_mac_lem 6 dest o (push_mac 6 own (o + 6 + 6) typed)

    from :
        (q : ℕ)
        → o + 12 ≤ q
        → push_mac 6 dest (o + 6) (push_mac 6 own (o + 6 + 6) typed) q ≡ typed q
    from q h = outer.1 q (inr (omega arith)) ∙ inner.1 q (inr (omega arith))

    high : typed (o + 12) ≡ 8
    high = ground arith

    low : typed (o + 12 + 1) ≡ 0
    low = ground arith

    type_field : read_be16 (o + 12) typed ≡ 0x0800
    type_field = unfold read_be16 in rw (high, low) refl

-- The address that a frame goes to: everybody's, or the one that was found.
abbrev pub target : Bool → (ℕ → ℕ) → ℕ → ℕ
target broadcast mac i = if broadcast then 0xFF else mac i

pub mac_send_lem :
    (o len dest_ip type : ℕ) (own mac : ℕ → ℕ) (b : Netbuf) (m : Memory) (broadcast : Bool)
    → b.ptr ≡ o + 14
    → b.buf ≤ o
    → b.frame_len ≡ len
    → len + 14 < 2 ^ 32
    → mac_send own (some mac) b m dest_ip type broadcast
      ≡ sent
          (record b { ptr = o; frame_len = len + 14; ip = dest_ip })
          (mac_written o (target broadcast mac) own type m)
unfolding mac_send mac_header mac_written
mac_send_lem o len dest_ip type own mac b m broadcast at room size h = by_target broadcast
  where
    e1 : b.ptr - 1 ≡ o + 13
    e1 = omega arith

    e2 : b.ptr - 1 - 1 ≡ o + 6 + 6
    e2 = omega arith

    e3 : b.ptr - 1 - 1 - 6 ≡ o + 6
    e3 = omega arith

    e4 : b.ptr - 1 - 1 - 6 - 6 ≡ o
    e4 = omega arith

    long : u32 (b.frame_len + 14) ≡ len + 14
    long = omega arith

    fits : leb (b.buf + 14) b.ptr ≡ true
    fits = ground arith

    by_target :
        (to_all : Bool)
        → mac_send own (some mac) b m dest_ip type to_all
          ≡ sent
              (record b { ptr = o; frame_len = len + 14; ip = dest_ip })
              (mac_written o (target to_all mac) own type m)
    by_target true = rw (fits, e4, e3, e2, e1, long) refl
    by_target false = rw (fits, e4, e3, e2, e1, long) refl

-- A packet that `udp_send_from` has put into a frame, for all or for the address that was found,
-- comes out of `mac_receive` at the port it was sent to, with its pointer and length as they were
-- and no byte changed; the frame goes to that address and names ours. It holds for packets that
-- fit an IP packet and have room for the headers.
pub udp_send_from-mac_receive :
    (o len dest_ip src_ip src_port dest_port flags : ℕ) (own mac : ℕ → ℕ) (b : Netbuf) (m : Memory)
    → b.ptr ≡ o + 42
    → b.buf ≤ o
    → b.frame_len ≡ len
    → len + 28 < 2 ^ 16
    → src_port < 2 ^ 16
    → dest_port < 2 ^ 16
    → (frame : Netbuf) × (g : Memory) × (udp_send_from own
          (some mac)
          b
          m
          dest_ip
          src_ip
          src_port
          dest_port
          flags
        ≡ sent frame g)
      × (mac_receive frame g ≡ to_port dest_port (record b { ip = dest_ip }))
      × ((frame.ptr ≡ o) × (frame.frame_len ≡ len + 42))
      × SameFrom b.ptr m g
      × ((i : ℕ) → i < 6 → g (o + i) ≡ target (not (bit_and flags 1 == 0)) mac i)
      × ((i : ℕ) → i < 6 → g (o + 6 + i) ≡ own i)
unfolding udp_send_from ip_send mac_receive ip_receive udp_handle
udp_send_from-mac_receive o len dest_ip src_ip src_port dest_port flags own mac b m at room size h
      hs hd =
    let u = udp_written_lem (o + 34) len src_port dest_port m (omega arith) hs hd in
    let i = ip_written_lem (o + 14) (len + 8) src_ip dest_ip m1 (omega arith) in
    let f = mac_written_lem o (target (not (bit_and flags 1 == 0)) mac) own m2 in
    let p14 : o + 12 + 2 ≡ o + 14 = omega arith in
    let size_field : read_be16 (o + 14 + 2) m3 ≡ len + 8 + 20 =
      read_be16-from (o + 14) (o + 14 + 2) m2 m3 f.3 (omega arith) ∙ i.1 in
    let protocol : m3 (o + 14 + 9) ≡ 0x11 = f.3 (o + 14 + 9) (omega arith) ∙ i.2 in
    let version : m3 (o + 14) ≡ 0x45 = f.3 (o + 14) (omega arith) ∙ i.0 in
    let same : o + 14 + 20 + 2 ≡ o + 34 + 2 = omega arith in
    let port_field : read_be16 (o + 14 + 20 + 2) m3 ≡ dest_port = rw same (
      read_be16-from (o + 14) (o + 34 + 2) m2 m3 f.3 (omega arith)
      ∙ read_be16-from (o + 14 + 20) (o + 34 + 2) m1 m2 i.3 (omega arith)
      ∙ u.1) in
    let length : sub32 (sub32 (len + 8 + 20) 20) 8 ≡ len = omega arith in
    let end : o + 14 + 20 + 8 ≡ o + 42 = omega arith in
    let total : len + 8 + 20 + 14 ≡ len + 42 = omega arith in
    (
      record b { ptr = o; frame_len = len + 8 + 20 + 14; ip = dest_ip },
      m3,
      rw
          (
            udp_header_lem (o + 34) len src_port dest_port b m (omega arith) size (omega arith),
            ip_header_lem (o + 14) (len + 8) src_ip dest_ip b1 m1 (omega arith) refl (omega arith),
            mac_send_lem o (len + 8 + 20) dest_ip 0x0800 own mac b2 m2 (not (bit_and flags 1 == 0))
                refl room refl (omega arith),
          )
          refl,
      rw (f.2, p14, size_field, protocol, version, port_field, length, end, at, size) refl,
      (refl, total),
      λ q hq. f.3 q (omega arith) ∙ i.3 q (omega arith) ∙ u.3 q (omega arith),
      f.0,
      f.1,
    )
  where
    m1 : Memory
    m1 = udp_written (o + 34) len src_port dest_port m

    b1 : Netbuf
    b1 = record b { ptr = o + 34; frame_len = len + 8 }

    m2 : Memory
    m2 = ip_written (o + 14) (len + 8) src_ip dest_ip m1

    b2 : Netbuf
    b2 = record b1 { ptr = o + 14; frame_len = len + 8 + 20 }

    m3 : Memory
    m3 = mac_written o (target (not (bit_and flags 1 == 0)) mac) own 0x0800 m2
