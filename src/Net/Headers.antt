-- ===== src/Net/Headers.antt =====
-- net/udp.c, net/ip.c and net/mac.c: a packet is sent by putting the header of each layer in front
-- of it. Pointers do not wrap, and `buf->ptr` stays above the size of the headers.
use operating_system_cortex.Prelude.{
  ℕ, zero, suc, ◌+◌, ◌-◌, Bool, Option, none, some, ◌==◌, leb, not, if◌then◌else◌,
}
use Prim.Native.Nat.{bit_and, bit_or}
use operating_system_cortex.Prelude.Bits.{◌<<<◌, ◌>>>◌, u16, u32}
use operating_system_cortex.Bytes.{Memory, put, store_be16, store_be32}
use operating_system_cortex.Net.{Netbuf}

-- `udp_send_from`, before it calls `ip_send`.
unfoldable pub udp_header : (src_port dest_port : ℕ) → Netbuf → Memory → Netbuf × Memory
udp_header src_port dest_port b m =
    let p1 = b.ptr - 4 in
    let m1 = store_be16 (u16 (b.frame_len + 8)) p1 m in
    let p2 = p1 - 2 in
    let m2 = store_be16 dest_port p2 m1 in
    let p3 = p2 - 2 in
    let m3 = store_be16 src_port p3 m2 in
    (record b { ptr = p3; frame_len = u32 (b.frame_len + 8) }, m3)

-- `ip_send`, before it calls `mac_send`.
unfoldable pub ip_header : (src_ip dest_ip : ℕ) → Netbuf → Memory → Netbuf × Memory
ip_header src_ip dest_ip b m =
    let len = u32 (b.frame_len + 20) in
    let p1 = b.ptr - 4 in
    let m1 = store_be32 dest_ip p1 m in
    let p2 = p1 - 4 in
    let m2 = store_be32 src_ip p2 m1 in
    let p3 = p2 - 3 in
    let m3 = put p3 0x11 m2 in
    let p4 = p3 - 1 in
    let m4 = put p4 10 m3 in
    let p5 = p4 - 2 in
    let m5 = store_be16 0x4000 p5 m4 in
    let p6 = p5 - 2 in
    let m6 = store_be16 0 p6 m5 in
    let p7 = p6 - 2 in
    let m7 = store_be16 (u16 len) p7 m6 in
    let p8 = p7 - 1 in
    let m8 = put p8 0 m7 in
    let p9 = p8 - 1 in
    let m9 = put p9 (bit_or (4 <<< 4) 5) m8 in (record b { ptr = p9; frame_len = len }, m9)

-- `for (i = 0; i < n; i++) *--ptr = mac[n - 1 - i];`
unfoldable pub push_mac : (n : ℕ) → (mac : ℕ → ℕ) → (ptr : ℕ) → Memory → Memory
push_mac zero mac ptr m = m
push_mac (suc n) mac ptr m = push_mac n mac (ptr - 1) (put (ptr - 1) (mac n) m)

-- Type and source address, as in `mac_send` and `mac_broadcast`.
unfoldable pub mac_header : (own : ℕ → ℕ) → (type : ℕ) → Netbuf → Memory → Netbuf × Memory
mac_header own type b m =
    let m1 = put (b.ptr - 1) (bit_and type 0xFF) m in
    let m2 = put (b.ptr - 1 - 1) (bit_and (type >>> 8) 0xFF) m1 in
    (
      record b { ptr = b.ptr - 1 - 1 - 6; frame_len = u32 (b.frame_len + 14) },
      push_mac 6 own (b.ptr - 1 - 1) m2,
    )

-- What becomes of a frame: it goes out through `gmac_send_raw`, it waits in `arp_queue` while an
-- ARP request is sent, or the `assert` on the room in front of the packet fails.
pub data Sending : Type 0 where
  sent waits : Netbuf → Memory → Sending
  refused : Sending

-- `mac_send`. `own` is our address, `found` what `arp_search` gives for `dest_ip`.
unfoldable pub mac_send :
    (own : ℕ → ℕ) (found : Option (ℕ → ℕ))
    → Netbuf
    → Memory
    → (dest_ip type : ℕ) (broadcast : Bool) → Sending
mac_send own found b m dest_ip type broadcast =
    let (b1, m1) = mac_header own type b m in
    let b2 = record b1 { ip = dest_ip } in
    let b3 = record b2 { ptr = b2.ptr - 6 } in
    if not (leb (b.buf + 14) b.ptr)
    then refused
    else if broadcast
    then sent b3 (push_mac 6 (λ i. 0xFF) b2.ptr m1)
    else elim found [ some mac ↦ sent b3 (push_mac 6 mac b2.ptr m1) | none ↦ waits b3 m1 ]

unfoldable pub mac_broadcast : (own : ℕ → ℕ) → Netbuf → Memory → (type : ℕ) → Sending
mac_broadcast own b m type =
    let (b1, m1) = mac_header own type b m in
    if not (leb (b.buf + 14) b.ptr)
    then refused
    else sent (record b1 { ptr = b1.ptr - 6 }) (push_mac 6 (λ i. 0xFF) b1.ptr m1)

-- `MAC_BROADCAST` is the lowest flag.
unfoldable pub ip_send :
    (own : ℕ → ℕ) (found : Option (ℕ → ℕ)) → Netbuf → Memory → (src_ip dest_ip flags : ℕ) → Sending
ip_send own found b m src_ip dest_ip flags =
    let (b1, m1) = ip_header src_ip dest_ip b m in
    mac_send own found b1 m1 dest_ip 0x0800 (not (bit_and flags 1 == 0))

unfoldable pub udp_send_from :
    (own : ℕ → ℕ) (found : Option (ℕ → ℕ))
    → Netbuf
    → Memory
    → (dest_ip src_ip src_port dest_port flags : ℕ) → Sending
udp_send_from own found b m dest_ip src_ip src_port dest_port flags =
    let (b1, m1) = udp_header src_port dest_port b m in ip_send own found b1 m1 src_ip dest_ip flags

-- `udp_send`; `our_ip` is what `get_src_ip` gives.
unfoldable pub udp_send :
    (own : ℕ → ℕ) (found : Option (ℕ → ℕ)) (our_ip : ℕ)
    → Netbuf
    → Memory
    → (ip port flags : ℕ) → Sending
udp_send own found our_ip b m ip port flags =
    let (b1, m1) = udp_header port port b m in ip_send own found b1 m1 our_ip ip flags
