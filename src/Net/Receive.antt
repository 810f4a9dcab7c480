-- ===== src/Net/Receive.antt =====
-- net/mac.c, net/ip.c and net/udp.c: a frame that arrives loses one header after another.
use operating_system_cortex.Prelude.{ℕ, ◌+◌, ◌*◌, ◌==◌, if◌then◌else◌}
use Prim.Native.Nat.{bit_and}
use operating_system_cortex.Prelude.Bits.{sub32}
use operating_system_cortex.Bytes.{Memory, read_be16}
use operating_system_cortex.Net.{Netbuf}

-- Where a frame ends up: with `add_netbuf_to_port`, with `arp_receive`, or nowhere.
pub data Delivery : Type 0 where
  to_port : (port : ℕ) → Netbuf → Delivery
  to_arp : Netbuf → Delivery
  dropped : Delivery

unfoldable pub udp_handle : Netbuf → Memory → Delivery
udp_handle b m =
    to_port (read_be16 (b.ptr + 2) m)
      (record b { ptr = b.ptr + 8; frame_len = sub32 b.frame_len 8 })

unfoldable pub ip_receive : Netbuf → Memory → Delivery
ip_receive b m =
    let size = read_be16 (b.ptr + 2) m in
    let protocol = m (b.ptr + 9) in
    let header_len = bit_and (m b.ptr) 0xF * 4 in
    let b' = record b { ptr = b.ptr + header_len; frame_len = sub32 size header_len } in
    if protocol == 0x11 then udp_handle b' m else dropped

-- `mac_receive`, for the frame that `gmac_rec_raw` gives.
unfoldable pub mac_receive : Netbuf → Memory → Delivery
mac_receive b m =
    let type = read_be16 (b.ptr + 12) m in
    let b' = record b { ptr = b.ptr + 12 + 2; frame_len = sub32 b.frame_len 14 } in
    if type == 0x0806 then to_arp b' else if type == 0x0800 then ip_receive b' m else dropped
