-- ===== src/Dhcp/Build.antt =====
-- net/dhcp.c: the messages that the client sends. The options are written from a pointer on, which
-- goes along with the memory.
use operating_system_cortex.Prelude.{ℕ, ◌+◌, ◌-◌, Option}
use operating_system_cortex.Prelude.Bits.{u32}
use operating_system_cortex.Bytes.{Memory, put, store_be16, store_be32, mem_set, mem_copy}
use operating_system_cortex.Net.{Netbuf}
use operating_system_cortex.Net.Headers.{Sending, udp_send_from}
use operating_system_cortex.Dhcp.{header_size, magic_cookie, dhcp_discover, dhcp_request}

unfoldable pub option_end : ℕ × Memory → ℕ × Memory
option_end (ptr, m) = (ptr + 1, put ptr 0xFF m)

unfoldable pub option_msg_type : (type : ℕ) → ℕ × Memory → ℕ × Memory
option_msg_type type (ptr, m) = (ptr + 3, put (ptr + 2) type (put (ptr + 1) 1 (put ptr 53 m)))

unfoldable pub option_set_server_indentifier : (ip : ℕ) → ℕ × Memory → ℕ × Memory
option_set_server_indentifier ip (ptr, m) =
    (ptr + 6, store_be32 ip (ptr + 2) (put (ptr + 1) 4 (put ptr 54 m)))

unfoldable pub option_set_req_ip : (ip : ℕ) → ℕ × Memory → ℕ × Memory
option_set_req_ip ip (ptr, m) = (ptr + 6, store_be32 ip (ptr + 2) (put (ptr + 1) 4 (put ptr 50 m)))

-- The header in the buffer that `alloc_netbuf` gives, whose pointer is `hdr`. `own` is the address
-- of our hardware address.
unfoldable pub dhcp_request_template : (tid own hdr : ℕ) → Memory → Memory
dhcp_request_template tid own hdr m =
    let m1 = put (hdr + 3) 0 (put (hdr + 2) 6 (put (hdr + 1) 1 (put hdr 1 m))) in
    let m2 = store_be16 0 (hdr + 10) (store_be16 0 (hdr + 8) (store_be32 tid (hdr + 4) m1)) in
    let m3 = store_be32 0 (hdr + 16) (store_be32 0 (hdr + 12) m2) in
    let m4 = store_be32 0 (hdr + 24) (store_be32 0 (hdr + 20) m3) in
    let m5 = mem_copy own (hdr + 28) 6 (mem_set (hdr + 28) 0 16 m4) in
    let m6 = mem_set (hdr + 108) 0 128 (mem_set (hdr + 44) 0 64 m5) in
    store_be32 magic_cookie (hdr + header_size) m6

-- The pointer behind the payload, and the memory.
unfoldable pub discover_payload : (tid own hdr : ℕ) → Memory → ℕ × Memory
discover_payload tid own hdr m =
    option_end
      (option_msg_type dhcp_discover (hdr + header_size + 4, dhcp_request_template tid own hdr m))

unfoldable pub request_payload : (tid server_ip granted_ip own hdr : ℕ) → Memory → ℕ × Memory
request_payload tid server_ip granted_ip own hdr m = option_end (
    option_set_req_ip granted_ip (
      option_set_server_indentifier server_ip (
        option_msg_type dhcp_request (hdr + header_size + 4, dhcp_request_template tid own hdr m))))

-- `own` is the address of our hardware address, `found` what `arp_search` would give.
unfoldable pub dhcp_send_discover :
    (own : ℕ) (found : Option (ℕ → ℕ)) → Netbuf → Memory → (tid : ℕ) → Sending
dhcp_send_discover own found b m tid =
    let (options, m') = discover_payload tid own b.ptr m in
    udp_send_from (λ i. m' (own + i)) found (record b { frame_len = u32 (options - b.ptr) }) m'
      0xFFFFFFFF 0 68 67 1

unfoldable pub dhcp_send_request :
    (own : ℕ) (found : Option (ℕ → ℕ)) → Netbuf → Memory → (tid server_ip granted_ip : ℕ) → Sending
dhcp_send_request own found b m tid server_ip granted_ip =
    let (options, m') = request_payload tid server_ip granted_ip own b.ptr m in
    udp_send_from (λ i. m' (own + i)) found (record b { frame_len = u32 (options - b.ptr) }) m'
      0xFFFFFFFF 0 68 67 1
