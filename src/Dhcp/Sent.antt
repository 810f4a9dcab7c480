-- ===== src/Dhcp/Sent.antt =====
-- A server that gets the messages of the client reads from them what was meant.
use operating_system_cortex.Prelude.{
  ℕ, ◌+◌, ◌-◌, ◌^◌, ◌≤◌, ◌<◌, ◌≡◌, refl, ap, ◌∙◌, Option, some, List, [], ◌∷◌, arith,
}
use Prim.Native.Nat.{bit_and}
use operating_system_cortex.Prelude.Bits.{◌>>>◌, u32}
use operating_system_cortex.Prelude.Outcome.{ok}
use operating_system_cortex.Bytes.{Memory, store_be32, read_be32}
use operating_system_cortex.Bytes.Words.{read_be32-store_be32}
use operating_system_cortex.Net.{Netbuf}
use operating_system_cortex.Net.Headers.{sent, udp_send_from, ip_send, mac_send}
use operating_system_cortex.Net.Receive.{mac_receive, to_port}
use operating_system_cortex.Net.Layers.{SameFrom}
use operating_system_cortex.Net.Frames.{udp_send_from-mac_receive}
use operating_system_cortex.Dhcp.{
  header_size, magic_cookie, dhcp_request, get_option_ptr, get_dhcp_type,
}
use operating_system_cortex.Dhcp.Options.{Stored, Entry, field, get_option_ptr-first_at}
use operating_system_cortex.Dhcp.Bounds.{read_be32-same}
use operating_system_cortex.Dhcp.Build.{
  option_end, option_msg_type, option_set_server_indentifier, option_set_req_ip,
  dhcp_request_template, request_payload, dhcp_send_request,
}

read_stored32 : (val p : ℕ) (m : Memory) → val < 2 ^ 32 → read_be32 p (store_be32 val p m) ≡ val
read_stored32 val p m h =
    let blank : Memory = λ q. 0 in
    read_be32-same p 4 p (store_be32 val p blank) (store_be32 val p m)
      (λ q low high. unfold store_be32 in ground arith) (omega arith) (omega arith)
    ∙ (read_be32-store_be32 {m = blank} val p (λ q. omega arith) h).0

-- The bytes of an address, the highest first.
abbrev address : ℕ → List ℕ
address ip =
    bit_and (ip >>> 24) 0xff
    ∷ (bit_and (ip >>> 16) 0xff ∷ (bit_and (ip >>> 8) 0xff ∷ (bit_and (ip >>> 0) 0xff ∷ [])))

abbrev request_options : (server_ip granted_ip : ℕ) → List Entry
request_options server_ip granted_ip =
    (53, dhcp_request ∷ []) ∷ ((54, address server_ip) ∷ ((50, address granted_ip) ∷ []))

-- The options of a request, written from `p` on.
abbrev written : (server_ip granted_ip p : ℕ) → Memory → ℕ × Memory
written server_ip granted_ip p m = option_end (
    option_set_req_ip granted_ip
      (option_set_server_indentifier server_ip (option_msg_type dhcp_request (p, m))))

module _ (server_ip granted_ip p : ℕ) (m : Memory) where
  written-end : (written server_ip granted_ip p m).0 ≡ p + 16
  unfolding option_end option_msg_type option_set_server_indentifier option_set_req_ip
  written-end = omega arith

  written-below : (q : ℕ) → q < p → (written server_ip granted_ip p m).1 q ≡ m q
  unfolding option_end option_msg_type option_set_server_indentifier option_set_req_ip store_be32
  written-below q low = ground arith

  written-Stored :
      Stored p (field (request_options server_ip granted_ip)) (written server_ip granted_ip p m).1
  unfolding option_end option_msg_type option_set_server_indentifier option_set_req_ip store_be32
  written-Stored = ground arith

  written-server :
      server_ip < 2 ^ 32 → read_be32 (p + 5) (written server_ip granted_ip p m).1 ≡ server_ip
  unfolding option_end option_msg_type option_set_server_indentifier option_set_req_ip
  written-server h =
      let blank : Memory = λ q. 0 in
      read_be32-same (p + 5) 4 (p + 5) (store_be32 server_ip (p + 5) blank)
        (written server_ip granted_ip p m).1 (λ q low high. unfold store_be32 in ground arith)
        (omega arith) (omega arith)
      ∙ read_stored32 server_ip (p + 5) blank h

  written-granted :
      granted_ip < 2 ^ 32 → read_be32 (p + 11) (written server_ip granted_ip p m).1 ≡ granted_ip
  unfolding option_end option_msg_type option_set_server_indentifier option_set_req_ip
  written-granted h =
      let blank : Memory = λ q. 0 in
      read_be32-same (p + 11) 4 (p + 11) (store_be32 granted_ip (p + 11) blank)
        (written server_ip granted_ip p m).1 (λ q low high. unfold store_be32 in ground arith)
        (omega arith) (omega arith)
      ∙ read_stored32 granted_ip (p + 11) blank h

Stored-same : (p : ℕ) (xs : List ℕ) (m g : Memory) → SameFrom p m g → Stored p xs m → Stored p xs g
Stored-same p [] m g same s = tt
Stored-same p (x ∷ xs) m g same s =
    (same p (omega arith) ∙ s.0, Stored-same (p + 1) xs m g (λ q h. same q (omega arith)) s.1)

template-cookie :
    (tid own hdr : ℕ) (m : Memory)
    → read_be32 (hdr + 236) (dhcp_request_template tid own hdr m) ≡ magic_cookie
unfolding dhcp_request_template
template-cookie tid own hdr m = read_stored32 magic_cookie (hdr + 236) _ (omega arith)

-- A packet for all goes out, whatever `arp_search` would give.
broadcast_any :
    (dest_ip src_ip src_port dest_port : ℕ) (own : ℕ → ℕ) (found : Option (ℕ → ℕ)) (b : Netbuf)
    (m : Memory)
    → udp_send_from own found b m dest_ip src_ip src_port dest_port 1
      ≡ udp_send_from own (some (λ i. 0xFF)) b m dest_ip src_ip src_port dest_port 1
unfolding udp_send_from ip_send mac_send
broadcast_any dest_ip src_ip src_port dest_port own found b m = refl

-- Whatever `arp_search` would give, a request of the client goes out at once, in a frame for all
-- hosts with what stands at `own` as its source, which the receiver hands to port 67, with its pointer on the
-- message; there it reads the message's type, and the addresses of the server and of the client that
-- the request was made with. It holds for a buffer with room for the headers.
pub dhcp_send_request-received :
    (fuel o tid server_ip granted_ip own : ℕ) (found : Option (ℕ → ℕ)) (b : Netbuf) (m : Memory)
    → b.ptr ≡ o + 42
    → b.buf ≤ o
    → server_ip < 2 ^ 32
    → granted_ip < 2 ^ 32
    → 20 ≤ fuel
    → (frame : Netbuf) × (g : Memory) × (b' : Netbuf) × (dhcp_send_request own found b m tid
          server_ip granted_ip
        ≡ sent frame g)
      × ((i : ℕ) → i < 6 → g (frame.ptr + i) ≡ 0xFF)
      × ((i : ℕ)
          → i < 6
          → g (frame.ptr + 6 + i)
            ≡ (request_payload tid server_ip granted_ip own b.ptr m).1 (own + i))
      × (mac_receive frame g ≡ to_port 67 b')
      × ((b'.ptr ≡ b.ptr) × (b'.frame_len ≡ header_size + 20))
      × (get_dhcp_type fuel (b.ptr + header_size) 20 g ≡ some dhcp_request)
      × ((get_option_ptr fuel (b.ptr + header_size) 20 54 g ≡ some (ok (b.ptr + 243)))
          × (read_be32 (b.ptr + 245) g ≡ server_ip))
      × ((get_option_ptr fuel (b.ptr + header_size) 20 50 g ≡ some (ok (b.ptr + 249)))
          × (read_be32 (b.ptr + 251) g ≡ granted_ip))
unfolding dhcp_send_request request_payload get_dhcp_type
dhcp_send_request-received fuel o tid server_ip granted_ip own found b m at room hs hg enough =
    let hdr = b.ptr in
    let p = hdr + header_size + 4 in
    let template = dhcp_request_template tid own hdr m in
    let payload = (written server_ip granted_ip p template).1 in
    let end : u32 ((written server_ip granted_ip p template).0 - b.ptr) ≡ 256 =
      omega (arith, written-end server_ip granted_ip p template) in
    let b1 = record b { frame_len = 256 } in
    let net =
      udp_send_from-mac_receive o 256 0xFFFFFFFF 0 68 67 1 (λ i. payload (own + i)) (λ i. 0xFF) b1
        payload at room refl (omega arith) (omega arith) (omega arith) in
    let (frame, g, send, receive, sizes, same, targets, ours) = net in
    let cookie : read_be32 (hdr + header_size) g ≡ magic_cookie =
      read_be32-same (hdr + 236) 4 (hdr + 236) template g
        (λ q low high.
          same q (omega arith) ∙ written-below server_ip granted_ip p template q (omega arith))
        (omega arith) (omega arith)
      ∙ template-cookie tid own hdr m in
    let stored =
      Stored-same p (field (request_options server_ip granted_ip)) payload g
        (λ q h. same q (omega arith)) (written-Stored server_ip granted_ip p template) in
    let find = λ (number : ℕ).
      get_option_ptr-first_at fuel (hdr + header_size) 20 number
        (request_options server_ip granted_ip) g cookie stored
        (omega arith, (omega arith, (omega arith, tt))) (omega arith) enough in
    let two : p + 2 ≡ p + 1 + 1 = omega arith in
    let type : g (p + 2) ≡ dhcp_request = rw two stored.1.1.0 in
    let server : p + 2 + 1 ≡ hdr + 243 = omega arith in
    let granted : p + 2 + 1 + 2 + 4 ≡ hdr + 249 = omega arith in
    let read = λ (q : ℕ) (low : hdr ≤ q).
      read_be32-same q 4 q payload g (λ r h h'. same r (omega (arith, low))) (omega arith)
        (omega arith) in
    let at_server : b.ptr + 245 ≡ p + 5 = omega arith in
    let at_granted : b.ptr + 251 ≡ p + 11 = omega arith in
    rw end (
      frame,
      g,
      _,
      broadcast_any 0xFFFFFFFF 0 68 67 (λ i. payload (own + i)) found b1 payload ∙ send,
      rw sizes.0 targets,
      rw sizes.0 ours,
      receive,
      (refl, refl),
      rw (find 53, type) refl,
      (
        find 54 ∙ ap (λ (x : ℕ). some (ok x)) server,
        rw at_server
            (read (p + 5) (omega arith) ∙ written-server server_ip granted_ip p template hs),
      ),
      (
        find 50 ∙ ap (λ (x : ℕ). some (ok x)) granted,
        rw at_granted
            (read (p + 11) (omega arith) ∙ written-granted server_ip granted_ip p template hg),
      ),
    )
