-- ===== src/Net/Arp/Packets.antt =====
-- net/arp.c and net/mac.c: the packets of ARP, written, read and acted on, and the frames that wait
-- for an answer. The table is that of Net.Arp.
use operating_system_cortex.Prelude.{
  ℕ, zero, suc, ◌+◌, Bool, true, false, not, Option, none, some, List, [], ◌∷◌, ◌==◌, ltb,
  if◌then◌else◌,
}
use Prim.Native.Nat.{bit_and}
use operating_system_cortex.Prelude.Bits.{◌>>>◌}
use operating_system_cortex.Prelude.Outcome.{Outcome, ok, error, panic}
use operating_system_cortex.Bytes.{Memory, put, read_be16, read_be32, store_be16, store_be32}
use operating_system_cortex.Net.{Netbuf}
use operating_system_cortex.Net.Headers.{Sending, mac_send, mac_broadcast}
use operating_system_cortex.Net.Arp.{Table, arp_alloc_mapping, arp_add_new_mapping, ◌>>=◌}

-- `for (i = 0; i < n; i++) dest[i] = src[i];`, from `i` on.
unfoldable pub copy_mac : (n i : ℕ) → (src : ℕ → ℕ) → (dest : ℕ) → Memory → Memory
copy_mac zero i src dest m = m
copy_mac (suc n) i src dest m = copy_mac n (suc i) src dest (put (dest + i) (src i) m)

-- `mac_copy`
unfoldable pub mac_copy : (src : ℕ → ℕ) → (dest : ℕ) → Memory → Memory
unfolding copy_mac
mac_copy src dest m = copy_mac 6 0 src dest m

-- `*ptr++ = (ip >> 24 & 0xFF);` and the three bytes behind it.
abbrev pub push_ip : (ip ptr : ℕ) → Memory → Memory
push_ip ip ptr m = put (ptr + 3) (bit_and (ip >>> 0) 0xFF) (
    put (ptr + 2) (bit_and (ip >>> 8) 0xFF)
      (put (ptr + 1) (bit_and (ip >>> 16) 0xFF) (put ptr (bit_and (ip >>> 24) 0xFF) m)))

-- The packet of `arp_request`, from `ptr` on; the bytes of the target's address are left alone.
unfoldable pub request_packet : (own : ℕ → ℕ) → (dest_ip src_ip ptr : ℕ) → Memory → Memory
request_packet own dest_ip src_ip ptr m =
    let m1 = put (ptr + 3) 0x00 (put (ptr + 2) 0x08 (put (ptr + 1) 0x01 (put ptr 0x00 m))) in
    let m2 = put (ptr + 7) 0x01 (put (ptr + 6) 0x00 (put (ptr + 5) 4 (put (ptr + 4) 6 m1))) in
    let m3 = push_ip src_ip (ptr + 14) (mac_copy own (ptr + 8) m2) in push_ip dest_ip (ptr + 24) m3

-- The packet of `arp_handle_req` at `dest_hdr`, for the request at `src_hdr`.
unfoldable pub reply_packet : (own : ℕ → ℕ) → (our_ip src_hdr dest_hdr : ℕ) → Memory → Memory
reply_packet own our_ip src_hdr dest_hdr m =
    let m1 = store_be16 0x0800 (dest_hdr + 2) (store_be16 0x0001 dest_hdr m) in
    let m2 = store_be16 2 (dest_hdr + 6) (put (dest_hdr + 5) 4 (put (dest_hdr + 4) 6 m1)) in
    let m3 = store_be32 our_ip (dest_hdr + 14) (mac_copy own (dest_hdr + 8) m2) in
    let m4 = mac_copy (λ i. m3 (src_hdr + 8 + i)) (dest_hdr + 18) m3 in
    store_be32 (read_be32 (src_hdr + 14) m4) (dest_hdr + 24) m4

-- What `arp_receive` makes of a packet: nothing, a call of `arp_handle_reply`, or one of
-- `arp_handle_req`.
pub data Kind : Type 0 where
  ignored is_reply is_request : Kind

unfoldable pub arp_receive : Netbuf → Memory → Kind
arp_receive b m =
    if ltb b.frame_len 28
    then ignored
    else if not (read_be16 b.ptr m == 1)
    then ignored
    else if not (read_be16 (b.ptr + 2) m == 0x0800)
    then ignored
    else if not (m (b.ptr + 4) == 6)
    then ignored
    else if not (m (b.ptr + 5) == 4)
    then ignored
    else if read_be16 (b.ptr + 6) m == 2
    then is_reply
    else if read_be16 (b.ptr + 6) m == 1
    then is_request
    else ignored

-- The test of the target's address, from byte `i` on.
unfoldable pub same_mac : (n i : ℕ) → (mac own : ℕ → ℕ) → Bool
same_mac zero i mac own = true
same_mac (suc n) i mac own =
    let rest = same_mac n (suc i) mac own in if not (mac i == own i) then false else rest

-- `arp_handle_reply`, before it calls `mac_unqueue`: the address that the reply is for, if it is for
-- us, and the table with the new mapping.
unfoldable pub arp_handle_reply :
    (fuel : ℕ) (own : ℕ → ℕ) → Netbuf → Memory → Table → Option (Outcome (ℕ × Table))
arp_handle_reply fuel own b m s =
    let ip = read_be32 (b.ptr + 14) m in
    let learnt =
      arp_add_new_mapping fuel ip (λ i. m (b.ptr + 8 + i)) s >>= λ r. some (with_ip ip r) in
    if not (same_mac 6 0 (λ i. m (b.ptr + 18 + i)) own) then some (ok (0, s)) else learnt
  where
    with_ip : ℕ → Outcome Table → Outcome (ℕ × Table)
    with_ip ip (ok s') = ok (ip, s')
    with_ip ip (error code) = error code
    with_ip ip panic = panic
    with_ip ip Outcome.undefined = Outcome.undefined

-- `arp_request`, with the buffer that `alloc_netbuf` gives; a mapping that is there already is no
-- hindrance.
unfoldable pub arp_request :
    (fuel new : ℕ) (own : ℕ → ℕ)
    → (dest_ip src_ip : ℕ) → Netbuf
    → Memory
    → Table
    → Option (Outcome (Sending × Table))
arp_request fuel new own dest_ip src_ip b m s =
    let b' = record b { frame_len = 28 } in
    let frame = mac_broadcast own b' (request_packet own dest_ip src_ip b.ptr m) 0x0806 in
    arp_alloc_mapping fuel new dest_ip s >>= λ r. some (and_send frame s r)
  where
    and_send : Sending → Table → Outcome Table → Outcome (Sending × Table)
    and_send frame s (ok s') = ok (frame, s')
    and_send frame s (error code) = ok (frame, s)
    and_send frame s panic = panic
    and_send frame s Outcome.undefined = Outcome.undefined

-- `arp_handle_req`: `b` is the request, `rep` the buffer that `alloc_netbuf` gives, `our_ip` what
-- `get_src_ip` gives, and `found` what `arp_search` gives for the sender.
unfoldable pub arp_handle_req :
    (own : ℕ → ℕ) (found : Option (ℕ → ℕ)) (our_ip : ℕ) → (b rep : Netbuf) → Memory → Sending
arp_handle_req own found our_ip b rep m =
    let m' = reply_packet own our_ip b.ptr rep.ptr m in
    mac_send own found rep m' (read_be32 (b.ptr + 14) m') 0x0806 false

-- `for (i = 0; i < n; i++) buf->ptr[i] = 0x44;`
unfoldable pub fill_target : (n ptr : ℕ) → Memory → Memory
fill_target zero ptr m = m
fill_target (suc n) ptr m = fill_target n (ptr + 1) (put ptr 0x44 m)

-- `mac_unqueue`: the frames that it sends, and the memory. `found` is what `arp_search` gives.
unfoldable pub mac_unqueue :
    (ip : ℕ) (found : Option (ℕ → ℕ)) → List Netbuf → Memory → Outcome (List Netbuf × Memory)
mac_unqueue ip found [] m = ok ([], m)
mac_unqueue ip found (b ∷ queue) m =
    let rest = mac_unqueue ip found queue m in
    let after = mac_unqueue ip found queue (fill_target 6 b.ptr m) in
    if not (b.ip == ip) then rest else elim found [ none ↦ panic | some mac ↦ and_sent b after ]
  where
    and_sent : Netbuf → Outcome (List Netbuf × Memory) → Outcome (List Netbuf × Memory)
    and_sent b (ok (sent, m')) = ok (b ∷ sent, m')
    and_sent b (error code) = error code
    and_sent b panic = panic
    and_sent b Outcome.undefined = Outcome.undefined
