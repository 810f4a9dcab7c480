-- ===== src/Net/Tests.antt =====
-- Runs of the packet layers, of the pool of buffers and of the ARP table.
use operating_system_cortex.Prelude.{
  ap, ◌-◌, ◌≤◌, ℕ, zero, suc, ◌+◌, ◌^◌, ◌%◌, ◌<◌, ◌≡◌, refl, not, some, List, [], ◌∷◌, ◌==◌,
  if◌then◌else◌, arith, Bool-cases, inl, inr,
}
use Prim.Native.Nat.{bit_and}
use operating_system_cortex.Prelude.Outcome.{ok}
use operating_system_cortex.Prelude.Sets.{has, ◌∈◌, ◌∉◌}
use operating_system_cortex.ListNode
use operating_system_cortex.ListNode.{Ptr}
use operating_system_cortex.ListNode.Ring.{IsRing}
use operating_system_cortex.Bytes
use operating_system_cortex.Net.{Netbuf}
use operating_system_cortex.Net.Headers.{sent, udp_send_from}
use operating_system_cortex.Net.Receive.{to_port, mac_receive, ip_receive, udp_handle}
use operating_system_cortex.Net.Layers.{SameFrom}
use operating_system_cortex.Net.Frames.{target, udp_send_from-mac_receive}
use operating_system_cortex.Net.Address.{str_to_ipv4, str_to_ipv4_lem}
use operating_system_cortex.Net.Pool.{Pool, AllNew}
use operating_system_cortex.Net.Arp.{Table, arp_add_new_mapping}
use operating_system_cortex.Net.Arp.Mapping.{known, mapping, Holds}
use operating_system_cortex.Net.Arp.Reply.{arp_add_new_mapping-asked}
use operating_system_cortex.Net.Ports.{
  UdpPort, get_netbuf_from_port, deliver, add_netbuf_to_port, udp_rec,
}
use operating_system_cortex.Net.Ports.Queues.{queue, oldest, left, heard, udp_rec-queue}
use operating_system_cortex.Net.Arp.Packets.{
  request_packet, reply_packet, is_reply, is_request, arp_receive, arp_handle_reply,
}
use operating_system_cortex.Net.Arp.Exchange.{Carried, arp_exchange}

abbrev ramp : Bytes.Memory
ramp p = p % 2 ^ 8

abbrev our_mac : ℕ → ℕ
our_mac i = 0xa0 + i

abbrev their_mac : ℕ → ℕ
their_mac i = 0xb0 + i

abbrev packet : Netbuf
packet = record { buf = 1000; ptr = 1074; frame_len = 4; ip = 0 }

udp_send_from-mac_receive_example :
    (frame : Netbuf) × (g : Bytes.Memory) × (udp_send_from our_mac
        (some their_mac)
        packet
        ramp
        0xc0a80002
        0xc0a80001
        1000
        69
        0
      ≡ sent frame g)
    × (mac_receive frame g ≡ to_port 69 (record packet { ip = 0xc0a80002 }))
    × ((frame.ptr ≡ 1032) × (frame.frame_len ≡ 46))
    × SameFrom 1074 ramp g
    × ((i : ℕ) → i < 6 → g (1032 + i) ≡ target (not (bit_and 0 1 == 0)) their_mac i)
    × ((i : ℕ) → i < 6 → g (1032 + 6 + i) ≡ our_mac i)
udp_send_from-mac_receive_example =
    udp_send_from-mac_receive 1032 4 0xc0a80002 0xc0a80001 1000 69 0 our_mac their_mac packet ramp
      refl (omega arith) refl (omega arith) (omega arith) (omega arith)

-- The pool at 1, whose buffers lie one word apart.
abbrev one_apart : ℕ → Ptr
one_apart i = i + 2

one_apart-AllNew :
    (count i : ℕ) (xs : List Ptr) → ((p : Ptr) → p ∈ xs → p < i + 2) → AllNew one_apart count i 1 xs
one_apart-AllNew zero i xs below = tt
one_apart-AllNew (suc count) i xs below = (
  λ e. omega arith,
  outside,
  one_apart-AllNew count (suc i) (one_apart i ∷ xs) (λ p j. ground (arith, below p)),
)
  where
    outside : one_apart i ∉ 1 ∷ xs
    outside = elim (Bool-cases (has (i + 2) xs)) [
      | inl j ↦ let less : i + 2 < i + 2 = below (i + 2) j in absurd (omega arith)
      | inr j ↦ ground arith
    ]

abbrev blank : ListNode.Memory
blank = record { next = λ p. 0; prev = λ p. 0 }

-- The head 100 and the nodes 1 and 2.
abbrev two_nodes : ListNode.Memory
two_nodes = record {
  next = λ p. if p == 100 then 1 else if p == 1 then 2 else if p == 2 then 100 else 0;
  prev = λ p. if p == 100 then 2 else if p == 1 then 100 else if p == 2 then 1 else 0;
}

two_nodes-IsRing : IsRing two_nodes 100 (1 ∷ 2 ∷ [])
two_nodes-IsRing = record { chain = ground arith; distinct = ground arith }

abbrev small_pool : Pool
small_pool = record { pool = 100; nodes = two_nodes; ptr = λ p. 0 }

-- Address 10 is known, 11 is asked for.
abbrev small_table : Table
small_table = record {
  arp_list = 100;
  nodes = two_nodes;
  entry = λ p.
      if p == 1
      then record { ip = 10; mac = their_mac; waiting = 0 }
      else record { ip = 11; mac = our_mac; waiting = 1 };
}

small_table-Holds : Holds small_table (1 ∷ 2 ∷ [])
small_table-Holds = record {
  ring = two_nodes-IsRing;
  is_map = (refl, omega arith, (refl, omega arith, tt));
}

arp_add_new_mapping-asked_example :
    (s' : Table) × (arp_add_new_mapping 3 11 their_mac small_table ≡ some (ok s'))
    × Holds s' (1 ∷ 2 ∷ [])
    × ((ip' : ℕ)
        → mapping s'.entry (1 ∷ 2 ∷ []) ip'
          ≡ (if 11 == ip' then known their_mac else mapping small_table.entry (1 ∷ 2 ∷ []) ip'))
arp_add_new_mapping-asked_example =
    arp_add_new_mapping-asked 3 11 their_mac small_table (1 ∷ 2 ∷ []) small_table-Holds
      (omega arith) refl

-- "192.168.0.1"
str_to_ipv4_lem_example :
    str_to_ipv4 (49 ∷ 57 ∷ 50 ∷ 46 ∷ 49 ∷ 54 ∷ 56 ∷ 46 ∷ 48 ∷ 46 ∷ 49 ∷ []) 7 ≡ ok 0xc0a80001
str_to_ipv4_lem_example =
    str_to_ipv4_lem 1 1 0 1 (9 ∷ 2 ∷ []) (6 ∷ 8 ∷ []) [] [] 7
      ((omega arith, (omega arith, (omega arith, tt))), omega arith)
      ((omega arith, (omega arith, (omega arith, tt))), omega arith)
      ((omega arith, tt), omega arith) ((omega arith, tt), omega arith)

-- The question for 11 lies at 2000 and arrives at 3000; the answer lies at 4000 and arrives at 5000.
abbrev asked_at : Bytes.Memory
asked_at = request_packet our_mac 11 10 2000 ramp

abbrev arrived : Bytes.Memory
arrived a = asked_at (a - 1000)

abbrev answered_at : Bytes.Memory
answered_at = reply_packet their_mac 11 3000 4000 arrived

abbrev came_back : Bytes.Memory
came_back a = answered_at (a - 1000)

shifted : (p : ℕ) → 1000 ≤ p → (m : Bytes.Memory) → Carried (p - 1000) p m (λ a. m (a - 1000))
shifted p far m i l = ap m (omega arith)

abbrev full : ℕ → Netbuf
full p = record packet { ptr = p; frame_len = 28 }

arp_exchange_example :
    (arp_receive (full 3000) arrived ≡ is_request)
    × (arp_receive (full 5000) came_back ≡ is_reply)
    × ((mac : ℕ → ℕ) × (s' : Table) × (arp_handle_reply 3 our_mac (full 5000) came_back small_table
          ≡ some (ok (11, s')))
        × Holds s' (1 ∷ 2 ∷ [])
        × (mapping s'.entry (1 ∷ 2 ∷ []) 11 ≡ known mac)
        × ((i : ℕ) → i < 6 → mac i ≡ their_mac i))
arp_exchange_example =
    arp_exchange 3 2000 3000 4000 5000 10 11 our_mac their_mac ramp arrived came_back (full 3000)
      (full 5000) small_table (1 ∷ 2 ∷ []) (omega arith) (omega arith)
      (shifted 3000 (omega arith) asked_at) (inl (omega arith))
      (shifted 5000 (omega arith) answered_at) (omega arith) small_table-Holds (omega arith) refl

-- Nobody has written to port 68 yet, and a packet waits at port 69.
abbrev two_ports : List UdpPort
two_ports = record { port = 68; packets = [] } ∷ record { port = 69; packets = packet ∷ [] } ∷ []

-- At 3000, a frame with a packet for port 68.
abbrev for_68 : Bytes.Memory
for_68 a =
    if a == 3012
    then 8
    else if a == 3014
    then 0x45
    else if a == 3017
    then 48
    else if a == 3023
    then 0x11
    else if a == 3037
    then 68
    else 0

udp_rec-queue_example :
    ((udp_rec 68 (some (full 3000)) for_68 two_ports).0
      ≡ oldest (heard 68 (some (full 3000)) for_68 (queue two_ports) 68))
    × ((q : ℕ)
        → queue (udp_rec 68 (some (full 3000)) for_68 two_ports).1 q ≡ (
            if 68 == q
            then left (heard 68 (some (full 3000)) for_68 (queue two_ports) q)
            else heard 68 (some (full 3000)) for_68 (queue two_ports) q))
udp_rec-queue_example = udp_rec-queue 68 (some (full 3000)) for_68 two_ports

udp_rec_68 :
    (udp_rec 68 (some (full 3000)) for_68 two_ports).0
    ≡ some (record packet { ptr = 3042; frame_len = 20 })
unfolding udp_rec get_netbuf_from_port deliver mac_receive ip_receive udp_handle add_netbuf_to_port
    Bytes.read_be16
udp_rec_68 = refl
