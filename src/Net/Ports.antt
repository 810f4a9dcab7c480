-- ===== src/Net/Ports.antt =====
-- net/udp.c: the ports that applications listen on, each with the packets that wait for it. The two
-- kinds of lists are sequences here, and the memory that `udp_listen` asks for is there.
pub mod Queues
use operating_system_cortex.Prelude.{
  ℕ, zero, suc, ◌+◌, ◌≡◌, refl, ap, ◌∙◌, sym, Bool, true, false, Option, none, some, List, [], ◌∷◌,
  ◌++◌, ◌==◌, if◌then◌else◌, arith, Bool-cases, inl, inr,
}
use operating_system_cortex.Prelude.Bits.{u16}
use operating_system_cortex.Prelude.Outcome.{Outcome, ok, panic}
use operating_system_cortex.Bytes.{Memory}
use operating_system_cortex.Net.{Netbuf}
use operating_system_cortex.Net.Receive.{Delivery, to_port, to_arp, dropped, mac_receive}

pub record UdpPort : Type 0 where
  pub port : ℕ
  pub packets : List Netbuf

-- `add_netbuf_to_port`
unfoldable pub add_netbuf_to_port : Netbuf → (port : ℕ) → List UdpPort → List UdpPort
add_netbuf_to_port b port [] = []
add_netbuf_to_port b port (p ∷ ports) =
    let rest = add_netbuf_to_port b port ports in
    if p.port == port then record p { packets = p.packets ++ b ∷ [] } ∷ rest else p ∷ rest

-- What `get_netbuf_from_port` does at the port it looks for: for the port and its packets.
abbrev pub pop : List Netbuf → UdpPort → List UdpPort → Option Netbuf × List UdpPort
pop [] p ports = (none, p ∷ ports)
pop (b ∷ packets) p ports = (some b, record p { packets = packets } ∷ ports)

-- `get_netbuf_from_port`: `none` is NULL.
unfoldable pub get_netbuf_from_port : (port : ℕ) → List UdpPort → Option Netbuf × List UdpPort
get_netbuf_from_port port [] = (none, [])
get_netbuf_from_port port (p ∷ ports) =
    let rest = get_netbuf_from_port port ports in
    if p.port == port then pop p.packets p ports else (rest.0, p ∷ rest.1)

-- What becomes of the ports when `mac_receive` ends as told.
unfoldable pub deliver : Delivery → List UdpPort → List UdpPort
deliver (to_port port b) ports = add_netbuf_to_port b port ports
deliver (to_arp b) ports = ports
deliver dropped ports = ports

-- `mac_receive` as the ports see it: `frame` is what `gmac_rec_raw` gives, if that is no error.
abbrev pub received : Option Netbuf → Memory → List UdpPort → List UdpPort
received none m ports = ports
received (some b) m ports = deliver (mac_receive b m) ports

-- `if (buf) return buf;`, and what follows.
abbrev pub or_else :
    Option Netbuf → List UdpPort → Option Netbuf × List UdpPort → Option Netbuf × List UdpPort
or_else (some b) ports next = (some b, ports)
or_else none ports next = next

-- `udp_rec`
unfoldable pub udp_rec :
    (port : ℕ) (frame : Option Netbuf) → Memory → List UdpPort → Option Netbuf × List UdpPort
udp_rec port frame m ports =
    let (buf, ports1) = get_netbuf_from_port port ports in
    or_else buf ports1 (get_netbuf_from_port port (received frame m ports1))

-- The loop of `udp_listen`.
unfoldable pub is_listening : (port : ℕ) → List UdpPort → Bool
is_listening port [] = false
is_listening port (p ∷ ports) =
    let rest = is_listening port ports in if p.port == port then true else rest

-- `udp_listen`
unfoldable pub udp_listen : (port : ℕ) → List UdpPort → Outcome (List UdpPort)
udp_listen port ports =
    if is_listening port ports then panic else ok (record { port = port; packets = [] } ∷ ports)

-- `udp_get_free_port`: the port, and `udp_port` behind it.
unfoldable pub udp_get_free_port : (udp_port : ℕ) → ℕ × ℕ
udp_get_free_port udp_port = (udp_port, u16 (udp_port + 1))
