-- ===== src/Net/Ports/Queues.antt =====
-- The ports of net/udp.c as queues.
use operating_system_cortex.Prelude.{
  ℕ, ◌≡◌, ◌≢◌, refl, ap, ◌∙◌, sym, Bool, true, false, Option, none, some, List, [], ◌∷◌, ◌++◌, ◌==◌,
  if◌then◌else◌, arith, Bool-cases, ◌⊎◌, inl, inr,
}
use operating_system_cortex.Prelude.Outcome.{ok, panic}
use operating_system_cortex.Bytes.{Memory}
use operating_system_cortex.Net.{Netbuf}
use operating_system_cortex.Net.Receive.{Delivery, to_port, to_arp, dropped, mac_receive}
use operating_system_cortex.Net.Ports.{
  UdpPort, add_netbuf_to_port, pop, get_netbuf_from_port, deliver, received, or_else, udp_rec,
  is_listening, udp_listen,
}

-- The packets that wait for a port; `none` if nobody listens there.
abbrev pub queue : List UdpPort → (port : ℕ) → Option (List Netbuf)
queue [] port = none
queue (p ∷ ports) port = if p.port == port then some p.packets else queue ports port

-- A queue with a packet behind it, its first packet, and what is left without that.
abbrev pub joined : Netbuf → Option (List Netbuf) → Option (List Netbuf)
joined b none = none
joined b (some packets) = some (packets ++ b ∷ [])

abbrev pub oldest : Option (List Netbuf) → Option Netbuf
oldest none = none
oldest (some []) = none
oldest (some (b ∷ packets)) = some b

abbrev pub left : Option (List Netbuf) → Option (List Netbuf)
left none = none
left (some []) = some []
left (some (b ∷ packets)) = some packets

abbrev pub is_waiting : Option (List Netbuf) → Bool
is_waiting none = false
is_waiting (some []) = false
is_waiting (some (b ∷ packets)) = true

add_netbuf_to_port-queue :
    (b : Netbuf) (port : ℕ) (ports : List UdpPort) (q : ℕ)
    → queue (add_netbuf_to_port b port ports) q
      ≡ (if port == q then joined b (queue ports q) else queue ports q)
unfolding add_netbuf_to_port
add_netbuf_to_port-queue b port [] q = ground arith
add_netbuf_to_port-queue b port (p ∷ ports) q =
    let rest = add_netbuf_to_port-queue b port ports q in ground arith

pop-queue :
    (port : ℕ) (packets : List Netbuf) (p : UdpPort) (ports : List UdpPort)
    → p.port ≡ port
    → p.packets ≡ packets
    → ((pop packets p ports).0 ≡ oldest (some packets))
      × ((q : ℕ)
          → queue (pop packets p ports).1 q
            ≡ (if port == q then left (some packets) else queue ports q))
pop-queue port [] p ports e f = (refl, λ q. rw (e, f) refl)
pop-queue port (b ∷ packets) p ports e f = (refl, λ q. rw e refl)

get_netbuf_from_port-queue :
    (port : ℕ) (ports : List UdpPort)
    → ((get_netbuf_from_port port ports).0 ≡ oldest (queue ports port))
      × ((q : ℕ)
          → queue (get_netbuf_from_port port ports).1 q
            ≡ (if port == q then left (queue ports q) else queue ports q))
unfolding get_netbuf_from_port
get_netbuf_from_port-queue port [] = (refl, λ q. ground arith)
get_netbuf_from_port-queue port (p ∷ ports) =
    let rest = get_netbuf_from_port-queue port ports in
    elim (Bool-cases (p.port == port)) [
      | inl e ↦
          let same : p.port ≡ port = ground arith in
          let here = pop-queue port p.packets p ports same refl in
          rw e (here.0, λ q. here.1 q ∙ at_port q same)
      | inr e ↦ rw e (rest.0, λ q. ground (arith, e, rest.1 q))
    ]
  where
    at_port :
        (q : ℕ)
        → p.port ≡ port
        → (if port == q then left (some p.packets) else queue ports q)
          ≡ (if port == q then left (queue (p ∷ ports) q) else queue (p ∷ ports) q)
    at_port q same = ground arith

nothing_waits :
    (port : ℕ) (ports : List UdpPort)
    → is_waiting (queue ports port) ≡ false
    → get_netbuf_from_port port ports ≡ (none, ports)
unfolding get_netbuf_from_port
nothing_waits port [] h = refl
nothing_waits port (p ∷ ports) h = elim (Bool-cases (p.port == port)) [
  | inl e ↦ rw e (empty p.packets p ports refl (rw e at h))
  | inr e ↦ let rest = nothing_waits port ports (rw e at h) in rw (e, rest) refl
]
  where
    empty :
        (packets : List Netbuf) (p : UdpPort) (ports : List UdpPort)
        → p.packets ≡ packets
        → is_waiting (some packets) ≡ false
        → pop packets p ports ≡ (none, p ∷ ports)
    empty [] p ports f h = refl
    empty (b ∷ packets) p ports f h = absurd (clash h)
      where
        clash : true ≡ false → ⊥
        clash h = cc

-- The ports that `udp_rec` reads in the end.
abbrev arrived_at : (port : ℕ) → Option Netbuf → Memory → List UdpPort → List UdpPort
arrived_at port frame m ports =
    if is_waiting (queue ports port) then ports else received frame m ports

first_try :
    (r next : Option Netbuf × List UdpPort) (k : Option (List Netbuf))
    → r.0 ≡ oldest k
    → is_waiting k ≡ true
    → or_else r.0 r.1 next ≡ r
first_try r next (some (b ∷ packets)) e h =
    ap (λ (x : Option Netbuf). or_else x r.1 next) e ∙ ap (λ (x : Option Netbuf). (x, r.1)) (sym e)
first_try r next (some []) e h = absurd (clash h)
  where
    clash : false ≡ true → ⊥
    clash h = cc
first_try r next none e h = absurd (clash h)
  where
    clash : false ≡ true → ⊥
    clash h = cc

udp_rec_lem :
    (port : ℕ) (frame : Option Netbuf) (m : Memory) (ports : List UdpPort)
    → udp_rec port frame m ports ≡ get_netbuf_from_port port (arrived_at port frame m ports)
unfolding udp_rec
udp_rec_lem port frame m ports = elim (Bool-cases (is_waiting (queue ports port))) [
  | inr e ↦
      let next = λ (r : Option Netbuf × List UdpPort).
        or_else r.0 r.1 (get_netbuf_from_port port (received frame m r.1)) in
      ap next (nothing_waits port ports e) ∙ rw e refl
  | inl e ↦
      first_try (get_netbuf_from_port port ports)
        (get_netbuf_from_port port (received frame m (get_netbuf_from_port port ports).1))
        (queue ports port) (get_netbuf_from_port-queue port ports).0 e
      ∙ rw e refl
]

-- The queues after `mac_receive`.
abbrev pub delivered : Delivery → (ℕ → Option (List Netbuf)) → ℕ → Option (List Netbuf)
delivered (to_port port b) k q = if port == q then joined b (k q) else k q
delivered (to_arp b) k q = k q
delivered dropped k q = k q

-- The queues that `udp_rec` reads in the end: the card is only asked if nothing waits.
abbrev pub heard :
    (port : ℕ) (frame : Option Netbuf)
    → Memory
    → (ℕ → Option (List Netbuf))
    → ℕ
    → Option (List Netbuf)
heard port none m k q = k q
heard port (some b) m k q = if is_waiting (k port) then k q else delivered (mac_receive b m) k q

deliver-queue :
    (d : Delivery) (ports : List UdpPort) (q : ℕ)
    → queue (deliver d ports) q ≡ delivered d (queue ports) q
unfolding deliver
deliver-queue (to_port port b) ports q = add_netbuf_to_port-queue b port ports q
deliver-queue (to_arp b) ports q = refl
deliver-queue dropped ports q = refl

arrived_queue :
    (port : ℕ) (frame : Option Netbuf) (m : Memory) (ports : List UdpPort) (q : ℕ)
    → queue (arrived_at port frame m ports) q ≡ heard port frame m (queue ports) q
arrived_queue port none m ports q = elim (Bool-cases (is_waiting (queue ports port))) [
  | inl e ↦ rw e refl
  | inr e ↦ rw e refl
]
arrived_queue port (some b) m ports q = elim (Bool-cases (is_waiting (queue ports port))) [
  | inl e ↦ rw e refl
  | inr e ↦ rw e (deliver-queue (mac_receive b m) ports q)
]

-- On the queues of the ports, `udp_rec` does this: if nothing waits for its port and the card has a
-- frame, a packet for a port in that frame goes to the end of that port's queue; then the oldest
-- packet for its port is given and leaves its queue. No other queue changes.
pub udp_rec-queue :
    (port : ℕ) (frame : Option Netbuf) (m : Memory) (ports : List UdpPort)
    → ((udp_rec port frame m ports).0 ≡ oldest (heard port frame m (queue ports) port))
      × ((q : ℕ)
          → queue (udp_rec port frame m ports).1 q ≡ (
              if port == q
              then left (heard port frame m (queue ports) q)
              else heard port frame m (queue ports) q))
udp_rec-queue port frame m ports =
    let heard_is = arrived_queue port frame m ports in
    let r = get_netbuf_from_port-queue port (arrived_at port frame m ports) in
    rw (udp_rec_lem port frame m ports) (
      r.0 ∙ ap oldest (heard_is port),
      λ q. r.1 q ∙ ap (λ (k : Option (List Netbuf)). if port == q then left k else k) (heard_is q),
    )

is_listening-queue :
    (port : ℕ) (ports : List UdpPort)
    → (is_listening port ports ≡ true → queue ports port ≢ none)
      × (is_listening port ports ≡ false → queue ports port ≡ none)
unfolding is_listening
is_listening-queue port [] = (λ h x. cc, λ h. refl)
is_listening-queue port (p ∷ ports) =
    let rest = is_listening-queue port ports in
    elim (Bool-cases (p.port == port)) [
      | inl e ↦ rw e (λ h x. cc, λ h. absurd (clash h))
      | inr e ↦ rw e rest
    ]
  where
    clash : true ≡ false → ⊥
    clash h = cc

-- `udp_listen` opens an empty queue at a port where nobody listens and changes no other; where
-- somebody listens already, it panics.
pub udp_listen-queue :
    (port : ℕ) (ports : List UdpPort)
    → (udp_listen port ports ≡ panic) × (queue ports port ≢ none)
      ⊎ (queue ports port ≡ none)
        × ((ports' : List UdpPort) × (udp_listen port ports ≡ ok ports')
            × ((q : ℕ) → queue ports' q ≡ (if port == q then some [] else queue ports q)))
unfolding udp_listen
udp_listen-queue port ports = elim (Bool-cases (is_listening port ports)) [
  | inl e ↦ rw e (inl (refl, (is_listening-queue port ports).0 e))
  | inr e ↦ rw e (
      inr (
        (is_listening-queue port ports).1 e,
        (record { port = port; packets = [] } ∷ ports, refl, λ q. refl),
      ))
]
