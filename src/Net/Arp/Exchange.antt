-- ===== src/Net/Arp/Exchange.antt =====
-- A question of one host and the answer of another: the table of the first gets the mapping.
use operating_system_cortex.Prelude.{
  ℕ, zero, suc, ◌+◌, ◌^◌, ◌≤◌, ◌<◌, ◌≡◌, refl, ◌∙◌, ◌⊎◌, true, false, some, List, ◌==◌, ltb, arith,
  length,
}
use operating_system_cortex.Prelude.Outcome.{ok}
use operating_system_cortex.Bytes.{Memory, put, read_be16, read_be32, store_be16, store_be32}
use operating_system_cortex.Bytes.Words.{read_be32-store_be32}
use operating_system_cortex.ListNode.{Ptr}
use operating_system_cortex.Net.{Netbuf}
use operating_system_cortex.Net.Arp.{Table}
use operating_system_cortex.Net.Arp.Mapping.{asked, known, mapping, Holds}
use operating_system_cortex.Net.Arp.Reply.{arp_add_new_mapping-asked}
use operating_system_cortex.Net.Arp.Packets.{
  copy_mac, mac_copy, request_packet, reply_packet, is_reply, is_request, arp_receive, same_mac,
  arp_handle_reply,
}

mac_copy-inside :
    (src : ℕ → ℕ) (dest i : ℕ) (m : Memory) → i < 6 → mac_copy src dest m (dest + i) ≡ src i
unfolding mac_copy copy_mac
mac_copy-inside src dest i m h = ground arith

mac_copy_ne :
    (src : ℕ → ℕ) (dest q : ℕ) (m : Memory)
    → (q < dest) ⊎ (dest + 6 ≤ q)
    → mac_copy src dest m q ≡ m q
unfolding mac_copy copy_mac
mac_copy_ne src dest q m h = ground arith

-- The fields that `arp_receive` tests.
abbrev Fields : (oper p : ℕ) → Memory → Type 0
Fields oper p m =
    (m p ≡ 0)
    × (m (p + 1) ≡ 1)
    × (m (p + 2) ≡ 8)
    × (m (p + 3) ≡ 0)
    × (m (p + 4) ≡ 6)
    × (m (p + 5) ≡ 4)
    × (m (p + 6) ≡ 0)
    × (m (p + 7) ≡ oper)

request_Fields :
    (own : ℕ → ℕ) (dest_ip src_ip p : ℕ) (m : Memory)
    → Fields 1 p (request_packet own dest_ip src_ip p m)
unfolding request_packet mac_copy copy_mac
request_Fields own dest_ip src_ip p m = ground arith

-- The sender of a request.
request_sender :
    (own : ℕ → ℕ) (dest_ip src_ip p i : ℕ) (m : Memory)
    → i < 6
    → request_packet own dest_ip src_ip p m (p + 8 + i) ≡ own i
unfolding request_packet mac_copy copy_mac
request_sender own dest_ip src_ip p i m h = ground arith

-- A reply whose last word is `word` and whose sender's target address is `target`.
abbrev reply_with : (own target : ℕ → ℕ) → (our_ip word q : ℕ) → Memory → Memory
reply_with own target our_ip word q m =
    let m1 = store_be16 0x0800 (q + 2) (store_be16 0x0001 q m) in
    let m2 = store_be16 2 (q + 6) (put (q + 5) 4 (put (q + 4) 6 m1)) in
    let m3 = store_be32 our_ip (q + 14) (mac_copy own (q + 8) m2) in
    store_be32 word (q + 24) (mac_copy target (q + 18) m3)

module _ (own target : ℕ → ℕ) (our_ip word q : ℕ) (m : Memory) where
  reply_Fields : Fields 2 q (reply_with own target our_ip word q m)
  unfolding mac_copy copy_mac store_be16 store_be32
  reply_Fields = ground arith

  reply_sender : (i : ℕ) → i < 6 → reply_with own target our_ip word q m (q + 8 + i) ≡ own i
  unfolding mac_copy copy_mac store_be16 store_be32
  reply_sender i h = ground arith

  reply_target : (i : ℕ) → i < 6 → reply_with own target our_ip word q m (q + 18 + i) ≡ target i
  unfolding mac_copy copy_mac store_be16 store_be32
  reply_target i h = ground arith

  reply_ip :
      (i : ℕ)
      → i < 4
      → reply_with own target our_ip word q m (q + 14 + i)
        ≡ store_be32 our_ip (q + 14) (λ a. 0) (q + 14 + i)
  unfolding mac_copy copy_mac store_be32
  reply_ip i h = ground arith

-- The 28 bytes of a packet at `p` stand at `q` of another memory.
abbrev pub Carried : (p q : ℕ) → Memory → Memory → Type 0
Carried p q m g = (i : ℕ) → i < 28 → g (q + i) ≡ m (p + i)

Carried-Fields : (oper p q : ℕ) (m g : Memory) → Carried p q m g → Fields oper p m → Fields oper q g
Carried-Fields oper p q m g c f = (
  at 0 p q (omega arith) (omega arith) (omega arith) ∙ f.0,
  c 1 (omega arith) ∙ f.1,
  c 2 (omega arith) ∙ f.2,
  c 3 (omega arith) ∙ f.3,
  c 4 (omega arith) ∙ f.4,
  c 5 (omega arith) ∙ f.5,
  c 6 (omega arith) ∙ f.6,
  c 7 (omega arith) ∙ f.7,
)
  where
    at : (i a b : ℕ) → i < 28 → a ≡ p + i → b ≡ q + i → g b ≡ m a
    at i a b h e f = rw (e, f) (c i h)

receives_request :
    (b : Netbuf) (m : Memory) → 28 ≤ b.frame_len → Fields 1 b.ptr m → arp_receive b m ≡ is_request
unfolding arp_receive read_be16
receives_request b m long f =
    let enough : ltb b.frame_len 28 ≡ false = ground (arith, long) in
    let three : b.ptr + 2 + 1 ≡ b.ptr + 3 = omega arith in
    let seven : b.ptr + 6 + 1 ≡ b.ptr + 7 = omega arith in
    rw (enough, three, seven, f.0, f.1, f.2, f.3, f.4, f.5, f.6, f.7) refl

receives_reply :
    (b : Netbuf) (m : Memory) → 28 ≤ b.frame_len → Fields 2 b.ptr m → arp_receive b m ≡ is_reply
unfolding arp_receive read_be16
receives_reply b m long f =
    let enough : ltb b.frame_len 28 ≡ false = ground (arith, long) in
    let three : b.ptr + 2 + 1 ≡ b.ptr + 3 = omega arith in
    let seven : b.ptr + 6 + 1 ≡ b.ptr + 7 = omega arith in
    rw (enough, three, seven, f.0, f.1, f.2, f.3, f.4, f.5, f.6, f.7) refl

same_mac_lem :
    (n i : ℕ) (mac own : ℕ → ℕ)
    → ((j : ℕ) → j < i + n → mac j ≡ own j)
    → same_mac n i mac own ≡ true
unfolding same_mac
same_mac_lem zero i mac own same = refl
same_mac_lem (suc n) i mac own same =
    let here : (mac i == own i) ≡ true = ground (arith, same i (omega arith)) in
    rw (here, same_mac_lem n (suc i) mac own (λ j h. same j (omega arith))) refl

read_word :
    (val p : ℕ) (g : Memory)
    → val < 2 ^ 32
    → ((i : ℕ) → i < 4 → g (p + i) ≡ store_be32 val p (λ a. 0) (p + i))
    → read_be32 p g ≡ val
unfolding read_be32
read_word val p g fits same =
    let zeroth : p + 0 ≡ p = omega arith in
    let first : g p ≡ store_be32 val p (λ a. 0) p = rw zeroth at (same 0 (omega arith)) in
    let both : read_be32 p g ≡ read_be32 p (store_be32 val p (λ a. 0)) =
      rw (first, same 1 (omega arith), same 2 (omega arith), same 3 (omega arith)) refl in
    both ∙ (read_be32-store_be32 {m = λ a. 0} val p (λ q. omega arith) fits).0

-- What `reply_packet` writes before the target's address.
abbrev before_target : (own : ℕ → ℕ) → (our_ip q : ℕ) → Memory → Memory
before_target own our_ip q m =
    let m1 = store_be16 0x0800 (q + 2) (store_be16 0x0001 q m) in
    let m2 = store_be16 2 (q + 6) (put (q + 5) 4 (put (q + 4) 6 m1)) in
    store_be32 our_ip (q + 14) (mac_copy own (q + 8) m2)

before_target_ne :
    (own : ℕ → ℕ) (our_ip q a : ℕ) (m : Memory)
    → (a < q) ⊎ (q + 18 ≤ a)
    → before_target own our_ip q m a ≡ m a
unfolding mac_copy copy_mac store_be16 store_be32
before_target_ne own our_ip q a m out = ground arith

Carried-at :
    (k i p q : ℕ) (m g : Memory) → Carried p q m g → k + i < 28 → g (q + k + i) ≡ m (p + k + i)
Carried-at k i p q m g c l =
    let here : q + (k + i) ≡ q + k + i = omega arith in
    let there : p + (k + i) ≡ p + k + i = omega arith in rw (here, there) at (c (k + i) l)

-- A host asks for an address, and the packet of `arp_request` arrives at a host that has it: that
-- host takes it for a request, and the packet that it answers with, when it arrives at the first,
-- is taken for a reply to it. The first host's table, in which the address was asked for, then
-- knows the second host's hardware address for it, and is in order. It holds when both frames are
-- 28 bytes long or more, the answer is not written over the request, and the table is in order.
pub arp_exchange :
    (fuel p p' q r ip_a ip_b : ℕ) (own_a own_b : ℕ → ℕ) (m g h : Memory) (b b' : Netbuf) (s : Table)
    (xs : List Ptr)
    → 28 ≤ b.frame_len
    → 28 ≤ b'.frame_len
    → Carried p p' (request_packet own_a ip_b ip_a p m) g
    → (p' + 28 ≤ q) ⊎ (q + 28 ≤ p')
    → Carried q r (reply_packet own_b ip_b p' q g) h
    → ip_b < 2 ^ 32
    → Holds s xs
    → length xs < fuel
    → mapping s.entry xs ip_b ≡ asked
    → (arp_receive (record b { ptr = p' }) g ≡ is_request)
      × (arp_receive (record b' { ptr = r }) h ≡ is_reply)
      × ((mac : ℕ → ℕ) × (s' : Table) × (arp_handle_reply fuel own_a (record b' { ptr = r }) h s
            ≡ some (ok (ip_b, s')))
          × Holds s' xs
          × (mapping s'.entry xs ip_b ≡ known mac)
          × ((i : ℕ) → i < 6 → mac i ≡ own_b i))
unfolding arp_handle_reply reply_packet
arp_exchange fuel p p' q r ip_a ip_b own_a own_b m g h b b' s xs long long' asks away answers fits v
      enough a =
    let question = request_packet own_a ip_b ip_a p m in
    let written = before_target own_b ip_b q g in
    let target : ℕ → ℕ = λ i. written (p' + 8 + i) in
    let word = read_be32 (p' + 14) (mac_copy target (q + 18) written) in
    let answer = reply_with own_b target ip_b word q g in
    let asked_by : (i : ℕ) → i < 6 → h (r + 18 + i) ≡ own_a i = λ i l.
      Carried-at 18 i q r answer h answers (omega arith)
      ∙ reply_target own_b target ip_b word q g i l
      ∙ before_target_ne own_b ip_b q (p' + 8 + i) g (apart i l)
      ∙ Carried-at 8 i p p' question g asks (omega arith)
      ∙ request_sender own_a ip_b ip_a p i m l in
    let told : (i : ℕ) → i < 6 → h (r + 8 + i) ≡ own_b i = λ i l.
      Carried-at 8 i q r answer h answers (omega arith)
      ∙ reply_sender own_b target ip_b word q g i l in
    let ours : same_mac 6 0 (λ i. h (r + 18 + i)) own_a ≡ true =
      same_mac_lem 6 0 (λ i. h (r + 18 + i)) own_a asked_by in
    let ip : read_be32 (r + 14) h ≡ ip_b = read_word ip_b (r + 14) h fits (λ i l.
      Carried-at 14 i q r answer h answers (omega arith)
      ∙ reply_ip own_b target ip_b word q g i l
      ∙ same_word i l) in
    let learnt = arp_add_new_mapping-asked fuel ip_b (λ i. h (r + 8 + i)) s xs v enough a in
    let self : (ip_b == ip_b) ≡ true = ground arith in
    (
      receives_request (record b { ptr = p' }) g long
          (Carried-Fields 1 p p' question g asks (request_Fields own_a ip_b ip_a p m)),
      receives_reply (record b' { ptr = r }) h long'
          (Carried-Fields 2 q r answer h answers (reply_Fields own_b target ip_b word q g)),
      (
        (λ i. h (r + 8 + i)),
        learnt.0,
        rw (ours, ip, learnt.1) refl,
        learnt.2,
        rw (learnt.3 ip_b, self) refl,
        told,
      ),
    )
  where
    apart : (i : ℕ) → i < 6 → (p' + 8 + i < q) ⊎ (q + 18 ≤ p' + 8 + i)
    apart i l = ground (arith, away)

    same_word :
        (i : ℕ)
        → i < 4
        → store_be32 ip_b (q + 14) (λ x. 0) (q + 14 + i)
          ≡ store_be32 ip_b (r + 14) (λ x. 0) (r + 14 + i)
    same_word i l = unfold store_be32 in ground arith
