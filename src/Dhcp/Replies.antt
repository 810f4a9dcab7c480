-- ===== src/Dhcp/Replies.antt =====
-- What the parsers of replies accept, and that they end.
use mathlib.Core.Path.{subst}
use operating_system_cortex.Prelude.{
  ◌<◌, ◌≢◌, sym, ℕ, ◌+◌, ◌-◌, ◌≤◌, ◌≡◌, refl, ◌∙◌, true, some, List, ◌==◌, leb, arith, Bool-cases,
  ◌⊎◌, inl, inr,
}
use operating_system_cortex.Prelude.Outcome.{Outcome, ok, error}
use operating_system_cortex.Bytes.{Memory, read_be32}
use operating_system_cortex.Net.{Netbuf}
use operating_system_cortex.Dhcp.{
  IpStruct, header_size, enet, dhcp_none, dhcp_offer, dhcp_ack, get_subnet_mask, handle_dhcp_offer,
  is_dhcp_reply_valid, dhcp_parse_offer, dhcp_parse_ack, set_mask, set_servers,
}
use operating_system_cortex.Dhcp.Search.{TypeOption, get_dhcp_type-TypeOption}
use operating_system_cortex.Dhcp.Bounds.{get_option_ptr-within, get_gateway-same}

-- A frame is a reply of a type with our transaction number, of BOOTP over Ethernet, and longer than
-- the header.
abbrev pub IsReply : (tid type : ℕ) → Netbuf → Memory → Type 0
IsReply tid type b m =
    (header_size < b.frame_len)
    × (m b.ptr ≡ 2)
    × (m (b.ptr + 1) ≡ 1)
    × (m (b.ptr + 2) ≡ 6)
    × (read_be32 (b.ptr + 4) m ≡ tid)
    × TypeOption (b.ptr + header_size) (b.frame_len - header_size) type m

is_dhcp_reply_valid-fields :
    (b : Netbuf) (m : Memory) (tid : ℕ)
    → is_dhcp_reply_valid b m tid ≡ true
    → (header_size < b.frame_len)
      × (m b.ptr ≡ 2)
      × (m (b.ptr + 1) ≡ 1)
      × (m (b.ptr + 2) ≡ 6)
      × (read_be32 (b.ptr + 4) m ≡ tid)
unfolding is_dhcp_reply_valid
is_dhcp_reply_valid-fields b m tid valid = ground (arith, valid)

-- A valid frame whose type is not `DHCP_NONE` is a reply.
valid-IsReply :
    (tid type wanted : ℕ) (b : Netbuf) (m : Memory)
    → is_dhcp_reply_valid b m tid ≡ true
    → (type ≡ dhcp_none) ⊎ TypeOption (b.ptr + header_size) (b.frame_len - header_size) type m
    → type ≡ wanted
    → wanted ≢ dhcp_none
    → IsReply tid wanted b m
valid-IsReply tid type wanted b m valid (inl missing) same some_type =
    absurd (some_type (sym same ∙ missing))
valid-IsReply tid type wanted b m valid (inr said) same some_type =
    let (long, op, hw, size, ours) = is_dhcp_reply_valid-fields b m tid valid in
    (
      long,
      op,
      hw,
      size,
      ours,
      subst (λ (t : ℕ). TypeOption (b.ptr + header_size) (b.frame_len - header_size) t m) same said,
    )

get_subnet_mask-ends :
    (fuel p len : ℕ) (m : Memory)
    → len ≤ fuel
    → (r : Outcome ℕ) × (get_subnet_mask fuel p len m ≡ some r)
unfolding get_subnet_mask
get_subnet_mask-ends fuel p len m enough = elim (get_option_ptr-within fuel p len 1 m enough) [
  | inl missing ↦ rw missing (_, refl)
  | inr (q, e, at) ↦ rw e (_, refl)
]

set_mask-our_ip : (r : Outcome ℕ) (ip : IpStruct) → (set_mask r ip).our_ip ≡ ip.our_ip
unfolding set_mask
set_mask-our_ip (ok mask) ip = refl
set_mask-our_ip (error code) ip = refl
set_mask-our_ip Outcome.panic ip = refl
set_mask-our_ip Outcome.undefined ip = refl

set_servers-our_ip : (r : Outcome (List ℕ)) (ip : IpStruct) → (set_servers r ip).our_ip ≡ ip.our_ip
unfolding set_servers
set_servers-our_ip (ok servers) ip = refl
set_servers-our_ip (error code) ip = refl
set_servers-our_ip Outcome.panic ip = refl
set_servers-our_ip Outcome.undefined ip = refl

handle_dhcp_offer-our_ip :
    (fuel : ℕ) (b : Netbuf) (m : Memory) (ip : IpStruct)
    → b.frame_len - header_size ≤ fuel
    → (ip' : IpStruct) × (handle_dhcp_offer fuel b m ip ≡ some ip')
      × (ip'.our_ip ≡ read_be32 (b.ptr + 16) m)
unfolding handle_dhcp_offer
handle_dhcp_offer-our_ip fuel b m ip enough =
    let p = b.ptr + header_size in
    let len = b.frame_len - header_size in
    let (mask, e) = get_subnet_mask-ends fuel p len m enough in
    let (servers, f) = (get_gateway-same fuel p len m m enough (λ q low high. refl)).1 in
    elim (Bool-cases (leb b.frame_len header_size)) [
      | inl short ↦ rw short (_, refl, refl)
      | inr long ↦ rw (long, e, f) (_, refl, set_servers-our_ip servers _ ∙ set_mask-our_ip mask _)
    ]

-- `dhcp_parse_ack` ends, and succeeds just for an acknowledgement.
pub dhcp_parse_ack-IsReply :
    (fuel tid : ℕ) (b : Netbuf) (m : Memory)
    → b.frame_len - header_size ≤ fuel
    → (dhcp_parse_ack fuel b m tid ≡ some (error enet))
      ⊎ (dhcp_parse_ack fuel b m tid ≡ some (ok 0)) × IsReply tid dhcp_ack b m
unfolding dhcp_parse_ack
dhcp_parse_ack-IsReply fuel tid b m enough =
    let (type, e, said) =
      get_dhcp_type-TypeOption fuel (b.ptr + header_size) (b.frame_len - header_size) m enough in
    elim (Bool-cases (is_dhcp_reply_valid b m tid)) [
      | inr invalid ↦ rw invalid (inl refl)
      | inl valid ↦ elim (Bool-cases (type == dhcp_ack)) [
        | inr other ↦ rw (valid, e, other) (inl refl)
        | inl same ↦
            let at : type ≡ dhcp_ack = ground arith in
            rw (valid, e, same)
              (inr
                (refl, valid-IsReply tid type dhcp_ack b m valid said at (λ n. omega (arith, n))))
      ]
    ]

-- `dhcp_parse_offer` ends, and succeeds just for an offer, whose address it takes.
pub dhcp_parse_offer-IsReply :
    (fuel tid : ℕ) (b : Netbuf) (m : Memory) (ip : IpStruct)
    → b.frame_len - header_size ≤ fuel
    → (dhcp_parse_offer fuel b m tid ip ≡ some (error enet))
      ⊎ (ip' : IpStruct) × (dhcp_parse_offer fuel b m tid ip ≡ some (ok ip'))
        × IsReply tid dhcp_offer b m
        × (ip'.our_ip ≡ read_be32 (b.ptr + 16) m)
unfolding dhcp_parse_offer
dhcp_parse_offer-IsReply fuel tid b m ip enough =
    let (type, e, said) =
      get_dhcp_type-TypeOption fuel (b.ptr + header_size) (b.frame_len - header_size) m enough in
    let (ip', handled, ours) = handle_dhcp_offer-our_ip fuel b m ip enough in
    elim (Bool-cases (is_dhcp_reply_valid b m tid)) [
      | inr invalid ↦ rw invalid (inl refl)
      | inl valid ↦ elim (Bool-cases (type == dhcp_offer)) [
        | inr other ↦ rw (valid, e, other) (inl refl)
        | inl same ↦
            let at : type ≡ dhcp_offer = ground arith in
            rw (valid, e, same, handled)
              (inr (
                ip',
                refl,
                valid-IsReply tid type dhcp_offer b m valid said at (λ n. omega (arith, n)),
                ours,
              ))
      ]
    ]
