-- ===== src/Dhcp/History.antt =====
-- What the client has heard when it has an address.
use operating_system_cortex.Prelude.{
  ℕ, ◌+◌, ◌-◌, ◌≤◌, ◌≡◌, refl, sym, ap, ◌∙◌, Option, none, some, List, [], ◌∷◌, ◌==◌, Bool-cases,
  ◌⊎◌, inl, inr,
}
use operating_system_cortex.Prelude.Outcome.{ok, panic}
use operating_system_cortex.Bytes.{Memory, read_be32}
use operating_system_cortex.Net.{Netbuf}
use operating_system_cortex.Net.Arp.{◌>>=◌}
use operating_system_cortex.Dhcp.{IpStruct, header_size, dhcp_offer, dhcp_ack}
use operating_system_cortex.Dhcp.Client.{
  Client, Phase, discovering, requesting, bound, request, dhcp_start, dhcp_step, dhcp_run,
  accept_offer, go_on, first_server,
}
use operating_system_cortex.Dhcp.Replies.{IsReply, dhcp_parse_offer-IsReply, dhcp_parse_ack-IsReply}

abbrev pub Event : Type 0
Event = Option (Netbuf × Memory)

-- The fuel is enough for the options of each frame.
abbrev pub Enough : (fuel : ℕ) → List Event → Type 0
Enough fuel [] = Unit
Enough fuel (none ∷ es) = Enough fuel es
Enough fuel (some (b, m) ∷ es) = (b.frame_len - header_size ≤ fuel) × Enough fuel es

-- One of the frames is a reply of the type, with the address given if it is an offer.
abbrev pub HeardAck : (tid : ℕ) → List Event → Type 0
HeardAck tid [] = ⊥
HeardAck tid (none ∷ es) = HeardAck tid es
HeardAck tid (some (b, m) ∷ es) = IsReply tid dhcp_ack b m ⊎ HeardAck tid es

abbrev pub HeardOffer : (tid address : ℕ) → List Event → Type 0
HeardOffer tid address [] = ⊥
HeardOffer tid address (none ∷ es) = HeardOffer tid address es
HeardOffer tid address (some (b, m) ∷ es) =
    IsReply tid dhcp_offer b m × (address ≡ read_be32 (b.ptr + 16) m) ⊎ HeardOffer tid address es

-- An offer of the address, and after it an acknowledgement.
abbrev pub HeardBoth : (tid address : ℕ) → List Event → Type 0
HeardBoth tid address [] = ⊥
HeardBoth tid address (none ∷ es) = HeardBoth tid address es
HeardBoth tid address (some (b, m) ∷ es) =
    IsReply tid dhcp_offer b m × (address ≡ read_be32 (b.ptr + 16) m) × HeardAck tid es
    ⊎ HeardBoth tid address es

module _ (fuel tid : ℕ) where
  -- The thread is in the loop of a phase.
  in_phase :
      (p : Phase) (e : Event) (es : List Event) (c : Client)
      → c.phase ≡ p
      → dhcp_run fuel tid (e ∷ es) c
        ≡ (dhcp_step fuel tid p e c >>= λ r. go_on (λ c'. dhcp_run fuel tid es c') r)
  unfolding dhcp_run
  in_phase p e es c at =
      ap (λ (q : Phase). dhcp_step fuel tid q e c >>= λ r. go_on (λ c'. dhcp_run fuel tid es c') r)
        at

  -- Bound, the client stays as it is.
  bound_run :
      (es : List Event) (c : Client) → c.phase ≡ bound → dhcp_run fuel tid es c ≡ some (ok c)
  unfolding dhcp_run dhcp_step
  bound_run [] c at = refl
  bound_run (none ∷ es) c at = bound_run es c at
  bound_run (some (b, m) ∷ es) c at = in_phase bound (some (b, m)) es c at ∙ bound_run es c at

  -- From a request on.
  requesting_run :
      (es : List Event) (c : Client)
      → Enough fuel es
      → c.phase ≡ requesting
      → (c' : Client) × (dhcp_run fuel tid es c ≡ some (ok c'))
        × (c'.ip ≡ c.ip)
        × ((c'.config ≡ c.config) ⊎ (c'.config ≡ some c.ip) × HeardAck tid es)
  unfolding dhcp_run dhcp_step
  requesting_run [] c enough at = (c, refl, refl, inl refl)
  requesting_run (none ∷ es) c enough at = requesting_run es c enough at
  requesting_run (some (b, m) ∷ es) c enough at =
      elim (dhcp_parse_ack-IsReply fuel tid b m enough.0) [
        | inl refused ↦
            let (c', e, same, heard) = requesting_run es c enough.1 at in
            (
              c',
              in_phase requesting (some (b, m)) es c at ∙ rw refused e,
              same,
              elim heard [ inl unset ↦ inl unset | inr (config, ack) ↦ inr (config, inr ack) ],
            )
        | inr (accepted, reply) ↦
            let c' = record c { phase = bound; config = some c.ip } in
            (
              c',
              in_phase requesting (some (b, m)) es c at ∙ rw accepted (bound_run es c' refl),
              refl,
              inr (refl, inl reply),
            )
      ]

  -- While it looks for an offer.
  discovering_run :
      (es : List Event) (c : Client)
      → Enough fuel es
      → c.phase ≡ discovering
      → c.config ≡ none
      → (dhcp_run fuel tid es c ≡ some panic) × ((address : ℕ) × HeardOffer tid address es)
        ⊎ (c' : Client) × (dhcp_run fuel tid es c ≡ some (ok c'))
          × ((c'.config ≡ none) ⊎ (c'.config ≡ some c'.ip) × HeardBoth tid c'.ip.our_ip es)
  unfolding dhcp_run dhcp_step
  discovering_run [] c enough at unset = inr (c, refl, inl unset)
  discovering_run (none ∷ es) c enough at unset = discovering_run es c enough at unset
  discovering_run (some (b, m) ∷ es) c enough at unset =
      let here = in_phase discovering (some (b, m)) es c at in
      elim (dhcp_parse_offer-IsReply fuel tid b m c.ip enough.0) [
        | inl refused ↦ elim (discovering_run es c enough.1 at unset) [
          | inl (stop, (address, offer)) ↦ inl (here ∙ rw refused stop, (address, inr offer))
          | inr (c', e, heard) ↦ inr (
            c',
            here ∙ rw refused e,
            elim heard [ inl still ↦ inl still | inr (config, both) ↦ inr (config, inr both) ],
          )
        ]
        | inr (ip, accepted, reply, ours) ↦ elim (Bool-cases (ip.server_cnt == 0)) [
          | inl missing ↦ inl (
            here ∙ rw accepted (unfold accept_offer in rw missing refl),
            (read_be32 (b.ptr + 16) m, inl (reply, refl)),
          )
          | inr server ↦
              let asked = request tid (first_server ip.server_ip) ip.our_ip in
              let c2 = record c { phase = requesting; ip = ip; sent = asked ∷ c.sent } in
              let (c', e, same, heard) = requesting_run es c2 enough.1 refl in
              inr (
                c',
                here ∙ rw accepted (unfold accept_offer in rw server e),
                elim heard [
                  | inl still ↦ inl (still ∙ unset)
                  | inr (config, ack) ↦
                      let address : c'.ip.our_ip ≡ read_be32 (b.ptr + 16) m =
                        ap (λ (i : IpStruct). i.our_ip) same ∙ ours in
                      inr (
                        config ∙ ap (λ (i : IpStruct). some i) (sym same),
                        inl (reply, address, ack),
                      )
                ],
              )
        ]
      ]

-- Whatever frames come in, the client's run ends. It is a panic behind an offer, or the IP layer is
-- not set up, or it is set up with an address that an offer has named, and that an acknowledgement
-- came after. Offer and acknowledgement are frames longer than the header, with the BOOTP fields of
-- a reply, our transaction number, and this type in the first option 53 behind the cookie. It holds
-- with fuel for the longest option field.
pub dhcp_run-HeardBoth :
    (fuel tid : ℕ) (events : List Event) (ip : IpStruct)
    → Enough fuel events
    → (dhcp_run fuel tid events (dhcp_start tid ip) ≡ some panic)
        × ((address : ℕ) × HeardOffer tid address events)
      ⊎ (c : Client) × (dhcp_run fuel tid events (dhcp_start tid ip) ≡ some (ok c))
        × ((c.config ≡ none) ⊎ (c.config ≡ some c.ip) × HeardBoth tid c.ip.our_ip events)
unfolding dhcp_start
dhcp_run-HeardBoth fuel tid events ip enough =
    discovering_run fuel tid events (dhcp_start tid ip) enough refl refl
