-- ===== src/Dhcp/Tests.antt =====
-- Runs of the DHCP client on an offer of 10.0.0.5 from the server 10.0.0.1, and its acknowledgement.
use operating_system_cortex.Prelude.{
  false, ℕ, ◌+◌, ◌-◌, ◌<◌, ◌≡◌, refl, Option, none, some, List, [], ◌∷◌, ◌⊎◌, ◌==◌, length, get_or,
  replicate, ◌++◌, arith, if◌then◌else◌,
}
use operating_system_cortex.Prelude.Outcome.{Outcome, ok, error, panic}
use operating_system_cortex.Bytes.{Memory, read_be32}
use operating_system_cortex.Net.{Netbuf}
use operating_system_cortex.Net.Headers.{sent}
use operating_system_cortex.Net.Receive.{mac_receive, to_port}
use operating_system_cortex.Dhcp.{
  IpStruct, header_size, dhcp_request, option_loop, get_option_ptr, get_dhcp_type, get_subnet_mask,
  get_gateway, read_gateways, handle_dhcp_offer, is_dhcp_reply_valid, dhcp_parse_offer,
  dhcp_parse_ack,
}
use operating_system_cortex.Dhcp.Options.{Entry, field, first_at, get_option_ptr-first_at}
use operating_system_cortex.Dhcp.Bounds.{OptionAt, get_option_ptr-within, get_gateway-same}
use operating_system_cortex.Dhcp.Build.{request_payload, dhcp_send_request}
use operating_system_cortex.Dhcp.Sent.{dhcp_send_request-received}
use operating_system_cortex.Dhcp.Client.{Client, accept_offer, dhcp_start, dhcp_step, dhcp_run}
use operating_system_cortex.Dhcp.History.{Event, HeardOffer, HeardBoth, dhcp_run-HeardBoth}

abbrev cookie : List ℕ
cookie = 0x63 ∷ 0x82 ∷ 0x53 ∷ 0x63 ∷ []

abbrev bytes_at : ℕ → List ℕ → Memory
bytes_at p xs q = get_or xs (q - p) 0

-- A reply with the given options, from address 1000 on.
abbrev reply : List Entry → List ℕ
reply es =
    (2 ∷ 1 ∷ 6 ∷ 0 ∷ 0xC0 ∷ 0xDE ∷ 0xBA ∷ 0xBE ∷ [])
    ++ (replicate 8 0 ++ ((10 ∷ 0 ∷ 0 ∷ 5 ∷ []) ++ (replicate 216 0 ++ (cookie ++ field es))))

abbrev offer_options : List Entry
offer_options = (53, 2 ∷ []) ∷ (1, 255 ∷ 255 ∷ 255 ∷ 0 ∷ []) ∷ (3, 10 ∷ 0 ∷ 0 ∷ 1 ∷ []) ∷ []

abbrev ack_options : List Entry
ack_options = (53, 5 ∷ []) ∷ []

abbrev frame_of : List Entry → Event
frame_of es = some (
  record { buf = 500; ptr = 1000; frame_len = length (reply es); ip = 0 },
  bytes_at 1000 (reply es),
)

abbrev unset : IpStruct
unset = record { our_ip = 0; subnet_mask = 0; server_ip = []; server_cnt = 0 }

abbrev events : List Event
events = none ∷ frame_of ack_options ∷ frame_of offer_options ∷ none ∷ frame_of ack_options ∷ []

config_of : Option (Outcome Client) → Option IpStruct
config_of (some (ok c)) = c.config
config_of r = none

-- The acknowledgement before the offer is passed over.
run_on_events :
    config_of (dhcp_run 100 0xC0DEBABE events (dhcp_start 0xC0DEBABE unset))
    ≡ some (record {
      our_ip = 0x0A000005;
      subnet_mask = 0xFFFFFF00;
      server_ip = 0x0A000001 ∷ [];
      server_cnt = 1;
    })
unfolding dhcp_run dhcp_start dhcp_step accept_offer dhcp_parse_offer dhcp_parse_ack
    is_dhcp_reply_valid handle_dhcp_offer get_dhcp_type get_subnet_mask get_gateway read_gateways
    get_option_ptr option_loop read_be32 config_of
run_on_events = refl

dhcp_run-HeardBoth_example :
    (dhcp_run 100 0xC0DEBABE events (dhcp_start 0xC0DEBABE unset) ≡ some panic)
      × ((address : ℕ) × HeardOffer 0xC0DEBABE address events)
    ⊎ (c : Client) × (dhcp_run 100 0xC0DEBABE events (dhcp_start 0xC0DEBABE unset) ≡ some (ok c))
      × ((c.config ≡ none) ⊎ (c.config ≡ some c.ip) × HeardBoth 0xC0DEBABE c.ip.our_ip events)
dhcp_run-HeardBoth_example =
    dhcp_run-HeardBoth 100 0xC0DEBABE events unset (omega arith, (omega arith, (omega arith, tt)))

abbrev empty_frame : Netbuf
empty_frame = record { buf = 1000; ptr = 1074; frame_len = 0; ip = 0 }

dhcp_send_request-received_example :
    (frame : Netbuf) × (g : Memory) × (b' : Netbuf) × (dhcp_send_request 50 none empty_frame
        (λ q. 7)
        0xC0DEBABE
        0x0A000001
        0x0A000005
      ≡ sent frame g)
    × ((i : ℕ) → i < 6 → g (frame.ptr + i) ≡ 0xFF)
    × ((i : ℕ)
        → i < 6
        → g (frame.ptr + 6 + i)
          ≡ (request_payload 0xC0DEBABE 0x0A000001 0x0A000005 50 1074 (λ q. 7)).1 (50 + i))
    × (mac_receive frame g ≡ to_port 67 b')
    × ((b'.ptr ≡ 1074) × (b'.frame_len ≡ 256))
    × (get_dhcp_type 20 (1074 + header_size) 20 g ≡ some dhcp_request)
    × ((get_option_ptr 20 (1074 + header_size) 20 54 g ≡ some (ok (1074 + 243)))
        × (read_be32 (1074 + 245) g ≡ 0x0A000001))
    × ((get_option_ptr 20 (1074 + header_size) 20 50 g ≡ some (ok (1074 + 249)))
        × (read_be32 (1074 + 251) g ≡ 0x0A000005))
dhcp_send_request-received_example =
    dhcp_send_request-received 20 1032 0xC0DEBABE 0x0A000001 0x0A000005 50 none empty_frame (λ q. 7)
      (omega arith) (omega arith) (omega arith) (omega arith) (omega arith)

abbrev offer_field : Memory
offer_field = bytes_at 1000 (cookie ++ field offer_options)

get_option_ptr-first_at_example :
    get_option_ptr 30 1000 20 3 offer_field ≡ some (first_at 3 1004 offer_options)
unfolding read_be32
get_option_ptr-first_at_example =
    get_option_ptr-first_at 30 1000 20 3 offer_options offer_field refl
      (
        refl,
        (
          refl,
          (
            refl,
            (
              refl,
              (
                refl,
                (
                  refl,
                  (
                    refl,
                    (refl, (refl, (refl, (refl, (refl, (refl, (refl, (refl, (refl, tt))))))))),
                  ),
                ),
              ),
            ),
          ),
        ),
      )
      (omega arith, (omega arith, (omega arith, tt))) (omega arith) (omega arith)

get_option_ptr-within_example :
    (get_option_ptr 30 1000 20 3 offer_field ≡ some (error 6))
    ⊎ (q : ℕ) × (get_option_ptr 30 1000 20 3 offer_field ≡ some (ok q))
      × OptionAt 1004 16 3 q offer_field
get_option_ptr-within_example = get_option_ptr-within 30 1000 20 3 offer_field (omega arith)

-- Another memory outside the field.
abbrev other_field : Memory
other_field q = if q == 2000 then 1 else offer_field q

get_gateway-same_example :
    (get_gateway 30 1000 20 other_field ≡ get_gateway 30 1000 20 offer_field)
    × ((r : Outcome (List ℕ)) × (get_gateway 30 1000 20 offer_field ≡ some r))
get_gateway-same_example =
    get_gateway-same 30 1000 20 offer_field other_field (omega arith)
      (λ q low high. let inside : (q == 2000) ≡ false = ground (arith, high) in rw inside refl)
