-- ===== src/Dhcp/Client.antt =====
-- net/dhcp.c: `dhcp_thread` as a machine that goes on with each answer of `udp_rec`. Buffers that go
-- back to the pool, and the sleep before the first message, are left out.
use operating_system_cortex.Prelude.{ℕ, Option, none, some, List, [], ◌∷◌, ◌==◌, if◌then◌else◌}
use operating_system_cortex.Prelude.Outcome.{Outcome, ok, error, panic}
use operating_system_cortex.Bytes.{Memory}
use operating_system_cortex.Net.{Netbuf}
use operating_system_cortex.Net.Arp.{◌>>=◌}
use operating_system_cortex.Dhcp.{IpStruct, dhcp_parse_offer, dhcp_parse_ack}

-- Which of the loops the thread is in.
pub data Phase : Type 0 where
  discovering requesting bound : Phase

-- What the thread sends.
pub data Message : Type 0 where
  discover : (tid : ℕ) → Message
  request : (tid server_ip granted_ip : ℕ) → Message

-- `ip_struct` of the thread, that of the IP layer, and the messages sent, the last first.
pub record Client : Type 0 where
  pub phase : Phase
  pub ip : IpStruct
  pub config : Option IpStruct
  pub sent : List Message

-- `ip` is what stands in the variable before it is written.
unfoldable pub dhcp_start : (tid : ℕ) → IpStruct → Client
dhcp_start tid ip = record { phase = discovering; ip = ip; config = none; sent = discover tid ∷ [] }

-- `ip_struct.server_ip[0]`
abbrev pub first_server : List ℕ → ℕ
first_server [] = 0
first_server (x ∷ xs) = x

-- An offer was accepted.
unfoldable pub accept_offer : (tid : ℕ) → IpStruct → Client → Outcome Client
accept_offer tid ip c =
    if ip.server_cnt == 0
    then panic
    else ok (record c {
      phase = requesting;
      ip = ip;
      sent = request tid (first_server ip.server_ip) ip.our_ip ∷ c.sent;
    })

abbrev pub after_offer : (tid : ℕ) → Client → Outcome IpStruct → Outcome Client
after_offer tid c (ok ip) = accept_offer tid ip c
after_offer tid c (error code) = ok c
after_offer tid c panic = panic
after_offer tid c Outcome.undefined = Outcome.undefined

abbrev pub after_ack : Client → Outcome ℕ → Outcome Client
after_ack c (ok result) = ok (record c { phase = bound; config = some c.ip })
after_ack c (error code) = ok c
after_ack c panic = panic
after_ack c Outcome.undefined = Outcome.undefined

-- The answer of one call of `udp_rec`; `none` when the rounds of the search for an option run out.
unfoldable pub dhcp_step :
    (fuel tid : ℕ) → Phase → Option (Netbuf × Memory) → Client → Option (Outcome Client)
dhcp_step fuel tid phase none c = some (ok c)
dhcp_step fuel tid discovering (some (b, m)) c =
    dhcp_parse_offer fuel b m tid c.ip >>= λ r. some (after_offer tid c r)
dhcp_step fuel tid requesting (some (b, m)) c =
    dhcp_parse_ack fuel b m tid >>= λ r. some (after_ack c r)
dhcp_step fuel tid bound (some (b, m)) c = some (ok c)

abbrev pub go_on : (Client → Option (Outcome Client)) → Outcome Client → Option (Outcome Client)
go_on rest (ok c) = rest c
go_on rest (error code) = some (error code)
go_on rest panic = some panic
go_on rest Outcome.undefined = some Outcome.undefined

unfoldable pub dhcp_run :
    (fuel tid : ℕ) → List (Option (Netbuf × Memory)) → Client → Option (Outcome Client)
dhcp_run fuel tid [] c = some (ok c)
dhcp_run fuel tid (e ∷ es) c =
    dhcp_step fuel tid c.phase e c >>= λ r. go_on (λ c'. dhcp_run fuel tid es c') r
