-- ===== src/Dhcp.antt =====
-- net/dhcp.c: what the client reads of the frames that it gets.
use operating_system_cortex.Prelude.{
  ℕ, zero, suc, ◌+◌, ◌-◌, ◌*◌, ◌/◌, Bool, true, false, not, ◌&&◌, Option, none, some, List, [], ◌∷◌,
  ◌==◌, ltb, leb, if◌then◌else◌, length,
}
use operating_system_cortex.Prelude.Outcome.{Outcome, ok, error}
use operating_system_cortex.Bytes.{Memory, read_be32}
use operating_system_cortex.Net.{Netbuf}
use operating_system_cortex.Net.Arp.{enoent, ◌>>=◌}
pub mod Options
pub mod Bounds
pub mod Search
pub mod Build
pub mod Sent
pub mod Client
pub mod Replies
pub mod History
mod Tests

-- `sizeof(struct dhcp_header)`, and where its fields stand.
abbrev pub header_size : ℕ
header_size = 236

abbrev pub magic_cookie : ℕ
magic_cookie = 0x63825363

abbrev pub enet : ℕ
enet = 19

abbrev pub dhcp_discover : ℕ
dhcp_discover = 1

abbrev pub dhcp_offer : ℕ
dhcp_offer = 2

abbrev pub dhcp_request : ℕ
dhcp_request = 3

abbrev pub dhcp_ack : ℕ
dhcp_ack = 5

abbrev pub dhcp_none : ℕ
dhcp_none = 9

-- The loop of `get_option_ptr`: the address of the option, or `-ENOENT`; `none` if the rounds run
-- out.
unfoldable pub option_loop : (fuel opt opt_len opt_value : ℕ) → Memory → Option (Outcome ℕ)
option_loop zero opt opt_len opt_value m = none
option_loop (suc fuel) opt opt_len opt_value m =
    let opt_num = m opt in
    let len = m (opt + 1) in
    let rest = option_loop fuel (opt + 2 + len) (opt_len - 2 - len) opt_value m in
    if ltb opt_len 2
    then some (error enoent)
    else if opt_num == 0xFF
    then some (error enoent)
    else if ltb (opt_len - 2) len
    then some (error enoent)
    else if opt_num == opt_value
    then some (ok opt)
    else rest

unfoldable pub get_option_ptr : (fuel opt_ptr opt_len opt_value : ℕ) → Memory → Option (Outcome ℕ)
get_option_ptr fuel opt_ptr opt_len opt_value m =
    if ltb opt_len 4
    then some (error enoent)
    else if not (read_be32 opt_ptr m == magic_cookie)
    then some (error enoent)
    else option_loop fuel (opt_ptr + 4) (opt_len - 4) opt_value m

unfoldable pub get_dhcp_type : (fuel opt_ptr opt_len : ℕ) → Memory → Option ℕ
get_dhcp_type fuel opt_ptr opt_len m =
    get_option_ptr fuel opt_ptr opt_len 53 m >>= λ found. some (type_at found)
  where
    type_at : Outcome ℕ → ℕ
    type_at (ok p) = m (p + 2)
    type_at (error code) = dhcp_none
    type_at Outcome.panic = dhcp_none
    type_at Outcome.undefined = dhcp_none

-- `if (err) return err;`
abbrev pub on_found : {A B : Type 0} → Outcome A → (A → Outcome B) → Outcome B
on_found (ok a) f = f a
on_found (error code) f = error code
on_found Outcome.panic f = Outcome.panic
on_found Outcome.undefined f = Outcome.undefined

unfoldable pub get_subnet_mask : (fuel opt_ptr opt_len : ℕ) → Memory → Option (Outcome ℕ)
get_subnet_mask fuel opt_ptr opt_len m = get_option_ptr fuel opt_ptr opt_len 1 m >>= λ found.
    some (on_found found (λ p. ok (read_be32 (p + 2) m)))

-- `cnt` addresses from `p` on.
unfoldable pub read_gateways : (cnt p : ℕ) → Memory → List ℕ
read_gateways zero p m = []
read_gateways (suc cnt) p m = read_be32 p m ∷ read_gateways cnt (p + 4) m

-- `kmalloc` succeeds.
unfoldable pub get_gateway : (fuel opt_ptr opt_len : ℕ) → Memory → Option (Outcome (List ℕ))
get_gateway fuel opt_ptr opt_len m = get_option_ptr fuel opt_ptr opt_len 3 m >>= λ found. some (
    on_found found (λ p.
      let cnt = m (p + 1) / 4 in
      if cnt == 0 then error enoent else ok (read_gateways cnt (p + 2) m)))

-- `struct ip_struct`, its servers as a list.
pub record IpStruct : Type 0 where
  pub our_ip : ℕ
  pub subnet_mask : ℕ
  pub server_ip : List ℕ
  pub server_cnt : ℕ

-- The fields that a call that fails leaves as they are.
set_mask : Outcome ℕ → IpStruct → IpStruct
set_mask (ok mask) ip = record ip { subnet_mask = mask }
set_mask (error code) ip = ip
set_mask Outcome.panic ip = ip
set_mask Outcome.undefined ip = ip

set_servers : Outcome (List ℕ) → IpStruct → IpStruct
set_servers (ok servers) ip = record ip { server_ip = servers; server_cnt = length servers }
set_servers (error code) ip = ip
set_servers Outcome.panic ip = ip
set_servers Outcome.undefined ip = ip

unfoldable pub handle_dhcp_offer : (fuel : ℕ) → Netbuf → Memory → IpStruct → Option IpStruct
unfolding set_mask set_servers
handle_dhcp_offer fuel b m ip =
    let ip1 = record ip { our_ip = read_be32 (b.ptr + 16) m } in
    let opt_len = b.frame_len - header_size in
    let opt_ptr = b.ptr + header_size in
    let parsed = get_subnet_mask fuel opt_ptr opt_len m >>= λ mask.
    get_gateway fuel opt_ptr opt_len m >>= λ servers.
    some (set_servers servers (set_mask mask ip1)) in
    if leb b.frame_len header_size then some ip1 else parsed

unfoldable pub is_dhcp_reply_valid : Netbuf → Memory → (tid : ℕ) → Bool
is_dhcp_reply_valid b m tid =
    if leb b.frame_len header_size
    then false
    else if not (m b.ptr == 2)
    then false
    else if not (m (b.ptr + 1) == 1)
    then false
    else if not (m (b.ptr + 2) == 6)
    then false
    else if not (read_be32 (b.ptr + 4) m == tid)
    then false
    else true

unfoldable pub dhcp_parse_offer :
    (fuel : ℕ) → Netbuf → Memory → (tid : ℕ) → IpStruct → Option (Outcome IpStruct)
dhcp_parse_offer fuel b m tid ip =
    let opt = b.ptr + header_size in
    let parsed = get_dhcp_type fuel opt (b.frame_len - header_size) m >>= λ type.
    if not (type == dhcp_offer)
    then some (error enet)
    else handle_dhcp_offer fuel b m ip >>= λ ip'. some (ok ip') in
    if not (is_dhcp_reply_valid b m tid) then some (error enet) else parsed

unfoldable pub dhcp_parse_ack : (fuel : ℕ) → Netbuf → Memory → (tid : ℕ) → Option (Outcome ℕ)
dhcp_parse_ack fuel b m tid =
    let opt = b.ptr + header_size in
    let parsed = get_dhcp_type fuel opt (b.frame_len - header_size) m >>= λ type.
    some (if not (type == dhcp_ack) then error enet else ok 0) in
    if not (is_dhcp_reply_valid b m tid) then some (error enet) else parsed
