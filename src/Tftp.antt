-- ===== src/Tftp.antt =====
-- net/tftp.c: the client that downloads a file.
pub mod Size
pub mod Download
mod Tests
use operating_system_cortex.Prelude.{
  ℕ, zero, suc, ◌+◌, ◌-◌, ◌*◌, ◌^◌, not, Option, none, some, List, [], ◌∷◌, ◌==◌, leb,
  if◌then◌else◌,
}
use operating_system_cortex.Prelude.Bits.{u16, u32, sub32}
use operating_system_cortex.Prelude.Outcome.{Outcome, ok, error, panic, ◌>>=◌}
use operating_system_cortex.Bytes.{Memory, put, mem_copy, read_be16, store_be16, store_be32}
use operating_system_cortex.Net.{Netbuf}
use operating_system_cortex.Net.Address.{str_to_ipv4}
use operating_system_cortex.Net.Ports.{UdpPort, udp_get_free_port, udp_listen}
use operating_system_cortex.Dhcp.{enet}

abbrev pub tftp_read : ℕ
tftp_read = 1

abbrev pub tftp_data : ℕ
tftp_data = 3

abbrev pub tftp_opt_ack : ℕ
tftp_opt_ack = 6

-- `struct tftp`, but for the packet number, which no function uses.
pub record Tftp : Type 0 where
  pub client_port : ℕ
  pub server_port : ℕ
  pub server_ip : ℕ

-- `tftp_create`: the client, the next free port of net/udp.c, and the ports.
unfoldable pub tftp_create :
    (ip_addr : List ℕ) (udp_port : ℕ) → List UdpPort → Tftp → Outcome (Tftp × ℕ × List UdpPort)
tftp_create ip_addr udp_port ports t =
    let (client_port, udp_port') = udp_get_free_port udp_port in
    str_to_ipv4 ip_addr t.server_ip >>= λ server_ip. udp_listen client_port ports >>= λ ports'.
    ok (record t { client_port = client_port; server_ip = server_ip }, udp_port', ports')

-- `tftp_add_field`: the pointer behind the field and the memory; an option is its characters
-- before the NULL.
unfoldable pub tftp_add_field : (opt : List ℕ) → ℕ × Memory → ℕ × Memory
tftp_add_field [] (ptr, m) = (ptr + 1, put ptr 0 m)
tftp_add_field (c ∷ opt) (ptr, m) = tftp_add_field opt (ptr + 1, put ptr c m)

-- "octet"
abbrev pub octet : List ℕ
octet = 0x6F ∷ 0x63 ∷ 0x74 ∷ 0x65 ∷ 0x74 ∷ []

-- "tsize"
abbrev pub tsize : List ℕ
tsize = 0x74 ∷ 0x73 ∷ 0x69 ∷ 0x7A ∷ 0x65 ∷ []

-- The packet that `tftp_download` sends first, in a buffer that it got.
unfoldable pub tftp_request : (filename : List ℕ) → Netbuf → Memory → Netbuf × Memory
tftp_request filename b m =
    let (ptr, m') = tftp_add_field (0x30 ∷ []) (
      tftp_add_field tsize (
        tftp_add_field octet
          (tftp_add_field filename (b.ptr + 2, store_be16 tftp_read b.ptr m)))) in
    (record b { frame_len = ptr - b.ptr }, m')

-- The first loop of `get_filesize`: `ptr` and `len` behind it, or `none` at another character. A
-- signed number of 32 bits is its word.
unfoldable pub tsize_loop : (tsize : List ℕ) (ptr len : ℕ) → Memory → Option (ℕ × ℕ)
tsize_loop [] ptr len m = some (ptr, len)
tsize_loop (c ∷ cs) ptr len m =
    let rest = tsize_loop cs (ptr + 1) (sub32 len 1) m in
    if len == 0 then some (ptr, len) else if not (m ptr == c) then none else rest

-- The second loop: `len` and `tmp` behind it.
unfoldable pub digit_loop : (len ptr tmp : ℕ) → Memory → ℕ × ℕ
digit_loop zero ptr tmp m = (2 ^ 32 - 1, tmp)
digit_loop (suc len) ptr tmp m =
    let rest = digit_loop len (ptr + 1) (u32 (u32 (tmp * 10) + sub32 (m ptr) 0x30)) m in
    if m ptr == 0 then (len, tmp) else rest

-- What follows the first loop.
unfoldable pub size_field : Option (ℕ × ℕ) → Memory → Outcome ℕ
size_field none m = error enet
size_field (some (ptr, len)) m =
    let (len', tmp) = digit_loop (sub32 len 1) (ptr + 1) 0 m in
    if not (m ptr == 0) then error enet else if leb (2 ^ 31) len' then error enet else ok tmp

-- `get_filesize`: `*filesize`, or `-ENET`.
unfoldable pub get_filesize : Netbuf → Memory → Outcome ℕ
get_filesize b m =
    if not (read_be16 b.ptr m == tftp_opt_ack)
    then error enet
    else size_field (tsize_loop tsize (b.ptr + 2) (sub32 b.frame_len 2) m) m

-- The packet of `ack_opt_ack`, in a buffer that it got.
unfoldable pub ack_opt_ack : Netbuf → Memory → Netbuf × Memory
ack_opt_ack b m = (record b { frame_len = 4 }, store_be32 0x00040000 b.ptr m)

-- The packet of `send_ack`, in a buffer that it got.
unfoldable pub send_ack : (block : ℕ) → Netbuf → Memory → Netbuf × Memory
send_ack block b m =
    (record b { frame_len = 4 }, store_be16 (u16 block) (b.ptr + 2) (store_be16 0x0004 b.ptr m))

-- One more acknowledgement, in front of those that the rest of the loop sends.
abbrev pub acked : ℕ → Option (Outcome (Memory × List ℕ)) → Option (Outcome (Memory × List ℕ))
acked block none = none
acked block (some (ok (m, acks))) = some (ok (m, block ∷ acks))
acked block (some (error code)) = some (error code)
acked block (some panic) = some panic
acked block (some Outcome.undefined) = some Outcome.undefined

-- What `kmalloc` gave for the file is filled from `buffer` on with the packets that `udp_rec` gives:
-- the memory, and the blocks that `send_ack` is called for. A packet stands in its buffer before
-- the loop begins, and an acknowledgement, which goes to a buffer of its own, is not part of the
-- memory. `none`: the loop waits for more.
unfoldable pub receive_loop :
    (bufs : List Netbuf) (buffer block_number : ℕ) → Memory → Option (Outcome (Memory × List ℕ))
receive_loop [] buffer block_number m = none
receive_loop (b ∷ bufs) buffer block_number m =
    let len = sub32 b.frame_len 4 in
    let m' = mem_copy (b.ptr + 4) buffer len m in
    let rest : Option (Outcome (Memory × List ℕ)) =
      acked block_number (receive_loop bufs (buffer + len) (u32 (block_number + 1)) m') in
    if not (read_be16 b.ptr m == tftp_data)
    then some panic
    else if not (read_be16 (b.ptr + 2) m == block_number)
    then some panic
    else if not (len == 512)
    then some (ok (m', block_number ∷ []))
    else rest
