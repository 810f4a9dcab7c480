-- ===== src/Tftp/Tests.antt =====
-- Packets of a small download.
use operating_system_cortex.Prelude.{
  ℕ, ◌+◌, ◌%◌, ◌^◌, ◌<◌, ◌≡◌, refl, inl, some, [], ◌∷◌, ◌==◌, if◌then◌else◌, get_or, arith,
}
use operating_system_cortex.Prelude.Outcome.{ok}
use operating_system_cortex.Bytes.{Memory, read_be16}
use operating_system_cortex.Bytes.Regions.{Outside}
use operating_system_cortex.Net.{Netbuf}
use operating_system_cortex.Tftp.{get_filesize, receive_loop}
use operating_system_cortex.Tftp.Size.{get_filesize-decimal}
use operating_system_cortex.Tftp.Download.{numbers, file_byte, receive_loop-Blocks}

-- The code 6, "tsize" and "537".
abbrev accepted : Memory
accepted a = get_or (0 ∷ 6 ∷ 0x74 ∷ 0x73 ∷ 0x69 ∷ 0x7A ∷ 0x65 ∷ 0 ∷ 0x35 ∷ 0x33 ∷ 0x37 ∷ 0 ∷ []) a 0

abbrev accepted_buf : Netbuf
accepted_buf = record { buf = 0; ptr = 0; frame_len = 12; ip = 0 }

accepted_code : read_be16 0 accepted ≡ 6
unfolding read_be16
accepted_code = refl

get_filesize-decimal_example : get_filesize accepted_buf accepted ≡ ok 537
get_filesize-decimal_example =
    get_filesize-decimal accepted_buf (5 ∷ 3 ∷ 7 ∷ []) accepted accepted_code
      (refl, (refl, (refl, (refl, (refl, tt))))) refl
      ((refl, omega arith, (refl, omega arith, (refl, omega arith, refl)))) (omega arith)
      (omega arith) (omega arith)

-- Block 1 with 512 bytes at 1000, and block 2 with 25 at 2000.
abbrev blocks : Memory
blocks a =
    if a == 1001
    then 3
    else if a == 1003
    then 1
    else if a == 2001
    then 3
    else if a == 2003
    then 2
    else if a == 1000
    then 0
    else if a == 1002
    then 0
    else if a == 2000
    then 0
    else if a == 2002
    then 0
    else a % 2 ^ 8

abbrev first_block : Netbuf
first_block = record { buf = 1000; ptr = 1000; frame_len = 516; ip = 0 }

abbrev second_block : Netbuf
second_block = record { buf = 2000; ptr = 2000; frame_len = 29; ip = 0 }

blocks-IsBytes : (a : ℕ) → blocks a < 2 ^ 8
blocks-IsBytes a = ground arith

first_code : read_be16 1000 blocks ≡ 3
unfolding read_be16
first_code = refl

first_number : read_be16 1002 blocks ≡ 1
unfolding read_be16
first_number = refl

second_code : read_be16 2000 blocks ≡ 3
unfolding read_be16
second_code = refl

second_number : read_be16 2002 blocks ≡ 2
unfolding read_be16
second_number = refl

receive_loop-Blocks_example :
    (g : Memory) × (receive_loop (first_block ∷ second_block ∷ []) 4000 1 blocks
      ≡ some (ok (g, numbers 1 (first_block ∷ second_block ∷ []))))
    × ((i : ℕ) → i < 537 → g (4000 + i) ≡ file_byte blocks (first_block ∷ second_block ∷ []) i)
    × ((q : ℕ) → Outside 4000 537 q → g q ≡ blocks q)
receive_loop-Blocks_example =
    receive_loop-Blocks (first_block ∷ second_block ∷ []) 4000 537 blocks blocks-IsBytes
      (
        omega arith,
        record {
          op = first_code;
          number = first_number;
          frame_len = refl;
          apart = inl (omega arith);
        },
        (
          omega arith,
          record {
            op = second_code;
            number = second_number;
            frame_len = refl;
            apart = inl (omega arith);
          },
        ),
      )
      (omega arith)
