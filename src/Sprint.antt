-- ===== src/Sprint.antt =====
-- lib/sprint.c: formatted text. What is written to `buf` is a list of characters.
pub mod Digits
pub mod Number
pub mod Rounds
mod Tests
use Prim.Native.Nat.{bit_or}
use operating_system_cortex.Prelude.{
  ℕ, zero, suc, ◌+◌, ◌-◌, ◌*◌, ◌/◌, ◌%◌, ◌^◌, Bool, true, false, ◌&&◌, ◌||◌, Option, none, some,
  List, [], ◌∷◌, ◌++◌, ◌==◌, ltb, leb, if◌then◌else◌, length, take,
}
use operating_system_cortex.Prelude.Outcome.{Outcome, ok, ◌>>=◌}
use operating_system_cortex.Prelude.Bits.{u8, u32, sub32}

-- The bits of `flags`.
pub record Flags : Type 0 where
  pub left : Bool
  pub plus : Bool
  pub space : Bool
  pub zeros : Bool
  pub special : Bool
  pub small : Bool
  pub sign : Bool

-- `letter_lookup[d] | lower`
abbrev pub letter : (lower d : ℕ) → ℕ
letter lower d = bit_or (if ltb d 10 then 0x30 + d else 0x37 + d) lower

-- `while (u_num)`, where `tmp` has the character written last in front; `fuel` bounds the rounds.
unfoldable pub number_loop : (fuel u_num base lower : ℕ) → (tmp : List ℕ) → List ℕ
number_loop zero u_num base lower tmp = tmp
number_loop (suc fuel) u_num base lower tmp =
    let rest = number_loop fuel (u_num / base) base lower (letter lower (u_num % base) ∷ tmp) in
    if u_num == 0 then tmp else rest

-- `u_num` and the sign; a signed number of 32 bits is its word.
unfoldable pub signed : Flags → (num : ℕ) → ℕ × List ℕ
signed flags num =
    if flags.sign
    then (if leb (2 ^ 31) num
        then (sub32 0 num, 0x2D ∷ [])
        else if flags.plus
        then (num, 0x2B ∷ [])
        else if flags.space
        then (num, 0x20 ∷ [])
        else (num, []))
    else (num, [])

abbrev pub lower_of : Flags → ℕ
lower_of flags = if flags.small then 0x20 else 0

unfoldable pub special_of : Flags → (base : ℕ) → List ℕ
special_of flags base =
    if flags.special
    then (if base == 2
        then 0x30 ∷ 0x62 ∷ []
        else if base == 16
        then 0x30 ∷ 0x78 ∷ []
        else 0x30 ∷ [])
    else []

-- `while (pad_size--) *buf++ = pad;`
unfoldable pub pads : (pad_size pad : ℕ) → List ℕ
pads zero pad = []
pads (suc pad_size) pad = pad ∷ pads pad_size pad

-- The end of `put_number`, with the characters of `tmp` in the order in which they are written.
unfoldable pub placed : Flags → (width : ℕ) → (tmp : List ℕ) → List ℕ
placed flags width tmp =
    let i = length tmp in
    let pad_size = (if ltb width i then i else width) - i in
    let pad = if flags.zeros then 0x30 else 0x20 in
    if flags.left then tmp ++ pads pad_size pad else pads pad_size pad ++ tmp

-- 32 rounds: there is a digit at most for each bit. `tmp` has room for 32 characters, which a sign
-- in front of 32 binary digits would exceed; `vsprint` asks for a sign in base 10 alone.
unfoldable pub put_number : (num : ℕ) → Flags → (base width : ℕ) → List ℕ
put_number num flags base width =
    let (u_num, sign) = signed flags num in
    let digits = if u_num == 0 then 0x30 ∷ [] else number_loop 32 u_num base (lower_of flags) [] in
    special_of flags base ++ placed flags width (sign ++ digits)

-- What `va_arg` gives: a number as its word, or a string, `none` for NULL.
pub data Arg : Type 0 where
  number : (num : ℕ) → Arg
  string : (src : Option (List ℕ)) → Arg

abbrev pub no_flags : Flags
no_flags = record {
  left = false;
  plus = false;
  space = false;
  zeros = false;
  special = false;
  small = false;
  sign = false;
}

abbrev pub is_num : (c : ℕ) → Bool
is_num c = leb 0x30 c && leb c 0x39

-- The cases of the first `switch`.
abbrev pub with_flag : (c : ℕ) → Flags → Option Flags
with_flag c flags =
    if c == 0x30
    then some (record flags { zeros = true })
    else if c == 0x2D
    then some (record flags { left = true })
    else if c == 0x20
    then some (record flags { space = true })
    else if c == 0x23
    then some (record flags { special = true })
    else if c == 0x2B
    then some (record flags { plus = true })
    else none

-- `goto flags` behind a flag, and `here` behind another character.
abbrev pub after_flag :
    Option Flags → (here : Flags × List ℕ) → (Flags → Flags × List ℕ) → Flags × List ℕ
after_flag none here next = here
after_flag (some flags) here next = next flags

-- The flags, and the format from the first other character on.
unfoldable pub read_flags : (data_ : List ℕ) → Flags → Flags × List ℕ
read_flags [] flags = (flags, [])
read_flags (c ∷ cs) flags =
    after_flag (with_flag c flags) (flags, c ∷ cs) (λ flags'. read_flags cs flags')

-- `while (is_num(*data))`
unfoldable pub read_width : (data_ : List ℕ) (width : ℕ) → ℕ × List ℕ
read_width [] width = (width, [])
read_width (c ∷ cs) width =
    let rest = read_width cs (u32 (u32 (width * 10) + (c - 0x30))) in
    if is_num c then rest else (width, c ∷ cs)

-- The next argument has to be of the kind that the format asks for.
abbrev pub next_number : {A : Type 0} → List Arg → (ℕ → List Arg → Outcome A) → Outcome A
next_number [] f = Outcome.undefined
next_number (number num ∷ args) f = f num args
next_number (string src ∷ args) f = Outcome.undefined

abbrev pub next_string :
    {A : Type 0} → List Arg → (Option (List ℕ) → List Arg → Outcome A) → Outcome A
next_string [] f = Outcome.undefined
next_string (number num ∷ args) f = Outcome.undefined
next_string (string src ∷ args) f = f src args

-- The width, from an argument for `*`.
unfoldable pub get_width : (data_ : List ℕ) → List Arg → Outcome (ℕ × List ℕ × List Arg)
get_width [] args = ok (0, [], args)
get_width (c ∷ cs) args =
    let (width, rest) = read_width (c ∷ cs) 0 in
    if c == 0x2A
    then next_number args (λ num args'. ok (u32 num, cs, args'))
    else ok (width, rest, args)

-- The case for strings.
unfoldable pub put_string : Flags → (width : ℕ) → (src : List ℕ) → List ℕ
put_string flags width src =
    let name = take width src in
    let padd = pads (width - length name) 0x20 in
    if width == 0 then src else if flags.left then name ++ padd else padd ++ name

-- "<NULL>"
abbrev pub put_src : Flags → (width : ℕ) → Option (List ℕ) → List ℕ
put_src flags width none = put_string flags 6 (0x3C ∷ 0x4E ∷ 0x55 ∷ 0x4C ∷ 0x4C ∷ 0x3E ∷ [])
put_src flags width (some src) = put_string flags width src

-- The cases for numbers: the flags, the base and the width.
abbrev pub number_case : (c : ℕ) → Flags → (width : ℕ) → Option (Flags × ℕ × ℕ)
number_case c flags width =
    if c == 0x78
    then some (record flags { small = true }, 16, width)
    else if c == 0x58
    then some (flags, 16, width)
    else if c == 0x64 || c == 0x69
    then some (record flags { sign = true }, 10, width)
    else if c == 0x75
    then some (flags, 10, width)
    else if c == 0x70
    then some (record flags { special = true; small = true; zeros = true }, 16, 8)
    else if c == 0x50
    then some (flags, 16, 8)
    else if c == 0x62
    then some (record flags { small = true }, 2, width)
    else if c == 0x42
    then some (flags, 2, width)
    else none

abbrev pub Written : Type 0
Written = List ℕ × List ℕ × List Arg

-- Behind the cases for numbers; the last case goes on with the character itself.
abbrev pub put_case : Option (Flags × ℕ × ℕ) → (c : ℕ) (cs : List ℕ) → List Arg → Outcome Written
put_case none c cs args = ok ([], c ∷ cs, args)
put_case (some (flags, base, width)) c cs args =
    next_number args (λ num args'. ok (put_number (u32 num) flags base (u8 width), cs, args'))

-- The second `switch`: the characters written, the rest of the format and of the arguments.
unfoldable pub directive : Flags → (width : ℕ) → (data_ : List ℕ) → List Arg → Outcome Written
directive flags width [] args = ok ([], [], args)
directive flags width (c ∷ cs) args =
    if c == 0x73
    then next_string args (λ src args'. ok (put_src flags width src, cs, args'))
    else if c == 0x25
    then ok (0x25 ∷ [], cs, args)
    else if c == 0x63
    then next_number args (λ num args'. ok (u8 num ∷ [], cs, args'))
    else put_case (number_case c flags width) c cs args

-- A round at a `%`, which the format behind it is given for.
unfoldable pub format_round : (data_ : List ℕ) → List Arg → Outcome Written
format_round data_ args =
    let (flags, data1) = read_flags data_ no_flags in
    get_width data1 args >>= λ (width, data2, args1). directive flags width data2 args1

-- What is written before the rest.
abbrev pub behind : List ℕ → Option (Outcome (List ℕ)) → Option (Outcome (List ℕ))
behind text none = none
behind text (some r) = some (r >>= λ more. ok (text ++ more))

abbrev pub go_on :
    Outcome Written → (List ℕ → List Arg → Option (Outcome (List ℕ))) → Option (Outcome (List ℕ))
go_on (ok (text, data_, args)) next = behind text (next data_ args)
go_on (Outcome.error code) next = some (Outcome.error code)
go_on Outcome.panic next = some Outcome.panic
go_on Outcome.undefined next = some Outcome.undefined

-- The loop of `vsprint`; `none` if the rounds run out.
unfoldable pub vsprint : (fuel : ℕ) (data_ : List ℕ) → List Arg → Option (Outcome (List ℕ))
vsprint fuel [] args = some (ok [])
vsprint zero (c ∷ cs) args = none
vsprint (suc fuel) (c ∷ cs) args =
    if c == 0x25
    then go_on (format_round cs args) (λ rest args'. vsprint fuel rest args')
    else behind (c ∷ []) (vsprint fuel cs args)
