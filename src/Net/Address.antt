-- ===== src/Net/Address.antt =====
-- net/ip.c: `str_to_ipv4`. A string is the list of its characters in front of the NULL.
use Prim.Native.Nat.{bit_or}
use operating_system_cortex.Prelude.{
  ℕ, zero, suc, ◌+◌, ◌-◌, ◌*◌, ◌^◌, ◌≤◌, ◌<◌, ◌≡◌, refl, true, false, ◌||◌, List, [], ◌∷◌, ◌++◌,
  tail, map, ◌==◌, ltb, if◌then◌else◌, arith,
}
use operating_system_cortex.Prelude.Bits.{◌<<<◌, u32, bit_or-below}
use operating_system_cortex.Prelude.Outcome.{Outcome, ok, error, ◌>>=◌}
use operating_system_cortex.Prelude.Sets.{All}

abbrev pub ebadip : ℕ
ebadip = 18

-- `*buf`: the NULL behind the last character.
abbrev pub at : List ℕ → ℕ
at [] = 0
at (c ∷ cs) = c

-- The inner loop, which reads digits up to `stop`: the octet, and the string behind `stop`.
unfoldable pub read_octet : (stop octet : ℕ) → List ℕ → Outcome (ℕ × List ℕ)
read_octet stop octet [] = error ebadip
read_octet stop octet (c ∷ cs) =
    let octet' = u32 (octet * 10 + (c - 48)) in
    let rest = read_octet stop octet' cs in
    if ltb c 48 || ltb 57 c
    then error ebadip
    else if ltb 255 octet'
    then error ebadip
    else if at cs == stop
    then ok (octet', tail cs)
    else rest

-- The outer loop, `left` rounds before its end.
unfoldable pub read_octets : (left : ℕ) → List ℕ → (addr : ℕ) → Outcome ℕ
read_octets zero buf addr = ok addr
read_octets (suc left) buf addr = do
  (octet, rest) ← read_octet (if left == 0 then 0 else 46) 0 buf
  read_octets left rest (bit_or (u32 (addr <<< 8)) octet)

unfoldable pub str_to_ipv4 : List ℕ → (addr : ℕ) → Outcome ℕ
str_to_ipv4 buf addr = read_octets 4 buf addr

-- The number whose decimal digits are `ds`, behind those of `n`.
abbrev pub decimal : (n : ℕ) (ds : List ℕ) → ℕ
decimal n [] = n
decimal n (d ∷ ds) = decimal (n * 10 + d) ds

-- One to many digits for a number below 256.
abbrev pub IsOctet : ℕ → List ℕ → Type 0
IsOctet d ds = All (λ e. e < 10) (d ∷ ds) × (decimal 0 (d ∷ ds) < 256)

abbrev pub text : List ℕ → List ℕ
text ds = map (λ d. 48 + d) ds

pub decimal-grows : (n : ℕ) (ds : List ℕ) → n ≤ decimal n ds
decimal-grows n [] = omega arith
decimal-grows n (d ∷ ds) = omega (arith, decimal-grows (n * 10 + d) ds)

-- What one round of the loop meets at a digit.
digit_round :
    (n d : ℕ)
    → d < 10
    → n * 10 + d < 256
    → (ltb (48 + d) 48 ≡ false)
      × (ltb 57 (48 + d) ≡ false)
      × (u32 (n * 10 + (48 + d - 48)) ≡ n * 10 + d)
      × (ltb 255 (n * 10 + d) ≡ false)
digit_round n d hd h = (ground arith, ground arith, omega arith, apart (n * 10 + d) h)
  where
    apart : (x : ℕ) → x < 256 → ltb 255 x ≡ false
    apart x h = ground arith

read_octet-decimal :
    (stop n d : ℕ) (ds t : List ℕ)
    → stop < 48
    → at t ≡ stop
    → All (λ e. e < 10) (d ∷ ds)
    → decimal n (d ∷ ds) < 256
    → read_octet stop n (text (d ∷ ds) ++ t) ≡ ok (decimal n (d ∷ ds), tail t)
unfolding read_octet
read_octet-decimal stop n d [] t hs ends small bound =
    let r = digit_round n d small.0 bound in
    let stops : (stop == stop) ≡ true = ground arith in rw (r.0, r.1, r.2, r.3, ends, stops) refl
read_octet-decimal stop n d (e ∷ es) t hs ends small bound =
    let grows = decimal-grows (n * 10 + d) (e ∷ es) in
    let r = digit_round n d small.0 (omega (arith, grows)) in
    let goes_on : (48 + e == stop) ≡ false = ground arith in
    rw (r.0, r.1, r.2, r.3, goes_on)
      (read_octet-decimal stop (n * 10 + d) e es t hs ends small.1 bound)

-- An octet goes in at the low end of the address.
shift_in : (addr o : ℕ) → o < 256 → bit_or (u32 (addr <<< 8)) o ≡ u32 (addr * 2 ^ 8) + o
shift_in addr o h = bit_or-below 8 (u32 (addr <<< 8)) o (omega arith) h

bytes_sum :
    (addr o1 o2 o3 o4 : ℕ)
    → o1 < 256
    → o2 < 256
    → o3 < 256
    → u32 ((u32 ((u32 ((u32 (addr * 2 ^ 8) + o1) * 2 ^ 8) + o2) * 2 ^ 8) + o3) * 2 ^ 8) + o4
      ≡ o1 * 2 ^ 24 + o2 * 2 ^ 16 + o3 * 2 ^ 8 + o4
bytes_sum addr o1 o2 o3 o4 h1 h2 h3 = omega arith

-- `str_to_ipv4` reads four numbers below 256 with dots between them as the address with these
-- bytes, whatever stood in the result before.
pub str_to_ipv4_lem :
    (a b c d : ℕ) (ta tb tc td : List ℕ) (addr : ℕ)
    → IsOctet a ta
    → IsOctet b tb
    → IsOctet c tc
    → IsOctet d td
    → str_to_ipv4
        (text (a ∷ ta)
          ++ (46 ∷ (text (b ∷ tb) ++ (46 ∷ (text (c ∷ tc) ++ (46 ∷ (text (d ∷ td) ++ [])))))))
        addr
      ≡ ok (
          decimal 0 (a ∷ ta) * 2 ^ 24
          + decimal 0 (b ∷ tb) * 2 ^ 16
          + decimal 0 (c ∷ tc) * 2 ^ 8
          + decimal 0 (d ∷ td))
unfolding str_to_ipv4 read_octets
str_to_ipv4_lem a b c d ta tb tc td addr ha hb hc hd =
    let o1 = decimal 0 (a ∷ ta) in
    let o2 = decimal 0 (b ∷ tb) in
    let o3 = decimal 0 (c ∷ tc) in
    let o4 = decimal 0 (d ∷ td) in
    let a1 = u32 (addr * 2 ^ 8) + o1 in
    let a2 = u32 (a1 * 2 ^ 8) + o2 in
    let a3 = u32 (a2 * 2 ^ 8) + o3 in
    let sum : u32 (a3 * 2 ^ 8) + o4 ≡ o1 * 2 ^ 24 + o2 * 2 ^ 16 + o3 * 2 ^ 8 + o4 =
      bytes_sum addr o1 o2 o3 o4 ha.1 hb.1 hc.1 in
    rw
      (
        read_octet-decimal 46 0 a ta
            (46 ∷ (text (b ∷ tb) ++ (46 ∷ (text (c ∷ tc) ++ (46 ∷ (text (d ∷ td) ++ []))))))
            (omega arith) refl ha.0 ha.1,
        read_octet-decimal 46 0 b tb (46 ∷ (text (c ∷ tc) ++ (46 ∷ (text (d ∷ td) ++ []))))
            (omega arith) refl hb.0 hb.1,
        read_octet-decimal 46 0 c tc (46 ∷ (text (d ∷ td) ++ [])) (omega arith) refl hc.0 hc.1,
        read_octet-decimal 0 0 d td [] (omega arith) refl hd.0 hd.1,
        shift_in addr o1 ha.1,
        shift_in a1 o2 hb.1,
        shift_in a2 o3 hc.1,
        shift_in a3 o4 hd.1,
        sum,
      )
      refl
