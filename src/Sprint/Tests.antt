-- ===== src/Sprint/Tests.antt =====
-- Formats with known results.
use operating_system_cortex.Prelude.{
  ℕ, ◌≡◌, refl, inl, inr, some, List, [], ◌∷◌, length, false, ◌-◌, ◌++◌, true, arith,
}
use operating_system_cortex.Prelude.Outcome.{Outcome, ok}
use operating_system_cortex.Sprint.{
  Flags, number_loop, signed, special_of, placed, pads, put_number, no_flags, number, read_flags,
  read_width, get_width, directive, format_round, vsprint,
}
use operating_system_cortex.Sprint.Rounds.{vsprint-ends}
use operating_system_cortex.Sprint.Digits.{AreDigits, NoZeroInFront, value, text}
use operating_system_cortex.Sprint.Number.{IsSigned, AllAre, put_number-digits}

abbrev signed_flags : Flags
signed_flags = record no_flags { sign = true; zeros = true }

-- The word of -42.
put_number-digits_example :
    (ds : List ℕ) × (magnitude : ℕ) × (sign : List ℕ) × (padding : List ℕ) × AreDigits 10 ds
    × NoZeroInFront ds
    × (value 10 0 ds ≡ magnitude)
    × IsSigned signed_flags 0xFFFFFFD6 magnitude sign
    × AllAre 0x30 padding
    × (length padding ≡ 5 - length (sign ++ text false ds))
    × (put_number 0xFFFFFFD6 signed_flags 10 5 ≡ padding ++ (sign ++ text false ds))
put_number-digits_example =
    put_number-digits 0xFFFFFFD6 10 5 signed_flags (inr (inl refl)) (omega arith)

-- "%05d" of -42 gives "00-42".
zeros_before_sign :
    vsprint 9 (0x25 ∷ 0x30 ∷ 0x35 ∷ 0x64 ∷ []) (number 0xFFFFFFD6 ∷ [])
    ≡ some (ok (0x30 ∷ 0x30 ∷ 0x2D ∷ 0x34 ∷ 0x32 ∷ []))
unfolding vsprint format_round read_flags get_width read_width directive put_number number_loop
    signed special_of placed pads
zeros_before_sign = refl

-- "%q", whose character the loop writes in its next round.
vsprint-ends_example : (r : Outcome (List ℕ)) × (vsprint 2 (0x25 ∷ 0x71 ∷ []) [] ≡ some r)
vsprint-ends_example = vsprint-ends 2 (0x25 ∷ 0x71 ∷ []) [] (omega arith)
