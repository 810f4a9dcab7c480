-- ===== src/Sprint/Number.antt =====
-- lib/sprint.c: what `put_number` writes: sign, digits and padding.
use operating_system_cortex.Prelude.{
  ℕ, zero, suc, ◌+◌, ◌^◌, ◌<◌, ◌≤◌, ◌≡◌, refl, ap, ◌∙◌, ◌⊎◌, inl, inr, List, [], ◌∷◌, ◌++◌, ◌==◌,
  arith, Bool-cases, Bool, true, false, if◌then◌else◌, length, ltb, leb, ◌-◌,
}
use operating_system_cortex.Prelude.Bits.{sub32}
use operating_system_cortex.Sprint.{Flags, signed, special_of, placed, pads, put_number}
use operating_system_cortex.Sprint.Digits.{
  IsBase, AreDigits, NoZeroInFront, value, text, written_digits,
}

-- What the flags make of a word: its magnitude, and the sign that is written.
abbrev pub IsSigned : Flags → (num magnitude : ℕ) → (sign : List ℕ) → Type 0
IsSigned flags num magnitude sign =
    (flags.sign ≡ false) × (magnitude ≡ num) × (sign ≡ [])
    ⊎ ((flags.sign ≡ true) × (2 ^ 31 ≤ num) × (magnitude + num ≡ 2 ^ 32) × (sign ≡ 0x2D ∷ [])
        ⊎ (flags.sign ≡ true)
          × (num < 2 ^ 31)
          × (magnitude ≡ num)
          × (sign ≡ (if flags.plus then 0x2B ∷ [] else if flags.space then 0x20 ∷ [] else [])))

signed-IsSigned :
    (flags : Flags) (num : ℕ)
    → num < 2 ^ 32
    → IsSigned flags num (signed flags num).0 (signed flags num).1
unfolding signed
signed-IsSigned flags num h = elim (Bool-cases flags.sign) [
  | inr plain ↦ rw plain (inl (refl, refl, refl))
  | inl with_sign ↦ elim (Bool-cases (leb (2 ^ 31) num)) [
    | inl negative ↦
        let low : 2 ^ 31 ≤ num = ground arith in
        let sum : sub32 0 num + num ≡ 2 ^ 32 = omega (arith, h) in
        rw (with_sign, negative) (inr (inl (refl, low, sum, refl)))
    | inr positive ↦
        let high : num < 2 ^ 31 = ground arith in
        elim (Bool-cases flags.plus) [
          | inl plus ↦ rw (with_sign, positive, plus) (inr (inr (refl, high, refl, refl)))
          | inr no_plus ↦ elim (Bool-cases flags.space) [
            | inl space ↦
                rw (with_sign, positive, no_plus, space) (inr (inr (refl, high, refl, refl)))
            | inr no_space ↦
                rw (with_sign, positive, no_plus, no_space) (inr (inr (refl, high, refl, refl)))
          ]
        ]
  ]
]

-- "0b", "0" or "0x".
abbrev pub prefix : {base : ℕ} → IsBase base → (special : Bool) → List ℕ
prefix b false = []
prefix (inl e) true = 0x30 ∷ 0x62 ∷ []
prefix (inr (inl e)) true = 0x30 ∷ []
prefix (inr (inr e)) true = 0x30 ∷ 0x78 ∷ []

special_of-prefix :
    (flags : Flags) (base : ℕ) (b : IsBase base) → special_of flags base ≡ prefix b flags.special
unfolding special_of
special_of-prefix flags base b = elim (Bool-cases flags.special) [
  | inr plain ↦ rw plain refl
  | inl special ↦ rw special (by_base b)
]
  where
    by_base :
        (b : IsBase base)
        → (if base == 2
            then 0x30 ∷ 0x62 ∷ []
            else if base == 16
            then 0x30 ∷ 0x78 ∷ []
            else 0x30 ∷ [])
          ≡ prefix b true
    by_base (inl e) = rw e refl
    by_base (inr (inl e)) = rw e refl
    by_base (inr (inr e)) = rw e refl

abbrev pub AllAre : (c : ℕ) → List ℕ → Type 0
AllAre c [] = Unit
AllAre c (x ∷ xs) = (x ≡ c) × AllAre c xs

pads-AllAre : (n c : ℕ) → AllAre c (pads n c) × (length (pads n c) ≡ n)
unfolding pads
pads-AllAre zero c = (tt, refl)
pads-AllAre (suc n) c = let rest = pads-AllAre n c in ((refl, rest.0), ap suc rest.1)

-- A text with padding to the width, on the side that the flag says.
abbrev pub beside : (left : Bool) (padding tmp : List ℕ) → List ℕ
beside left padding tmp = if left then tmp ++ padding else padding ++ tmp

placed-beside :
    (flags : Flags) (width : ℕ) (tmp : List ℕ)
    → (padding : List ℕ) × AllAre (if flags.zeros then 0x30 else 0x20) padding
      × (length padding ≡ width - length tmp)
      × (placed flags width tmp ≡ beside flags.left padding tmp)
unfolding placed
placed-beside flags width tmp =
    let size = (if ltb width (length tmp) then length tmp else width) - length tmp in
    let pad = if flags.zeros then 0x30 else 0x20 in
    let (same, long) = pads-AllAre size pad in
    let e : size ≡ width - length tmp = ground arith in (pads size pad, same, long ∙ e, refl)

-- In the bases of `vsprint`, `put_number` writes what FLAG_SPECIAL asks for, then the sign and the
-- digits with the padding on the side that FLAG_LEFT says. The digits are those of the magnitude in
-- the base, with no zero in front unless it is zero, in small letters or capitals as FLAG_SMALL
-- says; magnitude and sign are those of the word as a signed number if FLAG_SIGN is set; the padding
-- is zeros or spaces, as many as the width has characters more.
pub put_number-digits :
    (num base width : ℕ) (flags : Flags) (b : IsBase base)
    → num < 2 ^ 32
    → (ds : List ℕ) × (magnitude : ℕ) × (sign : List ℕ) × (padding : List ℕ) × AreDigits base ds
      × NoZeroInFront ds
      × (value base 0 ds ≡ magnitude)
      × IsSigned flags num magnitude sign
      × AllAre (if flags.zeros then 0x30 else 0x20) padding
      × (length padding ≡ width - length (sign ++ text flags.small ds))
      × (put_number num flags base width
          ≡ prefix b flags.special ++ beside flags.left padding (sign ++ text flags.small ds))
unfolding put_number
put_number-digits num base width flags b h =
    let sign = (signed flags num).1 in
    let (ds, digits, heads, e, written) =
      written_digits (signed flags num).0 base flags.small b (signed_small flags num h) in
    let (padding, same, long, at_side) = placed-beside flags width (sign ++ text flags.small ds) in
    (
      ds,
      (signed flags num).0,
      sign,
      padding,
      digits,
      heads,
      e,
      signed-IsSigned flags num h,
      same,
      long,
      rw (written, special_of-prefix flags base b, at_side) refl,
    )
  where
    signed_small : (flags : Flags) (num : ℕ) → num < 2 ^ 32 → (signed flags num).0 < 2 ^ 32
    signed_small flags num h = unfold signed in ground arith
