-- ===== src/Fat/Names/Long.antt =====
-- What a comparison with a fragment of a long name means.
use mathlib.Core.Logic.{◌↔◌}
use operating_system_cortex.Prelude.{
  ℕ, zero, suc, ◌+◌, ◌-◌, ◌^◌, ◌≤◌, ◌<◌, ◌≡◌, refl, true, false, ◌==◌, leb, ltb, ltb→lt, arith,
  Bool-cases, inl, inr,
}
use operating_system_cortex.Prelude.Bits.{sub32}
use operating_system_cortex.Fat.Names.{frag_loop, fat_lfn_cmp_frag}

abbrev Same : (left i len : ℕ) → (file_name frag : ℕ → ℕ) → Type 0
Same left i len file_name frag =
    (i + left ≤ len) × ((j : ℕ) → i ≤ j → j < i + left → file_name j ≡ frag j)

frag_loop-true :
    (left i len : ℕ) (file_name frag : ℕ → ℕ)
    → i ≤ len
    → frag_loop left i len file_name frag ≡ true
    → Same left i len file_name frag
unfolding frag_loop
frag_loop-true zero i len file_name frag b h = (omega arith, λ j k l. absurd (omega arith))
frag_loop-true (suc left) i len file_name frag b h = elim (Bool-cases (leb len i)) [
  | inl e ↦ absurd (clash (rw e at h))
  | inr e ↦ elim (Bool-cases (file_name i == frag i)) [
    | inr d ↦ absurd (clash (rw (e, d) at h))
    | inl d ↦
        let rest = frag_loop-true left (suc i) len file_name frag (ground arith) (rw (e, d) at h) in
        let here : file_name i ≡ frag i = ground arith in
        (
          omega (arith, rest.0),
          λ j k l. elim (Bool-cases (j == i)) [
            | inl q ↦ let same : j ≡ i = ground arith in rw same here
            | inr q ↦ rest.1 j (ground arith) (omega arith)
          ],
        )
  ]
]
  where
    clash : false ≡ true → ⊥
    clash h = cc

frag_loop-Same :
    (left i len : ℕ) (file_name frag : ℕ → ℕ)
    → Same left i len file_name frag
    → frag_loop left i len file_name frag ≡ true
unfolding frag_loop
frag_loop-Same zero i len file_name frag s = refl
frag_loop-Same (suc left) i len file_name frag s =
    let rest =
      frag_loop-Same left (suc i) len file_name frag
        (omega (arith, s.0), λ j k l. s.1 j (omega arith) (omega arith)) in
    ground (arith, rest, s.0, s.1 i)

-- `fat_lfn_cmp_frag` says yes exactly when the name, which is not empty, has the whole fragment at
-- the offset.
pub fat_lfn_cmp_frag_iff :
    (file_name frag : ℕ → ℕ) (len frag_len offset : ℕ)
    → 0 < len
    → len < 2 ^ 32
    → (fat_lfn_cmp_frag file_name len frag frag_len offset ≡ true)
      ↔ (offset < len)
        × (offset + frag_len ≤ len)
        × ((j : ℕ) → j < frag_len → file_name (offset + j) ≡ frag j)
unfolding fat_lfn_cmp_frag
fat_lfn_cmp_frag_iff file_name frag len frag_len offset some_left fits =
    let last : sub32 len 1 ≡ len - 1 = omega arith in
    elim (Bool-cases (ltb (len - 1) offset)) [
      | inl e ↦
          rw (last, e)
            (λ h. absurd (clash h), λ h. absurd (omega (arith, ltb→lt (len - 1) offset e, h.0)))
      | inr e ↦
          let within : offset < len = ground arith in
          let left : sub32 len offset ≡ len - offset = omega arith in
          rw (last, e, left)
            (
              λ h.
                  let r =
                    frag_loop-true frag_len 0 (len - offset) (λ i. file_name (offset + i)) frag
                      (omega arith) h in
                  (within, omega (arith, r.0), λ j l. r.1 j (omega arith) (omega (arith, l))),
              λ h.
                  frag_loop-Same frag_len 0 (len - offset) (λ i. file_name (offset + i)) frag
                    (omega (arith, h.1), λ j k l. h.2 j (omega (arith, l))),
            )
    ]
  where
    clash : false ≡ true → ⊥
    clash h = cc
