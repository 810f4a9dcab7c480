-- ===== src/Dhcp/Search.antt =====
-- Which option the search of net/dhcp.c comes to, on any memory.
use operating_system_cortex.Prelude.{
  ℕ, zero, suc, ◌+◌, ◌-◌, ◌≤◌, ◌<◌, ◌≡◌, ◌≢◌, refl, some, ◌==◌, ltb, arith, Bool-cases, ◌⊎◌, inl,
  inr,
}
use operating_system_cortex.Prelude.Outcome.{ok, error}
use operating_system_cortex.Bytes.{Memory, read_be32}
use operating_system_cortex.Net.Arp.{enoent}
use operating_system_cortex.Dhcp.{
  magic_cookie, dhcp_none, option_loop, get_option_ptr, get_dhcp_type,
}

-- Options stand one behind the other in the `len` bytes from `p` on: the first one of the number
-- is at `q`, before an end mark and with its data in the field.
pub data FirstOption (number : ℕ) (m : Memory) : (p len q : ℕ) → Type 0 where
  here :
      {p len : ℕ}
      → m p ≡ number
      → number ≢ 0xFF
      → 2 + m (p + 1) ≤ len
      → FirstOption number m p len p
  there :
      {p len q : ℕ}
      → m p ≢ number
      → m p ≢ 0xFF
      → 2 + m (p + 1) ≤ len
      → FirstOption number m (p + 2 + m (p + 1)) (len - 2 - m (p + 1)) q
      → FirstOption number m p len q

option_loop-FirstOption :
    (fuel p len number : ℕ) (m : Memory)
    → len < fuel
    → (option_loop fuel p len number m ≡ some (error enoent))
      ⊎ (q : ℕ) × (option_loop fuel p len number m ≡ some (ok q)) × FirstOption number m p len q
unfolding option_loop
option_loop-FirstOption zero p len number m enough = absurd (omega arith)
option_loop-FirstOption (suc fuel) p len number m enough = elim (Bool-cases (ltb len 2)) [
  | inl short ↦ rw short (inl refl)
  | inr long ↦ elim (Bool-cases (m p == 255)) [
    | inl end ↦ rw (long, end) (inl refl)
    | inr more ↦ elim (Bool-cases (ltb (len - 2) (m (p + 1)))) [
      | inl over ↦ rw (long, more, over) (inl refl)
      | inr fits ↦ elim (Bool-cases (m p == number)) [
        | inl found ↦
            rw (long, more, fits, found)
              (inr (p, refl, here (ground arith) (ground arith) (ground arith)))
        | inr other ↦
            rw (long, more, fits, other)
              (elim (option_loop-FirstOption fuel (p + 2 + m (p + 1)) (len - 2 - m (p + 1)) number m
                (ground arith)) [
                  | inl none ↦ inl none
                  | inr (q, e, first) ↦
                      inr (q, e, there (ground arith) (ground arith) (ground arith) first)
                ])
      ]
    ]
  ]
]

-- Behind the cookie, the first option 53 has this type.
abbrev pub TypeOption : (p len type : ℕ) → Memory → Type 0
TypeOption p len type m =
    (4 ≤ len)
    × (read_be32 p m ≡ magic_cookie)
    × ((q : ℕ) × FirstOption 53 m (p + 4) (len - 4) q × (m (q + 2) ≡ type))

-- `get_dhcp_type` ends with `DHCP_NONE`, or with what the option says.
pub get_dhcp_type-TypeOption :
    (fuel p len : ℕ) (m : Memory)
    → len ≤ fuel
    → (type : ℕ) × (get_dhcp_type fuel p len m ≡ some type)
      × ((type ≡ dhcp_none) ⊎ TypeOption p len type m)
unfolding get_dhcp_type get_option_ptr
get_dhcp_type-TypeOption fuel p len m enough = elim (Bool-cases (ltb len 4)) [
  | inl short ↦ rw short (_, refl, inl refl)
  | inr long ↦ elim (Bool-cases (read_be32 p m == magic_cookie)) [
    | inr other ↦ rw (long, other) (_, refl, inl refl)
    | inl cookie ↦ elim (option_loop-FirstOption fuel (p + 4) (len - 4) 53 m (ground arith)) [
      | inl missing ↦ rw (long, cookie, missing) (_, refl, inl refl)
      | inr (q, e, first) ↦
          rw (long, cookie, e) (_, refl, inr (ground arith, ground arith, (q, first, refl)))
    ]
  ]
]
