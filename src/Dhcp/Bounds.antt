-- ===== src/Dhcp/Bounds.antt =====
-- The search for an option ends, and stays within the option field.
use operating_system_cortex.Prelude.{
  ℕ, zero, suc, ◌+◌, ◌-◌, ◌*◌, ◌/◌, ◌≤◌, ◌<◌, ◌≡◌, refl, some, List, ◌==◌, ltb, arith, Bool-cases,
  ◌⊎◌, inl, inr,
}
use operating_system_cortex.Prelude.Outcome.{Outcome, ok, error}
use operating_system_cortex.Bytes.{Memory, read_be32}
use operating_system_cortex.Net.Arp.{enoent}
use operating_system_cortex.Dhcp.{
  option_loop, get_option_ptr, magic_cookie, get_gateway, read_gateways,
}

-- An option of a number, with its data, within the `len` bytes from `p` on.
abbrev pub OptionAt : (p len number q : ℕ) → Memory → Type 0
OptionAt p len number q m = (p ≤ q) × (m q ≡ number) × (q + 2 + m (q + 1) ≤ p + len)

option_loop-within :
    (fuel p len number : ℕ) (m : Memory)
    → len < fuel
    → (option_loop fuel p len number m ≡ some (error enoent))
      ⊎ (q : ℕ) × (option_loop fuel p len number m ≡ some (ok q)) × OptionAt p len number q m
unfolding option_loop
option_loop-within zero p len number m enough = absurd (omega arith)
option_loop-within (suc fuel) p len number m enough = elim (Bool-cases (ltb len 2)) [
  | inl short ↦ rw short (inl refl)
  | inr long ↦ elim (Bool-cases (m p == 255)) [
    | inl end ↦ rw (long, end) (inl refl)
    | inr more ↦ elim (Bool-cases (ltb (len - 2) (m (p + 1)))) [
      | inl over ↦ rw (long, more, over) (inl refl)
      | inr fits ↦ elim (Bool-cases (m p == number)) [
        | inl found ↦
            rw (long, more, fits, found) (inr (p, refl, (omega arith, ground arith, ground arith)))
        | inr other ↦
            rw (long, more, fits, other)
              (elim (option_loop-within fuel (p + 2 + m (p + 1)) (len - 2 - m (p + 1)) number m
                (ground arith)) [
                  | inl none ↦ inl none
                  | inr (q, e, (low, at, high)) ↦ inr (q, e, (omega arith, at, ground arith))
                ])
      ]
    ]
  ]
]

-- Whatever stands in memory, `get_option_ptr` ends: with `-ENOENT`, or with an option of the number
-- asked for that lies behind the cookie and with its data within the field.
pub get_option_ptr-within :
    (fuel p len number : ℕ) (m : Memory)
    → len ≤ fuel
    → (get_option_ptr fuel p len number m ≡ some (error enoent))
      ⊎ (q : ℕ) × (get_option_ptr fuel p len number m ≡ some (ok q))
        × OptionAt (p + 4) (len - 4) number q m
unfolding get_option_ptr
get_option_ptr-within fuel p len number m enough = elim (Bool-cases (ltb len 4)) [
  | inl short ↦ rw short (inl refl)
  | inr long ↦ elim (Bool-cases (read_be32 p m == magic_cookie)) [
    | inr other ↦ rw (long, other) (inl refl)
    | inl cookie ↦
        rw (long, cookie) (option_loop-within fuel (p + 4) (len - 4) number m (ground arith))
  ]
]

-- The memories agree on the `len` bytes from `p` on.
abbrev pub SameField : (p len : ℕ) → Memory → Memory → Type 0
SameField p len m g = (q : ℕ) → p ≤ q → q < p + len → g q ≡ m q

option_loop-same :
    (fuel p len number : ℕ) (m g : Memory)
    → SameField p len m g
    → option_loop fuel p len number g ≡ option_loop fuel p len number m
unfolding option_loop
option_loop-same zero p len number m g same = refl
option_loop-same (suc fuel) p len number m g same = elim (Bool-cases (ltb len 2)) [
  | inl short ↦ rw short refl
  | inr long ↦
      let e : g p ≡ m p = same p (omega arith) (ground arith) in
      let f : g (p + 1) ≡ m (p + 1) = same (p + 1) (omega arith) (ground arith) in
      elim (Bool-cases (ltb (len - 2) (m (p + 1)))) [
        | inl over ↦ rw (long, e, f, over) refl
        | inr fits ↦
            let rest =
              option_loop-same fuel (p + 2 + m (p + 1)) (len - 2 - m (p + 1)) number m g
                (λ q low high. same q (omega arith) (ground arith)) in
            rw (long, e, f, fits, rest) refl
      ]
]

pub read_be32-same :
    (p len q : ℕ) (m g : Memory)
    → SameField p len m g
    → p ≤ q
    → q + 4 ≤ p + len
    → read_be32 q g ≡ read_be32 q m
unfolding read_be32
read_be32-same p len q m g same low high =
    rw
      (
        same q low (omega arith),
        same (q + 1) (omega arith) (omega arith),
        same (q + 2) (omega arith) (omega arith),
        same (q + 3) (omega arith) (omega arith),
      )
      refl

get_option_ptr-same :
    (fuel p len number : ℕ) (m g : Memory)
    → SameField p len m g
    → get_option_ptr fuel p len number g ≡ get_option_ptr fuel p len number m
unfolding get_option_ptr
get_option_ptr-same fuel p len number m g same = elim (Bool-cases (ltb len 4)) [
  | inl short ↦ rw short refl
  | inr long ↦
      let cookie = read_be32-same p len p m g same (omega arith) (ground arith) in
      let rest =
        option_loop-same fuel (p + 4) (len - 4) number m g
          (λ q low high. same q (omega arith) (ground arith)) in
      rw (long, cookie, rest) refl
]

read_gateways-same :
    (cnt p len q : ℕ) (m g : Memory)
    → SameField p len m g
    → p ≤ q
    → q + cnt * 4 ≤ p + len
    → read_gateways cnt q g ≡ read_gateways cnt q m
unfolding read_gateways
read_gateways-same zero p len q m g same low high = refl
read_gateways-same (suc cnt) p len q m g same low high =
    rw
      (
        read_be32-same p len q m g same low (omega arith),
        read_gateways-same cnt p len (q + 4) m g same (omega arith) (omega arith),
      )
      refl

-- `get_gateway` ends, and what it gives depends on the bytes of the option field only.
pub get_gateway-same :
    (fuel p len : ℕ) (m g : Memory)
    → len ≤ fuel
    → SameField p len m g
    → (get_gateway fuel p len g ≡ get_gateway fuel p len m)
      × ((r : Outcome (List ℕ)) × (get_gateway fuel p len m ≡ some r))
unfolding get_gateway
get_gateway-same fuel p len m g enough same =
    let found = get_option_ptr-same fuel p len 3 m g same in
    elim (get_option_ptr-within fuel p len 3 m enough) [
      | inl none ↦ rw (found, none) (refl, (error enoent, refl))
      | inr (q, e, (low, at, high)) ↦
          let size : g (q + 1) ≡ m (q + 1) = same (q + 1) (omega arith) (omega arith) in
          let read =
            read_gateways-same (m (q + 1) / 4) p len (q + 2) m g same (omega arith) (omega arith) in
          rw (found, e, size, read) (refl, (_, refl))
    ]
