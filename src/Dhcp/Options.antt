-- ===== src/Dhcp/Options.antt =====
-- Options that are found are the first of their number, and nothing outside the field is read.
use operating_system_cortex.Prelude.{
  ℕ, zero, suc, ◌+◌, ◌-◌, ◌≤◌, ◌≡◌, ◌≢◌, refl, Bool, true, false, some, List, [], ◌∷◌, ◌++◌, ◌==◌,
  ltb, if◌then◌else◌, length, length-append, arith,
}
use operating_system_cortex.Prelude.Outcome.{Outcome, ok, error}
use operating_system_cortex.Bytes.{Memory, read_be32}
use operating_system_cortex.Net.Arp.{enoent}
use operating_system_cortex.Dhcp.{option_loop, get_option_ptr, magic_cookie}

-- The bytes of a list stand in memory from `p` on.
abbrev pub Stored : ℕ → List ℕ → Memory → Type 0
Stored p [] m = Unit
Stored p (x ∷ xs) m = (m p ≡ x) × Stored (p + 1) xs m

-- An option has a number and its data; the number 255 is the end.
abbrev pub Entry : Type 0
Entry = ℕ × List ℕ

-- The field that the options `es` are written to, with its end.
abbrev pub field : List Entry → List ℕ
field [] = 255 ∷ []
field ((c, d) ∷ es) = c ∷ (length d ∷ (d ++ field es))

abbrev pub Regular : List Entry → Type 0
Regular [] = Unit
Regular ((c, d) ∷ es) = (c ≢ 255) × Regular es

-- Where the first option with a number stands, from `p` on.
abbrev pub first_at : (number p : ℕ) → List Entry → Outcome ℕ
first_at number p [] = error enoent
first_at number p ((c, d) ∷ es) =
    if c == number then ok p else first_at number (p + 2 + length d) es

Stored-append :
    (p : ℕ) (xs ys : List ℕ) (m : Memory) → Stored p (xs ++ ys) m → Stored (p + length xs) ys m
Stored-append p [] ys m s = let e : p + 0 ≡ p = omega arith in rw e s
Stored-append p (x ∷ xs) ys m s =
    let e : p + suc (length xs) ≡ p + 1 + length xs = omega arith in
    rw e (Stored-append (p + 1) xs ys m s.1)

option_loop-first_at :
    (fuel p len number : ℕ) (es : List Entry) (m : Memory)
    → Stored p (field es) m
    → Regular es
    → length (field es) ≤ len
    → length (field es) ≤ fuel
    → option_loop fuel p len number m ≡ some (first_at number p es)
unfolding option_loop
option_loop-first_at zero p len number [] m s r room enough = absurd (omega arith)
option_loop-first_at zero p len number ((c, d) ∷ es) m s r room enough = absurd (omega arith)
option_loop-first_at (suc fuel) p len number [] m s r room enough = ground (arith, s.0)
option_loop-first_at (suc fuel) p len number ((c, d) ∷ es) m s r room enough =
    let sizes = length-append d (field es) in
    let next : p + 2 + length d ≡ p + 1 + 1 + length d = omega arith in
    let there : Stored (p + 2 + length d) (field es) m =
      rw next (Stored-append (p + 1 + 1) d (field es) m s.1.1) in
    let rest =
      option_loop-first_at fuel (p + 2 + length d) (len - 2 - length d) number es m there r.1
        (omega (arith, sizes)) (omega (arith, sizes)) in
    let some_left : ltb len 2 ≡ false = ground (arith, room) in
    let not_end : (c == 255) ≡ false = ground (arith, r.0) in
    let fits : ltb (len - 2) (length d) ≡ false = ground (arith, sizes, room) in
    rw (s.0, s.1.0, some_left, not_end, fits, rest)
      (either (c == number) p (first_at number (p + 2 + length d) es))
  where
    either :
        (b : Bool) (p : ℕ) (r : Outcome ℕ)
        → (if b then some (ok p) else some r) ≡ some (if b then ok p else r)
    either true p r = refl
    either false p r = refl

-- Behind the magic cookie, `get_option_ptr` ends and gives the first option of the number that is
-- asked for, or `-ENOENT` if there is none.
pub get_option_ptr-first_at :
    (fuel p len number : ℕ) (es : List Entry) (m : Memory)
    → read_be32 p m ≡ magic_cookie
    → Stored (p + 4) (field es) m
    → Regular es
    → 4 + length (field es) ≤ len
    → len ≤ fuel
    → get_option_ptr fuel p len number m ≡ some (first_at number (p + 4) es)
unfolding get_option_ptr
get_option_ptr-first_at fuel p len number es m cookie s r room enough =
    let long : ltb len 4 ≡ false = ground (arith, room) in
    rw (long, cookie)
      (option_loop-first_at fuel (p + 4) (len - 4) number es m s r (omega arith) (omega arith))
