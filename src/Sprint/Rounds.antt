-- ===== src/Sprint/Rounds.antt =====
-- lib/sprint.c: the loop over the format ends.
use operating_system_cortex.Prelude.{
  ℕ, zero, suc, ◌+◌, ◌*◌, ◌-◌, ◌≤◌, ◌≡◌, refl, inl, inr, Option, none, some, List, [], ◌∷◌, ◌++◌,
  ap, ◌==◌, length, arith, Bool-cases,
}
use operating_system_cortex.Prelude.Bits.{u8, u32}
use operating_system_cortex.Prelude.Outcome.{Outcome, ok, error, panic, undefined, ◌>>=◌}
use operating_system_cortex.Sprint.{
  Flags, no_flags, Arg, number, string, with_flag, after_flag, is_num, read_flags, read_width,
  get_width, directive, number_case, put_case, put_src, next_number, next_string, Written,
  format_round, behind, go_on, vsprint,
}

read_flags-shorter : (cs : List ℕ) (flags : Flags) → length (read_flags cs flags).1 ≤ length cs
unfolding read_flags
read_flags-shorter [] flags = omega arith
read_flags-shorter (c ∷ cs) flags = at_flag (λ f. read_flags-shorter cs f) (with_flag c flags)
  where
    at_flag :
        ((f : Flags) → length (read_flags cs f).1 ≤ length cs)
        → (r : Option Flags)
        → length (after_flag r (flags, c ∷ cs) (λ f. read_flags cs f)).1 ≤ suc (length cs)
    at_flag rest none = omega arith
    at_flag rest (some f) = omega (arith, rest f)

read_width-shorter : (cs : List ℕ) (width : ℕ) → length (read_width cs width).1 ≤ length cs
unfolding read_width
read_width-shorter [] width = omega arith
read_width-shorter (c ∷ cs) width =
    let rest = read_width-shorter cs (u32 (u32 (width * 10) + (c - 0x30))) in
    elim (Bool-cases (is_num c)) [
      | inl digit ↦ rw digit (omega (arith, rest))
      | inr other ↦ rw other (omega arith)
    ]

-- No more of the format is left than `n` characters.
abbrev pub Left : (n : ℕ) → Outcome Written → Type 0
Left n (ok (text, rest, args)) = length rest ≤ n
Left n (error code) = Unit
Left n panic = Unit
Left n undefined = Unit

Left-le : {n k : ℕ} (w : Outcome Written) → n ≤ k → Left n w → Left k w
Left-le (ok (text, rest, args)) h l = omega arith
Left-le (error code) h l = tt
Left-le panic h l = tt
Left-le undefined h l = tt

put_case-Left :
    (r : Option (Flags × ℕ × ℕ)) (c : ℕ) (cs : List ℕ) (args : List Arg)
    → Left (suc (length cs)) (put_case r c cs args)
put_case-Left none c cs args = omega arith
put_case-Left (some (flags, base, width)) c cs [] = tt
put_case-Left (some (flags, base, width)) c cs (number num ∷ args) = omega arith
put_case-Left (some (flags, base, width)) c cs (string src ∷ args) = tt

directive-Left :
    (flags : Flags) (width : ℕ) (cs : List ℕ) (args : List Arg)
    → Left (length cs) (directive flags width cs args)
unfolding directive
directive-Left flags width [] args = omega arith
directive-Left flags width (c ∷ cs) args = elim (Bool-cases (c == 0x73)) [
  | inl is_s ↦ rw is_s (text args)
  | inr not_s ↦ elim (Bool-cases (c == 0x25)) [
    | inl is_percent ↦ rw (not_s, is_percent) (omega arith)
    | inr not_percent ↦ elim (Bool-cases (c == 0x63)) [
      | inl is_c ↦ rw (not_s, not_percent, is_c) (char args)
      | inr not_c ↦
          rw (not_s, not_percent, not_c) (put_case-Left (number_case c flags width) c cs args)
    ]
  ]
]
  where
    text :
        (args : List Arg)
        → Left
            (suc (length cs))
            (next_string args (λ src args'. ok (put_src flags width src, cs, args')))
    text [] = tt
    text (number num ∷ args) = tt
    text (string src ∷ args) = omega arith

    char :
        (args : List Arg)
        → Left (suc (length cs)) (next_number args (λ num args'. ok (u8 num ∷ [], cs, args')))
    char [] = tt
    char (number num ∷ args) = omega arith
    char (string src ∷ args) = tt

-- A width is read from the rest of the format, or from an argument.
width-Left :
    (flags : Flags) (cs : List ℕ) (args : List Arg)
    → Left
        (length cs)
        (get_width cs args >>= λ (width, rest, args1). directive flags width rest args1)
unfolding get_width
width-Left flags [] args = directive-Left flags 0 [] args
width-Left flags (c ∷ cs) args = elim (Bool-cases (c == 0x2A)) [
  | inl star ↦ rw star (from_args args)
  | inr digits ↦ rw digits (
      further (read_width (c ∷ cs) 0).0 (read_width (c ∷ cs) 0).1 args
        (read_width-shorter (c ∷ cs) 0))
]
  where
    further :
        (width : ℕ) (rest : List ℕ) (args : List Arg)
        → length rest ≤ suc (length cs)
        → Left (suc (length cs)) (directive flags width rest args)
    further width rest args h =
        Left-le (directive flags width rest args) h (directive-Left flags width rest args)

    from_args :
        (args : List Arg)
        → Left (suc (length cs)) (
            next_number args (λ num args'. ok (u32 num, cs, args')) >>= λ (width, rest, args1).
            directive flags width rest args1)
    from_args [] = tt
    from_args (number num ∷ args) = further (u32 num) cs args (omega arith)
    from_args (string src ∷ args) = tt

-- Every round takes at least its `%` away.
format_round-Left : (cs : List ℕ) (args : List Arg) → Left (length cs) (format_round cs args)
unfolding format_round
format_round-Left cs args =
    let (flags, rest) = read_flags cs no_flags in
    Left-le
      (get_width (read_flags cs no_flags).1 args >>= λ (width, data2, args1).
        directive (read_flags cs no_flags).0 width data2 args1)
      (read_flags-shorter cs no_flags)
      (width-Left (read_flags cs no_flags).0 (read_flags cs no_flags).1 args)

-- Whatever the format and the arguments, the loop ends within as many rounds as the format has
-- characters.
pub vsprint-ends :
    (fuel : ℕ) (cs : List ℕ) (args : List Arg)
    → length cs ≤ fuel
    → (r : Outcome (List ℕ)) × (vsprint fuel cs args ≡ some r)
unfolding vsprint
vsprint-ends zero [] args h = (ok [], refl)
vsprint-ends (suc fuel) [] args h = (ok [], refl)
vsprint-ends zero (c ∷ cs) args h = absurd (omega arith)
vsprint-ends (suc fuel) (c ∷ cs) args h = elim (Bool-cases (c == 0x25)) [
  | inl directive_ ↦ rw directive_ (
      rounds (λ rest args' l. vsprint-ends fuel rest args' l) (format_round cs args)
        (format_round-Left cs args))
  | inr plain ↦
      rw plain (after (c ∷ []) (vsprint fuel cs args) (vsprint-ends fuel cs args (omega arith)))
]
  where
    after :
        (text : List ℕ) (r : Option (Outcome (List ℕ)))
        → (o : Outcome (List ℕ)) × (r ≡ some o)
        → (o : Outcome (List ℕ)) × (behind text r ≡ some o)
    after text r (o, e) = (o >>= λ more. ok (text ++ more), ap (behind text) e)

    rounds :
        ((rest : List ℕ) (args : List Arg)
          → length rest ≤ fuel
          → (o : Outcome (List ℕ)) × (vsprint fuel rest args ≡ some o))
        → (w : Outcome Written) → Left (length cs) w
        → (o : Outcome (List ℕ)) × (go_on w (λ rest args'. vsprint fuel rest args') ≡ some o)
    rounds ends (ok (text, rest, args')) l =
        after text (vsprint fuel rest args') (ends rest args' (omega arith))
    rounds ends (error code) l = (error code, refl)
    rounds ends panic l = (panic, refl)
    rounds ends undefined l = (undefined, refl)
