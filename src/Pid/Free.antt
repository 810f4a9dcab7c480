-- ===== src/Pid/Free.antt =====
-- `free_pid` on the numbers of the first leaf.
use Prim.Native.Nat.{bit_and}
use operating_system_cortex.Prelude.{
  ℕ, suc, ◌+◌, ◌-◌, ◌*◌, ◌/◌, ◌≤◌, ◌<◌, min, ◌≡◌, refl, Bool, true, false, not, ◌||◌, ◌==◌, ltb,
  arith, Bool-cases, inl, inr,
}
use operating_system_cortex.Prelude.Bits.{◌<<<◌, ◌>>>◌, u32}
use operating_system_cortex.Prelude.Outcome.{ok, panic}
use operating_system_cortex.Pid.{pid_size, Table, mark, release, free_pid}
use operating_system_cortex.Pid.Sequence.{
  upper, every_below, every_below-holds, low_mask, mark-upper, test-upper, Counted,
}

excluded : (a b : Bool) → a || not b ≡ true → a ≡ false → b ≡ false
excluded false false e h = refl
excluded false true e h = cc
excluded true b e h = cc

later : (p n : ℕ) → n ≤ p → ltb p n ≡ false
later p n h = ground arith

free_bit : (n p : ℕ) → n ≤ p → p < 32 → (bit_and (upper n) (1 <<< p) == 0) ≡ false
free_bit n p h hp =
    let at_n =
      every_below-holds 32
        (λ n. every_below 32 (λ p. ltb p n || not (bit_and (upper n) (1 <<< p) == 0))) n refl
        (omega arith) in
    let at_p =
      every_below-holds 32 (λ p. ltb p n || not (bit_and (upper n) (1 <<< p) == 0)) p at_n hp in
    excluded (ltb p n) (bit_and (upper n) (1 <<< p) == 0) at_p (later p n h)

filled : (p : ℕ) → p < 31 → (upper (suc p) == 0) ≡ false
filled p h =
    excluded false (upper (suc p) == 0)
      (every_below-holds 31 (λ p. not (upper (suc p) == 0)) p refl h) refl

module _ (p : ℕ) (h : p < 32) where
  leaf : u32 (pid_size 1 + (p >>> 5)) ≡ 1
  leaf = omega arith

  small : ltb p 32 ≡ true
  small = ground arith

  -- Where exactly the numbers below `n` are taken, `free_pid` of one from `n` to 31 is a panic.
  pub free_pid-panic : (n : ℕ) (t : Table) → Counted n t → n ≤ p → free_pid p t ≡ panic
  unfolding free_pid
  free_pid-panic n t c le =
      let word : t 1 ≡ upper n = first_word in
      rw (low_mask p h, leaf, small, word, free_bit n p le h) refl
    where
      first_word : t 1 ≡ upper n
      first_word =
          let e : min 32 (n - 32 * 0) ≡ n = omega arith in rw (← e) (c.words 0 (omega arith))

  -- Where exactly the numbers up to `p` are taken, and `p` is below 32, `free_pid` of `p` leaves
  -- exactly the numbers below `p` taken.
  pub free_pid-Counted :
      (t : Table) → Counted (suc p) t → (t' : Table) × (free_pid p t ≡ ok t') × Counted p t'
  unfolding free_pid release
  free_pid-Counted t c = elim (Bool-cases (p == 31)) [
    | inr e ↦
        let below : p < 31 = ground arith in
        let same : suc p / 32 ≡ p / 32 = omega arith in
        (
          mark 1 p t,
          rw (low_mask p h, leaf, small, first_word, test-upper p h, filled p below) refl,
          record { root = rw (← same) c.root; words = marked },
        )
    | inl e ↦
        let last : p ≡ 31 = ground arith in
        let root : t 0 ≡ upper 1 = rw last at c.root in
        let leaf_empty : (upper (suc p) == 0) ≡ true = rw last refl in
        (
          mark 0 0 (mark 1 p t),
          rw (low_mask p h, leaf, small, first_word, test-upper p h, leaf_empty, root) refl,
          record { root = rw (root, last) refl; words = λ i hi. rw (inner i) (marked i hi) },
        )
  ]
    where
      first_word : t 1 ≡ upper (suc p)
      first_word =
          let e : min 32 (suc p - 32 * 0) ≡ suc p = omega arith in
          rw (← e) (c.words 0 (omega arith))

      inner : (i : ℕ) → (1 + i == 0) ≡ false
      inner i = ground arith

      marked : (i : ℕ) → i < 32 → mark 1 p t (1 + i) ≡ upper (min 32 (p - 32 * i))
      marked i hi = elim (Bool-cases (i == 0)) [
        | inl e ↦
            let first : i ≡ 0 = ground arith in
            let rest : min 32 (p - 32 * 0) ≡ p = omega arith in
            rw (first, rest, first_word) (mark-upper p h)
        | inr e ↦
            let other : (1 + i == 1) ≡ false = ground arith in
            let none_left : min 32 (suc p - 32 * i) ≡ min 32 (p - 32 * i) = ground arith in
            rw (other, ← none_left) (c.words i hi)
      ]
