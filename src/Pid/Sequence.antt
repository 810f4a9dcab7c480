-- ===== src/Pid/Sequence.antt =====
-- What the allocator gives from a fresh table: the numbers in their order, and then the error.
use Prim.Native.Nat.{bit_and, bit_or}
use operating_system_cortex.Prelude.{
  ℕ, zero, suc, ◌+◌, ◌-◌, ◌*◌, ◌/◌, ◌^◌, ◌%◌, ◌≤◌, ◌<◌, min, ◌≡◌, refl, Bool, true, false, ◌&&◌,
  ◌==◌, ltb, if◌then◌else◌, arith, List, [], ◌∷◌, ==_iff, Bool-cases, inl, inr,
}
use operating_system_cortex.Prelude.Bits.{◌<<<◌, ◌>>>◌, u32, not32, sub32}
use operating_system_cortex.Prelude.Outcome.{Outcome, ok, error, ◌>>=◌}
use operating_system_cortex.Pid.{
  pid_levels, enopid, Table, clear, ctz, pid_init, descend, ascend, alloc_pid,
}

-- A word whose lowest `n` bits are clear.
abbrev pub upper : ℕ → ℕ
upper n = 2 ^ 32 - 2 ^ n

abbrev pub every_below : ℕ → (ℕ → Bool) → Bool
every_below zero test = true
every_below (suc n) test = every_below n test && test n

pub every_below-holds :
    (n : ℕ) (test : ℕ → Bool) (k : ℕ) → every_below n test ≡ true → k < n → test k ≡ true
every_below-holds zero test k e h = absurd (omega arith)
every_below-holds (suc n) test k e h = ground (arith, every_below-holds n test k)

-- A claim on the 33 words `upper n`, by evaluation.
module _ (f g : ℕ → ℕ) (n : ℕ) where
  table : every_below n (λ k. f k == g k) ≡ true → (k : ℕ) → k < n → f k ≡ g k
  table e k h = (==_iff (f k) (g k)).0 (every_below-holds n (λ k. f k == g k) k e h)

pub ctz-upper : (n : ℕ) → n < 33 → ctz (upper n) ≡ n
unfolding ctz
ctz-upper = table (λ n. ctz (upper n)) (λ n. n) 33 refl

pub clear-upper : (n : ℕ) → n < 32 → bit_and (upper n) (not32 (1 <<< n)) ≡ upper (suc n)
clear-upper = table (λ n. bit_and (upper n) (not32 (1 <<< n))) (λ n. upper (suc n)) 32 refl

pub mark-upper : (n : ℕ) → n < 32 → bit_or (upper (suc n)) (1 <<< n) ≡ upper n
mark-upper = table (λ n. bit_or (upper (suc n)) (1 <<< n)) (λ n. upper n) 32 refl

pub test-upper : (n : ℕ) → n < 32 → bit_and (upper (suc n)) (1 <<< n) ≡ 0
test-upper = table (λ n. bit_and (upper (suc n)) (1 <<< n)) (λ n. 0) 32 refl

pub low_mask : (n : ℕ) → n < 32 → bit_and n 0xFFFFF ≡ n
low_mask = table (λ n. bit_and n 0xFFFFF) (λ n. n) 32 refl

-- The table after `n` numbers have been given: those below `n` are taken.
pub record Counted (n : ℕ) (t : Table) : Type 0 where
  pub root : t 0 ≡ upper (n / 32)
  pub words : (i : ℕ) → i < 32 → t (1 + i) ≡ upper (min 32 (n - 32 * i))

pub pid_init-Counted : (t : Table) → Counted 0 (pid_init t)
unfolding pid_init
pid_init-Counted t = record { root = refl; words = λ i h. first_words i h }
  where
    first_words : (i : ℕ) → i < 32 → pid_init t (1 + i) ≡ upper (min 32 (0 - 32 * i))
    first_words i h =
        let e : min 32 (0 - 32 * i) ≡ 0 = omega arith in
        let small : ltb (1 + i) 33 ≡ true = ground arith in rw (e, small) refl

either_way : {A : Type 0} {x : A} (b : Bool) → (if b then x else x) ≡ x
either_way true = refl
either_way false = refl

full : (k : ℕ) → k < 32 → (k == 32) ≡ false
full k h = ground arith

module _ (n : ℕ) (t : Table) (c : Counted n t) where
  root_word : t 0 ≡ upper (n / 32)
  root_word = c.root

  leaf_word : n < 1024 → t (1 + n / 32) ≡ upper (n % 32)
  leaf_word h =
      let e : min 32 (n - 32 * (n / 32)) ≡ n % 32 = omega arith in
      rw (← e) (c.words (n / 32) (omega arith))

  -- The search finds the first number that is free.
  descend-Counted : n < 1024 → descend pid_levels 0 0 0 0 32 t ≡ ok (n % 32, 1 + n / 32, n)
  unfolding descend
  descend-Counted h =
      let high : ctz (t 0) ≡ n / 32 = rw root_word (ctz-upper (n / 32) (omega arith)) in
      let low : ctz (t (1 + n / 32)) ≡ n % 32 =
        rw (leaf_word h) (ctz-upper (n % 32) (omega arith)) in
      let found : (n / 32 == 32) ≡ false = full (n / 32) (omega arith) in
      let child : u32 (1 + u32 (0 <<< 5) + n / 32) ≡ 1 + n / 32 = omega arith in
      let sum : u32 (u32 (0 + 32 * (n / 32)) + (32 >>> 5) * (n % 32)) ≡ n = omega arith in
      let last : (n % 32 == 32) ≡ false = full (n % 32) (omega arith) in
      rw (high, found, child, low, sum, last) refl

  -- The leaf's bit is the last that the search passes over.
  cleared : Table
  cleared = clear (1 + n / 32) (n % 32) t

  cleared-words : n < 1024 → (i : ℕ) → i < 32 → cleared (1 + i) ≡ upper (min 32 (suc n - 32 * i))
  unfolding cleared
  cleared-words h i hi = elim (Bool-cases (i == n / 32)) [
    | inl e ↦
        let same : i ≡ n / 32 = ground arith in
        let taken : min 32 (suc n - 32 * i) ≡ suc (n % 32) = omega arith in
        let here : (1 + i == 1 + n / 32) ≡ true = ground arith in
        rw (here, taken, leaf_word h) (clear-upper (n % 32) (omega arith))
    | inr e ↦
        let other : (1 + i == 1 + n / 32) ≡ false = ground arith in
        let kept : min 32 (suc n - 32 * i) ≡ min 32 (n - 32 * i) = ground arith in
        rw (other, kept) (c.words i hi)
  ]

  cleared-root : cleared 0 ≡ upper (n / 32)
  unfolding cleared
  cleared-root = let other : (0 == 1 + n / 32) ≡ false = ground arith in rw other root_word

  -- A leaf that has run empty clears its bit in the root.
  ascend-cleared : n < 1024 → ascend 1 (1 + n / 32) cleared ≡ ok (clear 0 (n / 32) cleared)
  unfolding ascend
  ascend-cleared h =
      let parent : sub32 (1 + n / 32) 1 >>> 5 ≡ 0 = omega arith in
      let less : sub32 (1 + n / 32) 1 ≡ n / 32 = omega arith in
      let bit : bit_and (sub32 (1 + n / 32) 1) 0xFFFFF ≡ n / 32 =
        rw less (low_mask (n / 32) (omega arith)) in
      let byte : n / 32 % 2 ^ 8 ≡ n / 32 = omega arith in
      let small : ltb (n / 32) 32 ≡ true = ground arith in
      rw (parent, bit, byte, small) (either_way _)

-- Where exactly the numbers below `n` are taken, and `n` is below 1024, `alloc_pid` gives `n`, and
-- exactly the numbers up to `n` are taken then.
pub alloc_pid-Counted :
    (n : ℕ) (t : Table)
    → Counted n t
    → n < 1024
    → (t' : Table) × (alloc_pid t ≡ ok (n, t')) × Counted (suc n) t'
unfolding alloc_pid cleared
alloc_pid-Counted n t c h = elim (Bool-cases (n % 32 == 31)) [
  | inr e ↦
      let stays : n / 32 ≡ suc n / 32 = ground arith in
      (
        cleared n t c,
        rw (descend-Counted n t c h, e, small) refl,
        record { root = rw (← stays) (cleared-root n t c); words = cleared-words n t c h },
      )
  | inl e ↦
      let next : suc n / 32 ≡ suc (n / 32) = ground arith in
      (
        clear 0 (n / 32) (cleared n t c),
        rw (descend-Counted n t c h, e, small, ascend-cleared n t c h) refl,
        record {
          root = rw (cleared-root n t c, next) (clear-upper (n / 32) (omega arith));
          words = λ i hi. rw (inner i) (cleared-words n t c h i hi);
        },
      )
]
  where
    small : ltb (n % 32) 32 ≡ true
    small = ground arith

    inner : (i : ℕ) → (1 + i == 0) ≡ false
    inner i = ground arith

-- With all numbers taken `alloc_pid` returns `-ENOPID`.
pub alloc_pid-full : (t : Table) → Counted 1024 t → alloc_pid t ≡ error enopid
unfolding alloc_pid descend
alloc_pid-full t c =
    let none_free : ctz (t 0) ≡ 32 = rw c.root (ctz-upper 32 (omega arith)) in rw none_free refl

-- The numbers of `n` calls in a row, and the table behind them.
abbrev pub allocs : ℕ → Table → Outcome (List ℕ × Table)
allocs zero t = ok ([], t)
allocs (suc n) t = do (pid, t') ← alloc_pid t; (pids, t'') ← allocs n t'; ok (pid ∷ pids, t'')

abbrev pub up_from : ℕ → ℕ → List ℕ
up_from n zero = []
up_from n (suc k) = n ∷ up_from (suc n) k

allocs-Counted :
    (k n : ℕ) (t : Table)
    → Counted n t
    → n + k ≤ 1024
    → (t' : Table) × (allocs k t ≡ ok (up_from n k, t')) × Counted (n + k) t'
allocs-Counted zero n t c h = (t, refl, rw (same n) c)
  where
    same : (n : ℕ) → n + 0 ≡ n
    same n = omega arith
allocs-Counted (suc k) n t c h =
    let (t1, one, c1) = alloc_pid-Counted n t c (omega arith) in
    let (t2, more, c2) = allocs-Counted k (suc n) t1 c1 (omega arith) in
    let count : n + suc k ≡ suc n + k = omega arith in (t2, rw (one, more) refl, rw count c2)

-- From a fresh table 1024 calls of `alloc_pid` give the numbers from 0 to 1023, each once and in
-- this order, and the call behind them returns `-ENOPID`.
pub allocs_all :
    (t : Table)
    → (t' : Table) × (allocs 1024 (pid_init t) ≡ ok (up_from 0 1024, t'))
      × (alloc_pid t' ≡ error enopid)
allocs_all t =
    let (t', runs, c) = allocs-Counted 1024 0 (pid_init t) (pid_init-Counted t) (omega arith) in
    (t', runs, alloc_pid-full t' c)
