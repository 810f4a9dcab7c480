-- ===== src/Pid/Tests.antt =====
-- Runs of the process numbers.
use operating_system_cortex.Prelude.{
  ℕ, ◌+◌, ◌-◌, ◌*◌, ◌<◌, ◌≡◌, refl, arith, min, ◌==◌, if◌then◌else◌, Bool-cases, inl, inr, false,
}
use operating_system_cortex.Prelude.Outcome.{ok, error, undefined, ◌>>=◌}
use operating_system_cortex.Pid.{
  enopid, Table, pid_init, alloc_pid, free_pid, descend, ascend, release, ctz, ctz_loop,
}
use operating_system_cortex.Pid.Sequence.{
  upper, Counted, up_from, allocs, pid_init-Counted, alloc_pid-Counted, allocs_all,
}
use operating_system_cortex.Pid.Free.{free_pid-Counted}

abbrev fresh : Table
fresh = pid_init (λ i. 0)

fresh-Counted : Counted 0 fresh
fresh-Counted = pid_init-Counted (λ i. 0)

alloc_pid-Counted_example : (t' : Table) × (alloc_pid fresh ≡ ok (0, t')) × Counted 1 t'
alloc_pid-Counted_example = alloc_pid-Counted 0 fresh fresh-Counted (omega arith)

allocs_all_example :
    (t' : Table) × (allocs 1024 fresh ≡ ok (up_from 0 1024, t')) × (alloc_pid t' ≡ error enopid)
allocs_all_example = allocs_all (λ i. 0)

abbrev one_taken : Table
one_taken i = if i == 1 then upper 1 else upper 0

one_taken-Counted : Counted 1 one_taken
one_taken-Counted = record { root = refl; words = words }
  where
    words : (i : ℕ) → i < 32 → one_taken (1 + i) ≡ upper (min 32 (1 - 32 * i))
    words i h = elim (Bool-cases (i == 0)) [
      | inl e ↦ let first : i ≡ 0 = ground arith in rw first refl
      | inr e ↦
          let other : (1 + i == 1) ≡ false = ground arith in
          let all_free : min 32 (1 - 32 * i) ≡ 0 = ground arith in rw (other, all_free) refl
    ]

free_pid-Counted_example : (t' : Table) × (free_pid 0 one_taken ≡ ok t') × Counted 0 t'
free_pid-Counted_example = free_pid-Counted 0 (omega arith) one_taken one_taken-Counted

-- Of the 32 numbers of a leaf one is freed and given again. The leaf is empty, but its bit in the
-- root is still set: the call behind them looks into it and comes to a shift by 32.
empty_leaf_run :
    (do (pids, t1) ← allocs 32 fresh; t2 ← free_pid 5 t1; (pid, t3) ← alloc_pid t2; alloc_pid t3)
    ≡ undefined
unfolding pid_init alloc_pid free_pid descend ascend release ctz ctz_loop
empty_leaf_run = refl

-- A number of 32 or more shifts by itself.
free_pid_40 : free_pid 40 fresh ≡ undefined
unfolding free_pid
free_pid_40 = refl
