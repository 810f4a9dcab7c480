-- ===== src/Pid.antt =====
-- kernel/pid.c: process numbers from a bitmap in levels. A set bit is a free number; a bit of an
-- upper level stands for a word of the level below. The words of the table stand one after
-- another, level by level.
pub mod Sequence
pub mod Free
mod Tests
use Prim.Native.Nat.{bit_and, bit_or}
use operating_system_cortex.Prelude.{
  ℕ, zero, suc, ◌+◌, ◌-◌, ◌*◌, ◌/◌, ◌^◌, ◌%◌, Bool, not, ◌&&◌, ◌==◌, ltb, if◌then◌else◌,
}
use operating_system_cortex.Prelude.Bits.{◌<<<◌, ◌>>>◌, u8, u32, not32, sub32}
use operating_system_cortex.Prelude.Outcome.{Outcome, ok, error, panic, undefined, ◌>>=◌}

abbrev pub pid_levels : ℕ
pid_levels = 2

-- `ENOPID`
abbrev pub enopid : ℕ
enopid = 11

-- `pid_table`, by index.
abbrev pub Table : Type 0
Table = ℕ → ℕ

abbrev put_word : ℕ → ℕ → Table → Table
put_word i w t j = if j == i then w else t j

unfoldable pub ctz_loop : ℕ → ℕ → ℕ
ctz_loop zero w = 0
ctz_loop (suc n) w = let rest = ctz_loop n (w / 2) in if w % 2 == 1 then 0 else suc rest

-- `__builtin_ctz` of a `u32` as the compiler builds it for this machine, by a count of leading
-- zeros: the code relies on 32 for a word of zeros.
unfoldable pub ctz : ℕ → ℕ
unfolding ctz_loop
ctz w = ctz_loop 32 w

-- `(__builtin_pow(32, levels) - 1) / 31`
abbrev pub pid_size : ℕ → ℕ
pid_size levels = (32 ^ levels - 1) / 31

unfoldable pub pid_init : Table → Table
pid_init t i = if ltb i (pid_size pid_levels) then 2 ^ 32 - 1 else t i

-- `pid_table[i] &= ~(1 << bit)` and `pid_table[i] |= (1 << bit)`
abbrev pub clear : (i bit : ℕ) → Table → Table
clear i bit t = put_word i (bit_and (t i) (not32 (1 <<< bit))) t

abbrev pub mark : (i bit : ℕ) → Table → Table
mark i bit t = put_word i (bit_or (t i) (1 <<< bit)) t

-- The search from level `i` down, `levels` of them to go: the last bit, the index of its word, and
-- the number.
unfoldable pub descend : (levels i bit curr_index new_pid pow : ℕ) → Table → Outcome (ℕ × ℕ × ℕ)
descend zero i bit curr_index new_pid pow t = ok (bit, curr_index, new_pid)
descend (suc levels) i _ curr_index new_pid pow t =
    let bit = ctz (t curr_index) in
    let child =
      if ltb i (pid_levels - 1) then u32 (1 + u32 (curr_index <<< 5) + bit) else curr_index in
    let rest = descend levels (suc i) bit child (u32 (new_pid + pow * bit)) (pow >>> 5) t in
    if bit == 32 && i == 0 then error enopid else rest

-- The bits of the upper levels are cleared as long as their words run empty.
unfoldable pub ascend : (levels curr_index : ℕ) → Table → Outcome Table
ascend zero curr_index t = ok t
ascend (suc levels) curr_index t =
    let bit = u8 (bit_and (sub32 curr_index 1) 0xFFFFF) in
    let parent = sub32 curr_index 1 >>> 5 in
    let t' = clear parent bit t in
    let rest = ascend levels parent t' in
    if not (ltb bit 32) then undefined else if ltb (ctz (t' parent)) 32 then ok t' else rest

-- The last level's bit is cleared. A shift by 32 or more is undefined.
unfoldable pub alloc_pid : Table → Outcome (ℕ × Table)
alloc_pid t = do
  (bit, curr_index, new_pid) ← descend pid_levels 0 0 0 0 (32 ^ (pid_levels - 1)) t
  let t' = clear curr_index bit t
  t'' ←
      (if not (ltb bit 32)
        then undefined
        else if bit == 31
        then ascend (pid_levels - 1) curr_index t'
        else ok t')
  ok (new_pid, t'')

-- The loop of `free_pid`: a bit is set, and also the one above if the word was empty.
unfoldable pub release : (levels index bit : ℕ) → Table → Outcome Table
release zero index bit t = ok t
release (suc levels) index bit t =
    let rest =
      release levels (sub32 index 1 >>> 5) (bit_and (sub32 index 1) 0xFFFFF) (mark index bit t) in
    if not (ltb bit 32)
    then undefined
    else if not (t index == 0)
    then ok (mark index bit t)
    else rest

unfoldable pub free_pid : ℕ → Table → Outcome Table
free_pid pid t =
    let index = u32 (pid_size (pid_levels - 1) + (pid >>> 5)) in
    let bit = bit_and pid 0xFFFFF in
    if not (ltb bit 32)
    then undefined
    else if not (bit_and (t index) (1 <<< bit) == 0)
    then panic
    else release pid_levels index bit t
