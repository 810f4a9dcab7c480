-- ===== src/CString.antt =====
-- `string_length` and `string_copy` of lib/string.c on memory: a string runs to the first NULL.
mod Tests
use operating_system_cortex.Prelude.{
  ℕ, zero, suc, ◌+◌, ◌-◌, ◌≤◌, ◌<◌, ◌≡◌, ◌≢◌, refl, ◌∙◌, ◌⊎◌, inl, inr, true, false, ◌||◌, Option,
  none, some, ◌==◌, if◌then◌else◌, arith, Bool-cases, ltb, leb,
}
use operating_system_cortex.Bytes.{Memory, put}

-- The loop of `string_length`, from `string` on, at most `fuel` rounds.
length_loop : (fuel string start : ℕ) → Memory → Option ℕ
length_loop zero string start m = none
length_loop (suc fuel) string start m =
    let rest = length_loop fuel (string + 1) start m in
    if m string == 0 then some (string - start) else rest

unfoldable pub string_length : (fuel string : ℕ) → Memory → Option ℕ
unfolding length_loop
string_length fuel string m = length_loop fuel string string m

unfoldable pub string_copy : (fuel src dest : ℕ) → Memory → Option Memory
string_copy zero src dest m = none
string_copy (suc fuel) src dest m =
    let rest = string_copy fuel (src + 1) (dest + 1) (put dest (m src) m) in
    if m src == 0 then some (put dest (m src) m) else rest

-- A string of `n` bytes starts at `p`.
pub record IsString (n p : ℕ) (m : Memory) : Type 0 where
  pub bytes : (i : ℕ) → i < n → m (p + i) ≢ 0
  pub end : m (p + n) ≡ 0

IsString-tail : (n p : ℕ) (m : Memory) → IsString (suc n) p m → IsString n (p + 1) m
IsString-tail n p m v = record {
  bytes =
      λ i h. let e : p + 1 + i ≡ p + suc i = omega arith in rw e (v.bytes (suc i) (omega arith));
  end = let e : p + 1 + n ≡ p + suc n = omega arith in rw e v.end;
}

first_byte : (n p : ℕ) (m : Memory) → IsString (suc n) p m → (m p == 0) ≡ false
first_byte n p m v =
    let e : p + 0 ≡ p = omega arith in
    let ne : m p ≢ 0 = rw e at (v.bytes 0 (omega arith)) in ground arith

length_loop-IsString :
    (fuel n p start : ℕ) (m : Memory)
    → IsString n p m
    → start ≤ p
    → n < fuel
    → length_loop fuel p start m ≡ some (p + n - start)
unfolding length_loop
length_loop-IsString zero n p start m v h enough = absurd (omega arith)
length_loop-IsString (suc fuel) zero p start m v h enough =
    let e : p + 0 ≡ p = omega arith in
    let end : m p ≡ 0 = rw e at v.end in
    let stops : (m p == 0) ≡ true = ground arith in rw (stops, e) refl
length_loop-IsString (suc fuel) (suc n) p start m v h enough =
    let e : p + 1 + n ≡ p + suc n = omega arith in
    rw (first_byte n p m v, ← e)
      (length_loop-IsString fuel n (p + 1) start m (IsString-tail n p m v) (omega arith)
        (omega arith))

-- `string_length` ends on every string and counts the bytes in front of the NULL.
pub string_length-IsString :
    (fuel n p : ℕ) (m : Memory) → IsString n p m → n < fuel → string_length fuel p m ≡ some n
unfolding string_length
string_length-IsString fuel n p m v enough =
    let e : p + n - p ≡ n = omega arith in
    length_loop-IsString fuel n p p m v (omega arith) enough ∙ rw e refl

-- `string_copy` ends, copies each byte of a string and the NULL, and changes no other byte, where
-- the target does not start within the string.
pub string_copy-IsString :
    (fuel n src dest : ℕ) (m : Memory)
    → IsString n src m
    → n < fuel
    → (dest ≤ src) ⊎ (src + n < dest)
    → (g : Memory) × (string_copy fuel src dest m ≡ some g)
      × ((i : ℕ) → i < suc n → g (dest + i) ≡ m (src + i))
      × ((q : ℕ) → (q < dest) ⊎ (dest + n < q) → g q ≡ m q)
unfolding string_copy
string_copy-IsString zero n src dest m v enough apart = absurd (omega arith)
string_copy-IsString (suc fuel) zero src dest m v enough apart =
    let e : src + 0 ≡ src = omega arith in
    let end : m src ≡ 0 = rw e at v.end in
    let stops : (m src == 0) ≡ true = ground arith in
    (put dest (m src) m, rw stops refl, λ i h. only i (omega arith), λ q o. ground arith)
  where
    only : (i : ℕ) → i ≡ 0 → put dest (m src) m (dest + i) ≡ m (src + i)
    only i z =
        let s : src + 0 ≡ src = omega arith in
        let d : (dest + 0 == dest) ≡ true = ground arith in rw (z, d, s) refl
string_copy-IsString (suc fuel) (suc n) src dest m v enough apart =
    let (g, runs, inside, outside) =
      string_copy-IsString fuel n (src + 1) (dest + 1) (put dest (m src) m) behind (omega arith)
        closer in
    (
      g,
      rw (first_byte n src m v) runs,
      λ i h. elim (Bool-cases (i == 0)) [
        | inl e ↦
            let z : i ≡ 0 = ground arith in
            let d : dest + 0 ≡ dest = omega arith in
            let s : src + 0 ≡ src = omega arith in
            rw (z, d, s) (outside dest (inl (omega arith)) ∙ here)
        | inr e ↦
            let d : dest + 1 + (i - 1) ≡ dest + i = ground arith in
            let s : src + 1 + (i - 1) ≡ src + i = ground arith in
            rw (d, s) at (inside (i - 1) (ground arith)) ∙ same (src + i) (ground arith)
      ],
      λ q o. outside q (ground arith) ∙ same q (ground arith),
    )
  where
    same : (q : ℕ) → q ≢ dest → put dest (m src) m q ≡ m q
    same q h = ground arith

    here : put dest (m src) m dest ≡ m src
    here = ground arith

    closer : (dest + 1 ≤ src + 1) ⊎ (src + 1 + n < dest + 1)
    closer = ground arith

    kept : (i : ℕ) → i ≤ n → put dest (m src) m (src + 1 + i) ≡ m (src + 1 + i)
    kept i h = same (src + 1 + i) (ground arith)

    behind : IsString n (src + 1) (put dest (m src) m)
    behind =
        let t = IsString-tail n src m v in
        record {
          bytes = λ i h. rw (kept i (omega arith)) (t.bytes i h);
          end = rw (kept n (omega arith)) t.end;
        }
