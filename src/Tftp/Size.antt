-- ===== src/Tftp/Size.antt =====
-- net/tftp.c: the size of the file, as a server writes it.
use operating_system_cortex.Prelude.{
  ℕ, zero, suc, ◌+◌, ◌-◌, ◌*◌, ◌^◌, ◌≤◌, ◌<◌, ◌≡◌, refl, ◌∙◌, true, false, some, List, [], ◌∷◌,
  ◌==◌, leb, length, arith,
}
use operating_system_cortex.Prelude.Bits.{u32, sub32}
use operating_system_cortex.Prelude.Outcome.{ok}
use operating_system_cortex.Bytes.{Memory, read_be16}
use operating_system_cortex.Net.{Netbuf}
use operating_system_cortex.Net.Address.{decimal, decimal-grows}
use operating_system_cortex.Tftp.{
  tsize, tftp_opt_ack, tsize_loop, digit_loop, size_field, get_filesize,
}

-- The characters stand from `p` on.
abbrev pub TextAt : Memory → (p : ℕ) → List ℕ → Type 0
TextAt m p [] = Unit
TextAt m p (c ∷ cs) = (m p ≡ c) × TextAt m (suc p) cs

-- The digits stand from `p` on, a NULL behind them.
abbrev pub DigitsAt : Memory → (p : ℕ) → List ℕ → Type 0
DigitsAt m p [] = m p ≡ 0
DigitsAt m p (d ∷ ds) = (m p ≡ 48 + d) × (d < 10) × DigitsAt m (suc p) ds

tsize_loop-TextAt :
    (cs : List ℕ) (p len : ℕ) (m : Memory)
    → TextAt m p cs
    → length cs ≤ len
    → len < 2 ^ 32
    → tsize_loop cs p len m ≡ some (p + length cs, len - length cs)
unfolding tsize_loop
tsize_loop-TextAt [] p len m h fits small =
    let e : p + 0 ≡ p = omega arith in let f : len - 0 ≡ len = omega arith in rw (e, f) refl
tsize_loop-TextAt (c ∷ cs) p len m h fits small =
    let goes : (len == 0) ≡ false = ground arith in
    let hit : (m p == c) ≡ true = ground (arith, h.0) in
    let less : sub32 len 1 ≡ len - 1 = omega arith in
    let e : p + 1 + length cs ≡ p + suc (length cs) = omega arith in
    let f : len - 1 - length cs ≡ len - suc (length cs) = omega arith in
    let at_next : TextAt m (p + 1) cs = let n : p + 1 ≡ suc p = omega arith in rw n h.1 in
    rw
      (
        goes,
        hit,
        less,
        tsize_loop-TextAt cs (p + 1) (len - 1) m at_next (omega arith) (omega arith),
        e,
        f,
      )
      refl

digit_loop-DigitsAt :
    (ds : List ℕ) (p len tmp : ℕ) (m : Memory)
    → DigitsAt m p ds
    → length ds < len
    → decimal tmp ds < 2 ^ 32
    → digit_loop len p tmp m ≡ (len - suc (length ds), decimal tmp ds)
unfolding digit_loop
digit_loop-DigitsAt ds p zero tmp m h fits small = absurd (omega arith)
digit_loop-DigitsAt [] p (suc len) tmp m h fits small =
    let stops : (m p == 0) ≡ true = ground (arith, h) in
    let e : suc len - 1 ≡ len = omega arith in rw (stops, e) refl
digit_loop-DigitsAt (d ∷ ds) p (suc len) tmp m h fits small =
    let goes : (m p == 0) ≡ false = ground (arith, h.0) in
    let grows = decimal-grows (tmp * 10 + d) ds in
    let next : u32 (u32 (tmp * 10) + sub32 (m p) 0x30) ≡ tmp * 10 + d =
      omega (arith, h.0, h.1, grows) in
    let at_next : DigitsAt m (p + 1) ds = let n : p + 1 ≡ suc p = omega arith in rw n h.2 in
    let e : suc len - suc (suc (length ds)) ≡ len - suc (length ds) = omega arith in
    rw (goes, next, e)
      (digit_loop-DigitsAt ds (p + 1) len (tmp * 10 + d) m at_next (omega arith) small)

-- A packet with the code of an accepted option, the name "tsize", and the digits of a number below
-- `2 ^ 32`, each with a NULL behind it, gives this number; the packet may be longer.
pub get_filesize-decimal :
    (b : Netbuf) (ds : List ℕ) (m : Memory)
    → read_be16 b.ptr m ≡ tftp_opt_ack
    → TextAt m (b.ptr + 2) tsize
    → m (b.ptr + 7) ≡ 0
    → DigitsAt m (b.ptr + 8) ds
    → length ds + 9 ≤ b.frame_len
    → b.frame_len < 2 ^ 31
    → decimal 0 ds < 2 ^ 32
    → get_filesize b m ≡ ok (decimal 0 ds)
unfolding get_filesize size_field
get_filesize-decimal b ds m op name nul digits fits short small =
    let right : (read_be16 b.ptr m == tftp_opt_ack) ≡ true = ground (arith, op) in
    let less : sub32 b.frame_len 2 ≡ b.frame_len - 2 = omega arith in
    let name_len : length tsize ≡ 5 = refl in
    let found : tsize_loop tsize (b.ptr + 2) (b.frame_len - 2) m
        ≡ some (b.ptr + 7, b.frame_len - 7) =
      (tsize_loop-TextAt tsize (b.ptr + 2) (b.frame_len - 2) m name (omega arith) (omega arith)
        ∙ let e : b.ptr + 2 + 5 ≡ b.ptr + 7 = omega arith in
          let f : b.frame_len - 2 - 5 ≡ b.frame_len - 7 = omega arith in rw (e, f) refl) in
    let ends : (m (b.ptr + 7) == 0) ≡ true = ground (arith, nul) in
    let less2 : sub32 (b.frame_len - 7) 1 ≡ b.frame_len - 8 = omega arith in
    let at_digits : DigitsAt m (b.ptr + 7 + 1) ds =
      let n : b.ptr + 7 + 1 ≡ b.ptr + 8 = omega arith in rw n digits in
    let run =
      digit_loop-DigitsAt ds (b.ptr + 7 + 1) (b.frame_len - 8) 0 m at_digits (omega arith) small in
    let inside : leb (2 ^ 31) (b.frame_len - 8 - suc (length ds)) ≡ false = ground arith in
    rw (right, less, found, ends, less2, run, inside) refl
