-- ===== src/Slob/Alloc/Lengths.antt =====
-- How many free blocks there are behind an insertion.
use operating_system_cortex.Prelude.{
  ℕ, suc, ◌+◌, ◌≤◌, List, [], ◌∷◌, ◌==◌, ltb, arith, Bool-cases, inl, inr, length,
}
use operating_system_cortex.Slob.Blocks.{join, insert}
use operating_system_cortex.Slob.Alloc.{put_in}

length-join : (a n : ℕ) (bs : List (ℕ × ℕ)) → length (join a n bs) ≤ suc (length bs)
length-join a n [] = omega arith
length-join a n ((b, j) ∷ bs) = elim (Bool-cases (a + n == b)) [
  | inl e ↦ rw e (omega arith)
  | inr e ↦ rw e (omega arith)
]

length-insert :
    (p k : ℕ) (bs : List (ℕ × ℕ)) (a n : ℕ) → length (insert p k bs a n) ≤ suc (suc (length bs))
length-insert p k [] a n = elim (Bool-cases (p + k == a)) [
  | inl e ↦ rw e (omega arith)
  | inr e ↦ rw e (omega arith)
]
length-insert p k ((b, j) ∷ bs) a n = elim (Bool-cases (ltb a b)) [
  | inr f ↦ rw f (omega (arith, length-insert b j bs a n))
  | inl f ↦ elim (Bool-cases (p + k == a)) [
    | inl e ↦ rw (f, e) (omega (arith, length-join p (k + n) ((b, j) ∷ bs)))
    | inr e ↦ rw (f, e) (omega (arith, length-join a n ((b, j) ∷ bs)))
  ]
]

pub length-put_in : (bs : List (ℕ × ℕ)) (a n : ℕ) → length (put_in bs a n) ≤ suc (length bs)
length-put_in [] a n = omega arith
length-put_in ((b, j) ∷ bs) a n = elim (Bool-cases (ltb a b)) [
  | inl f ↦ rw f (length-join a n ((b, j) ∷ bs))
  | inr f ↦ rw f (length-insert b j bs a n)
]
