-- ===== src/Slob/Blocks.antt =====
-- Lists of blocks, each an address with a size: what it means that they are in order, which bytes
-- they cover, and how a block goes in between.
use operating_system_cortex.Prelude.{
  ℕ, ◌+◌, ◌^◌, ◌≤◌, ◌<◌, ◌≡◌, ◌≢◌, refl, ◌⊎◌, inl, inr, Bool, false, ◌&&◌, ◌||◌, List, [], ◌∷◌,
  ◌==◌, ltb, leb, if◌then◌else◌, arith, Bool-cases,
}

-- The next block begins behind `end_`.
abbrev pub Behind : (end_ : ℕ) → List (ℕ × ℕ) → Type 0
Behind end_ [] = Unit
Behind end_ ((b, j) ∷ bs) = end_ < b

-- Blocks that begin before `last`, by rising address, and with a gap between any two.
abbrev pub Ordered : (last : ℕ) → List (ℕ × ℕ) → Type 0
Ordered last [] = Unit
Ordered last ((p, k) ∷ bs) = (p < last) × (p + k < 2 ^ 32) × Behind (p + k) bs × Ordered last bs

abbrev pub inside : (x a n : ℕ) → Bool
inside x a n = leb a x && ltb x (a + n)

-- The byte at `x` is in one of the blocks.
abbrev pub covers : List (ℕ × ℕ) → (x : ℕ) → Bool
covers [] x = false
covers ((b, j) ∷ bs) x = inside x b j || covers bs x

-- The bytes from `a` on are in none of the blocks.
abbrev pub Apart : (a n : ℕ) → List (ℕ × ℕ) → Type 0
Apart a n [] = Unit
Apart a n ((b, j) ∷ bs) = ((a + n ≤ b) ⊎ (b + j ≤ a) × (b < a)) × Apart a n bs

-- No block begins at `q`.
abbrev pub NoStart : (q : ℕ) → List (ℕ × ℕ) → Type 0
NoStart q [] = Unit
NoStart q ((b, j) ∷ bs) = (q ≢ b) × NoStart q bs

-- A block in front of others, and merged with the first of them where it touches it.
abbrev pub join : (a n : ℕ) → List (ℕ × ℕ) → List (ℕ × ℕ)
join a n [] = (a, n) ∷ []
join a n ((b, j) ∷ bs) = if a + n == b then (a, n + j) ∷ bs else (a, n) ∷ (b, j) ∷ bs

-- A block behind the first one.
abbrev pub join_behind : (p k : ℕ) → List (ℕ × ℕ) → (a n : ℕ) → List (ℕ × ℕ)
join_behind p k bs a n = if p + k == a then join p (k + n) bs else (p, k) ∷ join a n bs

-- A block put where it belongs; it begins behind the first one's address.
abbrev pub insert : (p k : ℕ) → List (ℕ × ℕ) → (a n : ℕ) → List (ℕ × ℕ)
insert p k [] a n = join_behind p k [] a n
insert p k ((b, j) ∷ bs) a n =
    if ltb a b then join_behind p k ((b, j) ∷ bs) a n else (p, k) ∷ insert b j bs a n

pub NoStart-below : (last q : ℕ) (bs : List (ℕ × ℕ)) → Ordered last bs → Behind q bs → NoStart q bs
NoStart-below last q [] o h = tt
NoStart-below last q ((b, j) ∷ []) o h = ((λ e. omega (arith, e)), tt)
NoStart-below last q ((b, j) ∷ (c, l) ∷ bs) o h =
    ((λ e. omega (arith, e)), NoStart-below last q ((c, l) ∷ bs) o.3 (omega (arith, o.2)))

pub covers-join :
    (a n x : ℕ) (bs : List (ℕ × ℕ)) → covers (join a n bs) x ≡ (inside x a n || covers bs x)
covers-join a n x [] = refl
covers-join a n x ((b, j) ∷ bs) = ground arith

pub covers-insert :
    (p k : ℕ) (bs : List (ℕ × ℕ)) (a n x : ℕ)
    → covers (insert p k bs a n) x ≡ (covers ((p, k) ∷ bs) x || inside x a n)
covers-insert p k [] a n x = ground arith
covers-insert p k ((b, j) ∷ bs) a n x = ground (
  arith,
  covers-insert b j bs a n x,
  covers-join p (k + n) x ((b, j) ∷ bs),
  covers-join a n x ((b, j) ∷ bs),
)

insert-Behind : (e b j : ℕ) (bs : List (ℕ × ℕ)) (a n : ℕ) → e < b → Behind e (insert b j bs a n)
insert-Behind e b j [] a n h = ground arith
insert-Behind e b j ((c, l) ∷ bs) a n h = ground arith

pub insert-Ordered :
    (last p k : ℕ) (bs : List (ℕ × ℕ)) (a n : ℕ)
    → Ordered last ((p, k) ∷ bs)
    → p < a
    → a < last
    → 0 < n
    → a + n < 2 ^ 32
    → Apart a n ((p, k) ∷ bs)
    → Ordered last (insert p k bs a n)
insert-Ordered last p k [] a n o h1 h2 h3 h4 ap = ground arith
insert-Ordered last p k ((b, j) ∷ bs) a n o h1 h2 h3 h4 ap = elim (Bool-cases (ltb a b)) [
  | inl e ↦ rw e (ground (arith, o, ap))
  | inr e ↦
      let behind : b < a = ground (arith, ap.1) in
      let rest = insert-Ordered last b j bs a n o.3 behind h2 h3 h4 ap.1 in
      rw e (o.0, o.1, insert-Behind (p + k) b j bs a n o.2, rest)
]
