-- ===== src/Slob/Alloc.antt =====
-- What `slob_init`, `slob_alloc` and `slob_free` do to the list of free blocks.
pub mod Lengths
pub mod Take
pub mod Whole
use mathlib.Core.Path.{subst}
use Prim.Native.Nat.{bit_and}
use operating_system_cortex.Prelude.{
  ℕ, zero, suc, ◌+◌, ◌-◌, ◌*◌, ◌%◌, ◌/◌, ◌^◌, ◌≤◌, ◌<◌, ◌≡◌, ◌≢◌, refl, ap, ◌∙◌, sym, ◌⊎◌, inl, inr,
  Bool, true, false, not, ◌&&◌, ◌||◌, Option, none, some, List, [], ◌∷◌, ◌==◌, ltb, leb,
  if◌then◌else◌, arith, Bool-cases, length,
}
use operating_system_cortex.Prelude.Bits.{u32, sub32, not32, bit_and-mask}
use operating_system_cortex.Prelude.Outcome.{Outcome, ok}
use operating_system_cortex.Align.Rounding.{mask_down}
use operating_system_cortex.Slob.{
  Slob, in_use, set_size, set_next, slob_init, slob_insert_free, block_size, take_block, taken,
  slob_alloc, slob_free,
}
use operating_system_cortex.Slob.Blocks.{
  Behind, Ordered, Apart, NoStart, inside, covers, join, join_behind, insert, insert-Ordered,
  covers-insert, NoStart-below,
}
use operating_system_cortex.Slob.Insert.{
  Linked, SameAt, SameRest, Inserted, Linked-same, Apart-NoStart, NoStart-join, set_at,
  slob_insert_free-insert,
}
use operating_system_cortex.Slob.Search.{
  first_fit, rest_fit, Fits, first_fit-Fits, Apart-part, search-Found,
}

-- The free blocks are linked in order from the first node to the last one.
pub record IsSlob (s : Slob) (bs : List (ℕ × ℕ)) : Type 0 where
  pub linked : Linked s s.last_node ((s.first_node, 0) ∷ bs)
  pub ordered : Ordered s.last_node ((s.first_node, 0) ∷ bs)
  pub last_next : s.next s.last_node ≡ 0
  pub last_size : s.size s.last_node ≡ 0
  pub real : 0 < s.first_node

-- The same of a state whose first and last node are known.
pub IsSlob-at :
    (s : Slob) (first last : ℕ) (bs : List (ℕ × ℕ))
    → first ≡ s.first_node
    → last ≡ s.last_node
    → Linked s last ((first, 0) ∷ bs)
    → Ordered last ((first, 0) ∷ bs)
    → s.next last ≡ 0
    → s.size last ≡ 0
    → 0 < first
    → IsSlob s bs
IsSlob-at s first last bs e f linked ordered n z real = record {
  linked =
      subst (λ (x : ℕ). Linked s x ((s.first_node, 0) ∷ bs)) f
        (subst (λ (x : ℕ). Linked s last ((x, 0) ∷ bs)) e linked);
  ordered =
      subst (λ (x : ℕ). Ordered x ((s.first_node, 0) ∷ bs)) f
        (subst (λ (x : ℕ). Ordered last ((x, 0) ∷ bs)) e ordered);
  last_next = ap s.next (sym f) ∙ n;
  last_size = ap s.size (sym f) ∙ z;
  real = subst (λ (x : ℕ). 0 < x) e real;
}

pub NoStart-last : (last : ℕ) (bs : List (ℕ × ℕ)) → Ordered last bs → NoStart last bs
NoStart-last last [] o = tt
NoStart-last last ((b, j) ∷ bs) o = ((λ e. omega (arith, o.0, e)), NoStart-last last bs o.3)

pub NoStart-insert :
    (q p k : ℕ) (bs : List (ℕ × ℕ)) (a n : ℕ)
    → q ≢ a
    → NoStart q ((p, k) ∷ bs)
    → NoStart q (insert p k bs a n)
NoStart-insert q p k [] a n h ns = elim (Bool-cases (p + k == a)) [
  | inl e ↦ rw e ns
  | inr e ↦ rw e (ns.0, (h, tt))
]
NoStart-insert q p k ((b, j) ∷ bs) a n h ns = elim (Bool-cases (ltb a b)) [
  | inr f ↦ rw f (ns.0, NoStart-insert q b j bs a n h ns.1)
  | inl f ↦ elim (Bool-cases (p + k == a)) [
    | inl e ↦ rw (f, e) (NoStart-join q p (k + n) ((b, j) ∷ bs) ns.0 ns.1)
    | inr e ↦ rw (f, e) (ns.0, NoStart-join q a n ((b, j) ∷ bs) h ns.1)
  ]
]

pub Linked-all :
    (s s' : Slob) (last : ℕ) (bs : List (ℕ × ℕ))
    → ((x : ℕ) → SameAt x s s')
    → Linked s last bs
    → Linked s' last bs
Linked-all s s' last [] same l = tt
Linked-all s s' last ((b, j) ∷ bs) same l =
    ((same b).0 ∙ l.0, (same b).1 ∙ l.1, Linked-all s s' last bs same l.2)

-- A block put into the list behind the first node.
abbrev pub put_in : List (ℕ × ℕ) → (a n : ℕ) → List (ℕ × ℕ)
put_in [] a n = join a n []
put_in ((b, j) ∷ bs) a n = if ltb a b then join a n ((b, j) ∷ bs) else insert b j bs a n

pub insert-put_in :
    (p : ℕ) (bs : List (ℕ × ℕ)) (a n : ℕ) → p < a → insert p 0 bs a n ≡ (p, 0) ∷ put_in bs a n
insert-put_in p [] a n h = let e : (p + 0 == a) ≡ false = ground (arith, h) in rw e refl
insert-put_in p ((b, j) ∷ bs) a n h =
    let e : (p + 0 == a) ≡ false = ground (arith, h) in
    elim (Bool-cases (ltb a b)) [ inl f ↦ rw (f, e) refl | inr f ↦ rw f refl ]

pub covers-put_in :
    (p : ℕ) (bs : List (ℕ × ℕ)) (a n x : ℕ)
    → p < a
    → covers (put_in bs a n) x ≡ (covers bs x || inside x a n)
covers-put_in p bs a n x h =
    let none_there : inside x p 0 ≡ false = ground arith in
    let both : covers ((p, 0) ∷ put_in bs a n) x ≡ (covers ((p, 0) ∷ bs) x || inside x a n) =
      ap (λ (l : List (ℕ × ℕ)). covers l x) (sym (insert-put_in p bs a n h))
      ∙ covers-insert p 0 bs a n x in
    rw none_there at both

-- After an insertion into a state in order the state is in order.
pub IsSlob-put_in :
    (s s' : Slob) (a n : ℕ) (bs : List (ℕ × ℕ))
    → s.next s.last_node ≡ 0
    → s.size s.last_node ≡ 0
    → 0 < s.first_node
    → Ordered s.last_node ((s.first_node, 0) ∷ bs)
    → s.first_node < a
    → a < s.last_node
    → 0 < n
    → a + n < 2 ^ 32
    → Apart a n bs
    → Inserted s.last_node s.first_node 0 a n bs s s'
    → IsSlob s' (put_in bs a n)
IsSlob-put_in s s' a n bs n0 z0 real o above below some_left fits far (linked, same, others) =
    let split = insert-put_in s.first_node bs a n above in
    let order =
      insert-Ordered s.last_node s.first_node 0 bs a n o above below some_left fits
        (inr (omega (arith, above), above), far) in
    let last =
      same s.last_node (λ e. omega (arith, below, e))
        (NoStart-last s.last_node ((s.first_node, 0) ∷ bs) o) in
    IsSlob-at s' s.first_node s.last_node (put_in bs a n)
      (sym (ap (λ (r : Slob). r.first_node) others)) (sym (ap (λ (r : Slob). r.last_node) others))
      (subst (λ (l : List (ℕ × ℕ)). Linked s' s.last_node l) split linked)
      (subst (λ (l : List (ℕ × ℕ)). Ordered s.last_node l) split order) (last.1 ∙ n0) (last.0 ∙ z0)
      real

-- A block is as large as the request with its node, rounded up to a multiple of eight.
pub block_size_lem :
    (size : ℕ)
    → size + 16 < 2 ^ 32
    → (size + 8 ≤ block_size size) × (block_size size < size + 16) × (block_size size % 8 ≡ 0)
unfolding block_size
block_size_lem size fits =
    let whole : u32 (size + 8) ≡ size + 8 = omega (arith, fits) in
    let more : u32 (size + 8 + 8) ≡ size + 16 = omega (arith, fits) in
    ground (arith, whole, more, bit_and-mask 3 (size + 8), mask_down (size + 16) 3 29 refl fits)

-- From a state in order, `slob_free` ends without a panic when the node in front of the pointer is
-- marked, lies between the first and the last node, and its block has no byte in common with the
-- free ones. The block becomes free and no other byte does, the state is in order, and the number of
-- bytes in use goes down by the block's size. No node but the first one, those of free blocks and
-- the block's changes.
pub slob_free_lem :
    (fuel node n : ℕ) (s : Slob) (bs : List (ℕ × ℕ))
    → IsSlob s bs
    → s.next node ≡ in_use
    → s.size node ≡ n
    → s.first_node < node
    → node < s.last_node
    → 0 < n
    → node + n < 2 ^ 32
    → node + 8 < 2 ^ 32
    → Apart node n bs
    → length bs < fuel
    → (s' : Slob) × (bs' : List (ℕ × ℕ)) × (slob_free fuel (node + 8) s ≡ some (ok s'))
      × IsSlob s' bs'
      × ((x : ℕ) → covers bs' x ≡ (covers bs x || inside x node n))
      × (s'.used ≡ sub32 s.used n)
      × ((q : ℕ) → q ≢ node → q ≢ s.first_node → NoStart q bs → SameAt q s s')
unfolding slob_free
slob_free_lem fuel node n s bs v marked size above below some_left fits fits8 far enough =
    let s1 = record s { used = sub32 s.used (s.size node) } in
    let back : sub32 (node + 8) 8 ≡ node = omega (arith, fits8) in
    let not_null : (node + 8 == 0) ≡ false = ground arith in
    let mark : (s.next node == in_use) ≡ true = ground (arith, marked) in
    let not_below : ltb node s.first_node ≡ false = ground (arith, above) in
    let not_above : leb s.last_node node ≡ false = ground (arith, below) in
    let (s', done, inserted) =
      slob_insert_free-insert fuel s1 s.first_node s.last_node node n bs
        (Linked-all s s1 s.last_node ((s.first_node, 0) ∷ bs) (λ x. (refl, refl)) v.linked)
        v.ordered size v.real above below some_left fits far enough in
    (
      s',
      put_in bs node n,
      rw (back, not_null, mark, not_below, not_above, done) refl,
      IsSlob-put_in s1 s' node n bs v.last_next v.last_size v.real v.ordered above below some_left
          fits far inserted,
      (λ x. covers-put_in s.first_node bs node n x above),
      ap (λ (r : Slob). r.used) inserted.2 ∙ ap (λ (k : ℕ). sub32 s.used k) size,
      (λ q h g ns. inserted.1 q h (g, ns)),
    )
