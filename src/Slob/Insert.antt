-- ===== src/Slob/Insert.antt =====
-- `slob_insert_free` puts a block into the list of free blocks.
use operating_system_cortex.Prelude.{
  ℕ, zero, suc, ◌+◌, ◌^◌, ◌<◌, ◌≡◌, ◌≢◌, refl, ap, ◌∙◌, sym, inl, inr, true, false, some, List, [],
  ◌∷◌, ◌==◌, ltb, if◌then◌else◌, arith, Bool-cases, length,
}
use operating_system_cortex.Prelude.Bits.{u32}
use operating_system_cortex.Slob.{
  Slob, set_size, set_next, find_before, merge_forward, insert_after, slob_insert_free,
}
use operating_system_cortex.Slob.Blocks.{
  Behind, Ordered, Apart, NoStart, join, join_behind, insert, NoStart-below,
}

-- Where the next block begins, or the last node.
abbrev pub start_of : (last : ℕ) → List (ℕ × ℕ) → ℕ
start_of last [] = last
start_of last ((b, j) ∷ bs) = b

-- The nodes of the blocks are linked, the last of them to the last node.
abbrev pub Linked : Slob → (last : ℕ) → List (ℕ × ℕ) → Type 0
Linked s last [] = Unit
Linked s last ((p, k) ∷ bs) = (s.size p ≡ k) × (s.next p ≡ start_of last bs) × Linked s last bs

-- The node at `q` is the same.
abbrev pub SameAt : (q : ℕ) → Slob → Slob → Type 0
SameAt q s s' = (s'.size q ≡ s.size q) × (s'.next q ≡ s.next q)

-- Nothing but nodes differs.
abbrev pub SameRest : Slob → Slob → Type 0
SameRest s s' = s' ≡ record s { size = s'.size; next = s'.next }

pub Linked-same :
    (s s' : Slob) (last q : ℕ) (bs : List (ℕ × ℕ))
    → NoStart q bs
    → ((x : ℕ) → x ≢ q → SameAt x s s')
    → Linked s last bs
    → Linked s' last bs
Linked-same s s' last q [] n same l = tt
Linked-same s s' last q ((b, j) ∷ bs) n same l =
    let here = same b (λ e. n.0 (sym e)) in
    (here.0 ∙ l.0, here.1 ∙ l.1, Linked-same s s' last q bs n.1 same l.2)

pub Apart-NoStart : (a n : ℕ) (bs : List (ℕ × ℕ)) → 0 < n → Apart a n bs → NoStart a bs
Apart-NoStart a n [] h ap = tt
Apart-NoStart a n ((b, j) ∷ bs) h ap = ((λ e. omega (arith, ap.0, e)), Apart-NoStart a n bs h ap.1)

pub NoStart-join : (q a n : ℕ) (bs : List (ℕ × ℕ)) → q ≢ a → NoStart q bs → NoStart q (join a n bs)
NoStart-join q a n [] h ns = (h, tt)
NoStart-join q a n ((b, j) ∷ bs) h ns = elim (Bool-cases (a + n == b)) [
  | inl e ↦ rw e (h, ns.1)
  | inr e ↦ rw e (h, ns)
]

pub set_at : (p v q : ℕ) (f : ℕ → ℕ) → q ≢ p → (if q == p then v else f q) ≡ f q
set_at p v q f h = ground arith

-- After a change of one node.
abbrev Changed : (node : ℕ) → Slob → Slob → Type 0
Changed node s s' = ((q : ℕ) → q ≢ node → SameAt q s s') × SameRest s s'

linked_next :
    (s : Slob) (last node n v : ℕ) (bs : List (ℕ × ℕ))
    → s.size node ≡ n
    → v ≡ start_of last bs
    → Linked s last bs
    → NoStart node bs
    → Linked (set_next node v s) last ((node, n) ∷ bs) × Changed node s (set_next node v s)
linked_next s last node n v bs size e l ns =
    let same : (q : ℕ) → q ≢ node → SameAt q s (set_next node v s) =
      λ q h. (refl, set_at node v q s.next h) in
    let self : (node == node) ≡ true = ground arith in
    ((size, rw self e, Linked-same s (set_next node v s) last node bs ns same l), (same, refl))

linked_size :
    (s : Slob) (last node k w v : ℕ) (bs : List (ℕ × ℕ))
    → w ≡ k
    → v ≡ start_of last bs
    → Linked s last bs
    → NoStart node bs
    → Linked (set_next node v (set_size node w s)) last ((node, k) ∷ bs)
      × Changed node s (set_next node v (set_size node w s))
linked_size s last node k w v bs d e l ns =
    let s' = set_next node v (set_size node w s) in
    let same : (q : ℕ) → q ≢ node → SameAt q s s' =
      λ q h. (set_at node w q s.size h, set_at node v q s.next h) in
    let self : (node == node) ≡ true = ground arith in
    ((rw self d, rw self e, Linked-same s s' last node bs ns same l), (same, refl))

merge_forward-join :
    (s : Slob) (last it node n : ℕ) (bs : List (ℕ × ℕ))
    → s.size node ≡ n
    → s.next it ≡ start_of last bs
    → Linked s last bs
    → Ordered last bs
    → NoStart node bs
    → node + n < 2 ^ 32
    → Linked (merge_forward last it node s) last (join node n bs)
      × Changed node s (merge_forward last it node s)
unfolding merge_forward
merge_forward-join s last it node n [] size next l o ns fits =
    let at_last : (s.next it == last) ≡ true = ground (arith, next) in
    let here = linked_next s last node n (s.next it) [] size next tt tt in
    elim (Bool-cases (u32 (node + s.size node) == s.next it)) [
      | inl e ↦ rw (e, at_last) here
      | inr e ↦ rw e here
    ]
merge_forward-join s last it node n ((b, j) ∷ bs) size next l o ns fits =
    let sum : u32 (node + s.size node) ≡ node + n = rw size (omega (arith, fits)) in
    let before : (s.next it == last) ≡ false = ground (arith, next, o.0) in
    elim (Bool-cases (node + n == b)) [
      | inl e ↦
          let touches : (u32 (node + s.size node) == s.next it) ≡ true =
            ground (arith, sum, next, e) in
          let both : u32 (s.size node + s.size (s.next it)) ≡ n + j =
            rw (size, next, l.0) (ground (arith, o.1, e)) in
          let there : s.next (s.next it) ≡ start_of last bs = ap s.next next ∙ l.1 in
          rw (touches, before, e)
            (linked_size s last node (n + j) (u32 (s.size node + s.size (s.next it)))
              (s.next (s.next it)) bs both there l.2 ns.1)
      | inr e ↦
          let apart : (u32 (node + s.size node) == s.next it) ≡ false =
            ground (arith, sum, next, e) in
          rw (apart, e) (linked_next s last node n (s.next it) ((b, j) ∷ bs) size next l ns)
    ]

start-join : (last a n : ℕ) (bs : List (ℕ × ℕ)) → a ≡ start_of last (join a n bs)
start-join last a n [] = refl
start-join last a n ((b, j) ∷ bs) = elim (Bool-cases (a + n == b)) [
  | inl e ↦ rw e refl
  | inr e ↦ rw e refl
]

-- What an insertion at `it` comes to.
insert_after-join :
    (s : Slob) (last p k a n : ℕ) (bs : List (ℕ × ℕ))
    → Linked s last ((p, k) ∷ bs)
    → Ordered last ((p, k) ∷ bs)
    → s.size a ≡ n
    → p < a
    → 0 < n
    → a + n < 2 ^ 32
    → Apart a n ((p, k) ∷ bs)
    → let s' = insert_after last p a s in
      Linked s' last (join_behind p k bs a n)
      × ((q : ℕ) → q ≢ a → q ≢ p → SameAt q s s')
      × SameRest s s'
unfolding insert_after
insert_after-join s last p k a n bs l o size less some_left fits far =
    let sum : u32 (p + s.size p) ≡ p + k = rw l.0 (omega (arith, o.1)) in
    let none_p : NoStart p bs = NoStart-below last p bs o.3 (below p k bs o.2) in
    elim (Bool-cases (p + k == a)) [
      | inl e ↦
          let at_a : p + k ≡ a = ground arith in
          let back : (u32 (p + s.size p) == a) ≡ true = ground (arith, sum, e) in
          let self : (p == p) ≡ true = ground arith in
          let s1 = set_size p (u32 (s.size p + s.size a)) s in
          let both : s1.size p ≡ k + n = rw (self, l.0, size) (omega (arith, fits, at_a)) in
          let kept =
            Linked-same s s1 last p bs none_p
              (λ q h. (set_at p (u32 (s.size p + s.size a)) q s.size h, refl)) l.2 in
          let (linked, (same, others)) =
            merge_forward-join s1 last p p (k + n) bs both l.1 kept o.3 none_p
              (omega (arith, fits, at_a)) in
          rw (back, self, e)
            (
              linked,
              λ q h g.
                  ((same q g).0 ∙ set_at p (u32 (s.size p + s.size a)) q s.size g, (same q g).1),
              others,
            )
      | inr e ↦
          let away : (u32 (p + s.size p) == a) ≡ false = ground (arith, sum, e) in
          let differ : (a == p) ≡ false = ground (arith, less) in
          let none_a = Apart-NoStart a n bs some_left far.1 in
          let s1 = merge_forward last p a s in
          let (linked, (same, others)) =
            merge_forward-join s last p a n bs size l.1 l.2 o.3 none_a fits in
          let s2 = set_next p a s1 in
          let here = same p (λ h. omega (arith, less, h)) in
          let (linked', (same', others')) =
            linked_next s1 last p k a (join a n bs) (here.0 ∙ l.0) (start-join last a n bs) linked
              (NoStart-join p a n bs (λ h. omega (arith, less, h)) none_p) in
          rw (away, differ, e)
            (
              linked',
              λ q h g. ((same' q g).0 ∙ (same q h).0, (same' q g).1 ∙ (same q h).1),
              others' ∙ ap (λ (x : Slob). record x { size = s2.size; next = s2.next }) others,
            )
    ]
  where
    below : (p k : ℕ) (bs : List (ℕ × ℕ)) → Behind (p + k) bs → Behind p bs
    below p k [] h = tt
    below p k ((b, j) ∷ bs) h = omega (arith, h)

start-join_behind :
    (last p k a n : ℕ) (bs : List (ℕ × ℕ)) → p ≡ start_of last (join_behind p k bs a n)
start-join_behind last p k a n bs = elim (Bool-cases (p + k == a)) [
  | inl e ↦ rw e (start-join last p (k + n) bs)
  | inr e ↦ rw e refl
]

start-insert : (last p k a n : ℕ) (bs : List (ℕ × ℕ)) → p ≡ start_of last (insert p k bs a n)
start-insert last p k a n [] = start-join_behind last p k a n []
start-insert last p k a n ((b, j) ∷ bs) = elim (Bool-cases (ltb a b)) [
  | inl e ↦ rw e (start-join_behind last p k a n ((b, j) ∷ bs))
  | inr e ↦ rw e refl
]

-- What `insert_free` does: a list that starts with `(p, k)` gets the block `(a, n)`.
abbrev pub Inserted : (last p k a n : ℕ) → List (ℕ × ℕ) → Slob → Slob → Type 0
Inserted last p k a n bs s s' =
    Linked s' last (insert p k bs a n)
    × ((q : ℕ) → q ≢ a → NoStart q ((p, k) ∷ bs) → SameAt q s s')
    × SameRest s s'

-- The loop finds the block in front of `a`, and the insertion behind it is an insertion into the list.
find_before-insert :
    (fuel : ℕ) (s : Slob) (last p k a n : ℕ) (bs : List (ℕ × ℕ))
    → Linked s last ((p, k) ∷ bs)
    → Ordered last ((p, k) ∷ bs)
    → s.size a ≡ n
    → 0 < p
    → p < a
    → a < last
    → 0 < n
    → a + n < 2 ^ 32
    → Apart a n ((p, k) ∷ bs)
    → length bs < fuel
    → (it : ℕ) × (find_before fuel p a s ≡ some it)
      × ((it == 0) ≡ false)
      × Inserted last p k a n bs s (insert_after last it a s)
unfolding find_before
find_before-insert zero s last p k a n bs l o size real less before some_left fits far enough =
    absurd (omega arith)
find_before-insert (suc fuel) s last p k a n [] l o size real less before some_left fits far
      enough =
    let found : ltb a (s.next p) ≡ true = ground (arith, l.1, before) in
    let nonzero : (p == 0) ≡ false = ground (arith, real) in
    let r = insert_after-join s last p k a n [] l o size less some_left fits far in
    (p, rw (nonzero, found) refl, nonzero, (r.0, (λ q h g. r.1 q h g.0), r.2))
find_before-insert (suc fuel) s last p k a n ((b, j) ∷ bs) l o size real less before some_left fits
      far enough =
    let nonzero : (p == 0) ≡ false = ground (arith, real) in
    elim (Bool-cases (ltb a b)) [
      | inl e ↦
          let found : ltb a (s.next p) ≡ true = ground (arith, l.1, e) in
          let r = insert_after-join s last p k a n ((b, j) ∷ bs) l o size less some_left fits far in
          (p, rw (nonzero, found) refl, nonzero, (rw e r.0, (λ q h g. r.1 q h g.0), r.2))
      | inr e ↦
          let later : ltb a (s.next p) ≡ false = ground (arith, l.1, e) in
          let behind : b < a = ground (arith, far.1) in
          let (it, found, there, rest) =
            find_before-insert fuel s last b j a n bs l.2 o.3 size (omega (arith, o.2)) behind
              before some_left fits far.1 (omega arith) in
          let none_p = NoStart-below last p ((b, j) ∷ bs) o.3 (omega (arith, o.2)) in
          let same = rest.1 p (λ h. omega (arith, less, h)) none_p in
          (
            it,
            rw (nonzero, later, l.1) found,
            there,
            rw e (
              (same.0 ∙ l.0, same.1 ∙ l.1 ∙ start-insert last b j a n bs, rest.0),
              (λ q h g. rest.1 q h g.1),
              rest.2,
            ),
          )
    ]

-- Into a list of free blocks behind the node `first`, `slob_insert_free` puts a block that has no
-- byte in common with them.
pub slob_insert_free-insert :
    (fuel : ℕ) (s : Slob) (first last a n : ℕ) (bs : List (ℕ × ℕ))
    → Linked s last ((first, 0) ∷ bs)
    → Ordered last ((first, 0) ∷ bs)
    → s.size a ≡ n
    → 0 < first
    → first < a
    → a < last
    → 0 < n
    → a + n < 2 ^ 32
    → Apart a n bs
    → length bs < fuel
    → (s' : Slob) × (slob_insert_free fuel first last a s ≡ some (1, s'))
      × Inserted last first 0 a n bs s s'
unfolding slob_insert_free
slob_insert_free-insert fuel s first last a n bs l o size real less before some_left fits far
      enough =
    let (it, found, there, rest) =
      find_before-insert fuel s last first 0 a n bs l o size real less before some_left fits
        (inr (omega (arith, less), less), far) enough in
    (insert_after last it a s, rw (found, there) refl, rest)
