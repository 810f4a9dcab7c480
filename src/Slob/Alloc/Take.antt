-- ===== src/Slob/Alloc/Take.antt =====
-- `slob_alloc` takes a block out of the free ones, and `slob_free` gives it back.
use mathlib.Core.Path.{subst}
use operating_system_cortex.Prelude.{
  ℕ, suc, ◌+◌, ◌-◌, ◌^◌, ◌≤◌, ◌<◌, ◌≡◌, ◌≢◌, refl, ap, ◌∙◌, ◌⊎◌, inl, inr, true, false, ◌||◌, some,
  List, [], ◌∷◌, ◌==◌, ltb, leb, arith, Bool-cases, length,
}
use operating_system_cortex.Prelude.Bits.{u32, sub32}
use operating_system_cortex.Slob.{
  Slob, in_use, set_size, set_next, take_block, taken, slob_insert_free,
}
use operating_system_cortex.Slob.Blocks.{Apart, NoStart, inside, covers, join, insert}
use operating_system_cortex.Slob.Insert.{
  Linked, SameAt, Linked-same, Apart-NoStart, set_at, slob_insert_free-insert,
}
use operating_system_cortex.Slob.Search.{rest_fit, Fits, Apart-part}
use operating_system_cortex.Slob.Alloc.Lengths.{length-put_in}
use operating_system_cortex.Slob.Alloc.{
  IsSlob, NoStart-insert, put_in, insert-put_in, covers-put_in, IsSlob-put_in,
}

Apart-join :
    (x m a n : ℕ) (bs : List (ℕ × ℕ))
    → 0 < m
    → (x + m ≤ a) ⊎ (a + n ≤ x) × (a < x)
    → Apart x m bs
    → Apart x m (join a n bs)
Apart-join x m a n [] h d far = (d, tt)
Apart-join x m a n ((b, j) ∷ bs) h d far = ground (arith, far, d)

Apart-insert :
    (x m p k : ℕ) (bs : List (ℕ × ℕ)) (a n : ℕ)
    → 0 < m
    → (x + m ≤ a) ⊎ (a + n ≤ x) × (a < x)
    → Apart x m ((p, k) ∷ bs)
    → Apart x m (insert p k bs a n)
Apart-insert x m p k [] a n h d far = ground (arith, far, d)
Apart-insert x m p k ((b, j) ∷ bs) a n h d far = elim (Bool-cases (ltb a b)) [
  | inr f ↦ rw f (far.0, Apart-insert x m b j bs a n h d far.1)
  | inl f ↦ elim (Bool-cases (p + k == a)) [
    | inl e ↦
        let at_a : p + k ≡ a = ground arith in
        rw (f, e) (Apart-join x m p (k + n) ((b, j) ∷ bs) h (omega (arith, d, far.0, at_a)) far.1)
    | inr e ↦ rw (f, e) (far.0, Apart-join x m a n ((b, j) ∷ bs) h d far.1)
  ]
]

taken-IsSlob :
    (s : Slob) (b n : ℕ) (bs : List (ℕ × ℕ))
    → IsSlob s bs
    → s.first_node < b
    → b < s.last_node
    → NoStart b bs
    → let s' = (taken b n s).1 in
      IsSlob s' bs × (s'.size b ≡ n) × (s'.next b ≡ in_use) × (s'.used ≡ u32 (s.used + n))
taken-IsSlob s b n bs v above below ns =
    let s' = (taken b n s).1 in
    let self : (b == b) ≡ true = ground arith in
    let same : (q : ℕ) → q ≢ b → SameAt q s s' =
      λ q h. (set_at b n q s.size h, set_at b in_use q s.next h) in
    let at_last = same s.last_node (λ e. omega (arith, below, e)) in
    (
      record {
        linked =
            Linked-same s s' s.last_node b ((s.first_node, 0) ∷ bs)
              ((λ e. omega (arith, above, e)), ns) same v.linked;
        ordered = v.ordered;
        last_next = at_last.1 ∙ v.last_next;
        last_size = at_last.0 ∙ v.last_size;
        real = v.real;
      },
      rw self refl,
      rw self refl,
      refl,
    )

-- What `slob_alloc` has taken: the block at `b` with `n` bytes.
abbrev pub Taken : (size b j n : ℕ) → List (ℕ × ℕ) → List (ℕ × ℕ) → Slob → Slob → Type 0
Taken size b j n bs bs' s s' =
    IsSlob s' bs'
    × (s'.size b ≡ n)
    × (s'.next b ≡ in_use)
    × (s'.used ≡ u32 (s.used + n))
    × (size + 8 ≤ n)
    × (n ≤ j)
    × (s'.first_node < b)
    × (b < s'.last_node)
    × (b + n < 2 ^ 32)
    × Apart b n bs'
    × ((x : ℕ) → covers bs x ≡ (covers bs' x || inside x b n))
    × (length bs' ≤ suc (length bs))

take_block-split :
    (fuel need prev b m new : ℕ) (s s3 : Slob)
    → sub32 (s.size b) need ≡ m
    → leb 16 m ≡ true
    → u32 (b + need) ≡ new
    → slob_insert_free fuel s.first_node s.last_node new
        (set_size new m (set_next prev (s.next b) s))
      ≡ some (1, s3)
    → u32 (b + 8) ≡ b + 8
    → take_block fuel need prev b s ≡ some (b + 8, (taken b need s3).1)
unfolding take_block
take_block-split fuel need prev b m new s s3 left large at_new done ptr =
    rw (left, at_new, large, done) (ap (λ (p : ℕ). some (p, (taken b need s3).1)) ptr)

take_block-whole :
    (fuel need prev b : ℕ) (s : Slob)
    → leb 16 (sub32 (s.size b) need) ≡ false
    → u32 (b + 8) ≡ b + 8
    → take_block fuel need prev b s
      ≡ some (b + 8, (taken b (s.size b) (set_next prev (s.next b) s)).1)
unfolding take_block
take_block-whole fuel need prev b s small ptr =
    rw small (ap (λ (p : ℕ). some (p, (taken b (s.size b) (set_next prev (s.next b) s)).1)) ptr)

module _ (fuel size need prev b j : ℕ) (s : Slob) (bs : List (ℕ × ℕ)) (v : IsSlob s bs)
    (large : size + 8 ≤ need) (is_j : s.size b ≡ j)
    (linked : Linked
      (set_next prev (s.next b) s)
      s.last_node
      ((s.first_node, 0) ∷ rest_fit need bs))
    (not_last : s.last_node ≢ prev) (f : Fits need s.last_node s.first_node 0 bs b j) where
  left : sub32 (s.size b) need ≡ j - need
  left = rw is_j (omega (arith, f.2, f.3))

  ptr : u32 (b + 8) ≡ b + 8
  ptr = omega (arith, f.2, f.3, large)

  not_b : NoStart b (rest_fit need bs)
  not_b = Apart-NoStart b j (rest_fit need bs) (omega (arith, f.3, large)) f.5

  last_next : (set_next prev (s.next b) s).next s.last_node ≡ 0
  last_next = set_at prev (s.next b) s.last_node s.next not_last ∙ v.last_next

  -- What `take_block` comes to.
  abbrev Takes : Type 0
  Takes =
      (n : ℕ) × (bs' : List (ℕ × ℕ)) × (s' : Slob) × (take_block fuel need prev b s
        ≡ some (b + 8, s'))
      × Taken size b j n bs bs' s s'

  -- The block is taken whole.
  whole : leb 16 (j - need) ≡ false → Takes
  whole e =
      let (f0, f1, f2, f3, f4, f5, f6, f7) = f in
      let s1 = set_next prev (s.next b) s in
      let rest = rest_fit need bs in
      let ordered_now : IsSlob s1 rest = record {
        linked = linked;
        ordered = f4;
        last_next = last_next;
        last_size = v.last_size;
        real = v.real;
      } in
      let (r0, r1, r2, r3) =
        taken-IsSlob s1 b (s.size b) rest ordered_now (omega (arith, f0)) f1 not_b in
      (
        s.size b,
        rest,
        (taken b (s.size b) s1).1,
        take_block-whole fuel need prev b s (ap (λ (k : ℕ). leb 16 k) left ∙ e) ptr,
        (
          r0,
          r1,
          r2,
          r3,
          omega (arith, is_j, f3, large),
          omega (arith, is_j),
          omega (arith, f0),
          f1,
          omega (arith, is_j, f2),
          rw is_j f5,
          (λ x. rw is_j (f6 x)),
          omega (arith, f7),
        ),
      )

  covered :
      (x : ℕ)
      → covers (put_in (rest_fit need bs) (b + need) (j - need)) x
        ≡ (covers (rest_fit need bs) x || inside x (b + need) (j - need))
      → covers bs x
        ≡ (covers (put_in (rest_fit need bs) (b + need) (j - need)) x || inside x b need)
  covered x g = ground (arith, f.6 x, g, f.3)

  -- Its upper end goes back to the free blocks.
  split : b + need < s.last_node → length bs < fuel → leb 16 (j - need) ≡ true → Takes
  split room enough e =
      let (f0, f1, f2, f3, f4, f5, f6, f7) = f in
      let s1 = set_next prev (s.next b) s in
      let rest = rest_fit need bs in
      let new = b + need in
      let m = j - need in
      let at_new : u32 (b + need) ≡ new = omega (arith, f2, f3) in
      let some_m : 16 ≤ m = ground arith in
      let s2 = set_size new m s1 in
      let self : (new == new) ≡ true = ground arith in
      let far = Apart-part b j new m rest f5 (omega arith) (omega (arith, f3)) in
      let not_new = Apart-NoStart new m rest (omega (arith, some_m)) far in
      let above : s.first_node < new = omega (arith, f0) in
      let kept =
        Linked-same s1 s2 s.last_node new ((s.first_node, 0) ∷ rest)
          ((λ q. omega (arith, q, above)), not_new) (λ q h. (set_at new m q s1.size h, refl))
          linked in
      let sized : s2.size new ≡ m = rw self refl in
      let z0 = set_at new m s.last_node s1.size (λ q. omega (arith, q, room)) ∙ v.last_size in
      let (s3, done, put) =
        slob_insert_free-insert fuel s2 s.first_node s.last_node new m rest kept f4 sized v.real
          above room (omega (arith, some_m)) (omega (arith, f2, f3)) far
          (omega (arith, f7, enough)) in
      let in_order =
        IsSlob-put_in s2 s3 new m rest last_next z0 v.real f4 above room (omega (arith, some_m))
          (omega (arith, f2, f3)) far put in
      let same_first : s3.first_node ≡ s.first_node = ap (λ (r : Slob). r.first_node) put.2 in
      let same_last : s3.last_node ≡ s.last_node = ap (λ (r : Slob). r.last_node) put.2 in
      let same_used : s3.used ≡ s.used = ap (λ (r : Slob). r.used) put.2 in
      let divided = insert-put_in s.first_node rest new m above in
      let none_b =
        NoStart-insert b s.first_node 0 rest new m (λ q. omega (arith, q, large))
          ((λ q. omega (arith, q, f0)), not_b) in
      let apart =
        Apart-insert b need s.first_node 0 rest new m (omega (arith, large)) (inl (omega arith)) (
          inr (omega (arith, f0), omega (arith, f0)),
          Apart-part b j b need rest f5 (omega arith) (omega (arith, f3)),
        ) in
      let none_b' : NoStart b (put_in rest new m) =
        (subst (λ (l : List (ℕ × ℕ)). NoStart b l) divided none_b).1 in
      let apart' : Apart b need (put_in rest new m) =
        (subst (λ (l : List (ℕ × ℕ)). Apart b need l) divided apart).1 in
      let (r0, r1, r2, r3) =
        taken-IsSlob s3 b need (put_in rest new m) in_order (omega (arith, same_first, f0))
          (omega (arith, same_last, f1)) none_b' in
      (
        need,
        put_in rest new m,
        (taken b need s3).1,
        take_block-split fuel need prev b m new s s3 left e at_new done ptr,
        (
          r0,
          r1,
          r2,
          r3 ∙ ap (λ (k : ℕ). u32 (k + need)) same_used,
          large,
          f3,
          omega (arith, same_first, f0),
          omega (arith, same_last, f1),
          omega (arith, f2, f3),
          apart',
          (λ x. covered x (covers-put_in s.first_node rest new m x above)),
          omega (arith, f7, length-put_in rest new m),
        ),
      )

  pub take_block-Taken : b + need < s.last_node → length bs < fuel → Takes
  take_block-Taken room enough = elim (Bool-cases (leb 16 (j - need))) [
    | inr e ↦ whole e
    | inl e ↦ split room enough e
  ]
