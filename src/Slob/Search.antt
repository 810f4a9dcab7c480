-- ===== src/Slob/Search.antt =====
-- The search of `slob_alloc`: the first block that is large enough.
use mathlib.Core.Path.{subst}
use operating_system_cortex.Prelude.{
  ℕ, zero, suc, ◌+◌, ◌^◌, ◌≤◌, ◌<◌, ◌≡◌, ◌≢◌, refl, ◌∙◌, ◌⊎◌, inl, inr, true, false, ◌||◌, Option,
  none, some, List, [], ◌∷◌, ◌==◌, leb, if◌then◌else◌, arith, Bool-cases, length,
}
use operating_system_cortex.Slob.{Slob, set_next, search}
use operating_system_cortex.Slob.Blocks.{
  Behind, Ordered, Apart, NoStart, inside, covers, NoStart-below,
}
use operating_system_cortex.Slob.Insert.{Linked, Linked-same, set_at}

abbrev pub first_fit : (need : ℕ) → List (ℕ × ℕ) → Option (ℕ × ℕ)
first_fit need [] = none
first_fit need ((b, j) ∷ bs) = if leb need j then some (b, j) else first_fit need bs

-- The list without it.
abbrev pub rest_fit : (need : ℕ) → List (ℕ × ℕ) → List (ℕ × ℕ)
rest_fit need [] = []
rest_fit need ((b, j) ∷ bs) = if leb need j then bs else (b, j) ∷ rest_fit need bs

pub Apart-part :
    (b j a n : ℕ) (bs : List (ℕ × ℕ)) → Apart b j bs → b ≤ a → a + n ≤ b + j → Apart a n bs
Apart-part b j a n [] h l r = tt
Apart-part b j a n ((c, i) ∷ bs) h l r = (omega (arith, h.0), Apart-part b j a n bs h.1 l r)

-- Blocks in order behind an end are apart from what lies before that end.
Apart-Behind :
    (last b j : ℕ) (bs : List (ℕ × ℕ)) → Ordered last bs → Behind (b + j) bs → Apart b j bs
Apart-Behind last b j [] o h = tt
Apart-Behind last b j ((c, i) ∷ []) o h = (inl (omega arith), tt)
Apart-Behind last b j ((c, i) ∷ (d, k) ∷ bs) o h =
    (inl (omega arith), Apart-Behind last b j ((d, k) ∷ bs) o.3 (omega (arith, o.2)))

Behind-rest_fit :
    (last e need : ℕ) (bs : List (ℕ × ℕ))
    → Ordered last bs
    → Behind e bs
    → Behind e (rest_fit need bs)
Behind-rest_fit last e need [] o h = tt
Behind-rest_fit last e need ((b, j) ∷ []) o h = ground arith
Behind-rest_fit last e need ((b, j) ∷ (c, i) ∷ bs) o h = elim (Bool-cases (leb need j)) [
  | inl f ↦ rw f (omega (arith, o.2))
  | inr f ↦ rw f h
]

-- The block that fits, and the list without it, behind a block `(p, k)`.
abbrev pub Fits : (need last p k : ℕ) → List (ℕ × ℕ) → (b j : ℕ) → Type 0
Fits need last p k bs b j =
    (p + k < b)
    × (b < last)
    × (b + j < 2 ^ 32)
    × (need ≤ j)
    × Ordered last ((p, k) ∷ rest_fit need bs)
    × Apart b j (rest_fit need bs)
    × ((x : ℕ) → covers bs x ≡ (covers (rest_fit need bs) x || inside x b j))
    × (length (rest_fit need bs) ≤ length bs)

nothing : (r : ℕ × ℕ) → none ≡ some r → ⊥
nothing r h = cc

some_same : (r t : ℕ × ℕ) → some r ≡ some t → r ≡ t
some_same r t h = cc

Behind-weak : (d e : ℕ) (bs : List (ℕ × ℕ)) → d ≤ e → Behind e bs → Behind d bs
Behind-weak d e [] l h = tt
Behind-weak d e ((b, j) ∷ bs) l h = omega (arith, h)

pub first_fit-Fits :
    (need last p k : ℕ) (bs : List (ℕ × ℕ)) (b j : ℕ)
    → Ordered last ((p, k) ∷ bs)
    → first_fit need bs ≡ some (b, j)
    → Fits need last p k bs b j
first_fit-Fits need last p k [] b j o h = absurd (nothing (b, j) h)
first_fit-Fits need last p k ((c, i) ∷ bs) b j o h = elim (Bool-cases (leb need i)) [
  | inl e ↦
      let given : some (c, i) ≡ some (b, j) = rw e at h in
      let pair = some_same (c, i) (b, j) given in
      let there : Fits need last p k ((c, i) ∷ bs) c i = rw e (
        o.2,
        o.3.0,
        o.3.1,
        ground (arith, e),
        (o.0, o.1, Behind-weak (p + k) (c + i) bs (omega (arith, o.2)) o.3.2, o.3.3),
        Apart-Behind last c i bs o.3.3 o.3.2,
        (λ x. ground arith),
        omega arith,
      ) in
      subst (λ (r : ℕ × ℕ). Fits need last p k ((c, i) ∷ bs) r.0 r.1) pair there
  | inr e ↦
      let (r0, r1, r2, r3, r4, r5, r6, r7) = first_fit-Fits need last c i bs b j o.3 (rw e at h) in
      rw e (
        omega (arith, r0, o.2),
        r1,
        r2,
        r3,
        (o.0, o.1, o.2, r4),
        (inr (omega (arith, r0), omega (arith, r0)), r5),
        (λ x. ground (arith, r6 x)),
        omega (arith, r7),
      )
]

-- The search ends at the last node, or at the block that fits; taken out, that block is in the list
-- no more.
abbrev pub Found : (fuel need last p k : ℕ) → List (ℕ × ℕ) → Slob → Type 0
Found fuel need last p k bs s =
    (first_fit need bs ≡ none) × ((prev : ℕ) × (search fuel need p (s.next p) s ≡ some (prev, 0)))
    ⊎ ((prev : ℕ) × (b : ℕ) × (j : ℕ) × (first_fit need bs ≡ some (b, j))
        × (search fuel need p (s.next p) s ≡ some (prev, b))
        × (s.size b ≡ j)
        × Linked (set_next prev (s.next b) s) last ((p, k) ∷ rest_fit need bs)
        × ((q : ℕ) → NoStart q ((p, k) ∷ bs) → q ≢ prev))

pub search-Found :
    (fuel need : ℕ) (s : Slob) (last p k : ℕ) (bs : List (ℕ × ℕ))
    → Linked s last ((p, k) ∷ bs)
    → Ordered last ((p, k) ∷ bs)
    → s.next last ≡ 0
    → s.size last ≡ 0
    → 0 < need
    → suc (length bs) < fuel
    → Found fuel need last p k bs s
unfolding search
search-Found zero need s last p k bs l o n0 z0 some_need enough = absurd (omega arith)
search-Found (suc zero) need s last p k bs l o n0 z0 some_need enough = absurd (omega arith)
search-Found (suc (suc fuel)) need s last p k [] l o n0 z0 some_need enough =
    let at_last : (last == 0) ≡ false = ground (arith, o.0) in
    let small : leb need (s.size last) ≡ false = ground (arith, z0, some_need) in
    inl (refl, (last, rw (l.1, at_last, small, n0) refl))
search-Found (suc fuel) need s last p k ((b, j) ∷ bs) l o n0 z0 some_need enough =
    let nonzero : (b == 0) ≡ false = ground (arith, o.2) in
    let none_p = NoStart-below last p ((b, j) ∷ bs) o.3 (omega (arith, o.2)) in
    let self : (p == p) ≡ true = ground arith in
    elim (Bool-cases (leb need j)) [
      | inl e ↦
          let large : leb need (s.size b) ≡ true = rw l.2.0 e in
          let kept =
            Linked-same s (set_next p (s.next b) s) last p bs none_p.1
              (λ q h. (refl, set_at p (s.next b) q s.next h)) l.2.2 in
          rw e (
            inr (
              p,
              b,
              j,
              refl,
              rw (l.1, nonzero, large) refl,
              l.2.0,
              (l.0, rw self l.2.1, kept),
              (λ q h. h.0),
            ))
      | inr e ↦
          let small : leb need (s.size b) ≡ false = rw l.2.0 e in
          elim (search-Found fuel need s last b j bs l.2 o.3 n0 z0 some_need (omega arith)) [
            | inl r ↦ rw e (inl (r.0, (r.1.0, rw (l.1, nonzero, small) r.1.1)))
            | inr r ↦
                let (prev, b', j', fits, found, size, linked, apart) = r in
                let same : (if p == prev then s.next b' else s.next p) ≡ s.next p =
                  set_at prev (s.next b') p s.next (apart p none_p) in
                rw e (
                  inr (
                    prev,
                    b',
                    j',
                    fits,
                    rw (l.1, nonzero, small) found,
                    size,
                    (l.0, same ∙ l.1, linked),
                    (λ q h. apart q h.1),
                  ))
          ]
    ]
