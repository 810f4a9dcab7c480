-- ===== src/ListNode/Ring.antt =====
-- What a circular list stands for: the addresses of its nodes in order.
use operating_system_cortex.Prelude.{◌≡◌, List, [], ◌∷◌, ◌++◌, arith}
use operating_system_cortex.Prelude.Sets.{◌∈◌, ◌∉◌, Distinct, has-append}
use operating_system_cortex.ListNode.{Ptr, Memory, init}

-- `b` follows `a`, by both pointers.
abbrev pub Link : Memory → Ptr → Ptr → Type 0
Link m a b = (m.next a ≡ b) × (m.prev b ≡ a)

-- From `a` through `xs` to `b`.
abbrev pub Chain : Memory → Ptr → List Ptr → Ptr → Type 0
Chain m a [] b = Link m a b
Chain m a (x ∷ xs) b = Link m a x × Chain m x xs b

-- The head `list` and the nodes `xs` form one ring without repetition.
pub record IsRing (m : Memory) (list : Ptr) (xs : List Ptr) : Type 0 where
  pub chain : Chain m list xs list
  pub distinct : Distinct (list ∷ xs)

-- `g` keeps what `m` has at every address outside `xs`.
abbrev pub SameOutside : List Ptr → Memory → Memory → Type 0
SameOutside xs m g = (p : Ptr) → p ∉ xs → (g.next p ≡ m.next p) × (g.prev p ≡ m.prev p)

module _ (m : Memory) where
  pub prev-mem : (a : Ptr) (xs : List Ptr) (b : Ptr) → Chain m a xs b → m.prev b ∈ a ∷ xs
  prev-mem a [] b c = ground arith
  prev-mem a (x ∷ xs) b c = ground (arith, prev-mem x xs b c.1)

  pub next-mem : (a : Ptr) (xs : List Ptr) (b : Ptr) → Chain m a xs b → m.next a ∈ xs ++ b ∷ []
  next-mem a [] b c = ground arith
  next-mem a (x ∷ xs) b c = ground arith

  -- A chain survives any change that spares the pointers it is made of.
  pub frame :
      (g : Memory) (a : Ptr) (xs : List Ptr) (b : Ptr)
      → Chain m a xs b
      → ((p : Ptr) → p ∈ a ∷ xs → g.next p ≡ m.next p)
      → ((p : Ptr) → p ∈ xs ++ b ∷ [] → g.prev p ≡ m.prev p)
      → Chain g a xs b
  frame g a [] b c n p = ground (arith, n a, p b)
  frame g a (x ∷ xs) b c n p =
      let here : (g.next a ≡ x) × (g.prev x ≡ a) = ground (arith, n a, p x) in
      (here, frame g x xs b c.1 (λ q i. n q (ground arith)) (λ q i. p q (ground arith)))

  pub split :
      (a : Ptr) (xs : List Ptr) (y : Ptr) (ys : List Ptr) (b : Ptr)
      → Chain m a (xs ++ y ∷ ys) b
      → Chain m a xs y × Chain m y ys b
  split a [] y ys b c = (c.0, c.1)
  split a (x ∷ xs) y ys b c = let r = split x xs y ys b c.1 in ((c.0, r.0), r.1)

  pub join :
      (a : Ptr) (xs : List Ptr) (y : Ptr) (ys : List Ptr) (b : Ptr)
      → Chain m a xs y
      → Chain m y ys b
      → Chain m a (xs ++ y ∷ ys) b
  join a [] y ys b c d = (c, d)
  join a (x ∷ xs) y ys b c d = (c.0, join x xs y ys b c.1 d)

-- Another list's ring survives a change that spares its own addresses.
pub IsRing-frame :
    (m g : Memory) (list : Ptr) (xs touched : List Ptr)
    → IsRing m list xs
    → SameOutside touched m g
    → ((p : Ptr) → p ∈ list ∷ xs → p ∉ touched)
    → IsRing g list xs
IsRing-frame m g list xs touched r same apart = record {
  chain =
      frame m g list xs list r.chain (λ p i. (same p (apart p i)).0)
        (λ p i. (same p (apart p (turn p i))).1);
  distinct = r.distinct;
}
  where
    turn : (p : Ptr) → p ∈ xs ++ list ∷ [] → p ∈ list ∷ xs
    turn p i = ground (arith, has-append p xs (list ∷ []))

-- `list_init` makes an empty list, and touches nothing else.
pub init-IsRing :
    (m : Memory) (list : Ptr)
    → IsRing (init list m) list [] × SameOutside (list ∷ []) m (init list m)
unfolding init
init-IsRing m list = (ground arith, ground arith)
