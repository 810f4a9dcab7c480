-- ===== src/ListNode/Family.antt =====
-- Several disjoint lists in one memory: a list for each index, and for each node the list that
-- owns it. An operation on one list leaves the others as they are.
use mathlib.Core.Logic.{ite, if_pos, if_neg}
use mathlib.Core.Path.{fun_ext, subst}
use operating_system_cortex.Prelude.{
  ◌≡◌, ◌≢◌, ◌⊎◌, inl, inr, Option, none, some, List, ◌∷◌, arith, ◌==◌, if◌then◌else◌, false,
  Bool-cases,
}
use operating_system_cortex.Prelude.Sets.{has, ◌∈◌, ◌∉◌}
use operating_system_cortex.ListNode.{Ptr, Memory}
use operating_system_cortex.ListNode.Ring.{IsRing, IsRing-frame, SameOutside}

-- The node `n` is given to `o`.
abbrev pub own : {Q : Type 0} → (Ptr → Option Q) → Ptr → Option Q → Ptr → Option Q
own owner n o p = if p == n then o else owner p

-- Every index has its ring, and the nodes of a ring know its index.
pub record Holds {Q : Type 0} (head : Q → Ptr) (m : Memory) (items : Q → List Ptr)
    (owner : Ptr → Option Q) : Type 0 where
  pub ring : (q : Q) → IsRing m (head q) (items q)
  pub owned : (q : Q) (p : Ptr) → p ∈ head q ∷ items q → owner p ≡ some q

module _ {Q : Type 0} (eq_dec : Discrete Q) where
  -- `items` with the list at `q` replaced.
  abbrev pub put : (Q → List Ptr) → Q → List Ptr → Q → List Ptr
  put items q xs r = ite (eq_dec r q) xs (items r)

  pub put-here : (items : Q → List Ptr) (q r : Q) (xs : List Ptr) → r ≡ q → put items q xs r ≡ xs
  put-here items q r xs e = if_pos (eq_dec r q) e xs (items r)

  pub put-there :
      (items : Q → List Ptr) (q r : Q) (xs : List Ptr) → r ≢ q → put items q xs r ≡ items r
  put-there items q r xs ne = if_neg (eq_dec r q) ne xs (items r)

  apart :
      {head : Q → Ptr} {m : Memory} {items : Q → List Ptr} {owner : Ptr → Option Q} (q s : Q)
      (n p : Ptr)
      → Holds head m items owner
      → (owner n ≡ none) ⊎ (owner n ≡ some q)
      → s ≢ q
      → p ∈ head s ∷ items s
      → p ∉ n ∷ head q ∷ items q
  apart {head} {items} {owner} q s n p h mine ne i =
      let not_n : (p == n) ≡ false = elim (Bool-cases (p == n)) [
        | inl e ↦ absurd (ne (ground (arith, h.owned s p i)))
        | inr e ↦ e
      ] in
      let not_q : p ∉ head q ∷ items q = elim (Bool-cases (has p (head q ∷ items q))) [
        | inl e ↦ absurd (ne (ground (arith, h.owned s p i, h.owned q p e)))
        | inr e ↦ e
      ] in
      ground arith

  -- One list is changed together with the node `n`, which is its own or nobody's.
  pub Holds-change :
      {head : Q → Ptr} {m g : Memory} {items : Q → List Ptr} {owner : Ptr → Option Q} (q : Q)
      (n : Ptr) (ys : List Ptr) (o : Option Q)
      → Holds head m items owner
      → IsRing g (head q) ys
      → SameOutside (n ∷ head q ∷ items q) m g
      → (owner n ≡ none) ⊎ (owner n ≡ some q)
      → ((p : Ptr) → p ∈ head q ∷ ys → own owner n o p ≡ some q)
      → Holds head g (put items q ys) (own owner n o)
  Holds-change {head} {m} {g} {items} {owner} q n ys o h r same mine knows = record {
    ring = λ s. elim (eq_dec s q) [
      | yes e ↦ rw (put-here items q s ys e, e) r
      | no ne ↦ rw (put-there items q s ys ne) (
          IsRing-frame m g (head s) (items s) (n ∷ head q ∷ items q) (h.ring s) same
            (λ p i. apart q s n p h mine ne i))
    ];
    owned = λ s p. elim (eq_dec s q) [
      | yes e ↦ rw (put-here items q s ys e, e) (knows p)
      | no ne ↦
          rw (put-there items q s ys ne)
            (λ i. ground (arith, apart q s n p h mine ne i, h.owned s p i))
    ];
  }

  -- One list is changed, and takes up no node that is not its own.
  pub Holds-reorder :
      {head : Q → Ptr} {m g : Memory} {items : Q → List Ptr} {owner : Ptr → Option Q} (q : Q)
      (ys : List Ptr)
      → Holds head m items owner
      → IsRing g (head q) ys
      → SameOutside (head q ∷ items q) m g
      → ((p : Ptr) → p ∈ head q ∷ ys → p ∈ head q ∷ items q)
      → Holds head g (put items q ys) owner
  Holds-reorder {head} {m} {g} {items} {owner} q ys h r same within =
      let mine : owner (head q) ≡ some q = h.owned q (head q) (ground arith) in
      let kept : own owner (head q) (some q) ≡ owner = fun_ext λ p. ground arith in
      subst (λ w. Holds head g (put items q ys) w) kept
        (Holds-change q (head q) ys (some q) h r (λ p o. same p (ground arith)) (inr mine)
          (λ p i. ground (arith, h.owned q p (within p i))))
