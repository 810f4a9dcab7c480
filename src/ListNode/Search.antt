-- ===== src/ListNode/Search.antt =====
-- `list_iterate` with a body that returns at the first node that passes a test.
use operating_system_cortex.Prelude.{
  ℕ, zero, suc, ◌<◌, ◌≡◌, refl, Bool, true, false, Option, none, some, List, [], ◌∷◌, ◌==◌,
  if◌then◌else◌, arith, length,
}
use operating_system_cortex.Prelude.Sets.{◌∉◌}
use operating_system_cortex.ListNode.{Ptr, Memory}
use operating_system_cortex.ListNode.Ring.{Chain, IsRing}

-- From `node` on, at most `fuel` rounds: the node found, or the head; `none` if the rounds run out.
unfoldable pub iterate : (fuel : ℕ) → (test : Ptr → Bool) → (list node : Ptr) → Memory → Option Ptr
iterate zero test list node m = none
iterate (suc fuel) test list node m =
    let rest = iterate fuel test list (m.next node) m in
    if node == list then some list else if test node then some node else rest

abbrev pub first_such : (Ptr → Bool) → Ptr → List Ptr → Ptr
first_such test list [] = list
first_such test list (x ∷ xs) = if test x then x else first_such test list xs

either :
    {A : Type 0} (b : Bool) (x y : A) → (if b then some x else some y) ≡ some (if b then x else y)
either true x y = refl
either false x y = refl

iterate-Chain :
    (fuel : ℕ) (test : Ptr → Bool) (list a : Ptr) (xs : List Ptr) (m : Memory)
    → Chain m a xs list
    → list ∉ xs
    → length xs < fuel
    → iterate fuel test list (m.next a) m ≡ some (first_such test list xs)
unfolding iterate
iterate-Chain zero test list a xs m c out enough = absurd (omega arith)
iterate-Chain (suc fuel) test list a [] m c out enough = ground arith
iterate-Chain (suc fuel) test list a (x ∷ xs) m c out enough =
    let here : m.next a ≡ x = c.0.0 in
    let other : (x == list) ≡ false = ground arith in
    rw (here, other, iterate-Chain fuel test list x xs m c.1 (ground arith) (omega arith))
      (either (test x) x (first_such test list xs))

-- The walk ends on every list, at the first node that passes the test.
pub iterate-first_such :
    (fuel : ℕ) (test : Ptr → Bool) {m : Memory} {list : Ptr} (xs : List Ptr)
    → IsRing m list xs
    → length xs < fuel
    → iterate fuel test list (m.next list) m ≡ some (first_such test list xs)
iterate-first_such fuel test {m} {list} xs r enough =
    iterate-Chain fuel test list list xs m r.chain r.distinct.0 enough
