-- ===== src/Sched/Rotation.antt =====
-- `pick_next` of kernel/rt.c, kernel/fair.c and kernel/back.c: the run queue turns by one.
use operating_system_cortex.Prelude.{
  ℕ, zero, suc, ◌≡◌, refl, List, [], ◌∷◌, ◌++◌, append_assoc, append-nil, arith, length,
}
use operating_system_cortex.Prelude.Sets.{has, has-append}
use operating_system_cortex.ListNode
use operating_system_cortex.ListNode.{Ptr, null, Memory}
use operating_system_cortex.ListNode.Ring.{IsRing, SameOutside}
use operating_system_cortex.ListNode.Insert.{add_last-IsRing}
use operating_system_cortex.ListNode.Delete.{delete_node-IsRing, is_empty-eq-is_nil}
use operating_system_cortex.Sched.{rotate}

-- The first thread, or NULL, and the queue behind its turn.
abbrev pub first : List Ptr → Ptr
first [] = null
first (x ∷ xs) = x

abbrev pub turn : List Ptr → List Ptr
turn [] = []
turn (x ∷ xs) = xs ++ x ∷ []

pub has-turn : (p : Ptr) (xs : List Ptr) → has p (turn xs) ≡ has p xs
has-turn p [] = refl
has-turn p (x ∷ xs) = ground (arith, has-append p xs (x ∷ []))

pub rotate-turn :
    {m : Memory} {list : Ptr} (xs : List Ptr)
    → IsRing m list xs
    → ((rotate list m).0 ≡ first xs)
      × IsRing (rotate list m).1 list (turn xs)
      × SameOutside (list ∷ xs) m (rotate list m).1
unfolding rotate
rotate-turn {m} {list} [] r = rw (is_empty-eq-is_nil [] r) (refl, r, λ p o. (refl, refl))
rotate-turn {m} {list} (x ∷ xs) r = rw (is_empty-eq-is_nil (x ∷ xs) r) (at_first, moved.0, same)
  where
    gone :
        IsRing (ListNode.delete_node x m) list xs
        × SameOutside (list ∷ x ∷ xs) m (ListNode.delete_node x m)
    gone = let d = delete_node-IsRing [] x xs r in (d.0, d.3)

    at_first : ListNode.get_first list m ≡ x
    at_first = unfold ListNode.get_first in r.chain.0.0

    same_delete : ListNode.delete_first list m ≡ ListNode.delete_node x m
    same_delete = unfold ListNode.delete_first in ground (arith, r.chain, r.distinct)

    moved :
        let g = ListNode.add_last (ListNode.get_first list m) list (ListNode.delete_first list m) in
        IsRing g list (xs ++ x ∷ []) × SameOutside (x ∷ list ∷ xs) (ListNode.delete_node x m) g
    moved = rw (at_first, same_delete) (add_last-IsRing x xs gone.0 (ground (arith, r.distinct)))

    same :
        SameOutside
          (list ∷ x ∷ xs)
          m
          (ListNode.add_last (ListNode.get_first list m) list (ListNode.delete_first list m))
    same p o = ground (arith, gone.1 p, moved.1 p)

-- `n` picks in a row from one queue: the threads picked, and the memory behind them.
pub picks : ℕ → Ptr → Memory → List Ptr × Memory
picks zero list m = ([], m)
picks (suc n) list m = let (t, m1) = rotate list m in let (ts, m2) = picks n list m1 in (t ∷ ts, m2)

picks-split :
    {m : Memory} {list : Ptr} (xs ys : List Ptr)
    → IsRing m list (xs ++ ys)
    → ((picks (length xs) list m).0 ≡ xs) × IsRing (picks (length xs) list m).1 list (ys ++ xs)
unfolding picks
picks-split [] ys r = (refl, rw append-nil r)
picks-split {m} {list} (x ∷ xs) ys r =
    let one = rotate-turn (x ∷ xs ++ ys) r in
    let rest =
      picks-split {m = (rotate list m).1} {list = list} xs (ys ++ x ∷ [])
        (rw (← append_assoc xs ys (x ∷ [])) one.1) in
    (rw (one.0, rest.0), rw append_assoc at rest.1)

-- As many picks as a queue holds threads give each thread its turn exactly once, in the order of
-- the queue, and leave the queue as it was.
pub picks_round_robin :
    {m : Memory} {list : Ptr} (xs : List Ptr)
    → IsRing m list xs
    → ((picks (length xs) list m).0 ≡ xs) × IsRing (picks (length xs) list m).1 list xs
picks_round_robin xs r = picks-split xs [] (rw append-nil r)
