-- ===== src/ListNode/Delete.antt =====
-- `list_delete_node`, `list_delete_first` and `list_delete_last` take one node out of the ring and
-- clear its pointers.
use operating_system_cortex.Prelude.{
  ◌≡◌, false, List, [], ◌∷◌, ◌++◌, arith, ◌==◌, append-nil, is_nil, tail,
}
use operating_system_cortex.Prelude.Sets.{◌∉◌, Distinct, has-append, Distinct-remove}
use operating_system_cortex.ListNode.{
  Ptr, null, Memory, delete_node, delete_first, delete_last, is_empty,
}
use operating_system_cortex.ListNode.Ring.{
  Link, Chain, IsRing, SameOutside, prev-mem, next-mem, frame, split,
}

-- Away from the node and its neighbours nothing changes.
delete-frame :
    (m : Memory) (y a : Ptr) (xs : List Ptr) (b : Ptr)
    → Chain m a xs b
    → y ∉ a ∷ xs
    → y ∉ xs ++ b ∷ []
    → m.prev y ∉ a ∷ xs
    → m.next y ∉ xs ++ b ∷ []
    → Chain (delete_node y m) a xs b
unfolding delete_node
delete-frame m y a xs b c ya yb pa nb =
    frame m (delete_node y m) a xs b c (ground arith) (ground arith)

delete-SameOutside :
    (m : Memory) (y : Ptr) → SameOutside (y ∷ m.prev y ∷ m.next y ∷ []) m (delete_node y m)
unfolding delete_node
delete-SameOutside m y = ground arith

-- Taking `y` out of a chain joins what stands before it to what stands behind it.
delete-Chain :
    (m : Memory) (a : Ptr) (xs : List Ptr) (y : Ptr) (ys : List Ptr) (b : Ptr)
    → Chain m a (xs ++ y ∷ ys) b
    → Distinct (a ∷ xs ++ y ∷ ys)
    → b ∉ xs ++ y ∷ ys
    → Chain (delete_node y m) a (xs ++ ys) b
unfolding delete_node
delete-Chain m a [] y [] b c d ob = ground arith
delete-Chain m a [] y (z ∷ zs) b c d ob = (
  ground arith,
  delete-frame m y z zs b c.1.1 (ground arith) (ground (arith, has-append y zs (b ∷ [])))
      (ground arith) (ground (arith, has-append z zs (b ∷ []))),
)
delete-Chain m a (x ∷ xs) y ys b c d ob =
    (step (split m x xs y ys b c.1), delete-Chain m x xs y ys b c.1 d.1 (ground arith))
  where
    step : Chain m x xs y × Chain m y ys b → Link (delete_node y m) a x
    step s = ground (
      arith,
      prev-mem m x xs y s.0,
      next-mem m y ys b s.1,
      has-append a xs (y ∷ ys),
      has-append x xs (y ∷ ys),
      has-append x ys (b ∷ []),
    )

-- `list_delete_node` takes the node out of the list, clears its pointers, and writes only to the
-- nodes of the list.
pub delete_node-IsRing :
    {m : Memory} {list : Ptr} (xs : List Ptr) (y : Ptr) (ys : List Ptr)
    → IsRing m list (xs ++ y ∷ ys)
    → IsRing (delete_node y m) list (xs ++ ys)
      × ((delete_node y m).next y ≡ null)
      × ((delete_node y m).prev y ≡ null)
      × SameOutside (list ∷ xs ++ y ∷ ys) m (delete_node y m)
delete_node-IsRing {m} {list} xs y ys r = (
  record {
    chain = delete-Chain m list xs y ys list r.chain r.distinct r.distinct.0;
    distinct = (Distinct-remove y (list ∷ xs) ys r.distinct).0;
  },
  unfold delete_node in ground arith,
  unfold delete_node in ground arith,
  λ p out. delete-SameOutside m y p (spared p out (split m list xs y ys list r.chain)),
)
  where
    spared :
        (p : Ptr)
        → p ∉ list ∷ xs ++ y ∷ ys
        → Chain m list xs y × Chain m y ys list
        → p ∉ y ∷ m.prev y ∷ m.next y ∷ []
    spared p out s = ground (
      arith,
      prev-mem m list xs y s.0,
      next-mem m y ys list s.1,
      has-append p xs (y ∷ ys),
      has-append p ys (list ∷ []),
    )

-- `list_is_empty` is true exactly of the empty list.
pub is_empty-eq-is_nil :
    {m : Memory} {list : Ptr} (xs : List Ptr) → IsRing m list xs → is_empty list m ≡ is_nil xs
unfolding is_empty
is_empty-eq-is_nil [] r = ground arith
is_empty-eq-is_nil (x ∷ xs) r = ground arith

-- `list_delete_first` takes the first node out, and does nothing to an empty list.
pub delete_first-IsRing :
    {m : Memory} {list : Ptr} (xs : List Ptr)
    → IsRing m list xs
    → IsRing (delete_first list m) list (tail xs)
delete_first-IsRing {m} {list} [] r =
    let same : delete_first list m ≡ m = unfold delete_first in ground arith in rw same r
delete_first-IsRing {m} {list} (x ∷ xs) r =
    let same : delete_first list m ≡ delete_node x m = unfold delete_first in ground arith in
    rw same (delete_node-IsRing [] x xs r).0

-- `list_delete_last` takes the last node out, and does nothing to an empty list.
pub delete_last-IsRing :
    {m : Memory} {list : Ptr} (xs : List Ptr) (x : Ptr)
    → IsRing m list (xs ++ x ∷ [])
    → IsRing (delete_last list m) list xs
delete_last-IsRing {m} {list} xs x r =
    let ends = split m list xs x [] list r.chain in
    let filled : (m.next list == list) ≡ false = nonempty xs x r in
    let same : delete_last list m ≡ delete_node x m = unfold delete_last in ground arith in
    rw same (rw append-nil at (delete_node-IsRing xs x [] r).0)
  where
    nonempty :
        (xs : List Ptr) (x : Ptr) → IsRing m list (xs ++ x ∷ []) → (m.next list == list) ≡ false
    nonempty [] x r = ground arith
    nonempty (z ∷ zs) x r = ground arith

pub delete_last-nil : {m : Memory} {list : Ptr} → IsRing m list [] → delete_last list m ≡ m
unfolding delete_last
delete_last-nil r = ground arith
