-- ===== src/ListNode/Insert.antt =====
-- `list_add_first`, `list_add_last` and `list_add_before` put one node into the ring.
use operating_system_cortex.Prelude.{◌≡◌, List, [], ◌∷◌, ◌++◌, arith, append_assoc}
use operating_system_cortex.Prelude.Sets.{
  ◌∈◌, ◌∉◌, Distinct, has-append, Distinct-snoc, Distinct-split, Distinct-insert,
}
use operating_system_cortex.ListNode.{Ptr, Memory, insert, add_first, add_last, add_before}
use operating_system_cortex.ListNode.Ring.{Chain, IsRing, SameOutside, prev-mem, frame, split, join}

-- Linking `n` in before the end `b` of a chain extends the chain by `n`.
insert-Chain :
    (m : Memory) (n a : Ptr) (xs : List Ptr) (b : Ptr)
    → Chain m a xs b
    → Distinct (a ∷ xs)
    → b ∉ xs
    → n ∉ a ∷ xs
    → n ∉ b ∷ []
    → Chain (insert n (m.prev b) b m) a (xs ++ n ∷ []) b
unfolding insert
insert-Chain m n a [] b c d ob on nb = ground arith
insert-Chain m n a (x ∷ xs) b c d ob on nb = (
  ground (arith, prev-mem m x xs b c.1),
  insert-Chain m n x xs b c.1 d.1 (ground arith) (ground arith) nb,
)

-- A chain that holds neither neighbour survives.
insert-frame :
    (m : Memory) (n p q a : Ptr) (xs : List Ptr) (b : Ptr)
    → Chain m a xs b
    → p ∉ a ∷ xs
    → q ∉ xs ++ b ∷ []
    → n ∉ a ∷ xs
    → n ∉ xs ++ b ∷ []
    → Chain (insert n p q m) a xs b
unfolding insert
insert-frame m n p q a xs b c op oq on on' =
    frame m (insert n p q m) a xs b c (ground arith) (ground arith)

insert-SameOutside : (m : Memory) (n p q : Ptr) → SameOutside (n ∷ p ∷ q ∷ []) m (insert n p q m)
unfolding insert
insert-SameOutside m n p q = ground arith

-- Both neighbours of the new node are in the list, so no other node is written.
insert-SameOutside_ring :
    (m : Memory) (list n b : Ptr) (xs zs : List Ptr)
    → m.prev b ∈ list ∷ xs
    → b ∈ list ∷ zs
    → ((p : Ptr) → p ∉ list ∷ zs → p ∉ list ∷ xs)
    → SameOutside (n ∷ list ∷ zs) m (insert n (m.prev b) b m)
insert-SameOutside_ring m list n b xs zs pi bi sub p out =
    insert-SameOutside m n (m.prev b) b p (ground (arith, sub p))

-- `list_add_last` puts a node that is in no list at the back, and writes only to the nodes of the
-- list.
pub add_last-IsRing :
    {m : Memory} {list : Ptr} (n : Ptr) (xs : List Ptr)
    → IsRing m list xs
    → n ∉ list ∷ xs
    → IsRing (add_last n list m) list (xs ++ n ∷ [])
      × SameOutside (n ∷ list ∷ xs) m (add_last n list m)
unfolding add_last
add_last-IsRing {m} {list} n xs r out = (
  record {
    chain = insert-Chain m n list xs list r.chain r.distinct r.distinct.0 out (ground arith);
    distinct = ground (arith, Distinct-snoc n (list ∷ xs) r.distinct);
  },
  insert-SameOutside_ring m list n list xs xs (prev-mem m list xs list r.chain) (ground arith)
      (λ p h. h),
)

-- The ring is a chain up to `b` and a chain from `b`; the first grows, and the second survives.
add_before-Chain :
    (m : Memory) (list n b : Ptr) (xs ys : List Ptr)
    → Chain m list xs b
    → Chain m b ys list
    → Distinct (list ∷ xs)
    → Distinct (b ∷ ys)
    → ((p : Ptr) → p ∈ list ∷ xs → p ∉ b ∷ ys)
    → n ∉ list ∷ xs
    → n ∉ b ∷ ys
    → Chain (insert n (m.prev b) b m) list (xs ++ n ∷ b ∷ ys) list
add_before-Chain m list n b xs ys front back dx dy apart on on' =
    rw (← append_assoc xs (n ∷ []) (b ∷ ys)) (
      join _ list (xs ++ n ∷ []) b ys list
        (insert-Chain m n list xs b front dx (ground (arith, apart b)) on (ground arith))
        (insert-frame m n (m.prev b) b b ys list back (apart _ (prev-mem m list xs b front))
          (ground (arith, has-append b ys (list ∷ []), apart list)) on'
          (ground (arith, has-append n ys (list ∷ [])))))

-- `list_add_before` puts a node that is in no list in front of the node `b`, and writes only to
-- the nodes of the list.
pub add_before-IsRing :
    {m : Memory} {list : Ptr} (n b : Ptr) (xs ys : List Ptr)
    → IsRing m list (xs ++ b ∷ ys)
    → n ∉ list ∷ xs ++ b ∷ ys
    → IsRing (add_before n b m) list (xs ++ n ∷ b ∷ ys)
      × SameOutside (n ∷ list ∷ (xs ++ b ∷ ys)) m (add_before n b m)
unfolding add_before
add_before-IsRing {m} {list} n b xs ys r out = (
  record {
    chain =
        add_before-Chain m list n b xs ys s.0 s.1 d.0 d.1 d.2
          (ground (arith, has-append n xs (b ∷ ys))) (ground (arith, has-append n xs (b ∷ ys)));
    distinct = Distinct-insert n (list ∷ xs) (b ∷ ys) r.distinct out;
  },
  insert-SameOutside_ring m list n b xs (xs ++ b ∷ ys) (prev-mem m list xs b s.0)
      (ground (arith, has-append b xs (b ∷ ys))) (λ p h. ground (arith, has-append p xs (b ∷ ys))),
)
  where
    s : Chain m list xs b × Chain m b ys list
    s = split m list xs b ys list r.chain

    d : Distinct (list ∷ xs) × Distinct (b ∷ ys) × ((p : Ptr) → p ∈ list ∷ xs → p ∉ b ∷ ys)
    d = Distinct-split (list ∷ xs) (b ∷ ys) r.distinct

-- `list_add_first` puts a node that is in no list at the front, and writes only to the nodes of
-- the list.
pub add_first-IsRing :
    {m : Memory} {list : Ptr} (n : Ptr) (xs : List Ptr)
    → IsRing m list xs
    → n ∉ list ∷ xs
    → IsRing (add_first n list m) list (n ∷ xs) × SameOutside (n ∷ list ∷ xs) m (add_first n list m)
add_first-IsRing {m} {list} n [] r out =
    let same : add_first n list m ≡ add_last n list m = unfold add_first add_last in cc in
    rw same (add_last-IsRing n [] r out)
add_first-IsRing {m} {list} n (x ∷ xs) r out =
    let same : add_first n list m ≡ add_before n x m = unfold add_first add_before in cc in
    rw same (add_before-IsRing n x [] xs r out)
