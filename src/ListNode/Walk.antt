-- ===== src/ListNode/Walk.antt =====
-- `list_get_size`, `list_get_first`, `list_get_last` and `list_merge`.
use operating_system_cortex.Prelude.{
  ℕ, zero, suc, ◌+◌, ◌<◌, ◌≡◌, false, some, List, [], ◌∷◌, ◌++◌, arith, ◌==◌, length, append-nil,
  if◌then◌else◌,
}
use operating_system_cortex.Prelude.Sets.{◌∈◌, ◌∉◌, Distinct, has-append, Distinct-split}
use operating_system_cortex.ListNode.{Ptr, Memory, get_first, get_last, size_loop, get_size, merge}
use operating_system_cortex.ListNode.Ring.{Link, Chain, IsRing, prev-mem, frame, split, join}

-- The first node, or the head itself if there is none.
abbrev pub first_or : Ptr → List Ptr → Ptr
first_or list [] = list
first_or list (x ∷ xs) = x

-- `list_get_first` and `list_get_last` give the two ends of a list.
pub get_first-get_last :
    {m : Memory} {list : Ptr} (xs : List Ptr) (y : Ptr)
    → IsRing m list (xs ++ y ∷ [])
    → (get_first list m ≡ first_or list (xs ++ y ∷ [])) × (get_last list m ≡ y)
unfolding get_first get_last
get_first-get_last [] y r = ground arith
get_first-get_last {m} {list} (x ∷ xs) y r =
    (r.chain.0.0, (split m list (x ∷ xs) y [] list r.chain).1.1)

size_loop-length :
    (m : Memory) (list a : Ptr) (xs : List Ptr) (fuel n : ℕ)
    → Chain m a xs list
    → list ∉ xs
    → length xs < fuel
    → size_loop fuel list (m.next a) m n ≡ some (n + length xs)
unfolding size_loop
size_loop-length m list a xs zero n c out enough = absurd (omega arith)
size_loop-length m list a [] (suc fuel) n c out enough = ground arith
size_loop-length m list a (x ∷ xs) (suc fuel) n c out enough =
    ground (arith, size_loop-length m list x xs fuel (suc n) c.1)

-- `list_get_size` ends on every list and counts its nodes.
pub get_size-length :
    {m : Memory} {list : Ptr} (xs : List Ptr) (fuel : ℕ)
    → IsRing m list xs
    → length xs < fuel
    → get_size fuel list m ≡ some (length xs)
unfolding get_size
get_size-length {m} {list} xs fuel r enough =
    ground (arith, size_loop-length m list list xs fuel 0 r.chain r.distinct.0 enough)

-- A chain whose last pointer is turned to `c`.
redirect :
    (m g : Memory) (a : Ptr) (xs : List Ptr) (b c : Ptr)
    → Chain m a xs b
    → Distinct (a ∷ xs)
    → g.next (m.prev b) ≡ c
    → g.prev c ≡ m.prev b
    → ((p : Ptr) → p ∈ a ∷ xs → p ∉ m.prev b ∷ [] → g.next p ≡ m.next p)
    → ((p : Ptr) → p ∈ xs → g.prev p ≡ m.prev p)
    → Chain g a xs c
redirect m g a [] b c ch d en ep n p = ground arith
redirect m g a (x ∷ xs) b c ch d en ep n p = (
  ground (arith, n a, p x, prev-mem m x xs b ch.1),
  redirect m g x xs b c ch.1 d.1 en ep (λ q i o. n q (ground arith) o) (λ q i. p q (ground arith)),
)

-- The memory after `list_merge` of a list that is not empty, pointer by pointer.
merge_pointers :
    (m : Memory) (src dest x : Ptr) (xs ys : List Ptr)
    → Chain m src (x ∷ xs) src
    → Chain m dest ys dest
    → src ∉ x ∷ xs
    → dest ∉ x ∷ xs
    → (p : Ptr)
    → ((merge src dest m).next p
        ≡ (if p == dest then x else if p == m.prev src then first_or dest ys else m.next p))
      × ((merge src dest m).prev p
          ≡ (if p == x then dest else if p == first_or dest ys then m.prev src else m.prev p))
unfolding merge
merge_pointers m src dest x xs [] c d os od p = ground (arith, prev-mem m x xs src c.1)
merge_pointers m src dest x xs (y ∷ ys) c d os od p = ground (arith, prev-mem m x xs src c.1)

-- The node behind those of `src` is none of them.
first_or-apart :
    (dest : Ptr) (xs ys : List Ptr) (p : Ptr)
    → Distinct (dest ∷ xs ++ ys)
    → p ∈ xs
    → (p == first_or dest ys) ≡ false
first_or-apart dest xs [] p d i = ground (arith, has-append dest xs [])
first_or-apart dest xs (y ∷ ys) p d i = ground (arith, (Distinct-split xs (y ∷ ys) d.1).2 p)

module _ (m : Memory) (src dest x : Ptr) (xs ys : List Ptr) (c : Chain m src (x ∷ xs) src)
    (d : Chain m dest ys dest) (os : src ∉ x ∷ xs) (dis : Distinct (dest ∷ (x ∷ xs) ++ ys)) where
  dest_apart : dest ∉ x ∷ xs
  dest_apart = ground (arith, has-append dest xs ys)

  -- The nodes of `src`, behind which the first node of `dest` now stands.
  merge-front : Chain (merge src dest m) x xs (first_or dest ys)
  merge-front =
      redirect m (merge src dest m) x xs src (first_or dest ys) c.1
        (Distinct-split (x ∷ xs) ys dis.1).0
        (ground (arith, at (m.prev src), prev-mem m x xs src c.1, dest_apart))
        (ground (arith, at (first_or dest ys), first_or-apart dest (x ∷ xs) ys x dis))
        (λ p i o. ground (arith, at p, dest_apart))
        (λ p i. ground (
          arith,
          at p,
          first_or-apart dest (x ∷ xs) ys p dis,
          (Distinct-split (x ∷ xs) ys dis.1).0,
        ))
    where
      at :
          (p : Ptr)
          → ((merge src dest m).next p
              ≡ (if p == dest then x else if p == m.prev src then first_or dest ys else m.next p))
            × ((merge src dest m).prev p
                ≡ (if p == x then dest else if p == first_or dest ys then m.prev src else m.prev p))
      at p = merge_pointers m src dest x xs ys c d os dest_apart p

  merge-Link : Link (merge src dest m) dest x
  merge-Link = ground (
    arith,
    merge_pointers m src dest x xs ys c d os dest_apart dest,
    merge_pointers m src dest x xs ys c d os dest_apart x,
  )

-- The nodes of `dest` keep their chain.
merge-back :
    (m : Memory) (src dest x : Ptr) (xs : List Ptr) (y : Ptr) (ys : List Ptr)
    → Chain m src (x ∷ xs) src
    → Chain m dest (y ∷ ys) dest
    → src ∉ x ∷ xs
    → Distinct (dest ∷ (x ∷ xs) ++ y ∷ ys)
    → Chain (merge src dest m) y ys dest
merge-back m src dest x xs y ys c d os dis =
    frame m (merge src dest m) y ys dest d.1
      (λ p i. ground (arith, at p, od, last_apart p, prev-mem m x xs src c.1))
      (λ p i. ground (arith, at p, od, has-append p ys (dest ∷ []), last_apart p, dy))
  where
    parts : Distinct (x ∷ xs) × Distinct (y ∷ ys) × ((p : Ptr) → p ∈ x ∷ xs → p ∉ y ∷ ys)
    parts = Distinct-split (x ∷ xs) (y ∷ ys) dis.1

    dy : y ∉ ys
    dy = parts.1.0

    od : (dest ∉ x ∷ xs) × (dest ∉ y ∷ ys)
    od = ground (arith, has-append dest xs (y ∷ ys))

    last_apart : (p : Ptr) → p ∈ y ∷ ys → p ∉ x ∷ xs
    last_apart p i = ground (arith, parts.2 p)

    at :
        (p : Ptr)
        → ((merge src dest m).next p
            ≡ (if p == dest then x else if p == m.prev src then y else m.next p))
          × ((merge src dest m).prev p
              ≡ (if p == x then dest else if p == y then m.prev src else m.prev p))
    at p = merge_pointers m src dest x xs (y ∷ ys) c d os od.0 p

-- `list_merge` puts the nodes of `src` in front of those of `dest`, also where one is empty.
pub merge-IsRing :
    {m : Memory} {src dest : Ptr} (xs ys : List Ptr)
    → IsRing m src xs
    → IsRing m dest ys
    → Distinct (dest ∷ xs ++ ys)
    → src ∉ dest ∷ ys
    → IsRing (merge src dest m) dest (xs ++ ys)
merge-IsRing [] [] r s d out = record { chain = unfold merge in ground arith; distinct = d }
merge-IsRing {m} {src} {dest} [] (y ∷ ys) r s d out = record {
  chain = (
    unfold merge in ground arith,
    frame m (merge src dest m) y ys dest s.chain.1 (λ p i. unfold merge in ground arith)
        (λ p i. unfold merge in ground (arith, has-append p ys (dest ∷ []))),
  );
  distinct = d;
}
merge-IsRing {m} {src} {dest} (x ∷ xs) [] r s d out = record {
  chain = rw append-nil (
    merge-Link m src dest x xs [] r.chain s.chain r.distinct.0 d,
    merge-front m src dest x xs [] r.chain s.chain r.distinct.0 d,
  );
  distinct = d;
}
merge-IsRing {m} {src} {dest} (x ∷ xs) (y ∷ ys) r s d out = record {
  chain = (
    merge-Link m src dest x xs (y ∷ ys) r.chain s.chain r.distinct.0 d,
    join (merge src dest m) x xs y ys dest
        (merge-front m src dest x xs (y ∷ ys) r.chain s.chain r.distinct.0 d)
        (merge-back m src dest x xs y ys r.chain s.chain r.distinct.0 d),
  );
  distinct = d;
}
