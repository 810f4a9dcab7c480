-- ===== src/ListNode/Tests.antt =====
-- Runs of the list operations on two short lists in one memory: 10 holds 1, 2, 3 and 20 holds 4.
use operating_system_cortex.Prelude.{◌≡◌, [], ◌∷◌, arith, ◌==◌, if◌then◌else◌}
use operating_system_cortex.ListNode.{null, Memory, delete_node}
use operating_system_cortex.ListNode.Ring.{IsRing, SameOutside}
use operating_system_cortex.ListNode.Delete.{delete_node-IsRing}

abbrev two_lists : Memory
two_lists = record {
  next = λ p.
      if p == 10
      then 1
      else if p == 1
      then 2
      else if p == 2
      then 3
      else if p == 3
      then 10
      else if p == 20
      then 4
      else if p == 4
      then 20
      else 0;
  prev = λ p.
      if p == 10
      then 3
      else if p == 1
      then 10
      else if p == 2
      then 1
      else if p == 3
      then 2
      else if p == 20
      then 4
      else if p == 4
      then 20
      else 0;
}

at_10 : IsRing two_lists 10 (1 ∷ 2 ∷ 3 ∷ [])
at_10 = record { chain = ground arith; distinct = ground arith }

at_20 : IsRing two_lists 20 (4 ∷ [])
at_20 = record { chain = ground arith; distinct = ground arith }

delete_node-IsRing_example :
    IsRing (delete_node 2 two_lists) 10 (1 ∷ 3 ∷ [])
    × ((delete_node 2 two_lists).next 2 ≡ null)
    × ((delete_node 2 two_lists).prev 2 ≡ null)
    × SameOutside (10 ∷ 1 ∷ 2 ∷ 3 ∷ []) two_lists (delete_node 2 two_lists)
delete_node-IsRing_example = delete_node-IsRing (1 ∷ []) 2 (3 ∷ []) at_10
