-- ===== src/Sched/Wake.antt =====
-- `enqueue_sleeping_threads`: the threads that are due leave the sleep queue for the run queues.
use mathlib.Core.Logic.{ite, if_pos, if_neg}
use operating_system_cortex.Prelude.{
  ℕ, zero, suc, ◌<◌, ◌≡◌, ◌≢◌, refl, sym, inl, inr, ◌∙◌, ap, Bool, true, false, Option, none, some,
  List, [], ◌∷◌, ◌++◌, arith, ltb, ◌==◌, if◌then◌else◌, length, Bool-cases, append-nil,
  append_assoc,
}
use operating_system_cortex.Prelude.Sets.{has, ◌∈◌, ◌∉◌, has-append}
use operating_system_cortex.ListNode
use operating_system_cortex.ListNode.{Ptr, null, Memory}
use operating_system_cortex.ListNode.Ring.{IsRing, SameOutside}
use operating_system_cortex.ListNode.Insert.{add_last-IsRing}
use operating_system_cortex.ListNode.Delete.{delete_node-IsRing}
use operating_system_cortex.ListNode.Family.{Holds, put, put-here, put-there, Holds-change, own}
use operating_system_cortex.Sched.{
  Class, rt, fair, back, idle, Queue, rt_queue, fair_queue, back_queue, sleep_list, Thread, Rq,
  class_enqueue,
}
use operating_system_cortex.Sched.Core.{wake_loop, enqueue_sleeping_threads}
use operating_system_cortex.Sched.Pick.{Queues, Queue-discrete, Represents}
use operating_system_cortex.Sched.Sleepers.{wake_of, before, from, first_wake, Sleeps}

-- The run queue of a class. The idle class has none.
abbrev pub queue_of : Option Class → Option Queue
queue_of (some rt) = some rt_queue
queue_of (some fair) = some fair_queue
queue_of (some back) = some back_queue
queue_of (some idle) = none
queue_of none = none

-- Every thread of the list has a class with a run queue.
abbrev pub Queued : (Ptr → Thread) → List Ptr → Type 0
Queued th [] = Unit
Queued th (x ∷ xs) = ((q : Queue) × (queue_of (th x).class ≡ some q)) × Queued th xs

abbrev goes_to : Queue → Option Queue → Bool
goes_to q none = false
goes_to q (some r) = ite (Queue-discrete q r) true false

-- Those of the threads `xs` that go to the run queue `q`.
abbrev pub bound_for : (Ptr → Thread) → Queue → List Ptr → List Ptr
bound_for th q [] = []
bound_for th q (x ∷ xs) =
    if goes_to q (queue_of (th x).class) then x ∷ bound_for th q xs else bound_for th q xs

-- A thread of the sleep queue, moved to the back of its run queue.
moved : Queue → Ptr → Rq → Memory
moved q t rq = ListNode.add_last t (rq.head q) (ListNode.delete_first (rq.head sleep_list) rq.nodes)

queue_of-ne-sleep : (c : Option Class) (q : Queue) → queue_of c ≡ some q → q ≢ sleep_list
queue_of-ne-sleep none q e = cc
queue_of-ne-sleep (some rt) q e = ground arith
queue_of-ne-sleep (some fair) q e = ground arith
queue_of-ne-sleep (some back) q e = ground arith
queue_of-ne-sleep (some idle) q e = cc

class_enqueue-moved :
    (c : Class) (q : Queue) (t : Ptr) (rq : Rq)
    → queue_of (some c) ≡ some q
    → class_enqueue c t (record rq { nodes = ListNode.delete_first (rq.head sleep_list) rq.nodes })
      ≡ record rq { nodes = moved q t rq }
unfolding class_enqueue moved
class_enqueue-moved rt q t rq e = ground arith
class_enqueue-moved fair q t rq e = ground arith
class_enqueue-moved back q t rq e = ground arith
class_enqueue-moved idle q t rq e = cc

-- One round of the loop: the lists behind it.
moved-Represents :
    {rq : Rq} {items : Queues} {owner : Ptr → Option Queue} (q : Queue) (t : Ptr) (ts : List Ptr)
    → Represents rq items owner
    → items sleep_list ≡ t ∷ ts
    → q ≢ sleep_list
    → Represents
        (record rq { nodes = moved q t rq })
        (put Queue-discrete (put Queue-discrete items sleep_list ts) q (items q ++ t ∷ []))
        (own (own owner t none) t (some q))
unfolding moved
moved-Represents {rq} {items} {owner} q t ts v e ne = record {
  holds =
      Holds-change Queue-discrete q t (items q ++ t ∷ []) (some q) left behind.0 behind.1
        (inl (ground arith)) knows;
  null_free = ground (arith, v.null_free, mine);
}
  where
    list : Ptr
    list = rq.head sleep_list

    ring : IsRing rq.nodes list (t ∷ ts)
    ring = rw e at (v.holds.ring sleep_list)

    mine : owner t ≡ some sleep_list
    mine = v.holds.owned sleep_list t (rw e (ground arith))

    same_delete : ListNode.delete_first list rq.nodes ≡ ListNode.delete_node t rq.nodes
    same_delete = unfold ListNode.delete_first in ground (arith, ring.chain, ring.distinct)

    gone :
        IsRing (ListNode.delete_first list rq.nodes) list ts
        × SameOutside (list ∷ t ∷ ts) rq.nodes (ListNode.delete_first list rq.nodes)
    gone = rw same_delete (let d = delete_node-IsRing [] t ts ring in (d.0, d.3))

    left :
        Holds rq.head
          (ListNode.delete_first list rq.nodes)
          (put Queue-discrete items sleep_list ts)
          (own owner t none)
    left =
        Holds-change Queue-discrete sleep_list t ts none v.holds gone.0
          (rw e (λ p o. gone.1 p (ground arith))) (inr mine)
          (λ p i. ground (arith, v.holds.owned sleep_list p (rw e (ground arith)), ring.distinct))

    there : put Queue-discrete items sleep_list ts q ≡ items q
    there = put-there Queue-discrete items sleep_list q ts ne

    away : t ∉ rq.head q ∷ items q
    away = elim (Bool-cases (has t (rq.head q ∷ items q))) [
      | inl i ↦ absurd (ne (ground (arith, v.holds.owned q t i, mine)))
      | inr o ↦ o
    ]

    behind :
        let g = ListNode.delete_first list rq.nodes in
        IsRing (ListNode.add_last t (rq.head q) g) (rq.head q) (items q ++ t ∷ [])
        × SameOutside
            (t ∷ rq.head q ∷ put Queue-discrete items sleep_list ts q)
            g
            (ListNode.add_last t (rq.head q) g)
    behind = rw there (add_last-IsRing t (items q) (rw there at (left.ring q)) away)

    knows :
        (p : Ptr) → p ∈ rq.head q ∷ items q ++ t ∷ [] → own (own owner t none) t (some q) p ≡ some q
    knows p i = ground (arith, v.holds.owned q p, has-append p (items q) (t ∷ []))

-- One thread more at the back of `q` shifts into what is bound for each queue.
bound_for-step :
    (items : Queues) (th : Ptr → Thread) (q r : Queue) (x : Ptr) (ts xs : List Ptr)
    → queue_of (th x).class ≡ some q
    → r ≢ sleep_list
    → put Queue-discrete (put Queue-discrete items sleep_list ts) q (items q ++ x ∷ []) r
        ++ bound_for th r xs
      ≡ items r ++ bound_for th r (x ∷ xs)
bound_for-step items th q r x ts xs e ne = elim (Queue-discrete r q) [
  | yes same ↦
      rw
        (
          put-here Queue-discrete (put Queue-discrete items sleep_list ts) q r (items q ++ x ∷ [])
              same,
          e,
          if_pos (Queue-discrete r q) same true false,
          append_assoc,
        )
        (ap (λ (z : Queue). items z ++ x ∷ bound_for th r xs) (sym same))
  | no other ↦
      rw
        (
          put-there Queue-discrete (put Queue-discrete items sleep_list ts) q r (items q ++ x ∷ [])
              other,
          put-there Queue-discrete items sleep_list r ts ne,
          e,
          if_neg (Queue-discrete r q) other true false,
        )
        refl
]

-- The loop ends, and moves exactly the threads that are due, in their order, each to the back of
-- the queue of its class.
pub wake_loop-wakes :
    (fuel : ℕ) (xs : List Ptr) {rq : Rq} {items : Queues} {owner : Ptr → Option Queue}
    → Represents rq items owner
    → items sleep_list ≡ xs
    → Queued rq.thread xs
    → length xs < fuel
    → (m : Memory) × (items' : Queues) × (owner' : Ptr → Option Queue) × (wake_loop fuel rq
        ≡ some (record rq { nodes = m }))
      × Represents (record rq { nodes = m }) items' owner'
      × (items' sleep_list ≡ from (wake_of rq) (suc rq.tick) xs)
      × ((q : Queue)
          → q ≢ sleep_list
          → items' q ≡ items q ++ bound_for rq.thread q (before (wake_of rq) (suc rq.tick) xs))
unfolding wake_loop
wake_loop-wakes zero xs v e k enough = absurd (omega arith)
wake_loop-wakes (suc fuel) [] {rq} {items} {owner} v e k enough =
    let empty : rq.nodes.next (rq.head sleep_list) ≡ rq.head sleep_list =
      (rw e at (v.holds.ring sleep_list)).chain.0 in
    let self : (rq.head sleep_list == rq.head sleep_list) ≡ true = ground arith in
    (rq.nodes, items, owner, rw (empty, self) refl, v, e, λ q ne. rw append-nil refl)
wake_loop-wakes (suc fuel) (x ∷ xs) {rq} {items} {owner} v e k enough =
    elim (Bool-cases (ltb rq.tick (wake_of rq x))) [
      | inl later ↦
          let rest : ltb (wake_of rq x) (suc rq.tick) ≡ false = ground arith in
          (
            rq.nodes,
            items,
            owner,
            rw (at_x, not_head, later) refl,
            v,
            rw rest e,
            λ q ne. rw (rest, append-nil) refl,
          )
      | inr due ↦
          let soon : ltb (wake_of rq x) (suc rq.tick) ≡ true = ground arith in
          let (c, has_class) = class_of (rq.thread x).class k.0.1 in
          let q = k.0.0 in
          let ne : q ≢ sleep_list = queue_of-ne-sleep (rq.thread x).class q k.0.1 in
          let (m, items', owner', runs, holds, asleep, awake) =
            wake_loop-wakes fuel xs (moved-Represents q x xs v e ne)
              (put-there Queue-discrete (put Queue-discrete items sleep_list xs) q sleep_list
                  (items q ++ x ∷ []) (λ h. ne (sym h))
                ∙ put-here Queue-discrete items sleep_list sleep_list xs refl)
              k.1 (omega arith) in
          (
            m,
            items',
            owner',
            rw
                (
                  at_x,
                  not_head,
                  due,
                  has_class,
                  class_enqueue-moved c q x rq (rw has_class at k.0.1),
                )
                runs,
            holds,
            rw soon asleep,
            λ r nr. rw soon (awake r nr ∙ bound_for-step items rq.thread q r x xs _ k.0.1 nr),
          )
    ]
  where
    at_x : rq.nodes.next (rq.head sleep_list) ≡ x
    at_x = (rw e at (v.holds.ring sleep_list)).chain.0.0

    not_head : (x == rq.head sleep_list) ≡ false
    not_head = ground (arith, (rw e at (v.holds.ring sleep_list)).distinct)

    class_of : {q : Queue} (c : Option Class) → queue_of c ≡ some q → (d : Class) × (c ≡ some d)
    class_of none h = cc
    class_of (some d) h = (d, refl)

-- A run queue takes up, behind what it held, the threads of its class that are due.
abbrev pub Awakened : Rq → Queues → Queues → Type 0
Awakened rq items items' =
    (q : Queue)
    → q ≢ sleep_list
    → items' q
      ≡ items q ++ bound_for rq.thread q (before (wake_of rq) (suc rq.tick) (items sleep_list))

-- `enqueue_sleeping_threads` ends, wakes exactly the threads whose tick has come, in their order,
-- and leaves a sorted sleep queue of the others with `tick_to_wake` at its first.
pub enqueue_sleeping_threads-wakes :
    (fuel : ℕ) {rq : Rq} {items : Queues} {owner : Ptr → Option Queue}
    → Represents rq items owner
    → Sleeps rq (items sleep_list)
    → Queued rq.thread (items sleep_list)
    → length (items sleep_list) < fuel
    → (m : Memory) × (items' : Queues) × (owner' : Ptr → Option Queue) × (enqueue_sleeping_threads
          fuel rq
        ≡ some
            (record rq { nodes = m; tick_to_wake = first_wake (wake_of rq) (items' sleep_list) }))
      × Represents (record rq { nodes = m }) items' owner'
      × (items' sleep_list ≡ from (wake_of rq) (suc rq.tick) (items sleep_list))
      × Awakened rq items items'
unfolding enqueue_sleeping_threads
enqueue_sleeping_threads-wakes fuel {rq} {items} v s k enough =
    let (m, items', owner', runs, holds, asleep, awake) =
      wake_loop-wakes fuel (items sleep_list) v refl k enough in
    (
      m,
      items',
      owner',
      rw (runs, next_tick (items' sleep_list) m (holds.holds.ring sleep_list)) refl,
      holds,
      asleep,
      awake,
    )
  where
    next_tick :
        (xs : List Ptr) (m : Memory)
        → IsRing m (rq.head sleep_list) xs
        → (if m.next (rq.head sleep_list) == rq.head sleep_list
            then 0
            else wake_of rq (m.next (rq.head sleep_list)))
          ≡ first_wake (wake_of rq) xs
    next_tick [] m r = ground (arith, r.chain)
    next_tick (x ∷ xs) m r = ground (arith, r.chain, r.distinct)
