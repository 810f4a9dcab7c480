-- ===== src/Sched/Pick.antt =====
-- `core_pick_next`: the classes in their order, over four disjoint queues.
use operating_system_cortex.Prelude.{
  ◌≡◌, refl, ◌≢◌, inl, inr, false, not, Option, none, some, List, [], ◌∷◌, arith, ◌==◌, ap, ◌∙◌,
  List-cases, if◌then◌else◌, is_nil,
}
use operating_system_cortex.ListNode.{Ptr, null, Memory}
use operating_system_cortex.ListNode.Family.{Holds, put, Holds-reorder}
use operating_system_cortex.ListNode.Delete.{is_empty-eq-is_nil}
use operating_system_cortex.Sched.{Queue, rt_queue, fair_queue, back_queue, Rq, rotate}
use operating_system_cortex.Sched.Core.{core_pick_next}
use operating_system_cortex.Sched.Rotation.{first, turn, has-turn, rotate-turn}

pub Queue-discrete : Discrete Queue
Queue-discrete = hlevel

-- The threads of each queue, as lists.
abbrev pub Queues : Type 0
Queues = Queue → List Ptr

-- The list nodes of `rq` hold the queues `items`; NULL is in none of them.
pub record Represents (rq : Rq) (items : Queues) (owner : Ptr → Option Queue) : Type 0 where
  pub holds : Holds rq.head rq.nodes items owner
  pub null_free : owner null ≡ none

-- The choice of the scheduler: the front of the first queue that is not empty, in the order
-- real-time, fair, background; the idle thread if all three are empty.
abbrev pub choose : Queues → Ptr → Ptr
choose items idle =
    if not (is_nil (items rt_queue))
    then first (items rt_queue)
    else if not (is_nil (items fair_queue))
    then first (items fair_queue)
    else if not (is_nil (items back_queue))
    then first (items back_queue)
    else idle

-- The queues behind the choice: the queue that gave the thread has turned, the others stand still.
abbrev pub after_choice : Queues → Queues
after_choice items =
    if not (is_nil (items rt_queue))
    then turned rt_queue
    else if not (is_nil (items fair_queue))
    then turned fair_queue
    else if not (is_nil (items back_queue))
    then turned back_queue
    else items
  where
    turned : Queue → Queues
    turned q = put Queue-discrete items q (turn (items q))

module _ {rq : Rq} {items : Queues} {owner : Ptr → Option Queue} (v : Represents rq items owner)
    (q : Queue) where
  -- A turn of one queue keeps all of them.
  rotate-Represents :
      Represents
        (record rq { nodes = (rotate (rq.head q) rq.nodes).1 })
        (put Queue-discrete items q (turn (items q)))
        owner
  rotate-Represents =
      let t = rotate-turn (items q) (v.holds.ring q) in
      record {
        holds =
            Holds-reorder Queue-discrete q (turn (items q)) v.holds t.1 t.2
              (λ p i. ground (arith, has-turn p (items q)));
        null_free = v.null_free;
      }

  -- An empty queue gives NULL and stays as it is.
  rotate-empty : items q ≡ [] → rotate (rq.head q) rq.nodes ≡ (null, rq.nodes)
  unfolding rotate
  rotate-empty e = rw (is_empty-eq-is_nil (items q) (v.holds.ring q), e)

  -- Any other queue gives its first thread, which is not NULL.
  rotate-first :
      (x : Ptr) (xs : List Ptr)
      → items q ≡ x ∷ xs
      → ((rotate (rq.head q) rq.nodes).0 ≡ x) × ((x == null) ≡ false)
  rotate-first x xs e =
      let t = rotate-turn (items q) (v.holds.ring q) in
      let own : owner x ≡ some q = v.holds.owned q x (rw e (ground arith)) in
      (t.0 ∙ ap first e, ground (arith, own, v.null_free))

-- `core_pick_next` gives the thread that `choose` names, turns its queue, and changes no other queue
-- and nothing but nodes; it does not panic as long as there is an idle thread.
pub core_pick_next-choose :
    {rq : Rq} {items : Queues} {owner : Ptr → Option Queue}
    → Represents rq items owner
    → rq.idle ≢ null
    → (m : Memory) × (core_pick_next rq ≡ some (choose items rq.idle, record rq { nodes = m }))
      × Represents (record rq { nodes = m }) (after_choice items) owner
unfolding core_pick_next
core_pick_next-choose {rq} {items} v has_idle = elim (List-cases (items rt_queue)) [
  | inr (x, xs, e) ↦
      let r = rotate-first v rt_queue x xs e in
      (
        (rotate (rq.head rt_queue) rq.nodes).1,
        rw (r.0, r.1, e) refl,
        rw e (rw e at (rotate-Represents v rt_queue)),
      )
  | inl e ↦ elim (List-cases (items fair_queue)) [
    | inr (x, xs, f) ↦
        let r = rotate-first v fair_queue x xs f in
        (
          (rotate (rq.head fair_queue) rq.nodes).1,
          rw (rotate-empty v rt_queue e, r.0, r.1, e, f) refl,
          rw (e, f) (rw f at (rotate-Represents v fair_queue)),
        )
    | inl f ↦ elim (List-cases (items back_queue)) [
      | inr (x, xs, g) ↦
          let r = rotate-first v back_queue x xs g in
          (
            (rotate (rq.head back_queue) rq.nodes).1,
            rw (rotate-empty v rt_queue e, rotate-empty v fair_queue f, r.0, r.1, e, f, g) refl,
            rw (e, f, g) (rw g at (rotate-Represents v back_queue)),
          )
      | inl g ↦
          let stays : (rq.idle == null) ≡ false = ground arith in
          (
            rq.nodes,
            rw
                (
                  rotate-empty v rt_queue e,
                  rotate-empty v fair_queue f,
                  rotate-empty v back_queue g,
                  stays,
                  e,
                  f,
                  g,
                )
                refl,
            rw (e, f, g) v,
          )
    ]
  ]
]
