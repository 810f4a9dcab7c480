-- ===== src/Sched.antt =====
-- kernel/sched.c with its classes kernel/rt.c, kernel/fair.c, kernel/back.c and kernel/idle.c:
-- the run queues, the sleep queue and the core scheduler, on the linked lists of list.h.
-- A thread stands for the address of its `node`, and `null` for NULL. `none` is a stop of the
-- system: `panic`, a failed `assert`, or a call through a NULL function pointer. The interrupt
-- lock around the queue operations is not modelled, since a single CPU runs each of them whole.
pub mod Core
pub mod Rotation
pub mod Pick
pub mod Sleepers
pub mod Sleep
pub mod Wake
pub mod Tick
mod Tests
use operating_system_cortex.Prelude.{
  ℕ, zero, suc, ◌+◌, ◌*◌, ◌%◌, ◌^◌, Bool, true, false, not, ◌&&◌, ◌||◌, Option, none, some, ◌==◌,
  ltb, leb, if◌then◌else◌,
}
use operating_system_cortex.Prelude.Bits.{u32, u64}
use operating_system_cortex.ListNode
use operating_system_cortex.ListNode.{Ptr, null, Memory}

-- `SCHED_SLICE`, in microseconds.
abbrev pub sched_slice : ℕ
sched_slice = 1000

-- The scheduling classes, in the order of their `next` pointers.
pub data Class : Type 0 where
  rt fair back idle : Class

pub data ThreadState : Type 0 where
  running sleep wait stopped dead : ThreadState

-- The lists of `struct rq` that are threaded through `thread->node`.
pub data Queue : Type 0 where
  rt_queue fair_queue back_queue sleep_list : Queue

-- What the scheduler keeps of a `struct thread` beside its list nodes. `class` is `none` for NULL.
pub record Thread : Type 0 where
  pub tick_to_wake : ℕ
  pub runtime : ℕ
  pub state : ThreadState
  pub class : Option Class

-- `struct rq`, the threads, and the memory of their list nodes.
pub record Rq : Type 0 where
  pub next : Ptr
  pub curr : Ptr
  pub lazy_fpu : Ptr
  pub idle : Ptr
  pub tick : ℕ
  pub tick_to_wake : ℕ
  pub sched_enable : ℕ
  pub head : Queue → Ptr
  pub thread_list : Ptr
  pub nodes : Memory
  pub thread_nodes : Memory
  pub thread : Ptr → Thread

abbrev pub set_thread : Ptr → Thread → Rq → Rq
set_thread p t rq = record rq { thread = λ q. if q == p then t else rq.thread q }

infixl 5 ◌>>=◌
abbrev pub ◌>>=◌ : {A B : Type 0} → Option A → (A → Option B) → Option B
none >>= f = none
some a >>= f = f a

-- `*_init`, `*_enqueue`, `*_dequeue` and `*_pick_next` of the three classes with a queue.
unfoldable pub rt_init : Rq → Rq
rt_init rq = record rq { nodes = ListNode.init (rq.head rt_queue) rq.nodes }

unfoldable pub fair_init : Rq → Rq
fair_init rq = record rq { nodes = ListNode.init (rq.head fair_queue) rq.nodes }

unfoldable pub back_init : Rq → Rq
back_init rq = record rq { nodes = ListNode.init (rq.head back_queue) rq.nodes }

unfoldable pub idle_init : Rq → Rq
idle_init rq = record rq { idle = null }

unfoldable pub rt_enqueue : Ptr → Rq → Rq
rt_enqueue t rq = record rq { nodes = ListNode.add_last t (rq.head rt_queue) rq.nodes }

unfoldable pub fair_enqueue : Ptr → Rq → Rq
fair_enqueue t rq = record rq { nodes = ListNode.add_last t (rq.head fair_queue) rq.nodes }

unfoldable pub back_enqueue : Ptr → Rq → Rq
back_enqueue t rq = record rq { nodes = ListNode.add_last t (rq.head back_queue) rq.nodes }

unfoldable pub idle_enqueue : Ptr → Rq → Rq
idle_enqueue t rq = record rq { idle = t }

unfoldable pub rt_dequeue : Ptr → Rq → Rq
rt_dequeue t rq = record rq { nodes = ListNode.delete_node t rq.nodes }

unfoldable pub fair_dequeue : Ptr → Rq → Rq
fair_dequeue t rq = record rq { nodes = ListNode.delete_node t rq.nodes }

unfoldable pub back_dequeue : Ptr → Rq → Rq
back_dequeue t rq = record rq { nodes = ListNode.delete_node t rq.nodes }

-- The first thread of a queue, which moves to the back; `null` from an empty queue.
unfoldable pub rotate : Ptr → Memory → Ptr × Memory
rotate queue m = if ListNode.is_empty queue m then (null, m) else (
  ListNode.get_first queue m,
  ListNode.add_last (ListNode.get_first queue m) queue (ListNode.delete_first queue m),
)

unfoldable pub rt_pick_next : Rq → Ptr × Rq
unfolding rotate
rt_pick_next rq = let (t, m) = rotate (rq.head rt_queue) rq.nodes in (t, record rq { nodes = m })

unfoldable pub fair_pick_next : Rq → Ptr × Rq
unfolding rotate
fair_pick_next rq =
    let (t, m) = rotate (rq.head fair_queue) rq.nodes in (t, record rq { nodes = m })

unfoldable pub back_pick_next : Rq → Ptr × Rq
unfolding rotate
back_pick_next rq =
    let (t, m) = rotate (rq.head back_queue) rq.nodes in (t, record rq { nodes = m })

unfoldable pub idle_pick_next : Rq → Ptr × Rq
idle_pick_next rq = (rq.idle, rq)

-- The tables of function pointers: `thread->class->enqueue(thread, rq)` and so on. The idle class
-- has no `dequeue`.
unfoldable pub class_enqueue : Class → Ptr → Rq → Rq
unfolding rt_enqueue fair_enqueue back_enqueue idle_enqueue
class_enqueue rt = rt_enqueue
class_enqueue fair = fair_enqueue
class_enqueue back = back_enqueue
class_enqueue idle = idle_enqueue

unfoldable pub class_dequeue : Class → Ptr → Rq → Option Rq
unfolding rt_dequeue fair_dequeue back_dequeue
class_dequeue rt t rq = some (rt_dequeue t rq)
class_dequeue fair t rq = some (fair_dequeue t rq)
class_dequeue back t rq = some (back_dequeue t rq)
class_dequeue idle t rq = none

-- `get_sched_class`: the array that `sched_init_rq` fills.
unfoldable pub get_sched_class : ℕ → Option Class
get_sched_class zero = some rt
get_sched_class (suc zero) = some fair
get_sched_class (suc (suc zero)) = some back
get_sched_class (suc (suc (suc zero))) = some idle
get_sched_class (suc (suc (suc (suc n)))) = none

unfoldable pub sched_enqueue_thread : Ptr → Rq → Option Rq
unfolding class_enqueue
sched_enqueue_thread t rq = do
  class ← (rq.thread t).class
  some (class_enqueue class t (set_thread t (record (rq.thread t) { state = running }) rq))

unfoldable pub sched_dequeue_thread : Ptr → Rq → Option Rq
unfolding class_dequeue
sched_dequeue_thread t rq = do class ← (rq.thread t).class; class_dequeue class t rq
