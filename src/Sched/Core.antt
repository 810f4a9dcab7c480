-- ===== src/Sched/Core.antt =====
-- kernel/sched.c: waking, picking the next thread, the tick, and putting threads to sleep.
use operating_system_cortex.Prelude.{
  ℕ, zero, suc, ◌+◌, ◌*◌, Bool, true, not, ◌&&◌, ◌||◌, Option, none, some, ◌==◌, ltb, leb,
  if◌then◌else◌,
}
use operating_system_cortex.Prelude.Bits.{u32, u64}
use operating_system_cortex.ListNode
use operating_system_cortex.ListNode.{Ptr, null, Memory}
use operating_system_cortex.Sched.{
  sched_slice, sleep, sleep_list, Rq, set_thread, ◌>>=◌, rt_init, fair_init, back_init, idle_init,
  rt_pick_next, fair_pick_next, back_pick_next, idle_pick_next, class_enqueue, class_dequeue,
}

-- The loop of `enqueue_sleeping_threads`, at most `fuel` rounds; `none` also if they are used up.
unfoldable pub wake_loop : (fuel : ℕ) → Rq → Option Rq
unfolding class_enqueue
wake_loop zero rq = none
wake_loop (suc fuel) rq =
    let list = rq.head sleep_list in
    let t = rq.nodes.next list in
    let woken = (rq.thread t).class >>= λ class.
    wake_loop fuel
      (class_enqueue class t (record rq { nodes = ListNode.delete_first list rq.nodes })) in
    if t == list || ltb rq.tick (rq.thread t).tick_to_wake then some rq else woken

unfoldable pub enqueue_sleeping_threads : (fuel : ℕ) → Rq → Option Rq
unfolding wake_loop
enqueue_sleeping_threads fuel rq = do
  rq' ← wake_loop fuel rq
  let list = rq'.head sleep_list
  let t = rq'.nodes.next list
  some (record rq' { tick_to_wake = if t == list then 0 else (rq'.thread t).tick_to_wake })

-- The classes from `class` on; a NULL thread asks the next one, and the end is a panic.
unfoldable pub core_pick_next : Rq → Option (Ptr × Rq)
unfolding rt_pick_next fair_pick_next back_pick_next idle_pick_next
core_pick_next rq =
    let (t, rq1) = rt_pick_next rq in
    if not (t == null)
    then some (t, rq1)
    else let (t, rq2) = fair_pick_next rq1 in
      if not (t == null)
      then some (t, rq2)
      else let (t, rq3) = back_pick_next rq2 in
        if not (t == null)
        then some (t, rq3)
        else let (t, rq4) = idle_pick_next rq3 in if not (t == null) then some (t, rq4) else none

-- The clock and the running thread's account go on by the time since the last call, which is
-- `timer` on a reschedule: what `cpu_timer_get_value_us` reads.
unfoldable pub account : (timer : ℕ) (reschedule : Bool) → Rq → Rq
account timer reschedule rq =
    let runtime = if reschedule then timer else sched_slice in
    let curr = rq.thread rq.curr in
    record (set_thread rq.curr (record curr { runtime = u64 (curr.runtime + runtime) }) rq) {
      tick = u64 (rq.tick + runtime);
    }

-- `if (tick > tick_to_wake && tick_to_wake) enqueue_sleeping_threads(rq);`
unfoldable pub wake_due : (fuel : ℕ) → Rq → Option Rq
wake_due fuel rq =
    if ltb rq.tick_to_wake rq.tick && not (rq.tick_to_wake == 0)
    then enqueue_sleeping_threads fuel rq
    else some rq

unfoldable pub core_sched : (fuel timer : ℕ) (reschedule : Bool) → Rq → Option Rq
core_sched fuel timer reschedule rq = do
  rq2 ← wake_due fuel (account timer reschedule rq)
  (new, rq3) ← core_pick_next rq2
  some (if new == rq3.curr then rq3 else record rq3 { next = new })

unfoldable pub sched_add_thread : Ptr → Rq → Rq
sched_add_thread t rq = record rq {
  thread_nodes = ListNode.add_first t rq.thread_list rq.thread_nodes;
}

unfoldable pub sched_init_rq : Rq → Rq
unfolding rt_init fair_init back_init idle_init
sched_init_rq rq = idle_init (
    back_init (
      fair_init (
        rt_init (record rq {
          thread_nodes = ListNode.init rq.thread_list rq.thread_nodes;
          nodes = ListNode.init (rq.head sleep_list) rq.nodes;
          curr = null;
          next = null;
          lazy_fpu = null;
          sched_enable = 1;
          tick = 0;
          tick_to_wake = 0;
        }))))

unfoldable pub sched_set_lazy_fpu_user : Ptr → Rq → Rq
sched_set_lazy_fpu_user t rq = record rq { lazy_fpu = t }

unfoldable pub sched_get_lazy_fpu_user : Rq → Ptr
sched_get_lazy_fpu_user rq = rq.lazy_fpu

unfoldable pub get_kernel_tick : Rq → ℕ
get_kernel_tick rq = rq.tick

unfoldable pub get_curr_thread : Rq → Ptr
get_curr_thread rq = rq.curr

-- The walk of `add_sleep_list` from `node` on, with `fuel` rounds: the node to stand in front of,
-- and the head itself if all threads wake earlier.
unfoldable pub sleep_place : (fuel : ℕ) (wake : ℕ) (node : Ptr) → Rq → Option Ptr
sleep_place zero wake node rq = none
sleep_place (suc fuel) wake node rq =
    let rest = sleep_place fuel wake (rq.nodes.next node) rq in
    if node == rq.head sleep_list
    then some node
    else if leb wake (rq.thread node).tick_to_wake
    then some node
    else rest

-- The state and the next tick to wake, before the thread is linked in.
unfoldable pub mark_asleep : Ptr → Rq → Rq
mark_asleep t rq =
    let wake = (rq.thread t).tick_to_wake in
    record (set_thread t (record (rq.thread t) { state = sleep }) rq) {
      tick_to_wake =
          if ltb wake rq.tick_to_wake || rq.tick_to_wake == 0 then wake else rq.tick_to_wake;
    }

-- `list_add_before` at the place that the walk found, and `list_add_last` behind all threads.
unfoldable pub link_sleeper : (t place list : Ptr) → Memory → Memory
link_sleeper t place list m =
    if place == list then ListNode.add_last t list m else ListNode.add_before t place m

unfoldable pub add_sleep_list : (fuel : ℕ) → Ptr → Rq → Option Rq
add_sleep_list fuel t rq = do
  let rq1 = mark_asleep t rq
  let list = rq1.head sleep_list
  place ← sleep_place fuel (rq.thread t).tick_to_wake (rq1.nodes.next list) rq1
  some (record rq1 { nodes = link_sleeper t place list rq1.nodes })

unfoldable pub sched_disable : Rq → ℕ × Rq
sched_disable rq = (rq.sched_enable, record rq { sched_enable = 0 })

unfoldable pub sched_enable : ℕ → Rq → Rq
sched_enable i rq = record rq { sched_enable = i }

-- The product is taken on `u32`, before it is widened.
unfoldable pub sched_thread_sleep : (fuel timer ms : ℕ) → Rq → Option Rq
unfolding get_curr_thread get_kernel_tick add_sleep_list core_sched
sched_thread_sleep fuel timer ms rq = do
  let curr = get_curr_thread rq
  let tick = get_kernel_tick rq
  let rq1 =
      set_thread curr (record (rq.thread curr) { tick_to_wake = u64 (tick + u32 (ms * 1000)) }) rq
  class ← (rq1.thread curr).class
  rq2 ← class_dequeue class curr rq1
  rq3 ← add_sleep_list fuel curr rq2
  core_sched fuel timer true rq3
