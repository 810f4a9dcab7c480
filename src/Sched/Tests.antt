-- ===== src/Sched/Tests.antt =====
-- Runs of the scheduler on a small state: one fair thread runs, two threads sleep.
use operating_system_cortex.Prelude.{
  ◌≡◌, refl, false, Option, none, some, [], ◌∷◌, arith, ◌==◌, if◌then◌else◌,
}
use operating_system_cortex.Prelude.Sets.{has, ◌∈◌}
use operating_system_cortex.ListNode.{Ptr, Memory}
use operating_system_cortex.ListNode.Ring.{IsRing}
use operating_system_cortex.ListNode.Family.{own, put}
use operating_system_cortex.Sched.{
  rt, fair, running, sleep, Queue, rt_queue, fair_queue, back_queue, sleep_list, Thread, Rq,
}
use operating_system_cortex.Sched.Core.{
  account, add_sleep_list, core_pick_next, core_sched, enqueue_sleeping_threads,
}
use operating_system_cortex.Sched.Pick.{
  Queues, Queue-discrete, Represents, choose, after_choice, core_pick_next-choose,
}
use operating_system_cortex.Sched.Rotation.{picks, picks_round_robin}
use operating_system_cortex.Sched.Sleep.{add_sleep_list-place_in}
use operating_system_cortex.Sched.Sleepers.{wake_of, first_wake, Sleeps}
use operating_system_cortex.Sched.Tick.{IsReady, Scheduled, Woken, core_sched-IsReady}
use operating_system_cortex.Sched.Wake.{Awakened, enqueue_sleeping_threads-wakes}

abbrev heads : Queue → Ptr
heads rt_queue = 10
heads fair_queue = 20
heads back_queue = 30
heads sleep_list = 40

-- Thread 5 and 8 are fair; 6 is real-time and due at 100, 7 is fair and due at 5000.
abbrev threads : Queues
threads rt_queue = []
threads fair_queue = 5 ∷ 8 ∷ []
threads back_queue = []
threads sleep_list = 6 ∷ 7 ∷ []

abbrev links : Memory
links = record {
  next = λ p.
      if p == 20
      then 5
      else if p == 5
      then 8
      else if p == 8
      then 20
      else if p == 40
      then 6
      else if p == 6
      then 7
      else if p == 7
      then 40
      else p;
  prev = λ p.
      if p == 20
      then 8
      else if p == 5
      then 20
      else if p == 8
      then 5
      else if p == 40
      then 7
      else if p == 6
      then 40
      else if p == 7
      then 6
      else p;
}

abbrev owners : Ptr → Option Queue
owners p =
    if p == 10
    then some rt_queue
    else if p == 30
    then some back_queue
    else if has p (20 ∷ 5 ∷ 8 ∷ [])
    then some fair_queue
    else if has p (40 ∷ 6 ∷ 7 ∷ [])
    then some sleep_list
    else none

abbrev thread_table : Ptr → Thread
thread_table p =
    if p == 6
    then record { tick_to_wake = 100; runtime = 0; state = sleep; class = some rt }
    else if p == 7
    then record { tick_to_wake = 5000; runtime = 0; state = sleep; class = some fair }
    else record { tick_to_wake = 200; runtime = 0; state = running; class = some fair }

abbrev small_rq : Rq
small_rq = record {
  next = 5;
  curr = 5;
  lazy_fpu = 0;
  idle = 3;
  tick = 50;
  tick_to_wake = 100;
  sched_enable = 1;
  head = heads;
  thread_list = 1;
  nodes = links;
  thread_nodes = links;
  thread = thread_table;
}

rings : (q : Queue) → IsRing links (heads q) (threads q)
rings rt_queue = record { chain = ground arith; distinct = ground arith }
rings fair_queue = record { chain = ground arith; distinct = ground arith }
rings back_queue = record { chain = ground arith; distinct = ground arith }
rings sleep_list = record { chain = ground arith; distinct = ground arith }

knows : (q : Queue) (p : Ptr) → p ∈ heads q ∷ threads q → owners p ≡ some q
knows rt_queue p i = ground arith
knows fair_queue p i = ground arith
knows back_queue p i = ground arith
knows sleep_list p i = ground arith

small_rq-Represents : Represents small_rq threads owners
small_rq-Represents = record { holds = record { ring = rings; owned = knows }; null_free = refl }

small_rq-Sleeps : Sleeps small_rq (threads sleep_list)
small_rq-Sleeps = record { sorted = ground arith; next_wake = refl }

small_rq-IsReady : IsReady small_rq threads owners
small_rq-IsReady = record {
  represents = small_rq-Represents;
  sleeps = small_rq-Sleeps;
  queued = ((rt_queue, refl), ((fair_queue, refl), tt));
  has_idle = λ e. omega arith;
}

core_sched-IsReady_example :
    (rq' : Rq) × (woken : Queues) × (owner' : Ptr → Option Queue) × (core_sched 3 0 false small_rq
      ≡ some rq')
    × Woken (account 0 false small_rq) threads woken
    × IsReady rq' (after_choice woken) owner'
    × Scheduled small_rq rq' 1000 (after_choice woken)
    × (rq'.next ≡ (if choose woken 3 == 5 then 5 else choose woken 3))
core_sched-IsReady_example = core_sched-IsReady 3 0 false small_rq-IsReady (omega arith)

abbrev late_rq : Rq
late_rq = record small_rq { tick = 1050 }

late_rq-Represents : Represents late_rq threads owners
late_rq-Represents = record { holds = record { ring = rings; owned = knows }; null_free = refl }

enqueue_sleeping_threads-wakes_example :
    let rq = late_rq in
    (m : Memory) × (items' : Queues) × (owner' : Ptr → Option Queue) × (enqueue_sleeping_threads 3
        rq
      ≡ some (record rq { nodes = m; tick_to_wake = first_wake (wake_of rq) (items' sleep_list) }))
    × Represents (record rq { nodes = m }) items' owner'
    × (items' sleep_list ≡ 7 ∷ [])
    × Awakened rq threads items'
enqueue_sleeping_threads-wakes_example =
    enqueue_sleeping_threads-wakes 3 late_rq-Represents
      (record { sorted = ground arith; next_wake = refl })
      ((rt_queue, refl), ((fair_queue, refl), tt)) (omega arith)

-- Thread 9 is to wake at 200: between the two sleepers.
add_sleep_list-place_in_example :
    (rq' : Rq) × (add_sleep_list 3 9 small_rq ≡ some rq')
    × Represents rq'
        (put Queue-discrete threads sleep_list (6 ∷ 9 ∷ 7 ∷ []))
        (own owners 9 (some sleep_list))
    × Sleeps rq' (6 ∷ 9 ∷ 7 ∷ [])
    × ((rq'.thread 9).state ≡ sleep)
add_sleep_list-place_in_example =
    add_sleep_list-place_in 3 9 small_rq-Represents small_rq-Sleeps refl (λ e. omega arith)
      (omega arith) (omega arith)

core_pick_next-choose_example :
    (m : Memory) × (core_pick_next small_rq ≡ some (5, record small_rq { nodes = m }))
    × Represents (record small_rq { nodes = m }) (after_choice threads) owners
core_pick_next-choose_example = core_pick_next-choose small_rq-Represents (λ e. omega arith)

picks_round_robin_example :
    ((picks 2 20 links).0 ≡ 5 ∷ 8 ∷ []) × IsRing (picks 2 20 links).1 20 (5 ∷ 8 ∷ [])
picks_round_robin_example = picks_round_robin (5 ∷ 8 ∷ []) (rings fair_queue)
