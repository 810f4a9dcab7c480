-- ===== src/Sched/Tick.antt =====
-- `core_sched`: the whole of a tick or of a reschedule.
use operating_system_cortex.Prelude.{
  ℕ, suc, ◌+◌, ◌≤◌, ◌<◌, ◌≡◌, ◌≢◌, refl, Bool, false, not, ◌&&◌, Option, some, List, [], ◌∷◌, ◌++◌,
  append-nil, arith, ltb, ◌==◌, if◌then◌else◌, length, Bool-cases, List-cases, inl, inr,
}
use mathlib.Core.Path.{fun_ext, subst}
use operating_system_cortex.Prelude.Bits.{u64}
use operating_system_cortex.ListNode.{Ptr, null, Memory}
use operating_system_cortex.ListNode.Family.{put-there}
use operating_system_cortex.Sched.{
  sched_slice, Queue, rt_queue, fair_queue, back_queue, sleep_list, Thread, Rq,
}
use operating_system_cortex.Sched.Core.{account, wake_due, core_sched}
use operating_system_cortex.Sched.Rotation.{turn}
use operating_system_cortex.Sched.Pick.{
  Queues, Queue-discrete, Represents, choose, after_choice, core_pick_next-choose,
}
use operating_system_cortex.Sched.Sleepers.{
  wake_of, From, before, from, first_wake, From-from, Sleeps,
}
use operating_system_cortex.Sched.Wake.{Queued, bound_for, enqueue_sleeping_threads-wakes}

-- The state of the scheduler between two calls: four disjoint queues, a sleep queue in order whose
-- threads have a run queue to go to, and an idle thread.
pub record IsReady (rq : Rq) (items : Queues) (owner : Ptr → Option Queue) : Type 0 where
  pub represents : Represents rq items owner
  pub sleeps : Sleeps rq (items sleep_list)
  pub queued : Queued rq.thread (items sleep_list)
  pub has_idle : rq.idle ≢ null

From-shift : (f : Ptr → ℕ) (a b : ℕ) (xs : List Ptr) → a ≤ b → From f b xs → From f a xs
From-shift f a b [] h s = tt
From-shift f a b (x ∷ xs) h s = (omega arith, s.1)

after_choice-sleep : (items : Queues) → after_choice items sleep_list ≡ items sleep_list
after_choice-sleep items = elim (List-cases (items rt_queue)) [
  | inr (x, xs, e) ↦
      rw e (put-there Queue-discrete items rt_queue sleep_list (turn (x ∷ xs)) (ground arith))
  | inl e ↦ elim (List-cases (items fair_queue)) [
    | inr (x, xs, f) ↦
        rw (e, f)
          (put-there Queue-discrete items fair_queue sleep_list (turn (x ∷ xs)) (ground arith))
    | inl f ↦ elim (List-cases (items back_queue)) [
      | inr (x, xs, g) ↦
          rw (e, f, g)
            (put-there Queue-discrete items back_queue sleep_list (turn (x ∷ xs)) (ground arith))
      | inl g ↦ rw (e, f, g) refl
    ]
  ]
]

Queued-same :
    (th th' : Ptr → Thread) (xs : List Ptr)
    → ((p : Ptr) → (th' p).class ≡ (th p).class)
    → Queued th xs
    → Queued th' xs
Queued-same th th' [] same k = tt
Queued-same th th' (x ∷ xs) same k = ((k.0.0, rw same k.0.1), Queued-same th th' xs same k.1)

Queued-from :
    (th : Ptr → Thread) (f : Ptr → ℕ) (w : ℕ) (xs : List Ptr)
    → Queued th xs
    → Queued th (from f w xs)
Queued-from th f w [] k = tt
Queued-from th f w (x ∷ xs) k = elim (Bool-cases (ltb (f x) w)) [
  | inl e ↦ rw e (Queued-from th f w xs k.1)
  | inr e ↦ rw e k
]

-- Charging the running thread moves no list and no alarm.
account-IsReady :
    {rq : Rq} {items : Queues} {owner : Ptr → Option Queue} (timer : ℕ) (reschedule : Bool)
    → IsReady rq items owner
    → IsReady (account timer reschedule rq) items owner
unfolding account
account-IsReady {rq} {items} timer reschedule v = record {
  represents = record { holds = v.represents.holds; null_free = v.represents.null_free };
  sleeps = record {
    sorted = subst (λ f. From f 1 (items sleep_list)) alarms v.sleeps.sorted;
    next_wake =
        subst (λ f. rq.tick_to_wake ≡ first_wake f (items sleep_list)) alarms v.sleeps.next_wake;
  };
  queued =
      Queued-same rq.thread (account timer reschedule rq).thread (items sleep_list)
        (λ p. ground arith) v.queued;
  has_idle = v.has_idle;
}
  where
    alarms : wake_of rq ≡ wake_of (account timer reschedule rq)
    alarms = fun_ext (λ p. ground arith)

-- Which threads wake: those whose tick has come, if `tick_to_wake` has passed; none otherwise.
abbrev alarm : Rq → ℕ
alarm rq = if ltb rq.tick_to_wake rq.tick && not (rq.tick_to_wake == 0) then suc rq.tick else 0

-- The queues behind the wake-up.
abbrev pub Woken : Rq → Queues → Queues → Type 0
Woken rq items woken =
    (woken sleep_list ≡ from (wake_of rq) (alarm rq) (items sleep_list))
    × ((q : Queue)
        → q ≢ sleep_list
        → woken q
          ≡ items q ++ bound_for rq.thread q (before (wake_of rq) (alarm rq) (items sleep_list)))

before-zero : (f : Ptr → ℕ) (xs : List Ptr) → before f 0 xs ≡ []
before-zero f [] = refl
before-zero f (x ∷ xs) = ground arith

from-zero : (f : Ptr → ℕ) (xs : List Ptr) → from f 0 xs ≡ xs
from-zero f [] = refl
from-zero f (x ∷ xs) = ground arith

-- After the wake-up no thread sleeps whose tick has passed.
wake_due-IsReady :
    {rq : Rq} {items : Queues} {owner : Ptr → Option Queue} (fuel : ℕ)
    → IsReady rq items owner
    → length (items sleep_list) < fuel
    → (m : Memory) × (next : ℕ) × (items' : Queues) × (owner' : Ptr → Option Queue) × (wake_due fuel
          rq
        ≡ some (record rq { nodes = m; tick_to_wake = next }))
      × IsReady (record rq { nodes = m; tick_to_wake = next }) items' owner'
      × From (wake_of rq) rq.tick (items' sleep_list)
      × Woken rq items items'
unfolding wake_due
wake_due-IsReady {rq} {items} {owner} fuel v enough =
    elim (Bool-cases (ltb rq.tick_to_wake rq.tick && not (rq.tick_to_wake == 0))) [
      | inr stay ↦ (
        rq.nodes,
        rq.tick_to_wake,
        items,
        owner,
        rw stay refl,
        v,
        late (items sleep_list) v.sleeps.sorted v.sleeps.next_wake stay,
        (
          rw (stay, from-zero (wake_of rq) (items sleep_list)) refl,
          λ q ne. rw (stay, before-zero (wake_of rq) (items sleep_list), append-nil) refl,
        ),
      )
      | inl due ↦
          let (m, items', owner', runs, holds, asleep, awake) =
            enqueue_sleeping_threads-wakes fuel v.represents v.sleeps v.queued enough in
          let woke = From-from (wake_of rq) (suc rq.tick) 1 (items sleep_list) v.sleeps.sorted in
          (
            m,
            first_wake (wake_of rq) (items' sleep_list),
            items',
            owner',
            rw due runs,
            record {
              represents = record { holds = holds.holds; null_free = holds.null_free };
              sleeps = record {
                sorted = rw asleep (
                    From-shift (wake_of rq) 1 (suc rq.tick)
                      (from (wake_of rq) (suc rq.tick) (items sleep_list)) (omega arith) woke);
                next_wake = refl;
              };
              queued =
                  rw asleep
                    (Queued-from rq.thread (wake_of rq) (suc rq.tick) (items sleep_list) v.queued);
              has_idle = v.has_idle;
            },
            rw asleep (
                From-shift (wake_of rq) rq.tick (suc rq.tick)
                  (from (wake_of rq) (suc rq.tick) (items sleep_list)) (omega arith) woke),
            (rw due asleep, λ q ne. rw due (awake q ne)),
          )
    ]
  where
    late :
        (xs : List Ptr)
        → From (wake_of rq) 1 xs
        → rq.tick_to_wake ≡ first_wake (wake_of rq) xs
        → (ltb rq.tick_to_wake rq.tick && not (rq.tick_to_wake == 0)) ≡ false
        → From (wake_of rq) rq.tick xs
    late [] s e stay = tt
    late (x ∷ xs) s e stay = ground arith

-- What a call of `core_sched` leaves: the clock and the running thread's account have gone on, and
-- no thread sleeps past its tick.
pub record Scheduled (rq rq' : Rq) (elapsed : ℕ) (items' : Queues) : Type 0 where
  pub clock : rq'.tick ≡ u64 (rq.tick + elapsed)
  pub same_curr : rq'.curr ≡ rq.curr
  pub charged : (rq'.thread rq.curr).runtime ≡ u64 ((rq.thread rq.curr).runtime + elapsed)
  pub on_time : From (wake_of rq') rq'.tick (items' sleep_list)

-- From a state at rest, with more rounds than sleepers, `core_sched` ends without a panic in a
-- state at rest. The clock and the account of the running thread go on; if `tick_to_wake` has then
-- passed, the threads that are due move to the back of their run queues. It sets `next` to the
-- front of the first queue that then holds a thread (to the idle thread if none does), and turns
-- that queue; if the thread runs already, `next` is left alone. No thread sleeps past its tick.
pub core_sched-IsReady :
    {rq : Rq} {items : Queues} {owner : Ptr → Option Queue} (fuel timer : ℕ) (reschedule : Bool)
    → IsReady rq items owner
    → length (items sleep_list) < fuel
    → (rq' : Rq) × (woken : Queues) × (owner' : Ptr → Option Queue) × (core_sched fuel timer
          reschedule rq
        ≡ some rq')
      × Woken (account timer reschedule rq) items woken
      × IsReady rq' (after_choice woken) owner'
      × Scheduled rq rq' (if reschedule then timer else sched_slice) (after_choice woken)
      × (rq'.next ≡ (if choose woken rq.idle == rq.curr then rq.next else choose woken rq.idle))
unfolding core_sched account
core_sched-IsReady {rq} {items} fuel timer reschedule v enough =
    let rq1 = account timer reschedule rq in
    let (m, next, woken, owner', runs, ready, on_time, moved) =
      wake_due-IsReady fuel (account-IsReady timer reschedule v) enough in
    let rq2 = record rq1 { nodes = m; tick_to_wake = next } in
    let (m', picks, holds) = core_pick_next-choose ready.represents ready.has_idle in
    let new = choose woken rq.idle in
    let same = after_choice-sleep woken in
    let after = if new == rq.curr then rq.next else new in
    (
      record rq2 { nodes = m'; next = after },
      woken,
      owner',
      rw (runs, picks)
          (elim (Bool-cases (new == rq.curr)) [ inl e ↦ rw e refl | inr e ↦ rw e refl ]),
      moved,
      record {
        represents = record { holds = holds.holds; null_free = holds.null_free };
        sleeps = record {
          sorted = rw same ready.sleeps.sorted;
          next_wake = rw same ready.sleeps.next_wake;
        };
        queued = rw same ready.queued;
        has_idle = v.has_idle;
      },
      record { clock = refl; same_curr = refl; charged = ground arith; on_time = rw same on_time },
      refl,
    )
