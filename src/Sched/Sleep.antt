-- ===== src/Sched/Sleep.antt =====
-- `add_sleep_list`: the thread is put into the sleep queue at its place.
use mathlib.Core.Path.{fun_ext, subst}
use operating_system_cortex.Prelude.{
  ℕ, zero, suc, ◌<◌, ◌≡◌, ◌≢◌, refl, inl, inr, ap, true, false, Option, none, some, List, [], ◌∷◌,
  ◌++◌, arith, ◌==◌, length, Bool-cases, append-nil,
}
use operating_system_cortex.Prelude.Sets.{has, ◌∈◌, ◌∉◌, has-append}
use operating_system_cortex.ListNode.{Ptr, null, Memory}
use operating_system_cortex.ListNode.Ring.{Chain, IsRing, SameOutside}
use operating_system_cortex.ListNode.Insert.{add_before-IsRing, add_last-IsRing}
use operating_system_cortex.ListNode.Walk.{first_or}
use operating_system_cortex.ListNode.Family.{put, Holds-change, own}
use operating_system_cortex.Sched.{Queue, sleep_list, Rq, sleep}
use operating_system_cortex.Sched.Core.{sleep_place, add_sleep_list, mark_asleep, link_sleeper}
use operating_system_cortex.Sched.Pick.{Queues, Queue-discrete, Represents}
use operating_system_cortex.Sched.Sleepers.{
  wake_of, before, from, before-append-from, From-insert, Sleeps, place_in, first_wake-place_in,
}

-- The walk stops at the first thread that wakes at `w` or later, or at the head.
sleep_place-from :
    (rq : Rq) (w fuel : ℕ) (a : Ptr) (xs : List Ptr)
    → Chain rq.nodes a xs (rq.head sleep_list)
    → rq.head sleep_list ∉ xs
    → length xs < fuel
    → sleep_place fuel w (rq.nodes.next a) rq
      ≡ some (first_or (rq.head sleep_list) (from (wake_of rq) w xs))
unfolding sleep_place
sleep_place-from rq w zero a xs c out enough = absurd (omega arith)
sleep_place-from rq w (suc fuel) a [] c out enough = ground arith
sleep_place-from rq w (suc fuel) a (x ∷ xs) c out enough =
    ground (arith, sleep_place-from rq w fuel x xs c.1)

link-IsRing :
    {m : Memory} {list : Ptr} (t : Ptr) (xs ys : List Ptr)
    → IsRing m list (xs ++ ys)
    → t ∉ list ∷ (xs ++ ys)
    → IsRing (link_sleeper t (first_or list ys) list m) list (xs ++ t ∷ ys)
      × SameOutside (t ∷ list ∷ (xs ++ ys)) m (link_sleeper t (first_or list ys) list m)
unfolding link_sleeper
link-IsRing {m} {list} t xs [] r out =
    let self : (list == list) ≡ true = ground arith in
    let plain : IsRing m list xs = rw append-nil at r in
    let away : t ∉ list ∷ xs = rw append-nil at out in
    rw (self, append-nil) (add_last-IsRing t xs plain away)
link-IsRing {m} {list} t xs (y ∷ ys) r out =
    let other : (y == list) ≡ false = ground (arith, has-append list xs (y ∷ ys), r.distinct) in
    rw other (add_before-IsRing t y xs ys r out)

module _ (t : Ptr) (rq : Rq) where
  wake_of-mark_asleep : wake_of (mark_asleep t rq) ≡ wake_of rq
  unfolding mark_asleep
  wake_of-mark_asleep = fun_ext λ p. ground arith

  -- The run queue after `add_sleep_list`.
  asleep : List Ptr → Rq
  asleep xs = record (mark_asleep t rq) {
    nodes =
        link_sleeper t (first_or (rq.head sleep_list) (from (wake_of rq) (wake_of rq t) xs))
          (rq.head sleep_list) rq.nodes;
  }

  wake_of-asleep : (xs : List Ptr) → wake_of (asleep xs) ≡ wake_of rq
  unfolding asleep
  wake_of-asleep xs = wake_of-mark_asleep

  add_sleep_list-asleep :
      (xs : List Ptr) (fuel : ℕ)
      → IsRing rq.nodes (rq.head sleep_list) xs
      → length xs < fuel
      → add_sleep_list fuel t rq ≡ some (asleep xs)
  unfolding add_sleep_list asleep sleep_place mark_asleep link_sleeper
  add_sleep_list-asleep xs fuel r enough =
      rw
        (
          sleep_place-from (mark_asleep t rq) (wake_of rq t) fuel (rq.head sleep_list) xs
              (unfold mark_asleep in r.chain) (unfold mark_asleep in r.distinct.0) enough,
          wake_of-mark_asleep,
        )
        (unfold mark_asleep in refl)

-- `add_sleep_list` puts a thread that is in no list behind the sleepers that wake before it, marks
-- it as asleep, and keeps the queue sorted and `tick_to_wake` at the first; no other queue changes.
pub add_sleep_list-place_in :
    {rq : Rq} {items : Queues} {owner : Ptr → Option Queue} (fuel : ℕ) (t : Ptr)
    → Represents rq items owner
    → Sleeps rq (items sleep_list)
    → owner t ≡ none
    → t ≢ null
    → 0 < wake_of rq t
    → length (items sleep_list) < fuel
    → let ys = place_in (wake_of rq) t (items sleep_list) in
      (rq' : Rq) × (add_sleep_list fuel t rq ≡ some rq')
      × Represents rq' (put Queue-discrete items sleep_list ys) (own owner t (some sleep_list))
      × Sleeps rq' ys
      × ((rq'.thread t).state ≡ sleep)
add_sleep_list-place_in {rq} {items} {owner} fuel t v s free real positive enough = (
  asleep t rq xs,
  add_sleep_list-asleep t rq xs fuel (v.holds.ring sleep_list) enough,
  unfold asleep mark_asleep in
      record {
        holds =
            Holds-change Queue-discrete sleep_list t (place_in f t xs) (some sleep_list) v.holds
              linked.0 linked.1 (inl free) knows;
        null_free = ground (arith, v.null_free);
      },
  record {
    sorted = rw (wake_of-asleep t rq xs) (From-insert f t 1 xs positive s.sorted);
    next_wake = rw (wake_of-asleep t rq xs) (
        unfold asleep mark_asleep in
        first_wake-place_in f t xs rq.tick_to_wake positive s.sorted s.next_wake);
  },
  unfold asleep mark_asleep in ground arith,
)
  where
    f : Ptr → ℕ
    f = wake_of rq

    xs : List Ptr
    xs = items sleep_list

    whole : before f (f t) xs ++ from f (f t) xs ≡ xs
    whole = before-append-from f (f t) xs

    away : t ∉ rq.head sleep_list ∷ xs
    away = elim (Bool-cases (has t (rq.head sleep_list ∷ xs))) [
      | inl e ↦ cc (v.holds.owned sleep_list t e)
      | inr e ↦ e
    ]

    linked :
        let g =
          link_sleeper t
            (first_or (rq.head sleep_list) (from f (f t) xs))
            (rq.head sleep_list)
            rq.nodes in
        IsRing g (rq.head sleep_list) (place_in f t xs)
        × SameOutside (t ∷ rq.head sleep_list ∷ xs) rq.nodes g
    linked =
        subst
          (λ zs.
            let g =
              link_sleeper t (first_or (rq.head sleep_list) (from f (f t) xs)) (rq.head sleep_list)
                rq.nodes in
            IsRing g (rq.head sleep_list) (place_in f t xs)
            × SameOutside (t ∷ rq.head sleep_list ∷ zs) rq.nodes g)
          whole
          (link-IsRing t (before f (f t) xs) (from f (f t) xs) (rw whole (v.holds.ring sleep_list))
            (rw whole away))

    knows :
        (p : Ptr)
        → p ∈ rq.head sleep_list ∷ place_in f t xs
        → own owner t (some sleep_list) p ≡ some sleep_list
    knows p i = ground (
      arith,
      v.holds.owned sleep_list p,
      has-append p (before f (f t) xs) (t ∷ from f (f t) xs),
      has-append p (before f (f t) xs) (from f (f t) xs),
      ap (has p) whole,
    )
