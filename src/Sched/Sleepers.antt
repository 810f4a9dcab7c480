-- ===== src/Sched/Sleepers.antt =====
-- The sleep queue as a list: sorted by the tick at which each thread is to wake.
use operating_system_cortex.Prelude.{
  ℕ, ◌≤◌, ◌<◌, ◌≡◌, refl, List, [], ◌∷◌, ◌++◌, arith, ltb, ◌==◌, ◌||◌, if◌then◌else◌,
}
use operating_system_cortex.ListNode.{Ptr}
use operating_system_cortex.Sched.{Rq}

abbrev pub wake_of : Rq → Ptr → ℕ
wake_of rq p = (rq.thread p).tick_to_wake

module _ (f : Ptr → ℕ) where
  -- Ascending, and from `b` on.
  abbrev pub From : ℕ → List Ptr → Type 0
  From b [] = Unit
  From b (x ∷ xs) = (b ≤ f x) × From (f x) xs

  -- The threads of a sorted list before the tick `w`, and the others.
  abbrev pub before : ℕ → List Ptr → List Ptr
  before w [] = []
  before w (x ∷ xs) = if ltb (f x) w then x ∷ before w xs else []

  abbrev pub from : ℕ → List Ptr → List Ptr
  from w [] = []
  from w (x ∷ xs) = if ltb (f x) w then from w xs else x ∷ xs

  -- The tick of the first, and 0 if there is none.
  abbrev pub first_wake : List Ptr → ℕ
  first_wake [] = 0
  first_wake (x ∷ xs) = f x

  pub before-append-from : (w : ℕ) (xs : List Ptr) → before w xs ++ from w xs ≡ xs
  before-append-from w [] = refl
  before-append-from w (x ∷ xs) = ground (arith, before-append-from w xs)

  -- A thread put between the two parts keeps the order.
  pub From-insert :
      (t : Ptr) (b : ℕ) (xs : List Ptr)
      → b ≤ f t
      → From b xs
      → From b (before (f t) xs ++ t ∷ from (f t) xs)
  From-insert t b [] h s = (h, tt)
  From-insert t b (x ∷ xs) h s = ground (arith, From-insert t (f x) xs)

  -- All that stand from `w` on wake at `w` or later.
  pub From-from : (w b : ℕ) (xs : List Ptr) → From b xs → From w (from w xs)
  From-from w b [] s = tt
  From-from w b (x ∷ xs) s = ground (arith, From-from w (f x) xs)

-- What holds of the sleep queue `xs` of `rq` at rest: it is sorted, no thread wakes at tick 0 (which
-- would read as "no thread"), and `rq->time.tick_to_wake` is the tick of the first.
pub record Sleeps (rq : Rq) (xs : List Ptr) : Type 0 where
  pub sorted : From (wake_of rq) 1 xs
  pub next_wake : rq.tick_to_wake ≡ first_wake (wake_of rq) xs

-- The sleep queue with `t` at its place.
abbrev pub place_in : (Ptr → ℕ) → Ptr → List Ptr → List Ptr
place_in f t xs = before f (f t) xs ++ t ∷ from f (f t) xs

pub first_wake-place_in :
    (f : Ptr → ℕ) (t : Ptr) (xs : List Ptr) (next : ℕ)
    → 0 < f t
    → From f 1 xs
    → next ≡ first_wake f xs
    → (if ltb (f t) next || next == 0 then f t else next) ≡ first_wake f (place_in f t xs)
first_wake-place_in f t [] next h s e = ground arith
first_wake-place_in f t (x ∷ xs) next h s e = ground arith
