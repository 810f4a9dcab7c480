-- ===== src/Prelude/Sets.antt =====
-- Membership and distinctness of numbers in a list, by recursion, so that the tactics read them.
use mathlib.Core.Bool.{or_assoc, false≢true}
use Prim.Native.Nat.{ℕ}
use mathlib.Core.Path.{◌≡◌, refl}
use mathlib.Core.Bool.{Bool, true, false, ◌||◌}
use mathlib.Core.List.{List, [], ◌∷◌, ◌++◌}
use native.Mathlib.Omega.{arith}
use operating_system_cortex.Prelude.Tests.{◌==◌, if◌then◌else◌}

abbrev pub has : ℕ → List ℕ → Bool
has a [] = false
has a (x ∷ xs) = (a == x) || has a xs

infix 40 ◌∈◌ ◌∉◌
abbrev pub ◌∈◌ : ℕ → List ℕ → Type 0
a ∈ xs = has a xs ≡ true

abbrev pub ◌∉◌ : ℕ → List ℕ → Type 0
a ∉ xs = has a xs ≡ false

-- No number stands twice.
abbrev pub Distinct : List ℕ → Type 0
Distinct [] = Unit
Distinct (x ∷ xs) = (x ∉ xs) × Distinct xs

abbrev pub All {ℓ κ} : {A : Type ℓ} → (A → Type κ) → List A → Type κ
All P [] = Unit
All P (x ∷ xs) = P x × All P xs

-- The list without the first `a`.
abbrev pub erase : ℕ → List ℕ → List ℕ
erase a [] = []
erase a (x ∷ xs) = if a == x then xs else x ∷ erase a xs

pub has-append : (a : ℕ) (xs ys : List ℕ) → has a (xs ++ ys) ≡ (has a xs || has a ys)
has-append a [] ys = refl
has-append a (x ∷ xs) ys = rw (has-append a xs ys, or_assoc)

pub has-erase : (a b : ℕ) (xs : List ℕ) → has b xs ≡ false → has b (erase a xs) ≡ false
has-erase a b [] h = refl
has-erase a b (x ∷ xs) h = ground (arith, has-erase a b xs)

pub has-erase_ne : (a b : ℕ) (xs : List ℕ) → (b == a) ≡ false → has b (erase a xs) ≡ has b xs
has-erase_ne a b [] h = refl
has-erase_ne a b (x ∷ xs) h = ground (arith, has-erase_ne a b xs)

pub has-erase_self : (a : ℕ) (xs : List ℕ) → Distinct xs → a ∉ erase a xs
has-erase_self a [] d = refl
has-erase_self a (x ∷ xs) d = ground (arith, has-erase_self a xs d.1)

pub erase_of_not_has : (a : ℕ) (xs : List ℕ) → a ∉ xs → erase a xs ≡ xs
erase_of_not_has a [] h = refl
erase_of_not_has a (x ∷ xs) h = ground (arith, erase_of_not_has a xs)

pub Distinct-erase : (a : ℕ) (xs : List ℕ) → Distinct xs → Distinct (erase a xs)
Distinct-erase a [] d = tt
Distinct-erase a (x ∷ xs) d = ground (arith, has-erase a x xs d.0, Distinct-erase a xs d.1)

pub Distinct-snoc : (a : ℕ) (xs : List ℕ) → Distinct xs → a ∉ xs → Distinct (xs ++ a ∷ [])
Distinct-snoc a [] d h = (refl, tt)
Distinct-snoc a (x ∷ xs) d h = ground (arith, has-append x xs (a ∷ []), Distinct-snoc a xs d.1)

-- The two halves of a distinct list are distinct, and have nothing in common.
pub Distinct-split :
    (xs ys : List ℕ) → Distinct (xs ++ ys) → Distinct xs × Distinct ys × ((p : ℕ) → p ∈ xs → p ∉ ys)
Distinct-split [] ys d = (tt, d, λ p i. absurd (false≢true i))
Distinct-split (x ∷ xs) ys d =
    let (dx, dy, apart) = Distinct-split xs ys d.1 in
    (ground (arith, has-append x xs ys), dy, λ p i. ground (arith, has-append x xs ys, apart p))

pub Distinct-insert :
    (n : ℕ) (xs ys : List ℕ) → Distinct (xs ++ ys) → n ∉ xs ++ ys → Distinct (xs ++ n ∷ ys)
Distinct-insert n [] ys d h = (h, d)
Distinct-insert n (x ∷ xs) ys d h =
    ground (arith, has-append x xs ys, has-append x xs (n ∷ ys), Distinct-insert n xs ys d.1)

pub Distinct-remove :
    (y : ℕ) (xs ys : List ℕ) → Distinct (xs ++ y ∷ ys) → Distinct (xs ++ ys) × (y ∉ xs ++ ys)
Distinct-remove y [] ys d = (d.1, d.0)
Distinct-remove y (x ∷ xs) ys d =
    ground (arith, has-append x xs ys, has-append x xs (y ∷ ys), Distinct-remove y xs ys d.1)
