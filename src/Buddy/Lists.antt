-- ===== src/Buddy/Lists.antt =====
-- The free lists hold the free blocks: what becomes of that when a block changes.
use operating_system_cortex.Prelude.{
  ℕ, zero, suc, ◌≤◌, ◌<◌, ◌≡◌, refl, sym, ap, ◌∙◌, Bool, true, false, not, List, ◌∷◌, tail, ◌==◌,
  if◌then◌else◌, arith, Bool-cases, inl, inr,
}
use operating_system_cortex.Prelude.Sets.{
  has, ◌∈◌, ◌∉◌, erase, Distinct, has-erase_ne, has-erase_self, erase_of_not_has, Distinct-erase,
}
use operating_system_cortex.Buddy.{Buddy, linked}
use operating_system_cortex.Buddy.Pairs.{Change}
use operating_system_cortex.Buddy.Tiling.{Tiling, is_free}

abbrev pub Lists : (top : ℕ) → (ℕ → List ℕ) → Tiling → Type 0
Lists top f t = (o : ℕ) → o ≤ top → ((k : ℕ) → has k (f o) ≡ is_free t o k) × Distinct (f o)

dropped :
    (j k : ℕ) (ks : List ℕ) (free : Bool)
    → has j (k ∷ ks) ≡ free
    → k ∉ ks
    → has j ks ≡ (if j == k then not free else free)
dropped j k ks free at once = elim (Bool-cases (j == k)) [
  | inl here ↦ let same : j ≡ k = ground arith in rw (here, ← at, same, once) (ground arith)
  | inr other ↦ rw (other, ← at) (ground arith)
]

pushed :
    (j k : ℕ) (ks : List ℕ) (free : Bool)
    → has j ks ≡ free
    → k ∉ ks
    → has j (k ∷ ks) ≡ (if j == k then not free else free)
pushed j k ks free at once = elim (Bool-cases (j == k)) [
  | inl here ↦ let same : j ≡ k = ground arith in rw (here, ← at, same, once) (ground arith)
  | inr other ↦ rw (other, ← at) refl
]

erased :
    (j k : ℕ) (ks : List ℕ) (free : Bool)
    → has j ks ≡ free
    → k ∈ ks
    → Distinct ks
    → has j (erase k ks) ≡ (if j == k then not free else free)
erased j k ks free at once d = elim (Bool-cases (j == k)) [
  | inl here ↦
      let same : j ≡ k = ground arith in rw (here, ← at, same, once) (has-erase_self k ks d)
  | inr other ↦ rw (other, ← at) (has-erase_ne k j ks other)
]

pub tail-Lists :
    (top o k : ℕ) (ks : List ℕ) (f : ℕ → List ℕ) (t t' : Tiling)
    → Lists top f t
    → o ≤ top
    → f o ≡ k ∷ ks
    → Change o k t t'
    → Lists top (λ p. if p == o then tail (f p) else f p) t'
tail-Lists top o k ks f t t' h room split change p in_range = elim (Bool-cases (p == o)) [
  | inl here ↦
      let same : p ≡ o = ground arith in
      let self : (o == o) ≡ true = ground arith in
      let once = rw split at (h o room).1 in
      let held : (j : ℕ) → has j (k ∷ ks) ≡ is_free t o j =
        λ j. ap (has j) (sym split) ∙ (h o room).0 j in
      rw (same, self, split)
        ((λ j. rw (change o j, self) (dropped j k ks (is_free t o j) (held j) once.0)), once.1)
  | inr other ↦ rw other ((λ j. (h p in_range).0 j ∙ rw (change p j, other) refl), (h p in_range).1)
]

pub push-Lists :
    (top o k : ℕ) (f : ℕ → List ℕ) (t t' : Tiling)
    → Lists top f t
    → o ≤ top
    → is_free t o k ≡ false
    → Change o k t t'
    → Lists top (λ p. if p == o then k ∷ f p else f p) t'
push-Lists top o k f t t' h room was change p in_range = elim (Bool-cases (p == o)) [
  | inl here ↦
      let same : p ≡ o = ground arith in
      let self : (o == o) ≡ true = ground arith in
      rw (same, self)
        (
          (λ j.
              rw (change o j, self)
                (pushed j k (f o) (is_free t o j) ((h o room).0 j) ((h o room).0 k ∙ was))),
          ((h o room).0 k ∙ was, (h o room).1),
        )
  | inr other ↦ rw other ((λ j. (h p in_range).0 j ∙ rw (change p j, other) refl), (h p in_range).1)
]

pub erase-Lists :
    (top o k : ℕ) (f : ℕ → List ℕ) (t t' : Tiling)
    → Lists top f t
    → o ≤ top
    → is_free t o k ≡ true
    → Change o k t t'
    → Lists top (λ p. erase k (f p)) t'
erase-Lists top o k f t t' h room was change p in_range = elim (Bool-cases (p == o)) [
  | inl here ↦
      let same : p ≡ o = ground arith in
      let self : (o == o) ≡ true = ground arith in
      rw same (
        (λ j.
            rw (change o j, self)
              (erased j k (f o) (is_free t o j) ((h o room).0 j) ((h o room).0 k ∙ was)
                (h o room).1)),
        Distinct-erase k (f o) (h o room).1,
      )
  | inr other ↦
      let elsewhere : has k (f p) ≡ false = (h p in_range).0 k ∙ ground arith in
      rw (erase_of_not_has k (f p) elsewhere)
        ((λ j. (h p in_range).0 j ∙ rw (change p j, other) refl), (h p in_range).1)
]

pub linked-Lists :
    (top o k n : ℕ) (b : Buddy) (t : Tiling)
    → Lists top b.free_list t
    → o ≤ top
    → is_free t o k ≡ true
    → o < n
    → linked n k b ≡ true
linked-Lists top o k zero b t h room free lt = absurd (omega arith)
linked-Lists top o k (suc n) b t h room free lt = elim (Bool-cases (o == n)) [
  | inl here ↦ let same : n ≡ o = ground arith in rw (same, (h o room).0 k ∙ free) refl
  | inr other ↦ rw (linked-Lists top o k n b t h room free (ground arith)) (ground arith)
]
