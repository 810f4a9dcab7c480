-- ===== src/Buddy/Zone.antt =====
-- A zone in use: what is held, the order kept in each page, and the count of the bytes in use.
use operating_system_cortex.Prelude.{
  ℕ, suc, ◌+◌, ◌*◌, ◌^◌, ◌≤◌, ◌<◌, ◌≡◌, ap, ◌∙◌, false, ◌==◌, arith, Bool-cases, inl, inr,
}
use operating_system_cortex.Prelude.Sum.{sum, sum-change, sum_mono}
use operating_system_cortex.Prelude.Bits.{◌<<<◌, u32}
use operating_system_cortex.Buddy.{Buddy}
use operating_system_cortex.Buddy.Map.{pow_mono, one_shifted}
use operating_system_cortex.Buddy.Steps.{IsHeld}
use operating_system_cortex.Buddy.Tiling.{Tiling, IsTiling, used_level, pages}

abbrev pub pages_in_use : (top : ℕ) → Tiling → ℕ
pages_in_use top t = sum (2 ^ top) (λ k. pages (used_level t k))

-- The allocator holds the free blocks, `page->order` is the order of each block in use, and `used`
-- counts the bytes of those.
pub record IsZone (top : ℕ) (b : Buddy) (t : Tiling) : Type 0 where
  pub held : IsHeld top b t
  pub order : (k o : ℕ) → used_level t k ≡ suc o → b.order k ≡ o
  pub used : b.used ≡ 4096 * pages_in_use top t

-- The blocks in use are the same, but for that at `k`.
abbrev pub SameUsed : ℕ → Tiling → Tiling → Type 0
SameUsed k t t' = (j : ℕ) → (j == k) ≡ false → used_level t' j ≡ used_level t j

pub SameUsed-trans : (k : ℕ) (t u v : Tiling) → SameUsed k t u → SameUsed k u v → SameUsed k t v
SameUsed-trans k t u v s r j other = r j other ∙ s j other

pub pages_in_use-change :
    (top k : ℕ) (t t' : Tiling)
    → k < 2 ^ top
    → SameUsed k t t'
    → pages_in_use top t' + pages (used_level t k) ≡ pages_in_use top t + pages (used_level t' k)
pages_in_use-change top k t t' within same =
    sum-change (2 ^ top) k (λ p. pages (used_level t p)) (λ p. pages (used_level t' p)) within
      (λ j other. ap pages (same j other))

-- No more pages are in use than there are.
pub pages_in_use-bound : (top : ℕ) (t : Tiling) → IsTiling top t → pages_in_use top t ≤ 2 ^ top
pages_in_use-bound top t r = omega (
  arith,
  r.whole,
  sum_mono (2 ^ top) (λ k. pages (used_level t k)) (λ k. pages (t.level k)) (λ k. less k),
)
  where
    less : (k : ℕ) → pages (used_level t k) ≤ pages (t.level k)
    less k = elim (Bool-cases (t.vacant k)) [
      | inl free ↦ rw free (omega arith)
      | inr in_use ↦ rw in_use (omega arith)
    ]

-- The bytes of a block of an order.
pub block_bytes : (order : ℕ) → order < 20 → u32 ((1 <<< order) * 4096) ≡ 4096 * 2 ^ order
block_bytes order small = omega (arith, one_shifted order, pow_mono order 19 (omega arith))
