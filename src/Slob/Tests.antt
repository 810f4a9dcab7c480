-- ===== src/Slob/Tests.antt =====
-- Runs of the allocator on a zone of two pages from 8192 on, with its own node at 4096.
use operating_system_cortex.Prelude.{
  ℕ, ◌+◌, ◌-◌, ◌<◌, ◌≡◌, ◌≢◌, refl, ap, ◌⊎◌, inr, ◌||◌, Option, none, some, List, [], ◌∷◌, ◌==◌,
  if◌then◌else◌, arith,
}
use operating_system_cortex.Prelude.Bits.{sub32}
use operating_system_cortex.Prelude.Outcome.{ok}
use operating_system_cortex.Slob.{Slob, in_use, block_size, slob_init, slob_alloc, slob_free}
use operating_system_cortex.Slob.Blocks.{NoStart, inside, covers}
use operating_system_cortex.Slob.Insert.{SameAt}
use operating_system_cortex.Slob.Search.{first_fit}
use operating_system_cortex.Slob.Alloc.{IsSlob, slob_free_lem}
use operating_system_cortex.Slob.Alloc.Whole.{Allocated, slob_alloc_lem, slob_free-slob_alloc}
use operating_system_cortex.Slob.Init.{set_up, slob_init-IsSlob, set_up-IsSlob}

abbrev blank : Slob
blank = record {
  start_addr = 0;
  end_addr = 0;
  used = 0;
  total = 0;
  first_node = 0;
  last_node = 0;
  size = λ q. 0;
  next = λ q. 0;
}

slob_init-IsSlob_example :
    (s' : Slob) × (slob_init 8192 2 4096 blank ≡ (1, s'))
    × IsSlob s' ((8192, s'.last_node - 4096) ∷ [])
    × (s'.last_node + 64 ≡ 16384)
    × (s'.used ≡ 0)
    × (8192 + (s'.last_node - 4096) ≡ s'.last_node + (8192 - 4096))
slob_init-IsSlob_example =
    slob_init-IsSlob 8192 2 4096 blank refl (omega arith) (omega arith) (omega arith) (omega arith)
      (omega arith)

abbrev fresh : Slob
fresh = set_up 8192 16320 4096 16384 blank

abbrev one_block : List (ℕ × ℕ)
one_block = (8192, 12224) ∷ []

fresh-IsSlob : IsSlob fresh one_block
fresh-IsSlob =
    set_up-IsSlob 8192 16320 4096 16384 blank (omega arith) (omega arith) (omega arith)
      (omega arith) (omega arith)

need_of_100 : block_size 100 ≡ 112
unfolding block_size
need_of_100 = refl

room : (b j : ℕ) → first_fit (block_size 100) one_block ≡ some (b, j) → b + block_size 100 < 16320
room b j h =
    let e : some (8192, 12224) ≡ some (b, j) = rw need_of_100 at h in
    let at_start : ◌≡◌ {A = ℕ} 8192 b = ap (pair_start b) e in omega (arith, need_of_100, at_start)
  where
    pair_start : ℕ → Option (ℕ × ℕ) → ℕ
    pair_start b none = b
    pair_start b (some r) = r.0

slob_alloc_lem_example :
    (first_fit (block_size 100) one_block ≡ none) × (slob_alloc 5 100 fresh ≡ some (0, fresh))
    ⊎ Allocated 5 100 fresh one_block
slob_alloc_lem_example =
    slob_alloc_lem 5 100 fresh one_block fresh-IsSlob (omega arith) (omega arith) (omega arith) room

fits_100 : first_fit (block_size 100) one_block ≡ some (8192, 12224)
fits_100 = rw need_of_100 refl

slob_free-slob_alloc_example :
    (ptr : ℕ) × (s' : Slob) × (s2 : Slob) × (bs2 : List (ℕ × ℕ)) × (slob_alloc 5 100 fresh
      ≡ some (ptr, s'))
    × (slob_free 5 ptr s' ≡ some (ok s2))
    × IsSlob s2 bs2
    × ((x : ℕ) → covers bs2 x ≡ covers one_block x)
    × (s2.used ≡ 0)
slob_free-slob_alloc_example =
    slob_free-slob_alloc 5 100 fresh one_block 8192 12224 fresh-IsSlob (omega arith) (omega arith)
      (omega arith) fits_100 (omega (arith, need_of_100)) (omega arith)

-- 512 bytes are free at 8192, and 64 are in use at 9000.
abbrev partly : Slob
partly = record {
  start_addr = 8192;
  end_addr = 16384;
  used = 64;
  total = 576;
  first_node = 4096;
  last_node = 16320;
  size = λ q. if q == 8192 then 512 else if q == 9000 then 64 else 0;
  next =
      λ q. if q == 4096 then 8192 else if q == 8192 then 16320 else if q == 9000 then in_use else 0;
}

partly-IsSlob : IsSlob partly ((8192, 512) ∷ [])
partly-IsSlob = record {
  linked = (refl, refl, (refl, refl, tt));
  ordered = (omega arith, omega arith, omega arith, (omega arith, omega arith, tt, tt));
  last_next = refl;
  last_size = refl;
  real = omega arith;
}

slob_free_lem_example :
    (s' : Slob) × (bs' : List (ℕ × ℕ)) × (slob_free 5 9008 partly ≡ some (ok s'))
    × IsSlob s' bs'
    × ((x : ℕ) → covers bs' x ≡ (covers ((8192, 512) ∷ []) x || inside x 9000 64))
    × (s'.used ≡ sub32 64 64)
    × ((q : ℕ) → q ≢ 9000 → q ≢ 4096 → NoStart q ((8192, 512) ∷ []) → SameAt q partly s')
slob_free_lem_example =
    slob_free_lem 5 9000 64 partly ((8192, 512) ∷ []) partly-IsSlob refl refl (omega arith)
      (omega arith) (omega arith) (omega arith) (omega arith) (inr (omega arith, omega arith), tt)
      (omega arith)
