-- ===== src/Buddy/Steps.antt =====
-- The steps that allocation and release are made of, on the blocks of the zone.
use operating_system_cortex.Prelude.{
  ℕ, suc, ◌+◌, ◌*◌, ◌/◌, ◌%◌, ◌^◌, ◌≤◌, ◌<◌, ◌≡◌, sym, ap, ◌∙◌, true, false, List, ◌∷◌, ltb,
  if◌then◌else◌, arith, Bool-cases, inl, inr,
}
use native.Mathlib.Nat.{pow-suc, one-le-pow, mul-mod_left}
use operating_system_cortex.Prelude.Bits.{◌<<<◌}
use operating_system_cortex.Prelude.Sets.{has}
use Prim.Native.Nat.{bit_xor}
use operating_system_cortex.Buddy.{
  Buddy, toggle_parent, get_parent_bit, add_first, delete_first, delete_node,
}
use operating_system_cortex.Buddy.Map.{Apart, one_shifted, pow_mono}
use operating_system_cortex.Buddy.Pairs.{Bits, pair_bit, toggle_parent-Bits, whole-Bits}
use operating_system_cortex.Buddy.Lists.{Lists, tail-Lists, push-Lists, erase-Lists}
use operating_system_cortex.Buddy.Tiling.{
  Tiling, IsTiling, is_free, mark, halve, join, halves, halve-IsTiling, join-IsTiling,
}
use operating_system_cortex.Buddy.Changes.{
  mark-Change, mark-IsTiling, halve-Change, join-Change, same_parent, both_levels, parents, Buddies,
  buddy_of,
}

-- The allocator holds the free blocks of the tiling, each in the list of its order, and the bits
-- tell which pairs have just one free block.
pub record IsHeld (top : ℕ) (b : Buddy) (t : Tiling) : Type 0 where
  pub orders : b.max_orders ≡ suc top
  pub tiling : IsTiling top t
  pub lists : Lists top b.free_list t
  pub apart : Apart top b.map
  pub bits : Bits top b t

module _ {top : ℕ} {b : Buddy} {t : Tiling} (small : top < 31) (h : IsHeld top b t) where
  -- The block at `k`, of order `o`, lies in the zone.
  pub block_room :
      (o k : ℕ)
      → t.level k ≡ suc o
      → (o ≤ top) × (k % 2 ^ o ≡ 0) × (k < 2 ^ top) × (k + 2 ^ o < 2 ^ 32)
  block_room o k at =
      let block = h.tiling.aligned k o at in
      let fits = pow_mono top 31 (omega arith) in
      (
        block.0,
        block.1,
        omega (arith, block.2, one-le-pow o 2 (omega arith)),
        omega (arith, block.2, fits),
      )

  -- The first block of an order is taken.
  pub take-IsHeld :
      (o k : ℕ) (ks : List ℕ)
      → o ≤ top
      → b.free_list o ≡ k ∷ ks
      → (is_free t o k ≡ true)
        × IsHeld top
            (delete_first o (if ltb o top then toggle_parent k o b else b))
            (mark false k t)
  take-IsHeld o k ks room split =
      let free : is_free t o k ≡ true =
        sym ((h.lists o room).0 k) ∙ ap (has k) split ∙ ground arith in
      let at : t.level k ≡ suc o = ground arith in
      let change = mark-Change t o k false at (ground arith) in
      let place = block_room o k at in
      let tiling = mark-IsTiling false k h.tiling in
      let lists = tail-Lists top o k ks b.free_list t (mark false k t) h.lists room split change in
      (
        free,
        elim (Bool-cases (ltb o top)) [
          | inl lt ↦ rw lt (record {
            orders = h.orders;
            tiling = tiling;
            lists = lists;
            apart = h.apart;
            bits =
                toggle_parent-Bits top o k b t (mark false k t) small (ground arith) place.1 place.2
                  h.apart h.bits change;
          })
          | inr last ↦ rw last (record {
            orders = h.orders;
            tiling = tiling;
            lists = lists;
            apart = h.apart;
            bits = whole-Bits top o k b t (mark false k t) (ground arith) h.bits change;
          })
        ],
      )

  -- A block that was in use is free again: at the end of the merging, where its parent bit is
  -- toggled, and where it is the whole zone.
  pub release-IsHeld :
      (o k : ℕ)
      → t.level k ≡ suc o
      → t.vacant k ≡ false
      → o < top
      → IsHeld top (add_first k o (toggle_parent k o b)) (mark true k t)
  release-IsHeld o k at used lt =
      let change = mark-Change t o k true at used in
      let place = block_room o k at in
      record {
        orders = h.orders;
        tiling = mark-IsTiling true k h.tiling;
        lists =
            push-Lists top o k b.free_list t (mark true k t) h.lists place.0 (ground arith) change;
        apart = h.apart;
        bits =
            toggle_parent-Bits top o k b t (mark true k t) small lt place.1 place.2 h.apart h.bits
              change;
      }

  pub release_whole-IsHeld :
      (o k : ℕ)
      → t.level k ≡ suc o
      → t.vacant k ≡ false
      → o ≡ top
      → IsHeld top (add_first k o b) (mark true k t)
  release_whole-IsHeld o k at used last =
      let change = mark-Change t o k true at used in
      let place = block_room o k at in
      record {
        orders = h.orders;
        tiling = mark-IsTiling true k h.tiling;
        lists =
            push-Lists top o k b.free_list t (mark true k t) h.lists place.0 (ground arith) change;
        apart = h.apart;
        bits = whole-Bits top o k b t (mark true k t) (omega arith) h.bits change;
      }

  -- A block in use is split, and its upper half is free.
  pub halve-IsHeld :
      (c k : ℕ)
      → t.level k ≡ suc (suc c)
      → t.vacant k ≡ false
      → IsHeld top (add_first (k + (1 <<< c)) c (toggle_parent k c b)) (halve c k t)
  halve-IsHeld c k at used =
      let place = block_room (suc c) k at in
      let positive = one-le-pow c 2 (omega arith) in
      let double = pow-suc 2 c in
      let none = h.tiling.apart k (suc c) (k + 2 ^ c) at (omega arith) (omega arith) in
      let change = halve-Change t c k at used none in
      let parent = same_parent c k (omega arith) (omega arith) place.1 in
      rw (one_shifted c, parent)
        (record {
          orders = h.orders;
          tiling = halve-IsTiling c k h.tiling at;
          lists =
              push-Lists top c (k + 2 ^ c) b.free_list t (halve c k t) h.lists (omega arith)
                (ground (arith, none)) change;
          apart = h.apart;
          bits =
              toggle_parent-Bits top c (k + 2 ^ c) b t (halve c k t) small (omega arith)
                (halves c k place.1).1 (omega (arith, (h.tiling.aligned k (suc c) at).2)) h.apart
                h.bits change;
        })

  join_at :
      (o k j low : ℕ)
      → low % 2 ^ suc o ≡ 0
      → t.level k ≡ suc o
      → t.vacant k ≡ false
      → o < top
      → Buddies t o k j low
      → IsHeld top (delete_node j (toggle_parent k o b)) (join o low t)
  join_at o k j low even at used lt buddies =
      let change = join-Change t o k j low at used buddies.0 buddies.1 buddies.2 in
      let place = block_room o k at in
      let other = block_room o j buddies.0 in
      let levels = both_levels t o k j low at buddies.0 buddies.2 in
      let tiling = join-IsTiling o low h.tiling lt even levels.0 levels.1 in
      let parent : get_parent_bit k o ≡ get_parent_bit j o =
        parents o k j low (omega arith) place.3 other.3 even buddies.2 in
      rw parent (record {
        orders = h.orders;
        tiling = tiling;
        lists =
            erase-Lists top o j b.free_list t (join o low t) h.lists place.0 (ground arith) change;
        apart = h.apart;
        bits =
            toggle_parent-Bits top o j b t (join o low t) small lt other.1 other.2 h.apart h.bits
              change;
      })

  -- A block in use is merged with its free buddy.
  pub join-IsHeld :
      (o k : ℕ)
      → t.level k ≡ suc o
      → t.vacant k ≡ false
      → o < top
      → pair_bit t o (k / 2 ^ suc o) ≡ 1
      → Buddies t o k (bit_xor k (1 <<< o)) (k / 2 ^ suc o * 2 ^ suc o)
        × IsHeld top
            (delete_node (bit_xor k (1 <<< o)) (toggle_parent k o b))
            (join o (k / 2 ^ suc o * 2 ^ suc o) t)
  join-IsHeld o k at used lt one =
      let place = block_room o k at in
      let buddies = buddy_of t o k place.1 used one in
      let low = k / 2 ^ suc o * 2 ^ suc o in
      (
        buddies,
        join_at o k (bit_xor k (1 <<< o)) low (mul-mod_left (k / 2 ^ suc o) (2 ^ suc o)) at used lt
            buddies,
      )
