-- ===== src/Fat/Mount/Masks.antt =====
-- The masks that `build_fat_struct` makes are those of its orders.
use Prim.Native.Nat.{bit_or}
use native.Mathlib.Nat.{pow-suc, one-le-pow}
use operating_system_cortex.Prelude.{
  ℕ, zero, suc, ◌+◌, ◌-◌, ◌*◌, ◌^◌, ◌≤◌, ◌<◌, ◌≡◌, refl, ap, ◌∙◌, true, ltb, arith,
}
use operating_system_cortex.Prelude.Bits.{◌<<<◌, u32, sub32, bit_or-below}
use operating_system_cortex.Prelude.Outcome.{ok}
use operating_system_cortex.Buddy.Map.{pow_mono}
use operating_system_cortex.Bytes.{Memory, read_le16, read_le32}
use operating_system_cortex.Pid.{ctz}
use operating_system_cortex.Fat.{Fat}
use operating_system_cortex.Fat.Mount.{mask_loop, fat_order_to_mask, build_fat_struct}

one_more : (k : ℕ) → k < 32 → bit_or (u32 ((2 ^ k - 1) <<< 1)) 1 ≡ 2 ^ suc k - 1
one_more k h =
    let fits = pow_mono k 31 (omega arith) in
    let some_left = one-le-pow k 2 (omega arith) in
    let same : u32 ((2 ^ k - 1) <<< 1) ≡ 2 * (2 ^ k - 1) = omega (arith, fits, some_left) in
    ap (λ (t : ℕ). bit_or t 1) same
    ∙ bit_or-below 1 (2 * (2 ^ k - 1)) 1 (omega arith) (omega arith)
    ∙ omega (arith, pow-suc 2 k, some_left)

mask_loop_lem : (n k : ℕ) → k + n ≤ 32 → mask_loop n (2 ^ k - 1) ≡ 2 ^ (k + n) - 1
unfolding mask_loop
mask_loop_lem zero k h = let e : k + 0 ≡ k = omega arith in rw e refl
mask_loop_lem (suc n) k h =
    let e : k + suc n ≡ suc k + n = omega arith in
    rw (one_more k (omega arith), e) (mask_loop_lem n (suc k) (omega arith))

fat_order_to_mask_lem : (order : ℕ) → order < 32 → fat_order_to_mask order ≡ ok (2 ^ order - 1)
unfolding fat_order_to_mask
fat_order_to_mask_lem order h =
    let small : ltb order 32 ≡ true = ground arith in
    let nothing : ◌≡◌ {A = ℕ} 0 (2 ^ 0 - 1) = omega arith in
    let e : 0 + order ≡ order = omega arith in
    rw small (
      ap ok (
        ap (λ (t : ℕ). mask_loop order t) nothing
        ∙ mask_loop_lem order 0 (omega arith)
        ∙ ap (λ (t : ℕ). 2 ^ t - 1) e))

-- Dividing by a size is a shift by its order, and the remainder a mask.
pub record IsFat (fat : Fat) : Type 0 where
  pub page : fat.page_mask ≡ 2 ^ fat.page_order - 1
  pub clust : fat.clust_mask ≡ 2 ^ fat.clust_order - 1
  pub ent : fat.fat_ent_mask ≡ 2 ^ fat.fat_ent_order - 1
  pub words : fat.page_order ≡ fat.fat_ent_order + 2

-- From a first page whose sector size is a multiple of 4, with a sector size and a cluster size that
-- are not zero, `build_fat_struct` makes a structure in which every mask is that of its order, and
-- the table's pages have a fourth as many entries as a page has bytes.
pub build_fat_struct-IsFat :
    (start_lba : ℕ) (bpb : Memory)
    → 2 ≤ ctz (read_le16 11 bpb)
    → ctz (read_le16 11 bpb) < 32
    → ctz (bpb 13) < 32
    → (fat : Fat) × (build_fat_struct start_lba bpb ≡ ok fat) × IsFat fat
unfolding build_fat_struct
build_fat_struct-IsFat start_lba bpb words small small_clust =
    let less : sub32 (ctz (read_le16 11 bpb)) 2 ≡ ctz (read_le16 11 bpb) - 2 =
      omega (arith, words, small) in
    let page = fat_order_to_mask_lem (ctz (read_le16 11 bpb)) small in
    let clust = fat_order_to_mask_lem (ctz (bpb 13)) small_clust in
    let ent = fat_order_to_mask_lem (ctz (read_le16 11 bpb) - 2) (omega (arith, small)) in
    let fat_start = u32 (start_lba + read_le16 14 bpb) in
    let page_order = ctz (read_le16 11 bpb) in
    let clust_order = ctz (bpb 13) in
    (
      record {
        page_order = page_order;
        page_mask = 2 ^ page_order - 1;
        clust_order = clust_order;
        clust_mask = 2 ^ clust_order - 1;
        fat_ent_order = page_order - 2;
        fat_ent_mask = 2 ^ (page_order - 2) - 1;
        root_clust_num = read_le32 44 bpb;
        data_start = u32 (fat_start + u32 (bpb 16 * read_le32 36 bpb));
        fat_start = fat_start;
        bpb_start = start_lba;
        info_start = u32 (start_lba + read_le16 48 bpb);
        fats = bpb 16;
      },
      rw (page, clust, less, ent) refl,
      record { page = refl; clust = refl; ent = refl; words = omega (arith, words) },
    )
