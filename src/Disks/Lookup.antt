-- ===== src/Disks/Lookup.antt =====
-- fs/disk.c and fs/fs.c: the partition that a path names.
use operating_system_cortex.Prelude.{
  ℕ, zero, suc, ◌+◌, ◌≤◌, ◌<◌, ◌≡◌, ◌≢◌, refl, ap, sym, ◌∙◌, ◌⊎◌, inl, inr, true, not, ◌&&◌, Option,
  none, some, List, [], ◌∷◌, ◌++◌, ◌==◌, if◌then◌else◌, length, arith, Bool-cases,
}
use operating_system_cortex.Prelude.Bits.{u8}
use operating_system_cortex.Bytes.{Memory}
use operating_system_cortex.Disks.{
  Partition, SysDisk, cmp_loop, partition_name_cmp, name_to_partition, name_length,
  get_part_from_path,
}

-- The characters of a name stand at `p`: none of them is the NULL or a slash.
abbrev pub NameAt : Memory → (p : ℕ) → List ℕ → Type 0
NameAt m p [] = Unit
NameAt m p (c ∷ cs) = (m p ≡ c) × (0 < c) × (c ≢ 0x2F) × NameAt m (suc p) cs

-- None of the partitions has this name.
abbrev pub Unused : List ℕ → List Partition → Type 0
Unused name [] = Unit
Unused name (part ∷ parts) = (part.name ≢ name) × Unused name parts

cmp_loop_refl :
    (cs : List ℕ) (p : ℕ) (m : Memory) → NameAt m p cs → cmp_loop (length cs) cs p m ≡ true
unfolding cmp_loop
cmp_loop_refl [] p m h = refl
cmp_loop_refl (c ∷ cs) p m h =
    let rest = cmp_loop_refl cs (suc p) m h.3 in ground (arith, rest, h.0)

cmp_loop-same :
    (ds cs : List ℕ) (p : ℕ) (m : Memory)
    → NameAt m p cs
    → cmp_loop (length cs) ds p m ≡ true
    → ds ≡ cs
unfolding cmp_loop
cmp_loop-same [] [] p m h e = refl
cmp_loop-same (d ∷ ds) [] p m h e = ground (arith, e)
cmp_loop-same [] (c ∷ cs) p m h e = ground (arith, e)
cmp_loop-same (d ∷ ds) (c ∷ cs) p m h e = elim (Bool-cases (d == m p)) [
  | inl s ↦
      let d=c : d ≡ c = ground (arith, s, h.0) in
      let rest : cmp_loop (length cs) ds (suc p) m ≡ true = rw s at e in
      rw (d=c) (ap (λ (r : List ℕ). c ∷ r) (cmp_loop-same ds cs (suc p) m h.3 rest))
  | inr s ↦ absurd (ground (arith, rw s at e))
]

name_length-NameAt :
    (cs : List ℕ) (left p : ℕ) (m : Memory)
    → NameAt m p cs
    → length cs ≤ left
    → (m (p + length cs) ≡ 0) ⊎ (m (p + length cs) ≡ 0x2F)
    → name_length left p m ≡ length cs
unfolding name_length
name_length-NameAt [] zero p m h fits stop = refl
name_length-NameAt [] (suc left) p m h fits stop =
    let here : p + 0 ≡ p = omega arith in
    let at_end : (m p ≡ 0) ⊎ (m p ≡ 0x2F) = rw here at stop in ground (arith, at_end)
name_length-NameAt (c ∷ cs) zero p m h fits stop = absurd (omega arith)
name_length-NameAt (c ∷ cs) (suc left) p m h fits stop =
    let e : suc p + length cs ≡ p + suc (length cs) = omega arith in
    let rest = name_length-NameAt cs left (suc p) m h.3 (omega arith) (rw e stop) in
    let goes : (not (m p == 0) && not (m p == 0x2F)) ≡ true = ground (arith, h.0, h.1, h.2) in
    rw goes (ap suc rest)

-- What `name_to_partition` has to answer: the first partition of this name, or NULL.
abbrev pub Found : List ℕ → List Partition → Option Partition → Type 0
Found name parts none = Unused name parts
Found name parts (some part) =
    (before after : List Partition) × (parts ≡ before ++ part ∷ after)
    × (part.name ≡ name)
    × Unused name before

Found-behind :
    (name : List ℕ) (part : Partition) (parts : List Partition) (r : Option Partition)
    → part.name ≢ name
    → Found name parts r
    → Found name (part ∷ parts) r
Found-behind name part parts none ne f = (ne, f)
Found-behind name part parts (some q) ne (before, after, e, named, none_before) =
    (part ∷ before, after, ap (λ (ps : List Partition). part ∷ ps) e, named, (ne, none_before))

partition_name_cmp-cmp_loop :
    (part_name : List ℕ) (p cnt : ℕ) (m : Memory)
    → cnt ≤ 255
    → partition_name_cmp part_name p cnt m ≡ cmp_loop cnt part_name p m
unfolding partition_name_cmp
partition_name_cmp-cmp_loop part_name p cnt m h =
    let e : u8 (u8 (cnt + 1) + 0xFF) ≡ cnt = omega arith in rw e refl

name_to_partition-Found :
    (name : List ℕ) (p : ℕ) (m : Memory) (parts : List Partition)
    → NameAt m p name
    → length name ≤ 255
    → Found name parts (name_to_partition p (length name) m parts)
unfolding name_to_partition
name_to_partition-Found name p m [] h fits = tt
name_to_partition-Found name p m (part ∷ parts) h fits =
    let e = partition_name_cmp-cmp_loop part.name p (length name) m fits in
    elim (Bool-cases (partition_name_cmp part.name p (length name) m)) [
      | inl hits ↦
          let same = cmp_loop-same part.name name p m h (sym e ∙ hits) in
          rw hits ([], parts, refl, same, tt)
      | inr misses ↦
          let other : part.name ≢ name = λ same.
            let hit : cmp_loop (length name) part.name p m ≡ true =
              rw same (cmp_loop_refl name p m h) in
            ground (arith, hit, e, misses) in
          rw misses (
            Found-behind name part parts (name_to_partition p (length name) m parts) other
              (name_to_partition-Found name p m parts h fits))
    ]

-- A path's first part, behind a slash if there is one, of at most 255 characters: the answer is
-- where it ends, and the first partition of this name, or NULL when there is none.
pub get_part_from_path-Found :
    (name : List ℕ) (path : ℕ) (m : Memory) (s : SysDisk)
    → (start : ℕ) → start ≡ (if m path == 0x2F then path + 1 else path)
    → NameAt m start name
    → length name ≤ 255
    → (m (start + length name) ≡ 0) ⊎ (m (start + length name) ≡ 0x2F)
    → ((get_part_from_path path m s).0 ≡ start + length name)
      × Found name s.partitions (get_part_from_path path m s).1
unfolding get_part_from_path
get_part_from_path-Found name path m s start here h fits stop =
    let len = name_length-NameAt name 0xFF start m h fits stop in
    rw (← here, len) (refl, name_to_partition-Found name start m s.partitions h fits)
