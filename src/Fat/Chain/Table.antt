-- ===== src/Fat/Chain/Table.antt =====
-- Following a chain of clusters through the cache is walking through the table on the disk.
use Prim.Native.Nat.{bit_and}
use operating_system_cortex.Prelude.{
  ℕ, zero, suc, ◌≡◌, ◌≢◌, refl, ap, ◌∙◌, true, false, Option, none, some, ◌==◌, if◌then◌else◌,
  Bool-cases, Option-cases, arith, inl, inr,
}
use operating_system_cortex.Prelude.Int.{ℤ, pos, neg, is_neg, is_pos}
use operating_system_cortex.Bytes.{Memory}
use operating_system_cortex.Fat.{Disk, edisk, eeocc, fat_entry_mask, Fat, File, words_of}
use operating_system_cortex.Fat.Chain.{
  cache_fat_page, get_fat_ent_status, ent_page, ent_index, chain_loop, follow_cluster_chain,
}

abbrev pub entry_in : Option Memory → (index : ℕ) → Option ℕ
entry_in none index = none
entry_in (some m) index = some (bit_and (words_of m index) fat_entry_mask)

-- The entry of a cluster on the disk.
unfoldable pub table_entry : Fat → Disk → (clust : ℕ) → Option ℕ
table_entry fat disk clust = entry_in (disk (ent_page fat clust)) (ent_index fat clust)

-- An entry that cannot be read and a bad entry end the walk with an error, every other is the next
-- cluster.
abbrev pub step : Option ℕ → (ℕ → ℤ × Option ℕ) → ℤ × Option ℕ
step none next = (neg edisk, none)
step (some e) next =
    let rest = next e in if is_neg (get_fat_ent_status e) then (neg edisk, none) else rest

-- `left` steps from `clust`, straight on the disk.
unfoldable pub walk : Fat → Disk → (left : ℕ) (err : ℤ) (clust : ℕ) → ℤ × Option ℕ
walk fat disk zero err clust = (err, some clust)
walk fat disk (suc left) err clust =
    step (table_entry fat disk clust) (λ e. walk fat disk left (get_fat_ent_status e) e)

-- The table's cache holds a page of the disk.
abbrev pub Cached : Disk → File → Type 0
Cached disk f =
    (m : Memory) × (disk f.fat_cache_page ≡ some m) × ((i : ℕ) → f.fat_words i ≡ words_of m i)

-- Nothing but the table's cache differs.
abbrev pub SameButTable : File → File → Type 0
SameButTable f g = g ≡ record f { fat_words = g.fat_words; fat_cache_page = g.fat_cache_page }

-- What `cache_fat_page` does.
abbrev Reads : Disk → (p : ℕ) → File → Option Memory → ℤ × File → Type 0
Reads disk p f none r = r ≡ (neg edisk, f)
Reads disk p f (some m) r =
    (r.0 ≡ pos 0)
    × ((i : ℕ) → r.1.fat_words i ≡ words_of m i)
    × Cached disk r.1
    × SameButTable f r.1

some_same : {A : Type 0} (x y : A) → some x ≡ some y → x ≡ y
some_same x y h = cc

cache_fat_page-Reads :
    (disk : Disk) (p : ℕ) (f : File)
    → Cached disk f
    → Reads disk p f (disk p) (cache_fat_page disk p f)
unfolding cache_fat_page
cache_fat_page-Reads disk p f (m, held, same) = elim (Bool-cases (p == f.fat_cache_page)) [
  | inl e ↦
      let at_page : p ≡ f.fat_cache_page = ground arith in
      let there : disk p ≡ some m = ap disk at_page ∙ held in
      rw (there, e) (refl, same, (m, held, same), refl)
  | inr e ↦ elim (Option-cases (disk p)) [
    | inl d ↦ rw (e, d) refl
    | inr d ↦ let (m', d') = d in rw (e, d') (refl, (λ i. refl), (m', d', λ i. refl), refl)
  ]
]

status_neg : (e : ℕ) → is_neg (get_fat_ent_status e) ≡ true → get_fat_ent_status e ≡ neg edisk
unfolding get_fat_ent_status
status_neg e h = ground arith

status-eeocc : (e : ℕ) → is_pos eeocc (get_fat_ent_status e) ≡ false
unfolding get_fat_ent_status
status-eeocc e = ground arith

SameButTable-trans : (f g h : File) → SameButTable f g → SameButTable g h → SameButTable f h
SameButTable-trans f g h a b =
    b ∙ ap (λ (x : File). record x { fat_words = h.fat_words; fat_cache_page = h.fat_cache_page }) a

-- What the loop gives, and what the walk does.
abbrev Agrees : Disk → File → ℤ × Option ℕ × File → ℤ × Option ℕ → Type 0
Agrees disk f r w = (r.0 ≡ w.0) × (r.1 ≡ w.1) × Cached disk r.2 × SameButTable f r.2

chain_loop-walk :
    (fat : Fat) (disk : Disk) (left : ℕ) (err : ℤ) (clust : ℕ) (f : File)
    → Cached disk f
    → Agrees disk f (chain_loop fat disk left err clust f) (walk fat disk left err clust)
unfolding chain_loop walk
chain_loop-walk fat disk zero err clust f c = (refl, refl, c, refl)
chain_loop-walk fat disk (suc left) err clust f c =
    by_page (disk p) refl (cache_fat_page-Reads disk p f c) (λ e c'.
      chain_loop-walk fat disk left (get_fat_ent_status e) e (cache_fat_page disk p f).1 c')
  where
    p : ℕ
    p = ent_page fat clust

    i : ℕ
    i = ent_index fat clust

    g : File
    g = (cache_fat_page disk p f).1

    by_page :
        (o : Option Memory)
        → disk p ≡ o
        → Reads disk p f o (cache_fat_page disk p f)
        → ((e : ℕ)
            → Cached disk g
            → Agrees disk g
                (chain_loop fat disk left (get_fat_ent_status e) e g)
                (walk fat disk left (get_fat_ent_status e) e))
        → Agrees disk f
            (chain_loop fat disk (suc left) err clust f)
            (walk fat disk (suc left) err clust)
    by_page none d r next =
        let there : table_entry fat disk clust ≡ none =
          unfold table_entry in ap (λ (o : Option Memory). entry_in o i) d in
        rw (there, r) (refl, refl, c, refl)
    by_page (some m) d (fine, same, kept, others) next =
        let e : ℕ = bit_and (words_of m i) fat_entry_mask in
        let rest = next e kept in
        let there : table_entry fat disk clust ≡ some e =
          unfold table_entry in ap (λ (o : Option Memory). entry_in o i) d in
        elim (Bool-cases (is_neg (get_fat_ent_status e))) [
          | inl bad ↦ rw (there, fine, same i, bad) (status_neg e bad, refl, kept, others)
          | inr good ↦
              rw (there, fine, same i, good, status-eeocc e)
                (rest.0, rest.1, rest.2, SameButTable-trans f g _ others rest.3)
        ]

-- When the cache of the table holds a page of the disk, `follow_cluster_chain` ends with the result
-- and the cluster of a walk straight on the disk, the cache holds a page of the disk again, and
-- nothing else of the file changes.
pub follow_cluster_chain-walk :
    (fat : Fat) (disk : Disk) (clust count : ℕ) (f : File)
    → Cached disk f
    → let r = follow_cluster_chain fat disk clust count f in
      (r.0 ≡ (walk fat disk count (pos 0) clust).0)
      × (r.1 ≡ (walk fat disk count (pos 0) clust).1)
      × Cached disk r.2
      × SameButTable f r.2
unfolding follow_cluster_chain
follow_cluster_chain-walk fat disk clust count f c =
    chain_loop-walk fat disk count (pos 0) clust f c

chain_loop-ne-eeocc :
    (fat : Fat) (disk : Disk) (left : ℕ) (err : ℤ) (clust : ℕ) (f : File)
    → err ≢ neg eeocc
    → (chain_loop fat disk left err clust f).0 ≢ neg eeocc
unfolding chain_loop
chain_loop-ne-eeocc fat disk zero err clust f h = h
chain_loop-ne-eeocc fat disk (suc left) err clust f h =
    let cached = cache_fat_page disk (ent_page fat clust) f in
    let e = bit_and (cached.1.fat_words (ent_index fat clust)) fat_entry_mask in
    let rest =
      chain_loop-ne-eeocc fat disk left (get_fat_ent_status e) e cached.1 (status_ne_eeocc e) in
    elim (Bool-cases (is_neg cached.0)) [
      | inl n ↦ rw n (cached_ne (ent_page fat clust))
      | inr n ↦ elim (Bool-cases (is_neg (get_fat_ent_status e))) [
        | inl bad ↦ rw (n, bad) (status_ne_eeocc e)
        | inr good ↦ rw (n, good, status-eeocc e) rest
      ]
    ]
  where
    status_ne_eeocc : (e : ℕ) → get_fat_ent_status e ≢ neg eeocc
    status_ne_eeocc e = unfold get_fat_ent_status in ground arith

    cached_ne : (p : ℕ) → (cache_fat_page disk p f).0 ≢ neg eeocc
    cached_ne p =
        unfold cache_fat_page in
        elim (Bool-cases (p == f.fat_cache_page)) [
          | inl e ↦ rw e (λ h. cc)
          | inr e ↦ elim (Option-cases (disk p)) [
            | inl d ↦ rw (e, d) (λ h. cc)
            | inr d ↦ rw (e, d.1) (λ h. cc)
          ]
        ]

-- Whatever stands on the disk, `follow_cluster_chain` never returns `-EEOCC`, the error for a jump
-- past the end of the chain.
pub follow_cluster_chain-ne-eeocc :
    (fat : Fat) (disk : Disk) (clust count : ℕ) (f : File)
    → (follow_cluster_chain fat disk clust count f).0 ≢ neg eeocc
unfolding follow_cluster_chain
follow_cluster_chain-ne-eeocc fat disk clust count f =
    chain_loop-ne-eeocc fat disk count (pos 0) clust f (λ h. cc)
