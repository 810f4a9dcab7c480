-- ===== src/Net/Arp/Reply.antt =====
-- `arp_add_new_mapping`: an address that was asked for becomes known.
use mathlib.Core.Path.{subst}
use operating_system_cortex.Prelude.{
  ℕ, ◌<◌, ◌≡◌, ◌≢◌, refl, sym, ap, ◌∙◌, ◌⊎◌, inl, inr, Bool, true, false, ◌&&◌, some, List, [], ◌∷◌,
  ◌==◌, if◌then◌else◌, arith, length, Bool-cases,
}
use operating_system_cortex.Prelude.Outcome.{ok, panic}
use operating_system_cortex.Prelude.Sets.{◌∈◌, ◌∉◌, Distinct}
use operating_system_cortex.ListNode.{Ptr}
use operating_system_cortex.ListNode.Search.{first_such, iterate-first_such}
use operating_system_cortex.Net.Arp.{Entry, Table, set_entry, arp_add_new_mapping}
use operating_system_cortex.Net.Arp.Mapping.{
  Mapping, unknown, asked, known, status, mapping, mapping-same, IsMap, Holds,
}

status-ne-unknown : (e : Entry) → status e ≢ unknown
status-ne-unknown e h = elim (Bool-cases (e.waiting == 0)) [
  | inl w ↦ known-ne (rw w at h)
  | inr w ↦ asked-ne (rw w at h)
]
  where
    known-ne : known e.mac ≡ unknown → ⊥
    known-ne h = cc

    asked-ne : asked ≡ unknown → ⊥
    asked-ne h = cc

-- The test of the loop.
abbrev waits : (Ptr → Entry) → ℕ → Ptr → Bool
waits entry ip p = (entry p).ip == ip && (entry p).waiting == 1

has-behind : (p x : Ptr) (xs : List Ptr) → p ∈ xs → p ∈ x ∷ xs
has-behind p x xs i = ground arith

-- What the search says by `node` of an address with this mapping.
abbrev Found : (Ptr → Entry) → (list ip : ℕ) → List Ptr → Mapping → Ptr → Type 0
Found entry list ip xs k node =
    ((node == list) ≡ true) × (k ≢ asked)
    ⊎ ((node == list) ≡ false) × (node ∈ xs) × (k ≡ asked) × ((entry node).ip ≡ ip)

Found-behind :
    (entry : Ptr → Entry) (list ip : ℕ) (x : Ptr) (xs : List Ptr) (k : Mapping) (node : Ptr)
    → Found entry list ip xs k node
    → Found entry list ip (x ∷ xs) k node
Found-behind entry list ip x xs k node (inl r) = inl r
Found-behind entry list ip x xs k node (inr r) = inr (r.0, has-behind node x xs r.1, r.2, r.3)

-- The search finds the node of an address that is asked for, and nothing else.
waits-mapping :
    (entry : Ptr → Entry) (list ip : ℕ) (xs : List Ptr)
    → IsMap entry xs
    → list ∉ xs
    → Found entry list ip xs (mapping entry xs ip) (first_such (waits entry ip) list xs)
waits-mapping entry list ip [] v out = inl (ground arith, λ h. cc)
waits-mapping entry list ip (x ∷ xs) v out =
    let rest = waits-mapping entry list ip xs v.2 (ground arith) in
    let other : (x == list) ≡ false = ground arith in
    let self : (x == x) ≡ true = ground arith in
    elim (Bool-cases ((entry x).ip == ip)) [
      | inr e ↦
          let skip : first_such (waits entry ip) list (x ∷ xs)
              ≡ first_such (waits entry ip) list xs =
            rw e refl in
          let skip_mapping : mapping entry (x ∷ xs) ip ≡ mapping entry xs ip = rw e refl in
          subst (λ n. Found entry list ip (x ∷ xs) (mapping entry (x ∷ xs) ip) n) (sym skip)
            (subst (λ k. Found entry list ip (x ∷ xs) k (first_such (waits entry ip) list xs))
              (sym skip_mapping)
              (Found-behind entry list ip x xs (mapping entry xs ip)
                (first_such (waits entry ip) list xs) rest))
      | inl e ↦
          let same : (entry x).ip ≡ ip = ground arith in
          let none_else : mapping entry xs ip ≡ unknown = rw same at v.0 in
          elim (Bool-cases ((entry x).waiting == 1)) [
            | inl w ↦
                let busy : ((entry x).waiting == 0) ≡ false = ground arith in
                rw (e, w, busy) (inr (other, ground arith, refl, same))
            | inr w ↦
                let idle : ((entry x).waiting == 0) ≡ true = ground (arith, v.1) in
                rw (e, w, idle)
                  (elim rest [
                    | inl r ↦ inl (r.0, λ h. cc)
                    | inr r ↦ absurd (clash (sym none_else ∙ r.2))
                  ])
          ]
    ]
  where
    clash : unknown ≡ asked → ⊥
    clash h = cc

has-mapping :
    (entry : Ptr → Entry) (p : Ptr) (xs : List Ptr)
    → p ∈ xs
    → mapping entry xs (entry p).ip ≢ unknown
has-mapping entry p [] i h = ground arith
has-mapping entry p (x ∷ xs) i h = elim (Bool-cases ((entry x).ip == (entry p).ip)) [
  | inl e ↦ status-ne-unknown (entry x) (rw e at h)
  | inr e ↦ has-mapping entry p xs (behind e) (rw e at h)
]
  where
    self : ((entry p).ip == (entry p).ip) ≡ true
    self = ground arith

    behind : ((entry x).ip == (entry p).ip) ≡ false → p ∈ xs
    behind e = elim (Bool-cases (p == x)) [
      | inl s ↦ let same : x ≡ p = ground arith in absurd (differ (sym (rw same at e) ∙ self))
      | inr s ↦ ground arith
    ]
      where
        differ : false ≡ true → ⊥
        differ h = cc

-- The entry of one node replaced.
abbrev replaced : Ptr → Entry → (Ptr → Entry) → Ptr → Entry
replaced n e entry q = if q == n then e else entry q

module _ (entry : Ptr → Entry) (n : Ptr) (e : Entry) (keeps : e.ip ≡ (entry n).ip) where
  same_ip : (p : Ptr) → (replaced n e entry p).ip ≡ (entry p).ip
  same_ip p = elim (Bool-cases (p == n)) [
    | inl h ↦ let same : p ≡ n = ground arith in rw (h, keeps, same) refl
    | inr h ↦ rw h refl
  ]

  unknown-replaced :
      (xs : List Ptr) (ip : ℕ)
      → mapping entry xs ip ≡ unknown
      → mapping (replaced n e entry) xs ip ≡ unknown
  unknown-replaced [] ip u = refl
  unknown-replaced (x ∷ xs) ip u = elim (Bool-cases ((entry x).ip == ip)) [
    | inl h ↦ absurd (status-ne-unknown (entry x) (rw h at u))
    | inr h ↦ rw (same_ip x, h) (unknown-replaced xs ip (rw h at u))
  ]

  replaced-IsMap : (xs : List Ptr) → e.waiting < 2 → IsMap entry xs → IsMap (replaced n e entry) xs
  replaced-IsMap [] w v = tt
  replaced-IsMap (x ∷ xs) w v = (
    rw (same_ip x) (unknown-replaced xs (entry x).ip v.0),
    ground (arith, v.1),
    replaced-IsMap xs w v.2,
  )

  replaced-mapping :
      (xs : List Ptr) (ip : ℕ)
      → IsMap entry xs
      → Distinct xs
      → n ∈ xs
      → mapping (replaced n e entry) xs ip
        ≡ (if (entry n).ip == ip then status e else mapping entry xs ip)
  replaced-mapping [] ip v d i = ground arith
  replaced-mapping (x ∷ xs) ip v d i = elim (Bool-cases (x == n)) [
    | inl h ↦
        let same : x ≡ n = ground arith in
        let rest =
          mapping-same entry (replaced n e entry) xs ip (λ p j. kept p j (rw same at d.0)) in
        elim (Bool-cases ((entry n).ip == ip)) [
          | inl g ↦ rw (h, keeps, g) refl
          | inr g ↦ rw (h, keeps, same, g) rest
        ]
    | inr h ↦
        let inside : n ∈ xs = ground arith in
        let rest = replaced-mapping xs ip v.2 d.1 inside in
        elim (Bool-cases ((entry x).ip == ip)) [
          | inl g ↦
              let at_ip : (entry x).ip ≡ ip = ground arith in
              let apart : ((entry n).ip == ip) ≡ false = elim (Bool-cases ((entry n).ip == ip)) [
                | inr f ↦ f
                | inl f ↦
                    let same : (entry x).ip ≡ (entry n).ip = ground arith in
                    absurd (has-mapping entry n xs inside (rw same at v.0))
              ] in
              rw (h, g, apart) refl
          | inr g ↦ rw (h, g) rest
        ]
  ]
    where
      kept : (p : Ptr) → p ∈ xs → n ∉ xs → replaced n e entry p ≡ entry p
      kept p j out = elim (Bool-cases (p == n)) [
        | inr f ↦ rw f refl
        | inl f ↦ let same : p ≡ n = ground arith in absurd (clash (rw same at j) out)
      ]
        where
          clash : n ∈ xs → n ∉ xs → ⊥
          clash a b = ground arith

-- `arp_add_new_mapping` ends, makes an address that was asked for known under the given hardware
-- address, and changes no other.
pub arp_add_new_mapping-asked :
    (fuel ip : ℕ) (mac : ℕ → ℕ) (s : Table) (xs : List Ptr)
    → Holds s xs
    → length xs < fuel
    → mapping s.entry xs ip ≡ asked
    → (s' : Table) × (arp_add_new_mapping fuel ip mac s ≡ some (ok s'))
      × Holds s' xs
      × ((ip' : ℕ)
          → mapping s'.entry xs ip' ≡ (if ip == ip' then known mac else mapping s.entry xs ip'))
unfolding arp_add_new_mapping
arp_add_new_mapping-asked fuel ip mac s xs v enough a =
    let node = first_such (waits s.entry ip) s.arp_list xs in
    let e = record (s.entry node) { mac = mac; waiting = 0 } in
    elim (waits-mapping s.entry s.arp_list ip xs v.is_map v.ring.distinct.0) [
      | inl r ↦ absurd (r.1 a)
      | inr (other, inside, is_asked, at_ip) ↦ (
        set_entry node e s,
        rw (iterate-first_such fuel (waits s.entry ip) xs v.ring enough, other) refl,
        record {
          ring = v.ring;
          is_map = replaced-IsMap s.entry node e refl xs (omega arith) v.is_map;
        },
        λ ip'.
            replaced-mapping s.entry node e refl xs ip' v.is_map v.ring.distinct.1 inside
            ∙ ap (λ (a : ℕ). if a == ip' then known mac else mapping s.entry xs ip') at_ip,
      )
    ]

-- `arp_add_new_mapping` panics on an address that is not asked for.
pub arp_add_new_mapping-panic :
    (fuel ip : ℕ) (mac : ℕ → ℕ) (s : Table) (xs : List Ptr)
    → Holds s xs
    → length xs < fuel
    → mapping s.entry xs ip ≢ asked
    → arp_add_new_mapping fuel ip mac s ≡ some panic
unfolding arp_add_new_mapping
arp_add_new_mapping-panic fuel ip mac s xs v enough a =
    elim (waits-mapping s.entry s.arp_list ip xs v.is_map v.ring.distinct.0) [
      | inl r ↦ rw (iterate-first_such fuel (waits s.entry ip) xs v.ring enough, r.0) refl
      | inr r ↦ absurd (a r.2)
    ]
