-- ===== src/Net/Arp/Mapping.antt =====
-- The ARP table as a map from addresses to what is known of them.
use operating_system_cortex.Prelude.{
  ℕ, ◌<◌, ◌≡◌, refl, ◌∙◌, ◌⊎◌, inl, inr, true, false, ◌&&◌, some, List, [], ◌∷◌, ◌==◌,
  if◌then◌else◌, arith, length, Bool-cases,
}
use operating_system_cortex.Prelude.Outcome.{Outcome, ok, error, panic}
use operating_system_cortex.Prelude.Sets.{◌∈◌, ◌∉◌}
use operating_system_cortex.ListNode
use operating_system_cortex.ListNode.{Ptr, Memory}
use operating_system_cortex.ListNode.Ring.{IsRing}
use operating_system_cortex.ListNode.Insert.{add_first-IsRing}
use operating_system_cortex.ListNode.Search.{first_such, iterate-first_such}
use operating_system_cortex.Net.Arp.{Entry, Table, enoent, set_entry, arp_alloc_mapping, arp_search}

-- Nothing is known of an address, it has been asked for, or its hardware address is known.
pub data Mapping : Type 0 where
  unknown asked : Mapping
  known : (ℕ → ℕ) → Mapping

abbrev pub status : Entry → Mapping
status e = if e.waiting == 0 then known e.mac else asked

-- The map that the entries of the nodes `xs` stand for.
abbrev pub mapping : (Ptr → Entry) → List Ptr → ℕ → Mapping
mapping entry [] ip = unknown
mapping entry (x ∷ xs) ip = if (entry x).ip == ip then status (entry x) else mapping entry xs ip

-- No address stands twice, and `waiting` is 0 or 1.
abbrev pub IsMap : (Ptr → Entry) → List Ptr → Type 0
IsMap entry [] = Unit
IsMap entry (x ∷ xs) =
    (mapping entry xs (entry x).ip ≡ unknown) × ((entry x).waiting < 2) × IsMap entry xs

-- What the table stands for while the nodes `xs` are in it.
pub record Holds (s : Table) (xs : List Ptr) : Type 0 where
  pub ring : IsRing s.nodes s.arp_list xs
  pub is_map : IsMap s.entry xs

-- The answer of the table's search.
abbrev pub answer : Mapping → Outcome (ℕ → ℕ)
answer (known mac) = ok mac
answer asked = error enoent
answer unknown = error enoent

search-mapping :
    (entry : Ptr → Entry) (list ip : ℕ) (xs : List Ptr)
    → IsMap entry xs
    → list ∉ xs
    → let node = first_such (λ p. ip == (entry p).ip && (entry p).waiting == 0) list xs in
      (if node == list then error enoent else ok (entry node).mac) ≡ answer (mapping entry xs ip)
search-mapping entry list ip [] v out =
    let self : (list == list) ≡ true = ground arith in rw self refl
search-mapping entry list ip (x ∷ xs) v out =
    let rest = search-mapping entry list ip xs v.2 (ground arith) in
    let other : (x == list) ≡ false = ground arith in
    elim (Bool-cases (ip == (entry x).ip)) [
      | inr e ↦ let e' : ((entry x).ip == ip) ≡ false = ground arith in rw (e, e') rest
      | inl e ↦
          let same : (entry x).ip ≡ ip = ground arith in
          let self : (ip == ip) ≡ true = ground arith in
          let none_else : mapping entry xs ip ≡ unknown = rw same at v.0 in
          elim (Bool-cases ((entry x).waiting == 0)) [
            | inl w ↦ rw (same, self, w, other) refl
            | inr w ↦ rw (same, self, w) (rest ∙ rw none_else refl)
          ]
    ]

-- `arp_search` ends and gives the address that is known, and `-ENOENT` if there is none.
pub arp_search-mapping :
    (fuel ip : ℕ) (s : Table) (xs : List Ptr)
    → Holds s xs
    → length xs < fuel
    → arp_search fuel ip s ≡ some (answer (mapping s.entry xs ip))
unfolding arp_search
arp_search-mapping fuel ip s xs v enough =
    rw
      (
        iterate-first_such fuel (λ p. ip == (s.entry p).ip && (s.entry p).waiting == 0) xs v.ring
            enough,
        search-mapping s.entry s.arp_list ip xs v.is_map v.ring.distinct.0,
      )
      refl

-- The node with the address, if there is one.
ip-mapping :
    (entry : Ptr → Entry) (list ip : ℕ) (xs : List Ptr)
    → list ∉ xs
    → let node = first_such (λ p. (entry p).ip == ip) list xs in
      ((node == list) ≡ true) × (mapping entry xs ip ≡ unknown)
      ⊎ ((node == list) ≡ false) × (mapping entry xs ip ≡ status (entry node))
ip-mapping entry list ip [] out = inl (ground arith, refl)
ip-mapping entry list ip (x ∷ xs) out = elim (Bool-cases ((entry x).ip == ip)) [
  | inl e ↦ rw e (inr (ground arith, refl))
  | inr e ↦ rw e (ip-mapping entry list ip xs (ground arith))
]

pub mapping-same :
    (entry entry' : Ptr → Entry) (xs : List Ptr) (ip : ℕ)
    → ((p : Ptr) → p ∈ xs → entry' p ≡ entry p)
    → mapping entry' xs ip ≡ mapping entry xs ip
mapping-same entry entry' [] ip same = refl
mapping-same entry entry' (x ∷ xs) ip same =
    rw (same x (ground arith), mapping-same entry entry' xs ip (λ p i. same p (ground arith))) refl

IsMap-same :
    (entry entry' : Ptr → Entry) (xs : List Ptr)
    → ((p : Ptr) → p ∈ xs → entry' p ≡ entry p)
    → IsMap entry xs
    → IsMap entry' xs
IsMap-same entry entry' [] same v = tt
IsMap-same entry entry' (x ∷ xs) same v =
    let rest = λ (p : Ptr) (i : p ∈ xs). same p (ground arith) in
    rw (same x (ground arith)) (
      mapping-same entry entry' xs (entry x).ip rest ∙ v.0,
      v.1,
      IsMap-same entry entry' xs rest v.2,
    )

-- What a request for an address comes to: the table with the address asked for, `-ENOENT` if it
-- was asked for before, a panic if it is known.
abbrev pub request : Mapping → Table → Outcome Table
request unknown s = ok s
request asked s = error enoent
request (known mac) s = panic

-- The table with `ip` asked for.
abbrev pub asked_for : (new : Ptr) (ip : ℕ) → Table → Table
asked_for new ip s =
    record (set_entry new (record { ip = ip; mac = (s.entry new).mac; waiting = 1 }) s) {
      nodes = ListNode.add_first new s.arp_list s.nodes;
    }

-- `arp_alloc_mapping` ends; it asks for an address of which nothing is known, fails with `-ENOENT`
-- on one that is asked for, and panics on one that is known.
pub arp_alloc_mapping-request :
    (fuel : ℕ) (new : Ptr) (ip : ℕ) (s : Table) (xs : List Ptr)
    → Holds s xs
    → length xs < fuel
    → arp_alloc_mapping fuel new ip s ≡ some (request (mapping s.entry xs ip) (asked_for new ip s))
unfolding arp_alloc_mapping
arp_alloc_mapping-request fuel new ip s xs v enough =
    let node = first_such (λ p. (s.entry p).ip == ip) s.arp_list xs in
    rw (iterate-first_such fuel (λ p. (s.entry p).ip == ip) xs v.ring enough)
      (elim (ip-mapping s.entry s.arp_list ip xs v.ring.distinct.0) [
        | inl (e, u) ↦ rw (e, u) refl
        | inr (e, k) ↦ elim (Bool-cases ((s.entry node).waiting == 0)) [
          | inl w ↦ rw (e, k, w) refl
          | inr w ↦ rw (e, k, w) refl
        ]
      ])

-- The request for an address of which nothing is known adds it as one that is asked for; all other
-- addresses stand as before.
pub asked_for-Holds :
    (new : Ptr) (ip : ℕ) (s : Table) (xs : List Ptr)
    → Holds s xs
    → new ∉ s.arp_list ∷ xs
    → mapping s.entry xs ip ≡ unknown
    → Holds (asked_for new ip s) (new ∷ xs)
      × ((ip' : ℕ)
          → mapping (asked_for new ip s).entry (new ∷ xs) ip'
            ≡ (if ip == ip' then asked else mapping s.entry xs ip'))
asked_for-Holds new ip s xs v out u = (
  record {
    ring = (add_first-IsRing new xs v.ring out).0;
    is_map = rw self (
      mapping-same s.entry (asked_for new ip s).entry xs ip kept ∙ u,
      omega arith,
      IsMap-same s.entry (asked_for new ip s).entry xs kept v.is_map,
    );
  },
  λ ip'. rw (self, mapping-same s.entry (asked_for new ip s).entry xs ip' kept) refl,
)
  where
    self : (new == new) ≡ true
    self = ground arith

    kept : (p : Ptr) → p ∈ xs → (asked_for new ip s).entry p ≡ s.entry p
    kept p i = elim (Bool-cases (p == new)) [
      | inl e ↦ let same : p ≡ new = ground arith in absurd (clash (rw same at i))
      | inr e ↦ rw e refl
    ]
      where
        clash : new ∈ xs → ⊥
        clash j = ground arith
