-- ===== src/Net/Arp.antt =====
-- net/arp.c: the table of the addresses that are known or asked for.
pub mod Mapping
pub mod Reply
pub mod Packets
pub mod Exchange
use operating_system_cortex.Prelude.{
  ℕ, zero, suc, ◌+◌, ◌≡◌, Bool, true, false, ◌&&◌, Option, none, some, ◌==◌, if◌then◌else◌,
}
use operating_system_cortex.Prelude.Outcome.{Outcome, ok, error, panic}
use operating_system_cortex.ListNode
use operating_system_cortex.ListNode.{Ptr, Memory}
use operating_system_cortex.ListNode.Search.{iterate}

-- `struct arp_entry`, and its 6 bytes as a function of the index.
pub record Entry : Type 0 where
  pub ip : ℕ
  pub mac : ℕ → ℕ
  pub waiting : ℕ

-- `arp_table`, the list nodes, and the entry around each node.
pub record Table : Type 0 where
  pub arp_list : Ptr
  pub nodes : Memory
  pub entry : Ptr → Entry

abbrev pub enoent : ℕ
enoent = 6

abbrev pub set_entry : Ptr → Entry → Table → Table
set_entry p e s = record s { entry = λ q. if q == p then e else s.entry q }

infixl 5 ◌>>=◌
abbrev pub ◌>>=◌ : {A B : Type 0} → Option A → (A → Option B) → Option B
none >>= f = none
some a >>= f = f a

unfoldable pub arp_init : Table → Table
arp_init s = record s { nodes = ListNode.init s.arp_list s.nodes }

-- `new` is what `kmalloc` gives. `none` if the walk does not end within `fuel` rounds.
unfoldable pub arp_alloc_mapping : (fuel : ℕ) (new : Ptr) (ip : ℕ) → Table → Option (Outcome Table)
arp_alloc_mapping fuel new ip s = do
  node ← iterate fuel (λ p. (s.entry p).ip == ip) s.arp_list (s.nodes.next s.arp_list) s.nodes
  let added = record (set_entry new (record { ip = ip; mac = (s.entry new).mac; waiting = 1 }) s) {
    nodes = ListNode.add_first new s.arp_list s.nodes;
  }
  some (
      if node == s.arp_list
      then ok added
      else if (s.entry node).waiting == 0
      then panic
      else error enoent)

unfoldable pub arp_add_new_mapping : (fuel ip : ℕ) → (mac : ℕ → ℕ) → Table → Option (Outcome Table)
arp_add_new_mapping fuel ip mac s = do
  node ←
      iterate fuel (λ p. (s.entry p).ip == ip && (s.entry p).waiting == 1) s.arp_list
        (s.nodes.next s.arp_list) s.nodes
  some (
      if node == s.arp_list
      then panic
      else ok (set_entry node (record (s.entry node) { mac = mac; waiting = 0 }) s))

unfoldable pub arp_search : (fuel ip : ℕ) → Table → Option (Outcome (ℕ → ℕ))
arp_search fuel ip s = do
  node ←
      iterate fuel (λ p. ip == (s.entry p).ip && (s.entry p).waiting == 0) s.arp_list
        (s.nodes.next s.arp_list) s.nodes
  some (if node == s.arp_list then error enoent else ok (s.entry node).mac)
