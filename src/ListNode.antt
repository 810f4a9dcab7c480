-- ===== src/ListNode.antt =====
-- include/citrus/list.h: circular doubly linked lists threaded through the objects that they hold.
-- A node is an address; the memory gives the `next` and `prev` field of the node at each address.
-- A function that writes through a pointer returns the new memory.
pub mod Ring
pub mod Insert
pub mod Delete
pub mod Walk
pub mod Family
pub mod Search
mod Tests
use operating_system_cortex.Prelude.{ℕ, zero, suc, Bool, Option, none, some, ◌==◌, if◌then◌else◌}

abbrev pub Ptr : Type 0
Ptr = ℕ

abbrev pub null : Ptr
null = 0

-- The two fields of `struct list_node` at every address.
pub record Memory : Type 0 where
  pub next : Ptr → Ptr
  pub prev : Ptr → Ptr

abbrev pub update : (Ptr → Ptr) → Ptr → Ptr → Ptr → Ptr
update f p v q = if q == p then v else f q

-- `p->next = v` and `p->prev = v`
abbrev pub set_next : Ptr → Ptr → Memory → Memory
set_next p v m = record m { next = update m.next p v }

abbrev pub set_prev : Ptr → Ptr → Memory → Memory
set_prev p v m = record m { prev = update m.prev p v }

unfoldable pub init : Ptr → Memory → Memory
init list m = set_next list list (set_prev list list m)

unfoldable pub node_init : Ptr → Memory → Memory
node_init list m = set_prev list null (set_next list null m)

-- `_list_add`
unfoldable pub insert : (new prev next : Ptr) → Memory → Memory
insert new prev next m =
    set_prev new prev (set_next new next (set_prev next new (set_next prev new m)))

-- `_list_delete`
unfoldable pub unlink : (prev next : Ptr) → Memory → Memory
unlink prev next m = set_prev next prev (set_next prev next m)

unfoldable pub add_first : (new list : Ptr) → Memory → Memory
unfolding insert
add_first new list m = insert new list (m.next list) m

unfoldable pub add_last : (new list : Ptr) → Memory → Memory
unfolding insert
add_last new list m = insert new (m.prev list) list m

unfoldable pub add_before : (new before : Ptr) → Memory → Memory
unfolding insert
add_before new before m = insert new (m.prev before) before m

unfoldable pub delete_node : Ptr → Memory → Memory
unfolding unlink
delete_node node m = set_prev node null (set_next node null (unlink (m.prev node) (m.next node) m))

unfoldable pub delete_first : Ptr → Memory → Memory
unfolding delete_node
delete_first list m = if m.next list == list then m else delete_node (m.next list) m

unfoldable pub delete_last : Ptr → Memory → Memory
unfolding delete_node
delete_last list m = if m.next list == list then m else delete_node (m.prev list) m

unfoldable pub is_empty : Ptr → Memory → Bool
is_empty list m = m.next list == list

unfoldable pub get_first : Ptr → Memory → Ptr
get_first list m = m.next list

unfoldable pub get_last : Ptr → Memory → Ptr
get_last list m = m.prev list

-- `list_iterate` with a counter in its body. A walk that is cut short by its fuel is `none`.
size_loop : (fuel : ℕ) (list node : Ptr) → Memory → (size : ℕ) → Option ℕ
size_loop zero list node m size = none
size_loop (suc fuel) list node m size =
    let rest = size_loop fuel list (m.next node) m (suc size) in
    if node == list then some size else rest

unfoldable pub get_size : (fuel : ℕ) → Ptr → Memory → Option ℕ
unfolding size_loop
get_size fuel list m = size_loop fuel list (m.next list) m 0

-- `src->prev->next = dest->next; dest->next->prev = src->prev; dest->next = src->next;
-- dest->next->prev = dest;`
unfoldable pub merge : (src dest : Ptr) → Memory → Memory
merge src dest m =
    let m1 = set_next (m.prev src) (m.next dest) m in
    let m2 = set_prev (m1.next dest) (m1.prev src) m1 in
    let m3 = set_next dest (m2.next src) m2 in set_prev (m3.next dest) dest m3
