-- ===== src/Utils/LinkedList.antt =====
-- The doubly linked list of server/src/utils.c, list_t. Nodes stand at addresses of a memory; `none` is an
-- access to an address where there is no node. Data are addresses, 0 for none.
pub mod Chain
pub mod Insert
pub mod Contents
use chatweb.Base.{
  ℕ, zero, suc, ◌-◌, Bool, true, false, Option, none, some, ltb, leb, ◌==◌, if◌then◌else◌,
}
use chatweb.Base.Memory.{add_size, sub_size}

-- list_node_t
pub record Node : Type 0 where
  pub data_ptr : ℕ
  pub next : ℕ
  pub prev : ℕ

abbrev pub Memory : Type 0
Memory = ℕ → Option Node

-- list_t, with the memory that its nodes stand in.
pub record LinkedList : Type 0 where
  pub memory : Memory
  pub head : ℕ
  pub tail : ℕ
  pub size : ℕ

abbrev pub null : ℕ
null = 0

unfoldable pub list_create : Memory → LinkedList
list_create memory = record { memory = memory; head = null; tail = null; size = 0 }

abbrev pub put : Memory → ℕ → Node → Memory
put memory p node q = if p == q then some node else memory q

unfoldable pub write : (Node → Node) → ℕ → Memory → Option Memory
write change p memory = elim (memory p) [
  | none ↦ none
  | some node ↦ some (put memory p (change node))
]

abbrev pub set_next : ℕ → Node → Node
set_next p node = record node { next = p }

abbrev pub set_prev : ℕ → Node → Node
set_prev p node = record node { prev = p }

abbrev append_written : LinkedList → ℕ → Option Memory → Option (Bool × LinkedList)
append_written list q none = none
append_written list q (some memory) = some (
  true,
  record list {
    memory = memory;
    head = if list.tail == null then q else list.head;
    tail = q;
    size = add_size list.size 1;
  },
)

-- The flag is false for -1. The address is what malloc returns, `none` for NULL.
unfoldable pub list_append : Option ℕ → LinkedList → ℕ → Option (Bool × LinkedList)
list_append none list data_ptr = some (false, list)
list_append (some q) list data_ptr =
    let memory =
      put list.memory q (record { data_ptr = data_ptr; next = null; prev = list.tail }) in
    let linked = write (set_next q) list.tail memory in
    append_written list q (if list.tail == null then some memory else linked)

abbrev prepend_written : LinkedList → ℕ → Option Memory → Option (Bool × LinkedList)
prepend_written list q none = none
prepend_written list q (some memory) = some (
  true,
  record list {
    memory = memory;
    head = q;
    tail = if list.head == null then q else list.tail;
    size = add_size list.size 1;
  },
)

unfoldable pub list_prepend : Option ℕ → LinkedList → ℕ → Option (Bool × LinkedList)
list_prepend none list data_ptr = some (false, list)
list_prepend (some q) list data_ptr =
    let memory =
      put list.memory q (record { data_ptr = data_ptr; next = list.head; prev = null }) in
    let linked = write (set_prev q) list.head memory in
    prepend_written list q (if list.head == null then some memory else linked)

-- The node that a number of steps lead to.
unfoldable pub walk : Memory → ℕ → ℕ → Option Node
walk memory zero p = memory p
walk memory (suc n) p = elim (memory p) [ none ↦ none | some node ↦ walk memory n node.next ]

-- 0 where the index is past the end.
unfoldable pub list_get : LinkedList → ℕ → Option ℕ
list_get list index =
    let found = walk list.memory index list.head in
    if leb list.size index
    then some null
    else elim found [ none ↦ none | some node ↦ some node.data_ptr ]

unfoldable pub list_size : LinkedList → ℕ
list_size list = list.size

unfoldable pub list_empty : LinkedList → Bool
list_empty list = list.size == 0
