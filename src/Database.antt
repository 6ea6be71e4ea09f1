-- ===== src/Database.antt =====
-- The pool of connections of server/src/database.c and server/include/database.h. SQLite's handles
-- are numbers; what sqlite3_open gives and how a wait ends are arguments. The pool's mutex is held
-- throughout, but for a wait.
pub mod Counts
pub mod Pool
pub mod Release
use chatweb.Base.{
  ℕ, suc, ◌+◌, ◌-◌, Bool, true, false, not, ◌&&◌, Option, none, some, List, [], ◌∷◌, ltb, ◌==◌,
  if◌then◌else◌, length, set, get_elem?, replicate, map,
}

-- The codes of db_error_code_t that the functions here return.
pub data Code : Type 0 where
  success connection timeout busy memory : Code

-- An element of `connections` with the one of `in_use` beside it.
pub record Slot : Type 0 where
  pub connection : Option ℕ
  pub in_use : Bool

-- db_pool_t: the slots are those below max_connections.
pub record DbPool : Type 0 where
  pub slots : List Slot
  pub active_count : ℕ

abbrev pub max_connections : ℕ
max_connections = 10

abbrev or_else : Option ℕ → ℕ → ℕ
or_else none default = default
or_else (some n) default = n

-- g_db_pool, and what is configured (an int, `none` where it is not positive); the flags say whether
-- memory can be had and the mutex and the condition variable can be made.
unfoldable pub db_init_pool : Option ℕ → Bool → Bool → Option DbPool → Code × Option DbPool
db_init_pool configured has_memory has_mutex (some pool) = (success, some pool)
db_init_pool configured has_memory has_mutex none =
    let n = or_else configured max_connections in
    let slots =
      replicate (if ltb max_connections n then max_connections else n)
        (record { connection = none; in_use = false }) in
    if not has_memory
    then (memory, none)
    else if not has_mutex
    then (connection, none)
    else (success, some (record { slots = slots; active_count = 0 }))

abbrev pub is_idle : Slot → Bool
is_idle slot = not slot.in_use

abbrev pub has_some : Option ℕ → Bool
has_some none = false
has_some (some handle) = true

abbrev pub is_handle : ℕ → Option ℕ → Bool
is_handle handle none = false
is_handle handle (some h) = h == handle

abbrev pub is_open : Slot → Bool
is_open slot = has_some slot.connection

abbrev pub is_null : Slot → Bool
is_null slot = not (is_open slot)

abbrev pub owns : ℕ → Slot → Bool
owns handle slot = is_handle handle slot.connection

-- The first slot that passes a test.
unfoldable pub find_index : (Slot → Bool) → List Slot → Option ℕ
find_index test [] = none
find_index test (slot ∷ slots) =
    let rest = find_index test slots in
    if test slot then some 0 else elim rest [ none ↦ none | some i ↦ some (suc i) ]

pub data Got : Type 0 where
  refused : Code → DbPool → Got
  got : ℕ → DbPool → Got

abbrev pub open_slot : Option ℕ → ℕ → DbPool → Option ℕ → Got
open_slot opened i pool (some handle) =
    got handle (record pool {
      slots = set pool.slots i (record { connection = some handle; in_use = true });
    })
open_slot none i pool none = refused connection pool
open_slot (some handle) i pool none = got handle (record pool {
  slots = set pool.slots i (record { connection = some handle; in_use = true });
  active_count = pool.active_count + 1;
})

-- The connection of a slot, which is opened where there is none.
abbrev pub take_slot : Option ℕ → DbPool → ℕ → Got
take_slot opened pool i = elim (get_elem? pool.slots i) [
  | none ↦ refused connection pool
  | some slot ↦ open_slot opened i pool slot.connection
]

-- The search after a wait; `none` is a wait that has timed out.
abbrev pub search_again : Option ℕ → DbPool → Option DbPool → Got
search_again opened before none = refused timeout before
search_again opened before (some pool) = elim (find_index is_idle pool.slots) [
  | none ↦ refused busy pool
  | some i ↦ take_slot opened pool i
]

-- The two searches that are made at once.
abbrev pub search : DbPool → Option ℕ
search pool = elim (find_index is_idle pool.slots) [
  | some i ↦ some i
  | none ↦ if ltb pool.active_count (length pool.slots) then find_index is_null pool.slots else none
]

unfoldable pub db_get_connection : Option ℕ → (DbPool → Option DbPool) → DbPool → Got
db_get_connection opened wait pool = elim (search pool) [
  | some i ↦ take_slot opened pool i
  | none ↦ search_again opened pool (wait pool)
]

abbrev pub release_slot : Slot → Slot
release_slot slot = record slot { in_use = false }

unfoldable pub db_release_connection : ℕ → DbPool → Code × DbPool
db_release_connection handle pool = elim (find_index (owns handle) pool.slots) [
  | none ↦ (connection, pool)
  | some i ↦ elim (get_elem? pool.slots i) [
    | none ↦ (connection, pool)
    | some slot ↦ (success, record pool { slots = set pool.slots i (release_slot slot) })
  ]
]

abbrev pub close_slot : Slot → Slot
close_slot slot = if is_open slot then record { connection = none; in_use = false } else slot

unfoldable pub db_close_all_connections : DbPool → DbPool
db_close_all_connections pool = record { slots = map close_slot pool.slots; active_count = 0 }

unfoldable pub db_get_active_connections : Option DbPool → ℕ
db_get_active_connections none = 0
db_get_active_connections (some pool) = pool.active_count
