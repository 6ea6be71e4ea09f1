-- ===== src/Connection/Pool.antt =====
-- The connection pool of server/src/connection.c. A connection is named by the index of its slot.
-- The buffers, the addresses and the rate limiter of a slot are left out.
pub mod Slots
pub mod Laws
use chatweb.Base.{
  ℕ, ◌+◌, ◌-◌, ◌*◌, Bool, true, false, ◌&&◌, Option, none, some, List, [], ◌∷◌, ◌++◌, leb, ltb,
  ◌==◌, if◌then◌else◌, length, replicate, set,
}
use chatweb.Base.Memory.{add_size, sub_size}
use Slots.{
  Connection, ConnectionState, find_slot, is_free, is_used, has_id, has_fd, is_session_of,
  all_slots,
}

-- What a call comes to: `deadlocks` where a thread locks the mutex that it holds.
pub data Outcome {ℓ} (A : Type ℓ) : Type ℓ where
  returns : A → Outcome A
  deadlocks : Outcome A

-- The capacity is the number of slots.
pub record ConnectionPool : Type 0 where
  pub connections : List Connection
  pub count : ℕ
  pub next_connection_id : ℕ
  pub total_connections : ℕ
  pub active_connections : ℕ
  pub max_concurrent_connections : ℕ

abbrev pub capacity : ConnectionPool → ℕ
capacity pool = length pool.connections

-- A slot that calloc or memset cleared and that is marked free.
abbrev pub blank : Connection
blank = record {
  id = 0;
  fd = none;
  user_id = 0;
  state = ConnectionState.new;
  connected_at = 0;
  last_activity = 0;
  last_heartbeat = 0;
}

-- The flags say whether the two allocations and the two initialisations of locks succeed.
unfoldable pub connection_pool_create : Bool → Bool → Bool → Bool → ℕ → Option ConnectionPool
connection_pool_create pool_ok slots_ok mutex_ok rwlock_ok initial_capacity =
    if pool_ok && slots_ok && mutex_ok && rwlock_ok
    then some (record {
      connections = replicate initial_capacity blank;
      count = 0;
      next_connection_id = 1;
      total_connections = 0;
      active_connections = 0;
      max_concurrent_connections = 0;
    })
    else none

-- The first flag says whether the caller holds the pool's mutex, which this locks; the second,
-- whether the slots can be reallocated.
unfoldable pub resize_connection_pool :
    Bool → Bool → ConnectionPool → ℕ → Outcome (Bool × ConnectionPool)
resize_connection_pool true realloc_ok pool new_capacity = deadlocks
resize_connection_pool false false pool new_capacity = returns (false, pool)
resize_connection_pool false true pool new_capacity = returns (
  true,
  record pool { connections = pool.connections ++ replicate (new_capacity - capacity pool) blank },
)

unfoldable pub allocate_connection :
    Bool → Bool → ConnectionPool → Outcome (Option ℕ × ConnectionPool)
allocate_connection held realloc_ok pool = elim (find_slot is_free pool.connections) [
  | some i ↦ returns (some i, pool)
  | none ↦ elim (resize_connection_pool held realloc_ok pool (capacity pool * 2)) [
    | returns (ok, pool') ↦ returns (if ok then some (capacity pool) else none, pool')
    | deadlocks ↦ deadlocks
  ]
]

abbrev pub new_connection : ConnectionPool → ℕ → ℕ → Connection
new_connection pool fd now = record {
  id = pool.next_connection_id;
  fd = some fd;
  user_id = 0;
  state = ConnectionState.new;
  connected_at = now;
  last_activity = now;
  last_heartbeat = now;
}

abbrev pub store : ConnectionPool → ℕ → Connection → ConnectionPool
store pool i conn = record pool { connections = set pool.connections i conn }

-- The new connection in its slot, or the slot cleared again. The identifier is spent either way.
unfoldable pub init_connection : Bool → ConnectionPool → ℕ → ℕ → ℕ → Option ℕ × ConnectionPool
init_connection init_ok pool i fd now =
    let spent = record pool { next_connection_id = add_size pool.next_connection_id 1 } in
    if init_ok
    then (let active = add_size pool.active_connections 1 in
        (
          some i,
          record (store spent i (new_connection pool fd now)) {
            count = add_size pool.count 1;
            total_connections = add_size pool.total_connections 1;
            active_connections = active;
            max_concurrent_connections =
                if ltb pool.max_concurrent_connections active
                then active
                else pool.max_concurrent_connections;
          },
        ))
    else (none, store spent i blank)

-- The slot of a new connection, and the pool, whose mutex is held throughout. `fd` is `none` for a
-- negative number; the first flag says whether the buffers, the mutex and the condition of the
-- connection can all be set up.
unfoldable pub connection_pool_add :
    Bool → Bool → ConnectionPool → Option ℕ → ℕ → Outcome (Option ℕ × ConnectionPool)
connection_pool_add init_ok realloc_ok pool none now = returns (none, pool)
connection_pool_add init_ok realloc_ok pool (some fd) now = elim (make_room pool) [
  | returns (false, pool') ↦ returns (none, pool')
  | returns (true, pool') ↦ elim (allocate_connection true realloc_ok pool') [
    | returns (none, pool'') ↦ returns (none, pool'')
    | returns (some i, pool'') ↦ returns (init_connection init_ok pool'' i fd now)
    | deadlocks ↦ deadlocks
  ]
  | deadlocks ↦ deadlocks
]
  where
    make_room : ConnectionPool → Outcome (Bool × ConnectionPool)
    make_room pool =
        if leb (capacity pool) pool.count
        then resize_connection_pool true realloc_ok pool (capacity pool * 2)
        else returns (true, pool)

unfoldable pub connection_pool_get_by_id : ConnectionPool → ℕ → Option ℕ
connection_pool_get_by_id pool connection_id = find_slot (has_id connection_id) pool.connections

unfoldable pub connection_pool_get_by_fd : ConnectionPool → ℕ → Option ℕ
connection_pool_get_by_fd pool fd = find_slot (has_fd fd) pool.connections

-- The slots of a user's authenticated connections; `none` where the result is not allocated (-2).
unfoldable pub connection_pool_get_by_user : Bool → ConnectionPool → ℕ → Option (List ℕ)
connection_pool_get_by_user alloc_ok pool user_id =
    let found = all_slots (is_session_of user_id) pool.connections in
    if length found == 0 then some [] else if alloc_ok then some found else none

unfoldable pub connection_pool_get_active_count : ConnectionPool → ℕ
connection_pool_get_active_count pool = pool.active_connections
