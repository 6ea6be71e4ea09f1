-- ===== src/Connection/Pool/Laws.antt =====
-- What connection_pool_add of server/src/connection.c comes to, and what the lookups then find.
use chatweb.Base.{
  none, ℕ, ◌+◌, ◌<◌, ◌^◌, ◌≡◌, refl, Bool, true, false, some, leb, ◌==◌, if◌then◌else◌, arith,
  replicate, length-replicate, suc, zero, sym,
}
use chatweb.Base.Memory.{add_size}
use chatweb.Connection.Pool.{
  ConnectionPool, returns, deadlocks, capacity, blank, connection_pool_create, connection_pool_add,
  allocate_connection, resize_connection_pool, init_connection, new_connection,
  connection_pool_get_by_id, connection_pool_get_active_count,
}
use chatweb.Connection.Pool.Slots.{count_used, AllBelow, find_slot-set}

-- The counts are those of the used slots, whose identifiers were given out.
pub record IsValid (pool : ConnectionPool) : Type 0 where
  pub counted : pool.count ≡ count_used pool.connections
  pub active : pool.active_connections ≡ count_used pool.connections
  pub below : AllBelow pool.next_connection_id pool.connections

-- In a valid pool with a free slot, with identifiers and slots below 2^64: where its buffers, its
-- mutex and its condition variable can be made, a new connection is set up in a slot that was free,
-- its identifier finds it, every other identifier finds what it found before, one more connection is
-- counted, and the pool is valid again. Where one of them cannot be made, NULL comes back and the
-- counts are as before.
pub connection_pool_add-get_by_id :
    (pool : ConnectionPool) (realloc_ok : Bool) (fd now : ℕ)
    → IsValid pool
    → pool.count < capacity pool
    → capacity pool < 2 ^ 64
    → pool.next_connection_id + 1 < 2 ^ 64
    → (i : ℕ) × (pool' : ConnectionPool) × (connection_pool_add true realloc_ok pool (some fd) now
        ≡ returns (some i, pool'))
      × IsValid pool'
      × ((id : ℕ)
          → connection_pool_get_by_id pool' id
            ≡ (if pool.next_connection_id == id then some i else connection_pool_get_by_id pool id))
      × (connection_pool_get_active_count pool' ≡ connection_pool_get_active_count pool + 1)
      × (failed : ConnectionPool) × (connection_pool_add false realloc_ok pool (some fd) now
          ≡ returns (none, failed))
      × (failed.count ≡ pool.count)
      × (connection_pool_get_active_count failed ≡ connection_pool_get_active_count pool)
unfolding connection_pool_add allocate_connection init_connection connection_pool_get_by_id
    connection_pool_get_active_count
connection_pool_add-get_by_id pool realloc_ok fd now v h k l =
    let conn = new_connection pool fd now in
    let n = v.counted in
    let m = v.active in
    let (i, f, c, a, g) = find_slot-set pool.connections conn (omega arith) refl v.below in
    let room : leb (capacity pool) pool.count ≡ false = ground arith in
    let next : add_size pool.next_connection_id 1 ≡ suc pool.next_connection_id = omega arith in
    let one : add_size pool.active_connections 1 ≡ pool.active_connections + 1 = omega arith in
    (
      i,
      (init_connection true pool i fd now).1,
      rw (room, f, connection_pool_add, allocate_connection) refl,
      record { counted = omega arith; active = omega arith; below = rw next a },
      g,
      one,
      (init_connection false pool i fd now).1,
      rw (room, f, connection_pool_add, allocate_connection) refl,
      refl,
      refl,
    )

-- In a valid pool whose slots are all used, adding a connection locks the pool's mutex again while
-- it is held.
connection_pool_add-full :
    (pool : ConnectionPool) (init_ok realloc_ok : Bool) (fd now : ℕ)
    → IsValid pool
    → count_used pool.connections ≡ capacity pool
    → connection_pool_add init_ok realloc_ok pool (some fd) now ≡ deadlocks
unfolding connection_pool_add resize_connection_pool
connection_pool_add-full pool init_ok realloc_ok fd now v h =
    let n = v.counted in
    let room : leb (capacity pool) pool.count ≡ true = ground arith in
    rw (room, connection_pool_add) refl

count_used-replicate : (n : ℕ) → count_used (replicate n blank) ≡ 0
count_used-replicate zero = refl
count_used-replicate (suc n) = count_used-replicate n

AllBelow-replicate : (k n : ℕ) → AllBelow k (replicate n blank)
unfolding AllBelow
AllBelow-replicate k zero = tt
AllBelow-replicate k (suc n) = ((λ e. ground arith), AllBelow-replicate k n)

-- A new pool is valid, has the capacity that was asked for, and no connection in it.
connection_pool_create-IsValid :
    (n : ℕ)
    → (pool : ConnectionPool) × (connection_pool_create true true true true n ≡ some pool)
      × IsValid pool
      × (capacity pool ≡ n)
      × (connection_pool_get_active_count pool ≡ 0)
unfolding connection_pool_create connection_pool_get_active_count
connection_pool_create-IsValid n = (
  _,
  refl,
  record {
    counted = sym (count_used-replicate n);
    active = sym (count_used-replicate n);
    below = AllBelow-replicate 1 n;
  },
  length-replicate n blank,
  refl,
)
