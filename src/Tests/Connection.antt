-- ===== src/Tests/Connection.antt =====
-- The theorems on server/src/connection.c, and on the deadlines, at concrete inputs.
use chatweb.Base.{
  none, ℕ, ◌+◌, ◌-◌, ◌≤◌, ◌≡◌, refl, inr, true, false, List, [], ◌∷◌, Option, some, arith, ◌==◌,
  if◌then◌else◌,
}
use chatweb.Connection.RateLimiter.{
  RateLimiter, WithinLimits, connection_send, connection_send-WithinLimits,
}
use chatweb.Connection.MessageQueue.{
  MessageQueue, Wake, woken, message_queue_push, message_queue_pop,
}
use chatweb.Connection.MessageQueue.Fifo
use chatweb.Connection.MessageQueue.Fifo.{
  Pushes, Pops, message_queue_push-Pushes, message_queue_pop-Pops,
}
use chatweb.Connection.Pool.{
  ConnectionPool, returns, blank, connection_pool_add, connection_pool_get_by_id,
  connection_pool_get_active_count,
}
use chatweb.Connection.Pool.Slots.{Connection, ConnectionState, AllBelow}
use chatweb.Connection.Pool.Laws
use chatweb.Connection.Pool.Laws.{connection_pool_add-get_by_id}

abbrev limiter : RateLimiter
limiter = record {
  messages_per_minute = 60;
  bytes_per_minute = 1000;
  last_reset_time = 5000;
  message_count = 3;
  byte_count = 900;
}

limiter-WithinLimits : WithinLimits limiter
limiter-WithinLimits = record {
  messages_u32 = omega arith;
  bytes_u32 = omega arith;
  messages = inr (omega arith);
  bytes = inr (omega arith);
}

-- A transport that takes forty bytes less than it is given.
abbrev partial : ℕ → Option ℕ
partial n = some (n - 40)

partial-le : (n : ℕ) → partial 80 ≡ some n → n ≤ 80
partial-le n e = ground arith

connection_send-WithinLimits_example :
    WithinLimits (connection_send limiter true 80 (5100, 5100) partial (5101, 5101)).1
connection_send-WithinLimits_example =
    connection_send-WithinLimits limiter true 80 (5100, 5100) (5101, 5101) partial
      limiter-WithinLimits (omega arith) partial-le

-- A full queue of two messages, and the same with one of them taken.
abbrev full_queue : MessageQueue
full_queue = record { messages = 11 ∷ 12 ∷ []; capacity = 2; count = 2; head = 1; tail = 1 }

abbrev drained_queue : MessageQueue
drained_queue = record { messages = 11 ∷ 12 ∷ []; capacity = 2; count = 1; head = 0; tail = 1 }

full_queue-IsValid : Fifo.IsValid full_queue
full_queue-IsValid = record {
  storage = refl;
  nonempty = omega arith;
  head_in = omega arith;
  count_in = omega arith;
  tail_at = refl;
}

drained_queue-IsValid : Fifo.IsValid drained_queue
drained_queue-IsValid = record {
  storage = refl;
  nonempty = omega arith;
  head_in = omega arith;
  count_in = omega arith;
  tail_at = refl;
}

abbrev wakes : List Wake
wakes = woken full_queue ∷ woken drained_queue ∷ []

message_queue_push-Pushes_example :
    Pushes true full_queue 13 wakes (message_queue_push true full_queue 13 wakes)
message_queue_push-Pushes_example =
    message_queue_push-Pushes true full_queue 13 wakes full_queue-IsValid
      (full_queue-IsValid, (drained_queue-IsValid, tt)) (λ e. absurd (omega arith))

message_queue_pop-Pops_example :
    Pops false full_queue wakes (message_queue_pop false full_queue wakes)
message_queue_pop-Pops_example =
    message_queue_pop-Pops false full_queue wakes full_queue-IsValid
      (full_queue-IsValid, (drained_queue-IsValid, tt))

abbrev online : Connection
online = record {
  id = 1;
  fd = some 5;
  user_id = 9;
  state = ConnectionState.authenticated;
  connected_at = 100;
  last_activity = 120;
  last_heartbeat = 110;
}

abbrev pool_of : List Connection → ConnectionPool
pool_of connections = record {
  connections = connections;
  count = 1;
  next_connection_id = 2;
  total_connections = 1;
  active_connections = 1;
  max_concurrent_connections = 1;
}

online-AllBelow : AllBelow 2 (online ∷ [])
unfolding AllBelow
online-AllBelow = ((λ e. omega arith), tt)

with_room-AllBelow : AllBelow 2 (online ∷ blank ∷ [])
unfolding AllBelow
with_room-AllBelow = ((λ e. omega arith), ((λ e. omega arith), tt))

connection_pool_add-get_by_id_example :
    let pool = pool_of (online ∷ blank ∷ []) in
    (i : ℕ) × (pool' : ConnectionPool) × (connection_pool_add true true pool (some 6) 200
      ≡ returns (some i, pool'))
    × Laws.IsValid pool'
    × ((id : ℕ)
        → connection_pool_get_by_id pool' id
          ≡ (if pool.next_connection_id == id then some i else connection_pool_get_by_id pool id))
    × (connection_pool_get_active_count pool' ≡ connection_pool_get_active_count pool + 1)
    × (failed : ConnectionPool) × (connection_pool_add false true pool (some 6) 200
        ≡ returns (none, failed))
    × (failed.count ≡ pool.count)
    × (connection_pool_get_active_count failed ≡ connection_pool_get_active_count pool)
connection_pool_add-get_by_id_example =
    connection_pool_add-get_by_id (pool_of (online ∷ blank ∷ [])) true 6 200
      (record { counted = refl; active = refl; below = with_room-AllBelow }) (omega arith)
      (omega arith) (omega arith)
