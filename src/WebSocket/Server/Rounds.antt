-- ===== src/WebSocket/Server/Rounds.antt =====
-- The rounds of the threads of server/src/websocket_server.c: worker_thread_function with
-- check_client_timeout, and cleanup_thread_function.
use chatweb.Base.{
  ℕ, ◌*◌, ◌%◌, ◌^◌, Bool, true, false, ◌&&◌, List, [], ◌∷◌, ◌++◌, Option, none, some, ltb,
  if◌then◌else◌, length,
}
use chatweb.Base.Memory.{add_size, sub_size}
use chatweb.Libc.{Bytes}
use chatweb.WebSocket.Frame.{BitOrder}
use chatweb.WebSocket.Receive.{
  Client, ConnectionState, Stats, Event, Outcome, deadlocks, faults, returns,
  process_websocket_frame,
}
use chatweb.WebSocket.Handshake.{handle_handshake}
use chatweb.WebSocket.Server.{Server, Round, done, is_open}

pub data Received : Type 0 where
  nothing ended failed : Received
  got : Bytes → Received

-- What a round of a thread meets: the layout of bit fields, whether memory can be had, whether a
-- handshake's response is taken, the clock, and what each client sent.
pub record Env : Type 0 where
  pub order : BitOrder
  pub realloc_ok : Bool
  pub send_ok : Bool
  pub now : ℕ
  pub received : ℕ → Received

abbrev pub handle_data : Env → ℕ → ConnectionState → Client → Stats → Bytes → Outcome
handle_data env max ConnectionState.connecting client stats bs =
    let (ok, c) = handle_handshake env.send_ok env.now client bs in returns ok c stats []
handle_data env max ConnectionState.opened client stats bs =
    process_websocket_frame env.order env.realloc_ok env.now max client stats bs
handle_data env max s client stats bs = returns true client stats []

abbrev pub count_bytes : ℕ → Outcome → Outcome
count_bytes n deadlocks = deadlocks
count_bytes n faults = faults
count_bytes n (returns ok c s events) =
    returns ok (record c { bytes_received = add_size c.bytes_received n })
      (record s { bytes_received = add_size s.bytes_received n }) events

-- A client that select reports. At the end of its data or an error remove_client is called, with
-- clients_mutex held.
unfoldable pub read_client : Env → ℕ → Client → Stats → Received → Outcome
read_client env max client stats nothing = returns true client stats []
read_client env max client stats (got bs) =
    count_bytes (length bs)
      (handle_data env max client.state (record client { last_activity = env.now }) stats bs)
read_client env max client stats ended = deadlocks
read_client env max client stats failed = deadlocks

pub data Slots : Type 0 where
  stuck corrupt : Slots
  slots : List (Option Client) → Stats → List Event → Slots

abbrev pub cons_slot : Option Client → List Event → Slots → Slots
cons_slot c events Slots.stuck = Slots.stuck
cons_slot c events Slots.corrupt = Slots.corrupt
cons_slot c events (slots cs s more) = slots (c ∷ cs) s (events ++ more)

-- Only the sockets of open clients are given to select.
unfoldable pub read_slots : Env → ℕ → List (Option Client) → Stats → Slots
read_slots env max [] stats = slots [] stats []
read_slots env max (none ∷ cs) stats = cons_slot none [] (read_slots env max cs stats)
read_slots env max (some c ∷ cs) stats = elim (is_open c.state) [
  | false ↦ cons_slot (some c) [] (read_slots env max cs stats)
  | true ↦ elim (read_client env max c stats (env.received c.client_id)) [
    | deadlocks ↦ Slots.stuck
    | faults ↦ Slots.corrupt
    | returns ok c' s' events ↦ cons_slot (some c') events (read_slots env max cs s')
  ]
]

abbrev pub put_slots : Server → Slots → Round
put_slots server Slots.stuck = Round.stuck
put_slots server Slots.corrupt = Round.corrupt
put_slots server (slots cs s events) = done (record server { clients = cs; stats = s }) events

-- A round of worker_thread_function in which select reports activity.
unfoldable pub worker_round : Env → Server → Round
worker_round env server =
    put_slots server (read_slots env server.max_message_size server.clients server.stats)

abbrev pub timed_out : ℕ → ℕ → Option Client → Bool
timed_out now timeout none = false
timed_out now timeout (some c) =
    is_open c.state && ltb (timeout * 1000 % 2 ^ 32) (sub_size now c.last_activity)

abbrev pub any_timed_out : ℕ → ℕ → List (Option Client) → Bool
any_timed_out now timeout [] = false
any_timed_out now timeout (c ∷ cs) =
    let rest = any_timed_out now timeout cs in if timed_out now timeout c then true else rest

-- The first client that timed out goes to remove_client, with clients_mutex held.
unfoldable pub check_client_timeout : ℕ → Server → Round
check_client_timeout now server =
    if any_timed_out now server.timeout server.clients then Round.stuck else done server []

-- A ping to each open client whose last one is long ago; the function says which are sent.
unfoldable pub ping_slots : (ℕ → Bool) → ℕ → ℕ → List (Option Client) → Stats → Slots
ping_slots sends now interval [] stats = slots [] stats []
ping_slots sends now interval (none ∷ cs) stats =
    cons_slot none [] (ping_slots sends now interval cs stats)
ping_slots sends now interval (some c ∷ cs) stats =
    elim (is_open c.state
      && ltb (interval * 1000 % 2 ^ 32) (sub_size now c.last_ping_sent)
      && sends c.client_id) [
        | false ↦ cons_slot (some c) [] (ping_slots sends now interval cs stats)
        | true ↦
            cons_slot (some (record c { last_ping_sent = now })) (Event.send (137 ∷ 0 ∷ []) ∷ []) (
              ping_slots sends now interval cs
                (record stats { ping_count = add_size stats.ping_count 1 }))
      ]

-- A round of cleanup_thread_function.
unfoldable pub cleanup_round : (ℕ → Bool) → ℕ → Server → Round
cleanup_round sends now server =
    put_slots server (ping_slots sends now server.ping_interval server.clients server.stats)
