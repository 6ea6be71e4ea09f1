-- ===== src/WebSocket/Server.antt =====
-- The server of server/src/websocket_server.c: its array of clients, how a client comes in and how
-- it is removed. Every function that locks clients_mutex runs as one step. The sockets are
-- arguments: what is received from a client, and whether what is sent to it is taken.
pub mod Rounds
pub mod Sending
pub mod Connecting
pub mod Waiting
use chatweb.Base.{
  ℕ, ◌+◌, ◌-◌, ◌%◌, ◌^◌, Bool, true, false, ◌&&◌, List, [], ◌∷◌, Option, none, some, leb, ◌==◌,
  if◌then◌else◌, length, replicate,
}
use chatweb.Base.Memory.{add_size, sub_size}
use chatweb.Libc.{Bytes}
use chatweb.WebSocket.Receive.{Client, ConnectionState, Stats, Event}
use chatweb.WebSocket.Closing.{close_frame}

-- max_clients is the number of slots.
pub record Server : Type 0 where
  pub clients : List (Option Client)
  pub client_count : ℕ
  pub next_client_id : ℕ
  pub max_message_size : ℕ
  pub timeout : ℕ
  pub ping_interval : ℕ
  pub stats : Stats

pub data Round : Type 0 where
  stuck corrupt : Round
  done : Server → List Event → Round

abbrev pub new_stats : Stats
new_stats = record {
  connections_total = 0;
  connections_active = 0;
  connections_closed = 0;
  messages_received = 0;
  messages_sent = 0;
  bytes_received = 0;
  bytes_sent = 0;
  ping_count = 0;
  pong_count = 0;
}

-- Without TLS. The flags of the two allocations and of the three initialisations.
unfoldable pub websocket_server_create : Bool → Bool → Bool → ℕ → ℕ → ℕ → ℕ → Option Server
websocket_server_create server_ok slots_ok locks_ok max_clients max_message_size timeout
      ping_interval =
    if server_ok && slots_ok && locks_ok
    then some (record {
      clients = replicate max_clients none;
      client_count = 0;
      next_client_id = 1;
      max_message_size = max_message_size;
      timeout = timeout;
      ping_interval = ping_interval;
      stats = new_stats;
    })
    else none

unfoldable pub create_client : ℕ → ℕ → Client
create_client client_id now = record {
  client_id = client_id;
  state = ConnectionState.connecting;
  message_buffer = replicate 4096 0;
  message_length = 0;
  opcode = 0;
  message_complete = false;
  fragment_size = 0;
  messages_received = 0;
  messages_sent = 0;
  bytes_received = 0;
  bytes_sent = 0;
  last_activity = now;
  connected_at = now;
  last_ping_sent = 0;
  last_pong_received = 0;
}

abbrev pub has_room : List (Option Client) → Bool
has_room [] = false
has_room (none ∷ slots) = true
has_room (some c ∷ slots) = has_room slots

unfoldable pub place : Client → List (Option Client) → List (Option Client)
place client [] = []
place client (none ∷ slots) = some client ∷ slots
place client (some c ∷ slots) = some c ∷ place client slots

-- The flag says whether the client can be allocated; 0 or -1.
unfoldable pub handle_client_connection : Bool → ℕ → Server → Bool × Server
handle_client_connection false now server = (false, server)
handle_client_connection true now server = (
  true,
  record server {
    clients = place (create_client server.next_client_id now) server.clients;
    client_count =
        if has_room server.clients then (server.client_count + 1) % 2 ^ 32 else server.client_count;
    next_client_id = add_size server.next_client_id 1;
    stats = record server.stats {
      connections_total = add_size server.stats.connections_total 1;
      connections_active = add_size server.stats.connections_active 1;
    };
  },
)

-- A round of accept_thread_function with a connection whose socket can be set non-blocking.
unfoldable pub accept_connection : Bool → ℕ → Server → Server
accept_connection alloc_ok now server =
    if leb (length server.clients) server.client_count
    then server
    else (handle_client_connection alloc_ok now server).1

abbrev pub is_open : ConnectionState → Bool
is_open ConnectionState.opened = true
is_open s = false

unfoldable pub find_client : ℕ → List (Option Client) → Option Client
find_client id [] = none
find_client id (none ∷ cs) = find_client id cs
find_client id (some c ∷ cs) =
    let rest = find_client id cs in if c.client_id == id then some c else rest

unfoldable pub websocket_get_client : Server → ℕ → Option Client
websocket_get_client server client_id = find_client client_id server.clients

unfoldable pub clear_client : ℕ → List (Option Client) → List (Option Client)
clear_client id [] = []
clear_client id (none ∷ cs) = none ∷ clear_client id cs
clear_client id (some c ∷ cs) =
    let rest = clear_client id cs in if c.client_id == id then none ∷ cs else some c ∷ rest

abbrev pub closed_server : Server → ℕ → Server
closed_server server client_id = record server {
  clients = clear_client client_id server.clients;
  client_count = (server.client_count + (2 ^ 32 - 1)) % 2 ^ 32;
  stats = record server.stats {
    connections_active = sub_size server.stats.connections_active 1;
    connections_closed = add_size server.stats.connections_closed 1;
  };
}

-- The flag says whether the caller holds clients_mutex.
unfoldable pub remove_client : Bool → Server → ℕ → ℕ → Bytes → Round
remove_client true server client_id status reason = Round.stuck
remove_client false server client_id status reason = elim (find_client client_id server.clients) [
  | none ↦ done server []
  | some c ↦ elim (is_open c.state) [
    | false ↦ done (closed_server server client_id) []
    | true ↦ elim (close_frame status reason) [
      | none ↦ Round.corrupt
      | some frame ↦ done (closed_server server client_id) (Event.send frame ∷ [])
    ]
  ]
]

unfoldable pub websocket_close_client : Server → ℕ → ℕ → Bytes → Round
websocket_close_client server client_id status reason =
    remove_client false server client_id status reason

unfoldable pub websocket_get_client_count : Server → ℕ
websocket_get_client_count server = server.client_count

unfoldable pub websocket_get_stats : Server → Stats
websocket_get_stats server = record server.stats { connections_active = server.client_count }

unfoldable pub websocket_reset_stats : Server → Server
websocket_reset_stats server = record server { stats = new_stats }
