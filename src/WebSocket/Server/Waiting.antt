-- ===== src/WebSocket/Server/Waiting.antt =====
-- The clients of server/src/websocket_server.c wait for their handshake: worker_thread_function
-- gives only the sockets of open clients to select, and only the handshake opens a client.
use chatweb.Base.{
  ℕ, ◌^◌, ◌<◌, ◌≡◌, refl, sym, ap, subst, Bool, true, false, List, [], ◌∷◌, some, arith, ltb, leb,
  length, Bool-cases, Option-cases, inl, inr, length-replicate,
}
use chatweb.Libc.{Bytes}
use chatweb.WebSocket.Receive.{Event}
use chatweb.WebSocket.Server.{
  Server, Round, done, websocket_server_create, create_client, handle_client_connection,
  accept_connection, find_client, remove_client, websocket_close_client, websocket_reset_stats,
}
use chatweb.WebSocket.Server.Rounds.{
  Env, put_slots, worker_round, check_client_timeout, cleanup_round,
}
use chatweb.WebSocket.Server.Sending.{
  websocket_broadcast, send_to, websocket_send_text, websocket_send_binary,
}
use chatweb.WebSocket.Server.Connecting.{
  AllConnecting, count_used, read_slots-AllConnecting, ping_slots-AllConnecting,
  broadcast_slots-AllConnecting, place-AllConnecting, count_used-le, Cleared, find_client-Cleared,
  find_client-Connecting, AllConnecting-replicate, no_client, any_timed_out-AllConnecting,
}

-- No client is open, no message was received or sent, and the clients are counted.
pub record Waiting (server : Server) : Type 0 where
  pub connecting : AllConnecting server.clients
  pub counted : server.client_count ≡ count_used server.clients
  pub small : length server.clients < 2 ^ 32
  pub unread : server.stats.messages_received ≡ 0
  pub unsent : server.stats.messages_sent ≡ 0

-- What the threads do, and the calls of the server's interface, where they end without a fault.
pub data Step : Server → Server → Type 0 where
  accept :
      {server : Server} (alloc_ok : Bool) (now : ℕ)
      → Step server (accept_connection alloc_ok now server)
  work :
      {server server' : Server} {events : List Event} (env : Env)
      → worker_round env server ≡ done server' events
      → Step server server'
  check :
      {server server' : Server} {events : List Event} (now : ℕ)
      → check_client_timeout now server ≡ done server' events
      → Step server server'
  ping :
      {server server' : Server} {events : List Event} (sends : ℕ → Bool) (now : ℕ)
      → cleanup_round sends now server ≡ done server' events
      → Step server server'
  close :
      {server server' : Server} {events : List Event} (client_id status : ℕ) (reason : Bytes)
      → websocket_close_client server client_id status reason ≡ done server' events
      → Step server server'
  broadcast :
      {server : Server} (sends : ℕ → Bool × Bool) (payload : Bytes)
      → Step server (websocket_broadcast sends payload server).1
  send_text :
      {server : Server} (sends : Bool × Bool) (client_id : ℕ) (text : Bytes)
      → Step server (websocket_send_text sends server client_id text).1
  send_binary :
      {server : Server} (sends : Bool × Bool) (client_id : ℕ) (bytes : Bytes)
      → Step server (websocket_send_binary sends server client_id bytes).1
  reset : {server : Server} → Step server (websocket_reset_stats server)

pub data Steps : Server → Server → Type 0 where
  here : {server : Server} → Steps server server
  next :
      {server server' server'' : Server}
      → Steps server server'
      → Step server' server''
      → Steps server server''

-- What a round leaves is waiting, if it is a server at all.
abbrev Leaves : Round → Type 0
Leaves Round.stuck = Unit {0}
Leaves Round.corrupt = Unit {0}
Leaves (done server events) = Waiting server

Leaves-done :
    {r : Round} {server : Server} {events : List Event}
    → r ≡ done server events
    → Leaves r
    → Waiting server
Leaves-done e h = subst Leaves e h

close-Leaves :
    (server : Server) (client_id status : ℕ) (reason : Bytes)
    → Waiting server
    → Leaves (websocket_close_client server client_id status reason)
unfolding websocket_close_client remove_client
close-Leaves server client_id status reason w =
    elim (Option-cases (find_client client_id server.clients)) [
      | inl g ↦ rw (g, remove_client) w
      | inr (c, g) ↦
          let (x, y, z, o) =
            subst (Cleared client_id server.clients) g
              (find_client-Cleared client_id server.clients w.connecting) in
          let n = w.counted in
          let l = w.small in
          rw (g, o, remove_client)
            (record {
              connecting = x;
              counted = omega (arith, count_used-le server.clients);
              small = omega arith;
              unread = w.unread;
              unsent = w.unsent;
            })
    ]

accept-Waiting :
    (alloc_ok : Bool) (now : ℕ) (server : Server)
    → Waiting server
    → Waiting (accept_connection alloc_ok now server)
unfolding accept_connection handle_client_connection create_client
accept-Waiting alloc_ok now server w =
    elim (Bool-cases (leb (length server.clients) server.client_count)) [
      | inl full ↦ rw (full, accept_connection) w
      | inr room ↦ rw (room, accept_connection) (taken alloc_ok (ground arith))
    ]
  where
    taken :
        (alloc_ok : Bool)
        → server.client_count < length server.clients
        → Waiting (handle_client_connection alloc_ok now server).1
    taken false b = w
    taken true b =
        let (x, y, z, f) =
          place-AllConnecting (create_client server.next_client_id now) server.clients refl
            w.connecting in
        let n = w.counted in
        let l = w.small in
        record {
          connecting = x;
          counted = ground arith;
          small = omega arith;
          unread = w.unread;
          unsent = w.unsent;
        }

broadcast-Waiting :
    (sends : ℕ → Bool × Bool) (payload : Bytes) (server : Server)
    → Waiting server
    → Waiting (websocket_broadcast sends payload server).1
unfolding websocket_broadcast
broadcast-Waiting sends payload server w =
    elim (Bool-cases (ltb server.max_message_size (length payload))) [
      | inl t ↦ rw (t, websocket_broadcast) w
      | inr t ↦
          let e = broadcast_slots-AllConnecting sends payload server.clients w.connecting in
          let n = w.unsent in
          rw (t, e, websocket_broadcast)
            (record {
              connecting = w.connecting;
              counted = w.counted;
              small = w.small;
              unread = w.unread;
              unsent = omega arith;
            })
    ]

send_to-Connecting :
    (sends : Bool × Bool) (client_id : ℕ) (payload : Bytes) (server : Server)
    → Waiting server
    → send_to sends payload server (find_client client_id server.clients) ≡ (false, server)
send_to-Connecting sends client_id payload server w =
    elim (Option-cases (find_client client_id server.clients)) [
      | inl e ↦ rw e refl
      | inr (c, e) ↦
          let o = find_client-Connecting client_id server.clients c w.connecting e in rw (e, o) refl
    ]

send_binary-Waiting :
    (sends : Bool × Bool) (client_id : ℕ) (bytes : Bytes) (server : Server)
    → Waiting server
    → Waiting (websocket_send_binary sends server client_id bytes).1
unfolding websocket_send_binary
send_binary-Waiting sends client_id [] server w = w
send_binary-Waiting sends client_id (b ∷ bytes) server w =
    rw (send_to-Connecting sends client_id (b ∷ bytes) server w) w

-- The rounds of the threads end, and change nothing.
pub record Idle (server : Server) : Type 0 where
  pub works : (env : Env) → worker_round env server ≡ done server []
  pub checks : (now : ℕ) → check_client_timeout now server ≡ done server []
  pub pings : (sends : ℕ → Bool) (now : ℕ) → cleanup_round sends now server ≡ done server []

Waiting-Idle : (server : Server) → Waiting server → Idle server
unfolding worker_round check_client_timeout cleanup_round
Waiting-Idle server w =
    let a = w.connecting in
    record {
      works = λ env.
          ap (put_slots server)
            (read_slots-AllConnecting env server.max_message_size server.clients server.stats a);
      checks = λ now.
          rw (any_timed_out-AllConnecting now server.timeout server.clients a, check_client_timeout)
            refl;
      pings = λ sends now.
          ap (put_slots server)
            (ping_slots-AllConnecting sends now server.ping_interval server.clients server.stats a);
    }

after_idle :
    {r : Round} (server : Server) {server' : Server} {events : List Event}
    → r ≡ done server events
    → r ≡ done server' []
    → Waiting server'
    → Waiting server
after_idle server e f w = Leaves-done e (subst Leaves (sym f) w)

Step-Waiting : {server server' : Server} → Waiting server → Step server server' → Waiting server'
unfolding websocket_send_text websocket_reset_stats
Step-Waiting w (accept alloc_ok now) = accept-Waiting alloc_ok now _ w
Step-Waiting {server} {server'} w (work env e) =
    after_idle server' e ((Waiting-Idle server w).works env) w
Step-Waiting {server} {server'} w (check now e) =
    after_idle server' e ((Waiting-Idle server w).checks now) w
Step-Waiting {server} {server'} w (ping sends now e) =
    after_idle server' e ((Waiting-Idle server w).pings sends now) w
Step-Waiting {server} w (close client_id status reason e) =
    Leaves-done e (close-Leaves server client_id status reason w)
Step-Waiting {server} w (broadcast sends payload) = broadcast-Waiting sends payload server w
Step-Waiting {server} w (send_text sends client_id text) =
    rw (send_to-Connecting sends client_id text server w) w
Step-Waiting {server} w (send_binary sends client_id bytes) =
    send_binary-Waiting sends client_id bytes server w
Step-Waiting w reset = record {
  connecting = w.connecting;
  counted = w.counted;
  small = w.small;
  unread = refl;
  unsent = refl;
}

Steps-Waiting : {server server' : Server} → Waiting server → Steps server server' → Waiting server'
Steps-Waiting w here = w
Steps-Waiting w (next r s) = Step-Waiting (Steps-Waiting w r) s

-- Whatever the threads of a new server do, and whatever its clients send, every client waits for
-- its handshake: none is ever open, no message is received or sent, client_count is the number of
-- slots that are used, and the rounds of the threads that read, check the time and ping end
-- without changing anything.
pub websocket_server_create-Waiting :
    (max_clients max_message_size timeout ping_interval : ℕ)
    → max_clients < 2 ^ 32
    → (server : Server) × (websocket_server_create true true true max_clients max_message_size
          timeout ping_interval
        ≡ some server)
      × ((server' : Server) → Steps server server' → Waiting server' × Idle server')
unfolding websocket_server_create
websocket_server_create-Waiting max_clients max_message_size timeout ping_interval h =
    let (a, c) = AllConnecting-replicate max_clients in
    (
      _,
      refl,
      λ server' r.
          let w =
            Steps-Waiting
              (record {
                connecting = a;
                counted = sym c;
                small = omega (arith, length-replicate max_clients no_client);
                unread = refl;
                unsent = refl;
              })
              r in
          (w, Waiting-Idle server' w),
    )
