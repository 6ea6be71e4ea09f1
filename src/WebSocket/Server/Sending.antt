-- ===== src/WebSocket/Server/Sending.antt =====
-- What server/src/websocket_server.c sends to its clients on request: send_websocket_frame, and the
-- functions that call it for one client or for all that are open.
use chatweb.Base.{
  ℕ, ◌+◌, ◌*◌, Bool, true, false, ◌&&◌, ◌||◌, List, [], ◌∷◌, Option, none, some, ltb, leb, ◌==◌,
  if◌then◌else◌, length,
}
use chatweb.Base.Memory.{add_size}
use chatweb.Libc.{Bytes}
use chatweb.WebSocket.Frame.{encode_len}
use chatweb.WebSocket.Receive.{Client}
use chatweb.WebSocket.Server.{Server, is_open, find_client}

-- The flags say whether the header and the payload are taken.
unfoldable pub send_websocket_frame : Bool × Bool → Client → Bytes → Bool × Client
send_websocket_frame (header_ok, payload_ok) client payload =
    let header_len = 2 + length (encode_len (length payload)).1 in
    if header_ok && (length payload == 0 || payload_ok)
    then (
      true,
      record client {
        bytes_sent = add_size client.bytes_sent (header_len + length payload);
        messages_sent = add_size client.messages_sent 1;
      },
    )
    else (false, client)

-- The number of clients that took the frame, and the slots.
unfoldable pub broadcast_slots :
    (ℕ → Bool × Bool) → Bytes → List (Option Client) → ℕ × List (Option Client)
broadcast_slots sends payload [] = (0, [])
broadcast_slots sends payload (none ∷ cs) =
    let (n, rest) = broadcast_slots sends payload cs in (n, none ∷ rest)
broadcast_slots sends payload (some c ∷ cs) =
    let (n, rest) = broadcast_slots sends payload cs in
    if is_open c.state
    then (let (ok, c') = send_websocket_frame (sends c.client_id) c payload in
        (if ok then n + 1 else n, some c' ∷ rest))
    else (n, some c ∷ rest)

-- websocket_broadcast_text, and websocket_broadcast_binary for a payload that is not empty, on a
-- server that runs; `none` is -1.
unfoldable pub websocket_broadcast : (ℕ → Bool × Bool) → Bytes → Server → Option ℕ × Server
websocket_broadcast sends payload server =
    if ltb server.max_message_size (length payload)
    then (none, server)
    else (let (n, cs) = broadcast_slots sends payload server.clients in
        (
          some n,
          record server {
            clients = cs;
            stats = record server.stats {
              messages_sent = add_size server.stats.messages_sent n;
              bytes_sent = add_size server.stats.bytes_sent (length payload * n);
            };
          },
        ))

unfoldable pub put_client : Client → List (Option Client) → List (Option Client)
put_client client [] = []
put_client client (none ∷ cs) = none ∷ put_client client cs
put_client client (some c ∷ cs) =
    let rest = put_client client cs in
    if c.client_id == client.client_id then some client ∷ cs else some c ∷ rest

abbrev pub send_to : Bool × Bool → Bytes → Server → Option Client → Bool × Server
send_to sends payload server none = (false, server)
send_to sends payload server (some c) =
    if is_open c.state && leb (length payload) server.max_message_size
    then (let (ok, c') = send_websocket_frame sends c payload in
        if ok
        then (
          true,
          record server {
            clients = put_client c' server.clients;
            stats = record server.stats {
              messages_sent = add_size server.stats.messages_sent 1;
              bytes_sent = add_size server.stats.bytes_sent (length payload);
            };
          },
        )
        else (false, server))
    else (false, server)

-- 0 or -1
unfoldable pub websocket_send_text : Bool × Bool → Server → ℕ → Bytes → Bool × Server
websocket_send_text sends server client_id text =
    send_to sends text server (find_client client_id server.clients)

unfoldable pub websocket_send_binary : Bool × Bool → Server → ℕ → Bytes → Bool × Server
websocket_send_binary sends server client_id [] = (false, server)
websocket_send_binary sends server client_id (b ∷ bytes) =
    send_to sends (b ∷ bytes) server (find_client client_id server.clients)
