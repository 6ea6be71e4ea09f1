-- ===== src/WebSocket/Receive.antt =====
-- process_websocket_frame of server/src/websocket_server.c: the frames that a client sends, and the
-- message that their fragments make up. The worker thread calls it, and holds clients_mutex.
pub mod Fragments
pub mod Single
use chatweb.Base.{
  ℕ, ◌+◌, ◌-◌, Bool, true, false, ◌&&◌, ◌||◌, List, [], ◌∷◌, ◌++◌, Option, none, some, ltb, ◌==◌,
  if◌then◌else◌, length, take, drop, get_or, replicate,
}
use chatweb.Base.Memory.{add_size, memcpy_to}
use chatweb.Libc.{Bytes}
use chatweb.WebSocket.Frame.{BitOrder, Header, read_header, extended_len}
use chatweb.WebSocket.Frame.Masking.{apply_key}

pub data ConnectionState : Type 0 where
  connecting opened closing closed error : ConnectionState

-- websocket_client_t, as far as the server uses it. The capacity of the buffer is its length.
pub record Client : Type 0 where
  pub client_id : ℕ
  pub state : ConnectionState
  pub message_buffer : Bytes
  pub message_length : ℕ
  pub opcode : ℕ
  pub message_complete : Bool
  pub fragment_size : ℕ
  pub messages_received : ℕ
  pub messages_sent : ℕ
  pub bytes_received : ℕ
  pub bytes_sent : ℕ
  pub last_activity : ℕ
  pub connected_at : ℕ
  pub last_ping_sent : ℕ
  pub last_pong_received : ℕ

-- websocket_stats_t
pub record Stats : Type 0 where
  pub connections_total : ℕ
  pub connections_active : ℕ
  pub connections_closed : ℕ
  pub messages_received : ℕ
  pub messages_sent : ℕ
  pub bytes_received : ℕ
  pub bytes_sent : ℕ
  pub ping_count : ℕ
  pub pong_count : ℕ

-- The calls of on_message and on_binary, and what is sent to the client.
pub data Event : Type 0 where
  on_message : (opcode : ℕ) (payload : Bytes) → Event
  on_binary : (payload : Bytes) → Event
  send : (bytes : Bytes) → Event

-- How a call ends: clients_mutex is locked again, memory past the buffer is written, or the result
-- (0 or -1) with the client, the statistics and the events.
pub data Outcome : Type 0 where
  deadlocks faults : Outcome
  returns : Bool → Client → Stats → List Event → Outcome

-- What realloc adds is never read before it is written; here it is zeros.
unfoldable pub grow_buffer : Bool → ℕ → Bytes → Option Bytes
grow_buffer realloc_ok n buffer =
    if ltb (length buffer) n
    then (if realloc_ok then some (buffer ++ replicate (n - length buffer) 0) else none)
    else some buffer

pub data Appended : Type 0 where
  no_memory out_of_bounds : Appended
  appended : Client → Appended

-- The payload goes behind what the buffer holds of the message.
unfoldable pub append_payload : Bool → Client → Bytes → Appended
append_payload realloc_ok client payload =
    let n = add_size client.message_length (length payload) in
    elim (grow_buffer realloc_ok n client.message_buffer) [
      | none ↦ no_memory
      | some buffer ↦ elim (memcpy_to buffer client.message_length payload) [
        | none ↦ out_of_bounds
        | some buffer' ↦ appended (record client {
          message_buffer = buffer';
          message_length = n;
          fragment_size = add_size client.fragment_size (length payload);
        })
      ]
    ]

abbrev pub delivered : ℕ → Bytes → List Event
delivered opcode payload =
    on_message opcode payload ∷ (if opcode == 2 then on_binary payload ∷ [] else [])

-- The callbacks are set.
unfoldable pub deliver : Client → Stats → ℕ → Bytes → Outcome
deliver client stats opcode payload =
    returns true (record client { messages_received = add_size client.messages_received 1 })
      (record stats { messages_received = add_size stats.messages_received 1 })
      (delivered opcode payload)

-- The first fragment of a message: the buffer is filled from its start.
unfoldable pub start_message : Bool → Client → Stats → ℕ → Bytes → Outcome
start_message realloc_ok client stats opcode payload =
    let c = record client { opcode = opcode; message_complete = false; fragment_size = 0 } in
    elim (append_payload realloc_ok (record c { message_length = 0 }) payload) [
      | no_memory ↦ returns false c stats []
      | out_of_bounds ↦ faults
      | appended c' ↦ returns true c' stats []
    ]

-- The message is delivered from the buffer, and the buffer is empty again.
unfoldable pub finish_message : Client → Stats → Outcome
finish_message client stats =
    elim (deliver client stats client.opcode (take client.message_length client.message_buffer)) [
      | deadlocks ↦ deadlocks
      | faults ↦ faults
      | returns ok c s events ↦
          returns ok (record c { message_length = 0; fragment_size = 0; message_complete = true }) s
            events
    ]

unfoldable pub continue_message : Bool → Client → Stats → Bool → Bytes → Outcome
continue_message realloc_ok client stats fin payload =
    elim (append_payload realloc_ok client payload) [
      | no_memory ↦ returns false client stats []
      | out_of_bounds ↦ faults
      | appended c ↦ if fin then finish_message c stats else returns true c stats []
    ]

-- The switch on the opcode. A close frame ends in remove_client, which locks clients_mutex.
unfoldable pub handle_frame : Bool → ℕ → Client → Stats → ℕ → Bool → Bytes → Outcome
handle_frame realloc_ok now client stats opcode fin payload =
    if opcode == 1 || opcode == 2
    then (if fin
        then deliver client stats opcode payload
        else start_message realloc_ok client stats opcode payload)
    else if opcode == 0
    then continue_message realloc_ok client stats fin payload
    else if opcode == 9
    then returns true client stats (send (138 ∷ 0 ∷ []) ∷ [])
    else if opcode == 10
    then returns true (record client { last_pong_received = now })
        (record stats { pong_count = add_size stats.pong_count 1 }) []
    else if opcode == 8
    then deadlocks
    else returns true client stats []

-- From the end of the length on. A payload over the limit ends in remove_client too.
unfoldable pub process_payload : Bool → ℕ → ℕ → Client → Stats → Header → Bytes → ℕ → ℕ → Outcome
process_payload realloc_ok now max_message_size client stats h bs len offset =
    let start = if h.mask then offset + 4 else offset in
    if ltb max_message_size len
    then deadlocks
    else if h.mask && ltb (length bs) (offset + 4)
    then returns false client stats []
    else if ltb (length bs) (add_size start len)
    then returns false client stats []
    else handle_frame realloc_ok now client stats h.opcode h.fin (
        if h.mask
        then apply_key (take 4 (drop offset bs)) 0 (take len (drop start bs))
        else take len (drop start bs))

unfoldable pub process_websocket_frame : BitOrder → Bool → ℕ → ℕ → Client → Stats → Bytes → Outcome
process_websocket_frame order realloc_ok now max_message_size client stats bs =
    let h = read_header order (get_or bs 0 0) (get_or bs 1 0) in
    if ltb (length bs) 2
    then returns false client stats []
    else elim (extended_len h.payload_len bs) [
      | none ↦ returns false client stats []
      | some (len, offset) ↦
          process_payload realloc_ok now max_message_size client stats h bs len offset
    ]
