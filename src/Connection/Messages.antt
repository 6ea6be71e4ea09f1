-- ===== src/Connection/Messages.antt =====
-- Messages on a connection, from server/src/connection.c and common/protocol.h: sending one, receiving
-- one, and the loop that takes the complete ones from the data that came. The functions that turn a
-- header into bytes and back, and the checksum, are declared in common/protocol.h and stand in no
-- file, so they are arguments.
pub mod Sending
pub mod RoundTrip
pub mod Loop
pub mod Draining
pub mod Torn
use chatweb.Base.{
  ℕ, zero, suc, ◌+◌, ◌*◌, ◌%◌, ◌-◌, ◌^◌, ◌≤◌, ◌<◌, ◌≡◌, Bool, true, false, not, ◌&&◌, List, [], ◌∷◌,
  ◌++◌, Option, none, some, length, take, drop, ltb, leb, ◌==◌, if◌then◌else◌,
}
use chatweb.Base.Memory.{size_mod, add_size}
use chatweb.Libc.{Bytes}
use chatweb.Connection.RateLimiter.{RateLimiter, SendResult, connection_send}

-- message_header_t, without the reserved bytes, which are zero
pub record Header : Type 0 where
  pub magic : ℕ
  pub version : ℕ
  pub message_type : ℕ
  pub flags : ℕ
  pub timestamp : ℕ
  pub message_id : ℕ
  pub correlation_id : ℕ
  pub body_length : ℕ
  pub checksum : ℕ

-- Of deserialize_message_header the model gives the 64 bytes of a header, and `none` is false.
pub record Protocol : Type 0 where
  pub serialize_message_header : Header → Bytes
  pub deserialize_message_header : Bytes → Option Header
  pub calculate_message_checksum : Bytes → ℕ

-- The fields fit their types.
pub record IsHeader (header : Header) : Type 0 where
  pub magic_u32 : header.magic < 2 ^ 32
  pub version_u32 : header.version < 2 ^ 32
  pub message_type_u32 : header.message_type < 2 ^ 32
  pub flags_u32 : header.flags < 2 ^ 32
  pub timestamp_u64 : header.timestamp < 2 ^ 64
  pub message_id_u64 : header.message_id < 2 ^ 64
  pub correlation_id_u64 : header.correlation_id < 2 ^ 64
  pub body_length_u32 : header.body_length < 2 ^ 32
  pub checksum_u32 : header.checksum < 2 ^ 32

abbrev pub header_size : ℕ
header_size = 64

-- What the code relies on.
pub record IsProtocol (protocol : Protocol) : Type 0 where
  pub length-serialize :
      (header : Header) → length (protocol.serialize_message_header header) ≡ header_size
  pub deserialize-serialize :
      (header : Header)
      → IsHeader header
      → protocol.deserialize_message_header (protocol.serialize_message_header header) ≡ some header
  pub checksum_u32 : (body : Bytes) → protocol.calculate_message_checksum body < 2 ^ 32

abbrev pub protocol_magic : ℕ
protocol_magic = 1396921344

abbrev pub protocol_version : ℕ
protocol_version = 196608

abbrev pub max_message_size : ℕ
max_message_size = 65536

abbrev pub msg_system_heartbeat : ℕ
msg_system_heartbeat = 2

-- The counts of messages are uint32_t.
abbrev pub next_u32 : ℕ → ℕ
next_u32 n = (n + 1) % 2 ^ 32

-- The part of client_connection_t that a send changes, and what has gone out.
pub record Sender : Type 0 where
  pub limiter : RateLimiter
  pub messages_sent : ℕ
  pub wire : Bytes

-- How one call of connection_send meets the clock and the transport.
pub record Attempt : Type 0 where
  pub before : ℕ × ℕ
  pub transport : ℕ → Option ℕ
  pub after : ℕ × ℕ

-- The bytes that the transport has taken go out; the flag says whether they are all.
unfoldable pub count_sent : Sender → Bytes → SendResult × RateLimiter → Bool × Sender
count_sent sender body (SendResult.sent (some n), limiter) =
    (n == length body, record sender { limiter = limiter; wire = sender.wire ++ take n body })
count_sent sender body (SendResult.sent none, limiter) =
    (false, record sender { limiter = limiter })
count_sent sender body (SendResult.limited, limiter) = (false, record sender { limiter = limiter })
count_sent sender body (SendResult.invalid, limiter) = (false, record sender { limiter = limiter })

-- connection_send with the bytes
unfoldable pub send_bytes : Sender → Bool → Bytes → Attempt → Bool × Sender
send_bytes sender is_open body attempt = count_sent sender body (
    connection_send sender.limiter is_open (length body) attempt.before attempt.transport
      attempt.after)

unfoldable pub make_header : Protocol → ℕ → ℕ → ℕ → Bytes → Header
make_header protocol message_type now message_id body = record {
  magic = protocol_magic;
  version = protocol_version;
  message_type = message_type;
  flags = 0;
  timestamp = now;
  message_id = message_id;
  correlation_id = 0;
  body_length = length body;
  checksum = if ltb 0 (length body) then protocol.calculate_message_checksum body else 0;
}

unfoldable pub send_body : Bool × Sender → Bool → Bytes → Attempt → ℕ × Sender
send_body (header_sent, sender) is_open body attempt =
    if not header_sent
    then (3, sender)
    else if ltb 0 (length body)
    then (let (body_sent, sender') = send_bytes sender is_open body attempt in
        (if body_sent then 0 else 4, sender'))
    else (0, sender)

-- The signs of the codes -2, -3 and -4 are left out.
unfoldable pub connection_send_message :
    Protocol → Sender → Bool → ℕ → Bytes → ℕ → Attempt → Attempt → ℕ × Sender
connection_send_message protocol sender is_open message_type body now first second =
    if ltb max_message_size (length body)
    then (2, sender)
    else (let message_id = next_u32 sender.messages_sent in
        let header = make_header protocol message_type now message_id body in
        send_body
          (send_bytes (record sender { messages_sent = message_id }) is_open
            (protocol.serialize_message_header header) first)
          is_open body second)

-- The used part of the receive buffer, its size, and the count of messages received.
pub record Receiver : Type 0 where
  pub recv_buffer : Bytes
  pub recv_buffer_size : ℕ
  pub messages_received : ℕ

-- What connection_receive_message comes to: it wants more data, it fails with a code whose sign is
-- left out, or it has a message's type and body.
pub data Received : Type 0 where
  more : Received
  failed : ℕ → Received
  message : ℕ → Bytes → Received

unfoldable pub parse_message_header : Protocol → Bytes → Option Header
parse_message_header protocol recv_buffer =
    protocol.deserialize_message_header (take header_size recv_buffer)

-- The steps after the header was parsed.
unfoldable pub receive_body : Protocol → Bool → Receiver → Header → Received × Receiver
receive_body protocol memory conn header =
    let body = take header.body_length (drop header_size conn.recv_buffer) in
    if not (header.magic == protocol_magic)
    then (Received.failed 3, conn)
    else if ltb (length conn.recv_buffer) (header_size + header.body_length)
    then (Received.more, conn)
    else if not memory
    then (Received.failed 4, conn)
    else if ltb 0 header.body_length
        && not (protocol.calculate_message_checksum body == header.checksum)
    then (Received.failed 5, conn)
    else (
      Received.message header.message_type body,
      record conn {
        recv_buffer = drop (header_size + header.body_length) conn.recv_buffer;
        messages_received = next_u32 conn.messages_received;
      },
    )

unfoldable pub connection_receive_message : Protocol → Bool → Receiver → Received × Receiver
connection_receive_message protocol memory conn =
    if ltb (length conn.recv_buffer) header_size
    then (Received.more, conn)
    else elim (parse_message_header protocol conn.recv_buffer) [
      | none ↦ (Received.failed 2, conn)
      | some header ↦ receive_body protocol memory conn header
    ]

-- The header at the start of the buffer, if its message is there to the end: the tests of the loop of
-- connection_process_data.
unfoldable pub next_message : Protocol → Bytes → Option Header
next_message protocol recv_buffer =
    if ltb (length recv_buffer) header_size
    then none
    else elim (parse_message_header protocol recv_buffer) [
      | none ↦ none
      | some header ↦
          if ltb (length recv_buffer) (header_size + header.body_length) then none else some header
    ]

-- The flag says whether memory can be had.
unfoldable pub resize_recv_buffer : Bool → Receiver → ℕ → Option Receiver
resize_recv_buffer memory conn new_size =
    if leb new_size conn.recv_buffer_size
    then some conn
    else if memory
    then some (record conn { recv_buffer_size = new_size })
    else none

unfoldable pub make_space : Bool → Receiver → ℕ → Option Receiver
make_space memory conn len =
    let needed = add_size (length conn.recv_buffer) len in
    if ltb conn.recv_buffer_size needed
    then resize_recv_buffer memory conn (needed * 2 % size_mod)
    else some conn

-- What connection_process_data returns: a code whose sign is left out, or a count.
pub data Taken : Type 0 where
  rejected processed : ℕ → Taken

-- What handle_heartbeat does to the other parts of the connection, which are `rest`, is an argument:
-- it is connection_send_message with the bytes of the heartbeat.
module _ {A : Type 0} (protocol : Protocol) (handle_heartbeat : Bytes → A → A) where
  -- A heartbeat of eight bytes is handled, and nothing else is.
  unfoldable pub process_complete_message : Header → Bytes → A → A
  process_complete_message header recv_buffer rest =
      if header.message_type == msg_system_heartbeat && (header.body_length == 8)
      then handle_heartbeat (take 8 (drop header_size recv_buffer)) rest
      else rest

  -- The loop of connection_process_data on fuel: the number of messages taken, and what is left.
  unfoldable pub process_loop : ℕ → Bytes → A → ℕ × Bytes × A
  process_loop zero recv_buffer rest = (0, recv_buffer, rest)
  process_loop (suc fuel) recv_buffer rest = elim (next_message protocol recv_buffer) [
    | none ↦ (0, recv_buffer, rest)
    | some header ↦
        (let (count, left, rest') =
            process_loop fuel (drop (header_size + header.body_length) recv_buffer)
              (process_complete_message header recv_buffer rest) in
          (suc count, left, rest'))
  ]

  -- Each round takes 64 bytes at least, so the bytes are fuel enough.
  unfoldable pub connection_process_data : Bool → Receiver → A → Bytes → Taken × Receiver × A
  connection_process_data memory conn rest chunk =
      if length chunk == 0
      then (Taken.rejected 1, conn, rest)
      else elim (make_space memory conn (length chunk)) [
        | none ↦ (Taken.rejected 2, conn, rest)
        | some conn' ↦
            (let whole = conn.recv_buffer ++ chunk in
              let (count, left, rest') = process_loop (length whole) whole rest in
              (Taken.processed count, record conn' { recv_buffer = left }, rest'))
      ]
