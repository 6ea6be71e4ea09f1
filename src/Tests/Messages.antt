-- ===== src/Tests/Messages.antt =====
-- The theorems on the messages of server/src/connection.c at concrete inputs, with headers in little
-- endian order and the sum of the bytes as the checksum.
use chatweb.Base.{
  ℕ, ◌+◌, ◌*◌, ◌/◌, ◌%◌, ◌^◌, ◌<◌, ◌≡◌, refl, ap, true, List, [], ◌∷◌, ◌++◌, Option, some, length,
  take, drop, get_or, replicate, arith,
}
use chatweb.Libc.{Bytes}
use chatweb.Connection.RateLimiter.{RateLimiter}
use chatweb.Connection.Messages.{
  Header, Protocol, IsProtocol, Sender, Receiver, Received, Taken, Attempt, connection_send_message,
  connection_receive_message, connection_process_data, make_header,
}
use chatweb.Connection.Messages.Torn.{connection_send_message-HasOne}
use chatweb.Connection.Messages.RoundTrip.{connection_send_message-connection_receive_message}
use chatweb.Connection.Messages.Draining.{
  IsMessage, connection_process_data-append, connection_process_data-connection_receive_message,
}

abbrev le32 : ℕ → Bytes
le32 n = n % 256 ∷ n / 256 % 256 ∷ n / 65536 % 256 ∷ n / 16777216 % 256 ∷ []

abbrev le64 : ℕ → Bytes
le64 n = le32 (n % 2 ^ 32) ++ le32 (n / 2 ^ 32)

abbrev read32 : Bytes → ℕ → ℕ
read32 xs i =
    get_or xs i 0
    + 256 * get_or xs (i + 1) 0
    + 65536 * get_or xs (i + 2) 0
    + 16777216 * get_or xs (i + 3) 0

abbrev read64 : Bytes → ℕ → ℕ
read64 xs i = read32 xs i + 4294967296 * read32 xs (i + 4)

abbrev serialize : Header → Bytes
serialize h =
    le32 h.magic
    ++ (le32 h.version
        ++ (le32 h.message_type
            ++ (le32 h.flags
                ++ (le64 h.timestamp
                    ++ (le64 h.message_id
                        ++ (le64 h.correlation_id
                            ++ (le32 h.body_length ++ (le32 h.checksum ++ replicate 16 0))))))))

abbrev deserialize : Bytes → Option Header
deserialize xs = some (record {
  magic = read32 xs 0;
  version = read32 xs 4;
  message_type = read32 xs 8;
  flags = read32 xs 12;
  timestamp = read64 xs 16;
  message_id = read64 xs 24;
  correlation_id = read64 xs 32;
  body_length = read32 xs 40;
  checksum = read32 xs 44;
})

abbrev total : Bytes → ℕ
total [] = 0
total (b ∷ bs) = (b + total bs) % 2 ^ 32

total_lt : (bs : Bytes) → total bs < 2 ^ 32
total_lt [] = omega arith
total_lt (b ∷ bs) = omega arith

abbrev little : Protocol
little = record {
  serialize_message_header = serialize;
  deserialize_message_header = deserialize;
  calculate_message_checksum = total;
}

-- A 32-bit number from its bytes.
abbrev join : ℕ → ℕ
join n =
    n % 256 + 256 * (n / 256 % 256) + 65536 * (n / 65536 % 256) + 16777216 * (n / 16777216 % 256)

join_eq : (n : ℕ) → n < 2 ^ 32 → join n ≡ n
join_eq n h = omega arith

join64_eq : (n : ℕ) → n < 2 ^ 64 → join (n % 2 ^ 32) + 4294967296 * join (n / 2 ^ 32) ≡ n
join64_eq n h =
    omega (arith, join_eq (n % 2 ^ 32) (omega arith), join_eq (n / 2 ^ 32) (omega arith))

little-IsProtocol : IsProtocol little
little-IsProtocol = record {
  length-serialize = λ h. refl;
  deserialize-serialize = λ h v.
      rw
        (
          join_eq h.magic v.magic_u32,
          join_eq h.version v.version_u32,
          join_eq h.message_type v.message_type_u32,
          join_eq h.flags v.flags_u32,
          join64_eq h.timestamp v.timestamp_u64,
          join64_eq h.message_id v.message_id_u64,
          join64_eq h.correlation_id v.correlation_id_u64,
          join_eq h.body_length v.body_length_u32,
          join_eq h.checksum v.checksum_u32,
        )
        refl;
  checksum_u32 = total_lt;
}

-- Three bytes, to be sent as a text.
abbrev body : Bytes
body = 1 ∷ 2 ∷ 3 ∷ []

abbrev text_type : ℕ
text_type = 33554433

abbrev noon : ℕ
noon = 43200000

abbrev limiter : ℕ → RateLimiter
limiter n = record {
  messages_per_minute = n;
  bytes_per_minute = 0;
  last_reset_time = noon;
  message_count = 0;
  byte_count = 0;
}

abbrev sender : ℕ → Sender
sender n = record { limiter = limiter n; messages_sent = 6; wire = 9 ∷ [] }

-- The transport takes everything.
abbrev attempt : Attempt
attempt = record { before = (noon, noon); transport = λ len. some len; after = (noon, noon) }

abbrev receiver : Bytes → Receiver
receiver buffer = record { recv_buffer = buffer; recv_buffer_size = 4096; messages_received = 2 }

connection_send_message-connection_receive_message_example :
    let (code, sender') =
      connection_send_message little (sender 0) true text_type body noon attempt attempt in
    (packet : Bytes) × (code ≡ 0)
    × (sender'.wire ≡ 9 ∷ packet)
    × (connection_receive_message little true (receiver (packet ++ (7 ∷ []))) ≡ (
      Received.message text_type body,
      record { recv_buffer = 7 ∷ []; recv_buffer_size = 4096; messages_received = 3 },
    ))
connection_send_message-connection_receive_message_example =
    connection_send_message-connection_receive_message little (sender 0) text_type body noon attempt
      attempt (receiver []) (7 ∷ []) little-IsProtocol (omega arith) (omega arith) (omega arith)
      (omega arith) (refl, refl) refl refl

connection_send_message-HasOne_example :
    let header = make_header little text_type noon 7 body in
    let (code, sender') =
      connection_send_message little (sender 1) true text_type body noon attempt attempt in
    (code ≡ 4) × (sender'.wire ≡ (9 ∷ []) ++ serialize header) × (header.body_length ≡ 3)
connection_send_message-HasOne_example =
    connection_send_message-HasOne little (sender 1) text_type body noon attempt attempt
      little-IsProtocol (omega arith) (omega arith) (refl, omega arith, refl) (omega arith)
      (omega arith) (omega arith) refl

-- A heartbeat, and the times of the heartbeats seen.
abbrev heartbeat : Bytes
heartbeat =
    serialize (record {
      magic = 1396921344;
      version = 196608;
      message_type = 2;
      flags = 0;
      timestamp = noon;
      message_id = 7;
      correlation_id = 0;
      body_length = 8;
      checksum = 36;
    })
    ++ (1 ∷ 2 ∷ 3 ∷ 4 ∷ 5 ∷ 6 ∷ 7 ∷ 8 ∷ [])

abbrev see : Bytes → List ℕ → List ℕ
see time times = read64 time 0 ∷ times

connection_process_data-append_example :
    let first = connection_process_data little see true (receiver []) [] (take 30 heartbeat) in
    let second = connection_process_data little see true first.1 first.2 (drop 30 heartbeat) in
    let whole =
      connection_process_data little see true
        (receiver [])
        []
        (take 30 heartbeat ++ drop 30 heartbeat) in
    (m : ℕ) × (n : ℕ) × (first.0 ≡ Taken.processed m)
    × (second.0 ≡ Taken.processed n)
    × (whole.0 ≡ Taken.processed (m + n))
    × (second.1.recv_buffer ≡ whole.1.recv_buffer)
    × (second.2 ≡ whole.2)
connection_process_data-append_example =
    connection_process_data-append little see (receiver []) [] (take 30 heartbeat)
      (drop 30 heartbeat) (λ e. omega (arith, ap length e)) (λ e. omega (arith, ap length e))

connection_process_data-connection_receive_message_example :
    let conn' = (connection_process_data little see true (receiver []) [] heartbeat).1 in
    (r : Received) × (connection_receive_message little true conn' ≡ (r, conn')) × (¬ IsMessage r)
connection_process_data-connection_receive_message_example =
    connection_process_data-connection_receive_message little see (receiver []) [] heartbeat true
      (λ e. omega (arith, ap length e))
