-- ===== src/WebSocket/Frame.antt =====
-- The frames of server/src/websocket_server.c: websocket_create_frame, send_websocket_frame and
-- websocket_parse_frame. The order in which the compiler lays out the bit fields of
-- websocket_frame_header_t (server/include/websocket_protocol.h) is an argument.
pub mod Masking
pub mod RoundTrip
use chatweb.Base.{
  ℕ, ◌+◌, ◌-◌, ◌*◌, ◌/◌, ◌%◌, Bool, true, false, ◌&&◌, List, [], ◌∷◌, ◌++◌, Option, none, some, ltb,
  leb, ◌==◌, if◌then◌else◌, length, take, drop, get_or,
}
use chatweb.Base.Memory.{add_size}
use chatweb.Libc.{Bytes}
use Masking.{Key, key_bytes, apply_key}

-- Whether the first bit field is the highest bit of its byte or the lowest.
pub data BitOrder : Type 0 where
  high_first low_first : BitOrder

-- The reserved bits are left out: nothing reads them.
pub record Header : Type 0 where
  pub fin : Bool
  pub opcode : ℕ
  pub mask : Bool
  pub payload_len : ℕ

unfoldable pub read_header : BitOrder → ℕ → ℕ → Header
read_header high_first b c = record {
  fin = leb 128 b;
  opcode = b % 16;
  mask = leb 128 c;
  payload_len = c % 128;
}
read_header low_first b c = record {
  fin = b % 2 == 1;
  opcode = b / 16;
  mask = c % 2 == 1;
  payload_len = c / 2;
}

-- ntohs and be64toh of the bytes in memory
abbrev pub be_value : ℕ → Bytes → ℕ
be_value n [] = n
be_value n (b ∷ bs) = be_value (n * 256 + b) bs

-- What the header's seven bits say of the length, and where the header ends.
unfoldable pub extended_len : ℕ → Bytes → Option (ℕ × ℕ)
extended_len n bs =
    if n == 126
    then if ltb (length bs) 4 then none else some (be_value 0 (take 2 (drop 2 bs)), 4)
    else if n == 127
    then if ltb (length bs) 10 then none else some (be_value 0 (take 8 (drop 2 bs)), 10)
    else some (n, 2)

-- -1, -2, 0 with a frame, and 0 with a payload that does not lie in the data.
pub data ParseResult : Type 0 where
  malformed incomplete overrun : ParseResult
  parsed : (opcode : ℕ) (is_final : Bool) (payload : Bytes) → ParseResult

-- From the end of the length on; the last test is what the C code leaves out.
unfoldable pub parse_payload : Header → Bytes → ℕ → ℕ → ParseResult
parse_payload h bs len offset =
    let start = if h.mask then offset + 4 else offset in
    if h.mask && ltb (length bs) (offset + 4)
    then malformed
    else if ltb (length bs) (add_size start len)
    then incomplete
    else if ltb (length bs) (start + len)
    then overrun
    else parsed h.opcode h.fin (
        if h.mask
        then apply_key (take 4 (drop offset bs)) 0 (take len (drop start bs))
        else take len (drop start bs))

unfoldable pub parse_frame : BitOrder → Bytes → ParseResult
parse_frame order bs =
    let h = read_header order (get_or bs 0 0) (get_or bs 1 0) in
    if ltb (length bs) 2 then malformed else elim (extended_len h.payload_len bs) [
      | none ↦ malformed
      | some (len, offset) ↦ parse_payload h bs len offset
    ]

-- The seven bits for a length, and the bytes that follow them.
unfoldable pub encode_len : ℕ → ℕ × Bytes
encode_len n =
    if leb n 125 then (n % 128, []) else if leb n 65535 then (126, n / 256 ∷ n % 256 ∷ []) else (
      127,
      n / 72057594037927936 % 256
          ∷ n / 281474976710656 % 256
          ∷ n / 1099511627776 % 256
          ∷ n / 4294967296 % 256
          ∷ n / 16777216 % 256
          ∷ n / 65536 % 256
          ∷ n / 256 % 256
          ∷ n % 256
          ∷ [],
    )

-- The frame, where its buffer can be allocated.
unfoldable pub create_frame : ℕ → Bytes → Option Key → Bytes
create_frame opcode payload none =
    let (n, ext) = encode_len (length payload) in (128 + opcode % 16) ∷ n ∷ (ext ++ payload)
create_frame opcode payload (some key) =
    let (n, ext) = encode_len (length payload) in
    (128 + opcode % 16)
    ∷ (n + 128)
    ∷ (ext ++ (key_bytes key ++ apply_key (key_bytes key) 0 payload))
