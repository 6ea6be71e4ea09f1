-- ===== src/Connection/Messages/RoundTrip.antt =====
-- A message that connection_send_message of server/src/connection.c sends, as connection_receive_message
-- reads it.
use chatweb.Base.{
  ℕ, ◌+◌, ◌^◌, ◌≤◌, ◌<◌, ◌≡◌, refl, sym, ap, ap₂, subst, ◌∙◌, Bool, true, false, not, ◌&&◌, ◌++◌,
  some, length, take, drop, ltb, ◌==◌, if◌then◌else◌, arith, take-append_length, drop-append_length,
  append_assoc, length-append,
}
use chatweb.Libc.{Bytes}
use chatweb.Connection.RateLimiter.{
  RateLimiter, connection_check_rate_limit, check_rate_limit_reset, reset_rate_limiter,
  update_rate_limiter,
}
use chatweb.Connection.Messages.{
  next_u32, Header, Protocol, IsHeader, IsProtocol, Sender, Receiver, Received, Attempt,
  header_size, max_message_size, protocol_magic, send_bytes, make_header, connection_send_message,
  parse_message_header, receive_body, connection_receive_message,
}
use chatweb.Connection.Messages.Sending.{
  TakesAll, gone, send_bytes-TakesAll, connection_send_message_lem,
}

abbrev pub IsUnlimited : RateLimiter → Type 0
IsUnlimited rl = (rl.messages_per_minute ≡ 0) × (rl.bytes_per_minute ≡ 0)

check-IsUnlimited :
    (rl : RateLimiter) (clock : ℕ × ℕ) (n : ℕ)
    → IsUnlimited rl
    → ((connection_check_rate_limit rl clock n).0 ≡ true)
      × IsUnlimited (connection_check_rate_limit rl clock n).1
unfolding connection_check_rate_limit check_rate_limit_reset reset_rate_limiter
check-IsUnlimited rl clock n (m, b) = (ground (arith, m, b), ground (arith, m, b))

update-IsUnlimited :
    (rl : RateLimiter) (clock : ℕ × ℕ) (n : ℕ)
    → IsUnlimited rl
    → IsUnlimited (update_rate_limiter rl clock n)
unfolding update_rate_limiter check_rate_limit_reset reset_rate_limiter
update-IsUnlimited rl clock n (m, b) = ground (arith, m, b)

send_bytes-IsUnlimited :
    (sender : Sender) (body : Bytes) (attempt : Attempt)
    → 0 < length body
    → TakesAll attempt (length body)
    → IsUnlimited sender.limiter
    → (rl : RateLimiter) × (send_bytes sender true body attempt ≡ (true, gone sender body rl))
      × IsUnlimited rl
send_bytes-IsUnlimited sender body attempt n t u =
    let (c, v) = check-IsUnlimited sender.limiter attempt.before (length body) u in
    (
      _,
      send_bytes-TakesAll sender body attempt n t c,
      update-IsUnlimited _ attempt.after (length body) v,
    )

ltb_le : (a b : ℕ) → b ≤ a → ltb a b ≡ false
ltb_le a b h = ground arith

same_eq : (a b : ℕ) → a ≡ b → (a == b) ≡ true
same_eq a b h = ground arith

sum_lem : {A : Type 0} (b : Bool) (x y : A) → (if b && not true then x else y) ≡ y
sum_lem true x y = refl
sum_lem false x y = refl

-- A buffer that starts with a header and its body.
receive_lem :
    (protocol : Protocol) (conn : Receiver) (header : Header) (h body rest : Bytes)
    → length h ≡ header_size
    → protocol.deserialize_message_header h ≡ some header
    → header.magic ≡ protocol_magic
    → header.body_length ≡ length body
    → header.checksum ≡ protocol.calculate_message_checksum body
    → connection_receive_message protocol true (record conn { recv_buffer = (h ++ body) ++ rest })
      ≡ (
        Received.message header.message_type body,
        record conn { recv_buffer = rest; messages_received = next_u32 conn.messages_received },
      )
unfolding connection_receive_message receive_body parse_message_header
receive_lem protocol conn header h body rest l d m b c =
    let buffer = (h ++ body) ++ rest in
    let hl : length (h ++ body) ≡ header_size + header.body_length =
      omega (arith, length-append h body, l, b) in
    let bl : length buffer ≡ (header_size + header.body_length) + length rest =
      omega (arith, length-append (h ++ body) rest, hl) in
    let assoc : buffer ≡ h ++ (body ++ rest) = append_assoc h body rest in
    let front : take header_size buffer ≡ h =
      ap₂ take (sym l) assoc ∙ take-append_length h (body ++ rest) in
    let back : drop header_size buffer ≡ body ++ rest =
      ap₂ drop (sym l) assoc ∙ drop-append_length h (body ++ rest) in
    let body_at : take header.body_length (drop header_size buffer) ≡ body =
      ap₂ take b back ∙ take-append_length body rest in
    let left : drop (header_size + header.body_length) buffer ≡ rest =
      ap (λ k. drop k buffer) (sym hl) ∙ drop-append_length (h ++ body) rest in
    let parsed : parse_message_header protocol buffer ≡ some header =
      ap protocol.deserialize_message_header front ∙ d in
    let long = ltb_le (length buffer) header_size (omega (arith, bl)) in
    let whole = ltb_le (length buffer) (header_size + header.body_length) (omega (arith, bl)) in
    let magic = same_eq header.magic protocol_magic m in
    let sum =
      same_eq
        (protocol.calculate_message_checksum (take header.body_length (drop header_size buffer)))
        header.checksum (ap protocol.calculate_message_checksum body_at ∙ sym c) in
    rw (connection_receive_message, long, parsed, receive_body, magic, whole, sum)
      (sum_lem (ltb 0 header.body_length) _ _
        ∙ ap₂
            (λ b r. (
              Received.message header.message_type b,
              record conn { recv_buffer = r; messages_received = next_u32 conn.messages_received },
            ))
            body_at left)

make_header-checksum :
    (protocol : Protocol) (message_type now id : ℕ) (body : Bytes)
    → 0 < length body
    → (make_header protocol message_type now id body).checksum
      ≡ protocol.calculate_message_checksum body
unfolding make_header
make_header-checksum protocol message_type now id body n =
    let some_body : ltb 0 (length body) ≡ true = ground (arith, n) in rw some_body refl

next_u32-lt : (n : ℕ) → next_u32 n < 2 ^ 64
next_u32-lt n = omega arith

make_header-IsHeader :
    (protocol : Protocol) (message_type now id : ℕ) (body : Bytes)
    → IsProtocol protocol
    → message_type < 2 ^ 32
    → now < 2 ^ 64
    → id < 2 ^ 64
    → 0 < length body
    → length body ≤ max_message_size
    → IsHeader (make_header protocol message_type now id body)
unfolding make_header
make_header-IsHeader protocol message_type now id body p mt nt it n m = record {
  magic_u32 = omega arith;
  version_u32 = omega arith;
  message_type_u32 = mt;
  flags_u32 = omega arith;
  timestamp_u64 = nt;
  message_id_u64 = it;
  correlation_id_u64 = omega arith;
  body_length_u32 = omega (arith, m);
  checksum_u32 =
      subst (λ k. k < 2 ^ 32) (sym (make_header-checksum protocol message_type now id body n))
        (p.checksum_u32 body);
}

-- With no limits and a transport that takes what it is asked to, a message that has a body and is
-- small enough is sent with code 0, and its bytes go out after those before. A receiver whose buffer
-- starts with them, with memory at hand, has the type and the body, and keeps the bytes that follow.
pub connection_send_message-connection_receive_message :
    (protocol : Protocol) (sender : Sender) (message_type : ℕ) (body : Bytes) (now : ℕ)
    (first second : Attempt) (conn : Receiver) (rest : Bytes)
    → IsProtocol protocol
    → message_type < 2 ^ 32
    → now < 2 ^ 64
    → 0 < length body
    → length body ≤ max_message_size
    → IsUnlimited sender.limiter
    → TakesAll first header_size
    → TakesAll second (length body)
    → let (code, sender') =
        connection_send_message protocol sender true message_type body now first second in
      (packet : Bytes) × (code ≡ 0)
      × (sender'.wire ≡ sender.wire ++ packet)
      × (connection_receive_message protocol true (record conn { recv_buffer = packet ++ rest }) ≡ (
        Received.message message_type body,
        record conn { recv_buffer = rest; messages_received = next_u32 conn.messages_received },
      ))
unfolding make_header
connection_send_message-connection_receive_message protocol sender message_type body now first
      second conn rest p mt nt n m u t1 t2 =
    let id = next_u32 sender.messages_sent in
    let header = make_header protocol message_type now id body in
    let h = protocol.serialize_message_header header in
    let numbered = record sender { messages_sent = id } in
    let l : length h ≡ header_size = p.length-serialize header in
    let (rl, e, v) =
      send_bytes-IsUnlimited numbered h first (omega (arith, l)) (subst (TakesAll first) (sym l) t1)
        u in
    let after_header = gone numbered h rl in
    let (rl', e', v') = send_bytes-IsUnlimited after_header body second n t2 v in
    let sent =
      connection_send_message_lem protocol sender message_type body now first second after_header
        (true, gone after_header body rl') n m e e' in
    let sum : header.checksum ≡ protocol.calculate_message_checksum body =
      make_header-checksum protocol message_type now id body n in
    let is_header : IsHeader header =
      make_header-IsHeader protocol message_type now id body p mt nt
        (next_u32-lt sender.messages_sent) n m in
    (
      h ++ body,
      ap (λ r. r.0) sent,
      ap (λ r. r.1.wire) sent ∙ append_assoc sender.wire h body,
      receive_lem protocol conn header h body rest l (p.deserialize-serialize header is_header) refl
          refl sum,
    )
