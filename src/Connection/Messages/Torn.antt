-- ===== src/Connection/Messages/Torn.antt =====
-- connection_send_message of server/src/connection.c and the limits on what is sent.
use chatweb.Base.{
  ℕ, suc, ◌+◌, ◌%◌, ◌^◌, ◌≤◌, ◌<◌, ◌≡◌, refl, sym, ap, subst, ◌∙◌, true, false, ◌++◌, length, ltb,
  leb, arith,
}
use chatweb.Base.Memory.{sub_size}
use chatweb.Libc.{Bytes}
use chatweb.Connection.RateLimiter.{
  RateLimiter, limited, connection_send, connection_check_rate_limit, check_rate_limit_reset,
  update_rate_limiter,
}
use chatweb.Connection.Messages.{
  next_u32, Protocol, IsProtocol, Sender, Attempt, header_size, max_message_size, count_sent,
  send_bytes, make_header, connection_send_message,
}
use chatweb.Connection.Messages.Sending.{
  TakesAll, gone, send_bytes-TakesAll, connection_send_message_lem,
}

send_bytes_limited :
    (sender : Sender) (body : Bytes) (attempt : Attempt)
    → 0 < length body
    → (connection_check_rate_limit sender.limiter attempt.before (length body)).0 ≡ false
    → let rl = (connection_check_rate_limit sender.limiter attempt.before (length body)).1 in
      send_bytes sender true body attempt ≡ (false, record sender { limiter = rl })
unfolding send_bytes count_sent connection_send
send_bytes_limited sender body attempt n c =
    let usable : ltb 0 (length body) ≡ true = ground (arith, n) in
    let rl = (connection_check_rate_limit sender.limiter attempt.before (length body)).1 in
    let e : connection_send sender.limiter true (length body) attempt.before attempt.transport
          attempt.after
        ≡ (limited, rl) =
      rw (usable, connection_send, c) refl in
    ap (count_sent sender body) e

-- The clock shows that less than a minute has passed since the last reset.
abbrev pub WithinMinute : RateLimiter → ℕ × ℕ → Type 0
WithinMinute rl clock = sub_size clock.0 rl.last_reset_time < 60000

check_rate_limit_reset-WithinMinute :
    (rl : RateLimiter) (clock : ℕ × ℕ)
    → WithinMinute rl clock
    → check_rate_limit_reset rl clock ≡ rl
unfolding check_rate_limit_reset
check_rate_limit_reset-WithinMinute rl clock w =
    let e : leb 60000 (sub_size clock.0 rl.last_reset_time) ≡ false = ground (arith, w) in
    rw (e, check_rate_limit_reset) refl

-- One more message is allowed.
abbrev pub HasOne : RateLimiter → Type 0
HasOne rl =
    (rl.messages_per_minute ≡ suc rl.message_count)
    × (rl.messages_per_minute < 2 ^ 32)
    × (rl.bytes_per_minute ≡ 0)

check-HasOne :
    (rl : RateLimiter) (clock : ℕ × ℕ) (n : ℕ)
    → WithinMinute rl clock
    → HasOne rl
    → connection_check_rate_limit rl clock n ≡ (true, rl)
unfolding connection_check_rate_limit
check-HasOne rl clock n w (m, u, b) =
    let e = check_rate_limit_reset-WithinMinute rl clock w in
    let f : leb rl.messages_per_minute rl.message_count ≡ false = ground (arith, m) in
    let g : ltb 0 rl.messages_per_minute ≡ true = ground (arith, m) in
    let h : ltb 0 rl.bytes_per_minute ≡ false = ground (arith, b) in
    rw (connection_check_rate_limit, e, g, f, h) refl

-- The limiter when the one message has gone.
abbrev spent : RateLimiter → ℕ → RateLimiter
spent rl n = record rl {
  message_count = (rl.message_count + 1) % 2 ^ 32;
  byte_count = (rl.byte_count + n) % 2 ^ 32;
}

update-spent :
    (rl : RateLimiter) (clock : ℕ × ℕ) (n : ℕ)
    → WithinMinute rl clock
    → update_rate_limiter rl clock n ≡ spent rl n
unfolding update_rate_limiter
update-spent rl clock n w = ap (λ rl'. spent rl' n) (check_rate_limit_reset-WithinMinute rl clock w)

check-spent :
    (rl : RateLimiter) (clock : ℕ × ℕ) (k n : ℕ)
    → WithinMinute rl clock
    → HasOne rl
    → connection_check_rate_limit (spent rl k) clock n ≡ (false, spent rl k)
unfolding connection_check_rate_limit
check-spent rl clock k n w (m, u, b) =
    let e = check_rate_limit_reset-WithinMinute (spent rl k) clock w in
    let f : leb rl.messages_per_minute ((rl.message_count + 1) % 2 ^ 32) ≡ true =
      ground (arith, m, u) in
    let g : ltb 0 rl.messages_per_minute ≡ true = ground (arith, m) in
    rw (connection_check_rate_limit, e, g, f) refl

send_bytes-HasOne :
    (sender : Sender) (body : Bytes) (attempt : Attempt)
    → 0 < length body
    → TakesAll attempt (length body)
    → HasOne sender.limiter
    → WithinMinute sender.limiter attempt.before
    → WithinMinute sender.limiter attempt.after
    → send_bytes sender true body attempt
      ≡ (true, gone sender body (spent sender.limiter (length body)))
send_bytes-HasOne sender body attempt n t o w1 w2 =
    let c = check-HasOne sender.limiter attempt.before (length body) w1 o in
    send_bytes-TakesAll sender body attempt n t (ap (λ r. r.0) c)
    ∙ ap (λ rl. (true, gone sender body rl))
        (ap (λ r. update_rate_limiter r.1 attempt.after (length body)) c
          ∙ update-spent sender.limiter attempt.after (length body) w2)

-- A message with a body, not too large, on an open connection: when the limit on messages leaves
-- room for one send, bytes are not limited, each reading of the clock is less than a minute after the
-- last reset, and the transport takes the whole header of 64 bytes, then the header goes out, the body is
-- refused, and the code is -4. The bytes that went out announce a body that does not follow.
pub connection_send_message-HasOne :
    (protocol : Protocol) (sender : Sender) (message_type : ℕ) (body : Bytes) (now : ℕ)
    (first second : Attempt)
    → IsProtocol protocol
    → 0 < length body
    → length body ≤ max_message_size
    → HasOne sender.limiter
    → WithinMinute sender.limiter first.before
    → WithinMinute sender.limiter first.after
    → WithinMinute sender.limiter second.before
    → TakesAll first header_size
    → let header = make_header protocol message_type now (next_u32 sender.messages_sent) body in
      let (code, sender') =
        connection_send_message protocol sender true message_type body now first second in
      (code ≡ 4)
      × (sender'.wire ≡ sender.wire ++ protocol.serialize_message_header header)
      × (header.body_length ≡ length body)
unfolding make_header
connection_send_message-HasOne protocol sender message_type body now first second p n m o w1 w2 w3
      t =
    let id = next_u32 sender.messages_sent in
    let header =
      protocol.serialize_message_header (make_header protocol message_type now id body) in
    let numbered = record sender { messages_sent = id } in
    let l : length header ≡ header_size =
      p.length-serialize (make_header protocol message_type now id body) in
    let sent_header =
      send_bytes-HasOne numbered header first (omega (arith, l)) (subst (TakesAll first) (sym l) t)
        o w1 w2 in
    let after_header = gone numbered header (spent sender.limiter (length header)) in
    let c = check-spent sender.limiter second.before (length header) (length body) w3 o in
    let refused : send_bytes after_header true body second ≡ (false, after_header) =
      send_bytes_limited after_header body second n (ap (λ r. r.0) c)
      ∙ ap (λ r. (false, record after_header { limiter = r.1 })) c in
    let e =
      connection_send_message_lem protocol sender message_type body now first second after_header
        (false, after_header) n m sent_header refused in
    (ap (λ r. r.0) e, ap (λ r. r.1.wire) e, refl)
