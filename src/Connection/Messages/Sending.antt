-- ===== src/Connection/Messages/Sending.antt =====
-- Sends of server/src/connection.c that the transport takes whole, and the steps of
-- connection_send_message.
use chatweb.Base.{
  ℕ, ◌≤◌, ◌<◌, ◌≡◌, refl, ap, ◌∙◌, Bool, true, false, ◌++◌, some, length, ltb, ◌==◌, if◌then◌else◌,
  arith, take_all,
}
use chatweb.Libc.{Bytes}
use chatweb.Connection.RateLimiter.{
  RateLimiter, sent, connection_send, connection_check_rate_limit, update_rate_limiter,
}
use chatweb.Connection.Messages.{
  next_u32, Protocol, Sender, Attempt, max_message_size, count_sent, send_bytes, make_header,
  send_body, connection_send_message,
}

-- The transport takes what it is asked to.
abbrev pub TakesAll : Attempt → ℕ → Type 0
TakesAll attempt len = attempt.transport len ≡ some len

pub send_bytes-TakesAll :
    (sender : Sender) (body : Bytes) (attempt : Attempt)
    → 0 < length body
    → TakesAll attempt (length body)
    → (connection_check_rate_limit sender.limiter attempt.before (length body)).0 ≡ true
    → let rl = (connection_check_rate_limit sender.limiter attempt.before (length body)).1 in
      send_bytes sender true body attempt ≡ (
        true,
        record sender {
          limiter = update_rate_limiter rl attempt.after (length body);
          wire = sender.wire ++ body;
        },
      )
unfolding send_bytes count_sent connection_send
send_bytes-TakesAll sender body attempt n t c =
    let usable : ltb 0 (length body) ≡ true = ground (arith, n) in
    let same : (length body == length body) ≡ true = ground arith in
    let rl = (connection_check_rate_limit sender.limiter attempt.before (length body)).1 in
    let e : connection_send sender.limiter true (length body) attempt.before attempt.transport
          attempt.after
        ≡ (sent (some (length body)), update_rate_limiter rl attempt.after (length body)) =
      rw (usable, connection_send, c, t) refl in
    ap (count_sent sender body) e
    ∙ rw (count_sent, same, take_all (length body) body (omega arith)) refl

-- The state after a send that the transport takes whole.
abbrev pub gone : Sender → Bytes → RateLimiter → Sender
gone sender body limiter = record sender { limiter = limiter; wire = sender.wire ++ body }

-- The steps of connection_send_message on a message that is small enough and has a body.
pub connection_send_message_lem :
    (protocol : Protocol) (sender : Sender) (message_type : ℕ) (body : Bytes) (now : ℕ)
    (first second : Attempt) (after_header : Sender) (result : Bool × Sender)
    → 0 < length body
    → length body ≤ max_message_size
    → let id = next_u32 sender.messages_sent in
      send_bytes
          (record sender { messages_sent = id })
          true
          (protocol.serialize_message_header (make_header protocol message_type now id body))
          first
        ≡ (true, after_header)
      → send_bytes after_header true body second ≡ result
      → connection_send_message protocol sender true message_type body now first second
        ≡ (if result.0 then 0 else 4, result.1)
unfolding connection_send_message send_body
connection_send_message_lem protocol sender message_type body now first second after_header result n
      m e f =
    let small : ltb max_message_size (length body) ≡ false = ground (arith, m) in
    let some_body : ltb 0 (length body) ≡ true = ground (arith, n) in
    rw small (
      ap (λ r. send_body r true body second) e
      ∙ rw (some_body, send_body) (ap (λ r. (if r.0 then 0 else 4, r.1)) f))
