-- ===== src/Connection/RateLimiter.antt =====
-- The rate limiter of server/src/connection.c and its use by connection_send. Every reading of the
-- clock is an argument.
use chatweb.Base.{
  ℕ, ◌+◌, ◌%◌, ◌^◌, ◌≤◌, ◌<◌, ◌≡◌, ◌⊎◌, inl, inr, Bool, true, false, ◌&&◌, Option, none, some,
  arith, ltb, leb, if◌then◌else◌, Bool-cases, Option-cases,
}
use chatweb.Base.Memory.{add_size, sub_size}

abbrev pub u32_mod : ℕ
u32_mod = 2 ^ 32

pub record RateLimiter : Type 0 where
  pub messages_per_minute : ℕ
  pub bytes_per_minute : ℕ
  pub last_reset_time : ℕ
  pub message_count : ℕ
  pub byte_count : ℕ

unfoldable pub connection_init_rate_limiter : ℕ → ℕ → ℕ → RateLimiter
connection_init_rate_limiter messages_per_minute bytes_per_minute now = record {
  messages_per_minute = messages_per_minute;
  bytes_per_minute = bytes_per_minute;
  last_reset_time = now;
  message_count = 0;
  byte_count = 0;
}

unfoldable pub reset_rate_limiter : RateLimiter → ℕ → RateLimiter
reset_rate_limiter rl now = record rl { last_reset_time = now; message_count = 0; byte_count = 0 }

-- The clock is read once for the test and again for the reset.
unfoldable pub check_rate_limit_reset : RateLimiter → ℕ × ℕ → RateLimiter
unfolding reset_rate_limiter
check_rate_limit_reset rl (now, later) =
    if leb 60000 (sub_size now rl.last_reset_time) then reset_rate_limiter rl later else rl

unfoldable pub update_rate_limiter : RateLimiter → ℕ × ℕ → ℕ → RateLimiter
update_rate_limiter rl clock message_size =
    let rl' = check_rate_limit_reset rl clock in
    record rl' {
      message_count = (rl'.message_count + 1) % u32_mod;
      byte_count = (rl'.byte_count + message_size) % u32_mod;
    }

unfoldable pub connection_check_rate_limit : RateLimiter → ℕ × ℕ → ℕ → Bool × RateLimiter
connection_check_rate_limit rl clock message_size =
    let rl' = check_rate_limit_reset rl clock in
    if ltb 0 rl'.messages_per_minute && leb rl'.messages_per_minute rl'.message_count
    then (false, rl')
    else if ltb 0 rl'.bytes_per_minute
        && ltb rl'.bytes_per_minute (add_size rl'.byte_count message_size)
    then (false, rl')
    else (true, rl')

-- What connection_send returns: -1, -2, or what ssl_send or plain_send returned; `none` stands for
-- a result that is not positive.
pub data SendResult : Type 0 where
  invalid limited : SendResult
  sent : Option ℕ → SendResult

-- The transport is asked for `len` bytes, and answers with how many it took.
unfoldable pub connection_send :
    RateLimiter → Bool → ℕ → ℕ × ℕ → (ℕ → Option ℕ) → ℕ × ℕ → SendResult × RateLimiter
connection_send rl is_open len before transport after =
    if is_open && ltb 0 len
    then (let (allowed, rl') = connection_check_rate_limit rl before len in
        if allowed
        then (elim (transport len) [
          | none ↦ (sent none, rl')
          | some n ↦ (sent (some n), update_rate_limiter rl' after n)
        ])
        else (limited, rl'))
    else (invalid, rl)

-- Neither limit, where it is set, is exceeded since the last reset.
pub record WithinLimits (rl : RateLimiter) : Type 0 where
  pub messages_u32 : rl.messages_per_minute < u32_mod
  pub bytes_u32 : rl.bytes_per_minute < u32_mod
  pub messages : (rl.messages_per_minute ≡ 0) ⊎ (rl.message_count ≤ rl.messages_per_minute)
  pub bytes : (rl.bytes_per_minute ≡ 0) ⊎ (rl.byte_count ≤ rl.bytes_per_minute)

check_rate_limit_reset-WithinLimits :
    (rl : RateLimiter) (clock : ℕ × ℕ)
    → WithinLimits rl
    → WithinLimits (check_rate_limit_reset rl clock)
unfolding check_rate_limit_reset
check_rate_limit_reset-WithinLimits rl clock w = ground arith

check_rate_limit-state :
    (rl : RateLimiter) (clock : ℕ × ℕ) (len : ℕ)
    → (connection_check_rate_limit rl clock len).1 ≡ check_rate_limit_reset rl clock
unfolding connection_check_rate_limit
check_rate_limit-state rl clock len = ground arith

-- Room for `len` more bytes in one more message.
record HasRoom (rl : RateLimiter) (len : ℕ) : Type 0 where
  message : (rl.messages_per_minute ≡ 0) ⊎ (rl.message_count < rl.messages_per_minute)
  byte : (rl.bytes_per_minute ≡ 0) ⊎ (add_size rl.byte_count len ≤ rl.bytes_per_minute)

check_rate_limit-HasRoom :
    (rl : RateLimiter) (clock : ℕ × ℕ) (len : ℕ)
    → (connection_check_rate_limit rl clock len).0 ≡ true
    → HasRoom (check_rate_limit_reset rl clock) len
unfolding connection_check_rate_limit
check_rate_limit-HasRoom rl clock len h = ground arith

update_rate_limiter-WithinLimits :
    (rl : RateLimiter) (clock : ℕ × ℕ) (len n : ℕ)
    → WithinLimits rl
    → HasRoom rl len
    → len < 2 ^ 63
    → n ≤ len
    → WithinLimits (update_rate_limiter rl clock n)
unfolding update_rate_limiter check_rate_limit_reset
update_rate_limiter-WithinLimits rl clock len n w r h k = ground arith

-- Whatever the clock reads and the transport takes, up to what it was asked for, connection_send
-- keeps the messages and the bytes sent since the last reset within the limits that are set.
pub connection_send-WithinLimits :
    (rl : RateLimiter) (is_open : Bool) (len : ℕ) (before after : ℕ × ℕ) (transport : ℕ → Option ℕ)
    → WithinLimits rl
    → len < 2 ^ 63
    → ((n : ℕ) → transport len ≡ some n → n ≤ len)
    → WithinLimits (connection_send rl is_open len before transport after).1
unfolding connection_send
connection_send-WithinLimits rl is_open len before after transport w h t =
    elim (Bool-cases (is_open && ltb 0 len)) [
      | inr closed ↦ rw (closed, connection_send) w
      | inl usable ↦
          let rl' = check_rate_limit_reset rl before in
          let w' = check_rate_limit_reset-WithinLimits rl before w in
          let e = check_rate_limit-state rl before len in
          elim (Bool-cases (connection_check_rate_limit rl before len).0) [
            | inr refused ↦ rw (usable, connection_send, refused, e) w'
            | inl passed ↦ elim (Option-cases (transport len)) [
              | inl failed ↦ rw (usable, connection_send, passed, failed, e) w'
              | inr (n, took) ↦
                  rw (usable, connection_send, passed, took, e)
                    (update_rate_limiter-WithinLimits rl' after len n w'
                      (check_rate_limit-HasRoom rl before len passed) h (t n took))
            ]
          ]
    ]
