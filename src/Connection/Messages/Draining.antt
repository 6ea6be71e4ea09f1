-- ===== src/Connection/Messages/Draining.antt =====
-- The loop of connection_process_data in server/src/connection.c: it runs to its end, and the chunks in
-- which the bytes come do not matter.
use chatweb.Base.{
  ℕ, suc, ◌+◌, ◌*◌, ◌%◌, ◌≡◌, ◌≢◌, inl, inr, refl, sym, ap, ◌∙◌, Bool, true, false, [], ◌∷◌, ◌++◌,
  none, some, length, ltb, leb, ◌==◌, arith, Bool-cases, Option-cases, append_assoc,
}
use chatweb.Base.Memory.{size_mod, add_size}
use chatweb.Libc.{Bytes}
use chatweb.Connection.Messages.{
  Protocol, Receiver, Received, Taken, header_size, protocol_magic, parse_message_header,
  next_message, resize_recv_buffer, make_space, connection_process_data, receive_body,
  connection_receive_message,
}
use chatweb.Connection.Messages.Loop.{WholeAt-next_message, run, run_ends, run-append}

length-ne : (x : Bytes) → x ≢ [] → (length x == 0) ≡ false
length-ne [] h = absurd (h refl)
length-ne (b ∷ x) h = ground arith

append_ne : (x y : Bytes) → x ≢ [] → (x ++ y) ≢ []
append_ne [] y h e = h refl
append_ne (b ∷ x) y h e = let k : suc (length (x ++ y)) ≡ 0 = ap length e in omega (arith, k)

-- The receiver after a chunk, with another buffer and another size.
abbrev holding : Receiver → Bytes → ℕ → Receiver
holding conn buffer size = record conn { recv_buffer = buffer; recv_buffer_size = size }

make_space-true :
    (conn : Receiver) (n : ℕ)
    → (size : ℕ) × (make_space true conn n ≡ some (holding conn conn.recv_buffer size))
unfolding make_space resize_recv_buffer
make_space-true conn n =
    let needed = add_size (length conn.recv_buffer) n in
    elim (Bool-cases (ltb conn.recv_buffer_size needed)) [
      | inr enough ↦ (conn.recv_buffer_size, rw enough refl)
      | inl small ↦ elim (Bool-cases (leb (needed * 2 % size_mod) conn.recv_buffer_size)) [
        | inl wraps ↦ (conn.recv_buffer_size, rw (small, wraps, resize_recv_buffer) refl)
        | inr grows ↦ (needed * 2 % size_mod, rw (small, grows, resize_recv_buffer) refl)
      ]
    ]

abbrev pub IsMessage : Received → Type 0
IsMessage Received.more = ⊥
IsMessage (Received.failed code) = ⊥
IsMessage (Received.message message_type body) = Unit {0}

next_message-receive :
    (protocol : Protocol) (memory : Bool) (conn : Receiver)
    → next_message protocol conn.recv_buffer ≡ none
    → (r : Received) × (connection_receive_message protocol memory conn ≡ (r, conn))
      × (¬ IsMessage r)
unfolding connection_receive_message receive_body
next_message-receive protocol memory conn e =
    elim (Bool-cases (ltb (length conn.recv_buffer) header_size)) [
      | inl short ↦ (Received.more, rw short refl, λ m. m)
      | inr long ↦ elim (Option-cases (parse_message_header protocol conn.recv_buffer)) [
        | inl bad ↦ (Received.failed 2, rw (long, bad) refl, λ m. m)
        | inr (header, good) ↦ elim (Bool-cases (header.magic == protocol_magic)) [
          | inr other ↦ (Received.failed 3, rw (long, good, receive_body, other) refl, λ m. m)
          | inl magic ↦
              elim (Bool-cases (ltb (length conn.recv_buffer) (header_size + header.body_length))) [
                | inl part ↦
                    (Received.more, rw (long, good, receive_body, magic, part) refl, λ m. m)
                | inr whole ↦
                    let k =
                      WholeAt-next_message protocol conn.recv_buffer header
                        (good, ground (arith, whole)) in
                    absurd (ground (arith, sym e ∙ k))
              ]
        ]
      ]
    ]

module _ {A : Type 0} (protocol : Protocol) (handle_heartbeat : Bytes → A → A) where
  abbrev feed : Bool → Receiver → A → Bytes → Taken × Receiver × A
  feed memory conn rest chunk =
      connection_process_data protocol handle_heartbeat memory conn rest chunk

  abbrev fed : Receiver → ℕ → ℕ × Bytes × A → Taken × Receiver × A
  fed conn size (count, left, rest) = (Taken.processed count, holding conn left size, rest)

  feed_lem :
      (conn : Receiver) (rest : A) (chunk : Bytes)
      → chunk ≢ []
      → (size : ℕ) × (feed true conn rest chunk
          ≡ fed conn size (run protocol handle_heartbeat (conn.recv_buffer ++ chunk) rest))
  unfolding connection_process_data
  feed_lem conn rest chunk h =
      let (size, e) = make_space-true conn (length chunk) in
      (size, rw (length-ne chunk h, e, connection_process_data) refl)

  -- With memory at hand, two chunks that come one after the other are taken like one: as many
  -- messages are counted in all, the same bytes are left, and the same heartbeats are handled.
  pub connection_process_data-append :
      (conn : Receiver) (rest : A) (x y : Bytes)
      → x ≢ []
      → y ≢ []
      → let first = connection_process_data protocol handle_heartbeat true conn rest x in
        let second = connection_process_data protocol handle_heartbeat true first.1 first.2 y in
        let whole = connection_process_data protocol handle_heartbeat true conn rest (x ++ y) in
        (m : ℕ) × (n : ℕ) × (first.0 ≡ Taken.processed m)
        × (second.0 ≡ Taken.processed n)
        × (whole.0 ≡ Taken.processed (m + n))
        × (second.1.recv_buffer ≡ whole.1.recv_buffer)
        × (second.2 ≡ whole.2)
  connection_process_data-append conn rest x y hx hy =
      let (size, e) = feed_lem conn rest x hx in
      let one = run protocol handle_heartbeat (conn.recv_buffer ++ x) rest in
      let (size', e') = feed_lem (holding conn one.1 size) one.2 y hy in
      let two = run protocol handle_heartbeat (one.1 ++ y) one.2 in
      let (size'', e'') = feed_lem conn rest (x ++ y) (append_ne x y hx) in
      let both : run protocol handle_heartbeat (conn.recv_buffer ++ (x ++ y)) rest
          ≡ (one.0 + two.0, two.1, two.2) =
        ap (λ buffer. run protocol handle_heartbeat buffer rest)
          (sym (append_assoc conn.recv_buffer x y))
        ∙ run-append protocol handle_heartbeat (length (conn.recv_buffer ++ x))
            (conn.recv_buffer ++ x) y rest (omega arith) in
      let f : feed true (feed true conn rest x).1 (feed true conn rest x).2 y
          ≡ fed (holding conn one.1 size) size' two =
        ap (λ t. feed true t.1 t.2 y) e ∙ e' in
      let g : feed true conn rest (x ++ y) ≡ fed conn size'' (one.0 + two.0, two.1, two.2) =
        e'' ∙ ap (fed conn size'') both in
      (
        one.0,
        two.0,
        ap (λ t. t.0) e,
        ap (λ t. t.0) f,
        ap (λ t. t.0) g,
        ap (λ t. t.1.recv_buffer) f ∙ sym (ap (λ t. t.1.recv_buffer) g),
        ap (λ t. t.2) f ∙ sym (ap (λ t. t.2) g),
      )

  -- With memory at hand, after a chunk the loop has run to its end: connection_receive_message, with
  -- memory or without, gives no message and changes nothing.
  pub connection_process_data-connection_receive_message :
      (conn : Receiver) (rest : A) (chunk : Bytes) (memory : Bool)
      → chunk ≢ []
      → let conn' = (connection_process_data protocol handle_heartbeat true conn rest chunk).1 in
        (r : Received) × (connection_receive_message protocol memory conn' ≡ (r, conn'))
        × (¬ IsMessage r)
  connection_process_data-connection_receive_message conn rest chunk memory h =
      let (size, e) = feed_lem conn rest chunk h in
      let whole = conn.recv_buffer ++ chunk in
      let ended = run_ends protocol handle_heartbeat (length whole) whole rest (omega arith) in
      next_message-receive protocol memory (feed true conn rest chunk).1
        (ap (λ t. next_message protocol t.1.recv_buffer) e ∙ ended)
