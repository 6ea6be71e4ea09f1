-- ===== src/Connection/Messages/Loop.antt =====
-- The loop of connection_process_data in server/src/connection.c, on fuel enough.
use chatweb.Base.{
  ℕ, zero, suc, ◌+◌, ◌≤◌, ◌≡◌, ◌⊎◌, inl, inr, refl, sym, ap, ap₂, ◌∙◌, false, ◌&&◌, ◌++◌, none,
  some, length, take, drop, ltb, ◌==◌, arith, Bool-cases, Option-cases, take-append, drop-append,
  length-append, length-drop,
}
use chatweb.Libc.{Bytes}
use chatweb.Connection.Messages.{
  Header, Protocol, header_size, msg_system_heartbeat, parse_message_header, next_message,
  process_complete_message, process_loop,
}

abbrev pub WholeAt : Protocol → Bytes → Header → Type 0
WholeAt protocol buffer header =
    (parse_message_header protocol buffer ≡ some header)
    × (header_size + header.body_length ≤ length buffer)

next_message-cases :
    (protocol : Protocol) (buffer : Bytes)
    → (next_message protocol buffer ≡ none)
      ⊎ ((header : Header) × (next_message protocol buffer ≡ some header)
          × WholeAt protocol buffer header)
unfolding next_message
next_message-cases protocol buffer = elim (Bool-cases (ltb (length buffer) header_size)) [
  | inl short ↦ inl (rw short refl)
  | inr long ↦ elim (Option-cases (parse_message_header protocol buffer)) [
    | inl e ↦ inl (rw (long, e) refl)
    | inr (header, e) ↦ elim (Bool-cases (ltb (length buffer) (header_size + header.body_length))) [
      | inl part ↦ inl (rw (long, e, part) refl)
      | inr whole ↦ inr (header, rw (long, e, whole) refl, (e, ground (arith, whole)))
    ]
  ]
]

pub WholeAt-next_message :
    (protocol : Protocol) (buffer : Bytes) (header : Header)
    → WholeAt protocol buffer header
    → next_message protocol buffer ≡ some header
unfolding next_message
WholeAt-next_message protocol buffer header (e, l) =
    let long : ltb (length buffer) header_size ≡ false = ground (arith, l) in
    let whole : ltb (length buffer) (header_size + header.body_length) ≡ false =
      ground (arith, l) in
    rw (long, e, whole) refl

WholeAt-append :
    (protocol : Protocol) (x y : Bytes) (header : Header)
    → WholeAt protocol x header
    → WholeAt protocol (x ++ y) header
unfolding parse_message_header
WholeAt-append protocol x y header (e, l) = (
  ap protocol.deserialize_message_header (take-append header_size x y (omega (arith, l))) ∙ e,
  omega (arith, l, length-append x y),
)

module _ {A : Type 0} (protocol : Protocol) (handle_heartbeat : Bytes → A → A) where
  abbrev pub loop : ℕ → Bytes → A → ℕ × Bytes × A
  loop fuel buffer rest = process_loop protocol handle_heartbeat fuel buffer rest

  -- The loop with fuel enough.
  abbrev pub run : Bytes → A → ℕ × Bytes × A
  run buffer rest = loop (length buffer) buffer rest

  abbrev pub after : Header → Bytes → A → A
  after header buffer rest = process_complete_message protocol handle_heartbeat header buffer rest

  abbrev pub one_more : ℕ × Bytes × A → ℕ × Bytes × A
  one_more (count, left, rest) = (suc count, left, rest)

  loop-stop :
      (fuel : ℕ) (buffer : Bytes) (rest : A)
      → next_message protocol buffer ≡ none
      → loop fuel buffer rest ≡ (0, buffer, rest)
  unfolding process_loop
  loop-stop zero buffer rest e = refl
  loop-stop (suc fuel) buffer rest e = rw (e, process_loop) refl

  loop-step :
      (fuel : ℕ) (buffer : Bytes) (rest : A) (header : Header)
      → next_message protocol buffer ≡ some header
      → loop (suc fuel) buffer rest
        ≡ one_more
            (loop fuel (drop (header_size + header.body_length) buffer) (after header buffer rest))
  unfolding process_loop
  loop-step fuel buffer rest header e = rw (e, process_loop) refl

  -- More fuel than bytes changes nothing.
  loop-enough :
      (f g : ℕ) (buffer : Bytes) (rest : A)
      → length buffer ≤ f
      → length buffer ≤ g
      → loop f buffer rest ≡ loop g buffer rest
  unfolding process_loop
  loop-enough zero g buffer rest hf hg = elim (next_message-cases protocol buffer) [
    | inl e ↦ loop-stop zero buffer rest e ∙ sym (loop-stop g buffer rest e)
    | inr (header, e, w) ↦ absurd (omega (arith, w.1, hf))
  ]
  loop-enough (suc f) zero buffer rest hf hg = elim (next_message-cases protocol buffer) [
    | inl e ↦ loop-stop (suc f) buffer rest e
    | inr (header, e, w) ↦ absurd (omega (arith, w.1, hg))
  ]
  loop-enough (suc f) (suc g) buffer rest hf hg = elim (next_message-cases protocol buffer) [
    | inl e ↦ loop-stop (suc f) buffer rest e ∙ sym (loop-stop (suc g) buffer rest e)
    | inr (header, e, w) ↦
        let k = length-drop (header_size + header.body_length) buffer in
        loop-step f buffer rest header e
        ∙ ap one_more (
            loop-enough f g (drop (header_size + header.body_length) buffer)
              (after header buffer rest) (omega (arith, k, hf, w.1)) (omega (arith, k, hg, w.1)))
        ∙ sym (loop-step g buffer rest header e)
  ]

  run-step :
      (buffer : Bytes) (rest : A) (header : Header)
      → next_message protocol buffer ≡ some header
      → header_size + header.body_length ≤ length buffer
      → run buffer rest
        ≡ one_more (run (drop (header_size + header.body_length) buffer) (after header buffer rest))
  run-step buffer rest header e l =
      let k = length-drop (header_size + header.body_length) buffer in
      loop-enough (length buffer) (suc (length buffer)) buffer rest (omega arith) (omega arith)
      ∙ loop-step (length buffer) buffer rest header e
      ∙ ap one_more (
          loop-enough (length buffer) (length (drop (header_size + header.body_length) buffer))
            (drop (header_size + header.body_length) buffer) (after header buffer rest)
            (omega (arith, k)) (omega arith))

  -- What is left has no complete message at its start.
  pub run_ends :
      (n : ℕ) (buffer : Bytes) (rest : A)
      → length buffer ≤ n
      → next_message protocol (run buffer rest).1 ≡ none
  run_ends zero buffer rest h = elim (next_message-cases protocol buffer) [
    | inl e ↦ rw (loop-stop (length buffer) buffer rest e) e
    | inr (header, e, w) ↦ absurd (omega (arith, w.1, h))
  ]
  run_ends (suc n) buffer rest h = elim (next_message-cases protocol buffer) [
    | inl e ↦ rw (loop-stop (length buffer) buffer rest e) e
    | inr (header, e, w) ↦
        let k = length-drop (header_size + header.body_length) buffer in
        rw (run-step buffer rest header e w.1) (
          run_ends n (drop (header_size + header.body_length) buffer) (after header buffer rest)
            (omega (arith, k, h, w.1)))
  ]

  -- What is taken from x, and then with y.
  abbrev pub then_run : ℕ × Bytes × A → Bytes → ℕ × Bytes × A
  then_run (count, left, rest) y =
      let (count', left', rest') = run (left ++ y) rest in (count + count', left', rest')

  after-append :
      (header : Header) (x y : Bytes) (rest : A)
      → header_size + header.body_length ≤ length x
      → after header (x ++ y) rest ≡ after header x rest
  unfolding process_complete_message
  after-append header x y rest l =
      elim (Bool-cases (header.message_type == msg_system_heartbeat && (header.body_length == 8))) [
        | inr other ↦ rw (other, process_complete_message) refl
        | inl heartbeat ↦
            let eight : header.body_length ≡ 8 = ground (arith, heartbeat) in
            let k = length-drop header_size x in
            rw (heartbeat, process_complete_message)
              (ap (λ bytes. handle_heartbeat bytes rest)
                (ap (take 8) (drop-append header_size x y (omega (arith, l)))
                  ∙ take-append 8 (drop header_size x) y (omega (arith, k, l, eight))))
      ]

  run_lem : (t : ℕ × Bytes × A) → t ≡ (0 + t.0, t.1, t.2)
  run_lem t = ap (λ k. (k, t.1, t.2)) (omega arith)

  then_run_lem : (t : ℕ × Bytes × A) (y : Bytes) → one_more (then_run t y) ≡ then_run (one_more t) y
  then_run_lem t y = ap (λ k. (k, (run (t.1 ++ y) t.2).1, (run (t.1 ++ y) t.2).2)) (omega arith)

  stop_lem :
      (x y : Bytes) (rest : A)
      → next_message protocol x ≡ none
      → run (x ++ y) rest ≡ then_run (run x rest) y
  stop_lem x y rest e =
      run_lem (run (x ++ y) rest) ∙ ap (λ t. then_run t y) (sym (loop-stop (length x) x rest e))

  step_lem :
      (x y : Bytes) (rest : A) (header : Header)
      → next_message protocol x ≡ some header
      → WholeAt protocol x header
      → let size = header_size + header.body_length in
        run (drop size x ++ y) (after header x rest)
          ≡ then_run (run (drop size x) (after header x rest)) y
        → run (x ++ y) rest ≡ then_run (run x rest) y
  step_lem x y rest header e w ih =
      let size = header_size + header.body_length in
      let whole = WholeAt-append protocol x y header w in
      run-step (x ++ y) rest header (WholeAt-next_message protocol (x ++ y) header whole) whole.1
      ∙ ap one_more (ap₂ run (drop-append size x y w.1) (after-append header x y rest w.1) ∙ ih)
      ∙ then_run_lem (run (drop size x) (after header x rest)) y
      ∙ ap (λ t. then_run t y) (sym (run-step x rest header e w.1))

  pub run-append :
      (n : ℕ) (x y : Bytes) (rest : A) → length x ≤ n → run (x ++ y) rest ≡ then_run (run x rest) y
  run-append zero x y rest h = elim (next_message-cases protocol x) [
    | inl e ↦ stop_lem x y rest e
    | inr (header, e, w) ↦ absurd (omega (arith, w.1, h))
  ]
  run-append (suc n) x y rest h = elim (next_message-cases protocol x) [
    | inl e ↦ stop_lem x y rest e
    | inr (header, e, w) ↦
        let size = header_size + header.body_length in
        step_lem x y rest header e w (
          run-append n (drop size x) y (after header x rest)
            (omega (arith, length-drop size x, h, w.1)))
  ]
