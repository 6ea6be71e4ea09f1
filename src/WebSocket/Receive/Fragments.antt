-- ===== src/WebSocket/Receive/Fragments.antt =====
-- A message that comes in fragments, as process_websocket_frame of server/src/websocket_server.c
-- puts it together.
use chatweb.Base.{
  ℕ, ◌+◌, ◌-◌, ◌≤◌, ◌<◌, ◌^◌, ◌≡◌, ◌⊎◌, inl, inr, refl, sym, ap, ap₂, ◌∙◌, Bool, true, false, ◌||◌,
  List, [], ◌∷◌, ◌++◌, some, arith, ltb, ◌==◌, length, take, drop, replicate, Bool-cases,
  length-append, length-take, length-replicate, take-append, take-append_length, append_assoc,
  append-nil,
}
use chatweb.Base.Memory.{add_size, memcpy_to-in_bounds, splice, length-splice}
use chatweb.Libc.{Bytes}
use chatweb.WebSocket.Receive.{
  Client, Stats, Event, Outcome, deadlocks, faults, returns, grow_buffer, appended, append_payload,
  delivered, deliver, start_message, finish_message, continue_message, handle_frame,
}

-- What has come of a message lies in the buffer.
pub record IsValid (c : Client) : Type 0 where
  pub held : c.message_length ≤ length c.message_buffer

abbrev pub assembled : Client → Bytes
assembled c = take c.message_length c.message_buffer

grow_buffer-lem :
    (n m : ℕ) (buffer : Bytes)
    → m ≤ length buffer
    → (b : Bytes) × (grow_buffer true n buffer ≡ some b)
      × (n ≤ length b)
      × (m ≤ length b)
      × (take m b ≡ take m buffer)
unfolding grow_buffer
grow_buffer-lem n m buffer h = elim (Bool-cases (ltb (length buffer) n)) [
  | inl e ↦
      let more : Bytes = replicate (n - length buffer) 0 in
      let l = length-append buffer more in
      let k : length more ≡ n - length buffer = length-replicate (n - length buffer) 0 in
      (
        buffer ++ more,
        rw (e, grow_buffer) refl,
        ground arith,
        ground arith,
        take-append m buffer more h,
      )
  | inr e ↦ (buffer, rw (e, grow_buffer) refl, ground arith, h, refl)
]

take-splice :
    (b : Bytes) (m : ℕ) (p : Bytes)
    → m + length p ≤ length b
    → take (m + length p) (splice b m p) ≡ take m b ++ p
unfolding splice
take-splice b m p h =
    let rest = drop (m + length p) b in
    let l : length (take m b ++ p) ≡ m + length p =
      omega (arith, length-append (take m b) p, length-take m b) in
    ap (λ xs. take (m + length p) xs) (sym (append_assoc (take m b) p rest))
    ∙ ap (λ k. take k ((take m b ++ p) ++ rest)) (sym l)
    ∙ take-append_length (take m b ++ p) rest

-- With memory at hand a payload is added to what the buffer holds.
pub append_payload-assembled :
    (c : Client) (p : Bytes)
    → IsValid c
    → c.message_length + length p < 2 ^ 64
    → (c' : Client) × (append_payload true c p ≡ appended c')
      × IsValid c'
      × (assembled c' ≡ assembled c ++ p)
      × (c'.opcode ≡ c.opcode)
      × (c'.message_length ≡ c.message_length + length p)
unfolding append_payload
append_payload-assembled c p v h =
    let n : add_size c.message_length (length p) ≡ c.message_length + length p = omega arith in
    let (b, e, k, m, t) =
      grow_buffer-lem (add_size c.message_length (length p)) c.message_length c.message_buffer
        v.held in
    let k' : c.message_length + length p ≤ length b = omega arith in
    let c' : Client = record c {
      message_buffer = splice b c.message_length p;
      message_length = add_size c.message_length (length p);
      fragment_size = add_size c.fragment_size (length p);
    } in
    (
      c',
      rw (e, memcpy_to-in_bounds b c.message_length p k', append_payload) refl,
      record { held = omega (arith, length-splice b c.message_length p k') },
      ap (λ j. take j (splice b c.message_length p)) n
          ∙ take-splice b c.message_length p k'
          ∙ ap (λ xs. xs ++ p) t,
      refl,
      n,
    )

-- A frame that was read: its opcode, whether it is final, and its payload.
abbrev pub Fragment : Type 0
Fragment = ℕ × Bool × Bytes

abbrev prepend : List Event → Outcome → Outcome
prepend events deadlocks = deadlocks
prepend events faults = faults
prepend events (returns ok c s more) = returns ok c s (events ++ more)

-- The frames in turn, with memory at hand: the last result and all the events.
abbrev pub receive_all : ℕ → Client → Stats → List Fragment → Outcome
receive_all now c s [] = returns true c s []
receive_all now c s ((opcode, fin, payload) ∷ frames) =
    elim (handle_frame true now c s opcode fin payload) [
      | deadlocks ↦ deadlocks
      | faults ↦ faults
      | returns ok c' s' events ↦ prepend events (receive_all now c' s' frames)
    ]

abbrev pub continuations : List Bytes → Bytes → List Fragment
continuations [] last = (0, true, last) ∷ []
continuations (p ∷ ps) last = (0, false, p) ∷ continuations ps last

abbrev pub joined : List Bytes → Bytes → Bytes
joined [] last = last
joined (p ∷ ps) last = p ++ joined ps last

middle_frame :
    (now : ℕ) (c c' : Client) (s : Stats) (p : Bytes)
    → append_payload true c p ≡ appended c'
    → handle_frame true now c s 0 false p ≡ returns true c' s []
unfolding handle_frame continue_message
middle_frame now c c' s p e = rw (e, handle_frame, continue_message) refl

abbrev finished : Client → Client
finished c = record c {
  messages_received = add_size c.messages_received 1;
  message_length = 0;
  fragment_size = 0;
  message_complete = true;
}

abbrev pub counted : Stats → Stats
counted s = record s { messages_received = add_size s.messages_received 1 }

last_frame :
    (now : ℕ) (c c' : Client) (s : Stats) (p : Bytes)
    → append_payload true c p ≡ appended c'
    → handle_frame true now c s 0 true p
      ≡ returns true (finished c') (counted s) (delivered c'.opcode (assembled c'))
unfolding handle_frame continue_message finish_message deliver
last_frame now c c' s p e = rw (e, handle_frame, continue_message) refl

continuations-joined :
    (now : ℕ) (c : Client) (s : Stats) (ps : List Bytes) (last : Bytes)
    → IsValid c
    → c.message_length + length (joined ps last) < 2 ^ 64
    → (c' : Client) × (receive_all now c s (continuations ps last)
        ≡ returns true c' (counted s) (delivered c.opcode (assembled c ++ joined ps last)))
      × IsValid c'
      × (c'.message_length ≡ 0)
continuations-joined now c s [] last v h =
    let (c', e, w, a, o, l) = append_payload-assembled c last v h in
    let step : receive_all now c s (continuations [] last)
        ≡ returns true (finished c') (counted s) (delivered c'.opcode (assembled c') ++ []) =
      rw (last_frame now c c' s last e, receive_all) refl in
    (
      finished c',
      step
          ∙ ap (returns true (finished c') (counted s))
              (append-nil (delivered c'.opcode (assembled c')) ∙ ap₂ delivered o a),
      record { held = omega arith },
      refl,
    )
continuations-joined now c s (p ∷ ps) last v h =
    let k = length-append p (joined ps last) in
    let (c', e, w, a, o, l) = append_payload-assembled c p v (omega arith) in
    let (c'', f, x, y) = continuations-joined now c' s ps last w (omega arith) in
    (
      c'',
      rw
          (
            middle_frame now c c' s p e,
            f,
            a,
            o,
            append_assoc (assembled c) p (joined ps last),
            receive_all,
          )
          refl,
      x,
      y,
    )

-- A text or binary message of fewer than 2^64 bytes that comes in fragments, the first not final,
-- any number that continue it, and a final one, with memory at hand each time the buffer grows, is
-- delivered once, with its opcode and the payloads joined in order. It
-- counts as one message, and the buffer is empty and within its bounds again, whatever fragments
-- were left in it before.
pub fragments-joined :
    (now : ℕ) (c : Client) (s : Stats) (opcode : ℕ) (first : Bytes) (ps : List Bytes) (last : Bytes)
    → (opcode ≡ 1) ⊎ (opcode ≡ 2)
    → length first + length (joined ps last) < 2 ^ 64
    → (c' : Client) × (receive_all now c s ((opcode, false, first) ∷ continuations ps last)
        ≡ returns true c' (counted s) (delivered opcode (first ++ joined ps last)))
      × IsValid c'
      × (c'.message_length ≡ 0)
unfolding handle_frame start_message
fragments-joined now c s opcode first ps last o h =
    let c₀ : Client = record c {
      opcode = opcode;
      message_complete = false;
      fragment_size = 0;
      message_length = 0;
    } in
    let (c', e, w, a, q, l) =
      append_payload-assembled c₀ first (record { held = omega arith }) (omega arith) in
    let (c'', f, x, y) = continuations-joined now c' s ps last w (omega arith) in
    let t : (opcode == 1 || opcode == 2) ≡ true = ground arith in
    (c'', rw (t, e, f, a, q, receive_all, handle_frame, start_message) refl, x, y)
