-- ===== src/WebSocket/Closing.antt =====
-- The close frame of remove_client in server/src/websocket_server.c.
use chatweb.Base.{
  ℕ, ◌+◌, ◌/◌, ◌%◌, ◌≤◌, ◌≡◌, refl, true, false, [], ◌∷◌, Option, none, some, arith, ltb, ◌==◌,
  if◌then◌else◌, length, take, take_all, length-take, ap, ◌∙◌,
}
use chatweb.Libc.{Bytes}
use chatweb.WebSocket.Frame.RoundTrip.{header_high, parse_frame_step, parse_payload-plain}
use chatweb.WebSocket.Frame.{
  high_first, Header, read_header, extended_len, incomplete, parsed, parse_payload, parse_frame,
}

-- The frame for a status and a text; `none` where it goes past the end of its array of 128 bytes.
unfoldable pub fill_frame : ℕ → Bytes → Option Bytes
fill_frame status text =
    if ltb 128 (4 + length text)
    then none
    else some (136 ∷ ((2 + length text) % 256) ∷ (status / 256 % 256) ∷ (status % 256) ∷ text)

-- What is sent for a status and a reason, of which 125 bytes are used. Without a reason the two
-- bytes of the status are not sent.
unfoldable pub close_frame : ℕ → Bytes → Option Bytes
close_frame status [] = some (136 ∷ 2 ∷ [])
close_frame status (c ∷ reason) = fill_frame status (take 125 (c ∷ reason))

short_len : (n : ℕ) (bs : Bytes) → n ≤ 125 → extended_len n bs ≡ some (n, 2)
unfolding extended_len
short_len n bs h =
    let r : (n == 126) ≡ false = ground arith in
    let t : (n == 127) ≡ false = ground arith in rw (r, t, extended_len) refl

long_text : (status : ℕ) (text : Bytes) → 125 ≤ length text → fill_frame status text ≡ none
unfolding fill_frame
long_text status text h = let t : ltb 128 (4 + length text) ≡ true = ground arith in rw t refl

short_text :
    (status : ℕ) (text : Bytes)
    → length text ≤ 123
    → fill_frame status text
      ≡ some (136 ∷ (2 + length text) ∷ (status / 256 % 256) ∷ (status % 256) ∷ text)
unfolding fill_frame
short_text status text h =
    let t : ltb 128 (4 + length text) ≡ false = ground arith in
    let m : (2 + length text) % 256 ≡ 2 + length text = omega arith in rw (t, m) refl

-- A frame with the status and the reason behind its two bytes is read as a close frame.
parse_close :
    (body : Bytes)
    → length body ≤ 125
    → parse_frame high_first (136 ∷ length body ∷ body) ≡ parsed 8 true body
parse_close body h =
    let header : Header = record {
      fin = true;
      opcode = 8;
      mask = false;
      payload_len = length body;
    } in
    parse_frame_step high_first 136 (length body) body header (length body) 2
      (header_high 8 (length body) (omega arith) (omega arith))
      (short_len (length body) (136 ∷ length body ∷ body) h)
    ∙ parse_payload-plain header (136 ∷ length body ∷ []) body refl (omega arith)

-- The frame of a close: without a reason it lacks the status that its length announces; with one of
-- at most 123 bytes it is read, high bit first, as a final close frame with the status and the
-- reason; with one of 125 bytes or more it goes past the end of its array.
close_frame-parse_frame :
    (status : ℕ) (c : ℕ) (reason : Bytes)
    → ((f : Bytes) × (close_frame status [] ≡ some f) × (parse_frame high_first f ≡ incomplete))
      × (length (c ∷ reason) ≤ 123
          → (f : Bytes) × (close_frame status (c ∷ reason) ≡ some f)
            × (parse_frame high_first f
                ≡ parsed 8 true ((status / 256 % 256) ∷ (status % 256) ∷ c ∷ reason)))
      × (125 ≤ length (c ∷ reason) → close_frame status (c ∷ reason) ≡ none)
unfolding close_frame parse_frame parse_payload extended_len read_header
close_frame-parse_frame status c reason = (
  (136 ∷ 2 ∷ [], refl, refl),
  (λ h.
      let body = (status / 256 % 256) ∷ (status % 256) ∷ c ∷ reason in
      let n : 2 + length (c ∷ reason) ≡ length body = omega arith in
      (
        136 ∷ length body ∷ body,
        ap (fill_frame status) (take_all 125 (c ∷ reason) (omega arith))
            ∙ short_text status (c ∷ reason) h
            ∙ ap (λ k. some (136 ∷ k ∷ body)) n,
        parse_close body (omega arith),
      )),
  (λ h. long_text status (take 125 (c ∷ reason)) (omega (arith, length-take 125 (c ∷ reason)))),
)
