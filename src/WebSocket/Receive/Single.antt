-- ===== src/WebSocket/Receive/Single.antt =====
-- process_websocket_frame against websocket_parse_frame, both of server/src/websocket_server.c.
use chatweb.Base.{
  ℕ, ◌+◌, ◌≤◌, ◌≡◌, refl, ap, ◌∙◌, Bool, true, false, ◌&&◌, [], Option, none, some, arith, ltb,
  if◌then◌else◌, length, take, drop, get_or, length-take, length-drop,
}
use chatweb.Base.Memory.{add_size}
use chatweb.Libc.{Bytes}
use chatweb.WebSocket.Frame.{
  BitOrder, Header, read_header, extended_len, malformed, parsed, parse_payload, parse_frame,
}
use chatweb.WebSocket.Frame.Masking.{apply_key, length-apply_key}
use chatweb.WebSocket.Receive.{
  Client, Stats, returns, handle_frame, process_payload, process_websocket_frame,
}

abbrev start_of : Header → ℕ → ℕ
start_of h offset = if h.mask then offset + 4 else offset

abbrev payload_of : Header → Bytes → ℕ → ℕ → Bytes
payload_of h bs len offset =
    if h.mask
    then apply_key (take 4 (drop offset bs)) 0 (take len (drop (start_of h offset) bs))
    else take len (drop (start_of h offset) bs)

parse_payload-tests :
    (h : Header) (bs : Bytes) (len offset op : ℕ) (fin : Bool) (p : Bytes)
    → parse_payload h bs len offset ≡ parsed op fin p
    → ((h.mask && ltb (length bs) (offset + 4)) ≡ false)
      × (ltb (length bs) (add_size (start_of h offset) len) ≡ false)
      × (ltb (length bs) (start_of h offset + len) ≡ false)
      × (op ≡ h.opcode)
      × (fin ≡ h.fin)
      × (p ≡ payload_of h bs len offset)
unfolding parse_payload
parse_payload-tests h bs len offset op fin p e =
    (ground arith, ground arith, ground arith, ground arith, ground arith, ground arith)

length-masked :
    (mask : Bool) (key bs : Bytes) → length (if mask then apply_key key 0 bs else bs) ≡ length bs
length-masked true key bs = length-apply_key key 0 bs
length-masked false key bs = refl

length-payload_of :
    (h : Header) (bs : Bytes) (len offset : ℕ)
    → start_of h offset + len ≤ length bs
    → length (payload_of h bs len offset) ≡ len
length-payload_of h bs len offset l =
    let start = start_of h offset in
    let k : length (take len (drop start bs)) ≡ len =
      omega (arith, length-take len (drop start bs), length-drop start bs) in
    length-masked h.mask (take 4 (drop offset bs)) (take len (drop start bs)) ∙ k

process_payload-parsed :
    (now max : ℕ) (c : Client) (s : Stats) (h : Header) (bs : Bytes) (len offset op : ℕ)
    (fin : Bool) (p : Bytes)
    → parse_payload h bs len offset ≡ parsed op fin p
    → length p ≤ max
    → process_payload true now max c s h bs len offset ≡ handle_frame true now c s op fin p
unfolding process_payload
process_payload-parsed now max c s h bs len offset op fin p e l =
    let (m, a, b, o, f, q) = parse_payload-tests h bs len offset op fin p e in
    let n : length p ≡ len =
      ap (λ x. length x) q ∙ length-payload_of h bs len offset (ground arith) in
    let t : ltb max len ≡ false = ground arith in rw (t, m, a, o, f, q, process_payload) refl

-- What is done with a frame whose length is known, by both functions.
same_frame :
    (now max : ℕ) (c : Client) (s : Stats) (h : Header) (bs : Bytes) (op : ℕ) (fin : Bool)
    (p : Bytes) (short : Bool) (o : Option (ℕ × ℕ))
    → (if short
        then malformed
        else elim o [ none ↦ malformed | some (len, offset) ↦ parse_payload h bs len offset ])
      ≡ parsed op fin p
    → length p ≤ max
    → (if short then returns false c s [] else elim o [
      | none ↦ returns false c s []
      | some (len, offset) ↦ process_payload true now max c s h bs len offset
    ])
      ≡ handle_frame true now c s op fin p
same_frame now max c s h bs op fin p true o e l = ground arith
same_frame now max c s h bs op fin p false none e l = ground arith
same_frame now max c s h bs op fin p false (some (len, offset)) e l =
    process_payload-parsed now max c s h bs len offset op fin p e l

-- Where websocket_parse_frame reads a frame, and its payload is within the limit,
-- process_websocket_frame, with memory at hand, handles this opcode, final flag and payload.
pub process_websocket_frame-parse_frame :
    (order : BitOrder) (now max : ℕ) (c : Client) (s : Stats) (bs : Bytes) (op : ℕ) (fin : Bool)
    (p : Bytes)
    → parse_frame order bs ≡ parsed op fin p
    → length p ≤ max
    → process_websocket_frame order true now max c s bs ≡ handle_frame true now c s op fin p
unfolding process_websocket_frame parse_frame
process_websocket_frame-parse_frame order now max c s bs op fin p e l =
    let h = read_header order (get_or bs 0 0) (get_or bs 1 0) in
    same_frame now max c s h bs op fin p (ltb (length bs) 2) (extended_len h.payload_len bs) e l
