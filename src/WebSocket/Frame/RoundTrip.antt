-- ===== src/WebSocket/Frame/RoundTrip.antt =====
-- What websocket_parse_frame reads in the frames of websocket_create_frame, both of
-- server/src/websocket_server.c.
use chatweb.Base.{
  ℕ, suc, ◌+◌, ◌%◌, ◌^◌, ◌≤◌, ◌<◌, ◌≡◌, ◌⊎◌, refl, ap, sym, ◌∙◌, Bool, true, false, ◌∷◌, ◌++◌,
  Option, none, some, arith, ltb, leb, ◌==◌, length, take, drop, Bool-cases, inl, inr,
  length-append, drop-append_length, take_all, drop-drop, subst,
}
use chatweb.Base.Memory.{add_size}
use chatweb.Libc.{Bytes, IsBytes}
use chatweb.WebSocket.Frame.{
  BitOrder, high_first, low_first, Header, read_header, extended_len, malformed, parsed, overrun,
  parse_payload, parse_frame, encode_len, create_frame,
}
use chatweb.WebSocket.Frame.Masking.{
  Key, key_bytes, apply_key, length-apply_key, apply_key-apply_key,
}

pub parse_payload-plain :
    (h : Header) (front body : Bytes)
    → h.mask ≡ false
    → length front + length body < 2 ^ 64
    → parse_payload h (front ++ body) (length body) (length front) ≡ parsed h.opcode h.fin body
unfolding parse_payload
parse_payload-plain h front body m s =
    let l = length-append front body in
    let a : ltb (length (front ++ body)) (add_size (length front) (length body)) ≡ false =
      ground (arith, l) in
    let b : ltb (length (front ++ body)) (length front + length body) ≡ false = ground (arith, l) in
    rw (m, a, b, drop-append_length front body, take_all (length body) body (omega arith)) refl

parse_payload-masked :
    (h : Header) (front : Bytes) (key : Key) (payload : Bytes)
    → h.mask ≡ true
    → IsBytes (key_bytes key)
    → IsBytes payload
    → length front + 4 + length payload < 2 ^ 64
    → parse_payload h
        (front ++ (key_bytes key ++ apply_key (key_bytes key) 0 payload))
        (length payload)
        (length front)
      ≡ parsed h.opcode h.fin payload
unfolding parse_payload
parse_payload-masked h front key payload m k p s =
    let masked = apply_key (key_bytes key) 0 payload in
    let bs = front ++ (key_bytes key ++ masked) in
    let l : length bs ≡ length front + 4 + length payload = omega (
      arith,
      length-append front (key_bytes key ++ masked),
      length-apply_key (key_bytes key) 0 payload,
    ) in
    let d : drop (length front) bs ≡ key_bytes key ++ masked =
      drop-append_length front (key_bytes key ++ masked) in
    let e : drop (length front + 4) bs ≡ masked =
      sym (drop-drop 4 (length front) bs) ∙ ap (drop 4) d in
    let t : take (length payload) masked ≡ masked =
      take_all (length payload) masked
        (omega (arith, length-apply_key (key_bytes key) 0 payload)) in
    let w : ltb (length bs) (length front + 4) ≡ false = ground arith in
    let a : ltb (length bs) (add_size (length front + 4) (length payload)) ≡ false = ground arith in
    let b : ltb (length bs) (length front + 4 + length payload) ≡ false = ground arith in
    rw (m, w, a, b, d, e, t, apply_key-apply_key (key_bytes key) 0 payload k p) refl

encode_len-lem :
    (n b c : ℕ) (tail : Bytes)
    → n < 2 ^ 64
    → let (m, ext) = encode_len n in
      (m < 128)
      × (extended_len m (b ∷ c ∷ (ext ++ tail)) ≡ some (n, suc (suc (length ext))))
      × (length ext ≤ 8)
unfolding encode_len extended_len
encode_len-lem n b c tail h = elim (Bool-cases (leb n 125)) [
  | inl e ↦
      (let q : n % 128 ≡ n = ground arith in
        let r : (n == 126) ≡ false = ground arith in
        let t : (n == 127) ≡ false = ground arith in
        rw (e, encode_len) (omega arith, rw (q, r, t, extended_len) refl, omega arith))
  | inr e ↦ elim (Bool-cases (leb n 65535)) [
    | inl f ↦
        (let t : ltb (suc (suc (suc (suc (length tail))))) 4 ≡ false = ground arith in
          rw (e, f, encode_len)
            (omega arith, rw (t, extended_len) (ap (λ k. some (k, 4)) (omega arith)), omega arith))
    | inr f ↦
        (let t : ltb (suc (suc (suc (suc (suc (suc (suc (suc (suc (suc (length tail))))))))))) 10
              ≡ false =
            ground arith in
          rw (e, f, encode_len)
            (omega arith, rw (t, extended_len) (ap (λ k. some (k, 10)) (omega arith)), omega arith))
  ]
]

abbrev pub IsKey : Option Key → Type 0
IsKey none = Unit {0}
IsKey (some key) = IsBytes (key_bytes key)

-- The two bytes of a header, read high bit first.
pub header_high :
    (opcode n : ℕ)
    → opcode < 16
    → n < 128
    → read_header high_first (128 + opcode % 16) n
      ≡ record { fin = true; opcode = opcode; mask = false; payload_len = n }
unfolding read_header
header_high opcode n h k = ground arith

header_high_masked :
    (opcode n : ℕ)
    → opcode < 16
    → n < 128
    → read_header high_first (128 + opcode % 16) (n + 128)
      ≡ record { fin = true; opcode = opcode; mask = true; payload_len = n }
unfolding read_header
header_high_masked opcode n h k = ground arith

pub parse_frame_step :
    (order : BitOrder) (b c : ℕ) (bs : Bytes) (h : Header) (len offset : ℕ)
    → read_header order b c ≡ h
    → extended_len h.payload_len (b ∷ c ∷ bs) ≡ some (len, offset)
    → parse_frame order (b ∷ c ∷ bs) ≡ parse_payload h (b ∷ c ∷ bs) len offset
unfolding parse_frame
parse_frame_step order b c bs h len offset e f =
    let t : ltb (suc (suc (length bs))) 2 ≡ false = ground arith in
    let g = subst (λ k. extended_len k.payload_len (b ∷ c ∷ bs) ≡ some (len, offset)) (sym e) f in
    rw (t, g) (ap (λ k. parse_payload k (b ∷ c ∷ bs) len offset) e)

-- Where bit fields start at the high bit, a frame that was created, masked or not, is read as the
-- final frame of its opcode with its payload.
pub parse_frame-create_frame :
    (opcode : ℕ) (payload : Bytes) (key : Option Key)
    → opcode < 16
    → IsBytes payload
    → IsKey key
    → length payload < 2 ^ 63
    → parse_frame high_first (create_frame opcode payload key) ≡ parsed opcode true payload
unfolding create_frame
parse_frame-create_frame opcode payload none h p k l =
    let b = 128 + opcode % 16 in
    let n = (encode_len (length payload)).0 in
    let ext = (encode_len (length payload)).1 in
    let header : Header = record { fin = true; opcode = opcode; mask = false; payload_len = n } in
    let (m, e, x) = encode_len-lem (length payload) b n payload (omega arith) in
    parse_frame_step high_first b n (ext ++ payload) header (length payload)
      (suc (suc (length ext))) (header_high opcode n h m) e
    ∙ parse_payload-plain header (b ∷ n ∷ ext) payload refl (omega arith)
parse_frame-create_frame opcode payload (some key) h p k l =
    let b = 128 + opcode % 16 in
    let n = (encode_len (length payload)).0 in
    let ext = (encode_len (length payload)).1 in
    let tail = key_bytes key ++ apply_key (key_bytes key) 0 payload in
    let header : Header = record { fin = true; opcode = opcode; mask = true; payload_len = n } in
    let (m, e, x) = encode_len-lem (length payload) b (n + 128) tail (omega arith) in
    parse_frame_step high_first b (n + 128) (ext ++ tail) header (length payload)
      (suc (suc (length ext))) (header_high_masked opcode n h m) e
    ∙ parse_payload-masked header (b ∷ (n + 128) ∷ ext) key payload refl k p (omega arith)

-- The opcode that a header has, if a frame is read at all.
parse_payload-opcode :
    (h : Header) (bs : Bytes) (len offset op : ℕ) (fin : Bool) (body : Bytes)
    → parse_payload h bs len offset ≡ parsed op fin body
    → op ≡ h.opcode
unfolding parse_payload
parse_payload-opcode h bs len offset op fin body e = ground arith

payload_opcode :
    (o : Option (ℕ × ℕ)) (h : Header) (bs : Bytes) (op : ℕ) (fin : Bool) (body : Bytes)
    → (elim o [ none ↦ malformed | some (len, offset) ↦ parse_payload h bs len offset ])
      ≡ parsed op fin body
    → op ≡ h.opcode
payload_opcode none h bs op fin body e = ground arith
payload_opcode (some (len, offset)) h bs op fin body e =
    parse_payload-opcode h bs len offset op fin body e

parse_frame-opcode :
    (order : BitOrder) (b c : ℕ) (bs : Bytes) (op : ℕ) (fin : Bool) (body : Bytes)
    → parse_frame order (b ∷ c ∷ bs) ≡ parsed op fin body
    → op ≡ (read_header order b c).opcode
unfolding parse_frame
parse_frame-opcode order b c bs op fin body e =
    let t : ltb (suc (suc (length bs))) 2 ≡ false = ground arith in
    let h = read_header order b c in
    payload_opcode (extended_len h.payload_len (b ∷ c ∷ bs)) h (b ∷ c ∷ bs) op fin body (rw t at e)

-- Where bit fields start at the low bit, as on x86, a frame that was created is read, if at all, as
-- a close frame, whatever its opcode.
create_frame_low_first :
    (opcode : ℕ) (payload : Bytes) (key : Option Key) (op : ℕ) (fin : Bool) (body : Bytes)
    → parse_frame low_first (create_frame opcode payload key) ≡ parsed op fin body
    → op ≡ 8
unfolding create_frame read_header
create_frame_low_first opcode payload none op fin body e =
    let f = parse_frame-opcode low_first (128 + opcode % 16) _ _ op fin body e in omega arith
create_frame_low_first opcode payload (some key) op fin body e =
    let f = parse_frame-opcode low_first (128 + opcode % 16) _ _ op fin body e in omega arith

-- A key follows the length, if there is one.
abbrev pub HasKey : Header → Bytes → Type 0
HasKey header rest = (header.mask ≡ false) ⊎ (4 ≤ length rest)

payload_overrun :
    (h : Header) (b c : ℕ) (rest : Bytes)
    → HasKey h rest
    → length rest < 2 ^ 63
    → parse_payload h
        (b ∷ c ∷ 255 ∷ 255 ∷ 255 ∷ 255 ∷ 255 ∷ 255 ∷ 255 ∷ 255 ∷ rest)
        18446744073709551615
        10
      ≡ overrun
unfolding parse_payload
payload_overrun h b c rest k l = elim (Bool-cases h.mask) [
  | inl m ↦ elim k [
    | inl k ↦ absurd (ground (arith, m, k))
    | inr k ↦
        let n = suc (suc (suc (suc (suc (suc (suc (suc (suc (suc (length rest)))))))))) in
        let t : ltb n 14 ≡ false = ground (arith, k) in
        let a : ltb n 13 ≡ false = ground (arith, k) in
        let w : ltb n 18446744073709551629 ≡ true = ground (arith, l) in
        rw (m, t, a, w, parse_payload) refl
  ]
  | inr m ↦
      let n = suc (suc (suc (suc (suc (suc (suc (suc (suc (suc (length rest)))))))))) in
      let a : ltb n 9 ≡ false = ground arith in
      let w : ltb n 18446744073709551625 ≡ true = ground (arith, l) in
      rw (m, a, w, parse_payload) refl
]

-- A frame whose seven bits ask for a length of eight bytes, in either order of the bit fields, whose
-- eight bytes are all ones, and which holds its key if it is masked, passes the test for enough data,
-- since the sum in it wraps: its payload does not lie in the data.
pub parse_frame_overrun :
    (order : BitOrder) (b c : ℕ) (rest : Bytes)
    → (read_header order b c).payload_len ≡ 127
    → HasKey (read_header order b c) rest
    → length rest < 2 ^ 63
    → parse_frame order (b ∷ c ∷ 255 ∷ 255 ∷ 255 ∷ 255 ∷ 255 ∷ 255 ∷ 255 ∷ 255 ∷ rest) ≡ overrun
unfolding extended_len
parse_frame_overrun order b c rest e k l =
    let n = suc (suc (suc (suc (suc (suc (suc (suc (suc (suc (length rest)))))))))) in
    let h = read_header order b c in
    let bs : Bytes = b ∷ c ∷ 255 ∷ 255 ∷ 255 ∷ 255 ∷ 255 ∷ 255 ∷ 255 ∷ 255 ∷ rest in
    let t : ltb n 10 ≡ false = ground arith in
    let ext : extended_len 127 bs ≡ some (18446744073709551615, 10) = rw (t, extended_len) refl in
    parse_frame_step order b c (255 ∷ 255 ∷ 255 ∷ 255 ∷ 255 ∷ 255 ∷ 255 ∷ 255 ∷ rest) h
      18446744073709551615 10 refl (ap (λ m. extended_len m bs) e ∙ ext)
    ∙ payload_overrun h b c rest k l
