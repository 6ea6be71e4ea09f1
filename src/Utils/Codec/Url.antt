-- ===== src/Utils/Codec/Url.antt =====
-- utils_url_encode and utils_url_decode of server/src/utils.c, with memory at hand. Each walks the
-- string to its terminator and appends to a dynamic string.
use chatweb.Base.{
  ℕ, ◌+◌, ◌/◌, ◌%◌, ◌<◌, ◌≡◌, ◌≢◌, refl, ap, sym, ◌∙◌, inl, inr, Bool, true, false, ◌&&◌, ◌||◌, [],
  ◌∷◌, ◌++◌, arith, ltb, ◌==◌, ==_iff, if◌then◌else◌, append-nil, append_assoc, Bool-cases,
}
use chatweb.Libc.{Bytes, strtol16_mod, is_alnum, is_xdigit, passes_below, test_passes}
use chatweb.Utils.StringBuilder.{StringBuilder, string_create, string_append_char, string_get}
use chatweb.Utils.StringBuilder.Laws.{text-append_char}

abbrev append_char : StringBuilder → ℕ → StringBuilder
append_char str ch = (string_append_char true str ch).1

is_unreserved : ℕ → Bool
unfolding is_alnum
is_unreserved c = is_alnum c || (c == b'-' || (c == b'_' || (c == b'.' || c == b'~')))

-- hex[n] for the string "0123456789ABCDEF"
hex_char : ℕ → ℕ
hex_char n = if ltb n 10 then n + b'0' else n + 55

hex_char-pos : (n : ℕ) → 0 < hex_char n
unfolding hex_char
hex_char-pos n = ground arith

-- One round of the encoder.
encode_char : StringBuilder → ℕ → StringBuilder
unfolding is_unreserved hex_char
encode_char result c =
    if is_unreserved c
    then append_char result c
    else if c == 32
    then append_char result b'+'
    else append_char (append_char (append_char result b'%') (hex_char (c / 16))) (hex_char (c % 16))

encode_loop : StringBuilder → Bytes → StringBuilder
encode_loop result [] = result
encode_loop result (c ∷ s) = encode_loop (encode_char result c) s

unfoldable pub url_encode : Bytes → Bytes
unfolding encode_loop encode_char
url_encode s = string_get (encode_loop (string_create 256) s)

-- What a character stands for by itself: also a '%' with no two digits behind it.
plain_char : ℕ → ℕ
plain_char c = if c == b'+' then 32 else c

is_escape : ℕ → ℕ → ℕ → Bool
is_escape c h l = c == b'%' && (is_xdigit h && is_xdigit l)

-- The decoder looks two characters ahead; the terminator is no digit.
decode_loop : StringBuilder → Bytes → StringBuilder
unfolding plain_char is_escape
decode_loop result [] = result
decode_loop result (c ∷ []) = append_char result (plain_char c)
decode_loop result (c ∷ h ∷ []) = decode_loop (append_char result (plain_char c)) (h ∷ [])
decode_loop result (c ∷ h ∷ l ∷ s) = elim (is_escape c h l) [
  | true ↦ decode_loop (append_char result (strtol16_mod 256 (h ∷ l ∷ []))) s
  | false ↦ decode_loop (append_char result (plain_char c)) (h ∷ l ∷ s)
]

unfoldable pub url_decode : Bytes → Bytes
unfolding decode_loop
url_decode s = string_get (decode_loop (string_create 256) s)

-- A C string: bytes, none of them the terminator.
abbrev pub IsCString : Bytes → Type 0
IsCString [] = Unit {0}
IsCString (c ∷ s) = (0 < c) × (c < 256) × IsCString s

-- What the encoder appends for a character.
code_of : ℕ → Bytes
code_of c =
    if is_unreserved c
    then c ∷ []
    else if c == 32
    then b'+' ∷ []
    else b'%' ∷ hex_char (c / 16) ∷ hex_char (c % 16) ∷ []

codes_of : Bytes → Bytes
codes_of [] = []
codes_of (c ∷ s) = code_of c ++ codes_of s

text-encode_char :
    (r : StringBuilder) (c : ℕ) → 0 < c → (encode_char r c).text ≡ r.text ++ code_of c
unfolding encode_char code_of
text-encode_char r c h =
    let a = append_char r b'%' in
    let b = append_char a (hex_char (c / 16)) in
    let z = hex_char-pos (c / 16) in
    let z' = hex_char-pos (c % 16) in
    ground (
      arith,
      text-append_char r c,
      text-append_char r b'+',
      text-append_char r b'%',
      text-append_char a (hex_char (c / 16)),
      text-append_char b (hex_char (c % 16)),
      append_assoc r.text (b'%' ∷ []) (hex_char (c / 16) ∷ []),
      append_assoc r.text (b'%' ∷ hex_char (c / 16) ∷ []) (hex_char (c % 16) ∷ []),
    )

text-encode_loop :
    (r : StringBuilder) (s : Bytes) → IsCString s → (encode_loop r s).text ≡ r.text ++ codes_of s
unfolding encode_loop codes_of
text-encode_loop r [] h = sym (append-nil r.text)
text-encode_loop r (c ∷ s) h =
    text-encode_loop (encode_char r c) s h.2
    ∙ ap (λ t. t ++ codes_of s) (text-encode_char r c h.0)
    ∙ append_assoc r.text (code_of c) (codes_of s)

escape_table :
    passes_below 256 (λ c.
      is_escape b'%' (hex_char (c / 16)) (hex_char (c % 16))
      && strtol16_mod 256 (hex_char (c / 16) ∷ hex_char (c % 16) ∷ []) == c)
    ≡ true
unfolding passes_below strtol16_mod hex_char is_escape is_xdigit
escape_table = refl

-- The two digits of a byte are read as an escape of that byte.
escape_of_byte :
    (c : ℕ)
    → c < 256
    → (is_escape b'%' (hex_char (c / 16)) (hex_char (c % 16)) ≡ true)
      × (strtol16_mod 256 (hex_char (c / 16) ∷ hex_char (c % 16) ∷ []) ≡ c)
escape_of_byte c h = let t = test_passes _ 256 c escape_table h in (ground arith, ground arith)

-- A character that is no '%' stands for itself, whatever follows.
decode_plain :
    (r : StringBuilder) (c : ℕ) (s : Bytes)
    → c ≢ b'%'
    → decode_loop r (c ∷ s) ≡ decode_loop (append_char r (plain_char c)) s
unfolding decode_loop is_escape
decode_plain r c [] h = refl
decode_plain r c (x ∷ []) h = refl
decode_plain r c (x ∷ y ∷ s) h = ground arith

decode_escape :
    (r : StringBuilder) (c h l : ℕ) (s : Bytes)
    → is_escape c h l ≡ true
    → decode_loop r (c ∷ h ∷ l ∷ s) ≡ decode_loop (append_char r (strtol16_mod 256 (h ∷ l ∷ []))) s
unfolding decode_loop
decode_escape r c h l s e = rw (e, decode_loop)

plain_plus : plain_char b'+' ≡ 32
unfolding plain_char
plain_plus = refl

unreserved_plain : (c : ℕ) → is_unreserved c ≡ true → (c ≢ b'%') × (plain_char c ≡ c)
unfolding is_unreserved plain_char
unreserved_plain c h = (ground arith, ground arith)

decode_code :
    (r : StringBuilder) (c : ℕ) (s : Bytes)
    → c < 256
    → decode_loop r (code_of c ++ s) ≡ decode_loop (append_char r c) s
unfolding code_of
decode_code r c s h = elim (Bool-cases (is_unreserved c)) [
  | inl u ↦ let (n, p) = unreserved_plain c u in rw (u, decode_plain r c s n, p)
  | inr u ↦ elim (Bool-cases (c == 32)) [
    | inl e ↦
        rw (u, e)
          (decode_plain r b'+' s (omega arith)
            ∙ ap (λ k. decode_loop (append_char r k) s) (plain_plus ∙ sym ((==_iff c 32).0 e)))
    | inr e ↦
        let (x, y) = escape_of_byte c h in
        rw (u, e)
          (decode_escape r b'%' (hex_char (c / 16)) (hex_char (c % 16)) s x
            ∙ ap (λ k. decode_loop (append_char r k) s) y)
  ]
]

decode_codes :
    (r : StringBuilder) (s : Bytes) → IsCString s → (decode_loop r (codes_of s)).text ≡ r.text ++ s
unfolding codes_of decode_loop
decode_codes r [] h = sym (append-nil r.text)
decode_codes r (c ∷ s) h =
    let nz : (c == 0) ≡ false = let p = h.0 in ground arith in
    ap (λ x. x.text) (decode_code r c (codes_of s) h.1)
    ∙ decode_codes (append_char r c) s h.2
    ∙ ap (λ t. t ++ s) (text-append_char r c ∙ rw nz)
    ∙ append_assoc r.text (c ∷ []) s

-- Decoding what was encoded gives back any C string.
url_decode-url_encode : (s : Bytes) → IsCString s → url_decode (url_encode s) ≡ s
unfolding url_decode url_encode string_get string_create
url_decode-url_encode s h =
    ap (λ t. (decode_loop (string_create 256) t).text) (text-encode_loop (string_create 256) s h)
    ∙ decode_codes (string_create 256) s h
