-- ===== src/Utils/Codec/Json.antt =====
-- utils_json_escape and utils_json_unescape of server/src/utils.c, with memory at hand.
use Prim.Native.Nat.{bit_and, bit_or}
use chatweb.Base.{
  ℕ, zero, suc, ◌/◌, ◌%◌, ◌<◌, ◌≡◌, refl, ap, sym, ◌∙◌, inl, inr, true, false, ◌&&◌, [], ◌∷◌, ◌++◌,
  Option, none, some, arith, ltb, leb, ◌==◌, if◌then◌else◌, append-nil, append_assoc, Bool-cases,
  Option-cases, ltb→lt,
}
use chatweb.Libc.{Bytes, strtol16_mod, is_xdigit, passes_below, test_passes}
use chatweb.Utils.StringBuilder.{
  StringBuilder, string_create, string_append, string_append_char, string_get,
}
use chatweb.Utils.StringBuilder.Laws.{text-append_char, text-append}
use chatweb.Utils.Codec.Hex.{lower_digit}
use chatweb.Utils.Codec.Url.{IsCString}

abbrev append_char : StringBuilder → ℕ → StringBuilder
append_char str ch = (string_append_char true str ch).1

abbrev append : StringBuilder → Bytes → StringBuilder
append str text = (string_append true str text).1

-- The switch of the encoder: the letter behind the backslash, if there is one.
short_escape : ℕ → Option ℕ
short_escape c =
    if c == 34
    then some 34
    else if c == 92
    then some 92
    else if c == 8
    then some b'b'
    else if c == 12
    then some b'f'
    else if c == 10
    then some b'n'
    else if c == 13
    then some b'r'
    else if c == 9
    then some b't'
    else none

-- "\\u%04x" of a byte
long_escape : ℕ → Bytes
long_escape c = 92 ∷ b'u' ∷ b'0' ∷ b'0' ∷ lower_digit (c / 16) ∷ lower_digit (c % 16) ∷ []

escape_char : StringBuilder → ℕ → StringBuilder
escape_char result c = elim (short_escape c) [
  | some d ↦ append result (92 ∷ d ∷ [])
  | none ↦ if ltb c 32 then append result (long_escape c) else append_char result c
]

escape_loop : StringBuilder → Bytes → StringBuilder
escape_loop result [] = result
escape_loop result (c ∷ s) = escape_loop (escape_char result c) s

-- Each append finds memory; the code does not look at whether it does.
unfoldable pub json_escape : Bytes → Bytes
unfolding escape_loop escape_char short_escape long_escape
json_escape s = string_get (escape_loop (string_create 256) s)

-- The four digits behind "\u", if they are digits.
hex4 : Bytes → Option ℕ
hex4 (a ∷ b ∷ c ∷ d ∷ s) =
    if is_xdigit a && (is_xdigit b && (is_xdigit c && is_xdigit d))
    then some (strtol16_mod 65536 (a ∷ b ∷ c ∷ d ∷ []))
    else none
hex4 s = none

append_utf8 : StringBuilder → ℕ → StringBuilder
append_utf8 r code =
    if leb code 0x7F
    then append_char r code
    else if leb code 0x7FF
    then append_char (append_char r (bit_or 0xC0 (code / 64))) (bit_or 0x80 (bit_and code 0x3F))
    else append_char
        (append_char (append_char r (bit_or 0xE0 (code / 4096)))
          (bit_or 0x80 (bit_and (code / 64) 0x3F)))
        (bit_or 0x80 (bit_and code 0x3F))

-- The switch of the decoder at the character `d` behind a backslash, with `s` behind it: what is
-- appended, and how many characters the pointer moves beside the loop's own step.
unescape_at : StringBuilder → ℕ → Bytes → StringBuilder × ℕ
unfolding append_utf8
unescape_at r d s =
    if d == 34
    then (append_char r 34, 1)
    else if d == 92
    then (append_char r 92, 1)
    else if d == b'/'
    then (append_char r b'/', 1)
    else if d == b'b'
    then (append_char r 8, 1)
    else if d == b'f'
    then (append_char r 12, 1)
    else if d == b'n'
    then (append_char r 10, 1)
    else if d == b'r'
    then (append_char r 13, 1)
    else if d == b't'
    then (append_char r 9, 1)
    else if d == b'u'
    then elim (hex4 s) [
      | some code ↦ (append_utf8 r code, 5)
      | none ↦ (append_char (append_char r 92) b'u', 1)
    ]
    else (append_char (append_char r 92) d, 1)

-- The first argument counts the characters that the pointer has yet to move over.
unescape_loop : ℕ → StringBuilder → Bytes → StringBuilder
unescape_loop k r [] = r
unescape_loop (suc k) r (c ∷ s) = unescape_loop k r s
unescape_loop zero r (c ∷ []) = append_char r c
unescape_loop zero r (c ∷ d ∷ s) = elim (c == 92) [
  | true ↦ let step = unescape_at r d s in unescape_loop step.1 step.0 (d ∷ s)
  | false ↦ unescape_loop zero (append_char r c) (d ∷ s)
]

-- Here too each append finds memory.
unfoldable pub json_unescape : Bytes → Bytes
unfolding unescape_loop unescape_at hex4
json_unescape s = string_get (unescape_loop 0 (string_create 256) s)

code_of : ℕ → Bytes
code_of c = elim (short_escape c) [
  | some d ↦ 92 ∷ d ∷ []
  | none ↦ if ltb c 32 then long_escape c else c ∷ []
]

codes_of : Bytes → Bytes
codes_of [] = []
codes_of (c ∷ s) = code_of c ++ codes_of s

text-escape_char :
    (r : StringBuilder) (c : ℕ) → 0 < c → (escape_char r c).text ≡ r.text ++ code_of c
unfolding escape_char code_of
text-escape_char r c h = elim (Option-cases (short_escape c)) [
  | inl e ↦
      rw (e, escape_char, code_of)
        (ground (arith, text-append r (long_escape c), text-append_char r c))
  | inr (d, e) ↦ rw (e, escape_char, code_of) (text-append r (92 ∷ d ∷ []))
]

text-escape_loop :
    (r : StringBuilder) (s : Bytes) → IsCString s → (escape_loop r s).text ≡ r.text ++ codes_of s
unfolding escape_loop codes_of
text-escape_loop r [] h = sym (append-nil r.text)
text-escape_loop r (c ∷ s) h =
    text-escape_loop (escape_char r c) s h.2
    ∙ ap (λ t. t ++ codes_of s) (text-escape_char r c h.0)
    ∙ append_assoc r.text (code_of c) (codes_of s)

hex4_table :
    passes_below 256 (λ c.
      (is_xdigit (lower_digit (c / 16)) && is_xdigit (lower_digit (c % 16)))
      && strtol16_mod 65536 (b'0' ∷ b'0' ∷ lower_digit (c / 16) ∷ lower_digit (c % 16) ∷ []) == c)
    ≡ true
unfolding passes_below strtol16_mod lower_digit is_xdigit
hex4_table = refl

code_of-short : (c d : ℕ) → short_escape c ≡ some d → code_of c ≡ 92 ∷ d ∷ []
unfolding code_of
code_of-short c d e = rw (e, code_of)

code_of-long : (c : ℕ) → short_escape c ≡ none → ltb c 32 ≡ true → code_of c ≡ long_escape c
unfolding code_of
code_of-long c e l = rw (e, code_of, l)

code_of-plain : (c : ℕ) → short_escape c ≡ none → ltb c 32 ≡ false → code_of c ≡ c ∷ []
unfolding code_of
code_of-plain c e l = rw (e, code_of, l)

hex4_of_byte :
    (c : ℕ) (s : Bytes)
    → c < 256
    → hex4 (b'0' ∷ b'0' ∷ lower_digit (c / 16) ∷ lower_digit (c % 16) ∷ s) ≡ some c
unfolding hex4 is_xdigit
hex4_of_byte c s h = let t = test_passes _ 256 c hex4_table h in ground arith

-- The letter of a short escape stands for its character.
unescape_short :
    (r : StringBuilder) (c d : ℕ) (s : Bytes)
    → short_escape c ≡ some d
    → unescape_at r d s ≡ (append_char r c, 1)
unfolding short_escape unescape_at
unescape_short r c d s e = ground arith

not_backslash : (c : ℕ) → short_escape c ≡ none → (c == 92) ≡ false
unfolding short_escape
not_backslash c e = ground arith

unescape_plain :
    (r : StringBuilder) (c : ℕ) (s : Bytes)
    → (c == 92) ≡ false
    → unescape_loop 0 r (c ∷ s) ≡ unescape_loop 0 (append_char r c) s
unfolding unescape_loop
unescape_plain r c [] e = refl
unescape_plain r c (d ∷ s) e = rw (e, unescape_loop)

unescape_long :
    (r : StringBuilder) (c : ℕ) (s : Bytes)
    → c < 32
    → unescape_at r b'u' (b'0' ∷ b'0' ∷ lower_digit (c / 16) ∷ lower_digit (c % 16) ∷ s)
      ≡ (append_char r c, 5)
unfolding unescape_at append_utf8
unescape_long r c s h = rw (hex4_of_byte c s (omega arith)) (ground arith)

unescape_escape :
    (r r' : StringBuilder) (d k : ℕ) (s : Bytes)
    → unescape_at r d s ≡ (r', k)
    → unescape_loop 0 r (92 ∷ d ∷ s) ≡ unescape_loop k r' (d ∷ s)
unfolding unescape_loop
unescape_escape r r' d k s e = ap (λ (p : StringBuilder × ℕ). unescape_loop p.1 p.0 (d ∷ s)) e

unescape_code :
    (r : StringBuilder) (c : ℕ) (s : Bytes)
    → unescape_loop 0 r (code_of c ++ s) ≡ unescape_loop 0 (append_char r c) s
unfolding unescape_loop long_escape
unescape_code r c s = elim (Option-cases (short_escape c)) [
  | inl e ↦ elim (Bool-cases (ltb c 32)) [
    | inl l ↦
        rw (code_of-long c e l)
          (unescape_escape r (append_char r c) b'u' 5 _ (unescape_long r c s (ltb→lt c 32 l)))
    | inr l ↦ rw (code_of-plain c e l) (unescape_plain r c s (not_backslash c e))
  ]
  | inr (d, e) ↦
      rw (code_of-short c d e)
        (unescape_escape r (append_char r c) d 1 s (unescape_short r c d s e))
]

unescape_codes :
    (r : StringBuilder) (s : Bytes)
    → IsCString s
    → (unescape_loop 0 r (codes_of s)).text ≡ r.text ++ s
unfolding codes_of unescape_loop
unescape_codes r [] h = sym (append-nil r.text)
unescape_codes r (c ∷ s) h =
    let nz : (c == 0) ≡ false = let p = h.0 in ground arith in
    ap (λ x. x.text) (unescape_code r c (codes_of s))
    ∙ unescape_codes (append_char r c) s h.2
    ∙ ap (λ t. t ++ s) (text-append_char r c ∙ rw nz)
    ∙ append_assoc r.text (c ∷ []) s

-- With memory at hand, unescaping what was escaped gives back any C string.
pub json_unescape-json_escape : (s : Bytes) → IsCString s → json_unescape (json_escape s) ≡ s
unfolding json_unescape json_escape string_get string_create
json_unescape-json_escape s h =
    ap (λ t. (unescape_loop 0 (string_create 256) t).text)
      (text-escape_loop (string_create 256) s h)
    ∙ unescape_codes (string_create 256) s h
