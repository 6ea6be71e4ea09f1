-- ===== src/Utils/Codec/Hex.antt =====
-- utils_hex_encode and utils_hex_decode of server/src/utils.c, with memory at hand.
use chatweb.Base.{
  ℕ, ◌+◌, ◌/◌, ◌%◌, ◌<◌, ◌≡◌, refl, true, [], ◌∷◌, Option, none, some, arith, ltb, ◌==◌, ==_iff,
  if◌then◌else◌, length,
}
use chatweb.Libc.{IsBytes, Bytes, strtol16_mod, passes_below, test_passes}

-- A digit of "%02x".
unfoldable pub lower_digit : ℕ → ℕ
lower_digit n = if ltb n 10 then n + b'0' else n + 87

-- sprintf(hex + i * 2, "%02x", bytes[i]) for each byte
unfoldable pub hex_encode : Bytes → Bytes
unfolding lower_digit
hex_encode [] = []
hex_encode (b ∷ s) = lower_digit (b / 16) ∷ lower_digit (b % 16) ∷ hex_encode s

-- The loop of the decoder, over an even number of characters.
unfoldable pub decode_pairs : Bytes → Option Bytes
decode_pairs [] = some []
decode_pairs (h ∷ []) = none
decode_pairs (h ∷ l ∷ s) = elim (decode_pairs s) [
  | none ↦ none
  | some out ↦ some (strtol16_mod 256 (h ∷ l ∷ []) ∷ out)
]

-- `none` for the null pointer that is returned at an odd length.
unfoldable pub hex_decode : Bytes → Option Bytes
unfolding decode_pairs
hex_decode hex = if length hex % 2 == 0 then decode_pairs hex else none

byte_table :
    passes_below 256 (λ b. strtol16_mod 256 (lower_digit (b / 16) ∷ lower_digit (b % 16) ∷ []) == b)
    ≡ true
unfolding passes_below strtol16_mod lower_digit
byte_table = refl

digits_of_byte :
    (b : ℕ) → b < 256 → strtol16_mod 256 (lower_digit (b / 16) ∷ lower_digit (b % 16) ∷ []) ≡ b
digits_of_byte b h = (==_iff _ b).0 (test_passes _ 256 b byte_table h)

length-hex_encode : (s : Bytes) → length (hex_encode s) ≡ length s + length s
unfolding hex_encode
length-hex_encode [] = refl
length-hex_encode (b ∷ s) = omega (arith, length-hex_encode s)

decode_pairs-hex_encode : (s : Bytes) → IsBytes s → decode_pairs (hex_encode s) ≡ some s
unfolding decode_pairs hex_encode
decode_pairs-hex_encode [] h = refl
decode_pairs-hex_encode (b ∷ s) h = rw (decode_pairs-hex_encode s h.1, digits_of_byte b h.0)

-- Decoding what was encoded gives back any bytes; the code takes two digits for each byte.
hex_decode-hex_encode :
    (s : Bytes)
    → IsBytes s
    → (length (hex_encode s) ≡ length s + length s) × (hex_decode (hex_encode s) ≡ some s)
unfolding hex_decode
hex_decode-hex_encode s h = (
  length-hex_encode s,
  (let e : length (hex_encode s) % 2 ≡ 0 = omega (arith, length-hex_encode s) in
      rw (e, decode_pairs-hex_encode s h)),
)
