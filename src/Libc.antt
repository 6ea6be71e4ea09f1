-- ===== src/Libc.antt =====
-- What the sources use of the C library, in the "C" locale, over bytes as numbers below 256.
use Prim.Native.Char.{code}
use Prim.Native.String.{String}
use chatweb.Base.{
  ℕ, zero, suc, ◌+◌, ◌-◌, ◌*◌, ◌%◌, ◌<◌, ◌≡◌, refl, ◌↔◌, Bool, true, false, ◌&&◌, ◌||◌, List, [],
  ◌∷◌, arith, leb, ◌==◌, if◌then◌else◌,
}

-- A C string without its terminator.
abbrev pub Bytes : Type 0
Bytes = List ℕ

-- A text literal as bytes.
abbrev pub bytes : String → Bytes
bytes String.[] = []
bytes (String.◌∷◌ c s) = code c ∷ bytes s

abbrev pub IsBytes : Bytes → Type 0
IsBytes [] = Unit {0}
IsBytes (b ∷ s) = (b < 256) × IsBytes s

unfoldable pub is_digit : ℕ → Bool
is_digit c = leb b'0' c && leb c b'9'

unfoldable pub is_upper : ℕ → Bool
is_upper c = leb b'A' c && leb c b'Z'

unfoldable pub is_lower : ℕ → Bool
is_lower c = leb b'a' c && leb c b'z'

unfoldable pub is_alnum : ℕ → Bool
unfolding is_digit is_upper is_lower
is_alnum c = is_digit c || (is_upper c || is_lower c)

unfoldable pub is_xdigit : ℕ → Bool
unfolding is_digit
is_xdigit c = is_digit c || ((leb b'A' c && leb c b'F') || (leb b'a' c && leb c b'f'))

-- space, \t, \n, \v, \f, \r
unfoldable pub is_space : ℕ → Bool
is_space c = c == 32 || (leb 9 c && leb c 13)

-- The value of a hexadecimal digit.
unfoldable pub digit_value : ℕ → ℕ
unfolding is_digit
digit_value c = if is_digit c then c - b'0' else if leb b'a' c then c - 87 else c - 55

-- The digits that strtol reads in base 16, after `acc`.
unfoldable pub hex_digits : ℕ → Bytes → ℕ
unfolding is_xdigit digit_value
hex_digits acc [] = acc
hex_digits acc (c ∷ s) = elim (is_xdigit c) [
  | true ↦ hex_digits (16 * acc + digit_value c) s
  | false ↦ acc
]

-- "0x" counts as a prefix only before a digit.
unfoldable pub hex_prefix : Bytes → ℕ
unfolding hex_digits
hex_prefix (z ∷ x ∷ d ∷ s) =
    if z == b'0' && ((x == b'x' || x == b'X') && is_xdigit d)
    then hex_digits 0 (d ∷ s)
    else hex_digits 0 (z ∷ x ∷ d ∷ s)
hex_prefix (z ∷ x ∷ []) = hex_digits 0 (z ∷ x ∷ [])
hex_prefix (z ∷ []) = hex_digits 0 (z ∷ [])
hex_prefix [] = 0

-- strtol(s, NULL, 16) reduced modulo `m`, a power of two that a cast leaves of it; for strings of
-- so few digits that the value is in range.
unfoldable pub strtol16_mod : ℕ → Bytes → ℕ
unfolding is_space hex_prefix
strtol16_mod m [] = 0
strtol16_mod m (c ∷ s) = elim (is_space c) [
  | true ↦ strtol16_mod m s
  | false ↦
      if c == b'-'
      then (m - hex_prefix s % m) % m
      else if c == b'+'
      then hex_prefix s % m
      else hex_prefix (c ∷ s) % m
]

-- strcmp(s, t) == 0
unfoldable pub bytes_eq : Bytes → Bytes → Bool
bytes_eq [] [] = true
bytes_eq [] (y ∷ t) = false
bytes_eq (x ∷ s) [] = false
bytes_eq (x ∷ s) (y ∷ t) = x == y && bytes_eq s t

pub bytes_eq_iff : (s t : Bytes) → (bytes_eq s t ≡ true) ↔ (s ≡ t)
unfolding bytes_eq
bytes_eq_iff [] [] = ground arith
bytes_eq_iff [] (y ∷ t) = ground arith
bytes_eq_iff (x ∷ s) [] = ground arith
bytes_eq_iff (x ∷ s) (y ∷ t) = ground (arith, bytes_eq_iff s t)

pub bytes_eq_refl : (s : Bytes) → bytes_eq s s ≡ true
bytes_eq_refl s = (bytes_eq_iff s s).1 refl

-- Whether a test passes at every number below a bound, so that a fact about all bytes is computed.
unfoldable pub passes_below : ℕ → (ℕ → Bool) → Bool
passes_below zero test = true
passes_below (suc bound) test = if test bound then passes_below bound test else false

pub test_passes :
    (test : ℕ → Bool) (bound c : ℕ) → passes_below bound test ≡ true → c < bound → test c ≡ true
unfolding passes_below
test_passes test zero c h l = absurd (omega arith)
test_passes test (suc bound) c h l = ground (arith, test_passes test bound c)
