-- ===== src/Auth/Passwords.antt =====
-- check_password_strength of server/src/auth.c. strcasecmp compares in lower case.
use chatweb.Base.{
  ℕ, ◌+◌, ◌≤◌, ◌≡◌, ◌↔◌, refl, ap, ◌∙◌, Bool, true, false, ◌||◌, List, [], ◌∷◌, arith, ltb,
  if◌then◌else◌, length,
}
use chatweb.Libc.{Bytes, bytes, bytes_eq, is_digit, is_upper, is_lower}
use chatweb.Utils.Strings.{strlower}
use chatweb.Auth.{Status, success, password_too_weak}

abbrev pub password_min_length : ℕ
password_min_length = 8

abbrev pub password_max_length : ℕ
password_max_length = 128

-- has_upper, has_lower, has_digit and has_special
pub record Kinds : Type 0 where
  pub upper : Bool
  pub lower : Bool
  pub digit : Bool
  pub special : Bool

unfoldable pub add_kind : ℕ → Kinds → Kinds
add_kind c k =
    if is_upper c
    then record k { upper = true }
    else if is_lower c
    then record k { lower = true }
    else if is_digit c
    then record k { digit = true }
    else record k { special = true }

unfoldable pub kinds_loop : Kinds → Bytes → Kinds
kinds_loop k [] = k
kinds_loop k (c ∷ s) = kinds_loop (add_kind c k) s

abbrev pub no_kinds : Kinds
no_kinds = record { upper = false; lower = false; digit = false; special = false }

abbrev pub bit : Bool → ℕ
bit b = if b then 1 else 0

unfoldable pub char_types : Kinds → ℕ
char_types k = bit k.upper + bit k.lower + bit k.digit + bit k.special

abbrev pub weak_passwords : List Bytes
weak_passwords =
    bytes "password"
    ∷ bytes "123456"
    ∷ bytes "qwerty"
    ∷ bytes "admin"
    ∷ bytes "welcome"
    ∷ bytes "password123"
    ∷ bytes "admin123"
    ∷ bytes "12345678"
    ∷ bytes "123456789"
    ∷ []

unfoldable pub is_listed : Bytes → List Bytes → Bool
is_listed password [] = false
is_listed password (weak ∷ list) =
    let rest = is_listed password list in
    if bytes_eq (strlower password) (strlower weak) then true else rest

unfoldable pub check_password_strength : Bytes → Status
check_password_strength password =
    if ltb (length password) password_min_length
    then password_too_weak
    else if ltb password_max_length (length password)
    then password_too_weak
    else if ltb (char_types (kinds_loop no_kinds password)) 3
    then password_too_weak
    else if is_listed password weak_passwords
    then password_too_weak
    else success

abbrev pub any : (ℕ → Bool) → Bytes → Bool
any test [] = false
any test (c ∷ s) = test c || any test s

abbrev pub is_special : ℕ → Bool
is_special c = if is_upper c || (is_lower c || is_digit c) then false else true

-- How many of the four kinds of character occur.
abbrev pub kinds_in : Bytes → ℕ
kinds_in s =
    bit (any is_upper s) + bit (any is_lower s) + bit (any is_digit s) + bit (any is_special s)

add_kind-fields :
    (c : ℕ) (k : Kinds)
    → ((add_kind c k).upper ≡ k.upper || is_upper c)
      × ((add_kind c k).lower ≡ k.lower || is_lower c)
      × ((add_kind c k).digit ≡ k.digit || is_digit c)
      × ((add_kind c k).special ≡ k.special || is_special c)
unfolding add_kind is_upper is_lower is_digit
add_kind-fields c k = (ground arith, ground arith, ground arith, ground arith)

or_any : (a b c d : Bool) → a ≡ b || c → a || d ≡ b || (c || d)
or_any a true c d e = ground (arith, e)
or_any a false c d e = ap (λ x. x || d) e

kinds_loop-fields :
    (k : Kinds) (s : Bytes)
    → ((kinds_loop k s).upper ≡ k.upper || any is_upper s)
      × ((kinds_loop k s).lower ≡ k.lower || any is_lower s)
      × ((kinds_loop k s).digit ≡ k.digit || any is_digit s)
      × ((kinds_loop k s).special ≡ k.special || any is_special s)
unfolding kinds_loop
kinds_loop-fields k [] = (ground arith, ground arith, ground arith, ground arith)
kinds_loop-fields k (c ∷ s) =
    let (u, l, d, p) = kinds_loop-fields (add_kind c k) s in
    let (u', l', d', p') = add_kind-fields c k in
    (u ∙ or_any _ _ _ _ u', l ∙ or_any _ _ _ _ l', d ∙ or_any _ _ _ _ d', p ∙ or_any _ _ _ _ p')

char_types-kinds_in : (s : Bytes) → char_types (kinds_loop no_kinds s) ≡ kinds_in s
unfolding char_types
char_types-kinds_in s = let (u, l, d, p) = kinds_loop-fields no_kinds s in rw (u, l, d, p) refl

-- A password is accepted just when it has from 8 to 128 bytes, at least three of the four kinds of
-- character occur in it, and it is not on the list of weak ones in any letter case.
check_password_strength_iff :
    (password : Bytes)
    → (check_password_strength password ≡ success) ↔ (
        (8 ≤ length password)
        × (length password ≤ 128)
        × (3 ≤ kinds_in password)
        × (is_listed password weak_passwords ≡ false))
unfolding check_password_strength
check_password_strength_iff password =
    let e = char_types-kinds_in password in
    (
      (λ h. (ground (arith, h), ground (arith, h), ground (arith, h), ground (arith, h))),
      (λ h. ground (arith, e)),
    )
