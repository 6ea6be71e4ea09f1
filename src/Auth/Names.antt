-- ===== src/Auth/Names.antt =====
-- auth_validate_username and auth_validate_email of server/src/auth.c.
use chatweb.Base.{
  ℕ, suc, ◌+◌, ◌<◌, ◌≡◌, refl, sym, ap, ◌∙◌, Bool, true, false, ◌&&◌, ◌||◌, [], ◌∷◌, ◌++◌, Option,
  none, some, arith, ltb, leb, ◌==◌, if◌then◌else◌, length, Bool-cases, inl, inr, length-append,
  append-nil,
}
use chatweb.Libc.{Bytes, is_alnum, is_digit, is_upper, is_lower}

abbrev pub max_username_len : ℕ
max_username_len = 64

abbrev pub max_email_len : ℕ
max_email_len = 128

unfoldable pub all_allowed : Bytes → Bool
all_allowed [] = true
all_allowed (c ∷ s) =
    let rest = all_allowed s in if is_alnum c || (c == b'_' || c == b'-') then rest else false

unfoldable pub auth_validate_username : Bytes → Bool
auth_validate_username username =
    if ltb (length username) 3 || leb max_username_len (length username)
    then false
    else all_allowed username

-- at_count and dot_after_at behind the last character; `none` where the loop returns.
unfoldable pub email_loop : ℕ → ℕ → Bytes → ℕ → Bool → Option (ℕ × Bool)
email_loop i len [] at_count dot_after_at = some (at_count, dot_after_at)
email_loop i len (c ∷ s) at_count dot_after_at =
    let rest =
      email_loop (suc i) len s (if c == b'@' then suc at_count else at_count)
        (dot_after_at || (c == b'.' && ltb 0 at_count)) in
    if c == b'@' && (i == 0 || suc i == len) then none else rest

abbrev pub one_at : Option (ℕ × Bool) → Bool
one_at none = false
one_at (some (at_count, dot_after_at)) = at_count == 1 && dot_after_at

unfoldable pub auth_validate_email : Bytes → Bool
auth_validate_email email =
    if ltb (length email) 3 || leb max_email_len (length email)
    then false
    else one_at (email_loop 0 (length email) email 0 false)

abbrev pub contains : ℕ → Bytes → Bool
contains c [] = false
contains c (x ∷ s) = x == c || contains c s

email_loop-before :
    (i len : ℕ) (name s : Bytes)
    → contains b'@' name ≡ false
    → email_loop i len (name ++ s) 0 false ≡ email_loop (i + length name) len s 0 false
unfolding email_loop
email_loop-before i len [] s h = ap (λ k. email_loop k len s 0 false) (omega arith)
email_loop-before i len (c ∷ name) s h =
    let t : (c == b'@') ≡ false = ground (arith, h) in
    let u : contains b'@' name ≡ false = ground (arith, h) in
    let d : (false || (c == b'.' && ltb 0 0)) ≡ false = ground arith in
    rw (t, d, email_loop)
      (email_loop-before (suc i) len name s u ∙ ap (λ k. email_loop k len s 0 false) (omega arith))

guarded :
    (b : Bool) (r : Option (ℕ × Bool)) → one_at r ≡ false → one_at (if b then none else r) ≡ false
guarded true r h = refl
guarded false r h = h

-- A second '@' is never made good.
email_loop-many :
    (i len : ℕ) (s : Bytes) (n : ℕ) (dot : Bool)
    → one_at (email_loop i len s (suc (suc n)) dot) ≡ false
unfolding email_loop
email_loop-many i len [] n dot = ground arith
email_loop-many i len (c ∷ s) n dot =
    let dot' = dot || (c == b'.' && ltb 0 (suc (suc n))) in
    elim (Bool-cases (c == b'@')) [
      | inl e ↦
          rw (e, email_loop)
            (guarded (i == 0 || suc i == len) (email_loop (suc i) len s (suc (suc (suc n))) dot')
              (email_loop-many (suc i) len s (suc n) dot'))
      | inr e ↦ rw (e, email_loop) (email_loop-many (suc i) len s n dot')
    ]

email_loop-domain :
    (i len : ℕ) (s : Bytes) (dot : Bool)
    → one_at (email_loop i len s 1 dot)
      ≡ (if contains b'@' s then false else dot || contains b'.' s)
unfolding email_loop
email_loop-domain i len [] dot = ground arith
email_loop-domain i len (c ∷ s) dot =
    let dot' = dot || (c == b'.' && ltb 0 1) in
    elim (Bool-cases (c == b'@')) [
      | inl e ↦
          rw (e, email_loop)
            (guarded (i == 0 || suc i == len) (email_loop (suc i) len s 2 dot')
              (email_loop-many (suc i) len s 0 dot'))
      | inr e ↦ rw (e, email_loop) (email_loop-domain (suc i) len s dot' ∙ ground arith)
    ]

contains-length : (c : ℕ) (s : Bytes) → contains c s ≡ true → 0 < length s
contains-length c [] e = ground arith
contains-length c (x ∷ s) e = omega arith

closed :
    (a b : Bool) (o : Option (ℕ × Bool))
    → one_at o ≡ false
    → (if a then false else one_at (if b then none else o)) ≡ false
closed true b o f = refl
closed false b o f = guarded b o f

open_tests :
    (a b : Bool) (o : Option (ℕ × Bool))
    → one_at o ≡ true
    → (if a then false else one_at (if b then none else o)) ≡ (if a || b then false else true)
open_tests true b o f = refl
open_tests false true o f = refl
open_tests false false o f = f

valid_lem :
    (n m k : ℕ) (more dot : Bool) (o : Option (ℕ × Bool))
    → k ≡ n + suc m
    → one_at o ≡ (if more then false else dot)
    → (dot ≡ true → 0 < m)
    → (if ltb k 3 || leb max_email_len k
        then false
        else one_at (if n == 0 || suc n == k then none else o))
      ≡ (if more then false else ltb 0 n && dot && ltb (n + 1 + m) max_email_len)
valid_lem n m k true dot o e f h =
    closed (ltb k 3 || leb max_email_len k) (n == 0 || suc n == k) o f
valid_lem n m k false true o e f h =
    let p = h refl in
    open_tests (ltb k 3 || leb max_email_len k) (n == 0 || suc n == k) o f ∙ ground (arith, e, p)
valid_lem n m k false false o e f h =
    closed (ltb k 3 || leb max_email_len k) (n == 0 || suc n == k) o f ∙ ground arith

all_allowed-contains : (s : Bytes) → all_allowed s ≡ true → contains b'@' s ≡ false
unfolding all_allowed is_alnum is_digit is_upper is_lower
all_allowed-contains [] h = refl
all_allowed-contains (c ∷ s) h =
    let e : all_allowed s ≡ true = ground (arith, h) in
    let f = all_allowed-contains s e in ground (arith, h)

-- A text without '@' is no email address. One whose first '@' stands between a local part and a
-- domain is valid just when the local part is not empty, the domain has no '@' and has a dot, and
-- the whole is shorter than 128 bytes.
auth_validate_email-split :
    (local domain : Bytes)
    → contains b'@' local ≡ false
    → (auth_validate_email local ≡ false)
      × (auth_validate_email (local ++ b'@' ∷ domain) ≡ (
          if contains b'@' domain
          then false
          else ltb 0 (length local)
            && contains b'.' domain
            && ltb (length local + 1 + length domain) max_email_len))
unfolding auth_validate_email email_loop
auth_validate_email-split local domain h =
    let b : email_loop 0 (length local) local 0 false ≡ some (0, false) =
      ap (λ s. email_loop 0 (length local) s 0 false) (sym (append-nil local))
      ∙ email_loop-before 0 (length local) local [] h
      ∙ refl in
    let email = local ++ b'@' ∷ domain in
    let f = email_loop-before 0 (length email) local (b'@' ∷ domain) h in
    let z : 0 + length local ≡ length local = omega arith in
    let l = length-append local (b'@' ∷ domain) in
    let d = email_loop-domain (suc (length local)) (length email) domain false in
    (
      rw (b, auth_validate_email) ground arith,
      rw (f, z, email_loop, auth_validate_email)
          (valid_lem (length local) (length domain) (length email) (contains b'@' domain)
            (contains b'.' domain) (email_loop (suc (length local)) (length email) domain 1 false) l
            d (contains-length b'.' domain)),
    )

-- A username that is valid is no valid email address.
auth_validate_username-auth_validate_email :
    (name : Bytes) → auth_validate_username name ≡ true → auth_validate_email name ≡ false
unfolding auth_validate_username
auth_validate_username-auth_validate_email name h =
    (auth_validate_email-split name [] (all_allowed-contains name (ground arith))).0
