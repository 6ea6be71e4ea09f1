-- ===== src/Utils/StringBuilder/Laws.antt =====
-- A dynamic string never outgrows its storage, and holds what was appended.
use native.Mathlib.Nat.{pow-suc}
use chatweb.Base.{
  ℕ, zero, suc, ◌+◌, ◌*◌, ◌%◌, ◌^◌, ◌≤◌, ◌<◌, ◌≡◌, ◌∙◌, ap, ◌||◌, inl, inr, Bool, true, [], ◌∷◌,
  ◌++◌, arith, ltb, leb, ◌==◌, if◌then◌else◌, length, length-append, Bool-cases, ltb→lt, ltb→le,
  leb→le, leb→lt,
}
use chatweb.Base.Memory.{size_mod}
use chatweb.Libc.{Bytes}
use chatweb.Utils.StringBuilder.{
  StringBuilder, grow_capacity, string_append, string_append_char, string_get,
}

-- The terminated text fits, in an object that can exist.
pub record IsValid (str : StringBuilder) : Type 0 where
  pub fits : length str.text < str.capacity
  pub room : 16 ≤ str.capacity
  pub small : str.capacity < 2 ^ 63

-- With enough doublings left the capacity passes the length, and stays one of an object.
grow_capacity-lt :
    (fuel n c : ℕ)
    → 1 ≤ c
    → c < 2 ^ 63
    → n < 2 ^ 62
    → n < c * 2 ^ fuel
    → (n < grow_capacity fuel n c)
      × (c ≤ grow_capacity fuel n c)
      × (grow_capacity fuel n c < 2 ^ 63)
unfolding grow_capacity
grow_capacity-lt zero n c h1 h2 h3 h4 = (omega arith, omega arith, omega arith)
grow_capacity-lt (suc fuel) n c h1 h2 h3 h4 = elim (Bool-cases (leb c n)) [
  | inl more ↦
      let m = leb→le _ _ more in
      let d : c * 2 % size_mod ≡ c * 2 = omega arith in
      let p = pow-suc 2 fuel in
      let e : c * 2 ^ suc fuel ≡ c * 2 * 2 ^ fuel = ap (λ t. c * t) p ∙ omega arith in
      let (a, b, d') =
        grow_capacity-lt fuel n (c * 2) (omega arith) (omega arith) h3 (omega arith) in
      rw (more, grow_capacity, d) (a, omega arith, d')
  | inr done ↦ let m = leb→lt _ _ done in rw (done, grow_capacity) (m, omega arith, h2)
]

-- string_append to a valid string, with room in the address space, returns 0 exactly if it needs
-- no reallocation or that succeeds. Then the string is valid again and holds the old text and the
-- new; otherwise it is unchanged.
string_append-text :
    (realloc_ok : Bool) (str : StringBuilder) (text : Bytes)
    → IsValid str
    → length str.text + length text < 2 ^ 62
    → let (ok, str') = string_append realloc_ok str text in
      (ok ≡ realloc_ok || ltb (length str.text + length text) str.capacity)
      × IsValid str'
      × (string_get str' ≡ (if ok then str.text ++ text else str.text))
unfolding string_append string_get
string_append-text realloc_ok str text v h =
    let n = length str.text + length text in
    let a : n % size_mod ≡ n = omega arith in
    let b : (n + 1) % size_mod ≡ n + 1 = omega arith in
    let l = length-append str.text text in
    elim (Bool-cases (ltb str.capacity (n + 1))) [
      | inl full ↦
          let f = ltb→lt _ _ full in
          let r = v.room in
          let d : str.capacity * 2 % size_mod ≡ str.capacity * 2 = omega arith in
          let (g, g', g'') =
            grow_capacity-lt 64 n (str.capacity * 2) (omega arith) (omega arith) h (omega arith) in
          rw (a, b, d, full) (ground arith)
      | inr fits ↦ let f = ltb→le _ _ fits in rw (a, b, fits) (ground arith)
    ]

-- What the encoders rely on: with memory at hand a character is appended, a terminator is not.
pub text-append_char :
    (str : StringBuilder) (ch : ℕ)
    → (string_append_char true str ch).1.text ≡ str.text ++ (if ch == 0 then [] else ch ∷ [])
unfolding string_append_char string_append
text-append_char str ch = ground arith

pub text-append :
    (str : StringBuilder) (text : Bytes) → (string_append true str text).1.text ≡ str.text ++ text
unfolding string_append
text-append str text = ground arith
