-- ===== src/Utils/StringBuilder.antt =====
-- The dynamic string of server/src/utils.c (string_t of server/include/utils.h), where every
-- allocation succeeds unless an argument says otherwise.
pub mod Laws
use chatweb.Base.{
  ℕ, zero, suc, ◌+◌, ◌*◌, ◌%◌, ◌≡◌, Bool, true, false, List, [], ◌∷◌, ◌++◌, Option, none, some, ltb,
  leb, ◌==◌, if◌then◌else◌, length,
}
use chatweb.Base.Memory.{size_mod, add_size}
use chatweb.Libc.{Bytes}

-- `text` is data without the terminator, so `length` is its length.
pub record StringBuilder : Type 0 where
  pub text : Bytes
  pub capacity : ℕ

unfoldable pub string_create : ℕ → StringBuilder
string_create initial_capacity = record {
  text = [];
  capacity = if ltb initial_capacity 16 then 16 else initial_capacity;
}

unfoldable pub string_clear : StringBuilder → StringBuilder
string_clear str = record str { text = [] }

-- while (new_capacity <= new_length) new_capacity *= 2;
unfoldable pub grow_capacity : ℕ → ℕ → ℕ → ℕ
grow_capacity zero new_length cap = cap
grow_capacity (suc fuel) new_length cap = elim (leb cap new_length) [
  | true ↦ grow_capacity fuel new_length (cap * 2 % size_mod)
  | false ↦ cap
]

-- The first argument says whether utils_realloc succeeds, the flag in the result whether the call
-- returns 0. Sixty-four doublings take any size_t past every length.
unfoldable pub string_append : Bool → StringBuilder → Bytes → Bool × StringBuilder
string_append realloc_ok str text =
    let new_length = add_size (length str.text) (length text) in
    let appended : Bytes = str.text ++ text in
    if ltb str.capacity (add_size new_length 1)
    then (if realloc_ok
        then (
          true,
          record {
            text = appended;
            capacity = grow_capacity 64 new_length (str.capacity * 2 % size_mod);
          },
        )
        else (false, str))
    else (true, record str { text = appended })

-- A terminator given as the character adds nothing.
unfoldable pub string_append_char : Bool → StringBuilder → ℕ → Bool × StringBuilder
string_append_char realloc_ok str ch =
    string_append realloc_ok str (if ch == 0 then [] else ch ∷ [])

unfoldable pub string_get : StringBuilder → Bytes
string_get str = str.text

unfoldable pub string_length : StringBuilder → ℕ
string_length str = length str.text

unfoldable pub string_empty : StringBuilder → Bool
string_empty str = string_length str == 0
