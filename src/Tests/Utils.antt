-- ===== src/Tests/Utils.antt =====
-- The theorems on server/src/utils.c at concrete inputs.
use chatweb.Base.{
  ◌==◌, ℕ, zero, suc, ◌+◌, ◌-◌, ◌≤◌, ◌≡◌, refl, true, List, [], ◌∷◌, ◌++◌, none, some, arith,
  if◌then◌else◌, length, take, drop, min, get_or,
}
use chatweb.Libc.{Bytes, bytes, bytes_eq}
use chatweb.Utils.RingBuffer.{RingBuffer, ring_buffer_write, ring_buffer_read}
use chatweb.Utils.RingBuffer.Window.{contents}
use chatweb.Utils.RingBuffer.Window
use chatweb.Utils.RingBuffer.Write.{ring_buffer_write-contents}
use chatweb.Utils.RingBuffer.Read.{ring_buffer_read-contents}
use chatweb.Utils.LinkedList.{LinkedList, list_append, list_prepend, list_get}
use chatweb.Utils.LinkedList.Chain.{Cell, Holds}
use chatweb.Utils.LinkedList.Contents.{content_at, list_append-list_get}
use chatweb.Utils.Codec.Url.{IsCString}
use chatweb.Utils.Codec.Json.{json_escape, json_unescape, json_unescape-json_escape}
use chatweb.Utils.HashTable.{
  HashTable, ok, failed, hash_table_insert, hash_table_lookup, hash_table_remove, freed,
}
use chatweb.Utils.HashTable.Chains.{find, occurs}
use chatweb.Utils.HashTable.Valid
use chatweb.Utils.HashTable.Valid.{chain_of}
use chatweb.Utils.HashTable.Update.{holds, hash_table_insert-lookup, hash_table_remove-lookup}

-- Three of four bytes held, across the end of the storage.
abbrev wrapped : RingBuffer
wrapped = record {
  buffer = 3 ∷ 0 ∷ 1 ∷ 2 ∷ [];
  capacity = 4;
  head = 1;
  tail = 2;
  size = 3;
  overwrite = true;
}

wrapped-IsValid : Window.IsValid wrapped
wrapped-IsValid = record {
  storage = refl;
  nonempty = omega arith;
  small = omega arith;
  tail_in = omega arith;
  size_in = omega arith;
  head_at = refl;
}

ring_buffer_write-contents_example :
    let src : List ℕ = 7 ∷ 8 ∷ 9 ∷ [] in
    let taken = if wrapped.overwrite then src else take (wrapped.capacity - wrapped.size) src in
    (rb' : RingBuffer) × (ring_buffer_write wrapped (some src) ≡ some (length taken, rb'))
    × Window.IsValid rb'
    × (contents rb'
        ≡ drop (wrapped.size + length taken - wrapped.capacity) (contents wrapped ++ taken))
ring_buffer_write-contents_example =
    ring_buffer_write-contents wrapped (7 ∷ 8 ∷ 9 ∷ []) wrapped-IsValid

ring_buffer_read-contents_example :
    (rb' : RingBuffer) × (ring_buffer_read wrapped 2
      ≡ some (take (min 2 wrapped.size) (contents wrapped), rb'))
    × Window.IsValid rb'
    × (contents rb' ≡ drop (min 2 wrapped.size) (contents wrapped))
ring_buffer_read-contents_example = ring_buffer_read-contents wrapped 2 wrapped-IsValid

abbrev path_text : Bytes
path_text = bytes "a b/\"%"

path_text-IsCString : IsCString path_text
path_text-IsCString = (
  omega arith,
  omega arith,
  (
    omega arith,
    omega arith,
    (
      omega arith,
      omega arith,
      (omega arith, omega arith, (omega arith, omega arith, (omega arith, omega arith, tt))),
    ),
  ),
)

json_unescape-json_escape_example : json_unescape (json_escape path_text) ≡ path_text
json_unescape-json_escape_example = json_unescape-json_escape path_text path_text-IsCString

-- A table of two buckets, with every key in the first, that holds one value.
abbrev one_user : HashTable ℕ
one_user = record {
  buckets = (record { key = bytes "ann"; value = some 1 } ∷ []) ∷ [] ∷ [];
  size = 2;
  count = 1;
  hash_function = λ key. 0;
  frees = true;
}

one_user_unique : (i : ℕ) (k : Bytes) → occurs k (get_or one_user.buckets i []) ≤ 1
unfolding occurs
one_user_unique zero k = ground arith
one_user_unique (suc zero) k = omega arith
one_user_unique (suc (suc i)) k = omega arith

one_user-IsValid : Valid.IsValid one_user
one_user-IsValid = record {
  sized = refl;
  nonempty = omega arith;
  counted = refl;
  unique = one_user_unique;
}

hash_table_insert-lookup_example :
    (t' : HashTable ℕ) × (hash_table_insert true true one_user (bytes "bob") (some 2)
      ≡ some (
        ok,
        t',
        elim (find (bytes "bob") (chain_of one_user (bytes "bob"))) [
          | none ↦ []
          | some old ↦ freed one_user.frees old
        ],
      ))
    × Valid.IsValid t'
    × ((j : Bytes)
        → hash_table_lookup t' j
          ≡ (if bytes_eq (bytes "bob") j then some (some 2) else hash_table_lookup one_user j))
    × (t'.count
        ≡ one_user.count
          + (if holds (find (bytes "bob") (chain_of one_user (bytes "bob"))) then 0 else 1))
hash_table_insert-lookup_example =
    hash_table_insert-lookup one_user (bytes "bob") (some 2) one_user-IsValid

hash_table_remove-lookup_example :
    let found = find (bytes "ann") (chain_of one_user (bytes "ann")) in
    (t' : HashTable ℕ) × (hash_table_remove one_user (bytes "ann")
      ≡ some (elim found [
        | none ↦ (failed, one_user, [])
        | some old ↦ (ok, t', freed one_user.frees old)
      ]))
    × Valid.IsValid t'
    × ((j : Bytes)
        → hash_table_lookup t' j
          ≡ (if bytes_eq (bytes "ann") j then some none else hash_table_lookup one_user j))
    × (t'.count + (if holds found then 1 else 0) ≡ one_user.count)
hash_table_remove-lookup_example = hash_table_remove-lookup one_user (bytes "ann") one_user-IsValid

-- Two elements, at 16 and 32.
abbrev two_elements : LinkedList
two_elements = record {
  memory = λ p.
      if p == 16
      then some (record { data_ptr = 700; next = 32; prev = 0 })
      else if p == 32
      then some (record { data_ptr = 800; next = 0; prev = 16 })
      else none;
  head = 16;
  tail = 32;
  size = 2;
}

abbrev two_cells : List Cell
two_cells = record { address = 16; content = 700 } ∷ record { address = 32; content = 800 } ∷ []

two_elements-Holds : Holds two_elements two_cells
two_elements-Holds = record {
  chain = (
    32,
    refl,
    omega arith,
    refl,
    (omega arith, tt),
    (0, refl, omega arith, refl, tt, (refl, refl)),
  );
  counted = refl;
}

abbrev third : Cell
third = record { address = 48; content = 900 }

list_append-list_get_example :
    ((i : ℕ) → list_get two_elements i ≡ some (content_at two_cells i))
    × ((list' : LinkedList) × (list_append (some 48) two_elements 900 ≡ some (true, list'))
        × Holds list' (two_cells ++ third ∷ [])
        × ((i : ℕ) → list_get list' i ≡ some (content_at (two_cells ++ third ∷ []) i)))
    × ((list' : LinkedList) × (list_prepend (some 48) two_elements 900 ≡ some (true, list'))
        × Holds list' (third ∷ two_cells)
        × ((i : ℕ) → list_get list' i ≡ some (content_at (third ∷ two_cells) i)))
list_append-list_get_example =
    list_append-list_get two_elements two_cells 48 900 two_elements-Holds (omega arith)
      (omega arith, (omega arith, tt)) (omega arith)
