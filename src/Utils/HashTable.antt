-- ===== src/Utils/HashTable.antt =====
-- The hash table of server/src/utils.c (hash_table_t of server/include/utils.h). An operation is
-- `none` where the C code would divide by zero or leave the bucket array.
pub mod Hash
pub mod Chains
pub mod Valid
pub mod Update
use chatweb.Base.{
  ℕ, ◌+◌, ◌-◌, ◌%◌, Bool, true, false, List, [], ◌∷◌, Option, none, some, leb, ◌==◌, if◌then◌else◌,
  get_elem?, set, replicate,
}
use chatweb.Libc.{Bytes}
use Hash.{hash_string_djb2}
use Chains.{Node, Chain, find, assign, erase}

pub record HashTable {ℓ} (V : Type ℓ) : Type ℓ where
  pub buckets : List (Chain V)
  pub size : ℕ
  pub count : ℕ
  pub hash_function : Bytes → ℕ
  -- whether value_free_function is set
  pub frees : Bool

-- 0 and -1
pub data Status : Type 0 where
  ok failed : Status

abbrev pub primes : List ℕ
primes =
    53 ∷ 97 ∷ 193 ∷ 389 ∷ 769 ∷ 1543 ∷ 3079 ∷ 6151 ∷ 12289 ∷ 24593 ∷ 49157 ∷ 98317 ∷ 196613 ∷ 393241
    ∷ []

-- The first listed prime that is no smaller; past the list the size itself.
unfoldable pub round_size : List ℕ → ℕ → ℕ
round_size [] size = size
round_size (p ∷ ps) size = if leb size p then p else round_size ps size

abbrev pub freed {ℓ} : {V : Type ℓ} → Bool → Option V → List V
freed false v = []
freed true none = []
freed true (some v) = v ∷ []

module _ {ℓ} {V : Type ℓ} where
  -- The flags say whether the two allocations succeed.
  unfoldable pub hash_table_create :
      Bool → Bool → ℕ → Option (Bytes → ℕ) → Bool → Option (HashTable V)
  hash_table_create false buckets_ok size hash_function frees = none
  hash_table_create true false size hash_function frees = none
  hash_table_create true true size hash_function frees = some (record {
    buckets = replicate (round_size primes size) [];
    size = round_size primes size;
    count = 0;
    hash_function = elim hash_function [ none ↦ hash_string_djb2 | some h ↦ h ];
    frees = frees;
  })

  -- The index of a key's bucket, and the chain there.
  unfoldable pub bucket_of : HashTable V → Bytes → Option (ℕ × Chain V)
  bucket_of table key =
      if table.size == 0
      then none
      else (elim (get_elem? table.buckets (table.hash_function key % table.size)) [
        | none ↦ none
        | some chain ↦ some (table.hash_function key % table.size, chain)
      ])

  -- A new node goes to the front of its chain. The flags say whether the node and the copy of the
  -- key can be allocated; the list holds the values given to value_free_function.
  unfoldable pub hash_table_insert :
      Bool → Bool → HashTable V → Bytes → Option V → Option (Status × HashTable V × List V)
  hash_table_insert node_ok key_ok table key value = elim (bucket_of table key) [
    | none ↦ none
    | some (index, chain) ↦ elim (find key chain) [
      | some old ↦ some (
        ok,
        record table { buckets = set table.buckets index (assign key value chain) },
        freed table.frees old,
      )
      | none ↦
          if node_ok
          then (if key_ok
              then some (
                ok,
                record table {
                  buckets = set table.buckets index (record { key = key; value = value } ∷ chain);
                  count = table.count + 1;
                },
                [],
              )
              else some (failed, table, []))
          else some (failed, table, [])
    ]
  ]

  -- The inner option is the pointer that the call returns.
  unfoldable pub hash_table_lookup : HashTable V → Bytes → Option (Option V)
  hash_table_lookup table key = elim (bucket_of table key) [
    | none ↦ none
    | some (index, chain) ↦ elim (find key chain) [ none ↦ some none | some v ↦ some v ]
  ]

  -- `count` only falls where a node was found.
  unfoldable pub hash_table_remove : HashTable V → Bytes → Option (Status × HashTable V × List V)
  hash_table_remove table key = elim (bucket_of table key) [
    | none ↦ none
    | some (index, chain) ↦ elim (find key chain) [
      | some old ↦ some (
        ok,
        record table {
          buckets = set table.buckets index (erase key chain);
          count = table.count - 1;
        },
        freed table.frees old,
      )
      | none ↦ some (failed, table, [])
    ]
  ]

  unfoldable pub hash_table_size : HashTable V → ℕ
  hash_table_size table = table.size

  unfoldable pub hash_table_count : HashTable V → ℕ
  hash_table_count table = table.count
