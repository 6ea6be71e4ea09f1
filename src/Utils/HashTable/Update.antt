-- ===== src/Utils/HashTable/Update.antt =====
-- The operations of the hash table against the function from keys to values that it stands for.
use native.Mathlib.Nat.{le_trans}
use chatweb.Base.{
  ℕ, ◌+◌, ◌-◌, ◌≤◌, ◌<◌, ◌≡◌, ap, sym, ◌∙◌, inl, inr, Bool, true, false, [], ◌∷◌, Option, none,
  some, arith, ◌==◌, if◌then◌else◌, get_or, set, Option-cases, Bool-cases, ==_iff,
}
use chatweb.Libc.{Bytes, bytes_eq, bytes_eq_iff}
use chatweb.Utils.HashTable.{
  HashTable, ok, failed, hash_table_insert, hash_table_lookup, hash_table_remove, freed,
}
use chatweb.Utils.HashTable.Chains.{
  Chain, occurs, find, assign, erase, find-assign, occurs-assign, length-assign, find-erase,
  occurs-erase, length-erase, find-cons, occurs-cons,
}
use chatweb.Utils.HashTable.Valid.{
  IsValid, index, chain_of, bucket_of_lem, get_or-set, set-IsValid, index-lt, total-set,
}

module _ {ℓ} {V : Type ℓ} where
  -- The pointer that a lookup gives for what the chain holds.
  abbrev pub pointer : Option (Option V) → Option V
  pointer none = none
  pointer (some v) = v

  abbrev pub holds : Option (Option V) → Bool
  holds none = false
  holds (some v) = true

  pub lookup_lem :
      (t : HashTable V) (key : Bytes)
      → IsValid t
      → hash_table_lookup t key ≡ some (pointer (find key (chain_of t key)))
  unfolding hash_table_lookup
  lookup_lem t key v = rw (bucket_of_lem t key v, hash_table_lookup) (ground arith)

  -- A table whose chain at `key` was replaced by one that differs from it only at `key` looks up
  -- as before, but for `key`.
  lookup-set :
      (t : HashTable V) (key j : Bytes) (c : Chain V) (n : ℕ) (new : Option (Option V))
      → IsValid t
      → IsValid (record t { buckets = set t.buckets (index t key) c; count = n })
      → ((k : Bytes) → find k c ≡ (if bytes_eq key k then new else find k (chain_of t key)))
      → hash_table_lookup (record t { buckets = set t.buckets (index t key) c; count = n }) j
        ≡ (if bytes_eq key j then some (pointer new) else hash_table_lookup t j)
  lookup-set t key j c n new v v' f =
      rw (lookup_lem _ j v', lookup_lem t j v, get_or-set t key c (index t j) v) (split j)
    where
      split :
          (j : Bytes)
          → ◌≡◌ {A = Option (Option V)}
              (some (pointer (find j (if index t key == index t j then c else chain_of t j))))
              (if bytes_eq key j
                then some (pointer new)
                else some (pointer (find j (chain_of t j))))
      split j = elim (Bool-cases (bytes_eq key j)) [
        | inl e ↦
            let same : index t key ≡ index t j = ap (index t) ((bytes_eq_iff key j).0 e) in
            let here : (index t key == index t j) ≡ true = ground arith in rw (here, e, f j, e)
        | inr e ↦ elim (Bool-cases (index t key == index t j)) [
          | inl here ↦
              let same : get_or t.buckets (index t key) [] ≡ chain_of t j =
                ap (λ i. get_or t.buckets i []) ((==_iff (index t key) (index t j)).0 here) in
              rw (here, e, f j, e, same)
          | inr away ↦ rw (away, e)
        ]
      ]

  -- hash_table_insert into a valid table, with memory at hand, returns 0. The table is valid again
  -- and stands for the old function changed at the key alone; the count goes up by one exactly if
  -- the key was not there, and otherwise the value that it had is freed, if there is a function
  -- for that.
  pub hash_table_insert-lookup :
      (t : HashTable V) (key : Bytes) (value : Option V)
      → IsValid t
      → (t' : HashTable V) × (hash_table_insert true true t key value
          ≡ some (
            ok,
            t',
            elim (find key (chain_of t key)) [ none ↦ [] | some old ↦ freed t.frees old ],
          ))
        × IsValid t'
        × ((j : Bytes)
            → hash_table_lookup t' j
              ≡ (if bytes_eq key j then some value else hash_table_lookup t j))
        × (t'.count ≡ t.count + (if holds (find key (chain_of t key)) then 0 else 1))
  unfolding hash_table_insert
  hash_table_insert-lookup t key value v = elim (Option-cases (find key (chain_of t key))) [
    | inl e ↦
        let c : Chain V = record { key = key; value = value } ∷ chain_of t key in
        let v' : IsValid
            (record t { buckets = set t.buckets (index t key) c; count = t.count + 1 }) =
          set-IsValid t key c (t.count + 1) v
            (λ k. occurs-cons key k value (chain_of t key) e (v.unique (index t key) k))
            (omega arith) in
        (
          record t { buckets = set t.buckets (index t key) c; count = t.count + 1 },
          rw (bucket_of_lem t key v, hash_table_insert, e),
          v',
          (λ j.
              lookup-set t key j c (t.count + 1) (some value) v v'
                (λ k. find-cons key k value (chain_of t key))),
          rw e,
        )
    | inr (old, e) ↦
        let c : Chain V = assign key value (chain_of t key) in
        let v' : IsValid (record t { buckets = set t.buckets (index t key) c; count = t.count }) =
          set-IsValid t key c t.count v
            (λ k. rw (occurs-assign key k value (chain_of t key)) (v.unique (index t key) k))
            (omega (arith, length-assign key value (chain_of t key))) in
        (
          record t { buckets = set t.buckets (index t key) c },
          rw (bucket_of_lem t key v, hash_table_insert, e),
          v',
          (λ j.
              lookup-set t key j c t.count (some value) v v'
                (λ k. find-assign key k value old (chain_of t key) e)),
          rw e (omega arith),
        )
  ]

  -- hash_table_remove from a valid table: where the key is there it returns 0, the node's value is
  -- freed if there is a function for that, the count goes down by one, and the table is valid and
  -- stands for the old function without the key. Otherwise it returns -1 and changes nothing.
  pub hash_table_remove-lookup :
      (t : HashTable V) (key : Bytes)
      → IsValid t
      → let found = find key (chain_of t key) in
        (t' : HashTable V) × (hash_table_remove t key
          ≡ some (elim found [ none ↦ (failed, t, []) | some old ↦ (ok, t', freed t.frees old) ]))
        × IsValid t'
        × ((j : Bytes)
            → hash_table_lookup t' j
              ≡ (if bytes_eq key j then some none else hash_table_lookup t j))
        × (t'.count + (if holds found then 1 else 0) ≡ t.count)
  unfolding hash_table_remove
  hash_table_remove-lookup t key v = elim (Option-cases (find key (chain_of t key))) [
    | inl e ↦ (
      t,
      rw (bucket_of_lem t key v, hash_table_remove, e),
      v,
      (λ j. absent j e),
      rw e (omega arith),
    )
    | inr (old, e) ↦
        let c : Chain V = erase key (chain_of t key) in
        let n : ℕ = t.count - 1 in
        let one : (k : Bytes) → occurs k (chain_of t key) ≤ 1 = v.unique (index t key) in
        let l = length-erase key old (chain_of t key) e in
        let pos : 0 < t.count =
          let a = total-set t.buckets (index t key) [] (index-lt t key v) in
          let b = v.counted in omega arith in
        let v' : IsValid (record t { buckets = set t.buckets (index t key) c; count = n }) =
          set-IsValid t key c n v (λ k. le_trans (occurs-erase key k (chain_of t key)) (one k))
            (omega arith) in
        (
          record t { buckets = set t.buckets (index t key) c; count = n },
          rw (bucket_of_lem t key v, hash_table_remove, e),
          v',
          (λ j.
              lookup-set t key j c n none v v' (λ k. find-erase key k (chain_of t key) (one key))),
          rw e (omega arith),
        )
  ]
    where
      absent :
          (j : Bytes)
          → find key (chain_of t key) ≡ none
          → hash_table_lookup t j ≡ (if bytes_eq key j then some none else hash_table_lookup t j)
      absent j e = elim (Bool-cases (bytes_eq key j)) [
        | inl same ↦ rw same (
            ap (hash_table_lookup t) (sym ((bytes_eq_iff key j).0 same))
            ∙ lookup_lem t key v
            ∙ rw e)
        | inr other ↦ rw other
      ]
