-- ===== src/Utils/HashTable/Valid.antt =====
-- The invariant of the hash table, and its buckets as a function of the key.
use native.Mathlib.Nat.{mod-lt}
use chatweb.Base.{
  ℕ, zero, suc, ◌+◌, ◌%◌, ◌≤◌, ◌<◌, ◌≡◌, refl, sym, ◌∙◌, Bool, true, false, List, [], ◌∷◌, Option,
  some, arith, ◌==◌, if◌then◌else◌, length, get_or, set, get_elem?-eq-get_or, get_or-set_self,
  get_or-set_ne, length-set, ℕ_discrete, length-replicate, get_or-replicate, replicate,
}
use chatweb.Libc.{Bytes}
use chatweb.Utils.HashTable.{HashTable, bucket_of, hash_table_create, round_size, primes}
use chatweb.Utils.HashTable.Chains.{Chain, occurs}

abbrev nil_chain {ℓ} : (V : Type ℓ) → Chain V
nil_chain V = []

module _ {ℓ} {V : Type ℓ} where
  -- The nodes of all the buckets.
  abbrev pub total : List (Chain V) → ℕ
  total [] = 0
  total (c ∷ bs) = length c + total bs

  pub total-set :
      (bs : List (Chain V)) (i : ℕ) (c : Chain V)
      → i < length bs
      → total (set bs i c) + length (get_or bs i []) ≡ total bs + length c
  total-set [] i c h = absurd (omega arith)
  total-set (b ∷ bs) zero c h = omega arith
  total-set (b ∷ bs) (suc i) c h = omega (arith, total-set bs i c (omega arith))

  pub record IsValid (t : HashTable V) : Type ℓ where
    pub sized : length t.buckets ≡ t.size
    pub nonempty : 0 < t.size
    pub counted : t.count ≡ total t.buckets
    pub unique : (i : ℕ) (k : Bytes) → occurs k (get_or t.buckets i []) ≤ 1

  abbrev pub index : HashTable V → Bytes → ℕ
  index t key = t.hash_function key % t.size

  abbrev pub chain_of : HashTable V → Bytes → Chain V
  chain_of t key = get_or t.buckets (index t key) []

  pub index-lt : (t : HashTable V) (key : Bytes) → IsValid t → index t key < length t.buckets
  index-lt t key v = rw v.sized (mod-lt (t.hash_function key) v.nonempty)

  pub bucket_of_lem :
      (t : HashTable V) (key : Bytes)
      → IsValid t
      → bucket_of t key ≡ some (index t key, chain_of t key)
  unfolding bucket_of
  bucket_of_lem t key v =
      let nz : (t.size == 0) ≡ false = let z = v.nonempty in ground arith in
      rw (nz, get_elem?-eq-get_or t.buckets (index t key) [] (index-lt t key v))

  -- Replacing the chain of one key changes the chains of those keys that share its bucket.
  pub get_or-set :
      (t : HashTable V) (key : Bytes) (c : Chain V) (j : ℕ)
      → IsValid t
      → get_or (set t.buckets (index t key) c) j []
        ≡ (if index t key == j then c else get_or t.buckets j [])
  get_or-set t key c j v = elim (ℕ_discrete (index t key) j) [
    | yes e ↦
        let b : (index t key == j) ≡ true = ground arith in
        rw b (rw (sym e) (get_or-set_self t.buckets (index t key) c [] (index-lt t key v)))
    | no n ↦
        let b : (index t key == j) ≡ false = ground arith in
        rw b (get_or-set_ne t.buckets (index t key) j c [] n)
  ]

  -- A table whose one chain was replaced by one without double keys is valid.
  pub set-IsValid :
      (t : HashTable V) (key : Bytes) (c : Chain V) (count : ℕ)
      → IsValid t
      → ((k : Bytes) → occurs k c ≤ 1)
      → count + length (chain_of t key) ≡ t.count + length c
      → IsValid (record t { buckets = set t.buckets (index t key) c; count = count })
  set-IsValid t key c count v u e = record {
    sized = length-set t.buckets (index t key) c ∙ v.sized;
    nonempty = v.nonempty;
    counted =
        let n = v.counted in omega (arith, total-set t.buckets (index t key) c (index-lt t key v));
    unique = λ i k. rw (get_or-set t key c i v) (split i k);
  }
    where
      split :
          (i : ℕ) (k : Bytes) → occurs k (if index t key == i then c else get_or t.buckets i []) ≤ 1
      split i k = let a = u k in let b = v.unique i k in ground arith

total-replicate {ℓ} : (V : Type ℓ) (n : ℕ) → total (replicate n (nil_chain V)) ≡ 0
total-replicate V zero = refl
total-replicate V (suc n) = omega (arith, total-replicate V n)

round_size-le : (ps : List ℕ) (size : ℕ) → size ≤ round_size ps size
unfolding round_size
round_size-le [] size = omega arith
round_size-le (p ∷ ps) size = ground (arith, round_size-le ps size)

round_size-pos : (size : ℕ) → 0 < round_size primes size
unfolding round_size
round_size-pos size = ground arith

-- A table that could be allocated is valid, holds nothing, has a bucket at least, and no fewer
-- buckets than were asked for.
pub hash_table_create-IsValid {ℓ} :
    {V : Type ℓ} (size : ℕ) (hash_function : Option (Bytes → ℕ)) (frees : Bool)
    → (t : HashTable V) × (hash_table_create true true size hash_function frees ≡ some t)
      × IsValid t
      × (t.count ≡ 0)
      × (size ≤ t.size)
unfolding hash_table_create occurs
hash_table_create-IsValid {V} size hash_function frees =
    let n = round_size primes size in
    (
      _,
      refl,
      record {
        sized = length-replicate n (nil_chain V);
        nonempty = round_size-pos size;
        counted = sym (total-replicate V n);
        unique = λ i k. rw (get_or-replicate n i (nil_chain V)) (omega arith);
      },
      refl,
      round_size-le primes size,
    )
