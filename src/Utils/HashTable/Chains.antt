-- ===== src/Utils/HashTable/Chains.antt =====
-- One chain of the hash table: the loops over its nodes.
use chatweb.Base.{
  ℕ, ◌+◌, ◌≤◌, ◌≡◌, refl, List, [], ◌∷◌, Option, none, some, arith, if◌then◌else◌, length,
  Bool-cases, inl, inr, ap, sym, ◌∙◌,
}
use chatweb.Libc.{Bytes, bytes_eq, bytes_eq_iff}

pub record Node {ℓ} (V : Type ℓ) : Type ℓ where
  pub key : Bytes
  pub value : Option V

abbrev pub Chain {ℓ} : Type ℓ → Type ℓ
Chain V = List (Node V)

module _ {ℓ} {V : Type ℓ} where
  -- The value of the first node with this key, if there is one; it may be the null pointer.
  unfoldable pub find : Bytes → Chain V → Option (Option V)
  find k [] = none
  find k (n ∷ c) = if bytes_eq n.key k then some n.value else find k c

  -- node->value = value, at that node
  unfoldable pub assign : Bytes → Option V → Chain V → Chain V
  assign k v [] = []
  assign k v (n ∷ c) = if bytes_eq n.key k then record n { value = v } ∷ c else n ∷ assign k v c

  -- The chain without that node.
  unfoldable pub erase : Bytes → Chain V → Chain V
  erase k [] = []
  erase k (n ∷ c) = if bytes_eq n.key k then c else n ∷ erase k c

  -- How many nodes have the key.
  unfoldable pub occurs : Bytes → Chain V → ℕ
  occurs k [] = 0
  occurs k (n ∷ c) = (if bytes_eq n.key k then 1 else 0) + occurs k c

  pub find-none : (k : Bytes) (c : Chain V) → occurs k c ≡ 0 → find k c ≡ none
  unfolding find occurs
  find-none k [] h = refl
  find-none k (n ∷ c) h = ground (arith, find-none k c)

  pub occurs-none : (k : Bytes) (c : Chain V) → find k c ≡ none → occurs k c ≡ 0
  unfolding find occurs
  occurs-none k [] h = refl
  occurs-none k (n ∷ c) h = ground (arith, occurs-none k c)

  pub find-assign :
      (k j : Bytes) (v old : Option V) (c : Chain V)
      → find k c ≡ some old
      → find j (assign k v c) ≡ (if bytes_eq k j then some v else find j c)
  unfolding find assign
  find-assign k j v old [] h = ground arith
  find-assign k j v old (n ∷ c) h =
      ground (
        arith,
        find-assign k j v old c,
        bytes_eq_iff n.key k,
        bytes_eq_iff n.key j,
        bytes_eq_iff k j,
      )

  pub occurs-assign :
      (k j : Bytes) (v : Option V) (c : Chain V) → occurs j (assign k v c) ≡ occurs j c
  unfolding occurs assign
  occurs-assign k j v [] = refl
  occurs-assign k j v (n ∷ c) = ground (arith, occurs-assign k j v c)

  pub length-assign : (k : Bytes) (v : Option V) (c : Chain V) → length (assign k v c) ≡ length c
  unfolding assign
  length-assign k v [] = refl
  length-assign k v (n ∷ c) = ground (arith, length-assign k v c)

  pub find-erase :
      (k j : Bytes) (c : Chain V)
      → occurs k c ≤ 1
      → find j (erase k c) ≡ (if bytes_eq k j then none else find j c)
  unfolding find erase occurs
  find-erase k j [] h = ground arith
  find-erase k j (n ∷ c) h = ground (
    arith,
    find-erase k j c,
    find-none k c,
    bytes_eq_iff n.key k,
    bytes_eq_iff n.key j,
    bytes_eq_iff k j,
  )

  pub occurs-erase : (k j : Bytes) (c : Chain V) → occurs j (erase k c) ≤ occurs j c
  unfolding occurs erase
  occurs-erase k j [] = omega arith
  occurs-erase k j (n ∷ c) = ground (arith, occurs-erase k j c)

  pub length-erase :
      (k : Bytes) (old : Option V) (c : Chain V)
      → find k c ≡ some old
      → length (erase k c) + 1 ≡ length c
  unfolding find erase
  length-erase k old [] h = ground arith
  length-erase k old (n ∷ c) h = ground (arith, length-erase k old c)

  pub find-cons :
      (k j : Bytes) (v : Option V) (c : Chain V)
      → find j (record { key = k; value = v } ∷ c) ≡ (if bytes_eq k j then some v else find j c)
  unfolding find
  find-cons k j v c = refl

  pub occurs-cons :
      (k j : Bytes) (v : Option V) (c : Chain V)
      → find k c ≡ none
      → occurs j c ≤ 1
      → occurs j (record { key = k; value = v } ∷ c) ≤ 1
  unfolding occurs
  occurs-cons k j v c e h = elim (Bool-cases (bytes_eq k j)) [
    | inl same ↦
        let z : occurs j c ≡ 0 =
          ap (λ i. occurs i c) (sym ((bytes_eq_iff k j).0 same)) ∙ occurs-none k c e in
        rw same (omega arith)
    | inr other ↦ rw other (omega arith)
  ]
