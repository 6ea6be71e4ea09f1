-- ===== src/Utils/Config/Pointers.antt =====
-- The tables of a configuration of server/src/utils.c: writes behind their pointers, and one section's
-- items replaced.
use chatweb.Base.{
  ◌⊎◌, ◌≡◌, refl, sym, ap, subst, ◌∙◌, inl, inr, Bool, true, false, ◌&&◌, List, Option, none, some,
  arith, if◌then◌else◌, Bool-cases, Option-cases,
}
use chatweb.Libc.{Bytes, bytes_eq, bytes_eq_iff}
use chatweb.Utils.HashTable.{HashTable, Status, hash_table_insert, hash_table_lookup}
use chatweb.Utils.HashTable.Chains.{find}
use chatweb.Utils.HashTable.Valid.{IsValid, chain_of, bucket_of_lem}
use chatweb.Utils.HashTable.Update.{pointer, lookup_lem, hash_table_insert-lookup}
use chatweb.Utils.Config.{Item, Section, Config, write_at, value_of, value_in, config_get_value}

module _ {V : Type 0} where
  abbrev table_of : HashTable V → Option (Status × HashTable V × List V) → HashTable V
  table_of t none = t
  table_of t (some (status, t', values)) = t'

  find_lem : (o : Option (Option V)) (old : V) → pointer o ≡ some old → o ≡ some (some old)
  find_lem none old e = absurd (ground (arith, e))
  find_lem (some v) old e = ap some e

  abbrev inner : Option V → Option (Option V) → Option V
  inner d none = d
  inner d (some v) = v

  pub write_at_lem :
      (t : HashTable V) (key : Bytes) (old new : V)
      → IsValid t
      → hash_table_lookup t key ≡ some (some old)
      → IsValid (write_at t key new)
        × ((j : Bytes)
            → hash_table_lookup (write_at t key new) j
              ≡ (if bytes_eq key j then some (some new) else hash_table_lookup t j))
  unfolding write_at hash_table_insert
  write_at_lem t key old new v e =
      let f : find key (chain_of t key) ≡ some (some old) =
        find_lem (find key (chain_of t key)) old (ap (inner none) (sym (lookup_lem t key v) ∙ e)) in
      let (t', e', v', l, c) = hash_table_insert-lookup t key (some new) v in
      let same : t' ≡ write_at t key new =
        sym (ap (table_of t) e')
        ∙ rw (hash_table_insert, write_at, bucket_of_lem t key v, f) refl in
      (
        subst IsValid same v',
        λ j.
            subst
              (λ u.
                hash_table_lookup u j
                ≡ (if bytes_eq key j then some (some new) else hash_table_lookup t j))
              same (l j),
      )

  -- A key's pointer: NULL or to something.
  pub lookup-cases :
      (t : HashTable V) (key : Bytes)
      → IsValid t
      → (hash_table_lookup t key ≡ some none)
        ⊎ ((old : V) × (hash_table_lookup t key ≡ some (some old)))
  lookup-cases t key v = elim (Option-cases (pointer (find key (chain_of t key)))) [
    | inl e ↦ inl (lookup_lem t key v ∙ ap some e)
    | inr (old, e) ↦ inr (old, lookup_lem t key v ∙ ap some e)
  ]

-- The table of sections and the table of each section are valid.
abbrev pub IsConfig : Config → Type 0
IsConfig config =
    IsValid config.sections
    × ((name : Bytes) (section : Section)
        → hash_table_lookup config.sections name ≡ some (some section)
        → IsValid section.items)

pub same_lem :
    {V : Type 0} (t : HashTable V) (name : Bytes) (o : Option (Option V))
    → hash_table_lookup t name ≡ o
    → (j : Bytes) → hash_table_lookup t j ≡ (if bytes_eq name j then o else hash_table_lookup t j)
same_lem t name o e j = elim (Bool-cases (bytes_eq name j)) [
  | inl h ↦ rw h (ap (hash_table_lookup t) (sym ((bytes_eq_iff name j).0 h)) ∙ e)
  | inr h ↦ rw h refl
]

abbrev section_of : Section → Option (Option Section) → Section
section_of d none = d
section_of d (some none) = d
section_of d (some (some section)) = section

-- A section's items replaced, in a table that is `old` but for the section.
pub replaced_lem :
    (sections : HashTable Section) (name : Bytes) (section : Section) (items : HashTable Item)
    (old : Config)
    → IsConfig old
    → IsValid sections
    → IsValid items
    → hash_table_lookup sections name ≡ some (some section)
    → ((j : Bytes)
        → hash_table_lookup sections j
          ≡ (if bytes_eq name j then some (some section) else hash_table_lookup old.sections j))
    → let section' : Section = record section { items = items } in
      IsConfig (record { sections = write_at sections name section' })
      × ((j : Bytes)
          → hash_table_lookup (write_at sections name section') j
            ≡ (if bytes_eq name j then some (some section') else hash_table_lookup old.sections j))
replaced_lem sections name section items old (v, w) sv iv at l =
    let section' : Section = record section { items = items } in
    let (v', wl) = write_at_lem sections name section section' sv at in
    let all : (j : Bytes)
        → hash_table_lookup (write_at sections name section') j
          ≡ (if bytes_eq name j then some (some section') else hash_table_lookup old.sections j) =
      λ j. wl j ∙ else_lem (bytes_eq name j) _ _ _ _ (l j) in
    ((v', λ n s h. valid_lem (bytes_eq name n) n section' s iv (sym (all n) ∙ h)), all)
  where
    else_lem :
        {A : Type 0} (b : Bool) (x y z o : A)
        → o ≡ (if b then y else z)
        → (if b then x else o) ≡ (if b then x else z)
    else_lem true x y z o e = refl
    else_lem false x y z o e = e

    valid_lem :
        (b : Bool) (n : Bytes) (section' s : Section)
        → IsValid section'.items
        → (if b then some (some section') else hash_table_lookup old.sections n) ≡ some (some s)
        → IsValid s.items
    valid_lem true n section' s iv e = subst (λ u. IsValid u.items) (ap (section_of section') e) iv
    valid_lem false n section' s iv e = w n s e

-- What config_get_value gives when one section's items were replaced, and their values are those of
-- before but for the key.
pub get_lem :
    (config config' : Config) (name key : Bytes) (new : Option Bytes) (section : Section)
    → ((j : Bytes)
        → hash_table_lookup config'.sections j
          ≡ (if bytes_eq name j then some (some section) else hash_table_lookup config.sections j))
    → ((k : Bytes)
        → value_of (hash_table_lookup section.items k) ≡ (
            if bytes_eq key k
            then some new
            else value_in (hash_table_lookup config.sections name) k))
    → (n k : Bytes)
    → config_get_value config' n k
      ≡ (if bytes_eq name n && bytes_eq key k then some new else config_get_value config n k)
unfolding config_get_value value_in
get_lem config config' name key new section all vs n k =
    ap (λ o. value_in o k) (all n) ∙ elim (Bool-cases (bytes_eq name n)) [
      | inr h ↦ rw h refl
      | inl h ↦
          let same : name ≡ n = (bytes_eq_iff name n).0 h in
          let here : value_of (hash_table_lookup section.items k) ≡ (
              if bytes_eq key k
              then some new
              else value_in (hash_table_lookup config.sections n) k) =
            subst
              (λ m. value_of (hash_table_lookup section.items k) ≡ (
                if bytes_eq key k
                then some new
                else value_in (hash_table_lookup config.sections m) k))
              same (vs k) in
          rw h here
    ]
