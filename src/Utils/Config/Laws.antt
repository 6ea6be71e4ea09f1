-- ===== src/Utils/Config/Laws.antt =====
-- The configuration of server/src/utils.c as a function from sections and keys to values.
use chatweb.Base.{
  ℕ, zero, suc, ◌≡◌, refl, sym, ap, subst, ◌∙◌, inl, inr, Bool, true, false, ◌&&◌, List, [], ◌∷◌,
  Option, none, some, arith, if◌then◌else◌, get_or, Bool-cases, Option-cases,
}
use chatweb.Libc.{Bytes, bytes_eq, bytes_eq_iff, bytes_eq_refl}
use chatweb.Utils.HashTable.{
  HashTable, Status, ok, failed, hash_table_create, hash_table_lookup, hash_table_remove, freed,
}
use chatweb.Utils.HashTable.Hash.{hash_string_djb2}
use chatweb.Utils.HashTable.Chains.{Chain, find}
use chatweb.Utils.HashTable.Valid.{IsValid, total, index, chain_of, hash_table_create-IsValid}
use chatweb.Utils.HashTable.Update.{
  pointer, lookup_lem, hash_table_insert-lookup, hash_table_remove-lookup,
}
use chatweb.Utils.Config.{
  Item, Section, Config, Allocation, write_at, new_section, open_section, set_item,
  config_set_value, value_of, value_in, config_get_value, code_of, config_remove_key,
}
use chatweb.Utils.Config.Pointers.{
  write_at_lem, lookup-cases, IsConfig, same_lem, replaced_lem, get_lem,
}

-- Memory is at hand for everything.
abbrev pub plenty : Allocation → Bool
plenty a = true

total-nil :
    (bs : List (Chain Item)) (i : ℕ) → total bs ≡ 0 → ◌≡◌ {A = Chain Item} (get_or bs i []) []
total-nil [] i h = refl
total-nil ([] ∷ bs) zero h = refl
total-nil ((node ∷ chain) ∷ bs) zero h = absurd (omega (arith, h))
total-nil (chain ∷ bs) (suc i) h = total-nil bs i (omega (arith, h))

-- A new table gives NULL for every key.
create_lem :
    (t : HashTable Item) × (hash_table_create true true 16 (some hash_string_djb2) true ≡ some t)
    × IsValid t
    × ((key : Bytes) → hash_table_lookup t key ≡ some none)
unfolding hash_table_create find
create_lem =
    let (t, e, v, c, l) = hash_table_create-IsValid {V = Item} 16 (some hash_string_djb2) true in
    (
      t,
      e,
      v,
      λ key.
          lookup_lem t key v
          ∙ ap (λ chain. some (pointer (find key chain)))
              (total-nil t.buckets (index t key) (sym v.counted ∙ c)),
    )

set_item_lem :
    (items : HashTable Item) (key value : Bytes)
    → IsValid items
    → (items' : HashTable Item) × (set_item plenty items key value ≡ some (0, items'))
      × IsValid items'
      × ((j : Bytes)
          → value_of (hash_table_lookup items' j)
            ≡ (if bytes_eq key j then some (some value) else value_of (hash_table_lookup items j)))
unfolding set_item value_of
set_item_lem items key value v = elim (lookup-cases items key v) [
  | inl e ↦
      let item : Item = record { key = key; value = some value } in
      let (t', e', v', l, c) = hash_table_insert-lookup items key (some item) v in
      (t', rw (set_item, e, e') refl, v', λ j. ap value_of (l j) ∙ value_if (bytes_eq key j) item _)
  | inr (old, e) ↦
      let item : Item = record old { value = some value } in
      let (v', l) = write_at_lem items key old item v e in
      (
        write_at items key item,
        rw (set_item, e) refl,
        v',
        λ j. ap value_of (l j) ∙ value_if (bytes_eq key j) item _,
      )
]
  where
    value_if :
        (b : Bool) (item : Item) (o : Option (Option Item))
        → value_of (if b then some (some item) else o) ≡ (if b then some item.value else value_of o)
    value_if true item o = refl
    value_if false item o = refl

-- What open_section gives: a section that is in the table, which is as before elsewhere, with the
-- items that were there.
open_section_lem :
    (config : Config) (name : Bytes)
    → IsConfig config
    → (sections : HashTable Section) × (section : Section) × (open_section plenty config.sections
          name
        ≡ some (some (sections, section)))
      × IsValid sections
      × IsValid section.items
      × (hash_table_lookup sections name ≡ some (some section))
      × ((j : Bytes)
          → hash_table_lookup sections j ≡ (
              if bytes_eq name j then some (some section) else hash_table_lookup config.sections j))
      × ((key : Bytes)
          → value_of (hash_table_lookup section.items key)
            ≡ value_in (hash_table_lookup config.sections name) key)
unfolding open_section new_section value_in value_of
open_section_lem config name (v, w) = elim (lookup-cases config.sections name v) [
  | inr (found, e) ↦ (
    config.sections,
    found,
    rw (open_section, e) refl,
    v,
    w name found e,
    e,
    same_lem config.sections name (some (some found)) e,
    λ key. rw (e, value_in) refl,
  )
  | inl e ↦
      let (items, made, iv, empty) = create_lem in
      let section : Section = record { name = name; items = items } in
      let (t', e', v', l, c) = hash_table_insert-lookup config.sections name (some section) v in
      (
        t',
        section,
        rw (open_section, e, new_section, made, e') refl,
        v',
        iv,
        l name ∙ rw (bytes_eq_refl name) refl,
        l,
        λ key. rw (e, value_in, empty key, value_of) refl,
      )
]

-- config_set_value on a valid configuration, with memory at hand, returns 0. The configuration is valid
-- again, and config_get_value gives the new value for the section and the key, and what it gave before
-- for every other pair.
pub config_set_value-config_get_value :
    (config : Config) (name key value : Bytes)
    → IsConfig config
    → (config' : Config) × (config_set_value plenty config name key value ≡ some (0, config'))
      × IsConfig config'
      × ((n k : Bytes)
          → config_get_value config' n k ≡ (
              if bytes_eq name n && bytes_eq key k
              then some (some value)
              else config_get_value config n k))
unfolding config_set_value
config_set_value-config_get_value config name key value c =
    let (sections, section, o, sv, iv, at, ls, vs) = open_section_lem config name c in
    let (items, si, iv', li) = set_item_lem section.items key value iv in
    let section' : Section = record section { items = items } in
    let (c', all) = replaced_lem sections name section items config c sv iv' at ls in
    (
      record { sections = write_at sections name section' },
      rw (config_set_value, o, si) refl,
      c',
      get_lem config _ name key (some value) section' all
          (λ k. li k ∙ ap (λ o. if bytes_eq key k then some (some value) else o) (vs k)),
    )

-- What hash_table_remove leaves of the items, and its code.
remove_lem :
    (items : HashTable Item) (key : Bytes)
    → IsValid items
    → (status : Status) × (items' : HashTable Item) × (values : List Item) × (hash_table_remove
          items key
        ≡ some (status, items', values))
      × IsValid items'
      × ((j : Bytes)
          → hash_table_lookup items' j
            ≡ (if bytes_eq key j then some none else hash_table_lookup items j))
remove_lem items key v =
    let (t', e, v', l, c) = hash_table_remove-lookup items key v in
    elim (Option-cases (find key (chain_of items key))) [
      | inr (old, f) ↦ (ok, t', freed items.frees old, e ∙ rw f refl, v', l)
      | inl f ↦ (
        failed,
        items,
        [],
        e ∙ rw f refl,
        v,
        same_lem items key (some none) (lookup_lem items key v ∙ ap (λ o. some (pointer o)) f),
      )
    ]

value_if_none :
    (b : Bool) (o : Option (Option Item))
    → value_of (if b then some none else o) ≡ (if b then some none else value_of o)
unfolding value_of
value_if_none true o = refl
value_if_none false o = refl

absent_lem :
    (config : Config) (name key : Bytes)
    → hash_table_lookup config.sections name ≡ some none
    → (n k : Bytes)
    → config_get_value config n k
      ≡ (if bytes_eq name n && bytes_eq key k then some none else config_get_value config n k)
unfolding config_get_value value_in
absent_lem config name key e n k = elim (Bool-cases (bytes_eq name n)) [
  | inr h ↦ rw h refl
  | inl h ↦
      let same : name ≡ n = (bytes_eq_iff name n).0 h in
      let f : hash_table_lookup config.sections n ≡ some none =
        subst (λ m. hash_table_lookup config.sections m ≡ some none) same e in
      elim (Bool-cases (bytes_eq key k)) [
        | inl g ↦ rw (h, g) (ap (λ o. value_in o k) f)
        | inr g ↦ rw (h, g) refl
      ]
]

-- config_remove_key on a valid configuration returns, the configuration is valid again, and
-- config_get_value gives NULL for the section and the key, and what it gave before for every other pair.
pub config_remove_key-config_get_value :
    (config : Config) (name key : Bytes)
    → IsConfig config
    → (code : ℕ) × (config' : Config) × (config_remove_key config name key ≡ some (code, config'))
      × IsConfig config'
      × ((n k : Bytes)
          → config_get_value config' n k ≡ (
              if bytes_eq name n && bytes_eq key k then some none else config_get_value config n k))
unfolding config_remove_key value_of value_in
config_remove_key-config_get_value config name key (v, w) =
    elim (lookup-cases config.sections name v) [
      | inl e ↦ (1, config, rw (config_remove_key, e) refl, (v, w), absent_lem config name key e)
      | inr (section, e) ↦
          let (status, items, values, r, iv, l) = remove_lem section.items key (w name section e) in
          let section' : Section = record section { items = items } in
          let (c', all) =
            replaced_lem config.sections name section items config (v, w) v iv e
              (same_lem config.sections name (some (some section)) e) in
          let vs : (k : Bytes)
              → value_of (hash_table_lookup items k) ≡ (
                  if bytes_eq key k
                  then some none
                  else value_in (hash_table_lookup config.sections name) k) =
            λ k.
              ap value_of (l k)
              ∙ value_if_none (bytes_eq key k) _
              ∙ ap (λ o. if bytes_eq key k then some none else o)
                  (sym (ap (λ o. value_in o k) e)) in
          (
            code_of status,
            record { sections = write_at config.sections name section' },
            rw (config_remove_key, e, r) refl,
            c',
            get_lem config _ name key none section' all vs,
          )
    ]
