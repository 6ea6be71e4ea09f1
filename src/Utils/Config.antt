-- ===== src/Utils/Config.antt =====
-- The configuration of server/src/utils.c (config_t of server/include/utils.h): a hash table of
-- sections, each with a hash table of items. The sections and items stand behind pointers; a change
-- behind a pointer is a write into the table that holds it. An operation is `none` where a table's is.
pub mod Pointers
pub mod Laws
use chatweb.Base.{
  ℕ, ◌+◌, ◌≡◌, Bool, true, false, not, ◌&&◌, List, [], ◌∷◌, Option, none, some, if◌then◌else◌, set,
}
use chatweb.Libc.{Bytes}
use chatweb.Utils.HashTable.{
  HashTable, Status, ok, failed, bucket_of, hash_table_create, hash_table_insert, hash_table_lookup,
  hash_table_remove,
}
use chatweb.Utils.HashTable.Hash.{hash_string_djb2}
use chatweb.Utils.HashTable.Chains.{assign}

-- config_item_t; the value is NULL where a copy failed.
pub record Item : Type 0 where
  pub key : Bytes
  pub value : Option Bytes

-- config_section_t
pub record Section : Type 0 where
  pub name : Bytes
  pub items : HashTable Item

-- config_t
pub record Config : Type 0 where
  pub sections : HashTable Section

-- What an operation asks memory for.
pub data Allocation : Type 0 where
  config_struct config_table config_buckets : Allocation
  section_struct name_copy section_table section_buckets section_node section_key : Allocation
  item_struct key_copy value_copy item_node item_key : Allocation

unfoldable pub config_create : (Allocation → Bool) → Option Config
config_create memory =
    if memory Allocation.config_struct
    then elim (hash_table_create {V = Section} (memory Allocation.config_table)
        (memory Allocation.config_buckets) 16 (some hash_string_djb2) true) [
          | none ↦ none
          | some sections ↦ some (record { sections = sections })
        ]
    else none

-- A change of the object that a key's pointer leads to.
unfoldable pub write_at {ℓ} : {V : Type ℓ} → HashTable V → Bytes → V → HashTable V
write_at table key value = elim (bucket_of table key) [
  | none ↦ table
  | some (index, chain) ↦ record table {
    buckets = set table.buckets index (assign key (some value) chain);
  }
]

unfoldable pub new_section : (Allocation → Bool) → Bytes → Option Section
new_section memory section_name =
    if memory Allocation.section_struct && memory Allocation.name_copy
    then elim (hash_table_create {V = Item} (memory Allocation.section_table)
        (memory Allocation.section_buckets) 16 (some hash_string_djb2) true) [
          | none ↦ none
          | some items ↦ some (record { name = section_name; items = items })
        ]
    else none

-- The first step of config_set_value: the section, found or made. The inner option is none where there
-- is no memory for it. Whether the insertion succeeds is not looked at.
unfoldable pub open_section :
    (Allocation → Bool) → HashTable Section → Bytes → Option (Option (HashTable Section × Section))
open_section memory sections section_name = elim (hash_table_lookup sections section_name) [
  | none ↦ none
  | some (some found) ↦ some (some (sections, found))
  | some none ↦ elim (new_section memory section_name) [
    | none ↦ some none
    | some made ↦
        elim (hash_table_insert (memory Allocation.section_node) (memory Allocation.section_key)
          sections section_name (some made)) [
            | none ↦ none
            | some (status, sections', freed) ↦ some (some (sections', made))
          ]
  ]
]

-- The second step: 0 or -1, the sign left out, and the items.
unfoldable pub set_item :
    (Allocation → Bool) → HashTable Item → Bytes → Bytes → Option (ℕ × HashTable Item)
set_item memory items key value =
    let copy = if memory Allocation.value_copy then some value else none in
    elim (hash_table_lookup items key) [
      | none ↦ none
      | some (some item) ↦ some (0, write_at items key (record item { value = copy }))
      | some none ↦
          if memory Allocation.item_struct
            && (memory Allocation.key_copy && memory Allocation.value_copy)
          then elim (hash_table_insert (memory Allocation.item_node) (memory Allocation.item_key)
              items key (some (record { key = key; value = some value }))) [
                | none ↦ none
                | some (status, items', freed) ↦ some (0, items')
              ]
          else some (1, items)
    ]

unfoldable pub config_set_value :
    (Allocation → Bool) → Config → Bytes → Bytes → Bytes → Option (ℕ × Config)
config_set_value memory config section_name key value =
    elim (open_section memory config.sections section_name) [
      | none ↦ none
      | some none ↦ some (1, config)
      | some (some (sections, section)) ↦ elim (set_item memory section.items key value) [
        | none ↦ none
        | some (code, items) ↦ some (
          code,
          record { sections = write_at sections section_name (record section { items = items }) },
        )
      ]
    ]

-- The value of an item's pointer, and the item of a section's.
unfoldable pub value_of : Option (Option Item) → Option (Option Bytes)
value_of none = none
value_of (some none) = some none
value_of (some (some item)) = some item.value

unfoldable pub value_in : Option (Option Section) → Bytes → Option (Option Bytes)
value_in none key = none
value_in (some none) key = some none
value_in (some (some section)) key = value_of (hash_table_lookup section.items key)

-- The inner option is the pointer that the call returns.
unfoldable pub config_get_value : Config → Bytes → Bytes → Option (Option Bytes)
config_get_value config section key = value_in (hash_table_lookup config.sections section) key

-- The results of hash_table_remove, and -1 with the sign left out.
unfoldable pub code_of : Status → ℕ
code_of Status.ok = 0
code_of Status.failed = 1

unfoldable pub config_remove_key : Config → Bytes → Bytes → Option (ℕ × Config)
config_remove_key config section_name key = elim (hash_table_lookup config.sections section_name) [
  | none ↦ none
  | some none ↦ some (1, config)
  | some (some section) ↦ elim (hash_table_remove section.items key) [
    | none ↦ none
    | some (status, items, freed) ↦ some (
      code_of status,
      record {
        sections = write_at config.sections section_name (record section { items = items });
      },
    )
  ]
]

unfoldable pub config_remove_section : Config → Bytes → Option (ℕ × Config)
config_remove_section config section_name = elim (hash_table_remove config.sections section_name) [
  | none ↦ none
  | some (status, sections, freed) ↦ some (code_of status, record { sections = sections })
]
