-- ===== src/Tests/Config.antt =====
-- The theorems on the configuration of server/src/utils.c at a concrete one.
use chatweb.Base.{
  ℕ, zero, suc, ◌≤◌, ◌≡◌, refl, ap, subst, Bool, true, false, ◌&&◌, [], ◌∷◌, Option, none, some,
  arith, if◌then◌else◌, get_or,
}
use chatweb.Libc.{Bytes, bytes, bytes_eq}
use chatweb.Utils.HashTable.{HashTable, bucket_of, hash_table_lookup}
use chatweb.Utils.HashTable.Chains.{find, occurs}
use chatweb.Utils.HashTable.Valid.{IsValid}
use chatweb.Utils.Config.{
  Item, Section, Config, config_set_value, config_get_value, config_remove_key,
}
use chatweb.Utils.Config.Pointers.{IsConfig}
use chatweb.Utils.Config.Laws.{
  plenty, config_set_value-config_get_value, config_remove_key-config_get_value,
}

-- A table with one bucket and one node in it.
abbrev single : {V : Type 0} → Bytes → V → HashTable V
single key value = record {
  buckets = (record { key = key; value = some value } ∷ []) ∷ [];
  size = 1;
  count = 1;
  hash_function = λ text. 0;
  frees = true;
}

single_unique :
    {V : Type 0} (key : Bytes) (value : V) (i : ℕ) (k : Bytes)
    → occurs k (get_or (single key value).buckets i []) ≤ 1
unfolding occurs
single_unique key value zero k = ground arith
single_unique key value (suc zero) k = omega arith
single_unique key value (suc (suc i)) k = omega arith

single-IsValid : {V : Type 0} (key : Bytes) (value : V) → IsValid (single key value)
single-IsValid key value = record {
  sized = refl;
  nonempty = omega arith;
  counted = refl;
  unique = single_unique key value;
}

abbrev level : Item
level = record { key = bytes "level"; value = some (bytes "info") }

abbrev log_section : Section
log_section = record { name = bytes "log"; items = single (bytes "level") level }

-- [log] level = info
abbrev log_config : Config
log_config = record { sections = single (bytes "log") log_section }

abbrev section_or : Option (Option Section) → Section
section_or (some (some section)) = section
section_or (some none) = log_section
section_or none = log_section

abbrev looked : Option (Option Section) → Option (Option Section)
looked o = elim o [ none ↦ some none | some v ↦ some v ]

found_lem :
    (b : Bool) (section : Section)
    → looked (if b then some (some log_section) else none) ≡ some (some section)
    → IsValid section.items
found_lem true section e =
    subst (λ s. IsValid s.items) (ap section_or e) (single-IsValid (bytes "level") level)
found_lem false section e = absurd (ground (arith, e))

log_config-IsConfig : IsConfig log_config
unfolding hash_table_lookup bucket_of find
log_config-IsConfig = (
  single-IsValid (bytes "log") log_section,
  λ name section e. found_lem (bytes_eq (bytes "log") name) section e,
)

config_set_value-config_get_value_example :
    (config' : Config) × (config_set_value plenty log_config
        (bytes "log")
        (bytes "file")
        (bytes "chat.log")
      ≡ some (0, config'))
    × IsConfig config'
    × ((n k : Bytes)
        → config_get_value config' n k ≡ (
            if bytes_eq (bytes "log") n && bytes_eq (bytes "file") k
            then some (some (bytes "chat.log"))
            else config_get_value log_config n k))
config_set_value-config_get_value_example =
    config_set_value-config_get_value log_config (bytes "log") (bytes "file") (bytes "chat.log")
      log_config-IsConfig

config_remove_key-config_get_value_example :
    (code : ℕ) × (config' : Config) × (config_remove_key log_config (bytes "log") (bytes "level")
      ≡ some (code, config'))
    × IsConfig config'
    × ((n k : Bytes)
        → config_get_value config' n k ≡ (
            if bytes_eq (bytes "log") n && bytes_eq (bytes "level") k
            then some none
            else config_get_value log_config n k))
config_remove_key-config_get_value_example =
    config_remove_key-config_get_value log_config (bytes "log") (bytes "level") log_config-IsConfig
