-- ===== src/MessageHandler.antt =====
-- The registry of handlers of server/src/message_handler.c and server/include/message_handler.h, and
-- how a message finds its handler. A function is a number, 0 for NULL; what a handler returns, and the
-- sizes of the structures of messages, are arguments. The texts of the audit log are left out.
pub mod Kinds
pub mod Registry
pub mod Defaults
pub mod Access
pub mod Counting
pub mod Guarded
pub mod Chat
use chatweb.Base.{
  ℕ, suc, ◌+◌, Bool, true, false, not, ◌&&◌, ◌||◌, List, [], ◌∷◌, Option, none, some, leb, ◌==◌,
  if◌then◌else◌,
}
use chatweb.Base.Memory.{add_size}
pub use chatweb.MessageHandler.Kinds.{Sizes, message_validate_integrity}

-- message_handler_entry_t; `next` is the order of the list.
pub record Entry : Type 0 where
  pub message_type : ℕ
  pub handler : ℕ
  pub require_auth : Bool
  pub require_encryption : Bool

-- The statistics of message_handler_manager_t.
pub record Stats : Type 0 where
  pub messages_processed : ℕ
  pub messages_failed : ℕ
  pub authentication_failures : ℕ
  pub encryption_failures : ℕ
  pub invalid_messages : ℕ

pub record Manager : Type 0 where
  pub handlers : List Entry
  pub stats : Stats

abbrev pub zero_stats : Stats
zero_stats = record {
  messages_processed = 0;
  messages_failed = 0;
  authentication_failures = 0;
  encryption_failures = 0;
  invalid_messages = 0;
}

unfoldable pub find_handler : List Entry → ℕ → Option Entry
find_handler [] message_type = none
find_handler (entry ∷ entries) message_type =
    let rest = find_handler entries message_type in
    if entry.message_type == message_type then some entry else rest

-- The flag says whether memory can be had. The signs of the codes are left out.
unfoldable pub message_handler_register : Bool → Manager → ℕ → ℕ → Bool → Bool → ℕ × Manager
message_handler_register memory mgr message_type handler require_auth require_encryption =
    if handler == 0 then (1, mgr) else elim (find_handler mgr.handlers message_type) [
      | some existing ↦ (2, mgr)
      | none ↦ if not memory then (3, mgr) else (
        0,
        record mgr {
          handlers =
              record {
                message_type = message_type;
                handler = handler;
                require_auth = require_auth;
                require_encryption = require_encryption;
              }
              ∷ mgr.handlers;
        },
      )
    ]

-- The loop of message_handler_unregister: `none` where there is no such entry.
unfoldable pub remove_entry : ℕ → ℕ → List Entry → Option (List Entry)
remove_entry message_type handler [] = none
remove_entry message_type handler (entry ∷ entries) =
    let rest = remove_entry message_type handler entries in
    if entry.message_type == message_type && entry.handler == handler
    then some entries
    else elim rest [ none ↦ none | some entries' ↦ some (entry ∷ entries') ]

unfoldable pub message_handler_unregister : Manager → ℕ → ℕ → ℕ × Manager
message_handler_unregister mgr message_type handler =
    if handler == 0 then (1, mgr) else elim (remove_entry message_type handler mgr.handlers) [
      | none ↦ (2, mgr)
      | some entries ↦ (0, record mgr { handlers = entries })
    ]

abbrev pub next_count : Bool → ℕ → ℕ
next_count counted n = if counted then add_size n 1 else n

unfoldable pub update_statistics : Manager → Bool → Bool → Bool → Manager
update_statistics mgr success auth_failure encryption_failure = record mgr {
  stats =
      if success
      then record mgr.stats { messages_processed = add_size mgr.stats.messages_processed 1 }
      else record mgr.stats {
        messages_failed = add_size mgr.stats.messages_failed 1;
        authentication_failures = next_count auth_failure mgr.stats.authentication_failures;
        encryption_failures = next_count encryption_failure mgr.stats.encryption_failures;
      };
}

-- What the tests read of client_connection_t: whether its state is authenticated, and
-- encryption_enabled.
pub record Client : Type 0 where
  pub is_authenticated : Bool
  pub encryption_enabled : Bool

-- A message that is refused, with the code's sign left out, or one that a handler has taken, with what
-- it returned.
pub data Processed : Type 0 where
  refused : ℕ → Manager → Processed
  handled : Entry → ℕ → Manager → Processed

unfoldable pub validate_message_auth : Manager → Client → Entry → Bool × Manager
validate_message_auth mgr conn entry =
    if not entry.require_auth
    then (true, mgr)
    else if not conn.is_authenticated
    then (false, update_statistics mgr false true false)
    else (true, mgr)

unfoldable pub validate_message_encryption : Manager → Client → Entry → Bool × Manager
validate_message_encryption mgr conn entry =
    if not entry.require_encryption
    then (true, mgr)
    else if not conn.encryption_enabled
    then (false, update_statistics mgr false false true)
    else (true, mgr)

-- The steps after the handler was found.
unfoldable pub process_with : Sizes → (ℕ → ℕ) → Manager → Client → ℕ → ℕ → Entry → Processed
process_with sizes returns mgr conn message_type len entry =
    let (is_authenticated, mgr1) = validate_message_auth mgr conn entry in
    let (is_encrypted, mgr2) = validate_message_encryption mgr1 conn entry in
    if not (message_validate_integrity sizes len message_type)
    then refused 3 (record mgr {
      stats = record mgr.stats { invalid_messages = add_size mgr.stats.invalid_messages 1 };
    })
    else if not is_authenticated
    then refused 4 mgr1
    else if not is_encrypted
    then refused 5 mgr2
    else handled entry (returns entry.handler)
        (update_statistics mgr2 (returns entry.handler == 0) false false)

-- `returns` says what each handler returns.
unfoldable pub message_handler_process : Sizes → (ℕ → ℕ) → Manager → Client → ℕ → ℕ → Processed
message_handler_process sizes returns mgr conn message_type len =
    if len == 0 then refused 1 mgr else elim (find_handler mgr.handlers message_type) [
      | none ↦ refused 2 (update_statistics mgr false false false)
      | some entry ↦ process_with sizes returns mgr conn message_type len entry
    ]

unfoldable pub message_handler_reset_statistics : Manager → Manager
message_handler_reset_statistics mgr = record mgr { stats = zero_stats }
