-- ===== src/MessageHandler/Access.antt =====
-- Which messages reach a handler of server/src/message_handler.c.
use chatweb.Base.{
  ℕ, ◌⊎◌, ◌≡◌, ◌≢◌, refl, Bool, true, false, not, ◌||◌, some, arith, ◌==◌, Bool-cases, Option-cases,
  inl, inr,
}
use chatweb.Base.Memory.{add_size}
use chatweb.MessageHandler.{
  Entry, Manager, Client, Sizes, Processed, find_handler, update_statistics, validate_message_auth,
  validate_message_encryption, process_with, message_handler_process, message_validate_integrity,
}

abbrev pub IsAllowed : Bool → Bool → Type 0
IsAllowed required given = (not required || given) ≡ true

validate_message_auth-cases :
    (mgr : Manager) (conn : Client) (entry : Entry)
    → ((validate_message_auth mgr conn entry ≡ (true, mgr))
        × IsAllowed entry.require_auth conn.is_authenticated)
      ⊎ (validate_message_auth mgr conn entry ≡ (false, update_statistics mgr false true false))
unfolding validate_message_auth
validate_message_auth-cases mgr conn entry = elim (Bool-cases entry.require_auth) [
  | inl r ↦ elim (Bool-cases conn.is_authenticated) [
    | inl a ↦ inl (rw (r, a) refl, rw (r, a) refl)
    | inr a ↦ inr (rw (r, a) refl)
  ]
  | inr r ↦ inl (rw r refl, rw r refl)
]

validate_message_encryption-cases :
    (mgr : Manager) (conn : Client) (entry : Entry)
    → ((validate_message_encryption mgr conn entry ≡ (true, mgr))
        × IsAllowed entry.require_encryption conn.encryption_enabled)
      ⊎ (validate_message_encryption mgr conn entry
          ≡ (false, update_statistics mgr false false true))
unfolding validate_message_encryption
validate_message_encryption-cases mgr conn entry = elim (Bool-cases entry.require_encryption) [
  | inl r ↦ elim (Bool-cases conn.encryption_enabled) [
    | inl a ↦ inl (rw (r, a) refl, rw (r, a) refl)
    | inr a ↦ inr (rw (r, a) refl)
  ]
  | inr r ↦ inl (rw r refl, rw r refl)
]

-- A message counted as invalid.
abbrev pub count_invalid : Manager → Manager
count_invalid mgr = record mgr {
  stats = record mgr.stats { invalid_messages = add_size mgr.stats.invalid_messages 1 };
}

-- How a message with bytes ends.
pub data Ended (mgr : Manager) (conn : Client) (message_type : ℕ) : Processed → Type 0 where
  unknown :
      Ended mgr conn message_type (Processed.refused 2 (update_statistics mgr false false false))
  unsound : Ended mgr conn message_type (Processed.refused 3 (count_invalid mgr))
  unauthenticated :
      Ended mgr conn message_type (Processed.refused 4 (update_statistics mgr false true false))
  unencrypted :
      Ended mgr conn message_type (Processed.refused 5 (update_statistics mgr false false true))
  done :
      (entry : Entry) (result : ℕ)
      → find_handler mgr.handlers message_type ≡ some entry
      → IsAllowed entry.require_auth conn.is_authenticated
      → IsAllowed entry.require_encryption conn.encryption_enabled
      → Ended mgr conn message_type
          (Processed.handled entry result (update_statistics mgr (result == 0) false false))

process_with-Ended :
    (sizes : Sizes) (returns : ℕ → ℕ) (mgr : Manager) (conn : Client) (message_type len : ℕ)
    (entry : Entry)
    → find_handler mgr.handlers message_type ≡ some entry
    → Ended mgr conn message_type (process_with sizes returns mgr conn message_type len entry)
unfolding process_with
process_with-Ended sizes returns mgr conn message_type len entry e =
    elim (Bool-cases (message_validate_integrity sizes len message_type)) [
      | inr s ↦ rw (s, process_with) Ended.unsound
      | inl s ↦ elim (validate_message_auth-cases mgr conn entry) [
        | inr a ↦ rw (s, a, process_with) Ended.unauthenticated
        | inl (a, i) ↦ elim (validate_message_encryption-cases mgr conn entry) [
          | inr c ↦ rw (s, a, c, process_with) Ended.unencrypted
          | inl (c, j) ↦ rw (s, a, c, process_with) (Ended.done entry (returns entry.handler) e i j)
        ]
      ]
    ]

pub message_handler_process-Ended :
    (sizes : Sizes) (returns : ℕ → ℕ) (mgr : Manager) (conn : Client) (message_type len : ℕ)
    → len ≢ 0
    → Ended mgr conn message_type (message_handler_process sizes returns mgr conn message_type len)
unfolding message_handler_process
message_handler_process-Ended sizes returns mgr conn message_type len h =
    let z : (len == 0) ≡ false = ground (arith, h) in
    elim (Option-cases (find_handler mgr.handlers message_type)) [
      | inl e ↦ rw (z, e, message_handler_process) Ended.unknown
      | inr (entry, e) ↦
          rw (z, e, message_handler_process)
            (process_with-Ended sizes returns mgr conn message_type len entry e)
    ]
