-- ===== src/MessageHandler/Guarded.antt =====
-- What a manager of server/src/message_handler.c, as it is created, lets a client do that has not
-- signed in or has no encryption.
use chatweb.Base.{
  ℕ, ◌⊎◌, ◌≡◌, ◌≢◌, refl, sym, ap, subst, Bool, true, false, ◌&&◌, ◌||◌, List, [], ◌∷◌, Option,
  none, some, arith, ◌==◌, if◌then◌else◌, Bool-cases, Option-cases, inl, inr,
}
use chatweb.MessageHandler.{
  Entry, Manager, Client, Sizes, Processed, find_handler, message_handler_register,
  message_handler_process,
}
use chatweb.MessageHandler.Kinds.{
  msg_auth_login, msg_auth_logout, msg_auth_register, msg_file_transfer_cancel,
  msg_file_transfer_status, msg_user_list_get, msg_system_heartbeat, msg_system_notification,
  msg_system_error, msg_system_info,
}
use chatweb.MessageHandler.Defaults.{default_rows, register_rows, message_handler_manager_create}
use chatweb.MessageHandler.Access.{Ended, IsAllowed, message_handler_process-Ended}
use chatweb.MessageHandler.Counting.{Call, HaveBytes, process_all, process_all-handlers}

-- Login, registration, heartbeat and error report.
abbrev pub is_public : ℕ → Bool
is_public t =
    (t == msg_auth_login)
    || ((t == msg_auth_register) || ((t == msg_system_heartbeat) || (t == msg_system_error)))

-- The types a connection without encryption may send.
abbrev pub is_plain : ℕ → Bool
is_plain t =
    is_public t
    || ((t == msg_auth_logout)
        || ((t == msg_file_transfer_cancel)
            || ((t == msg_file_transfer_status)
                || ((t == msg_user_list_get)
                    || ((t == msg_system_notification) || (t == msg_system_info))))))

abbrev is_guarded : Entry → Bool
is_guarded entry =
    (entry.require_auth || is_public entry.message_type)
    && (entry.require_encryption || is_plain entry.message_type)

abbrev AreGuarded : List Entry → Type 0
AreGuarded [] = Unit {0}
AreGuarded (entry ∷ entries) = (is_guarded entry ≡ true) × AreGuarded entries

default_rows-AreGuarded : AreGuarded default_rows
default_rows-AreGuarded = search

message_handler_register-AreGuarded :
    (memory : Bool) (mgr : Manager) (entry : Entry)
    → is_guarded entry ≡ true
    → AreGuarded mgr.handlers
    → AreGuarded
        (message_handler_register memory mgr entry.message_type entry.handler entry.require_auth
          entry.require_encryption).1.handlers
unfolding message_handler_register
message_handler_register-AreGuarded memory mgr entry g gs = elim (Bool-cases (entry.handler == 0)) [
  | inl z ↦ rw (z, message_handler_register) gs
  | inr z ↦ elim (Option-cases (find_handler mgr.handlers entry.message_type)) [
    | inr (existing, e) ↦ rw (z, e, message_handler_register) gs
    | inl e ↦ elim (Bool-cases memory) [
      | inl m ↦ rw (z, e, m, message_handler_register) (g, gs)
      | inr m ↦ rw (z, e, m, message_handler_register) gs
    ]
  ]
]

register_rows-AreGuarded :
    (memory : ℕ → Bool) (rows : List Entry) (mgr : Manager)
    → AreGuarded rows
    → AreGuarded mgr.handlers
    → AreGuarded (register_rows memory rows mgr).handlers
unfolding register_rows
register_rows-AreGuarded memory [] mgr r g = g
register_rows-AreGuarded memory (entry ∷ rows) mgr (r, rs) g =
    register_rows-AreGuarded memory rows _ rs
      (message_handler_register-AreGuarded (memory entry.message_type) mgr entry r g)

abbrev entry_or : Entry → Option Entry → Entry
entry_or d none = d
entry_or d (some entry) = entry

first_or_rest :
    (b : Bool) (first entry : Entry) (rest : Option Entry)
    → (if b then some first else rest) ≡ some entry
    → ((b ≡ true) × (first ≡ entry)) ⊎ (rest ≡ some entry)
first_or_rest true first entry rest e = inl (refl, ap (entry_or first) e)
first_or_rest false first entry rest e = inr e

find_handler-is_guarded :
    (entries : List Entry) (t : ℕ) (entry : Entry)
    → AreGuarded entries
    → find_handler entries t ≡ some entry
    → (is_guarded entry ≡ true) × (entry.message_type ≡ t)
unfolding find_handler
find_handler-is_guarded [] t entry g e = absurd (ground (arith, e))
find_handler-is_guarded (first ∷ entries) t entry (g, gs) e =
    elim (first_or_rest (first.message_type == t) first entry (find_handler entries t) e) [
      | inl (k, same) ↦
          let l : first.message_type ≡ t = ground (arith, k) in
          subst (λ x. (is_guarded x ≡ true) × (x.message_type ≡ t)) same (g, l)
      | inr later ↦ find_handler-is_guarded entries t entry gs later
    ]

allowed_lem :
    (required given free : Bool)
    → (required || free) ≡ true
    → IsAllowed required given
    → (given || free) ≡ true
allowed_lem true true free r a = refl
allowed_lem true false free r a = absurd (ground (arith, a))
allowed_lem false true free r a = refl
allowed_lem false false free r a = r

and_lem : (a b : Bool) → (a && b) ≡ true → (a ≡ true) × (b ≡ true)
and_lem true b e = (refl, e)
and_lem false b e = absurd (ground (arith, e))

guards_lem :
    (entry : Entry)
    → is_guarded entry ≡ true
    → ((entry.require_auth || is_public entry.message_type) ≡ true)
      × ((entry.require_encryption || is_plain entry.message_type) ≡ true)
guards_lem entry g = and_lem _ _ g

-- What reaches a handler is public or comes from a client that has signed in, and is plain or comes
-- over a connection with encryption.
abbrev pub IsGuarded : Client → ℕ → Processed → Type 0
IsGuarded conn t (Processed.refused code mgr) = Unit {0}
IsGuarded conn t (Processed.handled entry result mgr) =
    ((conn.is_authenticated || is_public t) ≡ true)
    × ((conn.encryption_enabled || is_plain t) ≡ true)

Ended-IsGuarded :
    (mgr : Manager) (conn : Client) (t : ℕ) (p : Processed)
    → AreGuarded mgr.handlers
    → Ended mgr conn t p
    → IsGuarded conn t p
Ended-IsGuarded mgr conn t _ g Ended.unknown = tt
Ended-IsGuarded mgr conn t _ g Ended.unsound = tt
Ended-IsGuarded mgr conn t _ g Ended.unauthenticated = tt
Ended-IsGuarded mgr conn t _ g Ended.unencrypted = tt
Ended-IsGuarded mgr conn t _ g (Ended.done entry result e i j) =
    let (guarded, same) = find_handler-is_guarded mgr.handlers t entry g e in
    let (auth, encryption) = guards_lem entry guarded in
    subst
      (λ k.
        ((conn.is_authenticated || is_public k) ≡ true)
        × ((conn.encryption_enabled || is_plain k) ≡ true))
      same
      (
        allowed_lem entry.require_auth conn.is_authenticated _ auth i,
        allowed_lem entry.require_encryption conn.encryption_enabled _ encryption j,
      )

-- In a manager as it is created, with or without memory for each entry, and after any messages that
-- have bytes, a message that reaches its handler is a login, a registration, a heartbeat or an error
-- report, or its client has signed in. It is also one of those, a logout, a cancellation or a state of
-- a transfer, a list of users, a notification or an information, or its connection has encryption.
pub message_handler_process-IsGuarded :
    (memory : ℕ → Bool) (sizes : Sizes) (calls : List Call) (call : Call)
    → HaveBytes calls
    → call.len ≢ 0
    → let mgr = process_all sizes (message_handler_manager_create memory) calls in
      IsGuarded call.conn call.message_type
        (message_handler_process sizes call.returns mgr call.conn call.message_type call.len)
unfolding message_handler_manager_create
message_handler_process-IsGuarded memory sizes calls call b h =
    let guarded =
      subst AreGuarded
        (sym (process_all-handlers sizes calls (message_handler_manager_create memory) b))
        (register_rows-AreGuarded memory default_rows _ default_rows-AreGuarded tt) in
    Ended-IsGuarded _ call.conn call.message_type _ guarded
      (message_handler_process-Ended sizes call.returns _ call.conn call.message_type call.len h)
