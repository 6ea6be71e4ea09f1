-- ===== src/Tests/MessageHandler.antt =====
-- The theorems on server/src/message_handler.c at concrete inputs.
use chatweb.Base.{
  ℕ, ◌≡◌, ◌≤◌, ◌<◌, ◌↔◌, ◌+◌, refl, true, false, List, [], ◌∷◌, none, some, arith, ◌==◌,
  if◌then◌else◌, ◌&&◌,
}
use chatweb.MessageHandler.{
  Entry, Manager, Client, Sizes, zero_stats, find_handler, message_handler_register,
  message_handler_unregister, message_handler_process,
}
use chatweb.MessageHandler.Registry.{
  IsMap, has_handler, message_handler_register-find_handler,
  message_handler_unregister-find_handler,
}
use chatweb.MessageHandler.Defaults.{message_handler_manager_create}
use chatweb.MessageHandler.Counting.{Call, IsCounted, process_all, process_all-IsCounted}
use chatweb.MessageHandler.Guarded.{IsGuarded, message_handler_process-IsGuarded}
use chatweb.MessageHandler.Chat.{Content, Surroundings, handle_chat_text_send, max_message_size}
use chatweb.MessageHandler.Chat.Receivers.{
  handle_chat_text_send-broadcast, handle_chat_text_send-overrun,
}

abbrev login_entry : Entry
login_entry = record {
  message_type = 65537;
  handler = 1;
  require_auth = false;
  require_encryption = false;
}

abbrev one_handler : Manager
one_handler = record { handlers = login_entry ∷ []; stats = zero_stats }

abbrev text_entry : Entry
text_entry = record {
  message_type = 131073;
  handler = 4;
  require_auth = true;
  require_encryption = true;
}

message_handler_register-find_handler_example :
    (mgr' : Manager) × (message_handler_register true one_handler 131073 4 true true ≡ (0, mgr'))
    × IsMap mgr'.handlers
    × (mgr'.stats ≡ zero_stats)
    × ((t : ℕ)
        → find_handler mgr'.handlers t
          ≡ (if 131073 == t then some text_entry else find_handler one_handler.handlers t))
unfolding find_handler
message_handler_register-find_handler_example =
    message_handler_register-find_handler one_handler 131073 4 true true
      (refl, (λ e. omega (arith, e)), tt) (λ e. omega (arith, e))

message_handler_unregister-find_handler_example :
    let found = has_handler 1 (find_handler one_handler.handlers 65537) in
    (mgr' : Manager) × (message_handler_unregister one_handler 65537 1
      ≡ (if found then (0, mgr') else (2, one_handler)))
    × IsMap mgr'.handlers
    × ((t : ℕ)
        → find_handler mgr'.handlers t
          ≡ (if found && (65537 == t) then none else find_handler one_handler.handlers t))
unfolding find_handler
message_handler_unregister-find_handler_example =
    message_handler_unregister-find_handler one_handler 65537 1 (refl, (λ e. omega (arith, e)), tt)
      (λ e. omega (arith, e))

abbrev sizes : Sizes
sizes = record {
  login_msg = 128;
  register_msg = 256;
  message_content = 120;
  file_transfer_request = 400;
  file_download_request = 16;
  file_transfer_cancel = 8;
  file_transfer_status = 48;
  user_list_request = 8;
  user_status_update = 72;
  user_profile_update = 512;
  error_info = 136;
}

abbrev stranger : Client
stranger = record { is_authenticated = false; encryption_enabled = false }

abbrev login_call : Call
login_call = record { conn = stranger; message_type = 65537; len = 128; returns = λ handler. 0 }

abbrev text_call : Call
text_call = record { conn = stranger; message_type = 131073; len = 140; returns = λ handler. 0 }

abbrev calls : List Call
calls = login_call ∷ text_call ∷ login_call ∷ []

process_all-IsCounted_example : IsCounted (0 + 3) (process_all sizes one_handler calls).stats
process_all-IsCounted_example =
    process_all-IsCounted sizes calls one_handler 0
      ((λ e. omega (arith, e)), ((λ e. omega (arith, e)), ((λ e. omega (arith, e)), tt)))
      (omega arith) (refl, omega arith)

message_handler_process-IsGuarded_example : IsGuarded stranger 131073 (
    message_handler_process sizes
      (λ handler. 0)
      (process_all sizes (message_handler_manager_create (λ t. true)) calls)
      stranger
      131073
      140)
message_handler_process-IsGuarded_example =
    message_handler_process-IsGuarded (λ t. true) sizes calls text_call
      ((λ e. omega (arith, e)), ((λ e. omega (arith, e)), ((λ e. omega (arith, e)), tt)))
      (λ e. omega (arith, e))

abbrev around : Surroundings
around = record {
  online_users = some (5 ∷ 3 ∷ 8 ∷ 9 ∷ []);
  is_online = λ user. user == 5;
  memory = true;
  uninitialised = λ i. 77;
  prepared = true;
  response = 0;
}

-- A text of twenty bytes from user 3 to everyone.
abbrev to_everyone : Content
to_everyone = record { sender_id = 3; receiver_id = 0; content_length = 20 }

handle_chat_text_send-broadcast_example :
    handle_chat_text_send around 3 120 to_everyone 140
    ≡ some (record { code = 0; sent_to = 5 ∷ 77 ∷ 8 ∷ []; stored = true })
handle_chat_text_send-broadcast_example =
    handle_chat_text_send-broadcast around 3 120 140 9 to_everyone (5 ∷ []) (8 ∷ []) refl refl refl
      ((λ e. omega (arith, e)), tt) ((λ e. omega (arith, e)), tt) (omega arith)
      (refl, refl, omega arith, omega arith)

-- A text that is said to have 60,000 bytes, and has twenty.
abbrev to_one : Content
to_one = record { sender_id = 3; receiver_id = 5; content_length = 60000 }

handle_chat_text_send-overrun_example :
    (handle_chat_text_send around 3 120 to_one 140 ≡ none)
    ↔ ((true ≡ true) × (60000 ≤ max_message_size) × (140 < 120 + 60000))
handle_chat_text_send-overrun_example =
    handle_chat_text_send-overrun around 3 120 140 to_one refl (λ e. omega (arith, e)) (omega arith)
