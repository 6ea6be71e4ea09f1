-- ===== src/MessageHandler/Defaults.antt =====
-- The handlers a new manager has: message_handler_manager_create and register_default_handlers of
-- server/src/message_handler.c.
use chatweb.Base.{ℕ, Bool, true, false, List, [], ◌∷◌}
use chatweb.MessageHandler.{Entry, Manager, zero_stats, message_handler_register}
use chatweb.MessageHandler.Kinds.{
  msg_auth_login, msg_auth_logout, msg_auth_register, msg_auth_token_refresh, msg_chat_text_send,
  msg_chat_text_receive, msg_chat_group_create, msg_chat_group_join, msg_chat_group_leave,
  msg_file_upload_request, msg_file_download_request, msg_file_transfer_cancel,
  msg_file_transfer_status, msg_file_progress_update, msg_user_list_get, msg_user_status_update,
  msg_user_profile_get, msg_user_profile_update, msg_system_heartbeat, msg_system_notification,
  msg_system_error, msg_system_shutdown, msg_system_info,
}

-- The handlers, numbered in the order of their first mention.
abbrev pub handle_auth_login : ℕ
handle_auth_login = 1

abbrev pub handle_auth_logout : ℕ
handle_auth_logout = 2

abbrev pub handle_auth_register : ℕ
handle_auth_register = 3

abbrev pub handle_chat_text_send : ℕ
handle_chat_text_send = 4

abbrev pub handle_chat_text_receive : ℕ
handle_chat_text_receive = 5

abbrev pub handle_chat_group_create : ℕ
handle_chat_group_create = 6

abbrev pub handle_chat_group_join : ℕ
handle_chat_group_join = 7

abbrev pub handle_chat_group_leave : ℕ
handle_chat_group_leave = 8

abbrev pub handle_file_upload_request : ℕ
handle_file_upload_request = 9

abbrev pub handle_file_download_request : ℕ
handle_file_download_request = 10

abbrev pub handle_file_transfer_cancel : ℕ
handle_file_transfer_cancel = 11

abbrev pub handle_file_transfer_status : ℕ
handle_file_transfer_status = 12

abbrev pub handle_user_list_request : ℕ
handle_user_list_request = 13

abbrev pub handle_user_status_update : ℕ
handle_user_status_update = 14

abbrev pub handle_user_profile_get : ℕ
handle_user_profile_get = 15

abbrev pub handle_user_profile_update : ℕ
handle_user_profile_update = 16

abbrev pub handle_system_heartbeat : ℕ
handle_system_heartbeat = 17

abbrev pub handle_system_notification : ℕ
handle_system_notification = 18

abbrev pub handle_system_error : ℕ
handle_system_error = 19

abbrev pub handle_system_shutdown : ℕ
handle_system_shutdown = 20

abbrev row : ℕ → ℕ → Bool → Bool → Entry
row message_type handler require_auth require_encryption = record {
  message_type = message_type;
  handler = handler;
  require_auth = require_auth;
  require_encryption = require_encryption;
}

-- The arguments of the calls of message_handler_register, in order.
abbrev pub default_rows : List Entry
default_rows =
    row msg_auth_login handle_auth_login false false
    ∷ row msg_auth_logout handle_auth_logout true false
    ∷ row msg_auth_register handle_auth_register false false
    ∷ row msg_auth_token_refresh handle_auth_login true true
    ∷ row msg_chat_text_send handle_chat_text_send true true
    ∷ row msg_chat_text_receive handle_chat_text_receive true true
    ∷ row msg_chat_group_create handle_chat_group_create true true
    ∷ row msg_chat_group_join handle_chat_group_join true true
    ∷ row msg_chat_group_leave handle_chat_group_leave true true
    ∷ row msg_file_upload_request handle_file_upload_request true true
    ∷ row msg_file_download_request handle_file_download_request true true
    ∷ row msg_file_transfer_cancel handle_file_transfer_cancel true false
    ∷ row msg_file_transfer_status handle_file_transfer_status true false
    ∷ row msg_file_progress_update handle_file_transfer_status true true
    ∷ row msg_user_list_get handle_user_list_request true false
    ∷ row msg_user_status_update handle_user_status_update true true
    ∷ row msg_user_profile_get handle_user_profile_get true true
    ∷ row msg_user_profile_update handle_user_profile_update true true
    ∷ row msg_system_heartbeat handle_system_heartbeat false false
    ∷ row msg_system_notification handle_system_notification true false
    ∷ row msg_system_error handle_system_error false false
    ∷ row msg_system_shutdown handle_system_shutdown true true
    ∷ row msg_system_info handle_system_heartbeat true false
    ∷ []

-- `memory` says for which types memory can be had; the codes are not looked at.
unfoldable pub register_rows : (ℕ → Bool) → List Entry → Manager → Manager
register_rows memory [] mgr = mgr
register_rows memory (entry ∷ entries) mgr =
    register_rows memory entries
      (message_handler_register (memory entry.message_type) mgr entry.message_type entry.handler
        entry.require_auth entry.require_encryption).1

unfoldable pub message_handler_manager_create : (ℕ → Bool) → Manager
message_handler_manager_create memory =
    register_rows memory default_rows (record { handlers = []; stats = zero_stats })
