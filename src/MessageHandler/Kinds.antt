-- ===== src/MessageHandler/Kinds.antt =====
-- The numbers of the types of messages in server/include/message_handler.h, and the sizes that
-- message_validate_integrity of server/src/message_handler.c asks for.
use chatweb.Base.{ℕ, Bool, true, false, leb, ◌==◌, if◌then◌else◌}

abbrev pub msg_auth_login : ℕ
msg_auth_login = 65537

abbrev pub msg_auth_logout : ℕ
msg_auth_logout = 65539

abbrev pub msg_auth_register : ℕ
msg_auth_register = 65541

abbrev pub msg_auth_token_refresh : ℕ
msg_auth_token_refresh = 65543

abbrev pub msg_chat_text_send : ℕ
msg_chat_text_send = 131073

abbrev pub msg_chat_text_receive : ℕ
msg_chat_text_receive = 131075

abbrev pub msg_chat_group_create : ℕ
msg_chat_group_create = 131076

abbrev pub msg_chat_group_join : ℕ
msg_chat_group_join = 131078

abbrev pub msg_chat_group_leave : ℕ
msg_chat_group_leave = 131080

abbrev pub msg_file_upload_request : ℕ
msg_file_upload_request = 196609

abbrev pub msg_file_download_request : ℕ
msg_file_download_request = 196611

abbrev pub msg_file_transfer_cancel : ℕ
msg_file_transfer_cancel = 196613

abbrev pub msg_file_transfer_status : ℕ
msg_file_transfer_status = 196615

abbrev pub msg_file_progress_update : ℕ
msg_file_progress_update = 196617

abbrev pub msg_user_list_get : ℕ
msg_user_list_get = 262145

abbrev pub msg_user_status_update : ℕ
msg_user_status_update = 262147

abbrev pub msg_user_profile_get : ℕ
msg_user_profile_get = 262149

abbrev pub msg_user_profile_update : ℕ
msg_user_profile_update = 262151

abbrev pub msg_system_heartbeat : ℕ
msg_system_heartbeat = 327681

abbrev pub msg_system_notification : ℕ
msg_system_notification = 327683

abbrev pub msg_system_error : ℕ
msg_system_error = 327684

abbrev pub msg_system_shutdown : ℕ
msg_system_shutdown = 327685

abbrev pub msg_system_info : ℕ
msg_system_info = 327687

-- sizeof of the structures of messages
pub record Sizes : Type 0 where
  pub login_msg : ℕ
  pub register_msg : ℕ
  pub message_content : ℕ
  pub file_transfer_request : ℕ
  pub file_download_request : ℕ
  pub file_transfer_cancel : ℕ
  pub file_transfer_status : ℕ
  pub user_list_request : ℕ
  pub user_status_update : ℕ
  pub user_profile_update : ℕ
  pub error_info : ℕ

unfoldable pub message_validate_integrity : Sizes → ℕ → ℕ → Bool
message_validate_integrity sizes len message_type =
    if len == 0
    then false
    else if message_type == msg_auth_login
    then leb sizes.login_msg len
    else if message_type == msg_auth_register
    then leb sizes.register_msg len
    else if message_type == msg_chat_text_send
    then leb sizes.message_content len
    else if message_type == msg_file_upload_request
    then leb sizes.file_transfer_request len
    else if message_type == msg_file_download_request
    then leb sizes.file_download_request len
    else if message_type == msg_file_transfer_cancel
    then leb sizes.file_transfer_cancel len
    else if message_type == msg_file_progress_update
    then leb sizes.file_transfer_status len
    else if message_type == msg_user_list_get
    then leb sizes.user_list_request len
    else if message_type == msg_user_status_update
    then leb sizes.user_status_update len
    else if message_type == msg_user_profile_update
    then leb sizes.user_profile_update len
    else if message_type == msg_system_heartbeat
    then leb 8 len
    else if message_type == msg_system_error
    then leb sizes.error_info len
    else true
