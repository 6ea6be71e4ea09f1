-- ===== src/Tests/Auth.antt =====
-- The theorems on server/src/auth.c at concrete inputs.
use chatweb.Base.{◌≢◌, refl, Bool, true, false, [], ◌∷◌, some, arith}
use chatweb.Libc.{Bytes, bytes, bytes_eq}
use chatweb.Auth.{
  Status, invalid_credentials, User, Database, find_user, update_user, count_logs, rate_limit_check,
  log_authentication_attempt, reject_password, auth_login_user,
}
use chatweb.Auth.Lockout.{Unlocked, auth_login_user-Unlocked}

abbrev wang : User
wang = record {
  user_id = 3;
  username = bytes "wang";
  email = bytes "wang@chat.example";
  login_attempts = 4;
  last_login_attempt = 900;
  account_locked_until = 0;
  is_active = true;
  last_login = 100;
}

-- Every password is wrong.
abbrev wrong : Bytes → User → Bool
wrong password user = false

-- His lock has run out.
abbrev fresh : Database
fresh = record {
  users = record wang { login_attempts = 1; account_locked_until = 950 } ∷ [];
  logs = [];
}

abbrev tried : Database
tried = record {
  users =
      record wang { login_attempts = 2; last_login_attempt = 1000; account_locked_until = 950 }
      ∷ [];
  logs =
      record {
        log_user_id = some 3;
        client_ip = bytes "10.0.0.1";
        failed = true;
        created_at = 1000;
      }
      ∷ [];
}

auth_login_user-Unlocked_example :
    Unlocked 1000 tried.users × (invalid_credentials ≢ Status.account_locked)
unfolding auth_login_user rate_limit_check find_user count_logs reject_password update_user
    log_authentication_attempt bytes_eq
auth_login_user-Unlocked_example =
    auth_login_user-Unlocked wrong fresh 1000 (bytes "wang") (bytes "secret") (bytes "10.0.0.1")
      invalid_credentials tried (omega arith, tt) refl
