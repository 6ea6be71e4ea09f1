-- ===== src/Auth.antt =====
-- Logging in, of server/src/auth.c. The tables of its database are lists of rows, and its statements
-- are functions of them that succeed; the test of a password against a row is an argument, since it
-- rests on OpenSSL. The tokens that follow a login are left out.
pub mod Lockout
pub mod Names
pub mod Passwords
use chatweb.Base.{
  ℕ, suc, ◌+◌, ◌%◌, ◌^◌, Bool, true, false, ◌&&◌, ◌||◌, List, [], ◌∷◌, Option, none, some, ltb, leb,
  ◌==◌, if◌then◌else◌,
}
use chatweb.Libc.{Bytes, bytes_eq}

-- auth_error_code_t, as far as a login or the test of a new password returns it
pub data Status : Type 0 where
  success invalid_credentials account_locked account_disabled rate_limit_exceeded
        password_too_weak :
      Status

-- A row of the table users.
pub record User : Type 0 where
  pub user_id : ℕ
  pub username : Bytes
  pub email : Bytes
  pub login_attempts : ℕ
  pub last_login_attempt : ℕ
  pub account_locked_until : ℕ
  pub is_active : Bool
  pub last_login : ℕ

-- A row of the table security_logs; `failed` for the event LOGIN_FAILED. The user is `none` for NULL.
pub record Log : Type 0 where
  pub log_user_id : Option ℕ
  pub client_ip : Bytes
  pub failed : Bool
  pub created_at : ℕ

pub record Database : Type 0 where
  pub users : List User
  pub logs : List Log

abbrev pub max_login_attempts : ℕ
max_login_attempts = 5

abbrev pub lockout_duration : ℕ
lockout_duration = 300

-- How a login ends: db_mutex is locked by the thread that holds it, or it returns.
pub data Outcome : Type 0 where
  deadlocks : Outcome
  returns : Status → Database → Outcome

abbrev pub is_named : Bytes → User → Bool
is_named name user = bytes_eq user.username name || bytes_eq user.email name

unfoldable pub find_user : Bytes → List User → Option User
find_user name [] = none
find_user name (user ∷ users) =
    let rest = find_user name users in if is_named name user then some user else rest

-- UPDATE users SET ... WHERE id = ?, for a row that was read; `id` is the primary key.
unfoldable pub update_user : User → List User → List User
update_user user [] = []
update_user user (u ∷ users) =
    let rest = update_user user users in if u.user_id == user.user_id then user ∷ rest else u ∷ rest

abbrev pub is_recent : ℕ → Log → Bool
is_recent now log = log.failed && ltb now (log.created_at + 3600)

unfoldable pub count_logs : (Log → Bool) → List Log → ℕ
count_logs test [] = 0
count_logs test (log ∷ logs) = (if test log then 1 else 0) + count_logs test logs

-- Whether a row of users with the identifier, and the name, joins the log.
abbrev pub joins : Bytes → List User → Option ℕ → Bool
joins name users none = false
joins name [] (some id) = false
joins name (user ∷ users) (some id) =
    (user.user_id == id && is_named name user) || joins name users (some id)

unfoldable pub rate_limit_check : Database → ℕ → Bytes → Bytes → Status
rate_limit_check db now client_ip username =
    if ltb 20 (count_logs (λ log. bytes_eq log.client_ip client_ip && is_recent now log) db.logs)
    then rate_limit_exceeded
    else if ltb 10
        (count_logs (λ log. joins username db.users log.log_user_id && is_recent now log) db.logs)
    then rate_limit_exceeded
    else success

-- The flag says whether the caller holds db_mutex; the user 0 is NULL in the row.
unfoldable pub log_authentication_attempt : Bool → Database → ℕ → ℕ → Bytes → Bool → Option Database
log_authentication_attempt true db now user_id client_ip ok = none
log_authentication_attempt false db now user_id client_ip ok = some (record db {
  logs =
      record {
        log_user_id = if user_id == 0 then none else some user_id;
        client_ip = client_ip;
        failed = if ok then false else true;
        created_at = now;
      }
      ∷ db.logs;
})

unfoldable pub auth_log_security_event : Bool → Database → ℕ → ℕ → Bytes → Option Database
auth_log_security_event held db now user_id client_ip =
    log_authentication_attempt held db now user_id client_ip true

-- The log is written when db_mutex is free again.
abbrev pub logged : Database → ℕ → ℕ → Bytes → Bool → Status → Outcome
logged db now user_id client_ip ok status =
    elim (log_authentication_attempt false db now user_id client_ip ok) [
      | none ↦ deadlocks
      | some db' ↦ returns status db'
    ]

-- A wrong password: one more attempt is counted, and the last one that is allowed locks the account,
-- after an event that is logged while db_mutex is held.
unfoldable pub reject_password : Database → ℕ → User → Bytes → Outcome
reject_password db now user client_ip =
    let attempts = (user.login_attempts + 1) % 2 ^ 32 in
    let tried = record user { login_attempts = attempts; last_login_attempt = now } in
    if leb max_login_attempts attempts
    then (elim (auth_log_security_event true db now user.user_id client_ip) [
      | none ↦ deadlocks
      | some db' ↦
          let locked = record tried {
            login_attempts = 0;
            account_locked_until = now + lockout_duration;
          } in
          logged (record db' { users = update_user locked db'.users }) now user.user_id client_ip
            false account_locked
    ])
    else logged (record db { users = update_user tried db.users }) now user.user_id client_ip false
        (if ltb now user.account_locked_until then account_locked else invalid_credentials)

unfoldable pub accept_password : Database → ℕ → User → Bytes → Outcome
accept_password db now user client_ip =
    let entered = record user {
      login_attempts = 0;
      last_login_attempt = now;
      account_locked_until = 0;
      last_login = now;
    } in
    logged (record db { users = update_user entered db.users }) now user.user_id client_ip true
      success

abbrev pub login_row : (Bytes → User → Bool) → Database → ℕ → Option User → Bytes → Bytes → Outcome
login_row verify db now none password client_ip =
    logged db now 0 client_ip false invalid_credentials
login_row verify db now (some user) password client_ip =
    if ltb now user.account_locked_until
    then logged db now user.user_id client_ip false account_locked
    else if user.is_active
    then (if verify password user
        then accept_password db now user client_ip
        else reject_password db now user client_ip)
    else logged db now user.user_id client_ip false account_disabled

unfoldable pub auth_login_user :
    (Bytes → User → Bool) → Database → ℕ → Bytes → Bytes → Bytes → Outcome
auth_login_user verify db now username password client_ip =
    elim (rate_limit_check db now client_ip username) [
      | success ↦ login_row verify db now (find_user username db.users) password client_ip
      | limit ↦ returns limit db
    ]
