-- ===== src/Auth/Lockout.antt =====
-- The lockout of auth_login_user in server/src/auth.c, and why it never comes about.
use chatweb.Base.{
  ℕ, ◌+◌, ◌%◌, ◌^◌, ◌≤◌, ◌≡◌, ◌≢◌, ◌⊎◌, refl, subst, Bool, true, false, List, [], ◌∷◌, Option, none,
  some, arith, ltb, leb, ◌==◌, if◌then◌else◌, Bool-cases, inl, inr,
}
use chatweb.Libc.{Bytes}
use chatweb.Auth.{
  Status, success, account_locked, User, Database, Outcome, deadlocks, returns, is_named, find_user,
  update_user, rate_limit_check, log_authentication_attempt, auth_log_security_event,
  reject_password, accept_password, logged, login_row, auth_login_user, max_login_attempts,
  invalid_credentials, account_disabled, rate_limit_exceeded,
}

-- No account is locked at this time.
abbrev pub Unlocked : ℕ → List User → Type 0
Unlocked now [] = Unit {0}
Unlocked now (user ∷ users) = (user.account_locked_until ≤ now) × Unlocked now users

reject_password-last :
    (db : Database) (now : ℕ) (user : User) (client_ip : Bytes)
    → user.login_attempts + 1 ≡ max_login_attempts
    → reject_password db now user client_ip ≡ deadlocks
unfolding reject_password auth_log_security_event log_authentication_attempt
reject_password-last db now user client_ip n =
    let t : leb max_login_attempts ((user.login_attempts + 1) % 2 ^ 32) ≡ true = ground arith in
    rw (t, reject_password) refl

-- The attempt that would lock an account, in a database where the rate limit lets it pass and the
-- account is active and not locked, with a wrong password, locks db_mutex twice instead.
auth_login_user-deadlocks :
    (verify : Bytes → User → Bool) (db : Database) (now : ℕ) (username password client_ip : Bytes)
    (user : User)
    → rate_limit_check db now client_ip username ≡ success
    → find_user username db.users ≡ some user
    → user.account_locked_until ≤ now
    → user.is_active ≡ true
    → verify password user ≡ false
    → user.login_attempts + 1 ≡ max_login_attempts
    → auth_login_user verify db now username password client_ip ≡ deadlocks
unfolding auth_login_user
auth_login_user-deadlocks verify db now username password client_ip user r f l a w n =
    let t : ltb now user.account_locked_until ≡ false = ground arith in
    rw (r, auth_login_user) (rw (f, t, w, reject_password-last db now user client_ip n, a) refl)

abbrev IsUnlocked : ℕ → User → Type 0
IsUnlocked now user = user.account_locked_until ≤ now

abbrev Found : ℕ → Option User → Type 0
Found now none = Unit {0}
Found now (some user) = IsUnlocked now user

find_user-Found :
    (now : ℕ) (name : Bytes) (users : List User)
    → Unlocked now users
    → Found now (find_user name users)
unfolding find_user
find_user-Found now name [] h = tt
find_user-Found now name (user ∷ users) h = elim (Bool-cases (is_named name user)) [
  | inl b ↦ rw (b, find_user) h.0
  | inr b ↦ rw (b, find_user) (find_user-Found now name users h.1)
]

update_user-Unlocked :
    (now : ℕ) (user : User) (users : List User)
    → IsUnlocked now user
    → Unlocked now users
    → Unlocked now (update_user user users)
unfolding update_user
update_user-Unlocked now user [] u h = tt
update_user-Unlocked now user (v ∷ users) u h = elim (Bool-cases (v.user_id == user.user_id)) [
  | inl b ↦ rw (b, update_user) (u, update_user-Unlocked now user users u h.1)
  | inr b ↦ rw (b, update_user) (h.0, update_user-Unlocked now user users u h.1)
]

-- What a login that ends leaves.
abbrev Kept : ℕ → Outcome → Type 0
Kept now deadlocks = Unit {0}
Kept now (returns status db) = Unlocked now db.users × (status ≢ account_locked)

logged-Kept :
    (db : Database) (now user_id : ℕ) (client_ip : Bytes) (ok : Bool) (status : Status)
    → Unlocked now db.users
    → status ≢ account_locked
    → Kept now (logged db now user_id client_ip ok status)
unfolding log_authentication_attempt
logged-Kept db now user_id client_ip ok status h n = (h, n)

reject_password-Kept :
    (db : Database) (now : ℕ) (user : User) (client_ip : Bytes)
    → IsUnlocked now user
    → Unlocked now db.users
    → Kept now (reject_password db now user client_ip)
unfolding reject_password auth_log_security_event log_authentication_attempt
reject_password-Kept db now user client_ip u h =
    let attempts = (user.login_attempts + 1) % 2 ^ 32 in
    let tried : User = record user { login_attempts = attempts; last_login_attempt = now } in
    elim (Bool-cases (leb max_login_attempts attempts)) [
      | inl b ↦ rw (b, reject_password) tt
      | inr b ↦
          let t : ltb now user.account_locked_until ≡ false = ground (arith, u) in
          rw (b, t, reject_password)
            (update_user-Unlocked now tried db.users u h, (λ e. ground arith))
    ]

Kept-if :
    (now : ℕ) (b : Bool) (x y : Outcome) → Kept now x → Kept now y → Kept now (if b then x else y)
Kept-if now true x y kx ky = kx
Kept-if now false x y kx ky = ky

login_row-Kept :
    (verify : Bytes → User → Bool) (db : Database) (now : ℕ) (row : Option User)
    (password client_ip : Bytes)
    → Found now row
    → Unlocked now db.users
    → Kept now (login_row verify db now row password client_ip)
unfolding accept_password
login_row-Kept verify db now none password client_ip u h =
    logged-Kept db now 0 client_ip false invalid_credentials h (λ e. ground arith)
login_row-Kept verify db now (some user) password client_ip u h =
    let t : ltb now user.account_locked_until ≡ false = ground (arith, u) in
    let entered : User = record user {
      login_attempts = 0;
      last_login_attempt = now;
      account_locked_until = 0;
      last_login = now;
    } in
    rw t (
      Kept-if now user.is_active _ _
        (Kept-if now (verify password user) _ _
          (logged-Kept (record db { users = update_user entered db.users }) now user.user_id
            client_ip true success (update_user-Unlocked now entered db.users (omega arith) h)
            (λ e. ground arith))
          (reject_password-Kept db now user client_ip u h))
        (logged-Kept db now user.user_id client_ip false account_disabled h (λ e. ground arith)))

rate_limit_check-cases :
    (db : Database) (now : ℕ) (client_ip username : Bytes)
    → (rate_limit_check db now client_ip username ≡ success)
      ⊎ (rate_limit_check db now client_ip username ≡ rate_limit_exceeded)
unfolding rate_limit_check
rate_limit_check-cases db now client_ip username = ground arith

-- In a database where no account is locked at the time of a login, whatever its attempts, a login
-- that returns leaves no account locked at that time, and it never says that one is.
pub auth_login_user-Unlocked :
    (verify : Bytes → User → Bool) (db : Database) (now : ℕ) (username password client_ip : Bytes)
    (status : Status) (db' : Database)
    → Unlocked now db.users
    → auth_login_user verify db now username password client_ip ≡ returns status db'
    → Unlocked now db'.users × (status ≢ account_locked)
unfolding auth_login_user
auth_login_user-Unlocked verify db now username password client_ip status db' h e =
    subst (Kept now) e (elim (rate_limit_check-cases db now client_ip username) [
      | inl c ↦
          rw (c, auth_login_user)
            (login_row-Kept verify db now (find_user username db.users) password client_ip
              (find_user-Found now username db.users h) h)
      | inr c ↦ rw (c, auth_login_user) (h, (λ e. ground arith))
    ])
