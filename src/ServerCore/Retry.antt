-- ===== src/ServerCore/Retry.antt =====
-- A start of a server of server/src/server_core.c that fails, and the next one.
use chatweb.Base.{◌≡◌, refl, Bool, true, false, not, ◌&&◌, ◌==◌, if◌then◌else◌}
use chatweb.ServerCore.{
  Part, thread_pool, is_audit_log, Config, System, Server, server_create, number, require, try_to,
  server_init_components, init_services, server_init, allocate_resources, server_start,
  server_cleanup_components, server_stop, server_destroy,
}

-- All goes well.
abbrev pub sound : System
sound = record {
  makes = λ part. true;
  limits = true;
  privileges = true;
  daemon = true;
  pid = true;
  accept_thread = true;
  cleanup_thread = true;
  maintenance_thread = true;
}

-- The thread pool cannot be made.
abbrev pub no_pool : System
no_pool = record sound { makes = λ part. not (number part == number thread_pool) }

and_false : (b : Bool) → (b && false) ≡ false
and_false true = refl
and_false false = refl

no_part : (b c : Bool) → (if b then false else (if b then c else false)) ≡ false
no_part true c = refl
no_part false c = refl

-- What a start that failed has made is not released, and the next start makes it again: when the
-- thread pool can be made only the second time, the first network, database connection and SSL
-- context are lost while the server runs, and still when it is destroyed.
server_start-again :
    (config : Config)
    → (s₁ : Server) × (s₂ : Server) × (server_start config no_pool server_create ≡ (11, s₁))
      × (server_start config sound s₁ ≡ (0, s₂))
      × (s₂.is_running ≡ true)
      × (s₂.lost ≡ (if config.enable_ssl then 3 else 2))
      × ((server_destroy s₂).lost ≡ s₂.lost)
      × ((part : Part) → (server_destroy s₂).has part ≡ false)
unfolding server_create server_start server_init allocate_resources init_services
    server_init_components require try_to server_destroy server_stop server_cleanup_components
server_start-again config =
    at config.enable_ssl config.enable_monitoring config.enable_audit config.run_as_daemon
      config.run_as_user config.pid_file
  where
    at :
        (ssl mon audit daemon user pid : Bool)
        → let config : Config = record {
          enable_ssl = ssl;
          enable_monitoring = mon;
          enable_audit = audit;
          run_as_daemon = daemon;
          run_as_user = user;
          pid_file = pid;
        } in
          (s₁ : Server) × (s₂ : Server) × (server_start config no_pool server_create ≡ (11, s₁))
          × (server_start config sound s₁ ≡ (0, s₂))
          × (s₂.is_running ≡ true)
          × (s₂.lost ≡ (if ssl then 3 else 2))
          × ((server_destroy s₂).lost ≡ s₂.lost)
          × ((part : Part) → (server_destroy s₂).has part ≡ false)
    at true true true daemon user pid =
        rw (and_false daemon, and_false user, and_false pid)
          (_, _, refl, refl, refl, refl, refl, λ part. no_part (is_audit_log part) _)
    at true true false daemon user pid =
        rw (and_false daemon, and_false user, and_false pid)
          (_, _, refl, refl, refl, refl, refl, λ part. no_part (is_audit_log part) _)
    at true false true daemon user pid =
        rw (and_false daemon, and_false user, and_false pid)
          (_, _, refl, refl, refl, refl, refl, λ part. no_part (is_audit_log part) _)
    at true false false daemon user pid =
        rw (and_false daemon, and_false user, and_false pid)
          (_, _, refl, refl, refl, refl, refl, λ part. no_part (is_audit_log part) _)
    at false true true daemon user pid =
        rw (and_false daemon, and_false user, and_false pid)
          (_, _, refl, refl, refl, refl, refl, λ part. no_part (is_audit_log part) _)
    at false true false daemon user pid =
        rw (and_false daemon, and_false user, and_false pid)
          (_, _, refl, refl, refl, refl, refl, λ part. no_part (is_audit_log part) _)
    at false false true daemon user pid =
        rw (and_false daemon, and_false user, and_false pid)
          (_, _, refl, refl, refl, refl, refl, λ part. no_part (is_audit_log part) _)
    at false false false daemon user pid =
        rw (and_false daemon, and_false user, and_false pid)
          (_, _, refl, refl, refl, refl, refl, λ part. no_part (is_audit_log part) _)
