-- ===== src/ServerCore/Parts.antt =====
-- What server_init of server/src/server_core.c makes of a server.
use chatweb.Base.{
  ℕ, ◌≡◌, refl, Bool, true, false, not, ◌&&◌, ◌==◌, if◌then◌else◌, arith, Bool-cases, inl, inr,
}
use chatweb.ServerCore.{
  running, Part, ssl_ctx, network, db_conn, thread_pool, ws_server, monitoring, connection_pool,
  user_manager, message_queue, file_transfer_mgr, audit_log, number, Config, System, Server, make,
  clear, Init, ready, failed, require, try_to, server_init_components, finish_init,
  allocate_resources, init_services, is_initializing, server_init,
}

-- The parts that a server needs to run.
abbrev pub is_needed : Config → Part → Bool
is_needed config ssl_ctx = config.enable_ssl
is_needed config monitoring = false
is_needed config audit_log = false
is_needed config part = true

-- What server_init makes of a server: it is ready, with all that it needs, or it is where it was.
abbrev pub Inited : Config → Server → Init → Type 0
Inited config server (ready s) =
    (s.state ≡ running)
    × (s.is_running ≡ server.is_running)
    × ((part : Part) → is_needed config part ≡ true → s.has part ≡ true)
Inited config server (failed code s) = (s.state ≡ server.state) × (s.is_running ≡ server.is_running)

require-Inited :
    (config : Config) (server : Server) (system : System) (part : Part) (code : ℕ)
    (next : Server → Init) (s : Server)
    → Inited config server (failed code s)
    → Inited config server (next (make part s))
    → Inited config server (require system part code next s)
unfolding require
require-Inited config server system part code next s f n = elim (Bool-cases (system.makes part)) [
  | inl t ↦ rw (t, require) n
  | inr t ↦ rw (t, require) f
]

try_to-Inited :
    (config : Config) (server : Server) (enabled : Bool) (system : System) (part : Part)
    (next : Server → Init) (s : Server)
    → Inited config server (next s)
    → Inited config server (next (clear part s))
    → Inited config server (next (make part s))
    → Inited config server (try_to enabled system part next s)
unfolding try_to
try_to-Inited config server enabled system part next s f c n = elim (Bool-cases enabled) [
  | inr e ↦ rw (e, try_to) f
  | inl e ↦ elim (Bool-cases (system.makes part)) [
    | inl t ↦ rw (e, t, try_to) n
    | inr t ↦ rw (e, t, try_to) c
  ]
]

abbrev HasNeeded : Config → Server → Type 0
HasNeeded config s = (part : Part) → is_needed config part ≡ true → s.has part ≡ true

make-HasNeeded :
    (config : Config) (part : Part) (s : Server)
    → HasNeeded config s
    → HasNeeded config (make part s)
make-HasNeeded config part s n other h = elim (Bool-cases (number part == number other)) [
  | inl e ↦ rw e refl
  | inr e ↦ rw e (n other h)
]

clear-HasNeeded :
    (config : Config) (s : Server) → HasNeeded config s → HasNeeded config (clear audit_log s)
clear-HasNeeded config s n ssl_ctx h = n ssl_ctx h
clear-HasNeeded config s n network h = n network h
clear-HasNeeded config s n db_conn h = n db_conn h
clear-HasNeeded config s n thread_pool h = n thread_pool h
clear-HasNeeded config s n ws_server h = n ws_server h
clear-HasNeeded config s n monitoring h = n monitoring h
clear-HasNeeded config s n connection_pool h = n connection_pool h
clear-HasNeeded config s n user_manager h = n user_manager h
clear-HasNeeded config s n message_queue h = n message_queue h
clear-HasNeeded config s n file_transfer_mgr h = n file_transfer_mgr h
clear-HasNeeded config s n audit_log h = absurd (ground (arith, h))

components-Inited :
    (config : Config) (server : Server) (system : System) (s : Server)
    → s.state ≡ server.state
    → s.is_running ≡ server.is_running
    → s.has network ≡ true
    → s.has db_conn ≡ true
    → s.has thread_pool ≡ true
    → s.has ws_server ≡ true
    → (config.enable_ssl ≡ true → s.has ssl_ctx ≡ true)
    → Inited config server (server_init_components config system finish_init s)
unfolding server_init_components
components-Inited config server system s e r n d t w l =
    let q = require-Inited config server system in
    let s' =
      make file_transfer_mgr (make message_queue (make user_manager (make connection_pool s))) in
    q connection_pool 13 _ s (e, r)
      (q user_manager 13 _ (make connection_pool s) (e, r)
        (q message_queue 13 _ (make user_manager (make connection_pool s)) (e, r)
          (q file_transfer_mgr 13 _
            (make message_queue (make user_manager (make connection_pool s))) (e, r)
            (try_to-Inited config server config.enable_audit system audit_log _ s' (refl, r, all)
              (refl, r, clear-HasNeeded config s' all)
              (refl, r, make-HasNeeded config audit_log s' all)))))
  where
    all :
        (part : Part)
        → is_needed config part ≡ true
        → (make file_transfer_mgr
              (make message_queue (make user_manager (make connection_pool s)))).has
            part
          ≡ true
    all ssl_ctx h = l h
    all network h = n
    all db_conn h = d
    all thread_pool h = t
    all ws_server h = w
    all monitoring h = absurd (ground (arith, h))
    all audit_log h = absurd (ground (arith, h))
    all connection_pool h = refl
    all user_manager h = refl
    all message_queue h = refl
    all file_transfer_mgr h = refl

services-Inited :
    (config : Config) (server : Server) (system : System) (s : Server)
    → s.state ≡ server.state
    → s.is_running ≡ server.is_running
    → (config.enable_ssl ≡ true → s.has ssl_ctx ≡ true)
    → Inited config server (init_services config system s)
unfolding init_services
services-Inited config server system s e r l =
    let q = require-Inited config server system in
    let s' = make ws_server (make thread_pool (make db_conn (make network s))) in
    q network 9 _ s (e, r)
      (q db_conn 10 _ (make network s) (e, r)
        (q thread_pool 11 _ (make db_conn (make network s)) (e, r)
          (q ws_server 12 _ (make thread_pool (make db_conn (make network s))) (e, r)
            (try_to-Inited config server config.enable_monitoring system monitoring _ s'
              (components-Inited config server system s' e r refl refl refl refl l)
              (components-Inited config server system (clear monitoring s') e r refl refl refl refl
                l)
              (components-Inited config server system (make monitoring s') e r refl refl refl refl
                l)))))

choose-Inited :
    (config : Config) (server : Server) (b : Bool) (x y : Init)
    → Inited config server x
    → (b ≡ false → Inited config server y)
    → Inited config server (if b then x else y)
choose-Inited config server true x y f g = f
choose-Inited config server false x y f g = g refl

pub server_init-Inited :
    (config : Config) (system : System) (server : Server)
    → Inited config server (server_init config system server)
unfolding server_init
server_init-Inited config system server =
    let q = choose-Inited config server in
    let no : (code : ℕ) → Inited config server (failed code server) = λ code. (refl, refl) in
    q (not (is_initializing server.state)) _ _ (no 2) (λ _. q (not system.limits) _ _ (no 3) (λ _.
      q (not (allocate_resources server)) _ _ (no 4) (λ _.
        q (config.run_as_user && not system.privileges) _ _ (no 5) (λ _.
          q (config.run_as_daemon && not system.daemon) _ _ (no 6) (λ _.
            q (config.pid_file && not system.pid) _ _ (no 7)
              (λ _. with_ssl config system server))))))
  where
    with_ssl :
        (config : Config) (system : System) (server : Server)
        → Inited config server (
            if config.enable_ssl
            then require system ssl_ctx 8 (init_services config system) server
            else init_services config system server)
    with_ssl config system server =
        choose-Inited config server config.enable_ssl _ _
          (require-Inited config server system ssl_ctx 8 _ server (refl, refl)
            (services-Inited config server system (make ssl_ctx server) refl refl (λ h. refl)))
          (λ e.
            services-Inited config server system server refl refl
              (λ h. absurd (ground (arith, e, h))))
