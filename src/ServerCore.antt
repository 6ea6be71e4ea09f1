-- ===== src/ServerCore.antt =====
-- The life of a server in server/src/server_core.c and server/include/server.h: what server_init makes,
-- and server_start, server_stop and server_destroy. What the operating system and the other
-- components do is an argument. tcp_fd and epoll_fd are one part, and a part that cannot be made
-- leaves its pointer NULL; the statistics and the events are left out.
pub mod Parts
pub mod Life
pub mod Retry
use chatweb.Base.{ℕ, suc, Bool, true, false, not, ◌&&◌, List, [], ◌∷◌, ◌==◌, if◌then◌else◌}

-- server_state_t
pub data State : Type 0 where
  initializing running shutting_down shutdown error : State

-- What a server points to.
pub data Part : Type 0 where
  ssl_ctx network db_conn thread_pool ws_server monitoring : Part
  connection_pool user_manager message_queue file_transfer_mgr audit_log : Part

abbrev pub number : Part → ℕ
number ssl_ctx = 0
number network = 1
number db_conn = 2
number thread_pool = 3
number ws_server = 4
number monitoring = 5
number connection_pool = 6
number user_manager = 7
number message_queue = 8
number file_transfer_mgr = 9
number audit_log = 10

-- What server_init reads of server_config_t: the last two are set or not.
pub record Config : Type 0 where
  pub enable_ssl : Bool
  pub enable_monitoring : Bool
  pub enable_audit : Bool
  pub run_as_daemon : Bool
  pub run_as_user : Bool
  pub pid_file : Bool

-- Which parts can be made, and which of the other steps go well.
pub record System : Type 0 where
  pub makes : Part → Bool
  pub limits : Bool
  pub privileges : Bool
  pub daemon : Bool
  pub pid : Bool
  pub accept_thread : Bool
  pub cleanup_thread : Bool
  pub maintenance_thread : Bool

-- server_instance_t: the parts it points to, and how many objects no pointer leads to any more.
pub record Server : Type 0 where
  pub state : State
  pub is_running : Bool
  pub shutdown_requested : Bool
  pub has : Part → Bool
  pub lost : ℕ

unfoldable pub server_create : Server
server_create = record {
  state = initializing;
  is_running = false;
  shutdown_requested = false;
  has = λ part. false;
  lost = 0;
}

-- A part is made, and the pointer to it overwritten.
abbrev pub make : Part → Server → Server
make part server = record server {
  has = λ other. if number part == number other then true else server.has other;
  lost = if server.has part then suc server.lost else server.lost;
}

-- A part could not be made, and the pointer to it is overwritten with NULL.
abbrev pub clear : Part → Server → Server
clear part server = record server {
  has = λ other. if number part == number other then false else server.has other;
  lost = if server.has part then suc server.lost else server.lost;
}

-- How server_init ends: with 0, or an error, whose sign is left out.
pub data Init : Type 0 where
  ready : Server → Init
  failed : ℕ → Server → Init

-- A part that the server cannot do without, and what is done after it.
unfoldable pub require : System → Part → ℕ → (Server → Init) → Server → Init
require system part code next server =
    let made = next (make part server) in
    if system.makes part then made else failed code (clear part server)

-- A part that the server can do without, where it is enabled.
unfoldable pub try_to : Bool → System → Part → (Server → Init) → Server → Init
try_to enabled system part next server =
    let made = next (make part server) in
    let not_made = next (clear part server) in
    let skipped = next server in
    if enabled then (if system.makes part then made else not_made) else skipped

abbrev pub update_server_state : State → Server → Server
update_server_state state server = record server { state = state }

-- `next` is what server_init does afterwards.
unfoldable pub server_init_components : Config → System → (Server → Init) → Server → Init
server_init_components config system next = require system connection_pool 13 (λ s₁.
    require system user_manager 13
      (λ s₂.
        require system message_queue 13
          (λ s₃.
            require system file_transfer_mgr 13 (try_to config.enable_audit system audit_log next)
              s₃)
          s₂)
      s₁)

-- What server_init does last.
abbrev pub finish_init : Server → Init
finish_init server = ready (update_server_state running server)

-- From the network on.
unfoldable pub init_services : Config → System → Server → Init
init_services config system = require system network 9 (λ s₁.
    require system db_conn 10
      (λ s₂.
        require system thread_pool 11
          (λ s₃.
            require system ws_server 12
              (λ s₄.
                try_to config.enable_monitoring system monitoring
                  (server_init_components config system finish_init) s₄)
              s₃)
          s₂)
      s₁)

abbrev pub is_initializing : State → Bool
is_initializing initializing = true
is_initializing state = false

unfoldable pub allocate_resources : Server → Bool
allocate_resources server = true

unfoldable pub server_init : Config → System → Server → Init
server_init config system server =
    let services = init_services config system server in
    let with_ssl = require system ssl_ctx 8 (init_services config system) server in
    if not (is_initializing server.state)
    then failed 2 server
    else if not system.limits
    then failed 3 server
    else if not (allocate_resources server)
    then failed 4 server
    else if config.run_as_user && not system.privileges
    then failed 5 server
    else if config.run_as_daemon && not system.daemon
    then failed 6 server
    else if config.pid_file && not system.pid
    then failed 7 server
    else if config.enable_ssl
    then with_ssl
    else services

-- The threads of a server that is initialized. What is joined on an error is not a part.
abbrev pub start_threads : System → Init → ℕ × Server
start_threads system (failed code server) = (code, server)
start_threads system (ready server) =
    if not system.accept_thread
    then (2, server)
    else if not system.cleanup_thread
    then (3, record server { is_running = false })
    else if not system.maintenance_thread
    then (4, record server { is_running = false })
    else (0, record server { is_running = true })

unfoldable pub server_start : Config → System → Server → ℕ × Server
server_start config system server =
    let started = start_threads system (server_init config system server) in
    if server.is_running then (0, server) else started

abbrev pub is_audit_log : Part → Bool
is_audit_log part = number part == number audit_log

-- The audit log stays open.
unfoldable pub server_cleanup_components : Server → Server
server_cleanup_components server = record server {
  has = λ part. if is_audit_log part then server.has part else false;
}

-- After the clients were told and waited for, if it is a graceful stop, and the threads have ended.
unfoldable pub server_stop : Server → ℕ × Server
server_stop server = if not server.is_running then (0, server) else (
  0,
  update_server_state shutdown
      (server_cleanup_components (record server { is_running = false; shutdown_requested = true })),
)

abbrev pub close_audit_log : Server → Server
close_audit_log server = record server {
  has = λ part. if is_audit_log part then false else server.has part;
}

-- What is left when the server's own memory is freed.
unfoldable pub server_destroy : Server → Server
server_destroy server = close_audit_log (server_cleanup_components (server_stop server).1)
