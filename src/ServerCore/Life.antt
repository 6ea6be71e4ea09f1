-- ===== src/ServerCore/Life.antt =====
-- Starts and stops of a server of server/src/server_core.c, in any order.
use chatweb.Base.{
  ℕ, ◌≡◌, refl, sym, ap, ap₂, subst, ◌∙◌, map, Bool, true, false, List, [], ◌∷◌, if◌then◌else◌,
  arith, Bool-cases, inl, inr,
}
use chatweb.ServerCore.{
  State, initializing, running, shutdown, Part, Config, System, Server, server_create, Init, ready,
  failed, is_initializing, server_init, start_threads, server_start, server_cleanup_components,
  server_stop, is_audit_log,
}
use chatweb.ServerCore.Parts.{is_needed, Inited, server_init-Inited}

pub data Event : Type 0 where
  start : System → Event
  stop : Event

abbrev pub handle : Config → Event → Server → Server
handle config (start system) server = (server_start config system server).1
handle config stop server = (server_stop server).1

-- The codes of the events, the signs left out.
abbrev pub code_of : Config → Event → Server → ℕ
code_of config (start system) server = (server_start config system server).0
code_of config stop server = (server_stop server).0

-- The events one after another.
abbrev pub run : Config → List Event → Server → Server
run config [] server = server
run config (event ∷ events) server = run config events (handle config event server)

abbrev pub codes : Config → List Event → Server → List ℕ
codes config [] server = []
codes config (event ∷ events) server =
    code_of config event server ∷ codes config events (handle config event server)

-- -2 for a start, 0 for a stop.
abbrev pub refusal : Event → ℕ
refusal (start system) = 2
refusal stop = 0

start_refused :
    (config : Config) (system : System) (server : Server)
    → is_initializing server.state ≡ false
    → server.is_running ≡ false
    → server_start config system server ≡ (2, server)
unfolding server_start server_init
start_refused config system server i r = rw (r, i, server_start, server_init) refl

start_running :
    (config : Config) (system : System) (server : Server)
    → server.is_running ≡ true
    → server_start config system server ≡ (0, server)
unfolding server_start
start_running config system server r = rw (r, server_start) refl

start_idle :
    (config : Config) (system : System) (server : Server)
    → server.is_running ≡ false
    → server_start config system server ≡ start_threads system (server_init config system server)
unfolding server_start
start_idle config system server r =
    ap (λ b. if b then (0, server) else start_threads system (server_init config system server)) r

stop_refused : (server : Server) → server.is_running ≡ false → server_stop server ≡ (0, server)
unfolding server_stop
stop_refused server r = rw (r, server_stop) refl

abbrev Refused : Config → Event → Server → Type 0
Refused config event server =
    (handle config event server ≡ server) × (code_of config event server ≡ refusal event)

event-Refused :
    (config : Config) (event : Event) (server : Server)
    → is_initializing server.state ≡ false
    → server.is_running ≡ false
    → Refused config event server
event-Refused config (start system) server i r =
    let e = start_refused config system server i r in (ap (λ r. r.1) e, ap (λ r. r.0) e)
event-Refused config stop server i r =
    let e = stop_refused server r in (ap (λ r. r.1) e, ap (λ r. r.0) e)

-- A server that is past its initialization and does not run is not changed by any starts and stops:
-- each start returns -2, and each stop returns 0.
pub server_start-final :
    (config : Config) (events : List Event) (server : Server)
    → is_initializing server.state ≡ false
    → server.is_running ≡ false
    → (run config events server ≡ server) × (codes config events server ≡ map refusal events)
server_start-final config [] server i r = (refl, refl)
server_start-final config (event ∷ events) server i r =
    let (same, code) = event-Refused config event server i r in
    let (later, rest) = server_start-final config events server i r in
    (ap (run config events) same ∙ later, ap₂ ◌∷◌ code (ap (codes config events) same ∙ rest))

-- A server runs only in its running state, with all that it needs; and one that is shut down has no
-- part but perhaps the audit log.
pub record IsValid (config : Config) (server : Server) : Type 0 where
  pub in_state : server.is_running ≡ true → server.state ≡ running
  pub needs :
      server.is_running ≡ true
      → (part : Part) → is_needed config part ≡ true
      → server.has part ≡ true
  pub emptied :
      server.state ≡ shutdown → (part : Part) → is_audit_log part ≡ false → server.has part ≡ false

abbrev is_shutdown : State → Bool
is_shutdown shutdown = true
is_shutdown state = false

idle_IsValid :
    (config : Config) (server : Server)
    → server.is_running ≡ false
    → is_shutdown server.state ≡ false
    → IsValid config server
idle_IsValid config server r h = record {
  in_state = λ e. absurd (ground (arith, e, r));
  needs = λ e. absurd (ground (arith, e, r));
  emptied = λ e. let k = ap is_shutdown e in absurd (ground (arith, k, h));
}

ready_IsValid :
    (config : Config) (server : Server)
    → server.state ≡ running
    → ((part : Part) → is_needed config part ≡ true → server.has part ≡ true)
    → IsValid config server
ready_IsValid config server e n = record {
  in_state = λ _. e;
  needs = λ _. n;
  emptied = λ e'. let k : false ≡ true = ap is_shutdown (sym e ∙ e') in absurd (ground (arith, k));
}

not_shutdown : (state : State) → is_initializing state ≡ true → is_shutdown state ≡ false
not_shutdown initializing h = refl
not_shutdown running h = refl
not_shutdown State.shutting_down h = refl
not_shutdown shutdown h = absurd (ground (arith, h))
not_shutdown State.error h = refl

-- An outcome of server_start: a server that runs comes from its initialization.
threads-IsValid :
    (config : Config) (system : System) (server : Server) (init : Init)
    → server.is_running ≡ false
    → is_initializing server.state ≡ true
    → Inited config server init
    → IsValid config (start_threads system init).1
threads-IsValid config system server (failed code s) r i h =
    idle_IsValid config s (h.1 ∙ r) (ap is_shutdown h.0 ∙ not_shutdown server.state i)
threads-IsValid config system server (ready s) r i h =
    let valid = λ (b : Bool). ready_IsValid config (record s { is_running = b }) h.0 h.2 in
    elim (Bool-cases system.accept_thread) [
      | inr a ↦ rw (a, start_threads) (ready_IsValid config s h.0 h.2)
      | inl a ↦ elim (Bool-cases system.cleanup_thread) [
        | inr c ↦ rw (a, c, start_threads) (valid false)
        | inl c ↦ elim (Bool-cases system.maintenance_thread) [
          | inr m ↦ rw (a, c, m, start_threads) (valid false)
          | inl m ↦ rw (a, c, m, start_threads) (valid true)
        ]
      ]
    ]

handle-IsValid :
    (config : Config) (event : Event) (server : Server)
    → IsValid config server
    → IsValid config (handle config event server)
unfolding server_start server_stop server_cleanup_components
handle-IsValid config (start system) server v = elim (Bool-cases server.is_running) [
  | inl r ↦ subst (IsValid config) (sym (ap (λ s. s.1) (start_running config system server r))) v
  | inr r ↦ elim (Bool-cases (is_initializing server.state)) [
    | inr i ↦
        subst (IsValid config) (sym (ap (λ s. s.1) (start_refused config system server i r))) v
    | inl i ↦ subst (IsValid config) (sym (ap (λ s. s.1) (start_idle config system server r))) (
        threads-IsValid config system server (server_init config system server) r i
          (server_init-Inited config system server))
  ]
]
handle-IsValid config stop server v = elim (Bool-cases server.is_running) [
  | inl r ↦
      rw (r, server_stop)
        (record {
          in_state = λ e. absurd (ground (arith, e));
          needs = λ e. absurd (ground (arith, e));
          emptied = λ _ part h. rw h refl;
        })
  | inr r ↦ subst (IsValid config) (sym (ap (λ s. s.1) (stop_refused server r))) v
]

from_IsValid :
    (config : Config) (events : List Event) (server : Server)
    → IsValid config server
    → IsValid config (run config events server)
from_IsValid config [] server v = v
from_IsValid config (event ∷ events) server v =
    from_IsValid config events (handle config event server) (handle-IsValid config event server v)

-- After any starts and stops of a server that was created: if it runs, it is in its running state and has
-- each part that its configuration asks for, but perhaps the monitoring and the audit log; if it is
-- shut down, it has no part but perhaps the audit log.
pub server_create-IsValid :
    (config : Config) (events : List Event) → IsValid config (run config events server_create)
unfolding server_create
server_create-IsValid config events =
    from_IsValid config events server_create (idle_IsValid config server_create refl refl)
