-- ===== src/Tests/ServerCore.antt =====
-- The theorems on server/src/server_core.c at concrete inputs.
use chatweb.Base.{◌≡◌, refl, true, false, [], ◌∷◌}
use chatweb.ServerCore.{running, Config, Server, server_create}
use chatweb.ServerCore.Life
use chatweb.ServerCore.Life.{
  Event, start, stop, run, codes, server_create-IsValid, server_start-final,
}
use chatweb.ServerCore.Retry.{sound, no_pool}

abbrev config : Config
config = record {
  enable_ssl = true;
  enable_monitoring = true;
  enable_audit = true;
  run_as_daemon = false;
  run_as_user = true;
  pid_file = true;
}

server_create-IsValid_example :
    Life.IsValid config
      (run config (start no_pool ∷ start sound ∷ stop ∷ start sound ∷ []) server_create)
server_create-IsValid_example =
    server_create-IsValid config (start no_pool ∷ start sound ∷ stop ∷ start sound ∷ [])

-- A server whose threads could not be made.
abbrev stuck : Server
stuck = record {
  state = running;
  is_running = false;
  shutdown_requested = false;
  has = λ part. true;
  lost = 0;
}

server_start-final_example :
    (run config (stop ∷ start sound ∷ []) stuck ≡ stuck)
    × (codes config (stop ∷ start sound ∷ []) stuck ≡ 0 ∷ 2 ∷ [])
server_start-final_example = server_start-final config (stop ∷ start sound ∷ []) stuck refl refl
