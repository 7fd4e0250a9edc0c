-- ===== src/Examples/Requests.antt =====
-- Example of a request on the control socket.
use nz.Base.{◌≡◌, ◌⊎◌, [], ◌∷◌, none, some, arith}
use nz.Control.{Program, Request, World, handle, denied, needs_root}
use nz.Control.Laws.{Untouched, handle_no_root}
use nz.Examples.Data.{home, server, server_config, env}
use nz.Examples.NodeData.{node_env, quiet}

abbrev pub world : World
world = record {
  verifier = λ password salt. 7 ∷ [];
  server_env = env;
  node_env = node_env;
  read_tables = λ text. none;
  config_file = none;
}

abbrev pub running : Program
running = record {
  version = "1";
  cfg = server_config;
  st = home;
  srv = some server;
  active = none;
  starts = 0;
  started_at = 1;
}

abbrev pub deny_alice : Request
deny_alice = record { command = "deny"; target = "alice"; to = "" }

handle_no_root_example :
    Untouched running (handle world (quiet 5) 1000 deny_alice 5 running).0
    × ((deny_alice.command ≡ "list")
        ⊎ (handle world (quiet 5) 1000 deny_alice 5 running ≡ (running, denied (needs_root 1000))))
handle_no_root_example = handle_no_root world (quiet 5) 1000 deny_alice 5 running (omega arith)
