-- ===== src/Control.antt =====
-- internal/daemon/daemon.go: the program as it runs, and the requests of the control socket.
pub mod Laws
pub mod Socket
pub mod Starting
use nz.Base.{
  ℕ, ◌+◌, ◌-◌, ◌/◌, ℤ, String, Bool, true, false, not, ◌&&◌, ◌||◌, List, [], ◌∷◌, Option, none,
  some, ◌==◌, nat_eq, string_eq, if◌then◌else◌, length, keep_if,
}
use nz.Config.{Config, ConfigError, validate}
use nz.State.Model.{
  Error, State, Outcome, User, UserStatus, user_status_eq, MachineStatus, machine_status_eq,
  MachineView, Grant, IdentityData, save_locked,
}
use nz.State.Join.{ensure_admin}
use nz.Server.Model
use nz.Server.Model.{Server, AdminRequest, new}
use nz.Server.Admin.{Done}
use nz.Server.Admin
use nz.Server.Views.{users_view}
use nz.Identity.Stored.{Identity, KeyError, Loaded, loaded, broken, parts, from_parts}
use nz.Daemon.{Daemon, ReloadError, handle_reload, user_salt}
use nz.Node.Model.{Node, Env, Management, start}
use nz.Node.Waiting.{Pause}
use nz.Node.Requests.{RequestError, not_running, Requested, got, failed}
use nz.Node.Requests

-- `ipc.Request`
pub record Request : Type 0 where
  pub command : String
  pub target : String
  pub to : String

pub record Status : Type 0 where
  pub version : String
  pub conn : String
  pub vpn_ip : String
  pub mode : String
  pub port : ℤ
  pub subnet : String
  pub uptime : ℕ
  pub users : ℕ
  pub machines : ℕ
  pub pending : ℕ

pub record Listing : Type 0 where
  pub status : Status
  pub users : List User
  pub machines : List MachineView
  pub grants : List Grant

pub data Problem : Type 0 where
  needs_root : ℕ → Problem
  unknown_command : String → Problem
  kept_config : ReloadError → Problem
  by_node : RequestError → Problem
  by_server : Error → Problem
  remote : String → Problem
  bad_tables : Problem

-- `ipc.Response`; the tables of a list stand for their JSON text, which json.Marshal always gives.
pub data Response : Type 0 where
  ok : Response
  listed : Listing → Response
  denied : Problem → Response

-- The program as it runs. The server, if there is one, holds the configuration and the store of the
-- program as its own, since both are pointers. `active` is the node that runs.
pub record Program : Type 0 where
  pub version : String
  pub cfg : Config
  pub st : State
  pub srv : Option Server
  pub active : Option Node
  pub starts : ℕ
  pub started_at : ℕ

is_some {ℓ} : {A : Type ℓ} → Option A → Bool
is_some none = false
is_some (some _) = true

server_config : Option Server → Option Config
server_config none = none
server_config (some s) = some s.cfg

abbrev pub as_daemon : Program → Daemon
unfolding server_config is_some
as_daemon p = record {
  cfg = p.cfg;
  st = p.st;
  server = server_config p.srv;
  node = is_some p.active;
  starts = p.starts;
}

renewed : Option Config → State → Option Server → Option Server
renewed (some cfg) st (some s) = some (record s { cfg = cfg; st = st })
renewed _ st srv = srv

-- `selfBlocked` outlives a node.
was_blocked : Option Node → Bool
was_blocked none = false
was_blocked (some n) = n.self_blocked

-- `startNode`: the new node takes the place of the one that ran.
restarted : ℕ → Daemon → Option Node → Option Node
unfolding was_blocked start
restarted before d active =
    if d.starts == before then active else some (start d.cfg d.st (was_blocked active))

after_reload : Program → Daemon × Option ReloadError → Program × Response
unfolding renewed restarted
after_reload p (d, failure) = (
  record p {
    cfg = d.cfg;
    st = d.st;
    srv = renewed d.server d.st p.srv;
    active = restarted p.starts d p.active;
    starts = d.starts;
  },
  elim failure [ none ↦ ok | some e ↦ denied (kept_config e) ],
)

self_name : Program → String
self_name p = if p.cfg.mode == "server" then "server" else p.cfg.name

conn_of : Option Node → String × String
conn_of none = ("", "")
conn_of (some n) = (n.conn_state, n.conn_ip)

-- `connStateOf` and `connIPOf`
connection : Program → String × String
unfolding conn_of
connection p = if p.cfg.mode == "node" then conn_of p.active else ("", "")

abbrev is_pending_user : User → Bool
is_pending_user u = u.status == UserStatus.pending

-- Uptime is in whole seconds.
unfoldable pub status_data : ℕ → Program → Status
unfolding connection
status_data now p = record {
  version = p.version;
  conn = (connection p).0;
  vpn_ip = (connection p).1;
  mode = p.cfg.mode;
  port = p.cfg.port;
  subnet = p.cfg.subnet;
  uptime = (now - p.started_at) / 1000000000;
  users = length p.st.users;
  machines = length p.st.machines;
  pending =
      length (keep_if is_pending_user p.st.users)
      + length (keep_if (λ m. m.status == MachineStatus.pending) p.st.machines);
}

abbrev pub base_listing : ℕ → Program → Listing
base_listing now p = record {
  status = status_data now p;
  users = [];
  machines = [];
  grants = p.st.grants;
}

-- What the control socket takes from elsewhere: identity.Verifier, the environments of the server and
-- of the node, the tables in the text of a reply, and the file of the configuration.
pub record World : Type 0 where
  pub verifier : String → List ℕ → List ℕ
  pub server_env : Model.Env
  pub node_env : Env
  pub read_tables : String → Option (List User × List MachineView)
  pub config_file : Option Config

module _ (x : World) (w : Pause) where
  asked : AdminRequest → Option Node → Program → Program × Requested Management
  unfolding Requests.admin_command
  asked r none p = (p, failed not_running)
  asked r (some n) p =
      let (n', answer) = Requests.admin_command x.node_env w r n in
      (record p { active = some n' }, answer)

  -- `node.AdminCommand`, on the active node.
  ask_node : AdminRequest → Program → Program × Requested Management
  unfolding asked
  ask_node r p = asked r p.active p

  tables_listed : Listing → Option (List User × List MachineView) → Response
  tables_listed base none = denied bad_tables
  tables_listed base (some (users, machines)) =
      listed (record base { users = users; machines = machines })

  list_remote : Listing → Requested Management → Response
  unfolding tables_listed
  list_remote base (failed _) = listed base
  list_remote base (got reply) =
      if not reply.ok then listed base else tables_listed base (x.read_tables reply.reply_data)

  -- In server mode there is a server.
  list_local : ℕ → Program → Response
  unfolding users_view
  list_local now p = elim p.srv [
    | none ↦ listed (base_listing now p)
    | some s ↦
        let (users, machines) = users_view p.cfg.admin.name "server" s in
        listed (record (base_listing now p) { users = users; machines = machines })
  ]

  unfoldable pub handle_list : ℕ → Program → Program × Response
  unfolding ask_node list_remote list_local
  handle_list now p =
      if p.cfg.mode == "node"
      then (let (p', answer) = ask_node (record { command = "users"; target = ""; to = "" }) p in
          (p', list_remote (base_listing now p) answer))
      else (p, list_local now p)

  remote_answer : Requested Management → Response
  remote_answer (failed e) = denied (by_node e)
  remote_answer (got reply) = if reply.ok then ok else denied (remote reply.error)

  local_done : Program → Done → Program × Response
  local_done p (s, failure) = (
    record p { st = s.st; srv = some s },
    elim failure [ none ↦ ok | some e ↦ denied (by_server e) ],
  )

  admin_target : Request → Program → String
  unfolding self_name
  admin_target r p = if r.to == "" && r.command == "allow" then self_name p else r.to

  unfoldable pub handle_admin : Request → Program → Program × Response
  unfolding admin_target ask_node remote_answer local_done Admin.admin_command
  handle_admin r p =
      if p.cfg.mode == "node"
      then (let (p', answer) =
            ask_node (record { command = r.command; target = r.target; to = admin_target r p }) p in
          (p', remote_answer answer))
      else elim p.srv [
        | none ↦ (p, ok)
        | some s ↦
            local_done p (Admin.admin_command x.server_env r.command r.target (admin_target r p) s)
      ]

  unfoldable pub handle : ℕ → Request → ℕ → Program → Program × Response
  unfolding after_reload handle_reload handle_list handle_admin
  handle uid r now p =
      if not (r.command == "list") && not (uid == 0)
      then (p, denied (needs_root uid))
      else if r.command == "reload"
      then after_reload p (handle_reload x.verifier x.config_file (as_daemon p))
      else if r.command == "list"
      then handle_list now p
      else if r.command == "allow" || r.command == "deny"
      then handle_admin r p
      else (p, denied (unknown_command r.command))
