-- ===== src/Server/Views.antt =====
-- internal/server/server.go: UsersView and UsersData, the tables that a machine may see.
pub mod Laws
use nz.Base.{
  ℕ, String, Bool, true, false, ◌&&◌, List, [], ◌∷◌, ◌==◌, string_eq, if◌then◌else◌, map, keep_if,
}
use nz.Netip.{to_string}
use nz.State.Model.{User, Machine, MachineView}
use nz.Server.Model.{Server, Env}
use nz.Server.Policy.{admin_name, server_machine}
use nz.Server.Sending.{server_ip}

server_view : String → String → Server → MachineView
unfolding server_ip to_string
server_view self_user self_machine s = record {
  machine = record (server_machine s) { vpn_ip = to_string (server_ip s); trusted = true };
  self = self_machine == "server" && self_user == admin_name s;
}

machine_row : String → String → Server → Machine → MachineView
machine_row self_user self_machine s m = record {
  machine = if m.user == admin_name s then record m { trusted = true } else m;
  self = m.user == self_user && m.name == self_machine;
}

-- `machineViewLocked`
unfoldable pub machine_views : String → String → Server → List MachineView
unfolding server_view machine_row
machine_views self_user self_machine s =
    server_view self_user self_machine s ∷ map (machine_row self_user self_machine s) s.st.machines

unfoldable pub users_view : String → String → Server → List User × List MachineView
unfolding machine_views
users_view self_user self_machine s =
    if self_user == admin_name s then (s.st.users, machine_views self_user self_machine s) else (
      keep_if (λ u. u.name == self_user) s.st.users,
      keep_if (λ v. v.machine.user == self_user) (machine_views self_user self_machine s),
    )

-- `json.Marshal` of these tables does not fail.
unfoldable pub users_data : Env → String → String → Server → String
unfolding users_view
users_data e self_user self_machine s =
    let (users, views) = users_view self_user self_machine s in e.json.write_users users views
