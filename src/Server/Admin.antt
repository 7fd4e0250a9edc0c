-- ===== src/Server/Admin.antt =====
-- internal/server/server.go: AdminCommand with allow, deny and what follows an approval.
pub mod Store
use nz.Base.{String, not, List, [], ◌∷◌, Option, none, some, ◌==◌, string_eq, if◌then◌else◌, lookup}
use nz.Netip.{AddrPort, is_valid, parse_addr, invalid}
use nz.State.Model.{
  State, Machine, UserStatus, MachineStatus, Outcome, Error, find_user, find_machine,
  user_not_found, machine_not_found, unknown_command,
}
use nz.State.Target.{target, bad_target, parse_target}
use nz.State.Roster
use nz.State.Grants.{grant, revoke, grants_of, subject_of}
use nz.State.Join.{set_machine_ip}
use nz.State.Alloc.{Allocated, allocated, refused, allocate_ip}
use nz.Protocol.Signed.{marshal_signed}
use nz.Protocol.MsgType
use nz.Server.Model.{Server, Env}
use nz.Server.Sending.{
  join_key, send_raw, send_envelope, remember_ip_endpoint, ip_endpoint, server_ip,
}

-- The server after a step, with Go's `error`.
abbrev pub Done : Type 0
Done = Server × Option Error

-- An operation of the store, made on the server's store.
abbrev pub on_store : (State → Outcome) → Server → Done
on_store f s = let (st, failure) = f s.st in (record s { st = st }, failure)

infixl 5 ◌>>=◌
abbrev pub ◌>>=◌ : Done → (Server → Done) → Done
◌>>=◌ (s, none) k = k s
◌>>=◌ (s, some failure) k = (s, some failure)

abbrev pub deny_subject : String → String → String
deny_subject user machine = if machine == "" then user else subject_of user machine

module _ (e : Env) where
  push_approval : Option AddrPort → Machine → Server → Server
  unfolding send_envelope remember_ip_endpoint parse_addr
  push_approval none m s = s
  push_approval (some addr) m s =
      let s' = send_envelope addr MsgType.approve_notify (e.json.write_approve m.vpn_ip) s in
      elim (parse_addr m.vpn_ip) [ none ↦ s' | some ip ↦ remember_ip_endpoint ip addr s' ]

  unfoldable pub notify_approve : String → String → Server → Server
  unfolding push_approval lookup
  notify_approve user machine s = elim (find_machine user machine s.st) [
    | none ↦ s
    | some m ↦
        if m.vpn_ip == "" then s else push_approval (lookup (join_key user machine) s.endpoints) m s
  ]

  bind_allocated : String → String → Allocated → Server → Done
  unfolding set_machine_ip
  bind_allocated user machine (refused failure) s = (s, some failure)
  bind_allocated user machine (allocated ip) s = on_store (set_machine_ip user machine ip) s

  unfoldable pub approve_machine : String → String → Server → Done
  unfolding bind_allocated notify_approve allocate_ip
  approve_machine user machine s = elim (find_machine user machine s.st) [
    | none ↦ (s, none)
    | some m ↦
        (if m.vpn_ip == ""
          then bind_allocated user machine (allocate_ip s.cfg.subnet m.desired_ip s.st) s
          else (s, none))
        >>= λ s'. (notify_approve user machine s', none)
  ]

  allow_user_by : UserStatus → String → String → Server → Done
  allow_user_by UserStatus.pending user to = on_store (Roster.allow user "")
  allow_user_by UserStatus.blocked user to = on_store (Roster.unblock user "")
  allow_user_by UserStatus.active user to = on_store (grant user to)

  allow_machine_by : MachineStatus → String → String → String → Server → Done
  unfolding approve_machine
  allow_machine_by MachineStatus.pending user machine to s =
      on_store (Roster.allow user machine) s >>= approve_machine user machine
  allow_machine_by MachineStatus.blocked user machine to s =
      on_store (Roster.unblock user machine) s
  allow_machine_by MachineStatus.active user machine to s =
      on_store (grant (subject_of user machine) to) s

  unfoldable pub allow : String → String → String → Server → Done
  unfolding allow_user_by allow_machine_by
  allow user machine to s =
      if machine == ""
      then elim (find_user user s.st) [
        | none ↦ (s, some (user_not_found user))
        | some u ↦ allow_user_by u.status user to s
      ]
      else elim (find_machine user machine s.st) [
        | none ↦ (s, some (machine_not_found user machine))
        | some m ↦ allow_machine_by m.status user machine to s
      ]

  -- The loop over `GrantsOf`.
  revoke_each : String → List String → Server → Done
  unfolding revoke
  revoke_each subject [] s = (s, none)
  revoke_each subject (g ∷ gs) s = on_store (revoke subject g) s >>= revoke_each subject gs

  deny_user_by : UserStatus → String → Server → Done
  deny_user_by UserStatus.pending user s = on_store (Roster.deny user "") s
  deny_user_by UserStatus.blocked user s = (s, none)
  deny_user_by UserStatus.active user s = on_store (Roster.block user "") s

  deny_machine_by : MachineStatus → String → String → Server → Done
  deny_machine_by MachineStatus.pending user machine s = on_store (Roster.deny user machine) s
  deny_machine_by MachineStatus.blocked user machine s = (s, none)
  deny_machine_by MachineStatus.active user machine s = on_store (Roster.block user machine) s

  -- What `deny` does once the grants are gone.
  deny_target : String → String → Server → Done
  unfolding deny_user_by deny_machine_by
  deny_target user machine s =
      if machine == ""
      then elim (find_user user s.st) [
        | none ↦ (s, some (user_not_found user))
        | some u ↦ deny_user_by u.status user s
      ]
      else elim (find_machine user machine s.st) [
        | none ↦ (s, some (machine_not_found user machine))
        | some m ↦ deny_machine_by m.status user machine s
      ]

  unfoldable pub deny : String → String → String → Server → Done
  unfolding revoke_each deny_target grants_of
  deny user machine to s =
      let subject = deny_subject user machine in
      if to == ""
      then revoke_each subject (grants_of subject s.st) s >>= deny_target user machine
      else on_store (revoke subject to) s

  -- The message to one machine: its own status, signed by the server.
  tell_policy : Machine → Server → Server
  unfolding send_raw marshal_signed ip_endpoint server_ip parse_addr
  tell_policy m s = elim (parse_addr m.vpn_ip) [
    | none ↦ s
    | some ip ↦
        let addr = ip_endpoint ip s in
        if not (is_valid addr)
        then s
        else send_raw
            (record {
              typ = MsgType.policy_changed;
              body =
                  marshal_signed
                    (record {
                      typ = MsgType.policy_changed;
                      src_ip = server_ip s;
                      dst_ip = invalid;
                      payload = e.json.write_status m.status;
                    })
                    e.crypto.sign;
            })
            addr s
  ]

  tell_each : List Machine → Server → Server
  unfolding tell_policy
  tell_each [] s = s
  tell_each (m ∷ ms) s = tell_each ms (tell_policy m s)

  unfoldable pub broadcast_policy_changed : Server → Server
  unfolding tell_each
  broadcast_policy_changed s = tell_each s.st.machines s

  unfoldable pub run_command : String → String → String → String → Server → Done
  unfolding allow deny broadcast_policy_changed
  run_command command user machine to s =
      (if command == "allow"
        then allow user machine to s
        else if command == "deny"
        then deny user machine to s
        else (s, some (unknown_command command)))
      >>= λ s'. (broadcast_policy_changed s', none)

  unfoldable pub admin_command : String → String → String → Server → Done
  unfolding run_command parse_target
  admin_command command subject to s = elim (parse_target subject) [
    | bad_target failure ↦ (s, some failure)
    | target user machine ↦ run_command command user machine to s
  ]
