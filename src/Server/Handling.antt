-- ===== src/Server/Handling.antt =====
-- internal/server/server.go and data.go: the dispatch of a datagram, and the management request.
pub mod Laws
pub mod Store
pub mod Passing
use nz.Base.{
  ℕ, String, Bool, true, false, not, ◌&&◌, ◌||◌, List, Option, none, some, ◌==◌, nat_eq, string_eq,
  if◌then◌else◌,
}
use nz.Netip.{AddrPort}
use nz.State.Model.{Machine, MachineStatus, machine_status_eq}
use nz.State.Join.{touch}
use nz.Protocol.Envelope.{Envelope, Parsed, parsed, failed, unmarshal}
use nz.Protocol.Signed.{SignedMessage, SignedParse, signed, too_short, parse_signed}
use nz.Protocol.MsgType
use nz.Server.Model.{Server, Env, AdminRequest, AdminReply, only_admin, command_error}
use nz.Server.Policy.{admin_name}
use nz.Server.Sending.{remember_ip_endpoint, ip_endpoint, server_ip, send_signed}
use nz.Server.Admin.{Done, admin_command}
use nz.Server.Joining.{handle_join_request, handle_join_proof}
use nz.Server.Relay.{verify_machine, relay_data}
use nz.Server.Local.{local_data}
use nz.Server.Queries.{handle_peer_query, handle_machine_list}
use nz.Server.Views.{users_data}

abbrev pub is_data_plane : ℕ → Bool
is_data_plane typ = typ == MsgType.relay_data || typ == MsgType.plain_data

-- The server after a management command, with the reply.
reply_done : Done → Server × AdminReply
reply_done (s, none) = (s, record { ok = true; error = none; reply_data = "" })
reply_done (s, some failure) =
    (s, record { ok = false; error = some (command_error failure); reply_data = "" })

module _ (e : Env) where
  unfoldable pub admin_answer : AdminRequest → Machine → Server → Server × AdminReply
  unfolding reply_done admin_command users_data
  admin_answer r src s =
      if r.command == "users"
      then (s, record { ok = true; error = none; reply_data = users_data e src.user src.name s })
      else if not (src.user == admin_name s)
      then (s, record { ok = false; error = some only_admin; reply_data = "" })
      else reply_done (admin_command e r.command r.target r.to s)

  pub send_admin_reply : SignedMessage → Server × AdminReply → Server
  unfolding send_signed server_ip ip_endpoint
  send_admin_reply m (s, reply) =
      send_signed e
        (record {
          typ = MsgType.admin_rpy;
          src_ip = server_ip s;
          dst_ip = m.src_ip;
          payload = e.json.write_admin_reply reply;
        })
        (ip_endpoint m.src_ip s) s

  unfoldable pub handle_admin_request : SignedMessage → Machine → Server → Server
  unfolding admin_answer send_admin_reply
  handle_admin_request m src s = elim (e.json.read_admin_request m.payload) [
    | none ↦ s
    | some r ↦ send_admin_reply m (admin_answer r src s)
  ]

  answer_keep_alive : SignedMessage → Machine → AddrPort → ℕ → Server → Server
  unfolding send_signed server_ip touch
  answer_keep_alive m src remote now s =
      send_signed e
        (record {
          typ = MsgType.keep_alive;
          src_ip = server_ip s;
          dst_ip = m.src_ip;
          payload = List.[];
        })
        remote (record s { st = touch src.user src.name now s.st })

  -- The switch of `handleSigned`.
  dispatch : Envelope → SignedMessage → Machine → AddrPort → ℕ → Server → Server
  unfolding relay_data local_data handle_peer_query handle_machine_list handle_admin_request
      answer_keep_alive
  dispatch env m src remote now s =
      if env.typ == MsgType.relay_data
      then relay_data m env.body src now s
      else if env.typ == MsgType.plain_data
      then local_data e m src s
      else if env.typ == MsgType.peer_query
      then handle_peer_query e m src remote s
      else if env.typ == MsgType.machine_list
      then handle_machine_list e m src now s
      else if env.typ == MsgType.admin_request
      then handle_admin_request m src s
      else if env.typ == MsgType.keep_alive
      then answer_keep_alive m src remote now s
      else s

  accept : Envelope → SignedMessage → AddrPort → ℕ → Server → Option Machine → Server
  unfolding dispatch remember_ip_endpoint
  accept env m remote now s none = s
  accept env m remote now s (some src) =
      if is_data_plane env.typ && not (src.status == MachineStatus.active)
      then s
      else dispatch env m src remote now (remember_ip_endpoint m.src_ip remote s)

  unfoldable pub handle_signed : Envelope → AddrPort → ℕ → Server → Server
  unfolding accept parse_signed verify_machine
  handle_signed env remote now s = elim (parse_signed env.body) [
    | too_short _ ↦ s
    | signed m sig ↦ accept env m remote now s (verify_machine e m sig s)
  ]

  abbrev pub is_signed_type : ℕ → Bool
  is_signed_type typ =
      typ == MsgType.plain_data
      || typ == MsgType.relay_data
      || typ == MsgType.peer_query
      || typ == MsgType.machine_list
      || typ == MsgType.keep_alive
      || typ == MsgType.admin_request

  unfoldable pub handle : Envelope → AddrPort → ℕ → Option (List ℕ) → Server → Server
  unfolding handle_signed handle_join_request handle_join_proof
  handle env remote now random s =
      if env.typ == MsgType.join_request
      then handle_join_request e env.body remote now random s
      else if env.typ == MsgType.join_proof
      then handle_join_proof e env.body remote now s
      else if is_signed_type env.typ
      then handle_signed env remote now s
      else s

  -- One round of `ServeConn`, on the datagram that was read.
  unfoldable pub serve : List ℕ → AddrPort → ℕ → Option (List ℕ) → Server → Server
  unfolding handle unmarshal
  serve bytes remote now random s = elim (unmarshal bytes) [
    | failed _ ↦ s
    | parsed env ↦ handle env remote now random s
  ]
