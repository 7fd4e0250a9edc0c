-- ===== src/Node/Requests.antt =====
-- internal/node/data.go: AdminCommand and QueryMachines, on behalf of the daemon.
pub mod Soundness
use nz.Base.{ℕ, Bool, not, ◌||◌, List, Option, none, some, if◌then◌else◌}
use nz.Netip.{Addr, is_valid}
use nz.Protocol.Envelope.{Envelope}
use nz.Protocol.Signed.{marshal_signed}
use nz.Protocol.MsgType
use nz.Server.Model.{AdminRequest, PeerInfo}
use nz.Node.Model.{Node, Env, Management, server_ip, send_envelope}
use nz.Node.Waiting.{
  Pause, wait_admin, wait_list, server_auth_failed, FromServer, genuine, forged, unreadable,
  from_server,
}

pub data RequestError : Type 0 where
  not_running not_connected no_reply unread bad_signature : RequestError

-- Go's (value, error).
pub data Requested {ℓ} (A : Type ℓ) : Type ℓ where
  got : A → Requested A
  failed : RequestError → Requested A

-- `addr.IsValid`
abbrev is_set : Addr → Bool
is_set addr = is_valid (record { addr = addr; port = 0 })

module _ {ℓ} {A : Type ℓ} (read : List ℕ → Option A) where
  decoded : Option A → Requested A
  decoded none = failed unread
  decoded (some value) = got value

  taken : FromServer → Node → Node × Requested A
  unfolding decoded
  taken unreadable n = (n, failed unread)
  taken forged n = (server_auth_failed n, failed bad_signature)
  taken (genuine m) n = (n, decoded (read m.payload))

  reply_taken : Env → Node × Option Envelope → Node × Requested A
  unfolding taken from_server
  reply_taken e (n, none) = (n, failed no_reply)
  reply_taken e (n, some env) = taken (from_server e env n) n

module _ (e : Env) where
  ask : ℕ → List ℕ → Node → Node
  unfolding send_envelope marshal_signed server_ip
  ask typ payload n =
      send_envelope typ
        (marshal_signed
          (record { typ = typ; src_ip = n.vpn_ip; dst_ip = server_ip n; payload = payload })
          e.crypto.sign)
        n

  -- On the node that runs, as `activeNode` gives it.
  unfoldable pub admin_command : Pause → AdminRequest → Node → Node × Requested Management
  unfolding ask reply_taken
  admin_command w r n =
      if not n.connected || not (is_set n.vpn_ip)
      then (n, failed not_connected)
      else reply_taken e.json.read_admin_reply e
          (wait_admin w (ask MsgType.admin_request (e.json.write_admin_request r) n))

  unfoldable pub query_machines : Pause → Node → Node × Requested (List PeerInfo)
  unfolding ask reply_taken
  query_machines w n =
      reply_taken e.json.read_peers e (wait_list w (ask MsgType.machine_list List.[] n))
