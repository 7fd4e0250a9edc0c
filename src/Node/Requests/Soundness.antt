-- ===== src/Node/Requests/Soundness.antt =====
-- internal/node/data.go: the bounds of a node around the requests of the daemon.
use nz.Base.{refl, ℕ, not, ◌||◌, List, Option, none, some, if_both}
use nz.Protocol.Envelope.{Envelope}
use nz.Server.Model.{AdminRequest}
use nz.Protocol.MsgType
use nz.Node.Model.{Node, Env, Management, send_envelope, send_to_addr}
use nz.Node.Waiting.{
  Pause, wait_admin, wait_list, FromServer, genuine, forged, unreadable, from_server,
}
use nz.Node.Requests.{Requested, taken, reply_taken, ask, is_set, admin_command, query_machines}
use nz.Node.Sound.{IsSound, carry, KeepsSound, wait_admin-IsSound, wait_list-IsSound}

module _ {ℓ} {A : Type ℓ} (read : List ℕ → Option A) where
  taken-IsSound : (r : FromServer) (n : Node) → IsSound n → IsSound (taken read r n).0
  unfolding taken
  taken-IsSound unreadable n h = h
  taken-IsSound forged n h = carry refl refl refl refl h
  taken-IsSound (genuine m) n h = h

  reply_taken-IsSound :
      (e : Env) (r : Node × Option Envelope) → IsSound r.0 → IsSound (reply_taken read e r).0
  unfolding reply_taken
  reply_taken-IsSound e (n, none) h = h
  reply_taken-IsSound e (n, some env) h = taken-IsSound (from_server e env n) n h

module _ (e : Env) (w : Pause) (k : KeepsSound w.others) where
  ask-IsSound : (typ : ℕ) (payload : List ℕ) (n : Node) → IsSound n → IsSound (ask e typ payload n)
  unfolding ask send_envelope send_to_addr
  ask-IsSound typ payload n h = carry refl refl refl refl h

  pub admin_command-IsSound :
      (r : AdminRequest) (n : Node) → IsSound n → IsSound (admin_command e w r n).0
  unfolding admin_command
  admin_command-IsSound r n h =
      if_both (λ (t : Node × Requested Management). IsSound t.0)
        (not n.connected || not (is_set n.vpn_ip)) _ _ h
        (reply_taken-IsSound e.json.read_admin_reply e
          (wait_admin w (ask e MsgType.admin_request (e.json.write_admin_request r) n))
          (wait_admin-IsSound w k _
            (ask-IsSound MsgType.admin_request (e.json.write_admin_request r) n h)))

  pub query_machines-IsSound : (n : Node) → IsSound n → IsSound (query_machines e w n).0
  unfolding query_machines
  query_machines-IsSound n h =
      reply_taken-IsSound e.json.read_peers e (wait_list w (ask e MsgType.machine_list List.[] n))
        (wait_list-IsSound w k _ (ask-IsSound MsgType.machine_list List.[] n h))
