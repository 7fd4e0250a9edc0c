-- ===== src/Node/Model.antt =====
-- internal/node/node.go: the node's state, and what it takes from elsewhere.
use nz.Base.{ℕ, String, Bool, false, List, [], ◌∷◌, ◌++◌, Option, none, some}
use nz.Netip.{Addr, invalid, v4, next, AddrPort, Prefix}
use nz.Config.{Config}
use nz.State.Model.{State, ServerAuth}
use nz.Protocol.Envelope.{Envelope, marshal}
use nz.Protocol.Sealed.{Aead}
use nz.Protocol.Answer.{no_endpoint}
use nz.Server.Model.{Datagram, JoinRequest, JoinProof, AdminRequest, PeerInfo, PeerIntro}

-- A `JoinReply` as the node reads it.
pub record Reply : Type 0 where
  pub result : String
  pub error : String
  pub vpn_ip : String
  pub server_pub : List ℕ

-- An `AdminReply` as the node reads it.
pub record Management : Type 0 where
  pub ok : Bool
  pub error : String
  pub reply_data : String

-- What the node uses of encoding/json; `none` is an error, and a field that is missing is the empty text.
pub record Json : Type 0 where
  pub write_join_request : JoinRequest → List ℕ
  pub write_join_proof : JoinProof → List ℕ
  pub write_admin_request : AdminRequest → List ℕ
  pub read_challenge : List ℕ → Option (List ℕ)
  pub read_join_reply : List ℕ → Option Reply
  pub read_approve : List ℕ → Option String
  pub read_status : List ℕ → Option String
  pub read_intro : List ℕ → Option PeerIntro
  pub read_peers : List ℕ → Option (List PeerInfo)
  pub read_admin_reply : List ℕ → Option Management

-- What it uses of the cryptographic packages, with the node's own private keys put in. `verifier` is
-- Argon2id of a password and a salt, and `blob` the node's public keys.
pub record Crypto : Type 0 where
  pub hmac : List ℕ → List ℕ → List ℕ
  pub sign : List ℕ → List ℕ
  pub verify : List ℕ → List ℕ → List ℕ → Bool
  pub shared_key : List ℕ → Option (List ℕ)
  pub aead : Aead
  pub verifier : String → List ℕ → List ℕ
  pub blob : List ℕ

pub record Env : Type 0 where
  pub json : Json
  pub crypto : Crypto

pub record Peer : Type 0 where
  pub sign_pub : List ℕ
  pub exch_pub : List ℕ
  pub key : List ℕ
  pub real_addr : AddrPort
  pub can_call : Bool
  pub can_call_back : Bool
  pub direct_ok : Bool
  pub last_seen : ℕ

-- `pendingPkt`
pub record PendingPacket : Type 0 where
  pub envelope : Envelope
  pub origin : AddrPort

-- A goroutine that a handler starts: `ensurePeerThenFlush`, `ensurePeer` and `punchAddr`.
pub data Task : Type 0 where
  flush refresh : Addr → Task
  punch : AddrPort → Task

-- The channels hold one envelope each. `sent` and `written` are what went out on the socket and on the
-- device, and `started` the goroutines that were started, each oldest first. A peer stands in `peers`
-- itself: a write through the pointer is a write of the entry. `self_blocked`, `conn_state` and
-- `conn_ip` are variables of the package, shared by all nodes of the process.
pub record Node : Type 0 where
  pub cfg : Config
  pub st : State
  pub connected : Bool
  pub server_addr : AddrPort
  pub vpn_ip : Addr
  pub subnet : Option Prefix
  pub has_tun : Bool
  pub peers : List (Addr × Peer)
  pub pending : List (Addr × List PendingPacket)
  pub query_reply : Option Envelope
  pub join_reply : Option Envelope
  pub approve : Option Envelope
  pub list_reply : Option Envelope
  pub admin_reply : Option Envelope
  pub last_server_seen : ℕ
  pub self_blocked : Bool
  pub conn_state : String
  pub conn_ip : String
  pub sent : List Datagram
  pub written : List (List ℕ)
  pub started : List Task

-- The node that `Run` makes.
unfoldable pub start : Config → State → Bool → Node
start cfg st blocked = record {
  cfg = cfg;
  st = st;
  connected = false;
  server_addr = no_endpoint;
  vpn_ip = invalid;
  subnet = none;
  has_tun = false;
  peers = [];
  pending = [];
  query_reply = none;
  join_reply = none;
  approve = none;
  list_reply = none;
  admin_reply = none;
  last_server_seen = 0;
  self_blocked = blocked;
  conn_state = "connecting";
  conn_ip = "";
  sent = [];
  written = [];
  started = [];
}

-- `serverAddrOf`: before the first address is adopted it is the zero Addr.
unfoldable pub server_ip : Node → Addr
unfolding next
server_ip n = elim n.subnet [ none ↦ invalid | some p ↦ next (v4 p.addr) ]

keys_of : Option ServerAuth → List ℕ × List ℕ
keys_of none = ([], [])
keys_of (some auth) = (auth.sign_pub, auth.exch_pub)

unfoldable pub server_keys : Node → List ℕ × List ℕ
unfolding keys_of
server_keys n = keys_of n.st.server_auth

-- A write to the socket, of a marshalled envelope.
unfoldable pub send_to_addr : ℕ → List ℕ → AddrPort → Node → Node
unfolding marshal
send_to_addr typ body addr n = record n {
  sent = n.sent ++ record { to = addr; bytes = marshal (record { typ = typ; body = body }) } ∷ [];
}

-- `sendEnvelope`, and the other writes to the server.
unfoldable pub send_envelope : ℕ → List ℕ → Node → Node
unfolding send_to_addr
send_envelope typ body n = send_to_addr typ body n.server_addr n
