-- ===== src/Server/Model.antt =====
-- internal/server/server.go and data.go: the server's state, and what it takes from elsewhere.
use nz.Base.{ℕ, ℤ, Bool, String, List, [], Option}
use nz.Netip.{Addr, AddrPort}
use nz.Config.{Config}
use nz.State.Model.{State, User, MachineStatus, MachineView, Error}
use nz.Protocol.Sealed.{Aead}

pub record JoinRequest : Type 0 where
  pub user : String
  pub machine : String
  pub public : List ℕ
  pub salt : List ℕ
  pub verifier : List ℕ
  pub desired_ip : ℤ

pub record JoinProof : Type 0 where
  pub user : String
  pub machine : String
  pub public : List ℕ
  pub proof : List ℕ
  pub desired_ip : ℤ

-- The error texts of a join reply.
pub data JoinError : Type 0 where
  parts_required unknown_user no_challenge proof_failed : JoinError
  store_error : Error → JoinError

pub record JoinReply : Type 0 where
  pub result : String
  pub error : Option JoinError
  pub vpn_ip : String
  pub server_pub : List ℕ

pub record AdminRequest : Type 0 where
  pub command : String
  pub target : String
  pub to : String

-- The error texts of a reply to a management request.
pub data AdminError : Type 0 where
  only_admin : AdminError
  command_error : Error → AdminError

pub record AdminReply : Type 0 where
  pub ok : Bool
  pub error : Option AdminError
  pub reply_data : String

pub record PeerInfo : Type 0 where
  pub user : String
  pub machine : String
  pub vpn_ip : String
  pub sign_pub : List ℕ
  pub exch_pub : List ℕ
  pub trusted : Bool
  pub status : String
  pub self : Bool
  pub can_call : Bool
  pub can_call_back : Bool

pub record PeerIntro : Type 0 where
  pub vpn_ip : String
  pub addr : AddrPort

-- What the server uses of encoding/json.
pub record Json : Type 0 where
  pub read_join_request : List ℕ → Option JoinRequest
  pub read_join_proof : List ℕ → Option JoinProof
  pub read_admin_request : List ℕ → Option AdminRequest
  pub write_join_reply : JoinReply → List ℕ
  pub write_challenge : List ℕ → List ℕ
  pub write_approve : String → List ℕ
  pub write_status : MachineStatus → List ℕ
  pub write_admin_reply : AdminReply → List ℕ
  pub write_peers : List PeerInfo → List ℕ
  pub write_intro : PeerIntro → List ℕ
  pub write_users : List User → List MachineView → String

-- What it uses of the cryptographic packages, with the server's own private keys put in: HMAC-SHA256,
-- ed25519 signing and verification, ECDH with HKDF, the payload cipher, and the fingerprint of a blob.
pub record Crypto : Type 0 where
  pub hmac : List ℕ → List ℕ → List ℕ
  pub sign : List ℕ → List ℕ
  pub verify : List ℕ → List ℕ → List ℕ → Bool
  pub shared_key : List ℕ → Option (List ℕ)
  pub aead : Aead
  pub fingerprint : List ℕ → String
  pub server_blob : List ℕ

pub record Env : Type 0 where
  pub json : Json
  pub crypto : Crypto

-- A datagram that was written to the socket.
pub record Datagram : Type 0 where
  pub to : AddrPort
  pub bytes : List ℕ

-- `connected` and `has_tun` say that the socket and the local device are there; `sent` and `written`
-- are what went out on them, oldest first. A map is an association list.
pub record Server : Type 0 where
  pub cfg : Config
  pub st : State
  pub connected : Bool
  pub has_tun : Bool
  pub nonces : List (String × List ℕ)
  pub endpoints : List (String × AddrPort)
  pub ip_endpoints : List (Addr × AddrPort)
  pub flows : List (String × ℕ)
  pub sent : List Datagram
  pub written : List (List ℕ)

-- `New`, with no socket and no device yet.
unfoldable pub new : Config → State → Server
new cfg st = record {
  cfg = cfg;
  st = st;
  connected = Bool.false;
  has_tun = Bool.false;
  nonces = [];
  endpoints = [];
  ip_endpoints = [];
  flows = [];
  sent = [];
  written = [];
}
