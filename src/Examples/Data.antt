-- ===== src/Examples/Data.antt =====
-- The state, the server and the messages of the examples.
use nz.Base.{ℕ, pos, zero, suc, String, true, false, List, [], ◌∷◌, none, some}
use nz.Netip.{v4, AddrPort}
use nz.Config.{Config, defaults}
use nz.State.Model.{State, User, Machine, UserStatus, MachineStatus}
use nz.State.Join.{JoinArgs}
use nz.Protocol.Envelope.{Envelope}
use nz.Protocol.Signed.{SignedMessage, marshal_signed}
use nz.Protocol.Sealed.{Aead}
use nz.Protocol.MsgType
use nz.Server.Model.{Server, Env, JoinProof, new}

unfoldable pub zeros : ℕ → List ℕ
zeros zero = []
zeros (suc n) = 0 ∷ zeros n

-- The base64 text of 64 zero bytes.
abbrev pub zero_key : String
zero_key =
    "AAAAAAAAAAAAAAAAAAAAAAAAAAAAAAAAAAAAAAAAAAAAAAAAAAAAAAAAAAAAAAAAAAAAAAAAAAAAAAAAAAAAAA=="

abbrev pub user_named : String → User
user_named name = record {
  name = name;
  salt = "AA==";
  verifier = "AA==";
  status = UserStatus.active;
  joined_at = 1;
}

abbrev pub machine_at : String → String → String → String → Machine
machine_at user name public ip = record {
  user = user;
  name = name;
  desired_ip = pos 0;
  public = public;
  fingerprint = "";
  vpn_ip = ip;
  status = MachineStatus.active;
  trusted = false;
  last_seen = 0;
  joined_at = 1;
}

abbrev pub phone : Machine
phone = machine_at "alice" "phone" zero_key "10.0.0.2"

abbrev pub laptop : Machine
laptop = machine_at "alice" "laptop" "key-2" "10.0.0.3"

-- Two machines of one user, and a grant to the server.
abbrev pub home : State
home = record {
  identity = none;
  server_auth = none;
  users = user_named "alice" ∷ [];
  machines = phone ∷ laptop ∷ [];
  grants = record { subject = "alice"; target = "server" } ∷ [];
  file = none;
  writes = [];
}

abbrev pub tablet_join : JoinArgs
tablet_join = record {
  user = "alice";
  machine = "tablet";
  public = "key-3";
  fingerprint = "";
  salt = [];
  verifier = [];
  desired = pos 0;
}

abbrev pub server_config : Config
server_config = record defaults {
  mode = "server";
  subnet = "10.0.0.0/24";
  admin = record { name = "root"; password = "secret" };
}

abbrev pub remote : AddrPort
remote = record { addr = v4 3232235777; port = 4000 }

abbrev pub server : Server
server = record (new server_config home) {
  connected = true;
  ip_endpoints = (v4 167772163, remote) ∷ [];
  nonces = ("alice/phone", 1 ∷ 2 ∷ []) ∷ [];
}

-- Data from the phone to the laptop.
abbrev pub to_laptop : SignedMessage
to_laptop = record {
  typ = MsgType.relay_data;
  src_ip = v4 167772162;
  dst_ip = v4 167772163;
  payload = 7 ∷ [];
}

abbrev pub sign : List ℕ → List ℕ
sign _ = zeros 64

unfoldable pub relay_envelope : Envelope
unfolding marshal_signed
relay_envelope = record { typ = MsgType.relay_data; body = marshal_signed to_laptop sign }

abbrev pub phone_proof : JoinProof
phone_proof = record {
  user = "alice";
  machine = "phone";
  public = zeros 64;
  proof = 9 ∷ [];
  desired_ip = pos 0;
}

abbrev pub aead : Aead
aead = record { encrypt = λ key nonce plain. plain; decrypt = λ key nonce cipher. some cipher }

-- A world in which every message is read as the same one and every signature and proof is accepted.
abbrev pub env : Env
env = record {
  json = record {
    read_join_request = λ body. none;
    read_join_proof = λ body. some phone_proof;
    read_admin_request = λ body. some (record { command = "deny"; target = "alice"; to = "" });
    write_join_reply = λ reply. 1 ∷ [];
    write_challenge = λ nonce. nonce;
    write_approve = λ ip. 2 ∷ [];
    write_status = λ status. 3 ∷ [];
    write_admin_reply = λ reply. 4 ∷ [];
    write_peers = λ peers. 5 ∷ [];
    write_intro = λ intro. 6 ∷ [];
    write_users = λ users views. "";
  };
  crypto = record {
    hmac = λ key text. 9 ∷ [];
    sign = sign;
    verify = λ key text sig. true;
    shared_key = λ key. some (zeros 32);
    aead = aead;
    fingerprint = λ blob. "";
    server_blob = [];
  };
}
