-- ===== src/Examples/NodeData.antt =====
-- The nodes and the datagrams of the examples.
use nz.Base.{ℕ, ◌++◌, true, false, List, [], ◌∷◌, none, some}
use nz.Netip.{Addr, v4, AddrPort}
use nz.Config.{Config, defaults}
use nz.Protocol.Envelope.{Envelope}
use nz.Protocol.Signed.{SignedMessage, marshal_signed}
use nz.Protocol.MsgType
use nz.Node.Model.{Node, Env, Peer, start}
use nz.Node.Waiting.{Pause}
use nz.Examples.Data.{zeros, home, remote, aead, sign}

abbrev pub phone_ip : Addr
phone_ip = v4 167772162

abbrev pub laptop_ip : Addr
laptop_ip = v4 167772163

abbrev pub server_at : AddrPort
server_at = record { addr = v4 3232235521; port = 51820 }

-- Every reply of the server reads as the same one, and every signature is accepted.
abbrev pub node_env : Env
node_env = record {
  json = record {
    write_join_request = λ r. 1 ∷ [];
    write_join_proof = λ p. 2 ∷ [];
    write_admin_request = λ r. 3 ∷ [];
    read_challenge = λ body. some (1 ∷ 2 ∷ []);
    read_join_reply = λ body.
        some (record { result = "active"; error = ""; vpn_ip = "10.0.0.3"; server_pub = [] });
    read_approve = λ body. none;
    read_status = λ body. some "blocked";
    read_intro = λ body. none;
    read_peers = λ body. some [];
    read_admin_reply = λ body. none;
  };
  crypto = record {
    hmac = λ key text. 9 ∷ [];
    sign = sign;
    verify = λ key text sig. true;
    shared_key = λ key. some (zeros 32);
    aead = aead;
    verifier = λ password salt. 7 ∷ [];
    blob = zeros 64;
  };
}

abbrev pub node_config : Config
node_config = record defaults {
  mode = "node";
  user = "alice";
  name = "laptop";
  password = "secret";
  domain = "10.1.1.1";
}

-- The phone, as the laptop knows it.
abbrev pub phone_peer : Peer
phone_peer = record {
  sign_pub = zeros 32;
  exch_pub = zeros 32;
  key = zeros 32;
  real_addr = remote;
  can_call = true;
  can_call_back = true;
  direct_ok = true;
  last_seen = 5;
}

-- The laptop after its join.
unfoldable pub laptop_node : Node
unfolding start
laptop_node = record (start node_config home false) {
  connected = true;
  server_addr = server_at;
  vpn_ip = laptop_ip;
  subnet = some (record { addr = 167772160; bits = 24 });
  has_tun = true;
  peers = (phone_ip, phone_peer) ∷ [];
}

abbrev pub nonce : List ℕ
nonce = zeros 24

abbrev pub ping : List ℕ
ping = 0x45 ∷ zeros 19

-- Data from the phone to the laptop.
abbrev pub from_phone : SignedMessage
from_phone = record {
  typ = MsgType.plain_data;
  src_ip = phone_ip;
  dst_ip = laptop_ip;
  payload = nonce ++ ping;
}

unfoldable pub phone_data : Envelope
unfolding marshal_signed
phone_data = record { typ = MsgType.plain_data; body = marshal_signed from_phone sign }

-- A wait during which nothing happens.
abbrev pub quiet : ℕ → Pause
quiet at = record { others = λ n. n; until = at }

abbrev pub stranger : AddrPort
stranger = record { addr = v4 3405803781; port = 9 }

-- A node that takes no signature for a good one.
abbrev pub wary_env : Env
wary_env = record node_env { crypto = record node_env.crypto { verify = λ key text sig. false } }
