-- ===== src/Server/Queries.antt =====
-- internal/server/data.go: the discovery request, the introduction to its target, and the machine list.
pub mod Laws
pub mod Store
use nz.Base.{
  ℕ, ◌*◌, ◌-◌, String, Bool, true, false, not, ◌&&◌, ◌||◌, List, [], ◌∷◌, Option, none, some, ◌==◌,
  nat_eq, string_eq, if◌then◌else◌, ltb, map, keep_if,
}
use nz.Netip.{Addr, AddrPort, is_valid, to_string, parse_addr}
use nz.State.Model.{State, Machine, MachineStatus, machine_status_eq, find_machine_by_ip}
use nz.Protocol.Signed.{SignedMessage, target, bad_size, parse_peer_query}
use nz.Protocol.Answer.{PeerAnswer, not_found, no_endpoint, marshal_peer_answer}
use nz.Protocol.MsgType
use nz.Server.Model.{Server, Env, PeerInfo}
use nz.Server.Policy.{admin_name, allow_relay, allow_address_exchange, machine_keys}
use nz.Server.Sending.{ip_endpoint, server_ip, send_signed}

abbrev is_active : Machine → Bool
is_active m = m.status == MachineStatus.active

unfoldable pub active_machines : State → List Machine
active_machines st = keep_if is_active st.machines

-- The endpoint that the answer may carry.
shared_endpoint : Machine → Machine → AddrPort → Server → Option AddrPort
unfolding allow_address_exchange
shared_endpoint src dst addr s =
    if allow_address_exchange s src dst && is_valid addr then some addr else none

or_none : Option AddrPort → AddrPort
or_none none = no_endpoint
or_none (some addr) = addr

has : Option AddrPort → Bool
has none = false
has (some _) = true

-- The answer about a machine that was found.
found_answer : Machine → Machine → Option AddrPort → Server → PeerAnswer
unfolding allow_relay machine_keys or_none has
found_answer src dst shared s = record {
  found = true;
  has_addr = has shared;
  can_call = is_active src && allow_relay s src dst;
  can_call_back = is_active dst && allow_relay s dst src;
  addr = or_none shared;
  sign_pub = (machine_keys dst).0;
  exch_pub = (machine_keys dst).1;
}

unfoldable pub peer_answer : Machine → Addr → Server → PeerAnswer
unfolding found_answer shared_endpoint to_string ip_endpoint
peer_answer src ip s = elim (find_machine_by_ip (to_string ip) s.st) [
  | none ↦ not_found
  | some dst ↦
      if not (is_active dst)
      then not_found
      else found_answer src dst (shared_endpoint src dst (ip_endpoint ip s) s) s
]

-- `LastSeen` is the zero time before the first sign of life.
unfoldable pub presence : Machine → ℕ → String
presence m now =
    if m.last_seen == 0
    then "unknown"
    else if ltb (now - m.last_seen) (15 * 1000000000)
    then "online"
    else "offline"

unfoldable pub server_row : Server → PeerInfo
unfolding server_ip to_string
server_row s = record {
  user = admin_name s;
  machine = "server";
  vpn_ip = to_string (server_ip s);
  sign_pub = [];
  exch_pub = [];
  trusted = true;
  status = "online";
  self = false;
  can_call = false;
  can_call_back = false;
}

unfoldable pub peer_row : SignedMessage → Machine → ℕ → Server → Machine → PeerInfo
unfolding allow_relay machine_keys presence to_string
peer_row m src now s other = record {
  user = other.user;
  machine = other.name;
  vpn_ip = other.vpn_ip;
  sign_pub = (machine_keys other).0;
  exch_pub = (machine_keys other).1;
  trusted = other.trusted || other.user == admin_name s;
  status = presence other now;
  self = other.vpn_ip == to_string m.src_ip;
  can_call = allow_relay s src other;
  can_call_back = allow_relay s other src;
}

unfoldable pub peer_list : SignedMessage → Machine → ℕ → Server → List PeerInfo
unfolding server_row peer_row active_machines allow_relay
peer_list m src now s =
    server_row s ∷ map (peer_row m src now s) (keep_if (allow_relay s src) (active_machines s.st))

module _ (e : Env) where
  intro_to : Addr → Machine → AddrPort → Server → Server
  unfolding send_signed server_ip ip_endpoint
  intro_to ip src remote s =
      send_signed e
        (record {
          typ = MsgType.peer_intro;
          src_ip = server_ip s;
          dst_ip = ip;
          payload = e.json.write_intro (record { vpn_ip = src.vpn_ip; addr = remote });
        })
        (ip_endpoint ip s) s

  -- `MustParseAddr` panics on a text that is no address. The target was found by the text of an
  -- address, so that branch is not taken.
  unfoldable pub send_peer_intro : Machine → Machine → AddrPort → Server → Server
  unfolding intro_to parse_addr
  send_peer_intro src dst remote s = elim (parse_addr dst.vpn_ip) [
    | none ↦ s
    | some ip ↦ intro_to ip src remote s
  ]

  introduce : PeerAnswer → Addr → Machine → AddrPort → Server → Server
  unfolding send_peer_intro to_string
  introduce answer ip src remote s =
      if not answer.has_addr then s else elim (find_machine_by_ip (to_string ip) s.st) [
        | none ↦ s
        | some dst ↦ send_peer_intro src dst remote s
      ]

  answer_query : SignedMessage → Addr → Machine → AddrPort → Server → Server
  unfolding peer_answer introduce marshal_peer_answer send_signed server_ip ip_endpoint
  answer_query m ip src remote s =
      let answer = peer_answer src ip s in
      introduce answer ip src remote (
        send_signed e
          (record {
            typ = MsgType.peer_query_rpy;
            src_ip = server_ip s;
            dst_ip = m.src_ip;
            payload = marshal_peer_answer answer;
          })
          (ip_endpoint m.src_ip s) s)

  unfoldable pub handle_peer_query : SignedMessage → Machine → AddrPort → Server → Server
  unfolding answer_query parse_peer_query
  handle_peer_query m src remote s = elim (parse_peer_query m.payload) [
    | bad_size _ ↦ s
    | target ip ↦ answer_query m ip src remote s
  ]

  unfoldable pub handle_machine_list : SignedMessage → Machine → ℕ → Server → Server
  unfolding peer_list send_signed server_ip ip_endpoint
  handle_machine_list m src now s =
      send_signed e
        (record {
          typ = MsgType.machine_list_rpy;
          src_ip = server_ip s;
          dst_ip = m.src_ip;
          payload = e.json.write_peers (peer_list m src now s);
        })
        (ip_endpoint m.src_ip s) s
