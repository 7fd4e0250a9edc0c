-- ===== src/Server/Relay.antt =====
-- internal/server/data.go: the authentication of a signed message, the record of allowed directions,
-- and the relay of data from one machine to another.
pub mod Laws
pub mod Store
pub mod Passing
use Prim.Native.String
use nz.Base.{
  ℕ, ◌*◌, ◌-◌, ◌<◌, String, Bool, true, false, not, List, Option, none, some, if◌then◌else◌, ltb,
  lookup, insert, erase,
}
use nz.Netip.{Addr, AddrPort, is_valid, to_string}
use nz.State.Model.{Machine, MachineStatus, machine_status_eq, find_machine_by_ip}
use nz.Base.{◌==◌, string_eq}
use nz.Protocol.Envelope.{Envelope}
use nz.Protocol.Signed.{SignedMessage, verify_signed}
use nz.Protocol.MsgType
use nz.Server.Model.{Server, Env}
use nz.Server.Policy.{allow_relay, machine_keys}
use nz.Server.Sending.{send_raw, ip_endpoint}

-- `flowTTL`, in nanoseconds.
abbrev pub flow_ttl : ℕ
flow_ttl = 60 * 1000000000

abbrev pub flow_key : Addr → Addr → String
flow_key src dst = String.◌++◌ (to_string src) (String.◌++◌ "->" (to_string dst))

unfoldable pub note_flow : Addr → Addr → ℕ → Server → Server
note_flow src dst now s = record s { flows = insert (flow_key src dst) now s.flows }

recent_flow : String → Option ℕ → ℕ → Server → Server × Bool
unfolding erase
recent_flow key none now s = (s, false)
recent_flow key (some at) now s =
    if ltb flow_ttl (now - at) then (record s { flows = erase key s.flows }, false) else (s, true)

-- An entry that is too old is deleted.
unfoldable pub has_recent_flow : Addr → Addr → ℕ → Server → Server × Bool
unfolding recent_flow lookup
has_recent_flow src dst now s =
    recent_flow (flow_key dst src) (lookup (flow_key dst src) s.flows) now s

-- The last steps of `relayData`: the datagram goes out unchanged.
forward : Addr → List ℕ → Server → Server
unfolding ip_endpoint send_raw
forward dst raw s =
    let addr = ip_endpoint dst s in
    if not (is_valid addr)
    then s
    else send_raw (record { typ = MsgType.relay_data; body = raw }) addr s

forward_reply : Addr → List ℕ → Server × Bool → Server
unfolding forward
forward_reply dst raw (s, false) = s
forward_reply dst raw (s, true) = forward dst raw s

relay_to : SignedMessage → List ℕ → Machine → Machine → ℕ → Server → Server
unfolding allow_relay note_flow has_recent_flow forward forward_reply
relay_to m raw src dst now s =
    if not (dst.status == MachineStatus.active)
    then s
    else if allow_relay s src dst
    then forward m.dst_ip raw (note_flow m.src_ip m.dst_ip now s)
    else forward_reply m.dst_ip raw (has_recent_flow m.src_ip m.dst_ip now s)

unfoldable pub relay_data : SignedMessage → List ℕ → Machine → ℕ → Server → Server
unfolding relay_to
relay_data m raw src now s = elim (find_machine_by_ip (to_string m.dst_ip) s.st) [
  | none ↦ s
  | some dst ↦ relay_to m raw src dst now s
]

module _ (e : Env) where
  unfoldable pub checked_machine : SignedMessage → List ℕ → Machine → Option Machine
  unfolding verify_signed machine_keys
  checked_machine m sig machine =
      if not (verify_signed e.crypto.verify m sig (machine_keys machine).0)
      then none
      else some machine

  unfoldable pub verify_machine : SignedMessage → List ℕ → Server → Option Machine
  unfolding checked_machine to_string
  verify_machine m sig s = elim (find_machine_by_ip (to_string m.src_ip) s.st) [
    | none ↦ none
    | some machine ↦ checked_machine m sig machine
  ]
