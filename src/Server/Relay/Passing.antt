-- ===== src/Server/Relay/Passing.antt =====
-- internal/server/data.go: a datagram on its way through the server.
use nz.Base.{
  ℕ, ◌≡◌, ap, ◌∙◌, true, false, not, arith, List, [], ◌∷◌, ◌++◌, none, some, ◌==◌, if_false,
  lookup-insert,
}
use nz.Netip.{addr_eq, AddrPort, is_valid, to_string}
use nz.State.Model.{Machine, MachineStatus, machine_status_eq, find_machine_by_ip}
use nz.Protocol.Envelope.{marshal}
use nz.Protocol.Signed.{SignedMessage, verify_signed}
use nz.Protocol.MsgType
use nz.Server.Model.{Server, Env}
use nz.Server.Policy.{allow_relay, machine_keys}
use nz.Server.Sending.{ip_endpoint, send_raw, remember_ip_endpoint}
use nz.Server.Relay.{relay_data, relay_to, forward, note_flow, verify_machine, checked_machine}

-- The two machines that a message names, active, the target with a known endpoint, and the sender
-- allowed to call it.
pub record CanRelay (m : SignedMessage) (src dst : Machine) (s : Server) : Type 0 where
  pub connected : s.connected ≡ true
  pub sender : find_machine_by_ip (to_string m.src_ip) s.st ≡ some src
  pub target : find_machine_by_ip (to_string m.dst_ip) s.st ≡ some dst
  pub sender_active : (src.status == MachineStatus.active) ≡ true
  pub target_active : (dst.status == MachineStatus.active) ≡ true
  pub allowed : allow_relay s src dst ≡ true
  pub reachable : is_valid (ip_endpoint m.dst_ip s) ≡ true

module _ (m : SignedMessage) (src dst : Machine) (s : Server) (c : CanRelay m src dst s) where
  pub verify_machine-sender :
      (e : Env) (sig : List ℕ)
      → verify_signed e.crypto.verify m sig (machine_keys src).0 ≡ true
      → verify_machine e m sig s ≡ some src
  unfolding verify_machine checked_machine
  verify_machine-sender e sig good =
      ap (λ o. elim o [ none ↦ none | some machine ↦ checked_machine e m sig machine ]) c.sender
      ∙ if_false _ _ _ (ap not good)

  -- The endpoint from which the sender wrote is remembered first.
  pub relay_data-passes :
      (raw : List ℕ) (remote : AddrPort) (now : ℕ)
      → (m.src_ip == m.dst_ip) ≡ false
      → (relay_data m raw src now (remember_ip_endpoint m.src_ip remote s)).sent
        ≡ s.sent
          ++ record {
            to = ip_endpoint m.dst_ip s;
            bytes = marshal (record { typ = MsgType.relay_data; body = raw });
          }
            ∷ []
  unfolding relay_data relay_to forward note_flow send_raw ip_endpoint remember_ip_endpoint
      allow_relay
  relay_data-passes raw remote now apart = ground (
    arith,
    c.connected,
    c.target,
    c.target_active,
    c.allowed,
    c.reachable,
    apart,
    lookup-insert m.src_ip m.dst_ip remote s.ip_endpoints,
  )
