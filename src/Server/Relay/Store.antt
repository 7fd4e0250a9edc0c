-- ===== src/Server/Relay/Store.antt =====
-- internal/server/data.go: relayed data and the store.
use nz.Base.{ℕ, ◌≡◌, refl, List, Bool, true, false, arith, Option-cases, inl, inr}
use nz.Netip.{Addr, to_string}
use nz.State.Model.{Machine, find_machine_by_ip}
use nz.Protocol.Signed.{SignedMessage}
use nz.Server.Model.{Server}
use nz.Server.Sending.{send_raw}
use nz.Server.Relay.{
  relay_data, relay_to, forward, forward_reply, note_flow, has_recent_flow, recent_flow,
}

forward-st : (dst : Addr) (raw : List ℕ) (s : Server) → (forward dst raw s).st ≡ s.st
unfolding forward send_raw
forward-st dst raw s = ground arith

forward_reply-st :
    (dst : Addr) (raw : List ℕ) (o : Server × Bool) → (forward_reply dst raw o).st ≡ o.0.st
unfolding forward_reply
forward_reply-st dst raw (s, false) = refl
forward_reply-st dst raw (s, true) = forward-st dst raw s

has_recent_flow-st :
    (src dst : Addr) (now : ℕ) (s : Server) → (has_recent_flow src dst now s).0.st ≡ s.st
unfolding has_recent_flow recent_flow
has_recent_flow-st src dst now s = ground arith

relay_to-st :
    (m : SignedMessage) (raw : List ℕ) (src dst : Machine) (now : ℕ) (s : Server)
    → (relay_to m raw src dst now s).st ≡ s.st
unfolding relay_to note_flow
relay_to-st m raw src dst now s = ground (
  arith,
  forward-st m.dst_ip raw (note_flow m.src_ip m.dst_ip now s),
  forward_reply-st m.dst_ip raw (has_recent_flow m.src_ip m.dst_ip now s),
  has_recent_flow-st m.src_ip m.dst_ip now s,
)

pub relay_data-st :
    (m : SignedMessage) (raw : List ℕ) (src : Machine) (now : ℕ) (s : Server)
    → (relay_data m raw src now s).st ≡ s.st
unfolding relay_data
relay_data-st m raw src now s = elim (Option-cases (find_machine_by_ip (to_string m.dst_ip) s.st)) [
  | inl missing ↦ rw (missing, relay_data) refl
  | inr (dst, found) ↦ rw (found, relay_data) (relay_to-st m raw src dst now s)
]
