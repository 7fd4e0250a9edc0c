-- ===== src/Server/Relay/Laws.antt =====
-- internal/server/data.go: what a datagram needs to be relayed, and how long a reply may pass.
use nz.Base.{
  ℕ, ◌-◌, ◌≤◌, ◌≡◌, ◌↔◌, ◌⊎◌, inl, inr, refl, true, arith, List, [], ◌∷◌, ◌++◌, some, ◌==◌,
  string_eq, eq_iff, lookup-insert, Bool-cases, Option-cases,
}
use nz.Netip.{Addr, to_string}
use nz.State.Model.{
  Machine, MachineStatus, machine_status_eq, machine_status_beq_iff, find_machine_by_ip,
}
use nz.Protocol.Envelope.{marshal}
use nz.Protocol.Signed.{SignedMessage}
use nz.Protocol.MsgType
use nz.Server.Model.{Server, Datagram}
use nz.Server.Policy.{allow_relay}
use nz.Server.Sending.{ip_endpoint, send_raw}
use nz.Server.Relay.{
  flow_ttl, flow_key, note_flow, has_recent_flow, recent_flow, relay_data, relay_to, forward,
  forward_reply,
}

-- After traffic from src to dst is let through, a reply from dst to src counts as one for as long as
-- `flowTTL`, and not later.
pub has_recent_flow-note_flow :
    (src dst : Addr) (at now : ℕ) (s : Server)
    → ((has_recent_flow dst src now (note_flow src dst at s)).1 ≡ true) ↔ (now - at ≤ flow_ttl)
unfolding has_recent_flow note_flow recent_flow
has_recent_flow-note_flow src dst at now s = ground (
  arith,
  lookup-insert (flow_key src dst) (flow_key src dst) at s.flows,
  eq_iff (flow_key src dst) (flow_key src dst),
)

-- What `relayData` does with a datagram that it lets pass.
pub record Passed (m : SignedMessage) (raw : List ℕ) (src : Machine) (now : ℕ) (s t : Server)
    : Type 0 where
  pub dst : Machine
  pub found : find_machine_by_ip (to_string m.dst_ip) s.st ≡ some dst
  pub active : dst.status ≡ MachineStatus.active
  pub permitted :
      (allow_relay s src dst ≡ true) ⊎ ((has_recent_flow m.src_ip m.dst_ip now s).1 ≡ true)
  pub sent_on :
      t.sent
      ≡ s.sent
        ++ record {
          to = ip_endpoint m.dst_ip s;
          bytes = marshal (record { typ = MsgType.relay_data; body = raw });
        }
          ∷ []

abbrev passed_on : SignedMessage → List ℕ → Server → Datagram
passed_on m raw s = record {
  to = ip_endpoint m.dst_ip s;
  bytes = marshal (record { typ = MsgType.relay_data; body = raw });
}

module _ (m : SignedMessage) (raw : List ℕ) (src dst : Machine) (now : ℕ) (s : Server) where
  pack :
      (t : Server)
      → find_machine_by_ip (to_string m.dst_ip) s.st ≡ some dst
      → dst.status ≡ MachineStatus.active
      → (allow_relay s src dst ≡ true) ⊎ ((has_recent_flow m.src_ip m.dst_ip now s).1 ≡ true)
      → (t.sent ≡ s.sent) ⊎ (t.sent ≡ s.sent ++ passed_on m raw s ∷ [])
      → (t.sent ≡ s.sent) ⊎ Passed m raw src now s t
  pack t found active permitted (inl e) = inl e
  pack t found active permitted (inr e) =
      inr (record { dst = dst; found = found; active = active; permitted = permitted; sent_on = e })

  -- The look at the flows writes nothing and leaves the endpoints.
  has_recent_flow_keeps :
      ((has_recent_flow m.src_ip m.dst_ip now s).0.sent ≡ s.sent)
      × ((has_recent_flow m.src_ip m.dst_ip now s).0.ip_endpoints ≡ s.ip_endpoints)
  unfolding has_recent_flow recent_flow
  has_recent_flow_keeps = ground arith

  forward-note_flow :
      (let t = forward m.dst_ip raw (note_flow m.src_ip m.dst_ip now s) in
        (t.sent ≡ s.sent) ⊎ (t.sent ≡ s.sent ++ passed_on m raw s ∷ []))
  unfolding note_flow forward send_raw ip_endpoint
  forward-note_flow = ground arith

  forward_reply_sent :
      (let t = forward_reply m.dst_ip raw (has_recent_flow m.src_ip m.dst_ip now s) in
        (t.sent ≡ s.sent)
        ⊎ ((t.sent ≡ s.sent ++ passed_on m raw s ∷ [])
            × ((has_recent_flow m.src_ip m.dst_ip now s).1 ≡ true)))
  unfolding forward_reply forward has_recent_flow recent_flow send_raw ip_endpoint
  forward_reply_sent = ground arith

  relay_to_sent :
      find_machine_by_ip (to_string m.dst_ip) s.st ≡ some dst
      → ((relay_to m raw src dst now s).sent ≡ s.sent)
        ⊎ Passed m raw src now s (relay_to m raw src dst now s)
  unfolding relay_to ip_endpoint marshal
  relay_to_sent found = elim (Bool-cases (dst.status == MachineStatus.active)) [
    | inr miss ↦ inl (rw miss refl)
    | inl hit ↦ elim (Bool-cases (allow_relay s src dst)) [
      | inl may ↦
          pack _ found ((machine_status_beq_iff dst.status MachineStatus.active).0 hit) (inl may)
            (rw (hit, may) forward-note_flow)
      | inr may_not ↦ elim forward_reply_sent [
        | inl e ↦ inl (rw (hit, may_not) e)
        | inr (e, recent) ↦
            pack _ found ((machine_status_beq_iff dst.status MachineStatus.active).0 hit)
              (inr recent) (inr (rw (hit, may_not) e))
      ]
    ]
  ]

-- A relayed datagram goes out unchanged, to one endpoint only, and only if the machine registered for
-- its destination is active and either the sender may call that machine, or a flow from the destination
-- to the source is on record and not older than a minute. Otherwise nothing is written.
pub relay_data-Passed :
    (m : SignedMessage) (raw : List ℕ) (src : Machine) (now : ℕ) (s : Server)
    → ((relay_data m raw src now s).sent ≡ s.sent)
      ⊎ Passed m raw src now s (relay_data m raw src now s)
unfolding relay_data
relay_data-Passed m raw src now s =
    elim (Option-cases (find_machine_by_ip (to_string m.dst_ip) s.st)) [
      | inl e ↦ inl (rw (e, relay_data) refl)
      | inr (dst, e) ↦ rw (e, relay_data) (relay_to_sent m raw src dst now s e)
    ]
