-- ===== src/Node/Incoming/Delivery.antt =====
-- internal/node/data.go: a packet on its way to the device.
use nz.Base.{
  ℕ, ◌<◌, ◌^◌, ◌≡◌, ap, ◌∙◌, true, false, not, ◌&&◌, ◌||◌, arith, List, [], ◌∷◌, ◌++◌, some, ◌==◌,
  nat_eq, length, if_false,
}
use nz.Netip.{addr_eq, AddrPort}
use nz.Protocol.Envelope.{Envelope, Parsed, parsed, failed, marshal}
use nz.Protocol.Envelope.RoundTrip.{unmarshal-marshal}
use nz.Protocol.Signed.{SignedMessage, signed, parse_signed, verify_signed}
use nz.Protocol.Sealed.{sealed, unseal}
use nz.Protocol.MsgType
use nz.Node.Packets.{is_reply_packet}
use nz.Node.Model.{Node, Env, Peer}
use nz.Node.Peers.{lookup_peer}
use nz.Node.Incoming.{
  handle_data, received, receive, check_packet, accept_packet, note_origin, dispatch, read_udp,
}
use nz.Node.Incoming.Laws.{note_origin_keeps}

module _ (e : Env) (body : List ℕ) (from : AddrPort) (now : ℕ) (m : SignedMessage)
    (sig plain : List ℕ) (p : Peer) (read : parse_signed body ≡ signed m sig)
    (good : verify_signed e.crypto.verify m sig p.sign_pub ≡ true)
    (opened : unseal e.crypto.aead p.key m.payload ≡ sealed plain)
    (may : p.can_call_back ≡ true) where
  abbrev relayed : Envelope
  relayed = record { typ = MsgType.relay_data; body = body }

  checked :
      (n : Node)
      → (m.src_ip == n.vpn_ip) ≡ false
      → (m.dst_ip == n.vpn_ip) ≡ true
      → (check_packet e m sig p n).written ≡ n.written ++ plain ∷ []
  unfolding check_packet accept_packet
  checked n foreign ours =
      ap (λ (t : Node). t.written)
        (if_false _ _ _ (ap not good)
          ∙ if_false (m.src_ip == n.vpn_ip || not (m.dst_ip == n.vpn_ip)) _ _
              (ground (arith, foreign, ours))
          ∙ ap (λ r. accept_packet e m.src_ip p r n) opened
          ∙ if_false (not p.can_call_back && not (is_reply_packet plain)) _ _ (ground (arith, may)))

  handled :
      (n : Node)
      → n.self_blocked ≡ false
      → lookup_peer m.src_ip n ≡ some p
      → (m.src_ip == n.vpn_ip) ≡ false
      → (m.dst_ip == n.vpn_ip) ≡ true
      → (handle_data e relayed from now n).written ≡ n.written ++ plain ∷ []
  unfolding handle_data received receive
  handled n listening known foreign ours =
      let kept = note_origin_keeps m.src_ip from now p n in
      ap (λ (t : Node). t.written)
        (if_false _ _ _ listening
          ∙ ap (λ r. received e r relayed from now n) read
          ∙ ap (λ q. receive e m sig relayed from now q n) known)
      ∙ checked (note_origin m.src_ip from now p n) (ap (λ ip. m.src_ip == ip) kept.1 ∙ foreign)
          (ap (λ ip. m.dst_ip == ip) kept.1 ∙ ours)
      ∙ ap (λ written. written ++ plain ∷ []) kept.0

  pub read_udp-delivers :
      (n : Node)
      → length body < 2 ^ 32
      → n.self_blocked ≡ false
      → lookup_peer m.src_ip n ≡ some p
      → (m.src_ip == n.vpn_ip) ≡ false
      → (m.dst_ip == n.vpn_ip) ≡ true
      → (read_udp e (marshal relayed) from now n).written ≡ n.written ++ plain ∷ []
  unfolding read_udp dispatch lookup_peer
  read_udp-delivers n short listening known foreign ours =
      ap
        (λ (r : Parsed).
          let t : Node = elim r [
            | failed _ ↦ n
            | parsed env ↦ dispatch e env from now (record n { last_server_seen = now })
          ] in
          t.written)
        (unmarshal-marshal relayed short)
      ∙ handled (record n { last_server_seen = now }) listening known foreign ours
