-- ===== src/Node/Outgoing/Direct.antt =====
-- internal/node/data.go: a packet for a peer that answers directly.
use nz.Base.{
  ℕ, ◌-◌, ◌≡◌, ap, ◌∙◌, true, false, not, ◌&&◌, arith, List, some, ◌==◌, if_true, if_false, ltb,
}
use nz.Netip.{Addr, addr_eq, is_valid}
use nz.Protocol.Sealed.{sealed, seal}
use nz.Protocol.MsgType
use nz.Node.Packets.{is_reply_packet}
use nz.Node.Model.{Node, Env, Peer, server_ip, send_to_addr, send_envelope}
use nz.Node.Waiting.{Pause}
use nz.Node.Peers.{lookup_peer, peer_refresh_after}
use nz.Node.Peers.Fresh.{ensure_peer-fresh}
use nz.Node.Outgoing.{both_ways, is_direct, data_body, route, transmit, send_by, send_to}

-- A peer that is fresh and answers directly gets the packet at its endpoint, and nobody else does.
pub send_to-direct :
    (e : Env) (w : Pause) (nonce : List ℕ) (dst : Addr) (raw : List ℕ) (now : ℕ) (n : Node)
    (p : Peer) (cipher : List ℕ)
    → n.self_blocked ≡ false
    → (dst == server_ip n) ≡ false
    → lookup_peer dst n ≡ some p
    → ltb (now - p.last_seen) peer_refresh_after ≡ true
    → is_direct p w.until ≡ true
    → seal e.crypto.aead nonce p.key raw ≡ sealed cipher
    → send_to e w nonce dst raw now n
      ≡ send_to_addr MsgType.plain_data (data_body e dst cipher n) p.real_addr n
unfolding send_to send_by transmit route
send_to-direct e w nonce dst raw now n p cipher listening other known fresh straight encrypted =
    if_false _ _ _ listening
    ∙ ap (send_by e dst nonce raw w.until) (ensure_peer-fresh e w dst now n p other known fresh)
    ∙ if_false (not p.can_call && not (is_reply_packet raw)) _ _ (ground (arith, straight))
    ∙ ap (λ r. transmit e dst p w.until r n) encrypted
    ∙ if_true _ _ _ straight

-- A peer that is fresh, and that the node may call but that may not call back, gets the packet through
-- the server alone.
pub send_to-relayed :
    (e : Env) (w : Pause) (nonce : List ℕ) (dst : Addr) (raw : List ℕ) (now : ℕ) (n : Node)
    (p : Peer) (cipher : List ℕ)
    → n.self_blocked ≡ false
    → (dst == server_ip n) ≡ false
    → lookup_peer dst n ≡ some p
    → ltb (now - p.last_seen) peer_refresh_after ≡ true
    → p.can_call ≡ true
    → p.can_call_back ≡ false
    → seal e.crypto.aead nonce p.key raw ≡ sealed cipher
    → send_to e w nonce dst raw now n
      ≡ send_envelope MsgType.relay_data (data_body e dst cipher n) n
unfolding send_to send_by transmit route
send_to-relayed e w nonce dst raw now n p cipher listening other known fresh may back encrypted =
    if_false _ _ _ listening
    ∙ ap (send_by e dst nonce raw w.until) (ensure_peer-fresh e w dst now n p other known fresh)
    ∙ if_false (not p.can_call && not (is_reply_packet raw)) _ _ (ground (arith, may))
    ∙ ap (λ r. transmit e dst p w.until r n) encrypted
    ∙ if_false (is_direct p w.until) _ _ (ground (arith, back))
    ∙ ap (send_envelope MsgType.relay_data (data_body e dst cipher n))
        (if_false (both_ways p && is_valid p.real_addr) _ _ (ground (arith, back)))
