-- ===== src/Node/Incoming/Spoofing.antt =====
-- internal/node/data.go: what the sender's endpoint of a datagram does to the packets that follow.
use nz.Base.{
  ℕ, ◌-◌, ◌≡◌, refl, ap, ◌∙◌, true, false, not, ◌||◌, arith, List, none, some, ◌==◌, if_true,
  if_false, if_both, ltb, lookup, lookup-insert, subst, sym,
}
use nz.Netip.{Addr, addr_eq, addr_beq_iff, AddrPort, invalid, v4, next}
use nz.Protocol.Envelope.{Envelope}
use nz.Protocol.Signed.{SignedMessage, signed, parse_signed, verify_signed}
use nz.Protocol.Sealed.{SealResult, sealed, refused, seal, unseal}
use nz.Protocol.MsgType
use nz.Node.Model.{Node, Env, Peer, server_ip, send_to_addr}
use nz.Node.Waiting.{Pause}
use nz.Node.Peers.{lookup_peer, store_peer, peer_refresh_after}
use nz.Node.Outgoing.{both_ways, p2p_fresh_after, data_body, send_to}
use nz.Node.Outgoing.Direct.{send_to-direct}
use nz.Node.Incoming.{
  handle_data, received, receive, check_packet, accept_packet, note_origin, same_endpoint, seen_at,
}

module _ (e : Env) where
  -- What the checks of a packet leave alone.
  record Unchanged (n t : Node) : Type 0 where
    pub peers : t.peers ≡ n.peers
    pub subnet : t.subnet ≡ n.subnet
    pub self_blocked : t.self_blocked ≡ n.self_blocked

  accept_packet-Unchanged :
      (ip : Addr) (p : Peer) (r : SealResult) (n : Node) → Unchanged n (accept_packet e ip p r n)
  unfolding accept_packet
  accept_packet-Unchanged ip p (refused _) n = record {
    peers = refl;
    subnet = refl;
    self_blocked = refl;
  }
  accept_packet-Unchanged ip p (sealed plain) n = record {
    peers = ground arith;
    subnet = ground arith;
    self_blocked = ground arith;
  }

  check_packet-Unchanged :
      (m : SignedMessage) (sig : List ℕ) (p : Peer) (n : Node)
      → Unchanged n (check_packet e m sig p n)
  unfolding check_packet
  check_packet-Unchanged m sig p n =
      let same : Unchanged n n = record { peers = refl; subnet = refl; self_blocked = refl } in
      if_both (Unchanged n) (not (verify_signed e.crypto.verify m sig p.sign_pub)) n _ same (
        if_both (Unchanged n) (m.src_ip == n.vpn_ip || not (m.dst_ip == n.vpn_ip)) n _ same
          (accept_packet-Unchanged m.src_ip p (unseal e.crypto.aead p.key m.payload) n))

  module _ (env : Envelope) (from : AddrPort) (now : ℕ) (n : Node) (m : SignedMessage)
      (sig : List ℕ) (p : Peer) (listening : n.self_blocked ≡ false)
      (read : parse_signed env.body ≡ signed m sig) (known : lookup_peer m.src_ip n ≡ some p)
      (elsewhere : same_endpoint from n.server_addr ≡ false) where
    handled :
        handle_data e env from now n
        ≡ check_packet e m sig p (store_peer m.src_ip (seen_at from now p) n)
    unfolding handle_data received receive note_origin
    handled =
        if_false _ _ _ listening
        ∙ ap (λ r. received e r env from now n) read
        ∙ ap (λ q. receive e m sig env from now q n) known
        ∙ ap (check_packet e m sig p) (if_false _ _ _ elsewhere)

    unchanged :
        Unchanged (store_peer m.src_ip (seen_at from now p) n) (handle_data e env from now n)
    unchanged =
        subst (Unchanged (store_peer m.src_ip (seen_at from now p) n)) (sym handled)
          (check_packet-Unchanged m sig p (store_peer m.src_ip (seen_at from now p) n))

    noted : lookup_peer m.src_ip (handle_data e env from now n) ≡ some (seen_at from now p)
    unfolding lookup_peer store_peer
    noted =
        ap (lookup m.src_ip) unchanged.peers
        ∙ lookup-insert m.src_ip m.src_ip (seen_at from now p) n.peers
        ∙ if_true _ _ _ ((addr_beq_iff m.src_ip m.src_ip).1 refl)

    -- A node that is not blocked reads a datagram, not from the server's endpoint, whose body parses as
    -- a signed message from a peer that it knows, other than the server, and with which calls are
    -- allowed both ways; nothing is asked of the signature. Then a packet for that peer that is sent
    -- next, within a second, and routed within ten seconds, goes, once it is sealed
    -- under the peer's key, as one datagram straight to the endpoint of that datagram, and nowhere else.
    pub handle_data-send_to :
        (w : Pause) (nonce raw cipher : List ℕ) (later : ℕ)
        → (m.src_ip == server_ip n) ≡ false
        → both_ways p ≡ true
        → ltb (later - now) peer_refresh_after ≡ true
        → ltb (w.until - now) p2p_fresh_after ≡ true
        → seal e.crypto.aead nonce p.key raw ≡ sealed cipher
        → (let t = handle_data e env from now n in
            send_to e w nonce m.src_ip raw later t
            ≡ send_to_addr MsgType.plain_data (data_body e m.src_ip cipher t) from t)
    unfolding seen_at server_ip store_peer
    handle_data-send_to w nonce raw cipher later other both fresh recent encrypted =
        send_to-direct e w nonce m.src_ip raw later (handle_data e env from now n)
          (seen_at from now p) cipher (unchanged.self_blocked ∙ listening)
          (ap (λ s. m.src_ip == elim s [ none ↦ invalid | some p ↦ next (v4 p.addr) ])
              unchanged.subnet
            ∙ other)
          noted fresh (ground (arith, both, recent)) encrypted
