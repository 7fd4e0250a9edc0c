-- ===== src/Node/Incoming/Laws.antt =====
-- internal/node/data.go: what reaches the device of a node.
use nz.Base.{
  ℕ, ◌≡◌, ◌≢◌, ◌⊎◌, inl, inr, refl, sym, ap, ◌∙◌, true, false, not, ◌||◌, arith, List, [], ◌∷◌,
  ◌++◌, some, ◌==◌, Bool-cases, Option-cases, if_true, if_false,
}
use nz.Netip.{Addr, addr_eq, addr_beq_iff, AddrPort}
use nz.Protocol.Envelope.{Envelope}
use nz.Protocol.Signed.{SignedMessage, SignedParse, signed, too_short, parse_signed, verify_signed}
use nz.Protocol.Sealed.{SealResult, sealed, refused, unseal}
use nz.Node.Packets.{is_reply_packet}
use nz.Node.Model.{Node, Env, Peer}
use nz.Node.Peers.{lookup_peer, store_peer}
use nz.Node.Incoming.{
  handle_data, received, receive, check_packet, accept_packet, note_origin, cache_packet,
}

-- What a node makes sure of before it writes a packet to its device.
pub record Accepted (e : Env) (env : Envelope) (n t : Node) : Type 0 where
  pub message : SignedMessage
  pub sig : List ℕ
  pub peer : Peer
  pub plain : List ℕ
  pub listening : n.self_blocked ≡ false
  pub read : parse_signed env.body ≡ signed message sig
  pub known : lookup_peer message.src_ip n ≡ some peer
  pub verified : verify_signed e.crypto.verify message sig peer.sign_pub ≡ true
  pub foreign : message.src_ip ≢ n.vpn_ip
  pub ours : message.dst_ip ≡ n.vpn_ip
  pub decrypted : unseal e.crypto.aead peer.key message.payload ≡ sealed plain
  pub permitted : (peer.can_call_back ≡ true) ⊎ (is_reply_packet plain ≡ true)
  pub delivered : t.written ≡ n.written ++ plain ∷ []

pub note_origin_keeps :
    (ip : Addr) (from : AddrPort) (now : ℕ) (p : Peer) (n : Node)
    → ((note_origin ip from now p n).written ≡ n.written)
      × ((note_origin ip from now p n).vpn_ip ≡ n.vpn_ip)
unfolding note_origin store_peer
note_origin_keeps ip from now p n = ground arith

cache_packet-written :
    (ip : Addr) (env : Envelope) (from : AddrPort) (n : Node)
    → (cache_packet ip env from n).written ≡ n.written
unfolding cache_packet
cache_packet-written ip env from n = ground arith

module _ (e : Env) where
  accepted :
      (ip : Addr) (p : Peer) (r : SealResult) (n : Node)
      → ((accept_packet e ip p r n).written ≡ n.written)
        ⊎ ((plain : List ℕ) × (r ≡ sealed plain)
            × ((p.can_call_back ≡ true) ⊎ (is_reply_packet plain ≡ true))
            × ((accept_packet e ip p r n).written ≡ n.written ++ plain ∷ []))
  unfolding accept_packet
  accepted ip p (refused _) n = inl refl
  accepted ip p (sealed plain) n = elim (Bool-cases p.can_call_back) [
    | inl hit ↦ inr (plain, refl, inl hit, ground arith)
    | inr miss ↦ elim (Bool-cases (is_reply_packet plain)) [
      | inl hit ↦ inr (plain, refl, inr hit, ground arith)
      | inr other ↦ inl (ground arith)
    ]
  ]

  checked :
      (m : SignedMessage) (sig : List ℕ) (p : Peer) (n : Node)
      → ((check_packet e m sig p n).written ≡ n.written)
        ⊎ ((plain : List ℕ) × (verify_signed e.crypto.verify m sig p.sign_pub ≡ true)
            × (m.src_ip ≢ n.vpn_ip)
            × (m.dst_ip ≡ n.vpn_ip)
            × (unseal e.crypto.aead p.key m.payload ≡ sealed plain)
            × ((p.can_call_back ≡ true) ⊎ (is_reply_packet plain ≡ true))
            × ((check_packet e m sig p n).written ≡ n.written ++ plain ∷ []))
  unfolding check_packet
  checked m sig p n = elim (Bool-cases (verify_signed e.crypto.verify m sig p.sign_pub)) [
    | inr miss ↦ inl (rw (miss, check_packet) refl)
    | inl hit ↦ elim (Bool-cases (m.src_ip == n.vpn_ip || not (m.dst_ip == n.vpn_ip))) [
      | inl away ↦ inl (rw (hit, away, check_packet) refl)
      | inr here ↦ elim (accepted m.src_ip p (unseal e.crypto.aead p.key m.payload) n) [
        | inl same ↦ inl (rw (hit, here, check_packet) same)
        | inr (plain, decrypted, permitted, delivered) ↦ inr (
          plain,
          hit,
          (λ same. ground (arith, addr_beq_iff m.src_ip n.vpn_ip)),
          ground (arith, addr_beq_iff m.dst_ip n.vpn_ip),
          decrypted,
          permitted,
          rw (hit, here, check_packet) delivered,
        )
      ]
    ]
  ]

  -- What `received` leaves on the device.
  received-cases :
      (env : Envelope) (from : AddrPort) (now : ℕ) (n : Node)
      → n.self_blocked ≡ false
      → (r : SignedParse) → parse_signed env.body ≡ r
      → ((received e r env from now n).written ≡ n.written)
        ⊎ ((t : Node) → t ≡ received e r env from now n → Accepted e env n t)
  unfolding received receive
  received-cases env from now n listening (too_short k) read = inl refl
  received-cases env from now n listening (signed m sig) read =
      elim (Option-cases (lookup_peer m.src_ip n)) [
        | inl missing ↦
            inl (rw (missing, received, receive) (cache_packet-written m.src_ip env from n))
        | inr (p, known) ↦ elim (checked m sig p (note_origin m.src_ip from now p n)) [
          | inl same ↦
              inl
                (rw (known, received, receive) (same ∙ (note_origin_keeps m.src_ip from now p n).0))
          | inr (plain, verified, foreign, ours, decrypted, permitted, delivered) ↦
              let kept = note_origin_keeps m.src_ip from now p n in
              inr (λ t same. record {
                message = m;
                sig = sig;
                peer = p;
                plain = plain;
                listening = listening;
                read = read;
                known = known;
                verified = verified;
                foreign = λ own. foreign (own ∙ sym kept.1);
                ours = ours ∙ kept.1;
                decrypted = decrypted;
                permitted = permitted;
                delivered =
                    ap (λ t. t.written) same
                    ∙ (rw (known, received, receive)
                        (delivered ∙ ap (λ w. w ++ plain ∷ []) kept.0));
              })
        ]
      ]

  -- Whatever a datagram does to a node, either the device gets nothing, or it gets one packet, after
  -- those that it already got: the node is not blocked, the body parses as a signed message, its source
  -- is a peer that the node knows and is not the node itself, its destination is the node, the
  -- signature verifies under the peer's key, the packet is what the payload opens to under the key
  -- shared with that peer, and the peer may call the node or the packet is a reply.
  pub handle_data-Accepted :
      (env : Envelope) (from : AddrPort) (now : ℕ) (n : Node)
      → ((handle_data e env from now n).written ≡ n.written)
        ⊎ Accepted e env n (handle_data e env from now n)
  unfolding handle_data
  handle_data-Accepted env from now n = elim (Bool-cases n.self_blocked) [
    | inl blocked ↦ inl (ap (λ (t : Node). t.written) (if_true _ _ _ blocked))
    | inr listening ↦
        let heard = if_false _ _ _ listening in
        elim (received-cases env from now n listening (parse_signed env.body) refl) [
          | inl same ↦ inl (ap (λ (t : Node). t.written) heard ∙ same)
          | inr a ↦ inr (a (handle_data e env from now n) heard)
        ]
  ]
