-- ===== src/Node/Outgoing/Laws.antt =====
-- internal/node/data.go: what a node sends out for a packet of its device.
use nz.Base.{
  ℕ, ◌≡◌, ◌⊎◌, inl, inr, refl, sym, ap, subst, ◌∙◌, Bool, true, false, not, ◌&&◌, arith, List, ◌∷◌,
  ◌++◌, append_assoc, Option, none, some, Bool-cases, if_true, if_false, All,
}
use nz.Netip.{Addr, is_valid}
use nz.Protocol.Envelope.{marshal}
use nz.Protocol.Sealed.{SealResult, sealed, refused, seal}
use nz.Protocol.MsgType
use nz.Server.Model.{Datagram}
use nz.Node.Packets.{is_reply_packet}
use nz.Node.Model.{Node, Env, Peer, send_to_addr, send_envelope}
use nz.Node.Waiting.{Pause}
use nz.Node.Peers.{ensure_peer, drop_peer}
use nz.Node.Outgoing.{both_ways, is_direct, route, data_body, transmit, send_by, send_to}

-- A datagram that carries the body: to the server as relayed data, or, if each of the two may call the
-- other, straight to the endpoint of the peer.
pub Carries : Peer → Node → List ℕ → Datagram → Type 0
Carries p n body d =
    ((d.to ≡ n.server_addr)
      × (d.bytes ≡ marshal (record { typ = MsgType.relay_data; body = body })))
    ⊎ ((both_ways p ≡ true)
        × (d.to ≡ p.real_addr)
        × (d.bytes ≡ marshal (record { typ = MsgType.plain_data; body = body })))

-- The node with what one or two such datagrams add to what it has sent.
pub Routed : Peer → Node → List ℕ → Node → Type 0
Routed p n body t =
    (d : Datagram) × (ds : List Datagram) × (t ≡ record n { sent = n.sent ++ d ∷ ds })
    × All (Carries p n body) (d ∷ ds)

route-Routed :
    (p : Peer) (now : ℕ) (body : List ℕ) (n : Node) → Routed p n body (route p now body n)
unfolding Routed Carries route send_to_addr send_envelope
route-Routed p now body n = elim (Bool-cases (is_direct p now)) [
  | inl direct ↦ (_, List.[], if_true _ _ _ direct, (inr (ground (arith), refl, refl), tt))
  | inr relayed ↦ elim (Bool-cases (both_ways p && is_valid p.real_addr)) [
    | inl both ↦ (
      _,
      _,
      if_false _ _ _ relayed
          ∙ ap (send_envelope MsgType.relay_data body) (if_true _ _ _ both)
          ∙ ap (λ sent. record n { sent = sent }) (append_assoc n.sent _ _),
      (inr (ground (arith), refl, refl), (inl (refl, refl), tt)),
    )
    | inr server ↦ (
      _,
      List.[],
      if_false _ _ _ relayed ∙ ap (send_envelope MsgType.relay_data body) (if_false _ _ _ server),
      (inl (refl, refl), tt),
    )
  ]
]

call_or_reply : (a b : Bool) → not a && not b ≡ false → (a ≡ true) ⊎ (b ≡ true)
call_or_reply a b h = ground arith

-- How a packet leaves a node `n` that becomes `t`: the outcome of the search for the peer comes first.
pub record Transmitted (e : Env) (nonce : List ℕ) (dst : Addr) (raw : List ℕ) (n : Node)
    (found : Node × Option Peer) (t : Node) : Type 0 where
  pub peer : Peer
  pub cipher : List ℕ
  pub listening : n.self_blocked ≡ false
  pub known : found.1 ≡ some peer
  pub permitted : (peer.can_call ≡ true) ⊎ (is_reply_packet raw ≡ true)
  pub encrypted : seal e.crypto.aead nonce peer.key raw ≡ sealed cipher
  pub routed : Routed peer found.0 (data_body e dst cipher found.0) t

module _ (e : Env) (nonce : List ℕ) (dst : Addr) (raw : List ℕ) (n : Node)
    (listening : n.self_blocked ≡ false) where
  transmitted :
      (p : Peer) (now : ℕ) (n' : Node)
      → (p.can_call ≡ true) ⊎ (is_reply_packet raw ≡ true)
      → (r : SealResult) → seal e.crypto.aead nonce p.key raw ≡ r
      → ((transmit e dst p now r n').sent ≡ n'.sent)
        ⊎ Transmitted e nonce dst raw n (n', some p) (transmit e dst p now r n')
  unfolding transmit
  transmitted p now n' permitted (refused _) encrypted = inl refl
  transmitted p now n' permitted (sealed cipher) encrypted = inr (record {
    peer = p;
    cipher = cipher;
    listening = listening;
    known = refl;
    permitted = permitted;
    encrypted = encrypted;
    routed = route-Routed p now (data_body e dst cipher n') n';
  })

  sent_by :
      (now : ℕ) (found : Node × Option Peer)
      → ((send_by e dst nonce raw now found).sent ≡ found.0.sent)
        ⊎ Transmitted e nonce dst raw n found (send_by e dst nonce raw now found)
  unfolding send_by drop_peer
  sent_by now (n', none) = inl refl
  sent_by now (n', some p) = elim (Bool-cases (not p.can_call && not (is_reply_packet raw))) [
    | inl refusal ↦ inl (rw (refusal, send_by) refl)
    | inr allowed ↦
        rw (allowed, send_by)
          (transmitted p now n' (call_or_reply p.can_call (is_reply_packet raw) allowed)
            (seal e.crypto.aead nonce p.key raw) refl)
  ]

-- If the node is blocked, it stays as it is. Otherwise it looks for the peer, and then either sends
-- nothing more, or: it has found a peer, which it may call unless the packet is a reply, the packet
-- is sealed under the key shared with that peer, and one or two datagrams go out, each with the
-- signed cipher text as its body: to the server, or, if each of the two may call the other, to the
-- peer's endpoint.
pub send_to-Transmitted :
    (e : Env) (w : Pause) (nonce : List ℕ) (dst : Addr) (raw : List ℕ) (now : ℕ) (n : Node)
    → ((n.self_blocked ≡ true) × (send_to e w nonce dst raw now n ≡ n))
      ⊎ ((send_to e w nonce dst raw now n).sent ≡ (ensure_peer e w dst now n).0.sent)
      ⊎ Transmitted e nonce dst raw n (ensure_peer e w dst now n) (send_to e w nonce dst raw now n)
unfolding send_to
send_to-Transmitted e w nonce dst raw now n = elim (Bool-cases n.self_blocked) [
  | inl blocked ↦ inl (blocked, if_true _ _ _ blocked)
  | inr listening ↦
      (let heard = if_false _ _ _ listening in
        elim (sent_by e nonce dst raw n listening w.until (ensure_peer e w dst now n)) [
          | inl same ↦ inr (inl (ap (λ (t : Node). t.sent) heard ∙ same))
          | inr sent ↦ inr (
              inr (
                subst (Transmitted e nonce dst raw n (ensure_peer e w dst now n)) (sym heard) sent))
        ])
]
