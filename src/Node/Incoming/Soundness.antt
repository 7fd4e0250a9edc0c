-- ===== src/Node/Incoming/Soundness.antt =====
-- internal/node/data.go: the bounds of a node around a datagram.
use nz.Base.{
  ◌==◌, nat_eq, ◌||◌, ℕ, suc, ◌≤◌, ◌≡◌, inl, inr, refl, arith, List, [], ◌∷◌, ◌++◌, Option, none,
  some, leb, length, Bool-cases, if_both, insert-All, erase, erase-All, String,
}
use nz.Netip.{Addr, addr_eq, AddrPort}
use nz.Protocol.Envelope.{Envelope, parsed, failed, unmarshal}
use nz.Protocol.Signed.{SignedMessage, SignedParse, signed, too_short, parse_signed}
use nz.Protocol.Sealed.{SealResult, sealed, refused, unseal}
use nz.Protocol.MsgType
use nz.Server.Model.{PeerIntro}
use nz.Node.Model.{Node, Env, Peer, PendingPacket}
use nz.Node.Waiting.{Pause, deliver, FromServer, genuine, forged, unreadable, from_server}
use nz.Node.Peers.{lookup_peer, store_peer, drop_all_peers, ensure_peer}
use nz.Node.Peers.Soundness.{ensure_peer-IsSound}
use nz.Node.Incoming.{
  handle_data, received, receive, check_packet, accept_packet, note_origin, cache_packet, waiting,
  flush_each, flush_with, ensure_peer_then_flush, handle_peer_intro, peer_intro, introduced,
  handle_policy_changed, policy_changed, note_status, keep_alive, dispatch, read_udp,
}
use nz.Node.Sound.{IsSound, carry, KeepsSound}

length-snoc :
    (packets : List PendingPacket) (p : PendingPacket)
    → length (packets ++ p ∷ []) ≡ suc (length packets)
length-snoc [] p = refl
length-snoc (q ∷ packets) p = ground (arith, length-snoc packets p)

cache_packet-IsSound :
    (ip : Addr) (env : Envelope) (from : AddrPort) (n : Node)
    → IsSound n
    → IsSound (cache_packet ip env from n)
unfolding cache_packet
cache_packet-IsSound ip env from n h = elim (Bool-cases (leb 4 (length (waiting ip n)))) [
  | inl full ↦ rw (full, cache_packet) h
  | inr room ↦
      let packet : PendingPacket = record { envelope = env; origin = from } in
      rw (room, cache_packet)
        (record {
          bounded =
              insert-All (λ entry. length entry.1 ≤ 4) ip (waiting ip n ++ packet ∷ []) n.pending
                (ground (arith, length-snoc (waiting ip n) packet)) h.bounded;
          home = h.home;
        })
]

module _ (e : Env) where
  accept_packet-IsSound :
      (ip : Addr) (p : Peer) (r : SealResult) (n : Node)
      → IsSound n
      → IsSound (accept_packet e ip p r n)
  unfolding accept_packet
  accept_packet-IsSound ip p (refused _) n h = h
  accept_packet-IsSound ip p (sealed plain) n h =
      carry (ground arith) (ground arith) (ground arith) (ground arith) h

  receive-IsSound :
      (m : SignedMessage) (sig : List ℕ) (env : Envelope) (from : AddrPort) (now : ℕ)
      (p : Option Peer) (n : Node)
      → IsSound n
      → IsSound (receive e m sig env from now p n)
  unfolding receive check_packet note_origin store_peer
  receive-IsSound m sig env from now none n h =
      carry refl refl refl refl (cache_packet-IsSound m.src_ip env from n h)
  receive-IsSound m sig env from now (some p) n h =
      let n' : Node = note_origin m.src_ip from now p n in
      let h' : IsSound n' = carry (ground arith) (ground arith) (ground arith) (ground arith) h in
      if_both IsSound _ _ _ h' (
        if_both IsSound _ _ _ h'
          (accept_packet-IsSound m.src_ip p (unseal e.crypto.aead p.key m.payload) n' h'))

  received-IsSound :
      (r : SignedParse) (env : Envelope) (from : AddrPort) (now : ℕ) (n : Node)
      → IsSound n
      → IsSound (received e r env from now n)
  unfolding received
  received-IsSound (too_short _) env from now n h = h
  received-IsSound (signed m sig) env from now n h =
      receive-IsSound m sig env from now (lookup_peer m.src_ip n) n h

  handle_data-IsSound :
      (env : Envelope) (from : AddrPort) (now : ℕ) (n : Node)
      → IsSound n
      → IsSound (handle_data e env from now n)
  unfolding handle_data
  handle_data-IsSound env from now n h =
      if_both IsSound _ _ _ h (received-IsSound (parse_signed env.body) env from now n h)

  flush_each-IsSound :
      (packets : List PendingPacket) (now : ℕ) (n : Node)
      → IsSound n
      → IsSound (flush_each e packets now n)
  unfolding flush_each
  flush_each-IsSound [] now n h = h
  flush_each-IsSound (packet ∷ packets) now n h =
      flush_each-IsSound packets now (handle_data e packet.envelope packet.origin now n)
        (handle_data-IsSound packet.envelope packet.origin now n h)

  flush_with-IsSound :
      (ip : Addr) (now : ℕ) (found : Node × Option Peer)
      → IsSound found.0
      → IsSound (flush_with e ip now found)
  unfolding flush_with
  flush_with-IsSound ip now (n, none) h = h
  flush_with-IsSound ip now (n, some p) h =
      flush_each-IsSound (waiting ip n) now (record n { pending = erase ip n.pending })
        (record {
          bounded = erase-All (λ entry. length entry.1 ≤ 4) ip n.pending h.bounded;
          home = h.home;
        })

  pub ensure_peer_then_flush-IsSound :
      (w : Pause)
      → KeepsSound w.others
      → (ip : Addr) (now : ℕ) (n : Node) → IsSound n
      → IsSound (ensure_peer_then_flush e w ip now n)
  unfolding ensure_peer_then_flush
  ensure_peer_then_flush-IsSound w k ip now n h =
      flush_with-IsSound ip w.until (ensure_peer e w ip now n)
        (ensure_peer-IsSound e w k ip now n h)

  introduced-IsSound :
      (intro : Option PeerIntro) (n : Node) → IsSound n → IsSound (introduced e intro n)
  unfolding introduced
  introduced-IsSound none n h = h
  introduced-IsSound (some intro) n h = carry refl refl refl refl h

  peer_intro-IsSound : (r : FromServer) (n : Node) → IsSound n → IsSound (peer_intro e r n)
  unfolding peer_intro
  peer_intro-IsSound (genuine m) n h = introduced-IsSound (e.json.read_intro m.payload) n h
  peer_intro-IsSound forged n h = h
  peer_intro-IsSound unreadable n h = h

  note_status-IsSound :
      (status : Option String) (n : Node) → IsSound n → IsSound (note_status e status n)
  unfolding note_status
  note_status-IsSound none n h = h
  note_status-IsSound (some status) n h = carry refl refl refl refl h

  policy_changed-IsSound : (r : FromServer) (n : Node) → IsSound n → IsSound (policy_changed e r n)
  unfolding policy_changed drop_all_peers
  policy_changed-IsSound (genuine m) n h =
      carry refl refl refl refl (note_status-IsSound (e.json.read_status m.payload) n h)
  policy_changed-IsSound forged n h = h
  policy_changed-IsSound unreadable n h = h

  keep_alive-IsSound : (r : FromServer) (n : Node) → IsSound n → IsSound (keep_alive e r n)
  unfolding keep_alive
  keep_alive-IsSound (genuine _) n h = h
  keep_alive-IsSound forged n h = carry refl refl refl refl h
  keep_alive-IsSound unreadable n h = h

  dispatch-IsSound :
      (env : Envelope) (from : AddrPort) (now : ℕ) (n : Node)
      → IsSound n
      → IsSound (dispatch e env from now n)
  unfolding dispatch handle_peer_intro handle_policy_changed
  dispatch-IsSound env from now n h =
      if_both IsSound (env.typ == MsgType.plain_data || env.typ == MsgType.relay_data) _ _
        (handle_data-IsSound env from now n h)
        (if_both IsSound (env.typ == MsgType.peer_query_rpy)
          (record n { query_reply = deliver n.query_reply env }) _ (carry refl refl refl refl h)
          (if_both IsSound (env.typ == MsgType.machine_list_rpy)
            (record n { list_reply = deliver n.list_reply env }) _ (carry refl refl refl refl h)
            (if_both IsSound (env.typ == MsgType.admin_rpy)
              (record n { admin_reply = deliver n.admin_reply env }) _ (carry refl refl refl refl h)
              (if_both IsSound (env.typ == MsgType.join_challenge || env.typ == MsgType.join_reply)
                (record n { join_reply = deliver n.join_reply env }) _ (carry refl refl refl refl h)
                (if_both IsSound (env.typ == MsgType.approve_notify)
                  (record n { approve = deliver n.approve env }) _ (carry refl refl refl refl h)
                  (if_both IsSound (env.typ == MsgType.policy_changed) _ _
                    (policy_changed-IsSound (from_server e env n) n h)
                    (if_both IsSound (env.typ == MsgType.peer_intro) _ _
                      (peer_intro-IsSound (from_server e env n) n h)
                      (if_both IsSound (env.typ == MsgType.keep_alive) _ _
                        (keep_alive-IsSound (from_server e env n) n h) h))))))))

  pub read_udp-IsSound :
      (bytes : List ℕ) (from : AddrPort) (now : ℕ) (n : Node)
      → IsSound n
      → IsSound (read_udp e bytes from now n)
  unfolding read_udp
  read_udp-IsSound bytes from now n h =
      elim (unmarshal bytes)
        as (λ r. IsSound (elim r [
          | failed _ ↦ n
          | parsed env ↦ dispatch e env from now (record n { last_server_seen = now })
        ])) [
          | failed _ ↦ h
          | parsed env ↦
              dispatch-IsSound env from now (record n { last_server_seen = now })
                (carry refl refl refl refl h)
        ]
