-- ===== src/Node/Outgoing/Soundness.antt =====
-- internal/node/data.go: the bounds of a node around a packet of the device.
use nz.Base.{
  ltb, length, get_or, ◌/◌, ◌==◌, nat_eq, refl, arith, not, ℕ, ◌&&◌, if_both, List, Option, none,
  some,
}
use nz.Netip.{Addr, addr_eq}
use nz.Protocol.Sealed.{SealResult, sealed, refused, seal}
use nz.Node.Packets.{is_reply_packet}
use nz.Node.Model.{Node, Env, Peer, send_to_addr, send_envelope}
use nz.Node.Waiting.{Pause}
use nz.Node.Peers.{ensure_peer, drop_peer}
use nz.Node.Peers.Soundness.{ensure_peer-IsSound}
use nz.Node.Outgoing.{route, data_body, transmit, send_by, send_to, read_tun, packet_target}
use nz.Node.Sound.{IsSound, carry, KeepsSound}

route-IsSound :
    (p : Peer) (now : ℕ) (body : List ℕ) (n : Node) → IsSound n → IsSound (route p now body n)
unfolding route send_to_addr send_envelope
route-IsSound p now body n h = carry (ground arith) (ground arith) (ground arith) (ground arith) h

module _ (e : Env) (w : Pause) (nonce : List ℕ) where
  transmit-IsSound :
      (dst : Addr) (p : Peer) (now : ℕ) (r : SealResult) (n : Node)
      → IsSound n
      → IsSound (transmit e dst p now r n)
  unfolding transmit
  transmit-IsSound dst p now (refused _) n h = h
  transmit-IsSound dst p now (sealed cipher) n h =
      route-IsSound p now (data_body e dst cipher n) n h

  send_by-IsSound :
      (dst : Addr) (raw : List ℕ) (now : ℕ) (found : Node × Option Peer)
      → IsSound found.0
      → IsSound (send_by e dst nonce raw now found)
  unfolding send_by drop_peer
  send_by-IsSound dst raw now (n, none) h = h
  send_by-IsSound dst raw now (n, some p) h =
      if_both IsSound (not p.can_call && not (is_reply_packet raw)) (drop_peer dst n) _
        (carry refl refl refl refl h)
        (transmit-IsSound dst p now (seal e.crypto.aead nonce p.key raw) n h)

  send_to-IsSound :
      KeepsSound w.others
      → (dst : Addr) (raw : List ℕ) (now : ℕ) (n : Node) → IsSound n
      → IsSound (send_to e w nonce dst raw now n)
  unfolding send_to
  send_to-IsSound k dst raw now n h = if_both IsSound _ _ _ h (
      send_by-IsSound dst raw w.until (ensure_peer e w dst now n)
        (ensure_peer-IsSound e w k dst now n h))

  pub read_tun-IsSound :
      KeepsSound w.others
      → (raw : List ℕ) (now : ℕ) (n : Node) → IsSound n
      → IsSound (read_tun e w nonce raw now n)
  unfolding read_tun
  read_tun-IsSound k raw now n h =
      let sent = send_to-IsSound k (packet_target e raw) raw now n h in
      if_both IsSound (ltb (length raw) 20) n _ h (
        if_both IsSound (not (get_or raw 0 0 / 16 == 4)) n _ h
          (if_both IsSound (packet_target e raw == n.vpn_ip) n _ h sent))
