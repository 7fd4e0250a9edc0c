-- ===== src/Node/Outgoing.antt =====
-- internal/node/data.go: a packet from the device on its way to a peer.
pub mod Laws
pub mod Soundness
pub mod Direct
use nz.Base.{
  ℕ, ◌*◌, ◌-◌, ◌/◌, Bool, true, false, not, ◌&&◌, List, Option, none, some, ◌==◌, nat_eq,
  if◌then◌else◌, ltb, length, get_or,
}
use nz.Netip.{Addr, addr_eq, is_valid, from_4}
use nz.Protocol.Signed.{SignedMessage, marshal_signed}
use nz.Protocol.Sealed.{SealResult, sealed, refused, seal}
use nz.Protocol.MsgType
use nz.Node.Packets.{is_reply_packet}
use nz.Node.Model.{Node, Env, Peer, send_to_addr, send_envelope}
use nz.Node.Waiting.{Pause}
use nz.Node.Peers.{ensure_peer, drop_peer}

-- `p2pFreshAfter`
abbrev pub p2p_fresh_after : ℕ
p2p_fresh_after = 10 * 1000000000

abbrev pub both_ways : Peer → Bool
both_ways p = p.can_call && p.can_call_back

abbrev pub is_direct : Peer → ℕ → Bool
is_direct p now = both_ways p && p.direct_ok && ltb (now - p.last_seen) p2p_fresh_after

-- The writes of `sendTo`: straight to a peer that answers directly, else to the server, and to the
-- peer's endpoint as well if there is one.
unfoldable pub route : Peer → ℕ → List ℕ → Node → Node
unfolding send_to_addr send_envelope
route p now body n =
    if is_direct p now
    then send_to_addr MsgType.plain_data body p.real_addr n
    else send_envelope MsgType.relay_data body (
        if both_ways p && is_valid p.real_addr
        then send_to_addr MsgType.plain_data body p.real_addr n
        else n)

module _ (e : Env) where
  unfoldable pub data_body : Addr → List ℕ → Node → List ℕ
  unfolding marshal_signed
  data_body dst cipher n =
      marshal_signed
        (record { typ = MsgType.plain_data; src_ip = n.vpn_ip; dst_ip = dst; payload = cipher })
        e.crypto.sign

  transmit : Addr → Peer → ℕ → SealResult → Node → Node
  unfolding route data_body
  transmit dst p now (refused _) n = n
  transmit dst p now (sealed cipher) n = route p now (data_body dst cipher n) n

  unfoldable pub send_by : Addr → List ℕ → List ℕ → ℕ → Node × Option Peer → Node
  unfolding transmit seal is_reply_packet drop_peer
  send_by dst nonce raw now (n, none) = n
  send_by dst nonce raw now (n, some p) =
      if not p.can_call && not (is_reply_packet raw)
      then drop_peer dst n
      else transmit dst p now (seal e.crypto.aead nonce p.key raw) n

  -- `nonce` is what rand.Read gives to `Seal`.
  unfoldable pub send_to : Pause → List ℕ → Addr → List ℕ → ℕ → Node → Node
  unfolding ensure_peer send_by
  send_to w nonce dst raw now n =
      if n.self_blocked then n else send_by dst nonce raw w.until (ensure_peer e w dst now n)

  abbrev pub packet_target : List ℕ → Addr
  packet_target raw = from_4 (get_or raw 16 0) (get_or raw 17 0) (get_or raw 18 0) (get_or raw 19 0)

  -- One round of the loop of `readFromTUN`, on the packet that was read.
  unfoldable pub read_tun : Pause → List ℕ → List ℕ → ℕ → Node → Node
  unfolding send_to
  read_tun w nonce raw now n =
      if ltb (length raw) 20
      then n
      else if not (get_or raw 0 0 / 16 == 4)
      then n
      else if packet_target raw == n.vpn_ip
      then n
      else send_to w nonce (packet_target raw) raw now n
