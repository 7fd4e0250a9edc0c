-- ===== src/Node/Incoming.antt =====
-- internal/node/data.go: a datagram from the socket, the packets that wait for their peer, and the
-- notices of the server.
pub mod Laws
pub mod Spoofing
pub mod Soundness
pub mod Notices
pub mod Delivery
use nz.Base.{
  ℕ, ◌≤◌, Bool, true, false, not, ◌&&◌, ◌||◌, String, List, [], ◌∷◌, ◌++◌, Option, none, some, ◌==◌,
  nat_eq, string_eq, if◌then◌else◌, leb, ltb, length, lookup, insert, erase,
}
use nz.Netip.{Addr, addr_eq, AddrPort, is_valid}
use nz.Protocol.Envelope.{Envelope, Parsed, parsed, failed, unmarshal}
use nz.Protocol.Signed.{SignedMessage, SignedParse, signed, too_short, parse_signed, verify_signed}
use nz.Protocol.Sealed.{SealResult, sealed, refused, unseal}
use nz.Protocol.MsgType
use nz.Server.Model.{Datagram, PeerIntro}
use nz.Node.Packets.{is_reply_packet}
use nz.Node.Model.{Node, Env, Peer, PendingPacket, Task, flush, refresh, punch, server_ip}
use nz.Node.Waiting.{
  Pause, deliver, server_auth_failed, FromServer, genuine, forged, unreadable, from_server,
}
use nz.Node.Peers.{lookup_peer, store_peer, drop_all_peers, ensure_peer}

abbrev pub same_endpoint : AddrPort → AddrPort → Bool
same_endpoint a b = a.addr == b.addr && a.port == b.port

or_empty : Option (List PendingPacket) → List PendingPacket
or_empty none = []
or_empty (some packets) = packets

-- The packets that wait for a peer.
unfoldable pub waiting : Addr → Node → List PendingPacket
unfolding or_empty lookup
waiting ip n = or_empty (lookup ip n.pending)

unfoldable pub cache_packet : Addr → Envelope → AddrPort → Node → Node
unfolding waiting insert
cache_packet ip env from n = if leb 4 (length (waiting ip n)) then n else record n {
  pending = insert ip (waiting ip n ++ record { envelope = env; origin = from } ∷ []) n.pending;
}

abbrev pub start_task : Task → Node → Node
start_task t n = record n { started = n.started ++ t ∷ [] }

-- What a datagram that does not come from the server's endpoint tells of its sender.
unfoldable pub seen_at : AddrPort → ℕ → Peer → Peer
seen_at from now p = record p { real_addr = from; direct_ok = true; last_seen = now }

-- `handleData` notes the endpoint before it checks the signature.
unfoldable pub note_origin : Addr → AddrPort → ℕ → Peer → Node → Node
unfolding store_peer seen_at
note_origin ip from now p n =
    if same_endpoint from n.server_addr then n else store_peer ip (seen_at from now p) n

module _ (e : Env) where
  accept_packet : Addr → Peer → SealResult → Node → Node
  unfolding is_reply_packet
  accept_packet ip p (refused _) n = n
  accept_packet ip p (sealed plain) n =
      if not p.can_call_back && not (is_reply_packet plain)
      then start_task (refresh ip) n
      else record n { written = n.written ++ plain ∷ [] }

  check_packet : SignedMessage → List ℕ → Peer → Node → Node
  unfolding accept_packet verify_signed unseal
  check_packet m sig p n =
      if not (verify_signed e.crypto.verify m sig p.sign_pub)
      then n
      else if m.src_ip == n.vpn_ip || not (m.dst_ip == n.vpn_ip)
      then n
      else accept_packet m.src_ip p (unseal e.crypto.aead p.key m.payload) n

  receive : SignedMessage → List ℕ → Envelope → AddrPort → ℕ → Option Peer → Node → Node
  unfolding check_packet note_origin cache_packet
  receive m sig env from now none n = start_task (flush m.src_ip) (cache_packet m.src_ip env from n)
  receive m sig env from now (some p) n = check_packet m sig p (note_origin m.src_ip from now p n)

  received : SignedParse → Envelope → AddrPort → ℕ → Node → Node
  unfolding receive lookup_peer
  received (too_short _) env from now n = n
  received (signed m sig) env from now n = receive m sig env from now (lookup_peer m.src_ip n) n

  unfoldable pub handle_data : Envelope → AddrPort → ℕ → Node → Node
  unfolding received parse_signed
  handle_data env from now n =
      if n.self_blocked then n else received (parse_signed env.body) env from now n

  -- The loop of `ensurePeerThenFlush`.
  flush_each : List PendingPacket → ℕ → Node → Node
  unfolding handle_data
  flush_each [] now n = n
  flush_each (packet ∷ packets) now n =
      flush_each packets now (handle_data packet.envelope packet.origin now n)

  flush_with : Addr → ℕ → Node × Option Peer → Node
  unfolding flush_each waiting erase
  flush_with ip now (n, none) = n
  flush_with ip now (n, some _) =
      flush_each (waiting ip n) now (record n { pending = erase ip n.pending })

  unfoldable pub ensure_peer_then_flush : Pause → Addr → ℕ → Node → Node
  unfolding flush_with ensure_peer
  ensure_peer_then_flush w ip now n = flush_with ip w.until (ensure_peer e w ip now n)

  introduced : Option PeerIntro → Node → Node
  introduced none n = n
  introduced (some intro) n = start_task (punch intro.addr) n

  peer_intro : FromServer → Node → Node
  unfolding introduced
  peer_intro (genuine m) n = introduced (e.json.read_intro m.payload) n
  peer_intro forged n = n
  peer_intro unreadable n = n

  unfoldable pub handle_peer_intro : Envelope → Node → Node
  unfolding peer_intro from_server
  handle_peer_intro env n = peer_intro (from_server e env n) n

  note_status : Option String → Node → Node
  note_status none n = n
  note_status (some status) n = record n { self_blocked = status == "blocked" }

  policy_changed : FromServer → Node → Node
  unfolding note_status drop_all_peers
  policy_changed (genuine m) n = drop_all_peers (note_status (e.json.read_status m.payload) n)
  policy_changed forged n = n
  policy_changed unreadable n = n

  unfoldable pub handle_policy_changed : Envelope → Node → Node
  unfolding policy_changed from_server
  handle_policy_changed env n = policy_changed (from_server e env n) n

  keep_alive : FromServer → Node → Node
  keep_alive (genuine _) n = n
  keep_alive forged n = server_auth_failed n
  keep_alive unreadable n = n

  -- The switch of `readFromUDP`.
  unfoldable pub dispatch : Envelope → AddrPort → ℕ → Node → Node
  unfolding deliver handle_data handle_peer_intro handle_policy_changed keep_alive from_server
  dispatch env from now n =
      if env.typ == MsgType.plain_data || env.typ == MsgType.relay_data
      then handle_data env from now n
      else if env.typ == MsgType.peer_query_rpy
      then record n { query_reply = deliver n.query_reply env }
      else if env.typ == MsgType.machine_list_rpy
      then record n { list_reply = deliver n.list_reply env }
      else if env.typ == MsgType.admin_rpy
      then record n { admin_reply = deliver n.admin_reply env }
      else if env.typ == MsgType.join_challenge || env.typ == MsgType.join_reply
      then record n { join_reply = deliver n.join_reply env }
      else if env.typ == MsgType.approve_notify
      then record n { approve = deliver n.approve env }
      else if env.typ == MsgType.policy_changed
      then handle_policy_changed env n
      else if env.typ == MsgType.peer_intro
      then handle_peer_intro env n
      else if env.typ == MsgType.keep_alive
      then keep_alive (from_server e env n) n
      else n

  -- One round of the loop of `readFromUDP`, on the datagram that was read.
  unfoldable pub read_udp : List ℕ → AddrPort → ℕ → Node → Node
  unfolding dispatch unmarshal
  read_udp bytes from now n = elim (unmarshal bytes) [
    | failed _ ↦ n
    | parsed env ↦ dispatch env from now (record n { last_server_seen = now })
  ]
