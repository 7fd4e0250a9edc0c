-- ===== src/Node/Peers.antt =====
-- internal/node/data.go: the peers, and the query that fills in one.
pub mod Soundness
pub mod Fresh
pub mod Stale
use nz.Base.{
  ℕ, ◌*◌, ◌-◌, Bool, true, false, not, List, [], Option, none, some, ◌==◌, if◌then◌else◌, ltb,
  lookup, insert, erase, keep_if,
}
use nz.Netip.{Addr, addr_eq, AddrPort}
use nz.Protocol.Envelope.{Envelope}
use nz.Protocol.Signed.{SignedMessage, marshal_signed, peer_query_payload}
use nz.Protocol.Answer.{
  PeerAnswer, AnswerParse, answer, too_short, bad_size, parse_peer_answer, no_endpoint,
}
use nz.Protocol.MsgType
use nz.Node.Model.{Node, Env, Peer, server_ip, server_keys, send_envelope}
use nz.Node.Waiting.{Pause, wait_query, FromServer, genuine, forged, unreadable, from_server}

-- `peerRefreshAfter`
abbrev pub peer_refresh_after : ℕ
peer_refresh_after = 1000000000

unfoldable pub lookup_peer : Addr → Node → Option Peer
unfolding lookup
lookup_peer ip n = lookup ip n.peers

unfoldable pub store_peer : Addr → Peer → Node → Node
unfolding insert
store_peer ip p n = record n { peers = insert ip p n.peers }

unfoldable pub drop_peer : Addr → Node → Node
unfolding erase
drop_peer ip n = record n { peers = erase ip n.peers }

unfoldable pub drop_all_peers : Node → Node
drop_all_peers n = record n { peers = keep_if (λ entry. entry.0 == server_ip n) n.peers }

parsed_answer : AnswerParse → Option PeerAnswer
parsed_answer (answer a) = some a
parsed_answer too_short = none
parsed_answer (bad_size _) = none

endpoint_of : PeerAnswer → AddrPort
endpoint_of a = if a.has_addr then a.addr else no_endpoint

unfoldable pub peer_of : PeerAnswer → List ℕ → ℕ → Peer
unfolding endpoint_of
peer_of a key now = record {
  sign_pub = a.sign_pub;
  exch_pub = a.exch_pub;
  key = key;
  real_addr = endpoint_of a;
  can_call = a.can_call;
  can_call_back = a.can_call_back;
  direct_ok = false;
  last_seen = now;
}

still_fresh : Option Peer → ℕ → Option Peer
still_fresh none now = none
still_fresh (some p) now = if ltb (now - p.last_seen) peer_refresh_after then some p else none

module _ (e : Env) where
  read_answer : FromServer → Option PeerAnswer
  unfolding parsed_answer parse_peer_answer
  read_answer unreadable = none
  read_answer forged = none
  read_answer (genuine m) = parsed_answer (parse_peer_answer m.payload)

  answered : Node × Option Envelope → Node × Option PeerAnswer
  unfolding read_answer from_server
  answered (n, none) = (n, none)
  answered (n, some env) = (n, read_answer (from_server e env n))

  send_query : Addr → Node → Node
  unfolding server_ip send_envelope marshal_signed peer_query_payload
  send_query dst n =
      send_envelope MsgType.peer_query
        (marshal_signed
          (record {
            typ = MsgType.peer_query;
            src_ip = n.vpn_ip;
            dst_ip = server_ip n;
            payload = peer_query_payload dst;
          })
          e.crypto.sign)
        n

  unfoldable pub query_peer : Pause → Addr → Node → Node × Option PeerAnswer
  unfolding send_query answered
  query_peer w dst n = answered (wait_query w (send_query dst n))

  learn_with : Addr → PeerAnswer → Option (List ℕ) → ℕ → Node → Node × Option Peer
  unfolding peer_of store_peer
  learn_with dst a none now n = (n, none)
  learn_with dst a (some key) now n =
      (store_peer dst (peer_of a key now) n, some (peer_of a key now))

  -- What `ensurePeer` does with the outcome of its query.
  unfoldable pub learn : Addr → ℕ → Node × Option PeerAnswer → Node × Option Peer
  unfolding learn_with
  learn dst now (n, none) = (n, none)
  learn dst now (n, some a) =
      if not a.found then (n, none) else learn_with dst a (e.crypto.shared_key a.exch_pub) now n

  server_peer_with : Option (List ℕ) → ℕ → Node → Node × Option Peer
  unfolding store_peer server_keys server_ip
  server_peer_with none now n = (n, none)
  server_peer_with (some key) now n =
      let p : Peer = record {
        sign_pub = (server_keys n).0;
        exch_pub = (server_keys n).1;
        key = key;
        real_addr = n.server_addr;
        can_call = true;
        can_call_back = true;
        direct_ok = false;
        last_seen = now;
      } in
      (store_peer (server_ip n) p n, some p)

  unfoldable pub ensure_server_peer : ℕ → Node → Node × Option Peer
  unfolding lookup_peer server_peer_with server_ip
  ensure_server_peer now n = elim (lookup_peer (server_ip n) n) [
    | some p ↦ (n, some p)
    | none ↦ server_peer_with (e.crypto.shared_key (server_keys n).1) now n
  ]

  ensure_queried : Pause → Addr → Option Peer → Node → Node × Option Peer
  unfolding query_peer learn
  ensure_queried w dst (some p) n = (n, some p)
  ensure_queried w dst none n = learn dst w.until (query_peer w dst n)

  -- `now` is the time at the start. Every field of the peer is written after the query, so an entry
  -- that is too old plays no part in the new one.
  unfoldable pub ensure_peer : Pause → Addr → ℕ → Node → Node × Option Peer
  unfolding ensure_server_peer ensure_queried lookup_peer still_fresh
  ensure_peer w dst now n =
      if dst == server_ip n
      then ensure_server_peer now n
      else ensure_queried w dst (still_fresh (lookup_peer dst n) now) n
