-- ===== src/Node/Peers/Soundness.antt =====
-- internal/node/data.go: the bounds of a node around the search for a peer.
use nz.Base.{refl, ℕ, if_both, inl, inr, List, Option, none, some, Option-cases}
use nz.Netip.{Addr, addr_eq}
use nz.Protocol.Envelope.{Envelope}
use nz.Protocol.Answer.{PeerAnswer}
use nz.Node.Model.{Node, Env, Peer, server_ip, server_keys, send_envelope, send_to_addr}
use nz.Node.Waiting.{Pause, wait_query}
use nz.Node.Peers.{
  answered, send_query, query_peer, learn_with, learn, server_peer_with, ensure_server_peer,
  ensure_queried, ensure_peer, store_peer, lookup_peer, still_fresh,
}
use nz.Node.Sound.{IsSound, carry, KeepsSound, wait_query-IsSound}

module _ (e : Env) where
  answered-IsSound : (r : Node × Option Envelope) → IsSound r.0 → IsSound (answered e r).0
  unfolding answered
  answered-IsSound (n, none) h = h
  answered-IsSound (n, some env) h = h

  learn_with-IsSound :
      (dst : Addr) (a : PeerAnswer) (key : Option (List ℕ)) (now : ℕ) (n : Node)
      → IsSound n
      → IsSound (learn_with e dst a key now n).0
  unfolding learn_with store_peer
  learn_with-IsSound dst a none now n h = h
  learn_with-IsSound dst a (some key) now n h = carry refl refl refl refl h

  learn-IsSound :
      (dst : Addr) (now : ℕ) (r : Node × Option PeerAnswer)
      → IsSound r.0
      → IsSound (learn e dst now r).0
  unfolding learn
  learn-IsSound dst now (n, none) h = h
  learn-IsSound dst now (n, some a) h =
      if_both (λ (r : Node × Option Peer). IsSound r.0) _ _ _ h
        (learn_with-IsSound dst a (e.crypto.shared_key a.exch_pub) now n h)

  server_peer_with-IsSound :
      (key : Option (List ℕ)) (now : ℕ) (n : Node)
      → IsSound n
      → IsSound (server_peer_with e key now n).0
  unfolding server_peer_with store_peer
  server_peer_with-IsSound none now n h = h
  server_peer_with-IsSound (some key) now n h = carry refl refl refl refl h

  ensure_server_peer-IsSound :
      (now : ℕ) (n : Node) → IsSound n → IsSound (ensure_server_peer e now n).0
  unfolding ensure_server_peer
  ensure_server_peer-IsSound now n h = elim (Option-cases (lookup_peer (server_ip n) n)) [
    | inr (p, known) ↦ rw (known, ensure_server_peer) h
    | inl missing ↦
        rw (missing, ensure_server_peer)
          (server_peer_with-IsSound (e.crypto.shared_key (server_keys n).1) now n h)
  ]

  module _ (w : Pause) (k : KeepsSound w.others) where
    query_peer-IsSound : (dst : Addr) → (n : Node) → IsSound n → IsSound (query_peer e w dst n).0
    unfolding query_peer send_query send_envelope send_to_addr
    query_peer-IsSound dst n h =
        answered-IsSound (wait_query w (send_query e dst n))
          (wait_query-IsSound w k (send_query e dst n) (carry refl refl refl refl h))

    ensure_queried-IsSound :
        (dst : Addr) (known : Option Peer) (n : Node)
        → IsSound n
        → IsSound (ensure_queried e w dst known n).0
    unfolding ensure_queried
    ensure_queried-IsSound dst (some p) n h = h
    ensure_queried-IsSound dst none n h =
        learn-IsSound dst w.until (query_peer e w dst n) (query_peer-IsSound dst n h)

    pub ensure_peer-IsSound :
        (dst : Addr) (now : ℕ) (n : Node) → IsSound n → IsSound (ensure_peer e w dst now n).0
    unfolding ensure_peer
    ensure_peer-IsSound dst now n h =
        if_both (λ (r : Node × Option Peer). IsSound r.0) _ _ _ (ensure_server_peer-IsSound now n h)
          (ensure_queried-IsSound dst (still_fresh (lookup_peer dst n) now) n h)
