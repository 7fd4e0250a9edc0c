-- ===== src/Node/Peers/Fresh.antt =====
-- internal/node/data.go: a peer that was heard of lately.
use nz.Base.{ℕ, ◌-◌, ◌≡◌, ap, ◌∙◌, true, false, some, ◌==◌, if_true, if_false, ltb}
use nz.Netip.{Addr, addr_eq}
use nz.Node.Model.{Node, Env, Peer, server_ip}
use nz.Node.Waiting.{Pause}
use nz.Node.Peers.{lookup_peer, peer_refresh_after, ensure_peer, ensure_queried, still_fresh}

pub ensure_peer-fresh :
    (e : Env) (w : Pause) (dst : Addr) (now : ℕ) (n : Node) (p : Peer)
    → (dst == server_ip n) ≡ false
    → lookup_peer dst n ≡ some p
    → ltb (now - p.last_seen) peer_refresh_after ≡ true
    → ensure_peer e w dst now n ≡ (n, some p)
unfolding ensure_peer ensure_queried still_fresh
ensure_peer-fresh e w dst now n p other known fresh =
    if_false _ _ _ other
    ∙ ap (λ q. ensure_queried e w dst (still_fresh q now) n) known
    ∙ ap (λ q. ensure_queried e w dst q n) (if_true _ _ _ fresh)
