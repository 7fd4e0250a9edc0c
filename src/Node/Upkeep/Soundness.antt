-- ===== src/Node/Upkeep/Soundness.antt =====
-- internal/node/data.go: the bounds of a node around its periodic work and its goroutines.
use nz.Base.{map, keep_if, refl, ℕ, zero, suc, not, List, [], ◌∷◌, if_both}
use nz.Netip.{AddrPort, is_valid}
use nz.Protocol.Signed.{marshal_signed}
use nz.Protocol.MsgType
use nz.Node.Model.{server_ip, Node, Env, Task, flush, refresh, punch, send_envelope, send_to_addr}
use nz.Node.Waiting.{Pause}
use nz.Node.Peers.Soundness.{ensure_peer-IsSound}
use nz.Node.Incoming.Soundness.{ensure_peer_then_flush-IsSound}
use nz.Node.Upkeep.{
  is_target, punch_times, punch_each, write_punch, punch_addr, punch_all_peers, keep_alive_round,
  run_task,
}
use nz.Node.Sound.{IsSound, carry, KeepsSound}

punch_times-IsSound :
    (k : ℕ) (addr : AddrPort) (n : Node) → IsSound n → IsSound (punch_times k addr n)
unfolding punch_times
punch_times-IsSound zero addr n h = h
punch_times-IsSound (suc k) addr n h =
    punch_times-IsSound k addr (write_punch addr n) (carry refl refl refl refl h)

punch_each-IsSound : (addrs : List AddrPort) (n : Node) → IsSound n → IsSound (punch_each addrs n)
unfolding punch_each
punch_each-IsSound [] n h = h
punch_each-IsSound (addr ∷ addrs) n h =
    punch_each-IsSound addrs (write_punch addr n) (carry refl refl refl refl h)

punch_addr-IsSound : (addr : AddrPort) (n : Node) → IsSound n → IsSound (punch_addr addr n)
unfolding punch_addr
punch_addr-IsSound addr n h =
    if_both IsSound (not (is_valid addr)) n _ h (punch_times-IsSound 5 addr n h)

module _ (e : Env) where
  pub keep_alive_round-IsSound : (n : Node) → IsSound n → IsSound (keep_alive_round e n)
  unfolding keep_alive_round punch_all_peers send_envelope send_to_addr
  keep_alive_round-IsSound n h =
      let told : Node =
        send_envelope MsgType.keep_alive
          (marshal_signed
            (record {
              typ = MsgType.keep_alive;
              src_ip = n.vpn_ip;
              dst_ip = server_ip n;
              payload = List.[];
            })
            e.crypto.sign)
          n in
      punch_each-IsSound (map (λ entry. entry.1.real_addr) (keep_if (is_target told) told.peers))
        told (carry refl refl refl refl h)

  pub run_task-IsSound :
      (w : Pause)
      → KeepsSound w.others
      → (now : ℕ) (task : Task) (n : Node) → IsSound n
      → IsSound (run_task e w now task n)
  unfolding run_task
  run_task-IsSound w k now (flush ip) n h = ensure_peer_then_flush-IsSound e w k ip now n h
  run_task-IsSound w k now (refresh ip) n h = ensure_peer-IsSound e w k ip now n h
  run_task-IsSound w k now (punch addr) n h = punch_addr-IsSound addr n h
