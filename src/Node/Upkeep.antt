-- ===== src/Node/Upkeep.antt =====
-- internal/node/data.go: the periodic work of a node, and the goroutines that its handlers start.
pub mod Soundness
use nz.Base.{ℕ, zero, suc, Bool, not, ◌&&◌, List, [], ◌∷◌, ◌++◌, ◌==◌, if◌then◌else◌, map, keep_if}
use nz.Netip.{Addr, addr_eq, AddrPort, is_valid}
use nz.Protocol.Signed.{marshal_signed}
use nz.Protocol.MsgType
use nz.Node.Model.{Node, Env, Peer, Task, flush, refresh, punch, server_ip, send_envelope}
use nz.Node.Waiting.{Pause}
use nz.Node.Peers.{ensure_peer}
use nz.Node.Incoming.{ensure_peer_then_flush}

-- `punchPacket`
abbrev pub punch_packet : List ℕ
punch_packet = 0x50 ∷ []

abbrev write_punch : AddrPort → Node → Node
write_punch addr n = record n { sent = n.sent ++ record { to = addr; bytes = punch_packet } ∷ [] }

punch_times : ℕ → AddrPort → Node → Node
punch_times zero addr n = n
punch_times (suc k) addr n = punch_times k addr (write_punch addr n)

-- The sleeps between the five writes are left out.
unfoldable pub punch_addr : AddrPort → Node → Node
unfolding punch_times
punch_addr addr n = if not (is_valid addr) then n else punch_times 5 addr n

punch_each : List AddrPort → Node → Node
punch_each [] n = n
punch_each (addr ∷ addrs) n = punch_each addrs (write_punch addr n)

is_target : Node → Addr × Peer → Bool
unfolding server_ip
is_target n entry = is_valid entry.1.real_addr && not (entry.0 == server_ip n)

-- Go visits a map in any order; here it is that of the entries.
unfoldable pub punch_all_peers : Node → Node
unfolding punch_each is_target
punch_all_peers n = punch_each (map (λ entry. entry.1.real_addr) (keep_if (is_target n) n.peers)) n

module _ (e : Env) where
  -- One round of `keepAliveLoop`.
  unfoldable pub keep_alive_round : Node → Node
  unfolding punch_all_peers send_envelope marshal_signed server_ip
  keep_alive_round n = punch_all_peers (
      send_envelope MsgType.keep_alive
        (marshal_signed
          (record {
            typ = MsgType.keep_alive;
            src_ip = n.vpn_ip;
            dst_ip = server_ip n;
            payload = List.[];
          })
          e.crypto.sign)
        n)

  -- A goroutine from its start to its end.
  unfoldable pub run_task : Pause → ℕ → Task → Node → Node
  unfolding punch_addr ensure_peer ensure_peer_then_flush
  run_task w now (flush ip) n = ensure_peer_then_flush e w ip now n
  run_task w now (refresh ip) n = (ensure_peer e w ip now n).0
  run_task w now (punch addr) n = punch_addr addr n
