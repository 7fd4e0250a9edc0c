-- ===== src/Node/Runs.antt =====
-- internal/node: everything that can happen to a node, in any order.
use nz.Base.{refl, inl, ℕ, Bool, List, [], ◌∷◌, String, Option, All}
use nz.Netip.{Addr, AddrPort}
use nz.Config.{Config}
use nz.State.Model.{State}
use nz.Server.Model.{AdminRequest}
use nz.Node.Model.{Node, Env, Task, start}
use nz.Node.Waiting.{Pause}
use nz.Node.Outgoing.{read_tun}
use nz.Node.Outgoing.Soundness.{read_tun-IsSound}
use nz.Node.Incoming.{read_udp}
use nz.Node.Incoming.Soundness.{read_udp-IsSound}
use nz.Node.Upkeep.{keep_alive_round, run_task}
use nz.Node.Upkeep.Soundness.{keep_alive_round-IsSound, run_task-IsSound}
use nz.Node.Joining.{Round, connect, join_loop, watch_server}
use nz.Node.Joining.Soundness.{KeepsRound, connect-IsSound, join_loop-IsSound, watch_server-IsSound}
use nz.Node.Requests.{admin_command, query_machines}
use nz.Node.Requests.Soundness.{admin_command-IsSound, query_machines-IsSound}
use nz.Node.Sound.{IsSound, carry}

module _ (e : Env) where
  -- What can become of a node: one goroutine after the other takes a step, and during each wait the
  -- others take steps of their own, which end before the wait does.
  mutual
    pub data Reach : Node → Node → Type 0 where
      here : (n : Node) → Reach n n
      connecting :
          {s n : Node}
          → Reach s n
          → (dns : String → Option (List Addr)) (opens : Bool) → Reach s (connect dns opens n).0
      joining :
          {s n : Node} → Reach s n → (ws : List Round) → Rounds ws → Reach s (join_loop e ws n).0
      watching :
          {s n : Node}
          → Reach s n
          → (ws : List Round) → Rounds ws
          → (now : ℕ) → Reach s (watch_server e ws now n)
      -- The first line of `serve`.
      serving : {s n : Node} → Reach s n → (now : ℕ) → Reach s (record n { last_server_seen = now })
      datagram :
          {s n : Node}
          → Reach s n
          → (bytes : List ℕ) (from : AddrPort) (now : ℕ) → Reach s (read_udp e bytes from now n)
      packet :
          {s n : Node}
          → Reach s n
          → (w : Pause) → ((m : Node) → Reach m (w.others m))
          → (nonce raw : List ℕ) (now : ℕ) → Reach s (read_tun e w nonce raw now n)
      upkeep : {s n : Node} → Reach s n → Reach s (keep_alive_round e n)
      running :
          {s n : Node}
          → Reach s n
          → (w : Pause) → ((m : Node) → Reach m (w.others m))
          → (now : ℕ) (task : Task) → Reach s (run_task e w now task n)
      managing :
          {s n : Node}
          → Reach s n
          → (w : Pause) → ((m : Node) → Reach m (w.others m))
          → (r : AdminRequest) → Reach s (admin_command e w r n).0
      listing :
          {s n : Node}
          → Reach s n
          → (w : Pause) → ((m : Node) → Reach m (w.others m))
          → Reach s (query_machines e w n).0

    pub data Rounds : List Round → Type 0 where
      none_left : Rounds []
      one_more :
          {w : Round} {ws : List Round}
          → ((m : Node) → Reach m (w.first_reply.others m))
          → ((m : Node) → Reach m (w.second_reply.others m))
          → ((m : Node) → Reach m (w.approval.others m))
          → ((m : Node) → Reach m (w.sleep m))
          → Rounds ws
          → Rounds (w ∷ ws)

  mutual
    Reach-IsSound : {s n : Node} → Reach s n → IsSound s → IsSound n
    Reach-IsSound (here n) h = h
    Reach-IsSound (connecting r dns opens) h = connect-IsSound dns opens _ (Reach-IsSound r h)
    Reach-IsSound (joining r ws rounds) h =
        join_loop-IsSound e ws (Rounds-All rounds) _ (Reach-IsSound r h)
    Reach-IsSound (watching r ws rounds now) h =
        watch_server-IsSound e ws (Rounds-All rounds) now _ (Reach-IsSound r h)
    Reach-IsSound (serving r now) h = carry refl refl refl refl (Reach-IsSound r h)
    Reach-IsSound (datagram r bytes from now) h =
        read_udp-IsSound e bytes from now _ (Reach-IsSound r h)
    Reach-IsSound (packet r w others nonce raw now) h =
        read_tun-IsSound e w nonce (λ m. Reach-IsSound (others m)) raw now _ (Reach-IsSound r h)
    Reach-IsSound (upkeep r) h = keep_alive_round-IsSound e _ (Reach-IsSound r h)
    Reach-IsSound (running r w others now task) h =
        run_task-IsSound e w (λ m. Reach-IsSound (others m)) now task _ (Reach-IsSound r h)
    Reach-IsSound (managing r w others request) h =
        admin_command-IsSound e w (λ m. Reach-IsSound (others m)) request _ (Reach-IsSound r h)
    Reach-IsSound (listing r w others) h =
        query_machines-IsSound e w (λ m. Reach-IsSound (others m)) _ (Reach-IsSound r h)

    Rounds-All : {ws : List Round} → Rounds ws → All KeepsRound ws
    Rounds-All none_left = tt
    Rounds-All (one_more first second approval sleep rounds) = (
      record {
        first = λ m. Reach-IsSound (first m);
        second = λ m. Reach-IsSound (second m);
        approval = λ m. Reach-IsSound (approval m);
        sleep = λ m. Reach-IsSound (sleep m);
      },
      Rounds-All rounds,
    )

  -- Whatever steps a node takes from its start on, in any order, with steps of other goroutines during
  -- each wait that end before the wait does: no queue of packets that wait for a peer is longer than 4,
  -- and as long as there is no network there is no device, and a network is always the /24 of the
  -- node's address.
  pub run-IsSound :
      (cfg : Config) (st : State) (blocked : Bool) (n : Node)
      → Reach (start cfg st blocked) n
      → IsSound n
  unfolding start
  run-IsSound cfg st blocked n r =
      Reach-IsSound r (record { bounded = tt; home = inl (refl, refl) })
