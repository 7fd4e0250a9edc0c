-- ===== src/Examples/Joins.antt =====
-- Example of a join.
use nz.Base.{false, string_eq, refl, ◌≡◌, List, [], ◌∷◌, none, some, arith, find_first, erase}
use nz.Config.{Config}
use nz.State.Join.{register_join}
use nz.Server.Model.{new}
use nz.Server.Sending.{join_key, remember_endpoint}
use nz.Server.Joining.{join_request, join_proof, complete_join, proof_args}
use nz.Server.Joining.Laws.{Proved}
use nz.Server.Joining.Acceptance.{IsComplete}
use nz.Node.Model.{Node, start}
use nz.Node.Joining.{own_request, own_proof}
use nz.Handshake.{handshake_accepted}
use nz.Examples.Data.{zeros, home, remote, server, env}
use nz.Examples.NodeData.{node_env, node_config, stranger}

abbrev carol_config : Config
carol_config = record node_config { user = "carol" }

abbrev carol_node : Node
carol_node = start carol_config home false

handshake_accepted_example :
    (let s1 = join_request env (own_request node_env carol_node) remote 1 none server in
      let s2 = join_request env (own_request node_env carol_node) remote 2 (some (1 ∷ 2 ∷ [])) s1 in
      let p = own_proof node_env (1 ∷ 2 ∷ []) carol_node in
      let s3 = record s2 { nonces = erase (join_key p.user p.machine) s2.nonces } in
      Proved env p s2
      × (join_proof env p stranger 3 s2
          ≡ complete_join env p stranger
              (register_join (proof_args env p) 3 s2.st)
              (remember_endpoint p.user p.machine stranger s3)))
unfolding start IsComplete zeros find_first new
handshake_accepted_example =
    handshake_accepted node_env env carol_node server remote remote stranger 1 2 3 none (1 ∷ 2 ∷ [])
      7 List.[] refl refl (omega arith, tt) refl refl
