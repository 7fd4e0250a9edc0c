-- ===== src/Examples/Nodes.antt =====
-- Examples of the client side.
use nz.Base.{refl, ◌≡◌, ◌⊎◌, true, false, [], ◌∷◌, ◌++◌}
use nz.Protocol.Signed.{parse_signed}
use nz.Protocol.Sealed.{seal}
use nz.Protocol.MsgType
use nz.Node.Model.{server_ip, start, send_to_addr}
use nz.Node.Peers.{ensure_peer, lookup_peer}
use nz.Node.Outgoing.{send_to, data_body, read_tun}
use nz.Node.Outgoing.Laws.{Transmitted, send_to-Transmitted}
use nz.Node.Incoming.{handle_data, handle_policy_changed, read_udp}
use nz.Node.Incoming.Laws.{Accepted, handle_data-Accepted}
use nz.Node.Incoming.Spoofing.{handle_data-send_to}
use nz.Node.Incoming.Notices.{Noticed, handle_policy_changed-Noticed}
use nz.Node.Runs.{here, datagram, packet, run-IsSound}
use nz.Node.Sound.{IsSound}
use nz.Examples.Data.{zeros, home, remote}
use nz.Examples.NodeData.{
  node_env, wary_env, node_config, laptop_node, phone_ip, phone_peer, from_phone, phone_data, quiet,
  nonce, ping, stranger,
}

handle_data-delivers : (handle_data node_env phone_data remote 6 laptop_node).written ≡ ping ∷ []
unfolding handle_data laptop_node phone_data parse_signed lookup_peer zeros
handle_data-delivers = refl

handle_data-Accepted_example :
    ((handle_data node_env phone_data remote 6 laptop_node).written ≡ laptop_node.written)
    ⊎ Accepted node_env phone_data laptop_node
        (handle_data node_env phone_data remote 6 laptop_node)
handle_data-Accepted_example = handle_data-Accepted node_env phone_data remote 6 laptop_node

send_to-Transmitted_example :
    ((laptop_node.self_blocked ≡ true)
      × (send_to node_env (quiet 7) nonce phone_ip ping 6 laptop_node ≡ laptop_node))
    ⊎ ((send_to node_env (quiet 7) nonce phone_ip ping 6 laptop_node).sent
        ≡ (ensure_peer node_env (quiet 7) phone_ip 6 laptop_node).0.sent)
    ⊎ Transmitted node_env nonce phone_ip ping laptop_node
        (ensure_peer node_env (quiet 7) phone_ip 6 laptop_node)
        (send_to node_env (quiet 7) nonce phone_ip ping 6 laptop_node)
send_to-Transmitted_example =
    send_to-Transmitted node_env (quiet 7) nonce phone_ip ping 6 laptop_node

run-IsSound_example : IsSound (
    read_tun node_env
      (quiet 7)
      nonce
      ping
      6
      (read_udp node_env (1 ∷ 2 ∷ []) remote 5 (start node_config home false)))
run-IsSound_example =
    run-IsSound node_env node_config home false
      (read_tun node_env (quiet 7) nonce ping 6
        (read_udp node_env (1 ∷ 2 ∷ []) remote 5 (start node_config home false)))
      (packet (datagram (here (start node_config home false)) (1 ∷ 2 ∷ []) remote 5) (quiet 7) here
        nonce ping 6)

-- The node turns to a stranger's endpoint although the signature is refused.
handle_data-send_to_example :
    (let t = handle_data wary_env phone_data stranger 6 laptop_node in
      send_to wary_env (quiet 8) nonce phone_ip ping 7 t
      ≡ send_to_addr MsgType.plain_data (data_body wary_env phone_ip (nonce ++ ping) t) stranger t)
unfolding laptop_node phone_data parse_signed lookup_peer seal zeros server_ip
handle_data-send_to_example =
    handle_data-send_to wary_env phone_data stranger 6 laptop_node from_phone (zeros 64) phone_peer
      refl refl refl refl (quiet 8) nonce ping (nonce ++ ping) 7 refl refl refl refl refl

handle_policy_changed-Noticed_example :
    (handle_policy_changed node_env phone_data laptop_node ≡ laptop_node)
    ⊎ Noticed node_env phone_data laptop_node
        (handle_policy_changed node_env phone_data laptop_node)
handle_policy_changed-Noticed_example =
    handle_policy_changed-Noticed node_env phone_data laptop_node
