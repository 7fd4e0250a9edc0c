-- ===== src/Examples/Travel.antt =====
-- Example of a packet that crosses the network.
use nz.Base.{refl, ◌≡◌, true, false, List, [], ◌∷◌, ◌++◌, none, some, arith, find_first, lookup}
use nz.Netip.{to_string}
use nz.Server.Model.{new}
use nz.Protocol.Signed.{marshal_signed, sign_bytes}
use nz.Server.Policy.{allow_relay, machine_keys}
use nz.Server.Sending.{ip_endpoint}
use nz.Server.Handling.{serve}
use nz.Server.Relay.Passing.{CanRelay}
use nz.Node.Model.{Node, Peer, start, server_ip}
use nz.Node.Peers.{lookup_peer}
use nz.Node.Outgoing.{send_to}
use nz.Node.Incoming.{read_udp}
use nz.Journey.{CanSend, CanReceive, Paired, message, datagram, packet_arrives}
use nz.Examples.Data.{zeros, home, remote, server, env, phone, laptop}
use nz.Examples.NodeData.{
  node_env, node_config, laptop_node, phone_ip, laptop_ip, phone_peer, quiet, nonce, ping,
  server_at,
}

-- The laptop, as the phone knows it: the phone may call, and the laptop may not.
abbrev laptop_peer : Peer
laptop_peer = record phone_peer { can_call_back = false; direct_ok = false }

abbrev phone_node : Node
phone_node = record (start node_config home false) {
  connected = true;
  server_addr = server_at;
  vpn_ip = phone_ip;
  subnet = some (record { addr = 167772160; bits = 24 });
  has_tun = true;
  peers = (laptop_ip, laptop_peer) ∷ [];
}

phone_sends : CanSend phone_node laptop_ip laptop_peer 6
unfolding start lookup_peer server_ip zeros
phone_sends = record {
  listening = refl;
  other = refl;
  known = refl;
  fresh = refl;
  may = refl;
  back = refl;
  key = refl;
}

server_relays :
    CanRelay (message node_env laptop_peer nonce ping phone_node laptop_ip) phone laptop server
unfolding start to_string find_first ip_endpoint allow_relay new lookup
server_relays = record {
  connected = refl;
  sender = refl;
  target = refl;
  sender_active = refl;
  target_active = refl;
  allowed = refl;
  reachable = refl;
}

laptop_receives : CanReceive laptop_node phone_ip phone_peer
unfolding laptop_node start lookup_peer
laptop_receives = record { listening = refl; known = refl; may = refl }

verified_at_server : Paired node_env env.crypto.verify (machine_keys phone).0
unfolding zeros machine_keys
verified_at_server = record { sign_size = λ text. refl; pub_size = refl; accepts = λ text. refl }

verified_at_laptop : Paired node_env node_env.crypto.verify phone_peer.sign_pub
unfolding zeros
verified_at_laptop = record { sign_size = λ text. refl; pub_size = refl; accepts = λ text. refl }

packet_arrives_example :
    ((send_to node_env (quiet 7) nonce laptop_ip ping 6 phone_node).sent
      ≡ List.[]
        ++ record {
          to = server_at;
          bytes = datagram node_env laptop_peer nonce ping phone_node laptop_ip;
        }
          ∷ [])
    × ((serve env
          (datagram node_env laptop_peer nonce ping phone_node laptop_ip)
          remote
          8
          none
          server).sent
        ≡ server.sent
          ++ record {
            to = ip_endpoint laptop_ip server;
            bytes = datagram node_env laptop_peer nonce ping phone_node laptop_ip;
          }
            ∷ [])
    × ((read_udp node_env
          (datagram node_env laptop_peer nonce ping phone_node laptop_ip)
          server_at
          9
          laptop_node).written
        ≡ List.[] ++ ping ∷ [])
unfolding laptop_node start marshal_signed sign_bytes zeros
packet_arrives_example =
    packet_arrives node_env node_env env phone_node laptop_node server laptop_peer phone_peer phone
      laptop (quiet 7) nonce ping remote 6 8 9 none phone_sends server_relays laptop_receives
      verified_at_server verified_at_laptop (omega arith) (omega arith) refl refl refl refl refl
      (omega arith)
