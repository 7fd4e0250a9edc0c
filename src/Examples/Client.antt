-- ===== src/Examples/Client.antt =====
-- Examples of the packet filter and of a reload.
use nz.Base.{
  ℕ, ◌/◌, ◌%◌, ◌≤◌, ◌≡◌, ◌≢◌, ◌↔◌, ◌⊎◌, true, false, List, ◌∷◌, ◌++◌, some, arith, length, get_or,
}
use nz.Node.Packets.{is_reply_packet}
use nz.Node.Packets.Laws.{is_reply_packet_iff}
use nz.Daemon.{Daemon}
use nz.Config.{Config}
use nz.Examples.Data.{zeros, server_config, home, user_named}

-- IPv4, TCP, with SYN and ACK set.
abbrev syn_ack : List ℕ
syn_ack = 69 ∷ zeros 8 ++ 6 ∷ zeros 23 ++ 18 ∷ zeros 6

is_reply_packet_iff_example : (is_reply_packet syn_ack ≡ true) ↔ (
    (20 ≤ length syn_ack)
    × (get_or syn_ack 0 0 / 16 ≡ 4)
    × (((get_or syn_ack 9 0 ≡ 1) × (21 ≤ length syn_ack) × (get_or syn_ack 20 0 ≢ 8))
        ⊎ ((get_or syn_ack 9 0 ≡ 6)
            × (34 ≤ length syn_ack)
            × ((get_or syn_ack 33 0 / 2 % 2 ≡ 0) ⊎ (get_or syn_ack 33 0 / 16 % 2 ≡ 1)))))
unfolding zeros
is_reply_packet_iff_example = is_reply_packet_iff syn_ack (omega arith)

abbrev running : Daemon
running = record {
  cfg = server_config;
  st = record home { users = user_named "root" ∷ home.users };
  server = some server_config;
  node = false;
  starts = 0;
}

-- The same file with another password of the administrator.
abbrev repassworded : Config
repassworded = record server_config { admin = record { name = "root"; password = "changed" } }
