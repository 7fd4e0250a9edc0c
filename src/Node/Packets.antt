-- ===== src/Node/Packets.antt =====
-- internal/node/packets.go: which packets are replies.
pub mod Laws
use nz.Base.{
  ℕ, ◌/◌, ◌<◌, Bool, true, false, not, ◌&&◌, ◌||◌, List, ltb, ◌==◌, nat_eq, if◌then◌else◌, length,
  get_or, bit_and,
}

is_icmp_reply : List ℕ → Bool
is_icmp_reply raw = if ltb (length raw) 21 then false else not (get_or raw 20 0 == 8)

-- `syn` is 0x02 and `ack` is 0x10.
unfoldable pub replies : ℕ → Bool
replies flags = not (not (bit_and flags 0x02 == 0) && bit_and flags 0x10 == 0)

is_tcp_reply : List ℕ → Bool
unfolding replies
is_tcp_reply raw = if ltb (length raw) 34 then false else replies (get_or raw 33 0)

unfoldable pub is_reply_packet : List ℕ → Bool
unfolding is_icmp_reply is_tcp_reply
is_reply_packet raw =
    if ltb (length raw) 20 || not (get_or raw 0 0 / 16 == 4)
    then false
    else if get_or raw 9 0 == 1
    then is_icmp_reply raw
    else if get_or raw 9 0 == 6
    then is_tcp_reply raw
    else false
