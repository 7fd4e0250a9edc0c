-- ===== src/Node/Packets/Laws.antt =====
-- internal/node/packets.go: the filter in terms of the bits of a packet.
use nz.Base.{
  ℕ, ◌/◌, ◌%◌, ◌<◌, ◌≤◌, ◌≡◌, ◌≢◌, ◌↔◌, ◌⊎◌, refl, Bool, true, not, ◌||◌, List, arith, ◌==◌, nat_eq,
  if◌then◌else◌, length, get_or, passes_below, passes_below_at,
}
use nz.Node.Packets.{is_reply_packet, is_icmp_reply, is_tcp_reply, replies}

-- Bit 1 is clear or bit 4 is set.
abbrev flag_bits : ℕ → Bool
flag_bits flags = flags / 2 % 2 == 0 || flags / 16 % 2 == 1

abbrev agree : ℕ → Bool
agree flags = if replies flags then flag_bits flags else not (flag_bits flags)

flag_table : passes_below agree 256 ≡ true
unfolding passes_below replies
flag_table = refl

replies_iff :
    (flags : ℕ)
    → flags < 256
    → (replies flags ≡ true) ↔ ((flags / 2 % 2 ≡ 0) ⊎ (flags / 16 % 2 ≡ 1))
replies_iff flags small = ground (arith, passes_below_at agree 256 flags small flag_table)

-- A packet counts as a reply exactly if it is IPv4 of at least 20 bytes and either ICMP with a type
-- byte that is not the echo request, or TCP with its flags byte there and SYN clear or ACK set, where
-- the flags byte is one below 256.
pub is_reply_packet_iff :
    (raw : List ℕ)
    → get_or raw 33 0 < 256
    → (is_reply_packet raw ≡ true) ↔ (
        (20 ≤ length raw)
        × (get_or raw 0 0 / 16 ≡ 4)
        × (((get_or raw 9 0 ≡ 1) × (21 ≤ length raw) × (get_or raw 20 0 ≢ 8))
            ⊎ ((get_or raw 9 0 ≡ 6)
                × (34 ≤ length raw)
                × ((get_or raw 33 0 / 2 % 2 ≡ 0) ⊎ (get_or raw 33 0 / 16 % 2 ≡ 1)))))
unfolding is_reply_packet is_icmp_reply is_tcp_reply
is_reply_packet_iff raw small = ground (arith, replies_iff (get_or raw 33 0) small)
