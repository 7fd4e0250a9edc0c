-- ===== src/Protocol/MsgType.antt =====
-- internal/protocol/protocol.go: the values of MsgType, one byte each.
use nz.Base.{ℕ}

abbrev pub join_request : ℕ
join_request = 0x01

abbrev pub join_challenge : ℕ
join_challenge = 0x02

abbrev pub join_proof : ℕ
join_proof = 0x03

abbrev pub join_reply : ℕ
join_reply = 0x04

abbrev pub approve_notify : ℕ
approve_notify = 0x05

abbrev pub keep_alive : ℕ
keep_alive = 0x10

abbrev pub plain_data : ℕ
plain_data = 0x11

abbrev pub relay_data : ℕ
relay_data = 0x12

abbrev pub peer_query : ℕ
peer_query = 0x20

abbrev pub peer_query_rpy : ℕ
peer_query_rpy = 0x21

abbrev pub peer_intro : ℕ
peer_intro = 0x22

abbrev pub machine_list : ℕ
machine_list = 0x30

abbrev pub machine_list_rpy : ℕ
machine_list_rpy = 0x31

abbrev pub admin_request : ℕ
admin_request = 0x32

abbrev pub admin_rpy : ℕ
admin_rpy = 0x33

abbrev pub policy_changed : ℕ
policy_changed = 0x34

abbrev pub disconnect : ℕ
disconnect = 0x3f
