-- ===== src/Server/Sending.antt =====
-- internal/server/server.go and data.go: what the server writes to its socket, and the endpoints that
-- it remembers. Addresses are IPv4, so `Unmap` changes nothing.
use nz.Base.{
  ℕ, String, not, List, [], ◌∷◌, ◌++◌, Option, none, some, ◌==◌, string_eq, if◌then◌else◌, lookup,
  insert,
}
use nz.Netip.{Addr, invalid, v4, addr_eq, AddrPort, is_valid, next, parse_addr, parse_prefix}
use nz.State.Grants.{subject_of}
use nz.Protocol.Envelope.{Envelope, marshal}
use nz.Protocol.Signed.{SignedMessage, marshal_signed}
use nz.Protocol.Answer.{no_endpoint}
use nz.Protocol.MsgType
use nz.Server.Model.{Server, Env, JoinReply}

-- `joinKey` is the same text as a machine's grant subject.
abbrev pub join_key : String → String → String
join_key = subject_of

unfoldable pub send_raw : Envelope → AddrPort → Server → Server
unfolding marshal
send_raw env addr s =
    if s.connected
    then record s { sent = s.sent ++ record { to = addr; bytes = marshal env } ∷ [] }
    else s

unfoldable pub send_envelope : AddrPort → ℕ → List ℕ → Server → Server
unfolding send_raw
send_envelope addr typ body s = send_raw (record { typ = typ; body = body }) addr s

unfoldable pub remember_endpoint : String → String → AddrPort → Server → Server
remember_endpoint user machine addr s = record s {
  endpoints = insert (join_key user machine) addr s.endpoints;
}

unfoldable pub remember_ip_endpoint : Addr → AddrPort → Server → Server
remember_ip_endpoint ip addr s = record s { ip_endpoints = insert ip addr s.ip_endpoints }

abbrev or_nowhere : Option AddrPort → AddrPort
or_nowhere none = no_endpoint
or_nowhere (some addr) = addr

-- A missing entry reads as the zero AddrPort.
unfoldable pub ip_endpoint : Addr → Server → AddrPort
unfolding lookup
ip_endpoint ip s = or_nowhere (lookup ip s.ip_endpoints)

-- The zero Addr if the subnet cannot be read.
unfoldable pub server_ip : Server → Addr
unfolding parse_prefix next
server_ip s = elim (parse_prefix s.cfg.subnet) [ none ↦ invalid | some p ↦ next (v4 p.addr) ]

module _ (e : Env) where
  unfoldable pub send_signed : SignedMessage → AddrPort → Server → Server
  unfolding send_raw marshal_signed
  send_signed m addr s =
      if not (is_valid addr)
      then s
      else send_raw (record { typ = m.typ; body = marshal_signed m e.crypto.sign }) addr s

  -- The endpoint of a reply that carries an address is remembered under it.
  unfoldable pub remember_reply : AddrPort → String → Server → Server
  unfolding remember_ip_endpoint parse_addr
  remember_reply addr vpn_ip s =
      if vpn_ip == ""
      then s
      else elim (parse_addr vpn_ip) [ none ↦ s | some ip ↦ remember_ip_endpoint ip addr s ]

  unfoldable pub send_join_reply : AddrPort → JoinReply → Server → Server
  unfolding remember_reply send_envelope
  send_join_reply addr reply s =
      send_envelope addr MsgType.join_reply
        (e.json.write_join_reply (record reply { server_pub = e.crypto.server_blob }))
        (remember_reply addr reply.vpn_ip s)
