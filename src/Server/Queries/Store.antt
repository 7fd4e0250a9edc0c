-- ===== src/Server/Queries/Store.antt =====
-- internal/server/data.go: discovery, the machine list and the store.
use nz.Base.{ℕ, ◌≡◌, refl, ◌∙◌, arith, Option-cases, inl, inr}
use nz.Netip.{Addr, AddrPort, parse_addr, to_string}
use nz.State.Model.{Machine, find_machine_by_ip}
use nz.Protocol.Signed.{SignedMessage, QueryParse, bad_size, target, parse_peer_query}
use nz.Protocol.Answer.{PeerAnswer, marshal_peer_answer}
use nz.Protocol.MsgType
use nz.Server.Sending.{send_signed, send_raw, server_ip, ip_endpoint}
use nz.Server.Model.{Server, Env}
use nz.Server.History.{send_signed-st}
use nz.Server.Queries.{
  handle_peer_query, answer_query, introduce, send_peer_intro, intro_to, handle_machine_list,
  peer_answer,
}

module _ (e : Env) where
  intro_to-st :
      (ip : Addr) (src : Machine) (remote : AddrPort) (s : Server)
      → (intro_to e ip src remote s).st ≡ s.st
  unfolding intro_to send_signed send_raw
  intro_to-st ip src remote s = ground arith

  send_peer_intro-st :
      (src dst : Machine) (remote : AddrPort) (s : Server)
      → (send_peer_intro e src dst remote s).st ≡ s.st
  unfolding send_peer_intro
  send_peer_intro-st src dst remote s = elim (Option-cases (parse_addr dst.vpn_ip)) [
    | inl missing ↦ rw (missing, send_peer_intro) refl
    | inr (ip, found) ↦ rw (found, send_peer_intro) (intro_to-st ip src remote s)
  ]

  introduce-st :
      (answer : PeerAnswer) (ip : Addr) (src : Machine) (remote : AddrPort) (s : Server)
      → (introduce e answer ip src remote s).st ≡ s.st
  unfolding introduce
  introduce-st answer ip src remote s =
      elim (Option-cases (find_machine_by_ip (to_string ip) s.st)) [
        | inl missing ↦ rw (missing, introduce) (ground arith)
        | inr (dst, found) ↦
            rw (found, introduce) (ground (arith, send_peer_intro-st src dst remote s))
      ]

  answer_query-st :
      (m : SignedMessage) (ip : Addr) (src : Machine) (remote : AddrPort) (s : Server)
      → (answer_query e m ip src remote s).st ≡ s.st
  unfolding answer_query
  answer_query-st m ip src remote s =
      let reply : SignedMessage = record {
        typ = MsgType.peer_query_rpy;
        src_ip = server_ip s;
        dst_ip = m.src_ip;
        payload = marshal_peer_answer (peer_answer src ip s);
      } in
      introduce-st (peer_answer src ip s) ip src remote
        (send_signed e reply (ip_endpoint m.src_ip s) s)
      ∙ send_signed-st e reply (ip_endpoint m.src_ip s) s

  pub handle_peer_query-st :
      (m : SignedMessage) (src : Machine) (remote : AddrPort) (s : Server)
      → (handle_peer_query e m src remote s).st ≡ s.st
  unfolding handle_peer_query
  handle_peer_query-st m src remote s = by_parse (parse_peer_query m.payload) refl
    where
      by_parse :
          (r : QueryParse)
          → parse_peer_query m.payload ≡ r
          → (handle_peer_query e m src remote s).st ≡ s.st
      by_parse (bad_size _) read = rw (read, handle_peer_query) refl
      by_parse (target ip) read = rw (read, handle_peer_query) (answer_query-st m ip src remote s)

  pub handle_machine_list-st :
      (m : SignedMessage) (src : Machine) (now : ℕ) (s : Server)
      → (handle_machine_list e m src now s).st ≡ s.st
  unfolding handle_machine_list send_signed send_raw
  handle_machine_list-st m src now s = ground arith
