-- ===== src/Server/Handling/Store.antt =====
-- internal/server/server.go and data.go: a datagram and the store.
use nz.Base.{
  ℕ, ◌≡◌, refl, sym, subst, List, [], string_eq, Option, none, some, ◌==◌, nat_eq, if_both,
}
use nz.Netip.{AddrPort}
use nz.State.Model.{Machine}
use nz.State.Join.{touch}
use nz.State.Step.{touches}
use nz.State.Calls.{perform}
use nz.Protocol.Envelope.{Envelope, Parsed, parsed, failed, unmarshal}
use nz.Protocol.Signed.{SignedMessage, SignedParse, signed, too_short, parse_signed}
use nz.Protocol.MsgType
use nz.Server.Model.{Server, Env, AdminRequest, AdminReply}
use nz.Server.Sending.{remember_ip_endpoint, server_ip}
use nz.Server.History.{Reached, no_calls, one_call, send_signed-st, option_both}
use nz.Server.Relay.Store.{relay_data-st}
use nz.Server.Relay.{verify_machine}
use nz.Server.Local.Store.{local_data-st}
use nz.Server.Queries.Store.{handle_peer_query-st, handle_machine_list-st}
use nz.Server.Admin.{Done, admin_command}
use nz.Server.Admin.Store.{admin_command-Reached}
use nz.Server.Joining.Store.{handle_join_request-Reached, handle_join_proof-Reached}
use nz.Server.Handling.Laws.{send_admin_reply-st}
use nz.Server.Handling.{
  reply_done, admin_answer, handle_admin_request, answer_keep_alive, dispatch, accept,
  handle_signed, handle, serve, is_signed_type,
}

-- The store of the second server comes from the store of the first one.
Follows : Server → Server → Type 0
Follows s t = Reached s.st t.st

kept : (s t : Server) → t.st ≡ s.st → Follows s t
unfolding Follows
kept s t e = no_calls s.st t.st (sym e)

module _ (e : Env) where
  reply_done-st : (o : Done) → (reply_done o).0 ≡ o.0
  unfolding reply_done
  reply_done-st (s, none) = refl
  reply_done-st (s, some failure) = refl

  admin_answer-Follows :
      (r : AdminRequest) (src : Machine) (s : Server) → Follows s (admin_answer e r src s).0
  unfolding admin_answer Follows
  admin_answer-Follows r src s =
      if_both (λ (o : Server × AdminReply). Follows s o.0) (r.command == "users") _ _
        (kept s s refl)
        (if_both (λ (o : Server × AdminReply). Follows s o.0) _ _ _ (kept s s refl)
          (subst (Follows s) (sym (reply_done-st (admin_command e r.command r.target r.to s)))
            (admin_command-Reached e r.command r.target r.to s)))

  handle_admin_request-Follows :
      (m : SignedMessage) (src : Machine) (s : Server) → Follows s (handle_admin_request e m src s)
  unfolding handle_admin_request Follows
  handle_admin_request-Follows m src s =
      option_both (Follows s) (e.json.read_admin_request m.payload) s _ (kept s s refl) (λ r.
        subst (Reached s.st) (sym (send_admin_reply-st e m (admin_answer e r src s)))
          (admin_answer-Follows r src s))

  answer_keep_alive-Follows :
      (m : SignedMessage) (src : Machine) (remote : AddrPort) (now : ℕ) (s : Server)
      → Follows s (answer_keep_alive e m src remote now s)
  unfolding answer_keep_alive Follows perform
  answer_keep_alive-Follows m src remote now s =
      subst (Reached s.st)
        (sym (
          send_signed-st e
            (record {
              typ = MsgType.keep_alive;
              src_ip = server_ip s;
              dst_ip = m.src_ip;
              payload = [];
            })
            remote (record s { st = touch src.user src.name now s.st })))
        (one_call (touches src.user src.name now) s.st tt)

  dispatch-Follows :
      (env : Envelope) (m : SignedMessage) (src : Machine) (remote : AddrPort) (now : ℕ)
      (s : Server)
      → Follows s (dispatch e env m src remote now s)
  unfolding dispatch
  dispatch-Follows env m src remote now s =
      if_both (Follows s) (env.typ == MsgType.relay_data) _ _
        (kept s _ (relay_data-st m env.body src now s))
        (if_both (Follows s) (env.typ == MsgType.plain_data) _ _
          (kept s _ (local_data-st e m src s))
          (if_both (Follows s) (env.typ == MsgType.peer_query) _ _
            (kept s _ (handle_peer_query-st e m src remote s))
            (if_both (Follows s) (env.typ == MsgType.machine_list) _ _
              (kept s _ (handle_machine_list-st e m src now s))
              (if_both (Follows s) (env.typ == MsgType.admin_request) _ _
                (handle_admin_request-Follows m src s)
                (if_both (Follows s) (env.typ == MsgType.keep_alive) _ _
                  (answer_keep_alive-Follows m src remote now s) (kept s s refl))))))

  accept-Follows :
      (env : Envelope) (m : SignedMessage) (remote : AddrPort) (now : ℕ) (s : Server)
      (o : Option Machine)
      → Follows s (accept e env m remote now s o)
  unfolding accept Follows remember_ip_endpoint
  accept-Follows env m remote now s none = kept s s refl
  accept-Follows env m remote now s (some src) =
      if_both (Follows s) _ _ _ (kept s s refl)
        (dispatch-Follows env m src remote now (remember_ip_endpoint m.src_ip remote s))

  handle_signed-Follows :
      (env : Envelope) (remote : AddrPort) (now : ℕ) (s : Server)
      → Follows s (handle_signed e env remote now s)
  unfolding handle_signed
  handle_signed-Follows env remote now s = by_parse (parse_signed env.body) refl
    where
      by_parse :
          (r : SignedParse)
          → parse_signed env.body ≡ r
          → Follows s (handle_signed e env remote now s)
      by_parse (too_short _) read = rw (read, handle_signed) (kept s s refl)
      by_parse (signed m sig) read =
          rw (read, handle_signed) (accept-Follows env m remote now s (verify_machine e m sig s))

  handle-Follows :
      (env : Envelope) (remote : AddrPort) (now : ℕ) (random : Option (List ℕ)) (s : Server)
      → Follows s (handle e env remote now random s)
  unfolding handle Follows
  handle-Follows env remote now random s =
      if_both (Follows s) (env.typ == MsgType.join_request) _ _
        (handle_join_request-Reached e env.body remote now random s)
        (if_both (Follows s) (env.typ == MsgType.join_proof) _ _
          (handle_join_proof-Reached e env.body remote now s)
          (if_both (Follows s) (is_signed_type e env.typ) _ _
            (handle_signed-Follows env remote now s) (kept s s refl)))

  -- Whatever bytes a datagram holds and wherever it comes from, the server's store after it comes from
  -- the store before it by a sequence of the store's own operations, none of which is Trust, Untrust,
  -- SetVerifier or EnsureAdmin.
  pub serve-Reached :
      (bytes : List ℕ) (remote : AddrPort) (now : ℕ) (random : Option (List ℕ)) (s : Server)
      → Reached s.st (serve e bytes remote now random s).st
  unfolding serve Follows
  serve-Reached bytes remote now random s = by_parse (unmarshal bytes) refl
    where
      by_parse :
          (r : Parsed) → unmarshal bytes ≡ r → Reached s.st (serve e bytes remote now random s).st
      by_parse (failed _) read = rw (read, serve) (kept s s refl)
      by_parse (parsed env) read = rw (read, serve) (handle-Follows env remote now random s)
