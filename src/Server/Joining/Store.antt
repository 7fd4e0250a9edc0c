-- ===== src/Server/Joining/Store.antt =====
-- internal/server/server.go: a join message and the store.
use nz.Base.{
  ℕ, ℤ, not, refl, sym, subst, String, Bool, List, Option, none, some, ◌==◌, string_eq, if_both,
  lookup, erase,
}
use nz.Netip.{AddrPort, Prefix, parse_prefix, parse_addr, octet_3}
use nz.State.Model.{
  State, Error, Machine, MachineStatus, machine_status_eq, User, find_machine, find_user,
}
use nz.State.Alloc.{Allocated, allocated, refused, allocate_ip}
use nz.State.Join.{register_join, is_zero}
use nz.State.Roster
use nz.State.Step.{allows, joins, sets_ip}
use nz.State.Calls.{perform}
use nz.Server.Model.{
  Server, Env, JoinRequest, JoinProof, JoinReply, parts_required, no_challenge, proof_failed,
  unknown_user, store_error,
}
use nz.Server.Policy.{admin_name}
use nz.Server.Sending.{join_key, remember_endpoint, send_join_reply}
use nz.Server.History.{Reached, no_calls, one_call, Reached-trans, send_envelope-st, option_both}
use nz.Server.Joining.{
  assign_ip, move_into, ensure_in_subnet, rebind_desired, assigned, approve_admin,
  auto_approve_admin, settle, finish_join, complete_join, check_proof, join_proof,
  handle_join_proof, answer_registration, challenge, join_request, handle_join_request,
  request_args, proof_args, is_octet, reply_with, text_of, address_of, rejected,
}
use nz.Server.Joining.Laws.{send_join_reply-st}

-- The server's store comes from the given one.
From : State → Server → Type 0
From st s = Reached st s.st

module _ (st : State) where
  given : (t : State) (s : Server) → Reached st t → From st (record s { st = t })
  unfolding From
  given t s h = h

  by_call : (s : Server) (t : State) → From st s → Reached s.st t → Reached st t
  unfolding From
  by_call s t before step = Reached-trans st s.st t before step

  assign_ip-From :
      (user machine : String) (a : Allocated) (s : Server)
      → From st s
      → From st (assign_ip user machine a s)
  unfolding assign_ip From perform
  assign_ip-From user machine (refused e) s before = before
  assign_ip-From user machine (allocated ip) s before =
      by_call s _ before (one_call (sets_ip user machine ip) s.st tt)

  move_into-From :
      (user machine : String) (m : Machine) (o : Option Prefix) (s : Server)
      → From st s
      → From st (move_into user machine m o s)
  unfolding move_into
  move_into-From user machine m none s before = before
  move_into-From user machine m (some p) s before =
      if_both (From st) _ _ _ before (assign_ip-From user machine _ s before)

  ensure_in_subnet-From :
      (user machine : String) (s : Server) → From st s → From st (ensure_in_subnet user machine s)
  unfolding ensure_in_subnet
  ensure_in_subnet-From user machine s before =
      option_both (From st) (find_machine user machine s.st) s _ before (λ m.
        if_both (From st) (m.vpn_ip == "") _ _ before
          (move_into-From user machine m (parse_prefix s.cfg.subnet) s before))

  rebind_desired-From :
      (user machine : String) (desired : ℤ) (s : Server)
      → From st s
      → From st (rebind_desired user machine desired s)
  unfolding rebind_desired
  rebind_desired-From user machine desired s before =
      if_both (From st) (is_zero desired) _ _ before (
        option_both (From st) (find_machine user machine s.st) s _ before (λ m.
          if_both (From st) (m.vpn_ip == "") _ _ before (
            option_both (From st) (parse_addr m.vpn_ip) s _ before (λ ip.
              if_both (From st) (is_octet desired (octet_3 ip)) _ _ before
                (assign_ip-From user machine (allocate_ip s.cfg.subnet desired s.st) s before)))))

  assigned-From :
      (user machine : String) (a : Allocated) (s : Server)
      → From st s
      → From st (assigned user machine a s).0
  unfolding assigned From perform
  assigned-From user machine (refused e) s before = before
  assigned-From user machine (allocated ip) s before =
      by_call s _ before (one_call (sets_ip user machine ip) s.st tt)

  approve_admin-From :
      (user machine : String) (o : State × Option Error) (s : Server)
      → Reached st o.0
      → From st (approve_admin user machine o s).0
  unfolding approve_admin From
  approve_admin-From user machine (t, some e) s before = before
  approve_admin-From user machine (t, none) s before =
      assigned-From user machine _ (record s { st = t }) before

  auto_approve_admin-From :
      (user machine : String) (s : Server)
      → From st s
      → From st (auto_approve_admin user machine s).0
  unfolding auto_approve_admin perform
  auto_approve_admin-From user machine s before =
      if_both (λ (o : Server × Bool). From st o.0) (not (user == admin_name s)) _ _ before
        (approve_admin-From user machine (Roster.allow user machine s.st) s
          (by_call s _ before (one_call (allows user machine) s.st tt)))

module _ (e : Env) (st : State) where
  replied :
      (remote : AddrPort) (r : JoinReply) (s : Server)
      → From st s
      → From st (send_join_reply e remote r s)
  unfolding From
  replied remote r s before = subst (Reached st) (sym (send_join_reply-st e remote r s)) before

  settle-From :
      (p : JoinProof) (status : MachineStatus) (s : Server)
      → From st s
      → From st (settle e p status s).0
  unfolding settle
  settle-From p status s before =
      let moved =
        rebind_desired-From st p.user p.machine p.desired_ip (ensure_in_subnet p.user p.machine s)
          (ensure_in_subnet-From st p.user p.machine s before) in
      if_both (λ (o : Server × String). From st o.0) (status == MachineStatus.pending) _ _
        (auto_approve_admin-From st p.user p.machine _ moved) moved

  finish_join-From :
      (p : JoinProof) (remote : AddrPort) (o : Server × String)
      → From st o.0
      → From st (finish_join e p remote o)
  unfolding finish_join
  finish_join-From p remote (s, result) before =
      replied remote
        (record (reply_with result) { vpn_ip = address_of (find_machine p.user p.machine s.st) }) s
        before

  complete_join-From :
      (p : JoinProof) (remote : AddrPort) (o : State × Option MachineStatus × Option Error)
      (s : Server)
      → Reached st o.0
      → From st (complete_join e p remote o s)
  unfolding complete_join
  complete_join-From p remote (t, status, some failure) s before =
      replied remote (rejected (store_error failure)) (record s { st = t }) (given st t s before)
  complete_join-From p remote (t, some status, none) s before =
      finish_join-From p remote (settle e p status (record s { st = t }))
        (settle-From p status (record s { st = t }) (given st t s before))
  complete_join-From p remote (t, none, none) s before =
      finish_join-From p remote
        (
          rebind_desired p.user p.machine p.desired_ip
              (ensure_in_subnet p.user p.machine (record s { st = t })),
          "",
        )
        (rebind_desired-From st p.user p.machine p.desired_ip
          (ensure_in_subnet p.user p.machine (record s { st = t }))
          (ensure_in_subnet-From st p.user p.machine (record s { st = t }) (given st t s before)))

  check_proof-From :
      (p : JoinProof) (u : User) (o : Option (List ℕ)) (remote : AddrPort) (now : ℕ) (s : Server)
      → From st s
      → From st (check_proof e p u o remote now s)
  unfolding check_proof From perform remember_endpoint
  check_proof-From p u none remote now s before = replied remote (rejected no_challenge) s before
  check_proof-From p u (some nonce) remote now s before =
      if_both (From st) _ _ _ (replied remote (rejected proof_failed) s before) (
        complete_join-From p remote (register_join (proof_args e p) now s.st)
          (remember_endpoint p.user p.machine remote s)
          (by_call st s _ before (one_call (joins (proof_args e p) now) s.st tt)))

  join_proof-From :
      (p : JoinProof) (remote : AddrPort) (now : ℕ) (s : Server)
      → From st s
      → From st (join_proof e p remote now s)
  unfolding join_proof From
  join_proof-From p remote now s before =
      option_both (From st) (find_user p.user s.st) _ _
        (replied remote (rejected unknown_user) s before)
        (λ u.
          check_proof-From p u (lookup (join_key p.user p.machine) s.nonces) remote now
            (record s { nonces = erase (join_key p.user p.machine) s.nonces }) before)

  answer_registration-From :
      (remote : AddrPort) (o : State × Option MachineStatus × Option Error) (s : Server)
      → Reached st o.0
      → From st (answer_registration e remote o s)
  unfolding answer_registration
  answer_registration-From remote (t, status, some failure) s before =
      replied remote (rejected (store_error failure)) (record s { st = t }) (given st t s before)
  answer_registration-From remote (t, status, none) s before =
      replied remote (reply_with (text_of status)) (record s { st = t }) (given st t s before)

  challenge-From :
      (r : JoinRequest) (remote : AddrPort) (o : Option (List ℕ)) (s : Server)
      → From st s
      → From st (challenge e r remote o s)
  unfolding challenge From
  challenge-From r remote none s before = before
  challenge-From r remote (some nonce) s before =
      subst (Reached st) (sym (send_envelope-st remote _ _ _)) before

  join_request-From :
      (r : JoinRequest) (remote : AddrPort) (now : ℕ) (random : Option (List ℕ)) (s : Server)
      → From st s
      → From st (join_request e r remote now random s)
  unfolding join_request From perform remember_endpoint
  join_request-From r remote now random s before =
      if_both (From st) _ _ _ (replied remote (rejected parts_required) s before) (
        option_both (From st) (find_user r.user s.st) _ _
          (answer_registration-From remote (register_join (request_args e r) now s.st)
            (remember_endpoint r.user r.machine remote s)
            (by_call st s _ before (one_call (joins (request_args e r) now) s.st tt)))
          (λ u.
            challenge-From r remote random (remember_endpoint r.user r.machine remote s) before))

module _ (e : Env) where
  pub handle_join_request-Reached :
      (body : List ℕ) (remote : AddrPort) (now : ℕ) (random : Option (List ℕ)) (s : Server)
      → Reached s.st (handle_join_request e body remote now random s).st
  unfolding handle_join_request From
  handle_join_request-Reached body remote now random s =
      let start = no_calls s.st s.st refl in
      option_both (From s.st) (e.json.read_join_request body) s _ start
        (λ r. join_request-From e s.st r remote now random s start)

  pub handle_join_proof-Reached :
      (body : List ℕ) (remote : AddrPort) (now : ℕ) (s : Server)
      → Reached s.st (handle_join_proof e body remote now s).st
  unfolding handle_join_proof From
  handle_join_proof-Reached body remote now s =
      let start = no_calls s.st s.st refl in
      option_both (From s.st) (e.json.read_join_proof body) s _ start
        (λ p. join_proof-From e s.st p remote now s start)
