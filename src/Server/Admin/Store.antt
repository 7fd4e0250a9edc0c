-- ===== src/Server/Admin/Store.antt =====
-- internal/server/server.go: a management command and the store.
use nz.Base.{
  ◌≡◌, refl, sym, subst, ◌∙◌, String, List, [], ◌∷◌, Option, none, some, arith, ◌==◌, string_eq,
  Option-cases, inl, inr, if_both, lookup,
}
use nz.Netip.{AddrPort, parse_addr}
use nz.State.Model.{
  State, Error, Machine, MachineStatus, UserStatus, find_machine, find_user, user_not_found,
  machine_not_found,
}
use nz.State.Target.{Target, target, bad_target, parse_target}
use nz.State.Alloc.{Allocated, allocated, refused, allocate_ip}
use nz.State.Step.{Call, allows, denies, blocks, unblocks, grants, revokes, sets_ip}
use nz.State.Calls.{perform}
use nz.Server.Model.{Server, Env}
use nz.Server.Sending.{join_key, send_raw}
use nz.Server.History.{
  ByServer, Reached, no_calls, one_call, Reached-trans, send_envelope-st, option_both,
}
use nz.Server.Admin.{
  Done, deny_subject, on_store, ◌>>=◌, push_approval, notify_approve, bind_allocated,
  approve_machine, allow_user_by, allow_machine_by, allow, revoke_each, deny_user_by,
  deny_machine_by, deny_target, deny, tell_policy, tell_each, broadcast_policy_changed, run_command,
  admin_command,
}

-- The store after the command comes from the store before it.
Moves : State → Done → Type 0
Moves st o = Reached st o.0.st

in_turn :
    (st : State) (o : Done) (k : Server → Done)
    → Moves st o
    → ((s : Server) → Reached st s.st → Moves st (k s))
    → Moves st (o >>= k)
unfolding Moves
in_turn st (s, none) k h next = next s h
in_turn st (s, some failure) k h next = h

called :
    (c : Call) (st : State) (s : Server)
    → ByServer c
    → Reached st s.st
    → Moves st (on_store (perform c) s)
unfolding Moves
called c st s h before = Reached-trans st s.st (perform c s.st).0 before (one_call c s.st h)

-- A failure, or nothing to do.
stays : (st : State) (s : Server) (failure : Option Error) → Reached st s.st → Moves st (s, failure)
unfolding Moves
stays st s failure before = before

module _ (e : Env) where
  push_approval-st :
      (o : Option AddrPort) (m : Machine) (s : Server) → (push_approval e o m s).st ≡ s.st
  unfolding push_approval
  push_approval-st none m s = refl
  push_approval-st (some addr) m s = elim (Option-cases (parse_addr m.vpn_ip)) [
    | inl missing ↦ rw (missing, push_approval) (send_envelope-st addr _ _ s)
    | inr (ip, found) ↦ rw (found, push_approval) (send_envelope-st addr _ _ s)
  ]

  notify_approve-st :
      (user machine : String) (s : Server) → (notify_approve e user machine s).st ≡ s.st
  unfolding notify_approve
  notify_approve-st user machine s = elim (Option-cases (find_machine user machine s.st)) [
    | inl missing ↦ rw (missing, notify_approve) refl
    | inr (m, found) ↦
        rw (found, notify_approve)
          (ground (arith, push_approval-st (lookup (join_key user machine) s.endpoints) m s))
  ]

  module _ (st : State) where
    bind_allocated-Moves :
        (user machine : String) (a : Allocated) (s : Server)
        → Reached st s.st
        → Moves st (bind_allocated e user machine a s)
    unfolding bind_allocated perform
    bind_allocated-Moves user machine (refused failure) s before = stays st s (some failure) before
    bind_allocated-Moves user machine (allocated ip) s before =
        called (sets_ip user machine ip) st s tt before

    approve_machine-Moves :
        (user machine : String) (s : Server)
        → Reached st s.st
        → Moves st (approve_machine e user machine s)
    unfolding approve_machine
    approve_machine-Moves user machine s before =
        elim (Option-cases (find_machine user machine s.st)) [
          | inl missing ↦ rw (missing, approve_machine) (stays st s none before)
          | inr (m, found) ↦
              rw (found, approve_machine)
                (in_turn st _ _
                  (if_both (Moves st) (m.vpn_ip == "") _ _
                    (bind_allocated-Moves user machine (allocate_ip s.cfg.subnet m.desired_ip s.st)
                      s before)
                    (stays st s none before))
                  (λ t h.
                    stays st (notify_approve e user machine t) none
                      (subst (Reached st) (sym (notify_approve-st user machine t)) h)))
        ]

    allow_user_by-Moves :
        (u : UserStatus) (user to : String) (s : Server)
        → Reached st s.st
        → Moves st (allow_user_by e u user to s)
    unfolding allow_user_by perform
    allow_user_by-Moves UserStatus.pending user to s before = called (allows user "") st s tt before
    allow_user_by-Moves UserStatus.blocked user to s before =
        called (unblocks user "") st s tt before
    allow_user_by-Moves UserStatus.active user to s before = called (grants user to) st s tt before

    allow_machine_by-Moves :
        (u : MachineStatus) (user machine to : String) (s : Server)
        → Reached st s.st
        → Moves st (allow_machine_by e u user machine to s)
    unfolding allow_machine_by perform
    allow_machine_by-Moves MachineStatus.pending user machine to s before =
        in_turn st _ (approve_machine e user machine) (called (allows user machine) st s tt before)
          (approve_machine-Moves user machine)
    allow_machine_by-Moves MachineStatus.blocked user machine to s before =
        called (unblocks user machine) st s tt before
    allow_machine_by-Moves MachineStatus.active user machine to s before =
        called (grants _ to) st s tt before

    allow-Moves :
        (user machine to : String) (s : Server)
        → Reached st s.st
        → Moves st (allow e user machine to s)
    unfolding allow
    allow-Moves user machine to s before =
        if_both (Moves st) (machine == "") _ _
          (option_both (Moves st) (find_user user s.st) (s, some (user_not_found user))
            (λ u. allow_user_by e u.status user to s)
            (stays st s (some (user_not_found user)) before)
            (λ u. allow_user_by-Moves u.status user to s before))
          (option_both (Moves st) (find_machine user machine s.st)
            (s, some (machine_not_found user machine))
            (λ m. allow_machine_by e m.status user machine to s)
            (stays st s (some (machine_not_found user machine)) before)
            (λ m. allow_machine_by-Moves m.status user machine to s before))

    revoke_each-Moves :
        (subject : String) (gs : List String) (s : Server)
        → Reached st s.st
        → Moves st (revoke_each e subject gs s)
    unfolding revoke_each perform
    revoke_each-Moves subject [] s before = stays st s none before
    revoke_each-Moves subject (g ∷ gs) s before =
        in_turn st _ (revoke_each e subject gs) (called (revokes subject g) st s tt before)
          (revoke_each-Moves subject gs)

    deny_user_by-Moves :
        (u : UserStatus) (user : String) (s : Server)
        → Reached st s.st
        → Moves st (deny_user_by e u user s)
    unfolding deny_user_by perform
    deny_user_by-Moves UserStatus.pending user s before = called (denies user "") st s tt before
    deny_user_by-Moves UserStatus.blocked user s before = stays st s none before
    deny_user_by-Moves UserStatus.active user s before = called (blocks user "") st s tt before

    deny_machine_by-Moves :
        (u : MachineStatus) (user machine : String) (s : Server)
        → Reached st s.st
        → Moves st (deny_machine_by e u user machine s)
    unfolding deny_machine_by perform
    deny_machine_by-Moves MachineStatus.pending user machine s before =
        called (denies user machine) st s tt before
    deny_machine_by-Moves MachineStatus.blocked user machine s before = stays st s none before
    deny_machine_by-Moves MachineStatus.active user machine s before =
        called (blocks user machine) st s tt before

    deny_target-Moves :
        (user machine : String) (s : Server)
        → Reached st s.st
        → Moves st (deny_target e user machine s)
    unfolding deny_target
    deny_target-Moves user machine s before =
        if_both (Moves st) (machine == "") _ _
          (option_both (Moves st) (find_user user s.st) (s, some (user_not_found user))
            (λ u. deny_user_by e u.status user s) (stays st s (some (user_not_found user)) before)
            (λ u. deny_user_by-Moves u.status user s before))
          (option_both (Moves st) (find_machine user machine s.st)
            (s, some (machine_not_found user machine))
            (λ m. deny_machine_by e m.status user machine s)
            (stays st s (some (machine_not_found user machine)) before)
            (λ m. deny_machine_by-Moves m.status user machine s before))

    deny-Moves :
        (user machine to : String) (s : Server)
        → Reached st s.st
        → Moves st (deny e user machine to s)
    unfolding deny perform
    deny-Moves user machine to s before =
        if_both (Moves st) (to == "") _ _
          (in_turn st (revoke_each e (deny_subject user machine) _ s) (deny_target e user machine)
            (revoke_each-Moves (deny_subject user machine) _ s before)
            (deny_target-Moves user machine))
          (called (revokes (deny_subject user machine) to) st s tt before)

  tell_policy-st : (m : Machine) (s : Server) → (tell_policy e m s).st ≡ s.st
  unfolding tell_policy send_raw
  tell_policy-st m s = ground arith

  tell_each-st : (ms : List Machine) (s : Server) → (tell_each e ms s).st ≡ s.st
  unfolding tell_each
  tell_each-st [] s = refl
  tell_each-st (m ∷ ms) s = tell_each-st ms (tell_policy e m s) ∙ tell_policy-st m s

  run_command-Moves :
      (command user machine to : String) (s : Server)
      → Moves s.st (run_command e command user machine to s)
  unfolding run_command broadcast_policy_changed
  run_command-Moves command user machine to s =
      let start = no_calls s.st s.st refl in
      in_turn s.st _ _
        (if_both (Moves s.st) (command == "allow") _ _ (allow-Moves s.st user machine to s start) (
          if_both (Moves s.st) (command == "deny") _ _ (deny-Moves s.st user machine to s start)
            (stays s.st s _ start)))
        (λ t h.
          stays s.st (tell_each e t.st.machines t) none
            (subst (Reached s.st) (sym (tell_each-st t.st.machines t)) h))

  pub admin_command-Reached :
      (command subject to : String) (s : Server)
      → Reached s.st (admin_command e command subject to s).0.st
  unfolding admin_command Moves
  admin_command-Reached command subject to s = by_target (parse_target subject) refl
    where
      by_target :
          (r : Target)
          → parse_target subject ≡ r
          → Reached s.st (admin_command e command subject to s).0.st
      by_target (bad_target failure) read = rw (read, admin_command) (no_calls s.st s.st refl)
      by_target (target user machine) read =
          rw (read, admin_command) (run_command-Moves command user machine to s)
