-- ===== src/Server/Joining/Replay.antt =====
-- internal/server/server.go: a join proof that is sent twice.
use nz.Base.{
  ℕ, ◌≡◌, inl, inr, refl, ap, ◌∙◌, arith, String, List, Option, none, some, ◌==◌, string_eq, eq_iff,
  lookup, erase, lookup-erase, Bool-cases, Option-cases, ℤ,
}
use nz.Netip.{AddrPort, Prefix, parse_addr, parse_prefix}
use nz.State.Roster
use nz.State.Join.{register_join}
use nz.State.Alloc.{Allocated, allocated, refused}
use nz.State.Model.{State, User, Machine, MachineStatus, Error, find_user, find_machine}
use nz.Server.Model.{
  Server, Env, JoinProof, JoinReply, no_challenge, proof_failed, unknown_user, store_error,
}
use nz.Server.Sending.{
  join_key, send_join_reply, send_envelope, send_raw, remember_reply, remember_ip_endpoint,
  remember_endpoint,
}
use nz.Server.Joining.{
  rejected, reply_with, in_subnet, assign_ip, move_into, assigned, handle_join_proof, join_proof,
  check_proof, complete_join, settle, finish_join, ensure_in_subnet, rebind_desired,
  auto_approve_admin, approve_admin, address_of, proof_args,
}
use nz.Server.Joining.Laws.{send_join_reply-st, join_proof-Proved}

assign_ip-nonces :
    (user machine : String) (a : Allocated) (s : Server)
    → (assign_ip user machine a s).nonces ≡ s.nonces
unfolding assign_ip
assign_ip-nonces user machine (refused _) s = refl
assign_ip-nonces user machine (allocated ip) s = refl

move_into-nonces :
    (user machine : String) (m : Machine) (o : Option Prefix) (s : Server)
    → (move_into user machine m o s).nonces ≡ s.nonces
unfolding move_into
move_into-nonces user machine m none s = refl
move_into-nonces user machine m (some p) s = elim (Bool-cases (in_subnet p (parse_addr m.vpn_ip))) [
  | inl hit ↦ rw (hit, move_into) refl
  | inr miss ↦ rw (miss, move_into) (assign_ip-nonces user machine _ s)
]

ensure_in_subnet-nonces :
    (user machine : String) (s : Server) → (ensure_in_subnet user machine s).nonces ≡ s.nonces
unfolding ensure_in_subnet
ensure_in_subnet-nonces user machine s = elim (Option-cases (find_machine user machine s.st)) [
  | inl e ↦ rw (e, ensure_in_subnet) refl
  | inr (m, e) ↦ elim (Bool-cases (m.vpn_ip == "")) [
    | inl hit ↦ rw (e, hit, ensure_in_subnet) refl
    | inr miss ↦
        rw (e, miss, ensure_in_subnet)
          (move_into-nonces user machine m (parse_prefix s.cfg.subnet) s)
  ]
]

rebind_desired-nonces :
    (user machine : String) (desired : ℤ) (s : Server)
    → (rebind_desired user machine desired s).nonces ≡ s.nonces
unfolding rebind_desired
rebind_desired-nonces user machine desired s = ground (arith, assign_ip-nonces user machine)

assigned-nonces :
    (user machine : String) (a : Allocated) (s : Server)
    → (assigned user machine a s).0.nonces ≡ s.nonces
unfolding assigned
assigned-nonces user machine (refused _) s = refl
assigned-nonces user machine (allocated ip) s = refl

approve_admin-nonces :
    (user machine : String) (o : State × Option Error) (s : Server)
    → (approve_admin user machine o s).0.nonces ≡ s.nonces
unfolding approve_admin
approve_admin-nonces user machine (st, some _) s = refl
approve_admin-nonces user machine (st, none) s =
    assigned-nonces user machine _ (record s { st = st })

auto_approve_admin-nonces :
    (user machine : String) (s : Server) → (auto_approve_admin user machine s).0.nonces ≡ s.nonces
unfolding auto_approve_admin
auto_approve_admin-nonces user machine s =
    ground (arith, approve_admin-nonces user machine (Roster.allow user machine s.st) s)

lookup_erased : (k : String) (m : List (String × List ℕ)) → lookup k (erase k m) ≡ none
lookup_erased k m = lookup-erase k k m ∙ rw ((eq_iff k k).1 refl) refl

not_both {ℓ} : {A : Type ℓ} (o : Option A) (a : A) → o ≡ none → o ≡ some a → ⊥
not_both o a e f = cc

module _ (e : Env) where
  send_join_reply-nonces :
      (addr : AddrPort) (r : JoinReply) (s : Server)
      → (send_join_reply e addr r s).nonces ≡ s.nonces
  unfolding send_join_reply send_envelope send_raw remember_reply remember_ip_endpoint
  send_join_reply-nonces addr r s = ground arith

  settle-nonces :
      (p : JoinProof) (status : MachineStatus) (s : Server)
      → (settle e p status s).0.nonces ≡ s.nonces
  unfolding settle
  settle-nonces p status s = ground (
    arith,
    ensure_in_subnet-nonces p.user p.machine s,
    rebind_desired-nonces p.user p.machine p.desired_ip (ensure_in_subnet p.user p.machine s),
    auto_approve_admin-nonces p.user p.machine
        (rebind_desired p.user p.machine p.desired_ip (ensure_in_subnet p.user p.machine s)),
  )

  finish_join-nonces :
      (p : JoinProof) (remote : AddrPort) (r : Server × String)
      → (finish_join e p remote r).nonces ≡ r.0.nonces
  unfolding finish_join
  finish_join-nonces p remote (s, result) =
      send_join_reply-nonces remote
        (record (reply_with result) { vpn_ip = address_of (find_machine p.user p.machine s.st) }) s

  complete_join-nonces :
      (p : JoinProof) (remote : AddrPort) (o : State × Option MachineStatus × Option Error)
      (s : Server)
      → (complete_join e p remote o s).nonces ≡ s.nonces
  unfolding complete_join
  complete_join-nonces p remote (st, status, some failure) s =
      send_join_reply-nonces remote (rejected (store_error failure)) (record s { st = st })
  complete_join-nonces p remote (st, some status, none) s =
      finish_join-nonces p remote (settle e p status (record s { st = st }))
      ∙ settle-nonces p status (record s { st = st })
  complete_join-nonces p remote (st, none, none) s =
      finish_join-nonces p remote _
      ∙ (rebind_desired-nonces p.user p.machine p.desired_ip _
          ∙ ensure_in_subnet-nonces p.user p.machine (record s { st = st }))

  check_proof-nonces :
      (p : JoinProof) (u : User) (o : Option (List ℕ)) (remote : AddrPort) (now : ℕ) (s : Server)
      → (check_proof e p u o remote now s).nonces ≡ s.nonces
  unfolding check_proof remember_endpoint
  check_proof-nonces p u none remote now s = send_join_reply-nonces remote (rejected no_challenge) s
  check_proof-nonces p u (some nonce) remote now s = ground (
    arith,
    send_join_reply-nonces remote (rejected proof_failed) s,
    complete_join-nonces p remote (register_join (proof_args e p) now s.st)
        (remember_endpoint p.user p.machine remote s),
  )

  join_proof_spends :
      (p : JoinProof) (remote : AddrPort) (now : ℕ) (s : Server) (u : User)
      → find_user p.user s.st ≡ some u
      → lookup (join_key p.user p.machine) (join_proof e p remote now s).nonces ≡ none
  unfolding join_proof
  join_proof_spends p remote now s u found =
      rw (found, join_proof)
        (rw
          (check_proof-nonces p u (lookup (join_key p.user p.machine) s.nonces) remote now
            (record s { nonces = erase (join_key p.user p.machine) s.nonces }))
          (lookup_erased (join_key p.user p.machine) s.nonces))

  unknown_keeps :
      (p : JoinProof) (remote : AddrPort) (now : ℕ) (s : Server)
      → find_user p.user s.st ≡ none
      → (join_proof e p remote now s).st ≡ s.st
  unfolding join_proof
  unknown_keeps p remote now s unknown =
      rw (unknown, join_proof) (send_join_reply-st e remote (rejected unknown_user) s)

  -- A second proof for the pair of user and machine of a first one changes nothing in the store.
  join_proof_twice :
      (p : JoinProof) (remote remote' : AddrPort) (now now' : ℕ) (s : Server)
      → (let s' = join_proof e p remote now s in (join_proof e p remote' now' s').st ≡ s'.st)
  join_proof_twice p remote remote' now now' s =
      elim (join_proof-Proved e p remote' now' (join_proof e p remote now s)) [
        | inl same ↦ same
        | inr proved ↦ elim (Option-cases (find_user p.user s.st)) [
          | inr (u, found) ↦
              absurd
                (not_both _ proved.nonce (join_proof_spends p remote now s u found) proved.asked)
          | inl unknown ↦ absurd (
              not_both _ proved.user
                (ap (find_user p.user) (unknown_keeps p remote now s unknown) ∙ unknown)
                proved.found)
        ]
      ]

  module _ (body : List ℕ) (remote : AddrPort) (now : ℕ) (s : Server) where
    handle_unread : e.json.read_join_proof body ≡ none → handle_join_proof e body remote now s ≡ s
    unfolding handle_join_proof
    handle_unread unread = rw (unread, handle_join_proof) refl

    handle_read :
        (p : JoinProof)
        → e.json.read_join_proof body ≡ some p
        → handle_join_proof e body remote now s ≡ join_proof e p remote now s
    unfolding handle_join_proof
    handle_read p read = rw (read, handle_join_proof) refl

  -- A join proof that is sent again, from wherever and whenever, changes nothing in the store
  -- that the first one left.
  pub handle_join_proof_replay :
      (body : List ℕ) (remote remote' : AddrPort) (now now' : ℕ) (s : Server)
      → (let s' = handle_join_proof e body remote now s in
          (handle_join_proof e body remote' now' s').st ≡ s'.st)
  handle_join_proof_replay body remote remote' now now' s =
      elim (Option-cases (e.json.read_join_proof body)) [
        | inl unread ↦ ap (λ x. x.st) (handle_unread body remote' now' _ unread)
        | inr (p, read) ↦
            rw
              (
                handle_read body remote now s p read,
                handle_read body remote' now' (join_proof e p remote now s) p read,
              )
              (join_proof_twice p remote remote' now now' s)
      ]
