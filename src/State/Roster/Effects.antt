-- ===== src/State/Roster/Effects.antt =====
-- Allow, Deny, Block, Unblock, Trust and Untrust make the steps of the abstract system.
use nz.Base.{
  String, Bool, true, ◌≡◌, ◌≢◌, refl, sym, inl, inr, Option, none, some, ◌==◌, string_eq, eq_iff,
  arith, subst, Bool-cases, Option-cases, if◌then◌else◌, if_true, if_false,
}
use nz.State.Model.{
  State, User, UserStatus, MachineStatus, user_status_eq, machine_status_eq, user_status_beq_iff,
  machine_status_beq_iff, find_user, find_machine, Outcome,
}
use nz.State.Roster.{
  allow, allow_user, allow_machine, user_is_active, deny, deny_user, deny_machine, block,
  block_user, block_machine, unblock, unblock_user, unblock_machine, set_trust, set_trust_user,
  set_trust_machine,
}
use nz.State.Step.{Step, Call, allows, denies, blocks, unblocks, trusts, Effect, refused, stored}
use nz.State.Step.Guards.{
  allows_user, allows_machine, denies_user, denies_machine, blocks_user, blocks_machine,
  unblocks_user, unblocks_machine, trusts_user, trusts_machine,
}

-- A call on a user or on a machine, by the target.
by_target :
    (s : State) (call : String → Call) (machine : String) {o q : Outcome}
    → Effect s (call "") o
    → (machine ≢ "" → Effect s (call machine) q)
    → Effect s (call machine) (if machine == "" then o else q)
by_target s call machine {o} {q} h k = elim (Bool-cases (machine == "")) [
  | inl hit ↦
      subst (Effect s (call machine)) (sym (if_true (machine == "") o q hit))
        (subst (λ m. Effect s (call m) o) (sym ((eq_iff machine "").0 hit)) h)
  | inr miss ↦
      subst (Effect s (call machine)) (sym (if_false (machine == "") o q miss))
        (k (λ e. ground (arith, eq_iff machine "")))
]

module _ (s : State) where
  allow_user-Effect : (user : String) → Effect s (allows user "") (allow_user user s)
  unfolding allow_user
  allow_user-Effect user = elim (Option-cases (find_user user s)) [
    | inl e ↦ rw (e, allow_user) (refused _ λ t step. let (u, f, p) = allows_user user step in cc)
    | inr (u, e) ↦ elim (Bool-cases (u.status == UserStatus.pending)) [
      | inl p ↦
          rw (e, allow_user, p)
            (stored (Step.approve_user user u e ((user_status_beq_iff _ _).0 p)))
      | inr n ↦
          rw (e, allow_user, n)
            (refused _ λ t step.
              let (v, f, p) = allows_user user step in
              ground (arith, user_status_beq_iff u.status UserStatus.pending))
    ]
  ]

  user_is_active-some :
      (o : Option User)
      → user_is_active o ≡ true
      → (u : User) × (o ≡ some u) × (u.status ≡ UserStatus.active)
  user_is_active-some none h = cc
  user_is_active-some (some u) h = (u, refl, (user_status_beq_iff _ _).0 h)

  some-user_is_active :
      (o : Option User) (u : User)
      → o ≡ some u
      → u.status ≡ UserStatus.active
      → user_is_active o ≡ true
  some-user_is_active o u e p = rw e ((user_status_beq_iff _ _).1 p)

  allow_machine-Effect :
      (user machine : String)
      → machine ≢ ""
      → Effect s (allows user machine) (allow_machine user machine s)
  unfolding allow_machine
  allow_machine-Effect user machine named = elim (Option-cases (find_machine user machine s)) [
    | inl e ↦
        rw (e, allow_machine)
          (refused _
            λ t step. let ((m, f, p), u, g, q) = allows_machine user machine named step in cc)
    | inr (m, e) ↦ elim (Bool-cases (m.status == MachineStatus.pending)) [
      | inr n ↦
          rw (e, allow_machine, n)
            (refused _ λ t step.
              let ((k, f, p), u, g, q) = allows_machine user machine named step in
              ground (arith, machine_status_beq_iff m.status MachineStatus.pending))
      | inl p ↦ elim (Bool-cases (user_is_active (find_user user s))) [
        | inr n ↦
            rw (e, allow_machine, p, n)
              (refused _ λ t step.
                let (machine_there, u, f, q) = allows_machine user machine named step in
                let active = some-user_is_active (find_user user s) u f q in cc)
        | inl a ↦
            let (u, found, active) = user_is_active-some (find_user user s) a in
            rw (e, allow_machine, p, a)
              (stored (
                Step.approve_machine user machine m u named e ((machine_status_beq_iff _ _).0 p)
                  found active))
      ]
    ]
  ]

  deny_user-Effect : (user : String) → Effect s (denies user "") (deny_user user s)
  unfolding deny_user
  deny_user-Effect user = elim (Option-cases (find_user user s)) [
    | inl e ↦ rw (e, deny_user) (refused _ λ t step. let (u, f) = denies_user user step in cc)
    | inr (u, e) ↦ rw (e, deny_user) (stored (Step.drop_user user u e))
  ]

  deny_machine-Effect :
      (user machine : String)
      → machine ≢ ""
      → Effect s (denies user machine) (deny_machine user machine s)
  unfolding deny_machine
  deny_machine-Effect user machine named = elim (Option-cases (find_machine user machine s)) [
    | inl e ↦
        rw (e, deny_machine)
          (refused _ λ t step. let (m, f) = denies_machine user machine named step in cc)
    | inr (m, e) ↦ rw (e, deny_machine) (stored (Step.drop_machine user machine m named e))
  ]

  block_user-Effect : (user : String) → Effect s (blocks user "") (block_user user s)
  unfolding block_user
  block_user-Effect user = elim (Option-cases (find_user user s)) [
    | inl e ↦ rw (e, block_user) (refused _ λ t step. let (u, f) = blocks_user user step in cc)
    | inr (u, e) ↦ rw (e, block_user) (stored (Step.block_user user u e))
  ]

  block_machine-Effect :
      (user machine : String)
      → machine ≢ ""
      → Effect s (blocks user machine) (block_machine user machine s)
  unfolding block_machine
  block_machine-Effect user machine named = elim (Option-cases (find_machine user machine s)) [
    | inl e ↦
        rw (e, block_machine)
          (refused _ λ t step. let (m, f) = blocks_machine user machine named step in cc)
    | inr (m, e) ↦ rw (e, block_machine) (stored (Step.block_machine user machine m named e))
  ]

  unblock_user-Effect : (user : String) → Effect s (unblocks user "") (unblock_user user s)
  unfolding unblock_user
  unblock_user-Effect user = elim (Option-cases (find_user user s)) [
    | inl e ↦ rw (e, unblock_user) (refused _ λ t step. let (u, f) = unblocks_user user step in cc)
    | inr (u, e) ↦ rw (e, unblock_user) (stored (Step.unblock_user user u e))
  ]

  unblock_machine-Effect :
      (user machine : String)
      → machine ≢ ""
      → Effect s (unblocks user machine) (unblock_machine user machine s)
  unfolding unblock_machine
  unblock_machine-Effect user machine named = elim (Option-cases (find_machine user machine s)) [
    | inl e ↦
        rw (e, unblock_machine)
          (refused _ λ t step. let (m, f) = unblocks_machine user machine named step in cc)
    | inr (m, e) ↦ elim (Bool-cases (m.status == MachineStatus.blocked)) [
      | inl p ↦
          rw (e, unblock_machine, p)
            (stored
              (Step.unblock_machine user machine m named e ((machine_status_beq_iff _ _).0 p)))
      | inr n ↦
          rw (e, unblock_machine, n)
            (stored (
              Step.leave_machine user machine m named e
                λ b. ground (arith, machine_status_beq_iff m.status MachineStatus.blocked)))
    ]
  ]

  set_trust_user-Effect :
      (user : String) (trusted : Bool)
      → Effect s (trusts user "" trusted) (set_trust_user user trusted s)
  unfolding set_trust_user
  set_trust_user-Effect user trusted = elim (Option-cases (find_user user s)) [
    | inl e ↦
        rw (e, set_trust_user)
          (refused _ λ t step. let (u, f) = trusts_user user trusted step in cc)
    | inr (u, e) ↦ rw (e, set_trust_user) (stored (Step.trust_user user trusted u e))
  ]

  set_trust_machine-Effect :
      (user machine : String) (trusted : Bool)
      → machine ≢ ""
      → Effect s (trusts user machine trusted) (set_trust_machine user machine trusted s)
  unfolding set_trust_machine
  set_trust_machine-Effect user machine trusted named =
      elim (Option-cases (find_machine user machine s)) [
        | inl e ↦
            rw (e, set_trust_machine)
              (refused _
                λ t step. let (m, f) = trusts_machine user machine trusted named step in cc)
        | inr (m, e) ↦
            rw (e, set_trust_machine) (stored (Step.trust_machine user machine trusted m named e))
      ]

  pub allow-Effect : (user machine : String) → Effect s (allows user machine) (allow user machine s)
  unfolding allow
  allow-Effect user machine =
      by_target s (λ m. allows user m) machine (allow_user-Effect user)
        (allow_machine-Effect user machine)

  pub deny-Effect : (user machine : String) → Effect s (denies user machine) (deny user machine s)
  unfolding deny
  deny-Effect user machine =
      by_target s (λ m. denies user m) machine (deny_user-Effect user)
        (deny_machine-Effect user machine)

  pub block-Effect : (user machine : String) → Effect s (blocks user machine) (block user machine s)
  unfolding block
  block-Effect user machine =
      by_target s (λ m. blocks user m) machine (block_user-Effect user)
        (block_machine-Effect user machine)

  pub unblock-Effect :
      (user machine : String) → Effect s (unblocks user machine) (unblock user machine s)
  unfolding unblock
  unblock-Effect user machine =
      by_target s (λ m. unblocks user m) machine (unblock_user-Effect user)
        (unblock_machine-Effect user machine)

  pub set_trust-Effect :
      (user machine : String) (trusted : Bool)
      → Effect s (trusts user machine trusted) (set_trust user machine trusted s)
  unfolding set_trust
  set_trust-Effect user machine trusted =
      by_target s (λ m. trusts user m trusted) machine (set_trust_user-Effect user trusted)
        (set_trust_machine-Effect user machine trusted)
