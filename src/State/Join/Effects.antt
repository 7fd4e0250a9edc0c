-- ===== src/State/Join/Effects.antt =====
-- RegisterJoin, SetVerifier, SetMachineIP and EnsureAdmin make the steps of the abstract system.
use nz.Base.{
  ℕ, String, List, [], ◌∷◌, Bool, true, false, not, ◌||◌, ◌&&◌, ◌≡◌, ◌≢◌, inl, inr, none, some,
  arith, ◌==◌, string_eq, Bool-cases, Option-cases,
}
use nz.State.Model.{
  State, User, Machine, UserStatus, MachineStatus, user_status_eq, machine_status_eq,
  user_status_beq_iff, machine_status_beq_iff, find_user, find_machine, find_machine_by_public,
}
use nz.State.Join.{
  JoinArgs, register_join, join_new_user, join_known_user, join_known_key, join_new_key, is_empty,
  machine_name_used, set_verifier, set_machine_ip, ensure_admin,
}
use nz.State.Step.{
  Step, joins, sets_verifier, sets_ip, ensures_admin, Idle, Effect, refused, idle, stored, plain,
}
use nz.State.Step.Guards.{
  joins_secrets, joins_name, joins_again, sets_verifier_user, sets_ip_machine,
}

is_empty-given : (bytes : List ℕ) → is_empty bytes ≡ false → bytes ≢ []
is_empty-given [] e = cc
is_empty-given (b ∷ bytes) e = λ f. cc

given-is_empty : (bytes : List ℕ) → bytes ≢ [] → is_empty bytes ≡ false
given-is_empty [] e = ground arith
given-is_empty (b ∷ bytes) e = ground arith

module _ (s : State) where
  module _ (a : JoinArgs) (now : ℕ) where
    join_new_user-Effect :
        find_user a.user s ≡ none → Effect s (joins a now) (plain (join_new_user a now s))
    unfolding join_new_user
    join_new_user-Effect e = elim (Bool-cases (is_empty a.salt || is_empty a.verifier)) [
      | inl missing ↦
          rw (missing, join_new_user)
            (refused _ λ t step.
              let (salt, verifier) = joins_secrets a now e step in
              ground (arith, given-is_empty a.salt salt, given-is_empty a.verifier verifier))
      | inr both ↦
          rw (both, join_new_user)
            (stored (
              Step.join_user a now e (is_empty-given a.salt (ground arith))
                (is_empty-given a.verifier (ground arith))))
    ]

    module _ (u : User) (known : find_user a.user s ≡ some u)
        (fine : u.status ≢ UserStatus.blocked) where
      join_known_key-Effect :
          (m : Machine)
          → find_machine_by_public a.public s ≡ some m
          → Effect s (joins a now) (plain (join_known_key a now m s))
      unfolding join_known_key machine_name_used
      join_known_key-Effect m e = elim (Bool-cases (m.status == MachineStatus.blocked)) [
        | inl out ↦
            rw (out, join_known_key)
              (idle (Idle.blocked_machine a now m e ((machine_status_beq_iff _ _).0 out)))
        | inr in_use ↦
            elim (Bool-cases
              (not (m.name == a.machine) && machine_name_used a.user a.machine a.public s)) [
                | inl clash ↦
                    rw (in_use, join_known_key, clash)
                      (refused _ λ t step.
                        clashes (m.name == a.machine) _ clash (joins_again a now u m known e step))
                | inr free ↦
                    rw (in_use, join_known_key, free)
                      (stored (
                        Step.rejoin a now u m known fine e
                          (λ b.
                            ground (arith, machine_status_beq_iff m.status MachineStatus.blocked))
                          (either (m.name == a.machine) _ free)))
              ]
      ]
        where
          either : (b c : Bool) → (not b && c) ≡ false → (b || not c) ≡ true
          either b c h = ground arith

          clashes : (b c : Bool) → (not b && c) ≡ true → (b || not c) ≡ true → ⊥
          clashes b c h k = ground arith

      join_new_key-Effect :
          find_machine_by_public a.public s ≡ none
          → Effect s (joins a now) (plain (join_new_key a now s))
      unfolding join_new_key
      join_new_key-Effect f = elim (Bool-cases (machine_name_used a.user a.machine a.public s)) [
        | inl clash ↦
            rw (clash, join_new_key)
              (refused _ λ t step. let free = joins_name a now u known f step in cc)
        | inr free ↦ rw (free, join_new_key) (stored (Step.join_machine a now u known fine f free))
      ]

    join_known_user-Effect :
        (u : User)
        → find_user a.user s ≡ some u
        → Effect s (joins a now) (plain (join_known_user a now u s))
    unfolding join_known_user
    join_known_user-Effect u e = elim (Bool-cases (u.status == UserStatus.blocked)) [
      | inl out ↦
          rw (out, join_known_user)
            (idle (Idle.blocked_user a now u e ((user_status_beq_iff _ _).0 out)))
      | inr active ↦
          let fine : u.status ≢ UserStatus.blocked =
            λ b. ground (arith, user_status_beq_iff u.status UserStatus.blocked) in
          elim (Option-cases (find_machine_by_public a.public s)) [
            | inl f ↦ rw (active, join_known_user, f) (join_new_key-Effect u e fine f)
            | inr (m, f) ↦ rw (active, join_known_user, f) (join_known_key-Effect u e fine m f)
          ]
    ]

    pub register_join-Effect : Effect s (joins a now) (plain (register_join a now s))
    unfolding register_join
    register_join-Effect = elim (Option-cases (find_user a.user s)) [
      | inl e ↦ rw (e, register_join) (join_new_user-Effect e)
      | inr (u, e) ↦ rw (e, register_join) (join_known_user-Effect u e)
    ]

  pub set_verifier-Effect :
      (user : String) (salt verifier : List ℕ)
      → Effect s (sets_verifier user salt verifier) (set_verifier user salt verifier s)
  unfolding set_verifier
  set_verifier-Effect user salt verifier = elim (Option-cases (find_user user s)) [
    | inl e ↦
        rw (e, set_verifier)
          (refused _ λ t step. let (u, f) = sets_verifier_user user salt verifier step in cc)
    | inr (u, e) ↦ rw (e, set_verifier) (stored (Step.store_verifier user salt verifier u e))
  ]

  pub set_machine_ip-Effect :
      (user machine ip : String)
      → Effect s (sets_ip user machine ip) (set_machine_ip user machine ip s)
  unfolding set_machine_ip
  set_machine_ip-Effect user machine ip = elim (Option-cases (find_machine user machine s)) [
    | inl e ↦
        rw (e, set_machine_ip)
          (refused _ λ t step. let (m, f) = sets_ip_machine user machine ip step in cc)
    | inr (m, e) ↦ rw (e, set_machine_ip) (stored (Step.store_ip user machine ip m e))
  ]

  pub ensure_admin-Effect :
      (user : String) (salt verifier : List ℕ) (now : ℕ)
      → Effect s (ensures_admin user salt verifier now) (ensure_admin user salt verifier now s)
  unfolding ensure_admin
  ensure_admin-Effect user salt verifier now = elim (Option-cases (find_user user s)) [
    | inl e ↦ rw (e, ensure_admin) (stored (Step.add_admin user salt verifier now e))
    | inr (u, e) ↦ elim (Bool-cases (u.status == UserStatus.active)) [
      | inl p ↦
          rw (e, ensure_admin, p)
            (idle (Idle.active_admin user salt verifier now u e ((user_status_beq_iff _ _).0 p)))
      | inr n ↦
          rw (e, ensure_admin, n)
            (stored (
              Step.activate_admin user salt verifier now u e
                λ b. ground (arith, user_status_beq_iff u.status UserStatus.active)))
    ]
  ]
