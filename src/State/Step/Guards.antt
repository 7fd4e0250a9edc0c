-- ===== src/State/Step/Guards.antt =====
-- The guards of a step, read off from its call.
use nz.Base.{
  ℕ, String, Bool, true, false, not, ◌||◌, ◌≡◌, ◌≢◌, refl, List, [], none, some, ◌==◌, string_eq,
}
use nz.State.Model.{
  State, User, Machine, UserStatus, MachineStatus, find_user, find_machine, find_machine_by_public,
}
use nz.State.Join.{JoinArgs, machine_name_used}
use nz.State.Step.{Step, allows, denies, blocks, unblocks, trusts, joins, sets_verifier, sets_ip}

abbrev UserThere : String → State → Type 0
UserThere user s = (u : User) × (find_user user s ≡ some u)

abbrev MachineThere : String → String → State → Type 0
MachineThere user machine s = (m : Machine) × (find_machine user machine s ≡ some m)

module _ {s : State} where
  pub allows_user :
      (user : String)
      → {t : State} → Step s (allows user "") t
      → (u : User) × (find_user user s ≡ some u) × (u.status ≡ UserStatus.pending)
  allows_user user (Step.approve_user _ u e p) = (u, e, p)
  allows_user user (Step.approve_machine _ _ m u named e p f q) = absurd (named refl)

  pub allows_machine :
      (user machine : String)
      → machine ≢ ""
      → {t : State} → Step s (allows user machine) t
      → ((m : Machine) × (find_machine user machine s ≡ some m)
          × (m.status ≡ MachineStatus.pending))
        × (u : User) × (find_user user s ≡ some u)
        × (u.status ≡ UserStatus.active)
  allows_machine user machine named (Step.approve_user _ u e p) = absurd (named refl)
  allows_machine user machine named (Step.approve_machine _ _ m u _ e p f q) = ((m, e, p), u, f, q)

  pub denies_user : (user : String) → {t : State} → Step s (denies user "") t → UserThere user s
  denies_user user (Step.drop_user _ u e) = (u, e)
  denies_user user (Step.drop_machine _ _ m n e) = absurd (n refl)

  pub denies_machine :
      (user machine : String)
      → machine ≢ ""
      → {t : State} → Step s (denies user machine) t
      → MachineThere user machine s
  denies_machine user machine named (Step.drop_user _ u e) = absurd (named refl)
  denies_machine user machine named (Step.drop_machine _ _ m n e) = (m, e)

  pub blocks_user : (user : String) → {t : State} → Step s (blocks user "") t → UserThere user s
  blocks_user user (Step.block_user _ u e) = (u, e)
  blocks_user user (Step.block_machine _ _ m n e) = absurd (n refl)

  pub blocks_machine :
      (user machine : String)
      → machine ≢ ""
      → {t : State} → Step s (blocks user machine) t
      → MachineThere user machine s
  blocks_machine user machine named (Step.block_user _ u e) = absurd (named refl)
  blocks_machine user machine named (Step.block_machine _ _ m n e) = (m, e)

  pub unblocks_user : (user : String) → {t : State} → Step s (unblocks user "") t → UserThere user s
  unblocks_user user (Step.unblock_user _ u e) = (u, e)
  unblocks_user user (Step.unblock_machine _ _ m n e p) = absurd (n refl)
  unblocks_user user (Step.leave_machine _ _ m n e p) = absurd (n refl)

  pub unblocks_machine :
      (user machine : String)
      → machine ≢ ""
      → {t : State} → Step s (unblocks user machine) t
      → MachineThere user machine s
  unblocks_machine user machine named (Step.unblock_user _ u e) = absurd (named refl)
  unblocks_machine user machine named (Step.unblock_machine _ _ m n e p) = (m, e)
  unblocks_machine user machine named (Step.leave_machine _ _ m n e p) = (m, e)

  pub trusts_user :
      (user : String) (trusted : Bool)
      → {t : State} → Step s (trusts user "" trusted) t
      → UserThere user s
  trusts_user user trusted (Step.trust_user _ _ u e) = (u, e)
  trusts_user user trusted (Step.trust_machine _ _ _ m n e) = absurd (n refl)

  pub trusts_machine :
      (user machine : String) (trusted : Bool)
      → machine ≢ ""
      → {t : State} → Step s (trusts user machine trusted) t
      → MachineThere user machine s
  trusts_machine user machine trusted named (Step.trust_user _ _ u e) = absurd (named refl)
  trusts_machine user machine trusted named (Step.trust_machine _ _ _ m n e) = (m, e)

  pub sets_verifier_user :
      (user : String) (salt verifier : List ℕ)
      → {t : State} → Step s (sets_verifier user salt verifier) t
      → UserThere user s
  sets_verifier_user user salt verifier (Step.store_verifier _ _ _ u e) = (u, e)

  pub sets_ip_machine :
      (user machine ip : String)
      → {t : State} → Step s (sets_ip user machine ip) t
      → MachineThere user machine s
  sets_ip_machine user machine ip (Step.store_ip _ _ _ m e) = (m, e)

  -- A join that makes a change brings a salt and a verifier, if its user is new.
  pub joins_secrets :
      (a : JoinArgs) (now : ℕ)
      → find_user a.user s ≡ none
      → {t : State} → Step s (joins a now) t
      → (a.salt ≢ []) × (a.verifier ≢ [])
  joins_secrets a now new (Step.join_user _ _ e salt verifier) = (salt, verifier)
  joins_secrets a now new (Step.join_machine _ _ u e n f free) = cc
  joins_secrets a now new (Step.rejoin _ _ u m e n f k free) = cc

  -- The name of a new machine of a known user is free.
  pub joins_name :
      (a : JoinArgs) (now : ℕ) (u : User)
      → find_user a.user s ≡ some u
      → find_machine_by_public a.public s ≡ none
      → {t : State} → Step s (joins a now) t
      → machine_name_used a.user a.machine a.public s ≡ false
  joins_name a now u known new (Step.join_user _ _ e salt verifier) = cc
  joins_name a now u known new (Step.join_machine _ _ v e n f free) = free
  joins_name a now u known new (Step.rejoin _ _ v m e n f k free) = cc

  -- A machine that joins again keeps its name, or the new one is free.
  pub joins_again :
      (a : JoinArgs) (now : ℕ) (u : User) (m : Machine)
      → find_user a.user s ≡ some u
      → find_machine_by_public a.public s ≡ some m
      → {t : State} → Step s (joins a now) t
      → (m.name == a.machine) || not (machine_name_used a.user a.machine a.public s) ≡ true
  joins_again a now u m known key (Step.join_user _ _ e salt verifier) = cc
  joins_again a now u m known key (Step.join_machine _ _ v e n f free) = cc
  joins_again a now u m known key (Step.rejoin _ _ v k e n f b free) = cc
