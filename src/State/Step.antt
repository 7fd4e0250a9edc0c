-- ===== src/State/Step.antt =====
-- The tables as an abstract transition system: for each call of an operation, the changes that it may
-- make, each with the guard under which it is made. Invariants are proved over this relation.
pub mod Guards
use nz.Base.{
  ℕ, ℤ, pos, zero, ◌&&◌, map, String, Bool, true, false, not, ◌||◌, ◌≡◌, ◌≢◌, List, [], ◌∷◌, ◌++◌,
  Option, none, some, ◌==◌, string_eq, if◌then◌else◌, modify_first, keep_if, any,
}
use nz.State.Model.{
  State, User, Machine, UserStatus, MachineStatus, Outcome, Error, find_user, find_machine,
  find_machine_by_public, save_locked, user_status_eq, machine_status_eq,
}
use nz.State.Join.{JoinArgs, JoinOutcome, machine_name_used}
use nz.Base64.{encode}
use nz.State.Entries.{
  is_unset, user_entry, machine_entry, names, is_blocked, user_becomes, machine_becomes,
  each_becomes,
}

-- A call of an operation of the state.
pub data Call : Type 0 where
  allows denies blocks unblocks : String → String → Call
  trusts : String → String → Bool → Call
  grants revokes : String → String → Call
  joins : JoinArgs → ℕ → Call
  sets_verifier : String → List ℕ → List ℕ → Call
  sets_ip : String → String → String → Call
  touches : String → String → ℕ → Call
  ensures_admin : String → List ℕ → List ℕ → ℕ → Call

-- The change of a call other than Touch. A call on a user has the empty text for the machine.
pub data Step (s : State) : Call → State → Type 0 where
  approve_user :
      (user : String) (u : User)
      → find_user user s ≡ some u
      → u.status ≡ UserStatus.pending
      → Step s (allows user "") (user_becomes user UserStatus.active s)
  approve_machine :
      (user machine : String) (m : Machine) (u : User)
      → machine ≢ ""
      → find_machine user machine s ≡ some m
      → m.status ≡ MachineStatus.pending
      → find_user user s ≡ some u
      → u.status ≡ UserStatus.active
      → Step s (allows user machine) (machine_becomes user machine MachineStatus.active s)
  drop_user :
      (user : String) (u : User)
      → find_user user s ≡ some u
      → Step s (denies user "") (record s {
        users = keep_if (λ v. not (v.name == user)) s.users;
        machines = keep_if (λ m. not (m.user == user)) s.machines;
      })
  drop_machine :
      (user machine : String) (m : Machine)
      → machine ≢ ""
      → find_machine user machine s ≡ some m
      → Step s (denies user machine) (record s {
        machines = keep_if (λ k. not (k.user == user && k.name == machine)) s.machines;
      })
  block_user :
      (user : String) (u : User)
      → find_user user s ≡ some u
      → Step s (blocks user "") (
          each_becomes user MachineStatus.blocked
            (λ m. true)
            (user_becomes user UserStatus.blocked s))
  block_machine :
      (user machine : String) (m : Machine)
      → machine ≢ ""
      → find_machine user machine s ≡ some m
      → Step s (blocks user machine) (machine_becomes user machine MachineStatus.blocked s)
  unblock_user :
      (user : String) (u : User)
      → find_user user s ≡ some u
      → Step s (unblocks user "") (
          each_becomes user MachineStatus.active is_blocked
            (if u.status == UserStatus.blocked then user_becomes user UserStatus.active s else s))
  unblock_machine :
      (user machine : String) (m : Machine)
      → machine ≢ ""
      → find_machine user machine s ≡ some m
      → m.status ≡ MachineStatus.blocked
      → Step s (unblocks user machine) (machine_becomes user machine MachineStatus.active s)
  leave_machine :
      (user machine : String) (m : Machine)
      → machine ≢ ""
      → find_machine user machine s ≡ some m
      → m.status ≢ MachineStatus.blocked
      → Step s (unblocks user machine) s
  trust_user :
      (user : String) (trusted : Bool) (u : User)
      → find_user user s ≡ some u
      → Step s (trusts user "" trusted) (record s {
        machines =
            map (λ m. if m.user == user then record m { trusted = trusted } else m) s.machines;
      })
  trust_machine :
      (user machine : String) (trusted : Bool) (m : Machine)
      → machine ≢ ""
      → find_machine user machine s ≡ some m
      → Step s (trusts user machine trusted) (record s {
        machines =
            modify_first (names user machine) (λ k. record k { trusted = trusted }) s.machines;
      })
  add_grant :
      (subject target : String)
      → any (λ g. g.subject == subject && g.target == target) s.grants ≡ false
      → Step s
          (grants subject target)
          (record s { grants = s.grants ++ record { subject = subject; target = target } ∷ [] })
  drop_grant :
      (subject target : String)
      → Step s (revokes subject target) (record s {
        grants = keep_if (λ g. not (g.subject == subject) || not (g.target == target)) s.grants;
      })
  join_user :
      (a : JoinArgs) (now : ℕ)
      → find_user a.user s ≡ none
      → a.salt ≢ []
      → a.verifier ≢ []
      → Step s (joins a now) (record s {
        users = s.users ++ user_entry a.user a.salt a.verifier UserStatus.pending now ∷ [];
        machines = s.machines ++ machine_entry a now ∷ [];
      })
  join_machine :
      (a : JoinArgs) (now : ℕ) (u : User)
      → find_user a.user s ≡ some u
      → u.status ≢ UserStatus.blocked
      → find_machine_by_public a.public s ≡ none
      → machine_name_used a.user a.machine a.public s ≡ false
      → Step s (joins a now) (record s { machines = s.machines ++ machine_entry a now ∷ [] })
  rejoin :
      (a : JoinArgs) (now : ℕ) (u : User) (m : Machine)
      → find_user a.user s ≡ some u
      → u.status ≢ UserStatus.blocked
      → find_machine_by_public a.public s ≡ some m
      → m.status ≢ MachineStatus.blocked
      → (m.name == a.machine) || not (machine_name_used a.user a.machine a.public s) ≡ true
      → Step s (joins a now) (record s {
        machines =
            modify_first
              (λ n. n.public == a.public)
              (λ n. record n {
                name = a.machine;
                desired_ip = if is_unset a.desired then n.desired_ip else a.desired;
                last_seen = now;
              })
              s.machines;
      })
  store_verifier :
      (user : String) (salt verifier : List ℕ) (u : User)
      → find_user user s ≡ some u
      → Step s (sets_verifier user salt verifier) (record s {
        users =
            modify_first
              (λ v. v.name == user)
              (λ u. record u { salt = encode salt; verifier = encode verifier })
              s.users;
      })
  store_ip :
      (user machine ip : String) (m : Machine)
      → find_machine user machine s ≡ some m
      → Step s (sets_ip user machine ip) (record s {
        machines = modify_first (names user machine) (λ k. record k { vpn_ip = ip }) s.machines;
      })
  add_admin :
      (user : String) (salt verifier : List ℕ) (now : ℕ)
      → find_user user s ≡ none
      → Step s
          (ensures_admin user salt verifier now)
          (record s { users = s.users ++ user_entry user salt verifier UserStatus.active now ∷ [] })
  activate_admin :
      (user : String) (salt verifier : List ℕ) (now : ℕ) (u : User)
      → find_user user s ≡ some u
      → u.status ≢ UserStatus.active
      → Step s (ensures_admin user salt verifier now) (user_becomes user UserStatus.active s)

-- A call that leaves the state alone and reports no error: the grant is there, the administrator is
-- active, or the user or the machine that joins is blocked.
pub data Idle (s : State) : Call → Type 0 where
  known_grant :
      (subject target : String)
      → any (λ g. g.subject == subject && g.target == target) s.grants ≡ true
      → Idle s (grants subject target)
  active_admin :
      (user : String) (salt verifier : List ℕ) (now : ℕ) (u : User)
      → find_user user s ≡ some u
      → u.status ≡ UserStatus.active
      → Idle s (ensures_admin user salt verifier now)
  blocked_user :
      (a : JoinArgs) (now : ℕ) (u : User)
      → find_user a.user s ≡ some u
      → u.status ≡ UserStatus.blocked
      → Idle s (joins a now)
  blocked_machine :
      (a : JoinArgs) (now : ℕ) (m : Machine)
      → find_machine_by_public a.public s ≡ some m
      → m.status ≡ MachineStatus.blocked
      → Idle s (joins a now)

-- What a call does: it makes a change that it may make and writes the file, it fails where it may make
-- none and leaves the state alone, or it is idle.
pub data Effect (s : State) (c : Call) : Outcome → Type 0 where
  refused : (e : Error) → ((t : State) → ¬ Step s c t) → Effect s c (s, some e)
  idle : Idle s c → Effect s c (s, none)
  stored : {t : State} → Step s c t → Effect s c (save_locked t)

-- The state and the error of a join.
abbrev pub plain : JoinOutcome → Outcome
plain o = (o.0, o.2)
