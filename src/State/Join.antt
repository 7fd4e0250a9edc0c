-- ===== src/State/Join.antt =====
-- internal/state/state.go: RegisterJoin, SetVerifier, SetMachineIP, Touch, EnsureAdmin.
-- A salt and a verifier come in as the bytes that base64 encodes; the text is what is stored.
pub mod Effects
pub mod Registering
use nz.Base.{
  ℕ, ℤ, String, Bool, true, false, not, ◌&&◌, ◌||◌, Option, none, some, List, [], ◌∷◌, ◌++◌,
  Comparable, ◌==◌, string_eq, if◌then◌else◌, find_first, modify_first, any, pos, negsuc, zero, suc,
}
use nz.Base64.{encode}
use nz.State.Model.{
  State, User, Machine, UserStatus, MachineStatus, user_status_eq, machine_status_eq, Error,
  Outcome, is_user, is_machine, find_user, find_machine, save_locked, user_not_found,
  machine_not_found, secrets_missing, name_used, find_machine_by_public,
}

-- Go's (string, error); the status is "" in the cases that give `none`.
abbrev pub JoinOutcome : Type 0
JoinOutcome = State × Option MachineStatus × Option Error

abbrev saved : MachineStatus → State → JoinOutcome
saved status s = let (s', failure) = save_locked s in (s', some status, failure)

pub record JoinArgs : Type 0 where
  pub user : String
  pub machine : String
  pub public : String
  pub fingerprint : String
  pub salt : List ℕ
  pub verifier : List ℕ
  pub desired : ℤ

abbrev pub is_zero : ℤ → Bool
is_zero (pos zero) = true
is_zero _ = false

abbrev pub new_machine : JoinArgs → ℕ → Machine
new_machine a now = record {
  user = a.user;
  name = a.machine;
  desired_ip = a.desired;
  public = a.public;
  fingerprint = a.fingerprint;
  vpn_ip = "";
  status = MachineStatus.pending;
  trusted = false;
  last_seen = 0;
  joined_at = now;
}

abbrev pub new_user : String → List ℕ → List ℕ → UserStatus → ℕ → User
new_user name salt verifier status now = record {
  name = name;
  salt = encode salt;
  verifier = encode verifier;
  status = status;
  joined_at = now;
}

abbrev pub is_empty : List ℕ → Bool
is_empty [] = true
is_empty (_ ∷ _) = false

unfoldable pub machine_name_used : String → String → String → State → Bool
machine_name_used user machine public s =
    any (λ m. m.user == user && m.name == machine && not (m.public == public)) s.machines

join_new_user : JoinArgs → ℕ → State → JoinOutcome
join_new_user a now s =
    if is_empty a.salt || is_empty a.verifier
    then (s, none, some (secrets_missing a.user))
    else saved MachineStatus.pending (record s {
      users = s.users ++ new_user a.user a.salt a.verifier UserStatus.pending now ∷ [];
      machines = s.machines ++ new_machine a now ∷ [];
    })

-- What the loop does to the machine that holds the key, past its checks.
abbrev pub refresh : JoinArgs → ℕ → Machine → Machine
refresh a now m = record m {
  name = a.machine;
  desired_ip = if is_zero a.desired then m.desired_ip else a.desired;
  last_seen = now;
}

join_known_key : JoinArgs → ℕ → Machine → State → JoinOutcome
unfolding machine_name_used
join_known_key a now m s =
    if m.status == MachineStatus.blocked
    then (s, some MachineStatus.blocked, none)
    else if not (m.name == a.machine) && machine_name_used a.user a.machine a.public s
    then (s, none, some (name_used a.user a.machine))
    else saved m.status (record s {
      machines = modify_first (λ n. n.public == a.public) (refresh a now) s.machines;
    })

join_new_key : JoinArgs → ℕ → State → JoinOutcome
unfolding machine_name_used
join_new_key a now s =
    if machine_name_used a.user a.machine a.public s
    then (s, none, some (name_used a.user a.machine))
    else saved MachineStatus.pending (record s { machines = s.machines ++ new_machine a now ∷ [] })

join_known_user : JoinArgs → ℕ → User → State → JoinOutcome
unfolding join_known_key join_new_key
join_known_user a now u s =
    if u.status == UserStatus.blocked
    then (s, some MachineStatus.blocked, none)
    else elim (find_machine_by_public a.public s) [
      | some m ↦ join_known_key a now m s
      | none ↦ join_new_key a now s
    ]

unfoldable pub register_join : JoinArgs → ℕ → State → JoinOutcome
unfolding join_new_user join_known_user
register_join a now s = elim (find_user a.user s) [
  | none ↦ join_new_user a now s
  | some u ↦ join_known_user a now u s
]

unfoldable pub set_verifier : String → List ℕ → List ℕ → State → Outcome
set_verifier name salt verifier s = elim (find_user name s) [
  | none ↦ (s, some (user_not_found name))
  | some _ ↦ save_locked (record s {
    users =
        modify_first (is_user name)
          (λ u. record u { salt = encode salt; verifier = encode verifier }) s.users;
  })
]

abbrev pub bind_ip : String → Machine → Machine
bind_ip ip m = record m { vpn_ip = ip }

unfoldable pub set_machine_ip : String → String → String → State → Outcome
set_machine_ip user machine ip s = elim (find_machine user machine s) [
  | none ↦ (s, some (machine_not_found user machine))
  | some _ ↦
      save_locked
        (record s { machines = modify_first (is_machine user machine) (bind_ip ip) s.machines })
]

unfoldable pub touch : String → String → ℕ → State → State
touch user machine now s = record s {
  machines = modify_first (is_machine user machine) (λ m. record m { last_seen = now }) s.machines;
}

unfoldable pub ensure_admin : String → List ℕ → List ℕ → ℕ → State → Outcome
ensure_admin name salt verifier now s = elim (find_user name s) [
  | none ↦
      save_locked
        (record s { users = s.users ++ new_user name salt verifier UserStatus.active now ∷ [] })
  | some u ↦
      if u.status == UserStatus.active
      then (s, none)
      else save_locked (record s {
        users = modify_first (is_user name) (λ v. record v { status = UserStatus.active }) s.users;
      })
]
