-- ===== src/State/Roster.antt =====
-- internal/state/state.go: Allow, Deny, Block, Unblock, Trust, Untrust and the removals they use.
pub mod Effects
pub mod Blocking
use nz.Base.{
  String, Bool, true, false, not, ◌&&◌, Option, none, some, List, map, Comparable, ◌==◌, string_eq,
  if◌then◌else◌, modify_first, keep_if,
}
use nz.State.Model.{
  State, User, Machine, UserStatus, MachineStatus, user_status_eq, machine_status_eq, Outcome,
  is_user, is_machine, find_user, find_machine, save_locked, user_not_found, machine_not_found,
  user_not_pending, machine_not_pending, user_not_active,
}

abbrev pub set_user_status : UserStatus → User → User
set_user_status status u = record u { status = status }

abbrev pub set_status : MachineStatus → Machine → Machine
set_status status m = record m { status = status }

-- `u.Status = …` through the pointer that `findUserLocked` returned.
abbrev pub with_user_status : String → UserStatus → State → State
with_user_status user status s = record s {
  users = modify_first (is_user user) (set_user_status status) s.users;
}

abbrev pub with_status : String → String → MachineStatus → State → State
with_status user machine status s = record s {
  machines = modify_first (is_machine user machine) (set_status status) s.machines;
}

abbrev user_is_active : Option User → Bool
user_is_active none = false
user_is_active (some u) = u.status == UserStatus.active

allow_user : String → State → Outcome
allow_user user s = elim (find_user user s) [
  | none ↦ (s, some (user_not_found user))
  | some u ↦
      if u.status == UserStatus.pending
      then save_locked (with_user_status user UserStatus.active s)
      else (s, some (user_not_pending user u.status))
]

allow_machine : String → String → State → Outcome
allow_machine user machine s = elim (find_machine user machine s) [
  | none ↦ (s, some (machine_not_found user machine))
  | some m ↦
      if m.status == MachineStatus.pending
      then (if user_is_active (find_user user s)
          then save_locked (with_status user machine MachineStatus.active s)
          else (s, some (user_not_active user)))
      else (s, some (machine_not_pending user machine m.status))
]

unfoldable pub allow : String → String → State → Outcome
unfolding allow_user allow_machine
allow user machine s = if machine == "" then allow_user user s else allow_machine user machine s

unfoldable pub remove_user : String → List User → List User
remove_user name = keep_if λ u. not (u.name == name)

unfoldable pub remove_user_machines : String → List Machine → List Machine
remove_user_machines user = keep_if λ m. not (m.user == user)

unfoldable pub remove_machine : String → String → List Machine → List Machine
remove_machine user name = keep_if λ m. not (m.user == user && m.name == name)

deny_user : String → State → Outcome
unfolding remove_user remove_user_machines
deny_user user s = elim (find_user user s) [
  | none ↦ (s, some (user_not_found user))
  | some _ ↦ save_locked (record s {
    users = remove_user user s.users;
    machines = remove_user_machines user s.machines;
  })
]

deny_machine : String → String → State → Outcome
unfolding remove_machine
deny_machine user machine s = elim (find_machine user machine s) [
  | none ↦ (s, some (machine_not_found user machine))
  | some _ ↦ save_locked (record s { machines = remove_machine user machine s.machines })
]

unfoldable pub deny : String → String → State → Outcome
unfolding deny_user deny_machine
deny user machine s = if machine == "" then deny_user user s else deny_machine user machine s

-- The loop over a user's machines.
abbrev pub each_machine_of : String → (Machine → Machine) → State → State
each_machine_of user f s = record s {
  machines = map (λ m. if m.user == user then f m else m) s.machines;
}

block_user : String → State → Outcome
block_user user s = elim (find_user user s) [
  | none ↦ (s, some (user_not_found user))
  | some _ ↦ save_locked (
      each_machine_of user (set_status MachineStatus.blocked)
        (with_user_status user UserStatus.blocked s))
]

block_machine : String → String → State → Outcome
block_machine user machine s = elim (find_machine user machine s) [
  | none ↦ (s, some (machine_not_found user machine))
  | some _ ↦ save_locked (with_status user machine MachineStatus.blocked s)
]

unfoldable pub block : String → String → State → Outcome
unfolding block_user block_machine
block user machine s = if machine == "" then block_user user s else block_machine user machine s

abbrev pub unblock_status : Machine → Machine
unblock_status m =
    if m.status == MachineStatus.blocked then set_status MachineStatus.active m else m

unblock_user : String → State → Outcome
unblock_user user s = elim (find_user user s) [
  | none ↦ (s, some (user_not_found user))
  | some u ↦ save_locked (
      each_machine_of user unblock_status
        (if u.status == UserStatus.blocked then with_user_status user UserStatus.active s else s))
]

unblock_machine : String → String → State → Outcome
unblock_machine user machine s = elim (find_machine user machine s) [
  | none ↦ (s, some (machine_not_found user machine))
  | some m ↦ save_locked (
      if m.status == MachineStatus.blocked
      then with_status user machine MachineStatus.active s
      else s)
]

unfoldable pub unblock : String → String → State → Outcome
unfolding unblock_user unblock_machine
unblock user machine s =
    if machine == "" then unblock_user user s else unblock_machine user machine s

abbrev pub set_trusted : Bool → Machine → Machine
set_trusted trusted m = record m { trusted = trusted }

set_trust_user : String → Bool → State → Outcome
set_trust_user user trusted s = elim (find_user user s) [
  | none ↦ (s, some (user_not_found user))
  | some _ ↦ save_locked (each_machine_of user (set_trusted trusted) s)
]

set_trust_machine : String → String → Bool → State → Outcome
set_trust_machine user machine trusted s = elim (find_machine user machine s) [
  | none ↦ (s, some (machine_not_found user machine))
  | some _ ↦ save_locked (record s {
    machines = modify_first (is_machine user machine) (set_trusted trusted) s.machines;
  })
]

unfoldable pub set_trust : String → String → Bool → State → Outcome
unfolding set_trust_user set_trust_machine
set_trust user machine trusted s =
    if machine == ""
    then set_trust_user user trusted s
    else set_trust_machine user machine trusted s

unfoldable pub trust : String → String → State → Outcome
unfolding set_trust
trust user machine = set_trust user machine true

unfoldable pub untrust : String → String → State → Outcome
unfolding set_trust
untrust user machine = set_trust user machine false
