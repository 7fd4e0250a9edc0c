-- ===== src/State/Model.antt =====
-- internal/state/state.go: the data model, the write of the state file and the searches.
-- A `time.Time` is its number of nanoseconds, and the zero time is 0. The mutex makes each
-- operation atomic, so an operation is a function from the state to the state and its result.
use nz.Base.{
  ℕ, ℤ, String, Bool, true, false, ◌&&◌, ◌≡◌, ◌↔◌, List, [], ◌∷◌, Option, none, some, arith,
  Comparable, ◌==◌, string_eq, find_first,
}

pub data UserStatus : Type 0 where
  pending active blocked : UserStatus

pub data MachineStatus : Type 0 where
  pending active blocked : MachineStatus

abbrev pub user_status_beq : UserStatus → UserStatus → Bool
user_status_beq UserStatus.pending UserStatus.pending = true
user_status_beq UserStatus.active UserStatus.active = true
user_status_beq UserStatus.blocked UserStatus.blocked = true
user_status_beq _ _ = false

abbrev pub machine_status_beq : MachineStatus → MachineStatus → Bool
machine_status_beq MachineStatus.pending MachineStatus.pending = true
machine_status_beq MachineStatus.active MachineStatus.active = true
machine_status_beq MachineStatus.blocked MachineStatus.blocked = true
machine_status_beq _ _ = false

pub user_status_beq_iff : (a b : UserStatus) → (user_status_beq a b ≡ true) ↔ (a ≡ b)
user_status_beq_iff a b = ground arith

pub machine_status_beq_iff : (a b : MachineStatus) → (machine_status_beq a b ≡ true) ↔ (a ≡ b)
machine_status_beq_iff a b = ground arith

instance abbrev pub user_status_eq : Comparable UserStatus
user_status_eq = record { test = user_status_beq; test_iff = user_status_beq_iff }

instance abbrev pub machine_status_eq : Comparable MachineStatus
machine_status_eq = record { test = machine_status_beq; test_iff = machine_status_beq_iff }

pub record User : Type 0 where
  pub name : String
  pub salt : String
  pub verifier : String
  pub status : UserStatus
  pub joined_at : ℕ

pub record Machine : Type 0 where
  pub user : String
  pub name : String
  pub desired_ip : ℤ
  pub public : String
  pub fingerprint : String
  pub vpn_ip : String
  pub status : MachineStatus
  pub trusted : Bool
  pub last_seen : ℕ
  pub joined_at : ℕ

pub record IdentityData : Type 0 where
  pub sign_public : String
  pub sign_private : String
  pub exch_public : String
  pub exch_private : String

pub record ServerAuth : Type 0 where
  pub sign_pub : List ℕ
  pub exch_pub : List ℕ

pub record Grant : Type 0 where
  pub subject : String
  pub target : String

pub record MachineView : Type 0 where
  pub machine : Machine
  pub self : Bool

-- What the state file holds.
pub record Tables : Type 0 where
  pub identity : Option IdentityData
  pub server_auth : Option ServerAuth
  pub users : List User
  pub machines : List Machine
  pub grants : List Grant

-- How the file system answers a write of the state file: the temporary file and the rename both
-- succeed, or one of them fails.
pub data Write : Type 0 where
  written write_fails rename_fails : Write

-- `file` is the content on disk, `none` while there is no file. `writes` are the answers to the
-- writes to come; past its end they succeed.
pub record State : Type 0 where
  pub identity : Option IdentityData
  pub server_auth : Option ServerAuth
  pub users : List User
  pub machines : List Machine
  pub grants : List Grant
  pub file : Option Tables
  pub writes : List Write

pub data Error : Type 0 where
  target_empty : Error
  no_user_part : String → Error
  user_not_found : String → Error
  machine_not_found : String → String → Error
  user_not_pending : String → UserStatus → Error
  machine_not_pending : String → String → MachineStatus → Error
  user_not_active : String → Error
  secrets_missing : String → Error
  name_used : String → String → Error
  bad_subnet : String → Error
  desired_out_of_range : ℤ → Error
  desired_not_usable : String → String → Error
  ip_used : String → String → Error
  no_free_address : String → Error
  write_failed replace_failed : Error
  unknown_command : String → Error

-- The state after an operation, with Go's `error` (`none` is nil).
abbrev pub Outcome : Type 0
Outcome = State × Option Error

abbrev pub tables : State → Tables
tables s = record {
  identity = s.identity;
  server_auth = s.server_auth;
  users = s.users;
  machines = s.machines;
  grants = s.grants;
}

unfoldable pub save_answered : List Write → State → Outcome
save_answered [] s = (record s { file = some (tables s) }, none)
save_answered (written ∷ ws) s = (record s { file = some (tables s); writes = ws }, none)
save_answered (write_fails ∷ ws) s = (record s { writes = ws }, some write_failed)
save_answered (rename_fails ∷ ws) s = (record s { writes = ws }, some replace_failed)

unfoldable pub save_locked : State → Outcome
unfolding save_answered
save_locked s = save_answered s.writes s

-- The state that a start reads: an absent file gives the empty state.
unfoldable pub load : Option Tables → List Write → State
load none ws = record {
  identity = none;
  server_auth = none;
  users = [];
  machines = [];
  grants = [];
  file = none;
  writes = ws;
}
load (some t) ws = record {
  identity = t.identity;
  server_auth = t.server_auth;
  users = t.users;
  machines = t.machines;
  grants = t.grants;
  file = some t;
  writes = ws;
}

abbrev pub is_user : String → User → Bool
is_user name u = u.name == name

abbrev pub is_machine : String → String → Machine → Bool
is_machine user name m = m.user == user && m.name == name

abbrev pub find_user : String → State → Option User
find_user name s = find_first (is_user name) s.users

abbrev pub find_machine : String → String → State → Option Machine
find_machine user name s = find_first (is_machine user name) s.machines

abbrev pub find_machine_by_public : String → State → Option Machine
find_machine_by_public public s = find_first (λ m. m.public == public) s.machines

abbrev pub find_machine_by_ip : String → State → Option Machine
find_machine_by_ip ip s = find_first (λ m. m.vpn_ip == ip) s.machines
