-- ===== src/State/Entries.antt =====
-- The entries of the tables and their changes in terms of the fields, for the abstract system.
use nz.Base.{
  ℕ, ℤ, pos, zero, String, Bool, true, false, ◌&&◌, List, map, ◌==◌, string_eq, if◌then◌else◌,
  modify_first,
}
use nz.Base64.{encode}
use nz.State.Model.{State, User, Machine, UserStatus, MachineStatus, machine_status_eq}
use nz.State.Join.{JoinArgs}

-- A join that asks for no address.
abbrev pub is_unset : ℤ → Bool
is_unset (pos zero) = true
is_unset _ = false

-- The entries and the changes of the steps, in terms of the fields.
abbrev pub user_entry : String → List ℕ → List ℕ → UserStatus → ℕ → User
user_entry name salt verifier status now = record {
  name = name;
  salt = encode salt;
  verifier = encode verifier;
  status = status;
  joined_at = now;
}

-- A machine joins as pending, not trusted, and without an address.
abbrev pub machine_entry : JoinArgs → ℕ → Machine
machine_entry a now = record {
  user = a.user;
  name = a.machine;
  desired_ip = a.desired;
  public = a.public;
  fingerprint = a.fingerprint;
  vpn_ip = "";
  status = MachineStatus.pending;
  trusted = false;
  last_seen = 0;
  joined_at = now;
}

abbrev pub names : String → String → Machine → Bool
names user machine m = m.user == user && m.name == machine

abbrev pub is_blocked : Machine → Bool
is_blocked m = m.status == MachineStatus.blocked

abbrev pub user_becomes : String → UserStatus → State → State
user_becomes user status s = record s {
  users = modify_first (λ u. u.name == user) (λ u. record u { status = status }) s.users;
}

abbrev pub machine_becomes : String → String → MachineStatus → State → State
machine_becomes user machine status s = record s {
  machines = modify_first (names user machine) (λ m. record m { status = status }) s.machines;
}

-- The machines of the user that pass the test change their status.
abbrev pub each_becomes : String → MachineStatus → (Machine → Bool) → State → State
each_becomes user status test s = record s {
  machines =
      map (λ m. if m.user == user then (if test m then record m { status = status } else m) else m)
        s.machines;
}
