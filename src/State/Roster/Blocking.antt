-- ===== src/State/Roster/Blocking.antt =====
-- internal/state/state.go, Block and Unblock: what they do to the machines of a user.
use nz.Base.{
  String, ◌≡◌, ap, ◌∙◌, List, [], ◌∷◌, some, arith, ◌==◌, string_eq, eq_iff, if◌then◌else◌, map,
  find_first, modify_first, All,
}
use nz.State.Model.{
  State, User, Machine, UserStatus, MachineStatus, machine_status_eq, user_status_eq, tables,
  find_user, is_user,
}
use nz.State.Saving.{tables-save_locked}
use nz.State.Roster.{
  block, block_user, unblock, unblock_user, each_machine_of, set_status, unblock_status,
  with_user_status, set_user_status,
}

-- Every machine of the user has the status.
abbrev pub AllOf : String → MachineStatus → List Machine → Type 0
AllOf user status ms = All (λ m. m.user ≡ user → m.status ≡ status) ms

map-blocked :
    (user : String) (ms : List Machine)
    → AllOf user MachineStatus.blocked
        (map (λ m. if m.user == user then set_status MachineStatus.blocked m else m) ms)
map-blocked user [] = tt
map-blocked user (m ∷ ms) = (head, map-blocked user ms)
  where
    head :
        (let n = if m.user == user then set_status MachineStatus.blocked m else m in
          n.user ≡ user → n.status ≡ MachineStatus.blocked)
    head = ground (arith, eq_iff m.user user)

map-unblocked :
    (user : String) (ms : List Machine)
    → AllOf user MachineStatus.blocked ms
    → AllOf user MachineStatus.active (map (λ m. if m.user == user then unblock_status m else m) ms)
map-unblocked user [] h = tt
map-unblocked user (m ∷ ms) (p, h) = (head, map-unblocked user ms h)
  where
    head :
        (let n = if m.user == user then unblock_status m else m in
          n.user ≡ user → n.status ≡ MachineStatus.active)
    head = ground (arith, eq_iff m.user user, p)

abbrev blocked_user : String → State → State
blocked_user user s =
    each_machine_of user (set_status MachineStatus.blocked)
      (with_user_status user UserStatus.blocked s)

abbrev unblocked_user : String → User → State → State
unblocked_user user u s =
    each_machine_of user unblock_status
      (if u.status == UserStatus.blocked then with_user_status user UserStatus.active s else s)

find_user-modify_first :
    (user : String) (us : List User) (u : User)
    → find_first (is_user user) us ≡ some u
    → find_first
        (is_user user)
        (modify_first (is_user user) (set_user_status UserStatus.blocked) us)
      ≡ some (record u { status = UserStatus.blocked })
unfolding find_first modify_first
find_user-modify_first user [] u e = cc
find_user-modify_first user (v ∷ us) u e = ground (arith, find_user-modify_first user us u)

module _ (user : String) (u : User) (s : State) where
  tables-block :
      find_user user s ≡ some u → tables (block user "" s).0 ≡ tables (blocked_user user s)
  unfolding block block_user
  tables-block known = rw (known, block, block_user) (tables-save_locked (blocked_user user s))

  tables-unblock :
      find_user user s ≡ some u → tables (unblock user "" s).0 ≡ tables (unblocked_user user u s)
  unfolding unblock unblock_user
  tables-unblock known =
      rw (known, unblock, unblock_user) (tables-save_locked (unblocked_user user u s))

-- Blocking a known user leaves every machine of that user blocked, whether the file is written or not.
pub block-AllOf :
    (user : String) (u : User) (s : State)
    → find_user user s ≡ some u
    → AllOf user MachineStatus.blocked (tables (block user "" s).0).machines
block-AllOf user u s known = rw (tables-block user u s known) (map-blocked user s.machines)

-- Unblocking a user after a block leaves every machine of that user active, one that was waiting for
-- its first approval included.
pub unblock-block :
    (user : String) (u : User) (s : State)
    → find_user user s ≡ some u
    → AllOf user MachineStatus.active (tables (unblock user "" (block user "" s).0).0).machines
unblock-block user u s known =
    let s' = (block user "" s).0 in
    let u' : User = record u { status = UserStatus.blocked } in
    let known' : find_user user s' ≡ some u' =
      ap (λ t. find_first (is_user user) t.users) (tables-block user u s known)
      ∙ find_user-modify_first user s.users u known in
    rw (tables-unblock user u' s' known')
      (map-unblocked user s'.machines (block-AllOf user u s known))
