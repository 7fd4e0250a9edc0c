-- ===== src/State/Calls/Invariant.antt =====
-- internal/state/state.go: names, keys and grants under the steps of the abstract system.
use mathlib.Core.List.{map-append}
use nz.Base.{
  ℕ, String, Bool, true, false, not, ◌≡◌, ◌≢◌, refl, sym, ◌∙◌, inl, inr, List, [], ◌∷◌, ◌++◌, map,
  none, arith, ◌==◌, string_eq, eq_iff, if◌then◌else◌, Bool-cases, All-imp, All-zip, All-map,
  map-All, Fresh, Fresh-append_left, Distinct-concat, Distinct-keep_if, Fresh-map, keep_if,
  keep_if-All, keep_if-test, any, any-false, find_first-none,
}
use nz.State.Model.{
  State, User, Machine, Grant, UserStatus, MachineStatus, tables, is_user, is_machine, find_user,
  user_status_eq, machine_status_eq,
}
use nz.State.Roster.{
  set_status, unblock_status, set_trusted, set_user_status, with_user_status, remove_user,
  remove_user_machines, remove_machine,
}
use nz.State.Grants.{is_grant}
use nz.State.Join.{JoinArgs, bind_ip}
use nz.State.Step.{Step, Call, joins}
use nz.State.Calls.Tables.{
  IsWellFormed, Known, user_name, machine_name, machine_key, grant_pair, users_update,
  machines_update, machines_each,
}

unblock_status-name : (m : Machine) → machine_name (unblock_status m) ≡ machine_name m
unblock_status-name m = ground arith

unblock_status-key : (m : Machine) → machine_key (unblock_status m) ≡ machine_key m
unblock_status-key m = ground arith

if-IsWellFormed :
    (b : Bool) (s t : State)
    → IsWellFormed (tables s)
    → IsWellFormed (tables t)
    → IsWellFormed (tables (if b then s else t))
if-IsWellFormed true s t h k = h
if-IsWellFormed false s t h k = k

Known-keep :
    (user : String) (us : List User) (n : String × String)
    → n.0 ≢ user
    → Known (map user_name us) n
    → Known (map user_name (remove_user user us)) n
unfolding remove_user keep_if
Known-keep user us n other known fresh = known (go us fresh)
  where
    go :
        (us : List User)
        → Fresh n.0 (map user_name (keep_if (λ u. not (u.name == user)) us))
        → Fresh n.0 (map user_name us)
    go [] f = tt
    go (u ∷ us) f = elim (Bool-cases (u.name == user)) [
      | inl hit ↦ (λ e. other (sym e ∙ (eq_iff u.name user).0 hit), go us (rw (hit, keep_if) at f))
      | inr miss ↦ let (first, rest) = rw (miss, keep_if) at f in (first, go us rest)
    ]

module _ (s : State) (h : IsWellFormed (tables s)) where
  drop_user-IsWellFormed :
      (user : String)
      → IsWellFormed (
          tables (record s {
            users = remove_user user s.users;
            machines = remove_user_machines user s.machines;
          }))
  unfolding remove_user remove_user_machines
  drop_user-IsWellFormed user = record {
    users_distinct = Distinct-keep_if user_name _ s.users h.users_distinct;
    names_distinct = Distinct-keep_if machine_name _ s.machines h.names_distinct;
    keys_distinct = Distinct-keep_if machine_key _ s.machines h.keys_distinct;
    owned = All-map (Known left) machine_name kept (
        All-zip (λ m. Known (map user_name s.users) (machine_name m)) others
          (λ m. Known left (machine_name m)) kept
          (λ m known other.
            Known-keep user s.users (machine_name m) (λ e. ground (arith, eq_iff m.user user))
              known)
          (keep_if-All _ _ s.machines
            (map-All (Known (map user_name s.users)) machine_name s.machines h.owned))
          (keep_if-test _ s.machines));
    grants_distinct = h.grants_distinct;
  }
    where
      left : List String
      left = map user_name (remove_user user s.users)

      kept : List Machine
      kept = remove_user_machines user s.machines

      others : Machine → Type 0
      others m = not (m.user == user) ≡ true

  drop_machine-IsWellFormed :
      (user machine : String)
      → IsWellFormed (tables (record s { machines = remove_machine user machine s.machines }))
  unfolding remove_machine
  drop_machine-IsWellFormed user machine = record {
    users_distinct = h.users_distinct;
    names_distinct = Distinct-keep_if machine_name _ s.machines h.names_distinct;
    keys_distinct = Distinct-keep_if machine_key _ s.machines h.keys_distinct;
    owned =
        All-map (Known (map user_name s.users)) machine_name
          (remove_machine user machine s.machines)
          (keep_if-All _ _ s.machines
            (map-All (Known (map user_name s.users)) machine_name s.machines h.owned));
    grants_distinct = h.grants_distinct;
  }

  add_grant-IsWellFormed :
      (subject target : String)
      → any (is_grant subject target) s.grants ≡ false
      → IsWellFormed (
          tables
            (record s { grants = s.grants ++ record { subject = subject; target = target } ∷ [] }))
  add_grant-IsWellFormed subject target e = record {
    users_distinct = h.users_distinct;
    names_distinct = h.names_distinct;
    keys_distinct = h.keys_distinct;
    owned = h.owned;
    grants_distinct = rw (map-append grant_pair s.grants _) (
        Distinct-concat (subject, target) (map grant_pair s.grants)
          (Fresh-map grant_pair (subject, target) s.grants
            (All-imp _ _ s.grants (λ g. other g) (any-false (is_grant subject target) s.grants e)))
          h.grants_distinct);
  }
    where
      other : (g : Grant) → is_grant subject target g ≡ false → grant_pair g ≢ (subject, target)
      other g miss e = ground (arith, eq_iff g.subject subject, eq_iff g.target target)

  pub add_user-IsWellFormed :
      (u : User)
      → find_user u.name s ≡ none
      → IsWellFormed (tables (record s { users = s.users ++ u ∷ [] }))
  add_user-IsWellFormed u e = record {
    users_distinct =
        rw (map-append user_name s.users _)
          (Distinct-concat u.name (map user_name s.users) fresh h.users_distinct);
    names_distinct = h.names_distinct;
    keys_distinct = h.keys_distinct;
    owned = rw (map-append user_name s.users _) (
        All-imp _ _ (map machine_name s.machines)
          (λ n known f. known (Fresh-append_left n.0 (map user_name s.users) _ f)) h.owned);
    grants_distinct = h.grants_distinct;
  }
    where
      fresh : Fresh u.name (map user_name s.users)
      fresh = Fresh-map user_name u.name s.users (
          All-imp _ _ s.users (λ v miss e. ground (arith, eq_iff v.name u.name))
            (find_first-none (is_user u.name) s.users e))

  drop_grant-IsWellFormed :
      (p : Grant → Bool) → IsWellFormed (tables (record s { grants = keep_if p s.grants }))
  drop_grant-IsWellFormed p = record {
    users_distinct = h.users_distinct;
    names_distinct = h.names_distinct;
    keys_distinct = h.keys_distinct;
    owned = h.owned;
    grants_distinct = Distinct-keep_if grant_pair p s.grants h.grants_distinct;
  }

-- A step keeps the tables well formed, if joins do.
pub Step-IsWellFormed :
    {s : State} {c : Call} {t : State}
    → Step s c t
    → ((a : JoinArgs) (now : ℕ) → c ≡ joins a now → IsWellFormed (tables t))
    → IsWellFormed (tables s)
    → IsWellFormed (tables t)
unfolding remove_user remove_user_machines remove_machine
Step-IsWellFormed {s} (Step.approve_user user u e p) j h =
    users_update s (is_user user) (set_user_status UserStatus.active) (λ v. refl) h
Step-IsWellFormed {s} (Step.approve_machine user machine m u n e p f q) j h =
    machines_update s (is_machine user machine) (set_status MachineStatus.active) (λ k. refl)
      (λ k. refl) h
Step-IsWellFormed {s} (Step.drop_user user u e) j h = drop_user-IsWellFormed s h user
Step-IsWellFormed {s} (Step.drop_machine user machine m n e) j h =
    drop_machine-IsWellFormed s h user machine
Step-IsWellFormed {s} (Step.block_user user u e) j h =
    machines_each (with_user_status user UserStatus.blocked s) user
      (set_status MachineStatus.blocked) (λ k. refl) (λ k. refl)
      (users_update s (is_user user) (set_user_status UserStatus.blocked) (λ v. refl) h)
Step-IsWellFormed {s} (Step.block_machine user machine m n e) j h =
    machines_update s (is_machine user machine) (set_status MachineStatus.blocked) (λ k. refl)
      (λ k. refl) h
Step-IsWellFormed {s} (Step.unblock_user user u e) j h =
    machines_each
      (if u.status == UserStatus.blocked then with_user_status user UserStatus.active s else s) user
      unblock_status unblock_status-name unblock_status-key
      (if-IsWellFormed (u.status == UserStatus.blocked) _ s
        (users_update s (is_user user) (set_user_status UserStatus.active) (λ v. refl) h) h)
Step-IsWellFormed {s} (Step.unblock_machine user machine m n e p) j h =
    machines_update s (is_machine user machine) (set_status MachineStatus.active) (λ k. refl)
      (λ k. refl) h
Step-IsWellFormed {s} (Step.trust_user user trusted u e) j h =
    machines_each s user (set_trusted trusted) (λ k. refl) (λ k. refl) h
Step-IsWellFormed {s} (Step.trust_machine user machine trusted m n e) j h =
    machines_update s (is_machine user machine) (set_trusted trusted) (λ k. refl) (λ k. refl) h
Step-IsWellFormed {s} (Step.add_grant subject target e) j h =
    add_grant-IsWellFormed s h subject target e
Step-IsWellFormed {s} (Step.drop_grant subject target) j h = drop_grant-IsWellFormed s h _
Step-IsWellFormed {s} (Step.store_verifier user salt verifier u e) j h =
    users_update s (is_user user) _ (λ v. refl) h
Step-IsWellFormed {s} (Step.store_ip user machine ip m e) j h =
    machines_update s (is_machine user machine) (bind_ip ip) (λ k. refl) (λ k. refl) h
Step-IsWellFormed {s} (Step.add_admin user salt verifier now e) j h = add_user-IsWellFormed s h _ e
Step-IsWellFormed {s} (Step.activate_admin user salt verifier now u e n) j h =
    users_update s (is_user user) (set_user_status UserStatus.active) (λ v. refl) h
Step-IsWellFormed (Step.leave_machine user machine m n e p) j h = h
Step-IsWellFormed (Step.join_user a now e salt verifier) j h = j a now refl
Step-IsWellFormed (Step.join_machine a now u e n f free) j h = j a now refl
Step-IsWellFormed (Step.rejoin a now u m e n f b free) j h = j a now refl
