-- ===== src/Examples/Tables.antt =====
-- Examples of the operations on the state.
use nz.Base.{
  any, modify_first, map, ◌∷◌, [], ◌≡◌, ◌≢◌, refl, eq_iff, ap, String, false, some, pos, arith,
  ◌==◌, string_eq, find_first, lookup, insert,
}
use nz.Netip.{Prefix, v4, parse_prefix, to_string, contains, next}
use nz.State.Model.{State, MachineStatus, tables, save_locked}
use nz.State.Roster.{block, unblock}
use nz.State.Roster.Blocking.{AllOf, unblock-block}
use nz.State.Join.{register_join}
use nz.State.Calls.Approval.{SameAccess, register_join-SameAccess}
use nz.State.Saving.{IsSynced}
use nz.State.Step.{Effect, joins, denies, blocks}
use nz.State.Alloc.{allocated, allocate_ip}
use nz.State.Alloc.Used.{Unused}
use nz.State.Alloc.Laws.{IsFree, allocate_ip-IsFree}
use nz.State.Alloc.Lowest.{allocate_ip_lowest, allocate_ip_succeeds}
use nz.State.Calls.{perform, perform-Effect}
use nz.State.Calls.Tables.{IsWellFormed, machine_name}
use nz.State.Calls.Durable.{perform-IsSynced}
use nz.State.Calls.Histories.{perform-IsWellFormed}
use nz.Examples.Data.{home, tablet_join, user_named, zero_key}

differ : (s t : String) → (s == t) ≡ false → s ≢ t
differ s t miss e = let hit = (eq_iff s t).1 e in ground (arith, hit, miss)

home-IsWellFormed : IsWellFormed (tables home)
home-IsWellFormed = record {
  users_distinct = (tt, tt);
  names_distinct = ((λ e. differ "laptop" "phone" refl (ap (λ p. p.1) e), tt), (tt, tt));
  keys_distinct = ((λ e. differ "key-2" zero_key refl e, tt), (tt, tt));
  owned = ((λ f. f.0 refl), ((λ f. f.0 refl), tt));
  grants_distinct = (tt, tt);
}

perform-IsWellFormed_example : IsWellFormed (tables (perform (joins tablet_join 5) home).0)
perform-IsWellFormed_example =
    perform-IsWellFormed (joins tablet_join 5) home ((λ e. refl), ((λ e. refl), tt))
      home-IsWellFormed

perform-Effect_example : Effect home (denies "alice" "") (perform (denies "alice" "") home)
perform-Effect_example = perform-Effect (denies "alice" "") home refl

perform-IsSynced_example :
    IsSynced (perform (blocks "alice" "phone") (record home { file = some (tables home) })).0
unfolding perform block find_first save_locked
perform-IsSynced_example =
    perform-IsSynced (blocks "alice" "phone") (record home { file = some (tables home) }) refl refl
      refl

-- 10.0.0.2 and 10.0.0.3 are taken.
allocate_ip-IsFree_example :
    (p : Prefix) × (parse_prefix "10.0.0.0/24" ≡ some p) × IsFree p home.machines "10.0.0.4"
unfolding allocate_ip contains next lookup insert to_string
allocate_ip-IsFree_example = allocate_ip-IsFree "10.0.0.0/24" (pos 0) home "10.0.0.4" refl

allocate_ip_succeeds_example :
    (ip : String) × (allocate_ip "10.0.0.0/24" (pos 0) home ≡ allocated ip)
unfolding parse_prefix contains to_string
allocate_ip_succeeds_example =
    allocate_ip_succeeds "10.0.0.0/24" (record { addr = 167772160; bits = 24 }) home 167772169 refl
      (omega arith) (omega arith) refl
      (differ "10.0.0.2" "10.0.0.9" refl, (differ "10.0.0.3" "10.0.0.9" refl, tt))

allocate_ip_lowest_example : ¬ Unused (to_string (v4 167772163)) home.machines
unfolding parse_prefix allocate_ip contains next lookup insert to_string
allocate_ip_lowest_example =
    allocate_ip_lowest "10.0.0.0/24" (record { addr = 167772160; bits = 24 }) home "10.0.0.4"
      167772164 167772163 refl refl refl (omega arith) (omega arith) (omega arith)

register_join-SameAccess_example :
    SameAccess (tables home) (tables (register_join tablet_join 5 home).0)
register_join-SameAccess_example = register_join-SameAccess tablet_join 5 home

unblock-block_example :
    AllOf "alice" MachineStatus.active
      (tables (unblock "alice" "" (block "alice" "" home).0).0).machines
unfolding find_first
unblock-block_example = unblock-block "alice" (user_named "alice") home refl

-- Bob joins with the key of Alice's phone and the name of her laptop: her phone takes that name.
abbrev with_bob : State
with_bob = record home { users = user_named "alice" ∷ user_named "bob" ∷ [] }

bob_takes_phone :
    map machine_name
      (register_join
        (record tablet_join { user = "bob"; machine = "laptop"; public = zero_key })
        5
        with_bob).0.machines
    ≡ ("alice", "laptop") ∷ ("alice", "laptop") ∷ []
unfolding register_join find_first any modify_first save_locked
bob_takes_phone = refl
