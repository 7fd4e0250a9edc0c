-- ===== src/State/Calls/Approval.antt =====
-- internal/state/state.go: RegisterJoin and who is active.
use nz.Base.{
  ℕ, String, ◌≡◌, refl, ap, Bool, false, List, [], ◌∷◌, ◌++◌, Option, arith, ◌==◌, string_eq, map,
  keep_if, modify_first,
}
use nz.State.Model.{
  State, Tables, Error, User, Machine, UserStatus, MachineStatus, user_status_eq, machine_status_eq,
  tables,
}
use nz.State.Saving.{tables-save_locked}
use nz.State.Join.{JoinArgs, register_join, refresh, new_machine, new_user}
use nz.State.Step.{Step, Effect, refused, idle, stored, joins}
use nz.State.Calls.{perform, perform-Effect}

abbrev pub is_active : Machine → Bool
is_active m = m.status == MachineStatus.active

abbrev pub is_active_user : User → Bool
is_active_user u = u.status == UserStatus.active

-- The keys of the machines that may send data, and the users that are active.
abbrev pub active_keys : List Machine → List String
active_keys ms = map (λ m. m.public) (keep_if is_active ms)

abbrev pub active_users : List User → List String
active_users us = map (λ u. u.name) (keep_if is_active_user us)

-- The second tables give the same machines and users access as the first.
abbrev pub SameAccess : Tables → Tables → Type 0
SameAccess t t' =
    (active_keys t'.machines ≡ active_keys t.machines)
    × (active_users t'.users ≡ active_users t.users)

keep_if-concat {ℓ} :
    {A : Type ℓ} (p : A → Bool) (xs : List A) (x : A)
    → p x ≡ false
    → keep_if p (xs ++ x ∷ []) ≡ keep_if p xs
unfolding keep_if
keep_if-concat p [] x e = rw e refl
keep_if-concat p (y ∷ xs) x e = ground (arith, keep_if-concat p xs x e)

-- The update of a join leaves the keys and the statuses.
active_keys-refresh :
    (a : JoinArgs) (now : ℕ) (ms : List Machine)
    → active_keys (modify_first (λ n. n.public == a.public) (refresh a now) ms) ≡ active_keys ms
unfolding keep_if modify_first
active_keys-refresh a now [] = refl
active_keys-refresh a now (m ∷ ms) = ground (arith, active_keys-refresh a now ms)

keep_keys :
    (s : State) (m : Machine)
    → is_active m ≡ false
    → active_keys (s.machines ++ m ∷ []) ≡ active_keys s.machines
keep_keys s m e = ap (map (λ m. m.public)) (keep_if-concat is_active s.machines m e)

join-SameAccess :
    {s : State} (a : JoinArgs) (now : ℕ) {t : State}
    → Step s (joins a now) t
    → SameAccess (tables s) (tables t)
join-SameAccess {s} a now (Step.join_user _ _ new salt verifier) = (
  keep_keys s (new_machine a now) refl,
  ap (map (λ u. u.name)) (
      keep_if-concat is_active_user s.users
        (new_user a.user a.salt a.verifier UserStatus.pending now) refl),
)
join-SameAccess {s} a now (Step.join_machine _ _ u known n new free) =
    (keep_keys s (new_machine a now) refl, refl)
join-SameAccess {s} a now (Step.rejoin _ _ u m known n key b free) =
    (active_keys-refresh a now s.machines, refl)

Effect-SameAccess :
    {s : State} (a : JoinArgs) (now : ℕ) {o : State × Option Error}
    → Effect s (joins a now) o
    → SameAccess (tables s) (tables o.0)
Effect-SameAccess a now (refused e none_fits) = (refl, refl)
Effect-SameAccess a now (idle i) = (refl, refl)
Effect-SameAccess a now (stored {t} step) = rw (tables-save_locked t) (join-SameAccess a now step)

-- RegisterJoin, whatever the join brings and however it ends, leaves the keys of the active machines and the names
-- of the active users as they were.
pub register_join-SameAccess :
    (a : JoinArgs) (now : ℕ) (s : State) → SameAccess (tables s) (tables (register_join a now s).0)
unfolding perform
register_join-SameAccess a now s = Effect-SameAccess a now (perform-Effect (joins a now) s refl)
