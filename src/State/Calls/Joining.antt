-- ===== src/State/Calls/Joining.antt =====
-- internal/state/state.go: names and keys under a join, by the owner of the key that it brings.
use mathlib.Core.List.{map-append}
use nz.Base.{
  ℕ, String, Bool, true, false, not, ◌&&◌, ◌||◌, ◌≡◌, ◌≢◌, refl, sym, ap, ◌∙◌, subst, inl, inr,
  List, [], ◌∷◌, ◌++◌, map, none, some, arith, ◌==◌, string_eq, eq_iff, Bool-cases, All, All-imp,
  All-zip, All-append, Distinct, Fresh, Distinct-concat, Fresh-map, Fresh-append_right, All-map,
  map-All, modify_first, modify_first-All, any-false, find_first-none, find_first-test,
  find_first-All, find_first, map-modify_first_at, map-modify_first,
}
use nz.State.Model.{
  State, User, Machine, Outcome, tables, is_user, find_user, find_machine_by_public,
}
use nz.State.Saving.{tables-save_locked}
use nz.State.Join.{JoinArgs, refresh, new_machine, machine_name_used}
use nz.State.Step.{Step, Effect, refused, idle, stored, Call, joins}
use nz.State.Calls.Tables.{
  IsWellFormed, Consistent, Consistent-same, Known, user_name, machine_name, machine_key,
  grant_pair,
}
use nz.State.Calls.Invariant.{Step-IsWellFormed, add_user-IsWellFormed}

-- A key that comes in a join request is, if it is known at all, that of a machine of the same user.
abbrev pub IsOwnKey : JoinArgs → State → Type 0
IsOwnKey a s = All (λ m. m.public ≡ a.public → m.user ≡ a.user) s.machines

-- The user of a search that succeeds is known.
find_user-Known :
    (users : List User) (user machine : String) (u : User)
    → find_first (is_user user) users ≡ some u
    → Known (map user_name users) (user, machine)
find_user-Known users user machine u e fresh =
    find_first-All (λ v. user_name v ≢ user) (is_user user) users u
      (map-All (λ n. n ≢ user) user_name users fresh) e
      ((eq_iff u.name user).0 (find_first-test (is_user user) users u e))

-- No machine but those with the key has the requested name.
name_free :
    (a : JoinArgs) (s : State)
    → machine_name_used a.user a.machine a.public s ≡ false
    → All (λ m. m.public ≢ a.public → machine_name m ≢ (a.user, a.machine)) s.machines
unfolding machine_name_used
name_free a s e = All-imp _ _ s.machines (λ m. other m) (any-false _ s.machines e)
  where
    other :
        (m : Machine)
        → (m.user == a.user && m.name == a.machine && not (m.public == a.public)) ≡ false
        → m.public ≢ a.public
        → machine_name m ≢ (a.user, a.machine)
    other m miss n e =
        ground (arith, eq_iff m.user a.user, eq_iff m.name a.machine, eq_iff m.public a.public)

abbrev has_key : JoinArgs → Machine → Bool
has_key a m = m.public == a.public

module _ (a : JoinArgs) (now : ℕ) where
  -- Renaming the machine that holds the key keeps the names distinct if no other machine has the
  -- new name.
  rename-Fresh :
      (n : String × String) (ms : List Machine)
      → n ≢ (a.user, a.machine)
      → All (λ m. m.public ≡ a.public → m.user ≡ a.user) ms
      → Fresh n (map machine_name ms)
      → Fresh n (map machine_name (modify_first (has_key a) (refresh a now) ms))
  unfolding modify_first
  rename-Fresh n [] o own f = tt
  rename-Fresh n (m ∷ ms) o (u, own) (g, f) = elim (Bool-cases (has_key a m)) [
    | inl hit ↦
        let same : m.user ≡ a.user = u ((eq_iff m.public a.public).0 hit) in
        rw (hit, modify_first) (λ e. o (sym e ∙ ap (λ w. (w, a.machine)) same), f)
    | inr miss ↦ rw (miss, modify_first) (g, rename-Fresh n ms o own f)
  ]

  rename-Distinct :
      (ms : List Machine)
      → All (λ m. m.public ≡ a.public → m.user ≡ a.user) ms
      → All (λ m. m.public ≢ a.public → machine_name m ≢ (a.user, a.machine)) ms
      → Distinct (map machine_key ms)
      → Distinct (map machine_name ms)
      → Distinct (map machine_name (modify_first (has_key a) (refresh a now) ms))
  unfolding modify_first
  rename-Distinct [] own free keys names = tt
  rename-Distinct (m ∷ ms) (u, own) (o, free) (k, keys) (n, names) =
      elim (Bool-cases (has_key a m)) [
        | inl hit ↦
            let key : m.public ≡ a.public = (eq_iff m.public a.public).0 hit in
            let same : m.user ≡ a.user = u key in
            rw (hit, modify_first)
              (
                Fresh-map machine_name (m.user, a.machine) ms
                    (All-zip _ _ _ ms
                      (λ x other unlike e.
                        other (λ i. unlike (i ∙ sym key)) (e ∙ ap (λ w. (w, a.machine)) same))
                      free (map-All (λ j. j ≢ m.public) machine_key ms k)),
                names,
              )
        | inr miss ↦
            rw (miss, modify_first)
              (
                rename-Fresh (machine_name m) ms (o (λ e. ground (arith, eq_iff m.public a.public)))
                    own n,
                rename-Distinct ms own free keys names,
              )
      ]

module _ (s : State) (a : JoinArgs) (now : ℕ) (h : IsWellFormed (tables s))
    (own : IsOwnKey a s) where
  users : List String
  users = map user_name s.users

  -- A new machine, under a user who is or will be known.
  add_machine-IsWellFormed :
      (t : State)
      → IsWellFormed (tables t)
      → t.machines ≡ s.machines
      → Known (map user_name t.users) (a.user, a.machine)
      → All (λ m. machine_key m ≢ a.public) s.machines
      → All (λ m. machine_name m ≢ (a.user, a.machine)) s.machines
      → IsWellFormed (tables (record t { machines = s.machines ++ new_machine a now ∷ [] }))
  add_machine-IsWellFormed t k e known keys names =
      let k' : Consistent (map user_name t.users) (map machine_name s.machines)
          (map machine_key s.machines) (map grant_pair t.grants) =
        rw e at k in
      record {
        users_distinct = k'.users_distinct;
        names_distinct = rw (map-append machine_name s.machines _) (
            Distinct-concat (a.user, a.machine) (map machine_name s.machines)
              (Fresh-map machine_name _ s.machines names) k'.names_distinct);
        keys_distinct = rw (map-append machine_key s.machines _) (
            Distinct-concat a.public (map machine_key s.machines)
              (Fresh-map machine_key _ s.machines keys) k'.keys_distinct);
        owned =
            rw (map-append machine_name s.machines _)
              (All-append _ (map machine_name s.machines) _ k'.owned (known, tt));
        grants_distinct = k'.grants_distinct;
      }

  -- No machine belongs to a user who is not known.
  strangers : find_user a.user s ≡ none → All (λ m. m.user ≢ a.user) s.machines
  strangers e =
      All-imp _ _ s.machines
        (λ m known i. known (
          Fresh-map user_name m.user s.users (
            All-imp _ _ s.users (λ u miss j. ground (arith, eq_iff u.name a.user))
              (find_first-none (is_user a.user) s.users e))))
        (map-All (Known (map user_name s.users)) machine_name s.machines h.owned)

  join_user-IsWellFormed :
      (u : User)
      → u.name ≡ a.user
      → find_user a.user s ≡ none
      → IsWellFormed (
          tables (record s {
            users = s.users ++ u ∷ [];
            machines = s.machines ++ new_machine a now ∷ [];
          }))
  join_user-IsWellFormed u n e =
      add_machine-IsWellFormed (record s { users = s.users ++ u ∷ [] })
        (add_user-IsWellFormed s h u (rw n e)) refl
        (λ f. last (rw (map-append user_name s.users (u ∷ [])) at f))
        (All-zip _ _ _ s.machines (λ m other mine i. other (mine i)) (strangers e) own)
        (All-imp _ _ s.machines (λ m other i. other (ap (λ (p : String × String). p.0) i))
          (strangers e))
    where
      last : Fresh a.user (map user_name s.users ++ u.name ∷ []) → ⊥
      last f = (Fresh-append_right a.user (map user_name s.users) (u.name ∷ []) f).0 n

  join_machine-IsWellFormed :
      (u : User)
      → find_user a.user s ≡ some u
      → find_machine_by_public a.public s ≡ none
      → machine_name_used a.user a.machine a.public s ≡ false
      → IsWellFormed (tables (record s { machines = s.machines ++ new_machine a now ∷ [] }))
  join_machine-IsWellFormed u e f free =
      add_machine-IsWellFormed s h refl (find_user-Known s.users a.user a.machine u e) other_keys
        (All-zip _ _ _ s.machines (λ m unlike name. name unlike) other_keys (name_free a s free))
    where
      other_keys : All (λ m. machine_key m ≢ a.public) s.machines
      other_keys =
          All-imp _ _ s.machines (λ m miss i. ground (arith, eq_iff m.public a.public))
            (find_first-none (λ m. m.public == a.public) s.machines f)

  rejoin-IsWellFormed :
      (m : Machine)
      → find_machine_by_public a.public s ≡ some m
      → (m.name == a.machine) || not (machine_name_used a.user a.machine a.public s) ≡ true
      → IsWellFormed
          (tables (record s { machines = modify_first (has_key a) (refresh a now) s.machines }))
  rejoin-IsWellFormed m f guard = elim (Bool-cases (m.name == a.machine)) [
    | inl same_name ↦
        Consistent-same refl
          (map-modify_first_at machine_name (has_key a) (refresh a now) s.machines m f
            (ap (λ w. (m.user, w)) (sym ((eq_iff m.name a.machine).0 same_name))))
          same_keys h
    | inr renamed ↦ record {
      users_distinct = h.users_distinct;
      names_distinct =
          rename-Distinct a now s.machines own (name_free a s (ground arith)) h.keys_distinct
            h.names_distinct;
      keys_distinct = rw same_keys h.keys_distinct;
      owned = All-map (Known (map user_name s.users)) machine_name _ (
          modify_first-All (λ n. Known (map user_name s.users) (machine_name n)) (has_key a)
            (refresh a now) s.machines (λ n _ known. known)
            (map-All (Known (map user_name s.users)) machine_name s.machines h.owned));
      grants_distinct = h.grants_distinct;
    }
  ]
    where
      same_keys :
          map machine_key (modify_first (has_key a) (refresh a now) s.machines)
          ≡ map machine_key s.machines
      same_keys = map-modify_first machine_key (has_key a) (refresh a now) s.machines (λ n _. refl)

-- The premise of a call on a state: only a join has one.
abbrev pub IsHonest : Call → State → Type 0
IsHonest (joins a now) s = IsOwnKey a s
IsHonest _ s = Unit

join-IsWellFormed :
    {s : State} (a : JoinArgs) (now : ℕ) {t : State}
    → Step s (joins a now) t
    → IsOwnKey a s
    → IsWellFormed (tables s)
    → IsWellFormed (tables t)
join-IsWellFormed {s} a now (Step.join_user _ _ e salt verifier) own h =
    join_user-IsWellFormed s a now h own _ refl e
join-IsWellFormed {s} a now (Step.join_machine _ _ u e n f free) own h =
    join_machine-IsWellFormed s a now h own u e f free
join-IsWellFormed {s} a now (Step.rejoin _ _ u m e n f b guard) own h =
    rejoin-IsWellFormed s a now h own m f guard

-- An honest call keeps the tables well formed.
pub Effect-IsWellFormed :
    {s : State} {c : Call} {o : Outcome}
    → Effect s c o
    → IsHonest c s
    → IsWellFormed (tables s)
    → IsWellFormed (tables o.0)
Effect-IsWellFormed (refused e none_fits) honest h = h
Effect-IsWellFormed (idle i) honest h = h
Effect-IsWellFormed {s} {c} (stored {t} step) honest h = rw (tables-save_locked t) (
    Step-IsWellFormed step
      (λ a now e.
        join-IsWellFormed a now (subst (λ d. Step s d t) e step)
          (subst (λ d. IsHonest d s) e honest) h)
      h)
