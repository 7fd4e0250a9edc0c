-- ===== src/State/Calls/Tables.antt =====
-- What makes the tables well formed, and the changes that leave every name and key as it was.
use nz.Base.{
  String, Bool, ◌≡◌, refl, List, [], ◌∷◌, map, arith, ◌==◌, string_eq, if◌then◌else◌, All, Distinct,
  Fresh, map-modify_first, modify_first,
}
use nz.State.Model.{State, Tables, User, Machine, Grant, tables}
use nz.State.Roster.{each_machine_of}

abbrev pub user_name : User → String
user_name u = u.name

-- How the program names a machine: by its user and its own name.
abbrev pub machine_name : Machine → String × String
machine_name m = (m.user, m.name)

abbrev pub machine_key : Machine → String
machine_key m = m.public

abbrev pub grant_pair : Grant → String × String
grant_pair g = (g.subject, g.target)

abbrev pub Known : List String → String × String → Type 0
Known users n = ¬ Fresh n.0 users

-- User names, machine names, keys and grants do not repeat, and each machine has its user.
pub record Consistent (users : List String) (names : List (String × String)) (keys : List String)
    (grants : List (String × String)) : Type 0 where
  pub users_distinct : Distinct users
  pub names_distinct : Distinct names
  pub keys_distinct : Distinct keys
  pub owned : All (Known users) names
  pub grants_distinct : Distinct grants

abbrev pub IsWellFormed : Tables → Type 0
IsWellFormed t =
    Consistent (map user_name t.users) (map machine_name t.machines) (map machine_key t.machines)
      (map grant_pair t.grants)

pub Consistent-same :
    {us us' : List String} {ns ns' : List (String × String)} {ks ks' : List String}
    {gs : List (String × String)}
    → us' ≡ us
    → ns' ≡ ns
    → ks' ≡ ks
    → Consistent us ns ks gs
    → Consistent us' ns' ks' gs
Consistent-same a b c h = rw (a, b, c) h

pub map-each {ℓ} :
    {K : Type ℓ} (key : Machine → K) (user : String) (f : Machine → Machine) (ms : List Machine)
    → ((m : Machine) → key (f m) ≡ key m)
    → map key (map (λ m. if m.user == user then f m else m) ms) ≡ map key ms
map-each key user f [] h = refl
map-each key user f (m ∷ ms) h = ground (arith, h m, map-each key user f ms h)

module _ (s : State) where
  -- An update of the first user that passes a test, by a function that keeps the name.
  pub users_update :
      (p : User → Bool) (f : User → User)
      → ((u : User) → user_name (f u) ≡ user_name u)
      → IsWellFormed (tables s)
      → IsWellFormed (tables (record s { users = modify_first p f s.users }))
  users_update p f k h =
      Consistent-same (map-modify_first user_name p f s.users (λ u _. k u)) refl refl h

  pub machines_update :
      (p : Machine → Bool) (f : Machine → Machine)
      → ((m : Machine) → machine_name (f m) ≡ machine_name m)
      → ((m : Machine) → machine_key (f m) ≡ machine_key m)
      → IsWellFormed (tables s)
      → IsWellFormed (tables (record s { machines = modify_first p f s.machines }))
  machines_update p f k l h =
      Consistent-same refl (map-modify_first machine_name p f s.machines (λ m _. k m))
        (map-modify_first machine_key p f s.machines (λ m _. l m)) h

  pub machines_each :
      (user : String) (f : Machine → Machine)
      → ((m : Machine) → machine_name (f m) ≡ machine_name m)
      → ((m : Machine) → machine_key (f m) ≡ machine_key m)
      → IsWellFormed (tables s)
      → IsWellFormed (tables (each_machine_of user f s))
  machines_each user f k l h =
      Consistent-same refl (map-each machine_name user f s.machines k)
        (map-each machine_key user f s.machines l) h
