-- ===== src/Daemon.antt =====
-- internal/daemon/daemon.go: handleReload and checkReloadable, and UserSalt of
-- internal/identity/identity.go.
pub mod Laws
use nz.Base.{
  ℕ, ◌+◌, ℤ, pos, negsuc, String, Bool, true, false, not, ◌&&◌, ◌≡◌, ◌↔◌, refl, arith, List, ◌++◌,
  Option, none, some, Comparable, ◌==◌, nat_eq, string_eq, if◌then◌else◌,
}
use nz.Config.{Config, ConfigError, validate}
use nz.State.Model.{State, Outcome, Error}
use nz.State.Join.{set_verifier}
use nz.Protocol.Proof.{utf8}

abbrev pub int_beq : ℤ → ℤ → Bool
int_beq (pos a) (pos b) = a == b
int_beq (negsuc a) (negsuc b) = a == b
int_beq _ _ = false

pub int_beq_iff : (a b : ℤ) → (int_beq a b ≡ true) ↔ (a ≡ b)
int_beq_iff (pos a) (pos b) = ground arith
int_beq_iff (pos a) (negsuc b) = ground arith
int_beq_iff (negsuc a) (pos b) = ground arith
int_beq_iff (negsuc a) (negsuc b) = ground arith

instance abbrev pub int_eq : Comparable ℤ
int_eq = record { test = int_beq; test_iff = int_beq_iff }

-- The daemon with the store that it shares with the server. `server` is the configuration of the
-- server, if one runs; `node` says that a node runs, and `starts` how often one was started.
pub record Daemon : Type 0 where
  pub cfg : Config
  pub st : State
  pub server : Option Config
  pub node : Bool
  pub starts : ℕ

pub data ReloadError : Type 0 where
  unreadable : ReloadError
  not_valid : ConfigError → ReloadError
  mode_change port_change subnet_change admin_change : ReloadError
  not_stored : Error → ReloadError

unfoldable pub check_reloadable : Config → Config → Option ReloadError
check_reloadable old cfg =
    if not (cfg.mode == old.mode)
    then some mode_change
    else if cfg.mode == "node"
    then none
    else if not (cfg.port == old.port)
    then some port_change
    else if not (cfg.subnet == old.subnet)
    then some subnet_change
    else if not (cfg.admin.name == old.admin.name)
    then some admin_change
    else none

unfoldable pub user_salt : String → List ℕ
unfolding utf8
user_salt user = utf8 "n0-salt-v1|" ++ utf8 user

put : Daemon → Outcome → Daemon × Option Error
put d (st, failure) = (record d { st = st }, failure)

unfoldable pub replace_config : Config → Option Config → Option Config
replace_config cfg none = none
replace_config cfg (some _) = some cfg

-- A node that runs is stopped and a new one is started.
restart_node : Daemon → Daemon
restart_node d = if d.cfg.mode == "node" then record d { node = true; starts = d.starts + 1 } else d

swap_config : Config → Daemon × Option Error → Daemon × Option ReloadError
unfolding replace_config restart_node
swap_config cfg (d, some failure) = (d, some (not_stored failure))
swap_config cfg (d, none) =
    (restart_node (record d { cfg = cfg; server = replace_config cfg d.server }), none)

-- `verifier` is identity.Verifier, of a password and a salt.
module _ (verifier : String → List ℕ → List ℕ) where
  -- A new password of the administrator is stored first.
  store_password : Config → Daemon → Daemon × Option Error
  unfolding put set_verifier user_salt
  store_password cfg d =
      let salt = user_salt cfg.admin.name in
      if cfg.mode == "server" && not (cfg.admin.password == d.cfg.admin.password)
      then put d (set_verifier cfg.admin.name salt (verifier cfg.admin.password salt) d.st)
      else (d, none)

  -- `loaded` is what config.Load reads from the file.
  unfoldable pub handle_reload : Option Config → Daemon → Daemon × Option ReloadError
  unfolding store_password swap_config check_reloadable validate
  handle_reload none d = (d, some unreadable)
  handle_reload (some cfg) d = elim (validate cfg) [
    | some problem ↦ (d, some (not_valid problem))
    | none ↦ elim (check_reloadable d.cfg cfg) [
      | some problem ↦ (d, some problem)
      | none ↦ swap_config cfg (store_password cfg d)
    ]
  ]
