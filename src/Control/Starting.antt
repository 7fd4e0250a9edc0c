-- ===== src/Control/Starting.antt =====
-- internal/daemon/daemon.go: the start of the program.
use nz.Base.{ℕ, String, Bool, List, Option, none, some, ◌==◌, string_eq, if◌then◌else◌}
use nz.Config.{Config, ConfigError, validate}
use nz.State.Model.{Error, State, Outcome, save_locked}
use nz.State.Join.{ensure_admin}
use nz.Server.Model.{Server, new}
use nz.Identity.Stored.{Identity, KeyError, Loaded, loaded, broken, parts, from_parts}
use nz.Daemon.{user_salt}
use nz.Control.{Program}

-- Why `New` gives no program.
pub data StartError : Type 0 where
  no_config no_state no_keys : StartError
  bad_identity : KeyError → StartError
  bad_config : ConfigError → StartError
  not_saved : Error → StartError

-- Go's (value, error).
pub data Start {ℓ} (A : Type ℓ) : Type ℓ where
  started : A → Start A
  stopped : StartError → Start A

-- `accepts` says whether ecdh takes the bytes for a private key, and `generated` is what Generate
-- makes.
module _ (accepts : List ℕ → Bool) (generated : Option Identity) where
  kept : State → Loaded → Start State
  kept st (loaded id) = started st
  kept st (broken e) = stopped (bad_identity e)

  created : Option Identity → State → Start State
  unfolding save_locked parts
  created none st = stopped no_keys
  created (some id) st =
      let (st', failure) = save_locked (record st { identity = some (parts id) }) in
      elim failure [ none ↦ started st' | some e ↦ stopped (not_saved e) ]

  -- `loadOrCreateIdentity`, which writes the state file when it makes an identity.
  unfoldable pub load_or_create_identity : State → Start State
  unfolding created kept from_parts
  load_or_create_identity st = elim st.identity [
    | some stored ↦ kept st (from_parts accepts stored)
    | none ↦ created generated st
  ]

  program : String → ℕ → Config → State → Option Server → Program
  program version now cfg st srv = record {
    version = version;
    cfg = cfg;
    st = st;
    srv = srv;
    active = none;
    starts = 0;
    started_at = now;
  }

  with_admin : String → ℕ → Config → Bool → Outcome → Start Program
  unfolding program new
  with_admin version now cfg opens (st, some e) = stopped (not_saved e)
  with_admin version now cfg opens (st, none) =
      started (program version now cfg st (some (record (new cfg st) { has_tun = opens })))

  with_identity :
      (String → List ℕ → List ℕ) → String → ℕ → Config → Bool → Start State → Start Program
  unfolding with_admin ensure_admin user_salt
  with_identity verifier version now cfg opens (stopped e) = stopped e
  with_identity verifier version now cfg opens (started st) =
      if cfg.mode == "server"
      then (let salt = user_salt cfg.admin.name in
          with_admin version now cfg opens
            (ensure_admin cfg.admin.name salt (verifier cfg.admin.password salt) now st))
      else started (program version now cfg st none)

  -- `New`; `opens` says whether the subnet can be read and the device be created.
  unfoldable pub new_program :
      (String → List ℕ → List ℕ) → String → ℕ → Bool → Option Config → Option State → Start Program
  unfolding with_identity load_or_create_identity validate
  new_program verifier version now opens none found = stopped no_config
  new_program verifier version now opens (some cfg) found = elim (validate cfg) [
    | some e ↦ stopped (bad_config e)
    | none ↦ elim found [
      | none ↦ stopped no_state
      | some st ↦ with_identity verifier version now cfg opens (load_or_create_identity st)
    ]
  ]
