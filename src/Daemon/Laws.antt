-- ===== src/Daemon/Laws.antt =====
-- internal/daemon/daemon.go: what a reload changes in the daemon, by how it ends.
use nz.Base.{ℕ, ◌+◌, String, ◌≡◌, ◌≢◌, ◌⊎◌, true, List, Option, none, some, string_eq}
use nz.Config.{Config, validate}
use nz.State.Model.{State, User, Error, find_user}
use nz.State.Saving.{IsSynced}
use nz.State.Join.Registering.{rekeyed}
use nz.Daemon.{Daemon, ReloadError, not_stored, replace_config, user_salt, int_eq}

-- What stays fixed while the program runs.
abbrev pub SameSetup : Config → Config → Type 0
SameSetup old cfg =
    (cfg.mode ≡ old.mode)
    × ((cfg.mode ≡ "node")
        ⊎ ((cfg.port ≡ old.port) × (cfg.subnet ≡ old.subnet) × (cfg.admin.name ≡ old.admin.name)))

abbrev Unchanged : Daemon → Daemon → Type 0
Unchanged d t = (t.cfg ≡ d.cfg) × (t.server ≡ d.server) × (t.node ≡ d.node) × (t.starts ≡ d.starts)

-- The new configuration of a server has another password of the administrator.
abbrev pub IsNewPassword : Config → Config → Type 0
IsNewPassword old cfg = (cfg.mode ≡ "server") × (cfg.admin.password ≢ old.admin.password)

-- In node mode one more node has been started, and runs.
abbrev pub NodeStarted : Config → Daemon → Daemon → Type 0
NodeStarted cfg d t =
    ((cfg.mode ≡ "node") × (t.node ≡ true) × (t.starts ≡ d.starts + 1))
    ⊎ ((cfg.mode ≢ "node") × (t.node ≡ d.node) × (t.starts ≡ d.starts))

module _ (verifier : String → List ℕ → List ℕ) where
  -- The store knows the administrator by the salt of the name and the verifier of the password, in
  -- memory and in the file, and its entry is else what it was.
  pub record KnowsAdmin (cfg : Config) (s t : State) : Type 0 where
    pub u : User
    pub before : find_user cfg.admin.name s ≡ some u
    pub after :
        find_user cfg.admin.name t
        ≡ some (
            rekeyed
              (user_salt cfg.admin.name)
              (verifier cfg.admin.password (user_salt cfg.admin.name))
              u)
    pub synced : IsSynced t

  -- What becomes of the store.
  abbrev pub PasswordStored : Config → Config → State → State → Type 0
  PasswordStored old cfg s t =
      (IsNewPassword old cfg × KnowsAdmin cfg s t)
      ⊎ (((cfg.mode ≢ "server") ⊎ (cfg.admin.password ≡ old.admin.password)) × (t ≡ s))

  -- A reload that succeeds.
  pub record Reloaded (loaded : Option Config) (d t : Daemon) : Type 0 where
    pub cfg : Config
    pub read : loaded ≡ some cfg
    pub valid : validate cfg ≡ none
    pub setup : SameSetup d.cfg cfg
    pub current : t.cfg ≡ cfg
    pub served : t.server ≡ replace_config cfg d.server
    pub password : PasswordStored d.cfg cfg d.st t.st
    pub started : NodeStarted cfg d t

  -- A reload that fails. The store is as it was, unless the failure is that of the store's write.
  abbrev pub NotReloaded : ReloadError → Daemon → Daemon → Type 0
  NotReloaded e d t = Unchanged d t × ((t.st ≡ d.st) ⊎ (failure : Error) × (e ≡ not_stored failure))

  -- What a reload may come to.
  abbrev pub Answered : Option Config → Daemon → Daemon × Option ReloadError → Type 0
  Answered loaded d (t, some e) = NotReloaded e d t
  Answered loaded d (t, none) = Reloaded loaded d t
