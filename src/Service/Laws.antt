-- ===== src/Service/Laws.antt =====
-- internal/service/service_other.go: an installation that reports no error.
use mathlib.Core.List.{append-nil}
use nz.Base.{
  ◌≡◌, inl, inr, refl, sym, ap, ◌∙◌, String, not, subst, List, [], ◌∷◌, ◌++◌, map, append_assoc,
  none, ◌==◌, string_eq, nat_eq, arith, Option-cases, Bool-cases, if_false, eq_iff,
}
use nz.Command.Text.{◌⧺◌}
use nz.Service.{
  System, Action, Text, text, failed, write_file, command, sleep, systemctl, unit_path, unit_text,
  start_commands, Outcome, check_active, await_active, run_each, write_unit, with_executable,
  install_at, with_path, install,
}

-- The action is answered without an error after the actions before it.
abbrev Works : System → List Action → Action → Type 0
Works sys done a = (sys.answer done a).error ≡ none

-- All the actions of an installation.
abbrev pub all_actions : String → List Action
all_actions unit =
    write_file "/etc/systemd/system/nz.service" unit
    ∷ command ("systemctl" ∷ "daemon-reload" ∷ [])
    ∷ command ("systemctl" ∷ "enable" ∷ "nz" ∷ [])
    ∷ command ("systemctl" ∷ "restart" ∷ "nz" ∷ [])
    ∷ sleep
    ∷ command ("systemctl" ∷ "is-active" ∷ "nz" ∷ [])
    ∷ []

-- What an installation that reports no error has found and done.
pub record Installed (sys : System) (cfg_path : String) (done : List Action) : Type 0 where
  pub path : String
  pub exe : String
  pub is_path : sys.absolute cfg_path ≡ text path
  pub is_exe : sys.executable ≡ text exe
  pub by_root : sys.euid ≡ 0
  pub before : String
  pub after : String
  pub unit : String
  pub is_unit :
      unit ≡ before ⧺ "[Service]\nExecStart=" ⧺ exe ⧺ " run --config " ⧺ path ⧺ "\n" ⧺ after
  pub all_done : done ≡ all_actions unit
  pub is_active :
      sys.trim
        (sys.answer
          (write_file unit_path unit
            ∷ systemctl "daemon-reload" []
            ∷ systemctl "enable" ("nz" ∷ [])
            ∷ systemctl "restart" ("nz" ∷ [])
            ∷ sleep
            ∷ [])
          (systemctl "is-active" ("nz" ∷ []))).out
      ≡ "active"

module _ (sys : System) where
  -- A loop that ends without an error has run all its commands, and the unit is active then.
  run_each-Done :
      (cmds : List (List String)) (done : List Action)
      → (run_each sys cmds done).1 ≡ none
      → run_each sys cmds done ≡ await_active sys (done ++ map command cmds)
  unfolding run_each
  run_each-Done [] done e = ap (await_active sys) (sym (append-nil done))
  run_each-Done (cmd ∷ cmds) done e = elim (Option-cases (sys.answer done (command cmd)).error) [
    | inl works ↦
        let step : run_each sys (cmd ∷ cmds) done ≡ run_each sys cmds (done ++ command cmd ∷ []) =
          rw (works, run_each) refl in
        step
        ∙ run_each-Done cmds (done ++ command cmd ∷ []) (sym (ap (λ (o : Outcome). o.1) step) ∙ e)
        ∙ ap (await_active sys) (append_assoc done (command cmd ∷ []) (map command cmds))
    | inr (msg, fails) ↦ let bad = rw (fails, run_each) at e in absurd (cc bad)
  ]

  check_active-Done :
      (done : List Action)
      → (check_active sys done).1 ≡ none
      → sys.trim (sys.answer done (systemctl "is-active" ("nz" ∷ []))).out ≡ "active"
  unfolding check_active
  check_active-Done done e =
      let status = sys.trim (sys.answer done (systemctl "is-active" ("nz" ∷ []))).out in
      elim (Bool-cases (status == "active")) [
        | inl hit ↦ (eq_iff status "active").0 hit
        | inr miss ↦ absurd (cc (sym (if_false (status == "active") _ _ miss) ∙ e))
      ]

  write_unit-Done :
      (unit : String)
      → (write_unit sys unit).1 ≡ none
      → write_unit sys unit
        ≡ await_active sys (
            write_file unit_path unit
            ∷ systemctl "daemon-reload" []
            ∷ systemctl "enable" ("nz" ∷ [])
            ∷ systemctl "restart" ("nz" ∷ [])
            ∷ [])
  unfolding write_unit
  write_unit-Done unit e = elim (Option-cases (sys.answer [] (write_file unit_path unit)).error) [
    | inl works ↦
        let step : write_unit sys unit
            ≡ run_each sys start_commands (write_file unit_path unit ∷ []) =
          rw (works, write_unit) refl in
        step
        ∙ run_each-Done start_commands (write_file unit_path unit ∷ [])
            (sym (ap (λ (o : Outcome). o.1) step) ∙ e)
    | inr (msg, fails) ↦ let bad = rw (fails, write_unit) at e in absurd (cc bad)
  ]

  with_exe :
      (path cfg_path exe : String)
      → sys.absolute cfg_path ≡ text path
      → sys.euid ≡ 0
      → sys.executable ≡ text exe
      → (write_unit sys (unit_text exe path)).1 ≡ none
      → Installed sys cfg_path (write_unit sys (unit_text exe path)).0
  unfolding await_active check_active unit_text
  with_exe path cfg_path exe is_path root is_exe e =
      let whole = write_unit-Done (unit_text exe path) e in
      record {
        path = path;
        exe = exe;
        is_path = is_path;
        is_exe = is_exe;
        by_root = root;
        before =
            "[Unit]\nDescription=nz overlay network\nAfter=network-online.target\nWants=network-online.target\n\n";
        after = "Restart=always\nRestartSec=5\n\n[Install]\nWantedBy=multi-user.target\n";
        unit = unit_text exe path;
        is_unit = refl;
        all_done = ap (λ (o : Outcome). o.0) whole;
        is_active = check_active-Done _ (sym (ap (λ (o : Outcome). o.1) whole) ∙ e);
      }

  with_executable-Installed :
      (path cfg_path : String) (exe : Text)
      → sys.absolute cfg_path ≡ text path
      → sys.euid ≡ 0
      → sys.executable ≡ exe
      → (with_executable sys exe path).1 ≡ none
      → Installed sys cfg_path (with_executable sys exe path).0
  unfolding with_executable
  with_executable-Installed path cfg_path (text exe) is_path root is_exe e =
      with_exe path cfg_path exe is_path root is_exe e
  with_executable-Installed path cfg_path (failed msg) is_path root is_exe e = absurd (cc e)

  install_at-Installed :
      (path cfg_path : String)
      → sys.absolute cfg_path ≡ text path
      → (install_at sys path).1 ≡ none
      → Installed sys cfg_path (install_at sys path).0
  unfolding install_at
  install_at-Installed path cfg_path is_path e = elim (Bool-cases sys.has_systemd) [
    | inr miss ↦ let bad = rw miss at e in absurd (cc bad)
    | inl has ↦ elim (Bool-cases (sys.euid == 0)) [
      | inr miss ↦ let bad = rw (has, miss) at e in absurd (cc bad)
      | inl root ↦
          let step : install_at sys path ≡ with_executable sys sys.executable path =
            if_false (not sys.has_systemd) _ _ (ap not has)
            ∙ if_false (not (sys.euid == 0)) _ _ (ap not root) in
          subst (λ (o : Outcome). Installed sys cfg_path o.0) (sym step)
            (with_executable-Installed path cfg_path sys.executable is_path (ground (arith, root))
              refl (sym (ap (λ (o : Outcome). o.1) step) ∙ e))
    ]
  ]

  with_path-Installed :
      (cfg_path : String) (t : Text)
      → sys.absolute cfg_path ≡ t
      → (with_path sys t).1 ≡ none
      → Installed sys cfg_path (with_path sys t).0
  unfolding with_path
  with_path-Installed cfg_path (failed msg) is_path e = absurd (cc e)
  with_path-Installed cfg_path (text path) is_path e = install_at-Installed path cfg_path is_path e

  -- An installation that reports no error was made by root and has done, in this order and nothing
  -- else: it has written the unit, whose section [Service] starts with the line that runs this program
  -- with " run --config " and the absolute path of the configuration, has reloaded, enabled and
  -- restarted the service, waited, and asked for its state, and the answer was active.
  pub install-Installed :
      (cfg_path : String)
      → (install sys cfg_path).1 ≡ none
      → Installed sys cfg_path (install sys cfg_path).0
  unfolding install
  install-Installed cfg_path e = with_path-Installed cfg_path (sys.absolute cfg_path) refl e
