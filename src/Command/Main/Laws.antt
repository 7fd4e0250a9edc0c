-- ===== src/Command/Main/Laws.antt =====
-- cmd/nz/main.go: command lines without root.
use nz.Base.{
  ◌≡◌, ◌≢◌, refl, sym, subst, String, Bool, true, not, ◌||◌, List, [], ◌∷◌, Option, none, some,
  ◌==◌, string_eq, nat_eq, if_both, if_true, arith, find_first,
}
use nz.Ipc.{Json, Peer}
use nz.Service.{Outcome, install, uninstall}
use nz.Service.Root.{install_no_root, uninstall_no_root}
use nz.Command.Client.{Ran}
use nz.Config.File.{default_path, validate_file}
use nz.Tun.{check_permission}
use nz.Command.Args.{is_help_arg}
use nz.Command.Usage.{Runner, Command, commands}
use nz.Command.Main.{
  Host, Done, only, main, dispatch, chosen, help_first, run_command, check_socket, run_cmd,
  run_parsed, run_with, install_cmd, install_parsed, install_valid, uninstall_cmd, list_with,
  serviced, Flags, flags, ended, RunFlags,
}

-- The service and the log file stay as they are.
pub record IsQuiet {S : Type 0} (d : Done S) : Type 0 where
  pub actions : d.actions ≡ []
  pub file_actions : d.file_actions ≡ []

-- Nothing is done at all.
pub record IsInert {S : Type 0} (s : S) (d : Done S) : Type 0 where
  pub state : d.state ≡ s
  pub actions : d.actions ≡ []
  pub file_actions : d.file_actions ≡ []

module _ {S : Type 0} (h : Host) (json : Json) (socket : Option (Peer S)) (exists : Bool) where
  chosen-IsInert :
      (o : Option Command) (name arg : String) (rest : List String) (s : S)
      → is_help_arg arg ≡ true
      → IsInert s (chosen h json socket exists o name (arg ∷ rest) s)
  unfolding chosen help_first
  chosen-IsInert none name arg rest s help = record {
    state = refl;
    actions = refl;
    file_actions = refl;
  }
  chosen-IsInert (some c) name arg rest s help =
      subst (IsInert s)
        (sym (
          if_true (is_help_arg arg) _ (run_command h json socket exists c.runner (arg ∷ rest) s)
            help))
        (record { state = refl; actions = refl; file_actions = refl })

  -- A command that is followed by a word that asks for help does nothing, whatever the command and
  -- whatever comes after that word: the daemon, the service and the log file stay as they are.
  pub main_help :
      (name arg : String) (rest : List String) (s : S)
      → is_help_arg arg ≡ true
      → IsInert s (main h json socket exists (name ∷ arg ∷ rest) s)
  unfolding main dispatch
  main_help name arg rest s help =
      if_both (IsInert s) (name == "-v" || name == "-V" || name == "--version") _ _
        (chosen-IsInert (find_first (λ c. c.name == "version") commands) "version" arg rest s help)
        (if_both (IsInert s) (is_help_arg name) _ _
          (record { state = refl; actions = refl; file_actions = refl })
          (chosen-IsInert (find_first (λ c. c.name == name) commands) name arg rest s help))

module _ {S : Type 0} (h : Host) (json : Json) (socket : Option (Peer S)) (exists : Bool) where
  quiet : (s : S) (r : Ran) → IsQuiet (only s r)
  quiet s r = record { actions = refl; file_actions = refl }

  module _ (other : h.system.euid ≢ 0) where
    refused : (check_permission h.system.euid) ≡ some "tun devices need root, run with sudo"
    unfolding check_permission
    refused = if_true (not (h.system.euid == 0)) _ _ (ground (arith, other))

    run_with-IsQuiet : (f : RunFlags) (s : S) → IsQuiet (run_with h json socket exists f s)
    unfolding run_with
    run_with-IsQuiet f s =
        if_both IsQuiet (check_socket h json socket exists) _ _ (quiet s _) (rw refused (quiet s _))

    run_parsed-IsQuiet :
        (f : Flags RunFlags) (s : S) → IsQuiet (run_parsed h json socket exists f s)
    unfolding run_parsed
    run_parsed-IsQuiet (ended ran) s = quiet s ran
    run_parsed-IsQuiet (flags f) s = run_with-IsQuiet f s

    serviced-IsQuiet :
        (o : Outcome) (message : String) (s : S)
        → o.0 ≡ []
        → IsQuiet (serviced h json socket exists o message s)
    unfolding serviced
    serviced-IsQuiet (actions, failure) message s e = record { actions = e; file_actions = refl }

    install_valid-IsQuiet :
        (e : Option String) (path : String) (s : S)
        → IsQuiet (install_valid h json socket exists e path s)
    unfolding install_valid
    install_valid-IsQuiet (some e) path s = quiet s _
    install_valid-IsQuiet none path s =
        serviced-IsQuiet (install h.system path) "daemon started and auto-start enabled" s
          (install_no_root h.system other path)

    install_parsed-IsQuiet :
        (f : Flags String) (s : S) → IsQuiet (install_parsed h json socket exists f s)
    unfolding install_parsed
    install_parsed-IsQuiet (ended ran) s = quiet s ran
    install_parsed-IsQuiet (flags path) s =
        install_valid-IsQuiet (validate_file h.decode h.read_file h.system.quote path) path s

    list_with-IsQuiet : (f : Flags Bool) (s : S) → IsQuiet (list_with h json socket exists f s)
    unfolding list_with
    list_with-IsQuiet (ended ran) s = quiet s ran
    list_with-IsQuiet (flags pending) s = record { actions = refl; file_actions = refl }

    run_command-IsQuiet :
        (r : Runner) (args : List String) (s : S)
        → IsQuiet (run_command h json socket exists r args s)
    unfolding run_command run_cmd install_cmd uninstall_cmd
    run_command-IsQuiet Runner.run args s =
        run_parsed-IsQuiet (h.run_flags (default_path h.join h.directory) args) s
    run_command-IsQuiet Runner.install args s =
        install_parsed-IsQuiet (h.install_flags (default_path h.join h.directory) args) s
    run_command-IsQuiet Runner.uninstall args s =
        serviced-IsQuiet (uninstall h.system) "daemon stopped and auto-start disabled" s
          (uninstall_no_root h.system other)
    run_command-IsQuiet Runner.reload args s = record { actions = refl; file_actions = refl }
    run_command-IsQuiet Runner.list args s = list_with-IsQuiet (h.list_flags args) s
    run_command-IsQuiet Runner.version args s = quiet s _
    run_command-IsQuiet (Runner.grant name summary) args s = record {
      actions = refl;
      file_actions = refl;
    }

    chosen-IsQuiet :
        (o : Option Command) (name : String) (args : List String) (s : S)
        → IsQuiet (chosen h json socket exists o name args s)
    unfolding chosen
    chosen-IsQuiet none name args s = quiet s _
    chosen-IsQuiet (some c) name args s =
        if_both IsQuiet (help_first args) _ _ (quiet s _) (run_command-IsQuiet c.runner args s)

    -- Without root no command line changes the service or the log file.
    pub main_no_root : (args : List String) (s : S) → IsQuiet (main h json socket exists args s)
    unfolding main dispatch
    main_no_root [] s = quiet s _
    main_no_root (name ∷ args) s =
        if_both IsQuiet (name == "-v" || name == "-V" || name == "--version") _ _
          (chosen-IsQuiet (find_first (λ c. c.name == "version") commands) "version" args s)
          (if_both IsQuiet (is_help_arg name) _ _ (quiet s _)
            (chosen-IsQuiet (find_first (λ c. c.name == name) commands) name args s))
