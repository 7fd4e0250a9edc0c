-- ===== src/Command/Main.antt =====
-- cmd/nz/main.go: the choice of the command, and the commands that run or install the daemon.
pub mod Laws
use nz.Base.{
  ℕ, String, Bool, true, false, not, ◌&&◌, ◌||◌, List, [], ◌∷◌, Option, none, some, ◌==◌, string_eq,
  if◌then◌else◌, find_first,
}
use nz.Config.File.{FileRead, Loaded, beside, default_path, log_file_name, validate_file}
use nz.Config.{Config}
use nz.Ipc.{Json, Peer}
use nz.Logx.{Files, FileAction, open_log_file}
use nz.Service.{System, Action, uninstall}
use nz.Service
use nz.Tun.{check_permission}
use nz.Command.Text.{◌⧺◌, blue, green, reset, info, success, error}
use nz.Command.Args.{is_help_arg}
use nz.Command.Usage.{Runner, Command, commands, command_usage, usage_lines}
use nz.Command.Client.{Ran, failing, succeeding, Terminal, reload_cmd, list_cmd, grant_cmd}

abbrev pub version : String
version = "0.4.0"

-- What package flag makes of the arguments: the values, or the end of the program with what it prints.
pub data Flags (A : Type 0) : Type 0 where
  flags : A → Flags A
  ended : Ran → Flags A

pub record RunFlags : Type 0 where
  pub config : String
  pub log : Bool
  pub pingback : String
  pub token : String

-- What the commands use of the system and of the libraries, and the daemon that run starts: New and
-- Serve, each as the text of its error.
pub record Host : Type 0 where
  pub system : System
  pub files : Files
  pub terminal : Terminal
  pub join : String → String → String
  pub directory : Option String
  pub decode : Config → List ℕ → Loaded
  pub read_file : String → FileRead
  pub run_flags : String → List String → Flags RunFlags
  pub install_flags : String → List String → Flags String
  pub list_flags : List String → Flags Bool
  pub new_daemon : String → Option String
  pub serve : RunFlags → Option String

-- What a command does: to the daemon behind the socket, to the service, to the log file.
pub record Done (S : Type 0) : Type 0 where
  pub state : S
  pub actions : List Action
  pub file_actions : List FileAction
  pub ran : Ran

abbrev pub only : {S : Type 0} → S → Ran → Done S
only s ran = record { state = s; actions = []; file_actions = []; ran = ran }

-- A command that fails with the text of an error, or goes on.
unless_error : Option String → Ran → Ran
unfolding error
unless_error none next = next
unless_error (some e) next = failing (error e ∷ [])

help_first : List String → Bool
help_first [] = false
help_first (arg ∷ rest) = is_help_arg arg

abbrev pub version_lines : List String
version_lines = (blue ⧺ "nz" ⧺ reset ⧺ " " ⧺ green ⧺ version ⧺ reset) ∷ []

unfoldable pub log_file_path : Host → String
log_file_path h = beside h.join h.directory log_file_name

module _ {S : Type 0} (h : Host) (json : Json) (socket : Option (Peer S)) (exists : Bool) where
  abbrev pub asked : S × Ran → Done S
  asked (s, ran) = only s ran

  -- `CheckSocket`
  unfoldable pub check_socket : Bool
  check_socket = elim socket [ none ↦ false | some _ ↦ true ]

  start_daemon : RunFlags → Ran
  unfolding unless_error
  start_daemon f = unless_error (h.new_daemon f.config) (unless_error (h.serve f) (succeeding []))

  with_log : RunFlags → List FileAction × Option String → S → Done S
  unfolding unless_error start_daemon
  with_log f (file_actions, failure) s = record {
    state = s;
    actions = [];
    file_actions = file_actions;
    ran = unless_error failure (start_daemon f);
  }

  run_with : RunFlags → S → Done S
  unfolding check_socket error info start_daemon with_log open_log_file log_file_path
  run_with f s =
      if check_socket
      then only s (failing (error "daemon is already running" ∷ info "use nz uninstall first" ∷ []))
      else elim (check_permission h.system.euid) [
        | some e ↦ only s (failing (error e ∷ []))
        | none ↦
            if f.log
            then with_log f (open_log_file h.files (log_file_path h)) s
            else only s (start_daemon f)
      ]

  run_parsed : Flags RunFlags → S → Done S
  unfolding run_with
  run_parsed (ended ran) s = only s ran
  run_parsed (flags f) s = run_with f s

  unfoldable pub run_cmd : List String → S → Done S
  unfolding run_parsed
  run_cmd args s = run_parsed (h.run_flags (default_path h.join h.directory) args) s

  serviced : List Action × Option String → String → S → Done S
  unfolding unless_error success
  serviced (actions, failure) message s = record {
    state = s;
    actions = actions;
    file_actions = [];
    ran = unless_error failure (succeeding (success message ∷ []));
  }

  install_valid : Option String → String → S → Done S
  unfolding serviced error
  install_valid (some e) path s = only s (failing (error ("invalid config: " ⧺ e) ∷ []))
  install_valid none path s =
      serviced (Service.install h.system path) "daemon started and auto-start enabled" s

  install_parsed : Flags String → S → Done S
  unfolding install_valid
  install_parsed (ended ran) s = only s ran
  install_parsed (flags path) s =
      install_valid (validate_file h.decode h.read_file h.system.quote path) path s

  unfoldable pub install_cmd : List String → S → Done S
  unfolding install_parsed
  install_cmd args s = install_parsed (h.install_flags (default_path h.join h.directory) args) s

  unfoldable pub uninstall_cmd : S → Done S
  unfolding serviced
  uninstall_cmd s = serviced (uninstall h.system) "daemon stopped and auto-start disabled" s

  list_with : Flags Bool → S → Done S
  list_with (ended ran) s = only s ran
  list_with (flags pending) s = asked (list_cmd json socket exists h.terminal pending s)

  unfoldable pub run_command : Runner → List String → S → Done S
  unfolding run_cmd install_cmd uninstall_cmd list_with
  run_command Runner.run args s = run_cmd args s
  run_command Runner.install args s = install_cmd args s
  run_command Runner.uninstall args s = uninstall_cmd s
  run_command Runner.reload args s = asked (reload_cmd json socket exists s)
  run_command Runner.list args s = list_with (h.list_flags args) s
  run_command Runner.version args s = only s (succeeding version_lines)
  run_command (Runner.grant name summary) args s =
      asked (grant_cmd json socket exists name summary args s)

  chosen : Option Command → String → List String → S → Done S
  unfolding error run_command help_first command_usage usage_lines
  chosen none name args s = only s (failing (error ("unknown command " ⧺ name) ∷ usage_lines))
  chosen (some c) name args s =
      let done = run_command c.runner args s in
      if help_first args then only s (succeeding (command_usage c)) else done

  unfoldable pub dispatch : String → List String → S → Done S
  unfolding chosen find_first
  dispatch name args s = chosen (find_first (λ c. c.name == name) commands) name args s

  -- `main`, on the arguments after the program's name.
  unfoldable pub main : List String → S → Done S
  unfolding dispatch usage_lines
  main [] s = only s (failing usage_lines)
  main (name ∷ args) s =
      let known = dispatch name args s in
      if name == "-v" || name == "-V" || name == "--version"
      then dispatch "version" args s
      else if is_help_arg name
      then only s (succeeding usage_lines)
      else known
