-- ===== src/Service.antt =====
-- internal/service/service.go and service_other.go: the unit of systemd. What the system answers to a
-- call may depend on all calls before it.
pub mod Laws
pub mod Root
use nz.Base.{
  ℕ, String, Bool, true, false, not, ◌&&◌, List, [], ◌∷◌, ◌++◌, Option, none, some, ◌==◌, string_eq,
  nat_eq, if◌then◌else◌,
}
use nz.Command.Text.{◌⧺◌, joined}

-- A change of the system, or a command.
pub data Action : Type 0 where
  write_file : String → String → Action
  command : List String → Action
  sleep : Action
  remove : String → Action

-- `missing` is os.IsNotExist of the error, and `out` is what a command writes.
pub record Answer : Type 0 where
  pub error : Option String
  pub missing : Bool
  pub out : String

-- Go's (string, error)
pub data Text : Type 0 where
  text : String → Text
  failed : String → Text

-- What the operating system and the library say; `trim` is strings.TrimSpace, and `quote` is `%q`.
pub record System : Type 0 where
  pub has_systemd : Bool
  pub euid : ℕ
  pub executable : Text
  pub absolute : String → Text
  pub trim : String → String
  pub quote : String → String
  pub answer : List Action → Action → Answer

abbrev pub unit_path : String
unit_path = "/etc/systemd/system/nz.service"

abbrev pub socket_path : String
socket_path = "/tmp/nz.sock"

unfoldable pub unit_text : String → String → String
unit_text exe cfg_path =
    "[Unit]\nDescription=nz overlay network\nAfter=network-online.target\nWants=network-online.target\n\n"
    ⧺ "[Service]\nExecStart=" ⧺ exe ⧺ " run --config " ⧺ cfg_path ⧺ "\n"
    ⧺ "Restart=always\nRestartSec=5\n\n[Install]\nWantedBy=multi-user.target\n"

abbrev pub systemctl : String → List String → Action
systemctl verb names = command ("systemctl" ∷ verb ∷ names)

abbrev pub start_commands : List (List String)
start_commands =
    ("systemctl" ∷ "daemon-reload" ∷ [])
    ∷ ("systemctl" ∷ "enable" ∷ "nz" ∷ [])
    ∷ ("systemctl" ∷ "restart" ∷ "nz" ∷ [])
    ∷ []

-- The actions in the order they are done, and Go's error.
abbrev pub Outcome : Type 0
Outcome = List Action × Option String

module _ (sys : System) where
  unfoldable pub check_active : List Action → Outcome
  check_active done =
      let last = systemctl "is-active" ("nz" ∷ []) in
      let status = sys.trim (sys.answer done last).out in
      (
        done ++ last ∷ [],
        if status == "active"
            then none
            else some ("service is " ⧺ sys.quote status ⧺ " after start, check journalctl -u n0"),
      )

  unfoldable pub await_active : List Action → Outcome
  unfolding check_active
  await_active done = check_active (done ++ sleep ∷ [])

  -- The commands that start the unit; the first failure ends the loop.
  unfoldable pub run_each : List (List String) → List Action → Outcome
  unfolding await_active
  run_each [] done = await_active done
  run_each (cmd ∷ rest) done =
      let next = run_each rest (done ++ command cmd ∷ []) in
      elim (sys.answer done (command cmd)).error [
        | none ↦ next
        | some e ↦ (
          done ++ command cmd ∷ [],
          some (
              joined " " cmd
              ⧺ " failed: "
              ⧺ e
              ⧺ " ("
              ⧺ sys.trim (sys.answer done (command cmd)).out
              ⧺ ")"),
        )
      ]

  unfoldable pub write_unit : String → Outcome
  unfolding run_each
  write_unit unit =
      let write = write_file unit_path unit in
      elim (sys.answer [] write).error [
        | none ↦ run_each start_commands (write ∷ [])
        | some e ↦ (write ∷ [], some ("failed to write " ⧺ unit_path ⧺ ": " ⧺ e))
      ]

  with_executable : Text → String → Outcome
  unfolding write_unit unit_text
  with_executable (failed e) cfg_path = ([], some e)
  with_executable (text exe) cfg_path = write_unit (unit_text exe cfg_path)

  unfoldable pub install_at : String → Outcome
  unfolding with_executable
  install_at cfg_path =
      if not sys.has_systemd
      then ([], some "systemd is not available, run n0 start with your init instead")
      else if not (sys.euid == 0)
      then ([], some "install requires root, run with sudo")
      else with_executable sys.executable cfg_path

  with_path : Text → Outcome
  unfolding install_at
  with_path (failed e) = ([], some e)
  with_path (text path) = install_at path

  -- `Install`
  unfoldable pub install : String → Outcome
  unfolding with_path
  install cfg_path = with_path (sys.absolute cfg_path)

  abbrev pub stopping : List Action
  stopping =
      systemctl "stop" ("nz" ∷ []) ∷ systemctl "disable" ("nz" ∷ []) ∷ remove socket_path ∷ []

  unit_removed : Answer → Outcome
  unit_removed a = elim a.error [
    | none ↦ (stopping ++ remove unit_path ∷ systemctl "daemon-reload" [] ∷ [], none)
    | some e ↦
        if not a.missing
        then (stopping ++ remove unit_path ∷ [], some ("failed to remove " ⧺ unit_path ⧺ ": " ⧺ e))
        else (stopping ++ remove unit_path ∷ systemctl "daemon-reload" [] ∷ [], none)
  ]

  -- `Uninstall`; the errors of the commands and of the socket's removal are dropped.
  unfoldable pub uninstall : Outcome
  unfolding unit_removed
  uninstall =
      if not (sys.euid == 0)
      then ([], some "uninstall requires root, run with sudo")
      else unit_removed (sys.answer stopping (remove unit_path))
