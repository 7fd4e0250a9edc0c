-- ===== src/Examples/Hosts.antt =====
-- Examples of the system service, of the network device and of the choice of a command.
use nz.Base.{ℕ, refl, true, false, [], ◌∷◌, none, arith, length}
use nz.Netip.{v4}
use nz.Config.File.{not_loaded, unreadable}
use nz.Ipc.{Json}
use nz.Service.{System, text, install}
use nz.Service.Laws.{Installed, install-Installed}
use nz.Tun.{Kernel, done, refused, set_up, create}
use nz.Tun.Laws.{Left}
use nz.Tun.Configured.{Configured, create_lem}
use nz.Command.Client.{bad_listing}
use nz.Command.Main.{Host, flags, main}
use nz.Command.Main.Laws.{IsQuiet, main_no_root}

-- A system where everything works and the service is active.
abbrev working : ℕ → System
working euid = record {
  has_systemd = true;
  euid = euid;
  executable = text "/usr/bin/nz";
  absolute = λ path. text path;
  trim = λ s. s;
  quote = λ s. s;
  answer = λ before a. record { error = none; missing = false; out = "active" };
}

install-Installed_example :
    Installed (working 0) "/etc/nz.json" (install (working 0) "/etc/nz.json").0
unfolding install
install-Installed_example = install-Installed (working 0) "/etc/nz.json" refl

-- A kernel that answers with the length of the calls so far, and cannot set a link up.
abbrev fails_up : Kernel
fails_up = record {
  answer = λ before c. elim c [ set_up _ ↦ refused false "no" | _ ↦ done (length before) ];
  interface_name = λ name. name;
}

create_lem_example :
    Left (create fails_up "nz" (v4 167772162) (record { addr = 167772160; bits = 24 }) [])
    × Configured
        (v4 167772162)
        (record { addr = 167772160; bits = 24 })
        (create fails_up "nz" (v4 167772162) (record { addr = 167772160; bits = 24 }) [])
create_lem_example =
    create_lem fails_up (v4 167772162) (record { addr = 167772160; bits = 24 }) "nz"

abbrev host : Host
host = record {
  system = working 1000;
  files = record { size = λ path. none; extension = λ path. ".log"; open_error = λ path. none };
  terminal = record { width = λ s. 1; time_text = λ t. ""; read_listing = λ s. bad_listing "" };
  join = λ directory file. file;
  directory = none;
  decode = λ c bytes. not_loaded "";
  read_file = λ path. unreadable "";
  run_flags = λ path args. flags (record { config = path; log = true; pingback = ""; token = "" });
  install_flags = λ path args. flags path;
  list_flags = λ args. flags false;
  new_daemon = λ path. none;
  serve = λ f. none;
}

abbrev no_json : Json
no_json = record {
  request_text = λ r. none;
  response_text = λ r. none;
  read_request = λ line. none;
  read_response = λ line. none;
}

main_no_root_example : IsQuiet (main {S = ℕ} host no_json none false ("uninstall" ∷ []) 0)
main_no_root_example = main_no_root host no_json none false (omega arith) ("uninstall" ∷ []) 0
