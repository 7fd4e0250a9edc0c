-- ===== src/Command/Usage.antt =====
-- cmd/nz/main.go: the table of commands and the help.
use Prim.Native.String
use nz.Base.{
  ℕ, ◌-◌, String, Bool, ◌&&◌, List, [], ◌∷◌, ◌++◌, map, ◌==◌, string_eq, if◌then◌else◌, leb, nat_eq,
}
use nz.Command.Text.{◌⧺◌, mauve, blue, green, yellow, bold, reset, repeated}

pub data Runner : Type 0 where
  run install uninstall reload list version : Runner
  grant : String → String → Runner

pub record Command : Type 0 where
  pub name : String
  pub summary : String
  pub usage : String
  pub options : List (String × String)
  pub runner : Runner

abbrev pub config_option : String × String
config_option = ("--config <path>", "config file path")

abbrev pub pending_option : String × String
pending_option = ("--pending", "show join requests only")

abbrev pub run_command : Command
run_command = record {
  name = "run";
  summary = "Run in foreground for debugging";
  usage = "nz run [--config <path>] [--log]";
  options = config_option ∷ ("--log", "write nz.log next to the binary") ∷ [];
  runner = run;
}

abbrev pub install_command : Command
install_command = record {
  name = "install";
  summary = "Start the daemon and enable auto-start";
  usage = "nz install [--config <path>]";
  options = config_option ∷ [];
  runner = install;
}

abbrev pub list_command : Command
list_command = record {
  name = "list";
  summary = "Show status and the machine table";
  usage = "nz list [--pending]";
  options = pending_option ∷ [];
  runner = list;
}

abbrev pub grant_usage : String → String
grant_usage name = "nz " ⧺ name ⧺ " <target> [--to <machine>]"

abbrev pub commands : List Command
commands =
    run_command
    ∷ install_command
    ∷ record {
      name = "uninstall";
      summary = "Stop the daemon and disable auto-start";
      usage = "nz uninstall";
      options = [];
      runner = uninstall;
    }
    ∷ record {
      name = "reload";
      summary = "Validate config and apply it";
      usage = "nz reload";
      options = [];
      runner = reload;
    }
    ∷ list_command
    ∷ record {
      name = "ls";
      summary = "Short form of list";
      usage = "nz ls [--pending]";
      options = pending_option ∷ [];
      runner = list;
    }
    ∷ record {
      name = "allow";
      summary = "Approve or unblock or authorize";
      usage = "nz allow <target> [--to <machine>]";
      options = ("--to <machine>", "machine to authorize, default this machine") ∷ [];
      runner = grant "allow" "Approve or unblock or authorize";
    }
    ∷ record {
      name = "deny";
      summary = "Reject or block or revoke";
      usage = "nz deny <target> [--to <machine>]";
      options = ("--to <machine>", "machine to revoke, default this machine") ∷ [];
      runner = grant "deny" "Reject or block or revoke";
    }
    ∷ record {
      name = "version";
      summary = "Show version";
      usage = "nz version";
      options = [];
      runner = version;
    }
    ∷ []

-- `strings.HasSuffix`
ends_with : String → String → Bool
ends_with s end' =
    leb (String.len end') (String.len s)
    && String.slice s (String.len s - String.len end') (String.len s) == end'

longest : List (String × String) → ℕ → ℕ
longest [] width = width
longest (o ∷ options) width =
    longest options (if leb (String.len o.0) width then width else String.len o.0)

option_line : ℕ → String × String → String
unfolding repeated
option_line width o =
    "  " ⧺ yellow ⧺ o.0 ⧺ repeated " " (width - String.len o.0) ⧺ reset ⧺ " " ⧺ o.1

option_lines : List (String × String) → List String
unfolding longest option_line
option_lines [] = []
option_lines (o ∷ options) =
    ""
    ∷ (bold ⧺ mauve ⧺ "OPTIONS:" ⧺ reset)
    ∷ map (option_line (longest (o ∷ options) 0)) (o ∷ options)

abbrev pub target_hint : List String
target_hint =
    ""
    ∷ (bold ⧺ mauve ⧺ "TARGET:" ⧺ reset)
    ∷ ("  " ⧺ yellow ⧺ "friend" ⧺ reset ⧺ "        a user")
    ∷ ("  " ⧺ yellow ⧺ "friend/laptop" ⧺ reset ⧺ " a machine")
    ∷ []

-- What printCommandUsage prints, line by line.
unfoldable pub command_usage : Command → List String
unfolding option_lines ends_with
command_usage c =
    ""
    ∷ (bold ⧺ blue ⧺ "n0 " ⧺ c.name ⧺ reset ⧺ " — " ⧺ c.summary ⧺ reset)
    ∷ ""
    ∷ (bold ⧺ mauve ⧺ "USAGE:" ⧺ reset)
    ∷ ("  " ⧺ blue ⧺ c.usage ⧺ reset)
    ∷ (option_lines c.options
        ++ (if ends_with c.usage "<target>" then target_hint else [])
        ++ "" ∷ [])

-- `%-10s`
padded : ℕ → String → String
unfolding repeated
padded width s = s ⧺ repeated " " (width - String.count s)

command_line : Command → String
unfolding padded
command_line c = "  " ⧺ green ⧺ padded 10 c.name ⧺ reset ⧺ " " ⧺ c.summary

-- What printUsage prints, line by line.
unfoldable pub usage_lines : List String
unfolding command_line
usage_lines =
    ""
    ∷ (bold ⧺ blue ⧺ "n0" ⧺ reset ⧺ " — overlay network tool")
    ∷ ""
    ∷ (bold ⧺ mauve ⧺ "USAGE:" ⧺ reset)
    ∷ ("  " ⧺ blue ⧺ "n0" ⧺ reset ⧺ " <command> " ⧺ yellow ⧺ "--config <path>" ⧺ reset)
    ∷ ""
    ∷ (bold ⧺ mauve ⧺ "COMMANDS:" ⧺ reset)
    ∷ (map command_line commands ++ target_hint ++ "" ∷ [])
