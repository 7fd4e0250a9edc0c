-- ===== src/Config/File.antt =====
-- internal/config/config.go: the file of the configuration, and the texts of the errors.
use nz.Base.{ℕ, ℤ, pos, negsuc, ◌+◌, String, List, Option, none, some, string_eq}
use nz.Command.Text.{◌⧺◌, decimal}
use nz.Config.{
  Config, ConfigError, Field, bad_value, other_mode, required, mode, port, user, password, name,
  domain, subnet, admin, admin_name, admin_password, defaults, validate,
}

-- Go's (value, error).
pub data Loaded : Type 0 where
  loaded : Config → Loaded
  not_loaded : String → Loaded

abbrev pub config_file_name : String
config_file_name = "config.json"

abbrev pub log_file_name : String
log_file_name = "nz.log"

-- The bytes of a file, or the error of ReadFile.
pub data FileRead : Type 0 where
  content : List ℕ → FileRead
  unreadable : String → FileRead

-- The directory of the running program, or none if it is not known.
unfoldable pub beside : (String → String → String) → Option String → String → String
beside join directory file = elim directory [ none ↦ file | some d ↦ join d file ]

-- `DefaultPath`; `join` is filepath.Join.
unfoldable pub default_path : (String → String → String) → Option String → String
unfolding beside
default_path join directory = beside join directory config_file_name

field_name : Field → String
field_name f = elim f [
  | mode ↦ "mode"
  | port ↦ "port"
  | user ↦ "user"
  | password ↦ "password"
  | name ↦ "name"
  | domain ↦ "domain"
  | subnet ↦ "subnet"
  | admin ↦ "admin"
  | admin_name ↦ "admin.name"
  | admin_password ↦ "admin.password"
]

unfoldable pub int_text : ℤ → String
unfolding decimal
int_text (pos n) = decimal n
int_text (negsuc n) = "-" ⧺ decimal (n + 1)

-- The mode that the field belongs to, and the other one.
own_mode : Field → String
own_mode f = elim f [
  | subnet ↦ "server"
  | admin ↦ "server"
  | admin_name ↦ "server"
  | admin_password ↦ "server"
  | _ ↦ "node"
]

-- The text of an error about a configuration; `quote` is `%q`.
unfoldable pub message : (String → String) → Config → ConfigError → String
unfolding field_name int_text own_mode
message quote c (bad_value mode) = "field mode must be \"server\" or \"node\", got " ⧺ quote c.mode
message quote c (bad_value port) = "field port must be 1 to 65535, got " ⧺ int_text c.port
message quote c (bad_value f) =
    "field " ⧺ field_name f ⧺ " must be a CIDR prefix, got " ⧺ quote c.subnet
message quote c (other_mode f) =
    "field " ⧺ field_name f ⧺ " is only valid in " ⧺ own_mode f ⧺ " mode"
message quote c (required f) = "field " ⧺ field_name f ⧺ " is required in " ⧺ own_mode f ⧺ " mode"

-- `decode` is json.Unmarshal into the given value: it gives the value with the fields of the text, or
-- the text of its error.
module _ (decode : Config → List ℕ → Loaded) (read_file : String → FileRead)
    (quote : String → String) where
  unfoldable pub parse : List ℕ → Loaded
  parse bytes = elim (decode defaults bytes) [
    | loaded c ↦ loaded c
    | not_loaded e ↦ not_loaded ("failed to parse config: " ⧺ e)
  ]

  loaded_from : String → FileRead → Loaded
  unfolding parse
  loaded_from path (unreadable e) = not_loaded ("failed to read config " ⧺ path ⧺ ": " ⧺ e)
  loaded_from path (content bytes) = parse bytes

  unfoldable pub load : String → Loaded
  unfolding loaded_from
  load path = loaded_from path (read_file path)

  checked : Loaded → Option String
  unfolding validate message
  checked (not_loaded e) = some e
  checked (loaded c) = elim (validate c) [ none ↦ none | some e ↦ some (message quote c e) ]

  -- `ValidateFile`; none is no error.
  unfoldable pub validate_file : String → Option String
  unfolding checked load
  validate_file path = checked (load path)
