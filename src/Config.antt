-- ===== src/Config.antt =====
-- internal/config/config.go: the configuration and its validation.
pub mod File
pub mod Laws
use nz.Base.{
  ℕ, ℤ, pos, negsuc, String, Bool, true, false, not, ◌&&◌, ◌||◌, ◌≡◌, Option, none, some, leb, ltb,
  ◌==◌, string_eq, if◌then◌else◌,
}
use nz.Netip.{Prefix, parse_prefix}

abbrev pub default_port : ℤ
default_port = pos 4399

abbrev pub default_subnet : String
default_subnet = "192.168.100.0/24"

pub record Account : Type 0 where
  pub name : String
  pub password : String

pub record Config : Type 0 where
  pub mode : String
  pub desired_ip : ℤ
  pub port : ℤ
  pub subnet : String
  pub admin : Account
  pub user : String
  pub password : String
  pub name : String
  pub domain : String

pub data Field : Type 0 where
  mode port user password name domain subnet admin admin_name admin_password : Field

-- The first problem found: a value that is not allowed, a field of the other mode, or one missing.
pub data ConfigError : Type 0 where
  bad_value other_mode required : Field → ConfigError

-- The value that json.Unmarshal fills: defaults for the fields that the text leaves out.
abbrev pub defaults : Config
defaults = record {
  mode = "";
  desired_ip = pos 0;
  port = default_port;
  subnet = default_subnet;
  admin = record { name = ""; password = "" };
  user = "";
  password = "";
  name = "";
  domain = "";
}

port_in_range : ℤ → Bool
port_in_range (pos n) = leb 1 n && leb n 65535
port_in_range (negsuc _) = false

pub is_prefix : Option Prefix → Bool
is_prefix none = false
is_prefix (some _) = true

validate_server : Config → Option ConfigError
unfolding is_prefix
validate_server c =
    if not (c.user == "")
    then some (other_mode user)
    else if not (c.password == "")
    then some (other_mode password)
    else if not (c.name == "")
    then some (other_mode name)
    else if not (c.domain == "")
    then some (other_mode domain)
    else if not (is_prefix (parse_prefix c.subnet))
    then some (bad_value subnet)
    else if c.admin.name == ""
    then some (required admin_name)
    else if c.admin.password == ""
    then some (required admin_password)
    else none

validate_node : Config → Option ConfigError
validate_node c =
    if not (c.subnet == default_subnet)
    then some (other_mode subnet)
    else if not (c.admin.name == "") || not (c.admin.password == "")
    then some (other_mode admin)
    else if c.user == ""
    then some (required user)
    else if c.password == ""
    then some (required password)
    else if c.name == ""
    then some (required name)
    else if c.domain == ""
    then some (required domain)
    else none

unfoldable pub validate : Config → Option ConfigError
unfolding validate_server validate_node port_in_range
validate c =
    if not (c.mode == "server") && not (c.mode == "node")
    then some (bad_value mode)
    else if not (port_in_range c.port)
    then some (bad_value port)
    else if c.mode == "server"
    then validate_server c
    else validate_node c
