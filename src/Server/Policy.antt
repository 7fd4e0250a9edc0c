-- ===== src/Server/Policy.antt =====
-- internal/server/policy.go: who may call whom.
pub mod Laws
use nz.Base.{
  String, Bool, true, false, ◌&&◌, List, [], ℕ, Option, none, some, ◌==◌, string_eq, if◌then◌else◌,
  pos,
}
use nz.Base64.{decode}
use nz.Identity.{split_public}
use nz.State.Model.{Machine, MachineStatus}
use nz.State.Grants.{is_granted}
use nz.Server.Model.{Server}

abbrev pub admin_name : Server → String
admin_name s = s.cfg.admin.name

unfoldable pub allow_relay : Server → Machine → Machine → Bool
allow_relay s src dst =
    if src.user == admin_name s
    then true
    else if src.user == dst.user
    then true
    else if dst.user == admin_name s
    then is_granted src.user src.name dst.name s.st
    else false

unfoldable pub allow_p2p : Server → Machine → Machine → Bool
allow_p2p s a b = allow_relay s a b && allow_relay s b a

unfoldable pub allow_address_exchange : Server → Machine → Machine → Bool
unfolding allow_p2p
allow_address_exchange s a b = allow_p2p s a b

-- The pseudo machine of the server itself.
abbrev pub server_machine : Server → Machine
server_machine s = record {
  user = admin_name s;
  name = "server";
  desired_ip = pos 0;
  public = "";
  fingerprint = "";
  vpn_ip = "";
  status = MachineStatus.active;
  trusted = false;
  last_seen = 0;
  joined_at = 0;
}

-- An empty text is refused before it is decoded.
unfoldable pub decode_b64 : String → Option (List ℕ)
unfolding decode
decode_b64 text = if text == "" then none else decode text

keys_of : Option (List ℕ) → List ℕ × List ℕ
keys_of none = ([], [])
keys_of (some blob) = elim (split_public blob) [ none ↦ ([], []) | some keys ↦ keys ]

-- The signing and the exchange key of a machine, empty if its stored key cannot be read.
unfoldable pub machine_keys : Machine → List ℕ × List ℕ
unfolding keys_of decode_b64 split_public
machine_keys m = keys_of (decode_b64 m.public)
