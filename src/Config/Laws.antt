-- ===== src/Config/Laws.antt =====
-- internal/config/config.go: what Validate accepts, in one formula.
use nz.Base.{
  ℤ, pos, negsuc, ◌≤◌, true, false, ◌≡◌, refl, ◌≢◌, ◌⊎◌, ◌↔◌, inl, inr, none, arith, eq_iff, ◌==◌,
  string_eq, lacks,
}
use nz.Netip.{parse_prefix}
use nz.Config.{
  Config, default_subnet, validate, validate_server, validate_node, port_in_range, is_prefix,
}

abbrev PortAllowed : ℤ → Type 0
PortAllowed (pos n) = (1 ≤ n) × (n ≤ 65535)
PortAllowed (negsuc _) = ⊥

-- What server mode requires of the other fields.
pub record IsServerConfig (c : Config) : Type 0 where
  pub user : c.user ≡ ""
  pub password : c.password ≡ ""
  pub name : c.name ≡ ""
  pub domain : c.domain ≡ ""
  pub subnet : is_prefix (parse_prefix c.subnet) ≡ true
  pub admin_name : c.admin.name ≢ ""
  pub admin_password : c.admin.password ≢ ""

-- What node mode requires of them.
pub record IsNodeConfig (c : Config) : Type 0 where
  pub subnet : c.subnet ≡ "192.168.100.0/24"
  pub admin_name : c.admin.name ≡ ""
  pub admin_password : c.admin.password ≡ ""
  pub user : c.user ≢ ""
  pub password : c.password ≢ ""
  pub name : c.name ≢ ""
  pub domain : c.domain ≢ ""

abbrev pub IsValid : Config → Type 0
IsValid c =
    PortAllowed c.port
    × (((c.mode ≡ "server") × IsServerConfig c) ⊎ ((c.mode ≡ "node") × IsNodeConfig c))

port_in_range_iff : (p : ℤ) → (port_in_range p ≡ true) ↔ PortAllowed p
unfolding port_in_range
port_in_range_iff (pos n) = ground arith
port_in_range_iff (negsuc n) = ground arith

module _ (c : Config) where
  server_sound : validate_server c ≡ none → IsServerConfig c
  unfolding validate_server
  server_sound e = ground (
    arith,
    eq_iff c.user "",
    eq_iff c.password "",
    eq_iff c.name "",
    eq_iff c.domain "",
    eq_iff c.admin.name "",
    eq_iff c.admin.password "",
  )

  server_complete : IsServerConfig c → validate_server c ≡ none
  unfolding validate_server
  server_complete h = ground (
    arith,
    eq_iff c.user "",
    eq_iff c.password "",
    eq_iff c.name "",
    eq_iff c.domain "",
    eq_iff c.admin.name "",
    eq_iff c.admin.password "",
  )

  node_sound : validate_node c ≡ none → IsNodeConfig c
  unfolding validate_node
  node_sound e = ground (
    arith,
    eq_iff c.subnet default_subnet,
    eq_iff c.user "",
    eq_iff c.password "",
    eq_iff c.name "",
    eq_iff c.domain "",
    eq_iff c.admin.name "",
    eq_iff c.admin.password "",
  )

  node_complete : IsNodeConfig c → validate_node c ≡ none
  unfolding validate_node
  node_complete h = ground (
    arith,
    eq_iff c.subnet default_subnet,
    eq_iff c.user "",
    eq_iff c.password "",
    eq_iff c.name "",
    eq_iff c.domain "",
    eq_iff c.admin.name "",
    eq_iff c.admin.password "",
  )

  not_both : c.mode ≡ "node" → (c.mode == "server") ≡ false
  not_both e = rw e refl

  -- If the subnet has no colon, and so is not an IPv6 prefix, then Validate reports no problem exactly
  -- if the port is from 1 to 65535 and either the mode is server, with user, password, name and domain
  -- empty, a subnet that reads as an IPv4 prefix and an administrator with name and password, or the
  -- mode is node, with the default subnet, no administrator, and user, password, name and domain
  -- given. The number in ip may be any in both modes.
  pub validate_iff : lacks 58 c.subnet ≡ true → (validate c ≡ none) ↔ IsValid c
  unfolding validate
  validate_iff ipv4 = (sound, complete)
    where
      sound : validate c ≡ none → IsValid c
      sound e = ground (
        arith,
        eq_iff c.mode "server",
        eq_iff c.mode "node",
        port_in_range_iff c.port,
        server_sound,
        node_sound,
      )

      complete : IsValid c → validate c ≡ none
      complete (port, inl (mode, h)) =
          ground (arith, eq_iff c.mode "server", port_in_range_iff c.port, server_complete h)
      complete (port, inr (mode, h)) =
          ground
            (arith, eq_iff c.mode "node", not_both mode, port_in_range_iff c.port, node_complete h)
