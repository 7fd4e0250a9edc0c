-- ===== src/State/Alloc.antt =====
-- internal/state/state.go, AllocateIP. The loop over the addresses takes fuel: an address is below
-- 2 ^ 32 and each round moves to the next one, so 2 ^ 32 rounds are enough.
pub mod Used
pub mod Scan
pub mod Laws
pub mod Lowest
use nz.Base.{
  ℕ, ℤ, pos, negsuc, zero, suc, ◌^◌, String, Bool, true, false, not, ◌&&◌, ◌||◌, Option, none, some,
  List, [], ◌∷◌, leb, ◌==◌, string_eq, if◌then◌else◌, lookup, insert,
}
use nz.Netip.{
  Addr, invalid, v4, addr_eq, next, Prefix, contains, from_4, octet_0, octet_1, octet_2, to_string,
  parse_prefix,
}
use nz.State.Model.{
  State, Machine, Error, bad_subnet, desired_out_of_range, desired_not_usable, ip_used,
  no_free_address,
}
use nz.State.Grants.{subject_of}
use nz.State.Join.{is_zero}

-- Go's (string, error).
pub data Allocated : Type 0 where
  allocated : String → Allocated
  refused : Error → Allocated

-- The loop that fills the map `used`.
used_from : List (String × String) → List Machine → List (String × String)
used_from used [] = used
used_from used (m ∷ ms) =
    used_from (if m.vpn_ip == "" then used else insert m.vpn_ip (subject_of m.user m.name) used) ms

unfoldable pub used_ips : List Machine → List (String × String)
unfolding used_from
used_ips ms = used_from [] ms

-- `used[ip]`: a missing key reads as "".
abbrev pub owner_of : String → List (String × String) → String
owner_of ip used = elim (lookup ip used) [ none ↦ "" | some owner ↦ owner ]

-- `prefix.Addr().Next()`
abbrev pub server_ip : Prefix → Addr
server_ip p = next (v4 p.addr)

pub scan : ℕ → Prefix → List (String × String) → Addr → Option Addr
scan zero p used addr = none
scan (suc fuel) p used addr = elim (contains p addr) [
  | false ↦ none
  | true ↦
      let rest = scan fuel p used (next addr) in
      if addr == server_ip p || not (owner_of (to_string addr) used == "") then rest else some addr
]

abbrev pub desired_addr : Prefix → ℕ → Addr
desired_addr p desired = from_4 (octet_0 base) (octet_1 base) (octet_2 base) desired
  where
    base : Addr
    base = v4 p.addr

pub allocate_desired : String → Prefix → List (String × String) → ℤ → Allocated
allocate_desired subnet p used (negsuc n) = refused (desired_out_of_range (negsuc n))
allocate_desired subnet p used (pos n) =
    let addr = desired_addr p n in
    if not (leb 2 n && leb n 254)
    then refused (desired_out_of_range (pos n))
    else if not (contains p addr) || addr == server_ip p
    then refused (desired_not_usable (to_string addr) subnet)
    else elim (lookup (to_string addr) used) [
      | some owner ↦ refused (ip_used (to_string addr) owner)
      | none ↦ allocated (to_string addr)
    ]

pub found_addr : String → Option Addr → Allocated
found_addr subnet none = refused (no_free_address subnet)
found_addr subnet (some addr) = allocated (to_string addr)

abbrev pub rounds : ℕ
rounds = 2 ^ 32

pub allocate_in : String → Prefix → ℤ → State → Allocated
unfolding used_ips scan allocate_desired found_addr
allocate_in subnet p desired s =
    if is_zero desired
    then found_addr subnet (scan rounds p (used_ips s.machines) (next (server_ip p)))
    else allocate_desired subnet p (used_ips s.machines) desired

unfoldable pub allocate_ip : String → ℤ → State → Allocated
unfolding allocate_in parse_prefix
allocate_ip subnet desired s = elim (parse_prefix subnet) [
  | none ↦ refused (bad_subnet subnet)
  | some p ↦ allocate_in subnet p desired s
]
