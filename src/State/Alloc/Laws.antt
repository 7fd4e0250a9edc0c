-- ===== src/State/Alloc/Laws.antt =====
-- internal/state/state.go, AllocateIP, over the machine table instead of its map and its loop.
use nz.Base.{
  ℕ, ℤ, pos, negsuc, zero, suc, ◌^◌, ◌<◌, String, true, false, ◌≡◌, refl, ◌≢◌, subst, Option, none,
  some, List, string_eq, arith, Option-cases, inl, inr, leb, lookup,
}
use nz.Netip.{
  Addr, invalid, v4, addr_eq, addr_beq_iff, next, Prefix, contains, to_string, parse_prefix,
}
use nz.Netip.Text.{to_string-ne-empty}
use nz.State.Model.{State, Machine}
use nz.State.Alloc.{
  allocated, allocate_ip, allocate_in, allocate_desired, found_addr, scan, owner_of, server_ip,
  used_ips, desired_addr, rounds,
}
use nz.State.Alloc.Used.{Unused, owner_of-used_ips}
use nz.State.Alloc.Scan.{IsBounded, Found, next-IsBounded, scan-Found}

-- `ip` is the text of an address of the prefix, not the server's, that no machine has.
pub record IsFree (p : Prefix) (ms : List Machine) (ip : String) : Type 0 where
  pub number : ℕ
  pub text : ip ≡ to_string (v4 number)
  pub bounded : number < 2 ^ 32
  pub within : contains p (v4 number) ≡ true
  pub not_server : v4 number ≢ server_ip p
  pub unused : Unused ip ms

Found-IsFree :
    (p : Prefix) (ms : List Machine) (a : Addr)
    → Found p (used_ips ms) a
    → IsFree p ms (to_string a)
Found-IsFree p ms invalid (c, n, o, b) = unfold contains in cc
Found-IsFree p ms (v4 n) (c, ns, o, b) = record {
  number = n;
  text = refl;
  bounded = b;
  within = c;
  not_server = ns;
  unused = owner_of-used_ips (to_string (v4 n)) ms (to_string-ne-empty n b) o;
}

found_addr-IsFree :
    (subnet : String) (p : Prefix) (ms : List Machine) (f : ℕ) (start : Addr) (o : Option Addr)
    (ip : String)
    → IsBounded start
    → scan f p (used_ips ms) start ≡ o
    → found_addr subnet o ≡ allocated ip
    → IsFree p ms ip
unfolding found_addr
found_addr-IsFree subnet p ms f start none ip b e h = cc
found_addr-IsFree subnet p ms f start (some a) ip b e h =
    subst (IsFree p ms) (ground arith)
      (Found-IsFree p ms a (scan-Found p (used_ips ms) f start a b e))

allocate_desired-IsFree :
    (subnet : String) (p : Prefix) (ms : List Machine) (desired : ℤ) (ip : String)
    → allocate_desired subnet p (used_ips ms) desired ≡ allocated ip
    → IsFree p ms ip
unfolding allocate_desired
allocate_desired-IsFree subnet p ms (negsuc n) ip e = cc
allocate_desired-IsFree subnet p ms (pos n) ip e =
    elim (Option-cases (lookup (to_string (desired_addr p n)) (used_ips ms))) [
      | inr (owner, taken) ↦ absurd (ground (arith, taken))
      | inl free ↦
          let within : contains p (desired_addr p n) ≡ true = ground arith in
          let other : addr_eq.test (desired_addr p n) (server_ip p) ≡ false = ground arith in
          let range : leb n 254 ≡ true = ground arith in
          let text : to_string (desired_addr p n) ≡ ip = ground arith in
          subst (IsFree p ms) text (
            Found-IsFree p ms (desired_addr p n) (
              within,
              ground (arith, addr_beq_iff (desired_addr p n) (server_ip p)),
              rw (free, owner_of),
              ground arith,
            ))
    ]

allocate_in-IsFree :
    (subnet : String) (p : Prefix) (desired : ℤ) (s : State) (ip : String)
    → allocate_in subnet p desired s ≡ allocated ip
    → IsFree p s.machines ip
unfolding allocate_in
allocate_in-IsFree subnet p (pos zero) s ip e =
    found_addr-IsFree subnet p s.machines rounds (next (server_ip p)) _ ip
      (next-IsBounded (server_ip p)) refl e
allocate_in-IsFree subnet p (pos (suc n)) s ip e =
    allocate_desired-IsFree subnet p s.machines (pos (suc n)) ip e
allocate_in-IsFree subnet p (negsuc n) s ip e =
    allocate_desired-IsFree subnet p s.machines (negsuc n) ip e

-- An address that is allocated is the text of an address inside the configured prefix, is not the
-- server's own address, and no machine of the table holds it; so it is for an automatic and for a
-- pinned allocation.
pub allocate_ip-IsFree :
    (subnet : String) (desired : ℤ) (s : State) (ip : String)
    → allocate_ip subnet desired s ≡ allocated ip
    → (p : Prefix) × (parse_prefix subnet ≡ some p) × IsFree p s.machines ip
unfolding allocate_ip
allocate_ip-IsFree subnet desired s ip e = elim (Option-cases (parse_prefix subnet)) [
  | inl bad ↦ absurd (ground (arith, bad))
  | inr (p, good) ↦ (p, good, allocate_in-IsFree subnet p desired s ip (ground (arith, good)))
]
