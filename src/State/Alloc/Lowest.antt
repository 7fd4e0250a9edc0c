-- ===== src/State/Alloc/Lowest.antt =====
-- internal/state/state.go, AllocateIP: which address an automatic allocation chooses.
use nz.Base.{
  ℕ, pos, ◌+◌, ◌^◌, ◌≤◌, ◌<◌, String, true, ◌≡◌, refl, ap, ◌∙◌, Option, none, some, arith, inl, inr,
}
use nz.Netip.{Addr, invalid, v4, next, Prefix, contains, to_string, parse_prefix}
use nz.Netip.Text.{to_string-injective}
use nz.State.Model.{State}
use nz.State.Alloc.{
  allocated, allocate_ip, allocate_in, found_addr, scan, owner_of, server_ip, used_ips, rounds,
}
use nz.State.Alloc.Used.{Unused, lookup-used_ips}
use nz.State.Alloc.Scan.{
  Taken, next_v4, next-IsBounded, scan-Found, scan_lowest, scan_exhausts, contains-between,
}

module _ (p : Prefix) (s : State) where
  -- An address past the server's that is taken is some machine's.
  Taken-used :
      (k : ℕ)
      → p.addr + 1 < k
      → k < 2 ^ 32
      → Taken p (used_ips s.machines) (v4 k)
      → ¬ Unused (to_string (v4 k)) s.machines
  Taken-used k h l (inl e) u =
      let same : v4 k ≡ v4 (p.addr + 1) = e ∙ next_v4 p.addr k (omega arith) l in
      absurd (ground arith)
  Taken-used k h l (inr owned) u =
      owned (rw (lookup-used_ips (to_string (v4 k)) s.machines u, owner_of))

  abbrev first : Addr
  first = next (server_ip p)

  first-eq : (k : ℕ) → p.addr + 1 < k → k < 2 ^ 32 → first ≡ v4 (p.addr + 2)
  first-eq k h l =
      ap next (next_v4 p.addr k (omega arith) l) ∙ next_v4 (p.addr + 1) k h l ∙ ap v4 (omega arith)

  inside :
      (k : ℕ)
      → contains p (v4 k) ≡ true
      → (j : ℕ) → p.addr + 2 ≤ j
      → j ≤ k
      → contains p (v4 j) ≡ true
  inside k within j a b =
      contains-between p p.addr j k (unfold contains in ground arith) within (omega arith) b

  -- The automatic scan, with its result as a value.
  auto_lowest :
      (subnet ip : String) (o : Option Addr) (m k : ℕ)
      → scan rounds p (used_ips s.machines) first ≡ o
      → found_addr subnet o ≡ allocated ip
      → ip ≡ to_string (v4 m)
      → m < 2 ^ 32
      → p.addr + 1 < k
      → k < m
      → ¬ Unused (to_string (v4 k)) s.machines
  unfolding found_addr
  auto_lowest subnet ip none m k e f t hm h l = cc
  auto_lowest subnet ip (some invalid) m k e f t hm h l =
      unfold contains in
      cc
        (scan-Found p (used_ips s.machines) rounds first invalid (next-IsBounded (server_ip p)) e).0
  auto_lowest subnet ip (some (v4 n)) m k e f t hm h l =
      let found =
        scan-Found p (used_ips s.machines) rounds first (v4 n) (next-IsBounded (server_ip p)) e in
      let text : to_string (v4 n) ≡ to_string (v4 m) = ground arith in
      let same : n ≡ m = to_string-injective n m found.3 hm text in
      Taken-used k h (omega arith) (
        scan_lowest p (used_ips s.machines) rounds (p.addr + 2) m k hm
          (rw (first-eq k h (omega arith), same) at e) (omega arith) l)

  auto_succeeds :
      (subnet : String) (o : Option Addr) (k : ℕ)
      → scan rounds p (used_ips s.machines) first ≡ o
      → p.addr + 1 < k
      → k < 2 ^ 32
      → contains p (v4 k) ≡ true
      → Unused (to_string (v4 k)) s.machines
      → (ip : String) × (found_addr subnet o ≡ allocated ip)
  unfolding found_addr
  auto_succeeds subnet (some a) k e h l within u = (to_string a, refl)
  auto_succeeds subnet none k e h l within u = absurd (
      Taken-used k h l
        (scan_exhausts p (used_ips s.machines) rounds (p.addr + 2) k l (omega arith)
          (inside k within) (rw (first-eq k h l) at e) (omega arith))
        u)

-- An automatic allocation passes over no free address: every address between the server's and the
-- one that it returns is held by a machine of the table.
pub allocate_ip_lowest :
    (subnet : String) (p : Prefix) (s : State) (ip : String) (m k : ℕ)
    → parse_prefix subnet ≡ some p
    → allocate_ip subnet (pos 0) s ≡ allocated ip
    → ip ≡ to_string (v4 m)
    → m < 2 ^ 32
    → p.addr + 1 < k
    → k < m
    → ¬ Unused (to_string (v4 k)) s.machines
unfolding allocate_ip allocate_in
allocate_ip_lowest subnet p s ip m k good e t hm h l =
    auto_lowest p s subnet ip _ m k refl (rw (good, allocate_ip) at e) t hm h l

-- An automatic allocation succeeds whenever some address of the prefix past the server's is held by
-- no machine.
pub allocate_ip_succeeds :
    (subnet : String) (p : Prefix) (s : State) (k : ℕ)
    → parse_prefix subnet ≡ some p
    → p.addr + 1 < k
    → k < 2 ^ 32
    → contains p (v4 k) ≡ true
    → Unused (to_string (v4 k)) s.machines
    → (ip : String) × (allocate_ip subnet (pos 0) s ≡ allocated ip)
unfolding allocate_ip allocate_in
allocate_ip_succeeds subnet p s k good h l within u =
    let (ip, e) = auto_succeeds p s subnet _ k refl h l within u in (ip, rw (good, allocate_ip) e)
