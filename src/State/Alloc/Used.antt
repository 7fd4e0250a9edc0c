-- ===== src/State/Alloc/Used.antt =====
-- internal/state/state.go, AllocateIP: the map of the addresses in use.
use Prim.Native.String
use text.Mathlib.TextLemmas.{append-eq-nil_iff, cons-ne-nil}
use nz.Base.{
  String, ◌≡◌, refl, ◌≢◌, none, List, [], ◌∷◌, ◌==◌, string_eq, All, if◌then◌else◌, lookup, insert,
  lookup-insert, arith, eq_iff,
}
use nz.State.Model.{Machine}
use nz.State.Grants.{subject_of}
use nz.State.Alloc.{used_from, used_ips, owner_of}

-- No machine of the list has the address.
abbrev pub Unused : String → List Machine → Type 0
Unused ip ms = All (λ m. m.vpn_ip ≢ ip) ms

pub subject_of-ne-empty : (user machine : String) → subject_of user machine ≢ ""
subject_of-ne-empty user machine e =
    let both = append-eq-nil_iff {p = user} {q = String.◌++◌ "/" machine} in
    let slash = append-eq-nil_iff {p = "/"} {q = machine} in
    cons-ne-nil _ _ ((slash.0) ((both.0 e).1)).0

abbrev mark : List (String × String) → Machine → List (String × String)
mark used m = if m.vpn_ip == "" then used else insert m.vpn_ip (subject_of m.user m.name) used

owner_of-mark :
    (ip : String) (used : List (String × String)) (m : Machine)
    → ip ≢ ""
    → owner_of ip (mark used m) ≡ ""
    → (owner_of ip used ≡ "") × (m.vpn_ip ≢ ip)
owner_of-mark ip used m n e = ground (
  arith,
  eq_iff m.vpn_ip "",
  eq_iff m.vpn_ip ip,
  lookup-insert m.vpn_ip ip (subject_of m.user m.name) used,
  subject_of-ne-empty m.user m.name,
)

lookup-mark :
    (ip : String) (used : List (String × String)) (m : Machine)
    → m.vpn_ip ≢ ip
    → lookup ip used ≡ none
    → lookup ip (mark used m) ≡ none
lookup-mark ip used m n e =
    ground (arith, eq_iff m.vpn_ip ip, lookup-insert m.vpn_ip ip (subject_of m.user m.name) used)

owner_of-used_from :
    (ip : String) (used : List (String × String)) (ms : List Machine)
    → ip ≢ ""
    → owner_of ip (used_from used ms) ≡ ""
    → (owner_of ip used ≡ "") × Unused ip ms
unfolding used_from
owner_of-used_from ip used [] n e = (e, tt)
owner_of-used_from ip used (m ∷ ms) n e =
    let (before, rest) = owner_of-used_from ip (mark used m) ms n e in
    let (first, here) = owner_of-mark ip used m n before in (first, (here, rest))

lookup-used_from :
    (ip : String) (used : List (String × String)) (ms : List Machine)
    → lookup ip used ≡ none
    → Unused ip ms
    → lookup ip (used_from used ms) ≡ none
unfolding used_from
lookup-used_from ip used [] e h = e
lookup-used_from ip used (m ∷ ms) e (n, h) =
    lookup-used_from ip (mark used m) ms (lookup-mark ip used m n e) h

pub owner_of-used_ips :
    (ip : String) (ms : List Machine) → ip ≢ "" → owner_of ip (used_ips ms) ≡ "" → Unused ip ms
unfolding used_ips
owner_of-used_ips ip ms n e = (owner_of-used_from ip [] ms n e).1

pub lookup-used_ips :
    (ip : String) (ms : List Machine) → Unused ip ms → lookup ip (used_ips ms) ≡ none
unfolding used_ips lookup
lookup-used_ips ip ms h = lookup-used_from ip [] ms refl h
