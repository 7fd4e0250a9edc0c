-- ===== src/Server/Policy/Laws.antt =====
-- internal/server/policy.go: who may call whom, in one formula.
use Prim.Native.String
use nz.Base.{◌≡◌, ◌↔◌, ◌⊎◌, String, true, List, [], ◌∷◌, any, arith, string_eq, eq_iff}
use nz.State.Model.{State, Machine, Grant}
use nz.State.Grants.{is_granted, covers, subject_of}
use nz.Server.Model.{Server}
use nz.Server.Policy.{admin_name, allow_relay, allow_p2p}

-- A list of grants holds one for the target, on the user or on the text "user/machine".
abbrev pub Names : String → String → String → Grant → Type 0
Names user machine target g =
    (g.target ≡ target)
    × ((g.subject ≡ user) ⊎ (g.subject ≡ String.◌++◌ user (String.◌++◌ "/" machine)))

abbrev pub Holds : String → String → String → List Grant → Type 0
Holds user machine target [] = ⊥
Holds user machine target (g ∷ gs) = Names user machine target g ⊎ Holds user machine target gs

covers_iff :
    (user machine target : String) (g : Grant)
    → (covers user machine target g ≡ true) ↔ Names user machine target g
covers_iff user machine target g = ground (
  arith,
  eq_iff g.target target,
  eq_iff g.subject user,
  eq_iff g.subject (subject_of user machine),
)

any-covers_iff :
    (user machine target : String) (gs : List Grant)
    → (any (covers user machine target) gs ≡ true) ↔ Holds user machine target gs
unfolding any
any-covers_iff user machine target [] = ground arith
any-covers_iff user machine target (g ∷ gs) =
    ground (arith, covers_iff user machine target g, any-covers_iff user machine target gs)

is_granted_iff :
    (user machine target : String) (s : State)
    → (is_granted user machine target s ≡ true) ↔ Holds user machine target s.grants
unfolding is_granted
is_granted_iff user machine target s = any-covers_iff user machine target s.grants

-- A machine may call another one exactly if it belongs to the admin, or both belong to one user, or the
-- other one belongs to the admin and the list of grants holds one whose target is the name of the other
-- machine and whose subject is the name of the caller's user or the text "user/machine" of the caller.
pub allow_relay_iff :
    (s : Server) (src dst : Machine)
    → (allow_relay s src dst ≡ true) ↔ (
        (src.user ≡ admin_name s)
        ⊎ ((src.user ≡ dst.user)
            ⊎ ((dst.user ≡ admin_name s) × Holds src.user src.name dst.name s.st.grants)))
unfolding allow_relay
allow_relay_iff s src dst = ground (
  arith,
  is_granted_iff src.user src.name dst.name s.st,
  eq_iff src.user (admin_name s),
  eq_iff src.user dst.user,
  eq_iff dst.user (admin_name s),
)

-- Two machines may talk directly exactly if they belong to one user, or one belongs to the admin and
-- the other one has a grant for it.
pub allow_p2p_iff :
    (s : Server) (a b : Machine)
    → (allow_p2p s a b ≡ true) ↔ (
        (a.user ≡ b.user)
        ⊎ (((a.user ≡ admin_name s) × (is_granted b.user b.name a.name s.st ≡ true))
            ⊎ ((b.user ≡ admin_name s) × (is_granted a.user a.name b.name s.st ≡ true))))
unfolding allow_p2p allow_relay
allow_p2p_iff s a b = ground (
  arith,
  eq_iff a.user (admin_name s),
  eq_iff a.user b.user,
  eq_iff b.user a.user,
  eq_iff b.user (admin_name s),
)
