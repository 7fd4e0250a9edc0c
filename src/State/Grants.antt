-- ===== src/State/Grants.antt =====
-- internal/state/state.go: Grant, Revoke, GrantsOf, IsGranted.
pub mod Effects
use Prim.Native.String
use nz.Base.{
  String, Bool, true, false, not, ◌&&◌, ◌||◌, Option, none, some, List, [], ◌∷◌, ◌++◌, map,
  Comparable, ◌==◌, string_eq, if◌then◌else◌, keep_if, any,
}
use nz.State.Model.{State, Grant, Outcome, save_locked}

abbrev pub is_grant : String → String → Grant → Bool
is_grant subject target g = g.subject == subject && g.target == target

-- The machine form of a subject, "user/machine".
abbrev pub subject_of : String → String → String
subject_of user machine = String.◌++◌ user (String.◌++◌ "/" machine)

unfoldable pub grant : String → String → State → Outcome
grant subject target s =
    if any (is_grant subject target) s.grants
    then (s, none)
    else save_locked
        (record s { grants = s.grants ++ record { subject = subject; target = target } ∷ [] })

unfoldable pub revoke : String → String → State → Outcome
revoke subject target s = save_locked (record s {
  grants = keep_if (λ g. not (g.subject == subject) || not (g.target == target)) s.grants;
})

unfoldable pub grants_of : String → State → List String
grants_of subject s = map (λ g. g.target) (keep_if (λ g. g.subject == subject) s.grants)

abbrev pub covers : String → String → String → Grant → Bool
covers user machine target g =
    g.target == target && (g.subject == user || g.subject == subject_of user machine)

unfoldable pub is_granted : String → String → String → State → Bool
is_granted user machine target s = any (covers user machine target) s.grants
