-- ===== src/State/Calls.antt =====
-- internal/state/state.go: the operations, each as the answer to its call, and histories of calls.
pub mod Durable
pub mod Tables
pub mod Invariant
pub mod Joining
pub mod Histories
pub mod Approval
use nz.Base.{ℕ, String, Bool, true, false, List, [], ◌∷◌, Option, none, some, ◌≡◌, refl}
use nz.State.Model.{State, Outcome}
use nz.State.Roster.{allow, deny, block, unblock, set_trust}
use nz.State.Roster.Effects.{
  allow-Effect, deny-Effect, block-Effect, unblock-Effect, set_trust-Effect,
}
use nz.State.Grants.{grant, revoke}
use nz.State.Grants.Effects.{grant-Effect, revoke-Effect}
use nz.State.Join.{JoinArgs, register_join, set_verifier, set_machine_ip, touch, ensure_admin}
use nz.State.Join.Effects.{
  register_join-Effect, set_verifier-Effect, set_machine_ip-Effect, ensure_admin-Effect,
}
use nz.State.Step.{
  Call, allows, denies, blocks, unblocks, trusts, grants, revokes, joins, sets_verifier, sets_ip,
  touches, ensures_admin, Effect, plain,
}

unfoldable pub perform : Call → State → Outcome
perform (allows user machine) s = allow user machine s
perform (denies user machine) s = deny user machine s
perform (blocks user machine) s = block user machine s
perform (unblocks user machine) s = unblock user machine s
perform (trusts user machine trusted) s = set_trust user machine trusted s
perform (grants subject target) s = grant subject target s
perform (revokes subject target) s = revoke subject target s
perform (joins a now) s = plain (register_join a now s)
perform (sets_verifier user salt verifier) s = set_verifier user salt verifier s
perform (sets_ip user machine ip) s = set_machine_ip user machine ip s
perform (touches user machine now) s = (touch user machine now s, none)
perform (ensures_admin user salt verifier now) s = ensure_admin user salt verifier now s

unfoldable pub run : List Call → State → State
run [] s = s
run (c ∷ cs) s = run cs (perform c s).0

-- Touch alone writes no file.
abbrev pub writes_file : Call → Bool
writes_file (touches _ _ _) = false
writes_file _ = true

-- Every operation but Touch does what its call may do in the abstract system: it makes a step of that
-- call, under that step's guard, and then writes the state file; or the call has no step, and the
-- operation reports an error and leaves the state alone; or it leaves the state alone without an error,
-- for a grant that is there, an administrator who is active, or a join of a blocked user or machine.
pub perform-Effect : (c : Call) (s : State) → writes_file c ≡ true → Effect s c (perform c s)
unfolding perform
perform-Effect (allows user machine) s w = allow-Effect s user machine
perform-Effect (denies user machine) s w = deny-Effect s user machine
perform-Effect (blocks user machine) s w = block-Effect s user machine
perform-Effect (unblocks user machine) s w = unblock-Effect s user machine
perform-Effect (trusts user machine trusted) s w = set_trust-Effect s user machine trusted
perform-Effect (grants subject target) s w = grant-Effect s subject target
perform-Effect (revokes subject target) s w = revoke-Effect s subject target
perform-Effect (joins a now) s w = register_join-Effect s a now
perform-Effect (sets_verifier user salt verifier) s w = set_verifier-Effect s user salt verifier
perform-Effect (sets_ip user machine ip) s w = set_machine_ip-Effect s user machine ip
perform-Effect (touches user machine now) s w = cc
perform-Effect (ensures_admin user salt verifier now) s w =
    ensure_admin-Effect s user salt verifier now
