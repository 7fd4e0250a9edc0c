-- ===== src/State/Calls/Histories.antt =====
-- internal/state/state.go: the tables after histories of operations whose joins are honest.
use nz.Base.{refl, ◌≡◌, inl, inr, false, Bool-cases, List, [], ◌∷◌}
use nz.State.Model.{State, tables, is_machine}
use nz.State.Join.{touch}
use nz.State.Step.{
  Call, allows, denies, blocks, unblocks, trusts, grants, revokes, joins, sets_verifier, sets_ip,
  touches, ensures_admin,
}
use nz.State.Calls.{perform, perform-Effect, run, writes_file}
use nz.State.Calls.Tables.{IsWellFormed, machines_update}
use nz.State.Calls.Joining.{IsHonest, Effect-IsWellFormed}

-- The one call that writes no file is Touch.
touch-IsWellFormed :
    (c : Call) (s : State)
    → writes_file c ≡ false
    → IsWellFormed (tables s)
    → IsWellFormed (tables (perform c s).0)
unfolding perform touch
touch-IsWellFormed (touches user machine now) s only h =
    machines_update s (is_machine user machine) _ (λ m. refl) (λ m. refl) h
touch-IsWellFormed (allows a b) s only h = cc
touch-IsWellFormed (denies a b) s only h = cc
touch-IsWellFormed (blocks a b) s only h = cc
touch-IsWellFormed (unblocks a b) s only h = cc
touch-IsWellFormed (trusts a b t) s only h = cc
touch-IsWellFormed (grants a b) s only h = cc
touch-IsWellFormed (revokes a b) s only h = cc
touch-IsWellFormed (joins a now) s only h = cc
touch-IsWellFormed (sets_verifier a b d) s only h = cc
touch-IsWellFormed (sets_ip a b d) s only h = cc
touch-IsWellFormed (ensures_admin a b d n) s only h = cc

-- User names, machine names, machine keys and grants stay without repetition under every operation,
-- and every machine keeps its user, if a join that brings a known key comes from the user whose
-- machine holds that key.
pub perform-IsWellFormed :
    (c : Call) (s : State)
    → IsHonest c s
    → IsWellFormed (tables s)
    → IsWellFormed (tables (perform c s).0)
perform-IsWellFormed c s honest h = elim (Bool-cases (writes_file c)) [
  | inl writes ↦ Effect-IsWellFormed (perform-Effect c s writes) honest h
  | inr only ↦ touch-IsWellFormed c s only h
]

-- Each call of the history is honest where it is made.
abbrev pub AllHonest : List Call → State → Type 0
AllHonest [] s = Unit
AllHonest (c ∷ cs) s = IsHonest c s × AllHonest cs (perform c s).0

run-IsWellFormed :
    (cs : List Call) (s : State)
    → AllHonest cs s
    → IsWellFormed (tables s)
    → IsWellFormed (tables (run cs s))
unfolding run
run-IsWellFormed [] s _ h = h
run-IsWellFormed (c ∷ cs) s (honest, rest) h =
    run-IsWellFormed cs (perform c s).0 rest (perform-IsWellFormed c s honest h)
