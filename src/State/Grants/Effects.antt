-- ===== src/State/Grants/Effects.antt =====
-- Grant and Revoke make the steps of the abstract system.
use nz.Base.{String, inl, inr, Bool-cases, any}
use nz.State.Model.{State}
use nz.State.Grants.{grant, revoke, is_grant}
use nz.State.Step.{Step, grants, revokes, Idle, Effect, idle, stored}

module _ (s : State) (subject target : String) where
  pub grant-Effect : Effect s (grants subject target) (grant subject target s)
  unfolding grant
  grant-Effect = elim (Bool-cases (any (is_grant subject target) s.grants)) [
    | inl known ↦ rw (known, grant) (idle (Idle.known_grant subject target known))
    | inr fresh ↦ rw (fresh, grant) (stored (Step.add_grant subject target fresh))
  ]

  pub revoke-Effect : Effect s (revokes subject target) (revoke subject target s)
  unfolding revoke
  revoke-Effect = stored (Step.drop_grant subject target)
