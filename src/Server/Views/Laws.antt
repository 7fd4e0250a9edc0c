-- ===== src/Server/Views/Laws.antt =====
-- internal/server/server.go: the tables that a machine of a plain user sees.
use nz.Base.{
  ◌≡◌, ◌≢◌, String, false, ◌==◌, string_eq, eq_iff, All, All-imp, keep_if, keep_if-test, if_false,
  Bool-cases, inl, inr,
}
use nz.Server.Model.{Server}
use nz.Server.Policy.{admin_name}
use nz.Server.Views.{users_view, machine_views}

filtered :
    (user machine : String) (s : Server)
    → (user == admin_name s) ≡ false
    → users_view user machine s ≡ (
      keep_if (λ u. u.name == user) s.st.users,
      keep_if (λ v. v.machine.user == user) (machine_views user machine s),
    )
unfolding users_view
filtered user machine s miss = if_false (user == admin_name s) _ _ miss

own_tables :
    (user machine : String) (s : Server)
    → All (λ u. u.name ≡ user) (keep_if (λ u. u.name == user) s.st.users)
      × All
          (λ v. v.machine.user ≡ user)
          (keep_if (λ v. v.machine.user == user) (machine_views user machine s))
own_tables user machine s = (
  All-imp _ _ _ (λ u. (eq_iff u.name user).0) (keep_if-test (λ u. u.name == user) s.st.users),
  All-imp _ _ _ (λ v. (eq_iff v.machine.user user).0)
      (keep_if-test (λ v. v.machine.user == user) (machine_views user machine s)),
)

-- The tables that a machine of another user than the admin gets hold that user and that user's
-- machines only.
pub users_view-own :
    (user machine : String) (s : Server)
    → user ≢ admin_name s
    → All (λ u. u.name ≡ user) (users_view user machine s).0
      × All (λ v. v.machine.user ≡ user) (users_view user machine s).1
users_view-own user machine s other = elim (Bool-cases (user == admin_name s)) [
  | inl hit ↦ absurd (other ((eq_iff user (admin_name s)).0 hit))
  | inr miss ↦ rw (filtered user machine s miss) (own_tables user machine s)
]
