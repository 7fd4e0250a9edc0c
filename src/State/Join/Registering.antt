-- ===== src/State/Join/Registering.antt =====
-- internal/state/state.go: the first join of a user and SetVerifier leave the user's salt and verifier in
-- the store.
use nz.Base.{
  ℕ, ◌≡◌, refl, sym, ap, ◌∙◌, subst, inl, inr, String, List, false, ◌||◌, Option, none, some,
  find_first, find_first-append, find_first-test, find_first-modify_first, modify_first, if_true,
  if_false, string_eq, eq_iff, Option-cases,
}
use nz.Base64.{encode}
use nz.State.Model.{State, User, UserStatus, Tables, Outcome, is_user, find_user, save_locked}
use nz.State.Saving.{IsSynced, tables-save_locked, save_locked_lem}
use nz.State.Join.{
  JoinArgs, JoinOutcome, register_join, join_new_user, join_known_user, new_user, is_empty,
  set_verifier,
}

pub register_join-find_user :
    (a : JoinArgs) (now : ℕ) (s : State)
    → find_user a.user s ≡ none
    → (is_empty a.salt || is_empty a.verifier) ≡ false
    → find_user a.user (register_join a now s).0
      ≡ some (new_user a.user a.salt a.verifier UserStatus.pending now)
unfolding register_join join_new_user find_first
register_join-find_user a now s unknown secrets =
    ap
      (λ (o : Option User).
        let r : JoinOutcome = elim o [
          | none ↦ join_new_user a now s
          | some u ↦ join_known_user a now u s
        ] in
        find_user a.user r.0)
      unknown
    ∙ ap (λ (r : JoinOutcome). find_user a.user r.0) (if_false _ _ _ secrets)
    ∙ ap (λ (t : Tables). find_first (is_user a.user) t.users) (tables-save_locked _)
    ∙ find_first-append (is_user a.user) s.users _ unknown
    ∙ if_true _ _ _ ((eq_iff a.user a.user).1 refl)

-- A user's salt and verifier once they are set, with the rest of the user's entry.
abbrev pub rekeyed : List ℕ → List ℕ → User → User
rekeyed salt verifier u = record u { salt = encode salt; verifier = encode verifier }

-- SetVerifier without an error has found the user, and leaves it with the new salt and verifier, in
-- memory and in the file.
pub set_verifier-find_user :
    (name : String) (salt verifier : List ℕ) (s : State)
    → (set_verifier name salt verifier s).1 ≡ none
    → (u : User) × (find_user name s ≡ some u)
      × (find_user name (set_verifier name salt verifier s).0 ≡ some (rekeyed salt verifier u))
      × IsSynced (set_verifier name salt verifier s).0
unfolding set_verifier
set_verifier-find_user name salt verifier s e = elim (Option-cases (find_user name s)) [
  | inl unknown ↦ let bad = rw (unknown, set_verifier) at e in absurd (cc bad)
  | inr (u, known) ↦
      let t : State = record s {
        users = modify_first (is_user name) (rekeyed salt verifier) s.users;
      } in
      let step : set_verifier name salt verifier s ≡ save_locked t =
        rw (known, set_verifier) refl in
      (
        u,
        known,
        ap (λ (o : Outcome). find_user name o.0) step
            ∙ ap (λ (k : Tables). find_first (is_user name) k.users) (tables-save_locked t)
            ∙ find_first-modify_first (is_user name) (rekeyed salt verifier) s.users u known
                (find_first-test (is_user name) s.users u known),
        subst (λ (o : Outcome). IsSynced o.0) (sym step)
            ((save_locked_lem t).0 (sym (ap (λ (o : Outcome). o.1) step) ∙ e)),
      )
]
