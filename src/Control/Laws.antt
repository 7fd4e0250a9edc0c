-- ===== src/Control/Laws.antt =====
-- internal/daemon/daemon.go: who may do what over the control socket.
use nz.Base.{
  ℕ, ◌≡◌, ◌≢◌, ◌⊎◌, inl, inr, refl, sym, subst, ap, ◌∙◌, arith, not, ◌&&◌, Option, none, some, ◌==◌,
  nat_eq, string_eq, eq_iff, Bool-cases, if_both, if_true, if_false,
}
use nz.Server.Model.{AdminRequest}
use nz.Node.Model.{Node}
use nz.Node.Waiting.{Pause}
use nz.Control.{
  Program, Request, Response, World, denied, needs_root, asked, ask_node, handle_list, handle,
}

-- The configuration, the store and the server are as before, and no node was started.
pub record Untouched (p t : Program) : Type 0 where
  pub cfg : t.cfg ≡ p.cfg
  pub st : t.st ≡ p.st
  pub srv : t.srv ≡ p.srv
  pub starts : t.starts ≡ p.starts

unchanged : (p : Program) → Untouched p p
unchanged p = record { cfg = refl; st = refl; srv = refl; starts = refl }

module _ (x : World) (w : Pause) where
  asked-Untouched :
      (r : AdminRequest) (n : Option Node) (p : Program) → Untouched p (asked x w r n p).0
  unfolding asked
  asked-Untouched r none p = unchanged p
  asked-Untouched r (some n) p = record { cfg = refl; st = refl; srv = refl; starts = refl }

  handle_list-Untouched : (now : ℕ) (p : Program) → Untouched p (handle_list x w now p).0
  unfolding handle_list ask_node
  handle_list-Untouched now p =
      if_both (λ (r : Program × Response). Untouched p r.0) (p.cfg.mode == "node") _ _
        (asked-Untouched (record { command = "users"; target = ""; to = "" }) p.active p)
        (unchanged p)

  -- A request that does not come from root leaves the configuration, the store and the server as they
  -- are and starts no node; and if it is not a list, it changes nothing at all and is refused.
  pub handle_no_root :
      (uid : ℕ) (r : Request) (now : ℕ) (p : Program)
      → uid ≢ 0
      → Untouched p (handle x w uid r now p).0
        × ((r.command ≡ "list") ⊎ (handle x w uid r now p ≡ (p, denied (needs_root uid))))
  unfolding handle
  handle_no_root uid r now p other = elim (Bool-cases (r.command == "list")) [
    | inr act ↦
        let refused : handle x w uid r now p ≡ (p, denied (needs_root uid)) =
          if_true (not (r.command == "list") && not (uid == 0)) _ _ (ground (arith, act, other)) in
        (
          subst (λ (t : Program × Response). Untouched p t.0) (sym refused) (unchanged p),
          inr refused,
        )
    | inl hit ↦
        let same : r.command ≡ "list" = (eq_iff r.command "list").0 hit in
        let listing : handle x w uid r now p ≡ handle_list x w now p =
          if_false (not (r.command == "list") && not (uid == 0)) _ _ (ground (arith, hit))
          ∙ if_false _ _ _ (ap (λ c. c == "reload") same)
          ∙ if_true _ _ _ hit in
        (
          subst (λ (t : Program × Response). Untouched p t.0) (sym listing)
              (handle_list-Untouched now p),
          inl same,
        )
  ]
