-- ===== src/Node/Waiting/Genuine.antt =====
-- internal/node/data.go: what a reply that passes the check of the server's signature is.
use nz.Base.{ℕ, ◌≡◌, refl, ap, subst, ◌∙◌, true, arith, List, Bool-cases, inl, inr}
use nz.Protocol.Envelope.{Envelope}
use nz.Protocol.Signed.{SignedMessage, SignedParse, signed, too_short, parse_signed, verify_signed}
use nz.Node.Model.{Node, Env, server_keys}
use nz.Node.Waiting.{genuine, checked, verify_server, from_server}

-- A message that the server has signed, in the body of an envelope.
pub record Signed (e : Env) (env : Envelope) (n : Node) (m : SignedMessage) : Type 0 where
  pub sig : List ℕ
  pub read : parse_signed env.body ≡ signed m sig
  pub verified : verify_signed e.crypto.verify m sig (server_keys n).0 ≡ true

module _ (e : Env) (env : Envelope) (n : Node) where
  genuine-checked :
      (r : SignedParse) (m : SignedMessage)
      → parse_signed env.body ≡ r
      → checked e r n ≡ genuine m
      → Signed e env n m
  unfolding checked verify_server
  genuine-checked (too_short _) m read result = ground arith
  genuine-checked (signed m' sig) m read result =
      elim (Bool-cases (verify_signed e.crypto.verify m' sig (server_keys n).0)) [
        | inl verified ↦
            let same : m' ≡ m = ground arith in
            record {
              sig = sig;
              read = read ∙ ap (λ m. signed m sig) same;
              verified =
                  subst (λ m. verify_signed e.crypto.verify m sig (server_keys n).0 ≡ true) same
                    verified;
            }
        | inr refused ↦ ground arith
      ]

  pub from_server-Signed : (m : SignedMessage) → from_server e env n ≡ genuine m → Signed e env n m
  unfolding from_server
  from_server-Signed m result = genuine-checked (parse_signed env.body) m refl result
