-- ===== src/Node/Waiting/Keys.antt =====
-- internal/node/node.go and data.go: a reply and the server's keys.
use nz.Base.{ℕ, ◌≡◌, refl, ap, List, if◌then◌else◌}
use nz.Protocol.Envelope.{Envelope}
use nz.Protocol.Signed.{SignedParse, signed, too_short, parse_signed, verify_signed}
use nz.Node.Model.{Node, Env, server_keys}
use nz.Node.Waiting.{genuine, forged, checked, from_server}

module _ (e : Env) (n t : Node) (same : server_keys t ≡ server_keys n) where
  checked-keys : (p : SignedParse) → checked e p t ≡ checked e p n
  unfolding checked
  checked-keys (too_short _) = refl
  checked-keys (signed m sig) =
      ap
        (λ (k : List ℕ × List ℕ).
          if verify_signed e.crypto.verify m sig k.0 then genuine m else forged)
        same

  pub from_server-keys : (env : Envelope) → from_server e env t ≡ from_server e env n
  unfolding from_server
  from_server-keys env = checked-keys (parse_signed env.body)
