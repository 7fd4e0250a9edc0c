-- ===== src/Node/Waiting.antt =====
-- internal/node/node.go and data.go: the channels, a wait, and the check of the server's signature.
pub mod Genuine
pub mod Keys
use nz.Base.{ℕ, Bool, List, Option, none, some, if◌then◌else◌}
use nz.Protocol.Envelope.{Envelope}
use nz.Protocol.Signed.{SignedMessage, SignedParse, signed, too_short, parse_signed, verify_signed}
use nz.Node.Model.{Node, Env, server_keys}

-- A wait: what the other goroutines do to the node before it ends, and the time at its end.
pub record Pause : Type 0 where
  pub others : Node → Node
  pub until : ℕ

-- `deliver`: a channel that is full drops the envelope.
unfoldable pub deliver : Option Envelope → Envelope → Option Envelope
deliver none env = some env
deliver (some old) env = some old

-- `waitEnvelope` on the channel that `get` reads and `clear` empties: an envelope that is there is
-- taken at once, else the one that the others leave; `none` is the timeout.
unfoldable pub wait_envelope :
    (Node → Option Envelope) → (Node → Node) → Pause → Node → Node × Option Envelope
wait_envelope get clear w n = elim (get n) [
  | some env ↦ (clear n, some env)
  | none ↦
      (let n' = w.others n in elim (get n') [ some env ↦ (clear n', some env) | none ↦ (n', none) ])
]

abbrev pub wait_query : Pause → Node → Node × Option Envelope
wait_query = wait_envelope (λ n. n.query_reply) (λ n. record n { query_reply = none })

abbrev pub wait_join : Pause → Node → Node × Option Envelope
wait_join = wait_envelope (λ n. n.join_reply) (λ n. record n { join_reply = none })

abbrev pub wait_approve : Pause → Node → Node × Option Envelope
wait_approve = wait_envelope (λ n. n.approve) (λ n. record n { approve = none })

abbrev pub wait_list : Pause → Node → Node × Option Envelope
wait_list = wait_envelope (λ n. n.list_reply) (λ n. record n { list_reply = none })

abbrev pub wait_admin : Pause → Node → Node × Option Envelope
wait_admin = wait_envelope (λ n. n.admin_reply) (λ n. record n { admin_reply = none })

-- `serverAuthFailed`
abbrev pub server_auth_failed : Node → Node
server_auth_failed n = record n { last_server_seen = 0 }

-- What ParseSigned and the check of the server's signature make of a reply.
pub data FromServer : Type 0 where
  genuine : SignedMessage → FromServer
  forged unreadable : FromServer

module _ (e : Env) where
  unfoldable pub verify_server : SignedMessage → List ℕ → Node → Bool
  unfolding verify_signed server_keys
  verify_server m sig n = verify_signed e.crypto.verify m sig (server_keys n).0

  checked : SignedParse → Node → FromServer
  unfolding verify_server
  checked (too_short _) n = unreadable
  checked (signed m sig) n = if verify_server m sig n then genuine m else forged

  unfoldable pub from_server : Envelope → Node → FromServer
  unfolding checked parse_signed
  from_server env n = checked (parse_signed env.body) n
