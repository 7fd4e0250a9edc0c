-- ===== src/Server/Joining/Laws.antt =====
-- internal/server/server.go: what a join message needs to change the store.
use nz.Base.{
  ℕ, ◌≡◌, ◌⊎◌, inl, inr, refl, true, arith, List, Option, none, some, string_eq, lookup, Bool-cases,
  Option-cases,
}
use nz.Netip.{AddrPort}
use nz.State.Model.{User, find_user}
use nz.Protocol.Proof.{verify_proof}
use nz.Server.Model.{Server, Env, JoinProof, JoinReply, no_challenge, proof_failed, unknown_user}
use nz.Server.Sending.{
  join_key, send_join_reply, send_envelope, send_raw, remember_reply, remember_ip_endpoint,
}
use nz.Server.Joining.{rejected, join_proof, check_proof, decode_verifier}

-- What the server must know and have been shown before a proof changes its store.
pub record Proved (e : Env) (p : JoinProof) (s : Server) : Type 0 where
  pub user : User
  pub nonce : List ℕ
  pub found : find_user p.user s.st ≡ some user
  pub asked : lookup (join_key p.user p.machine) s.nonces ≡ some nonce
  pub verified :
      verify_proof e.crypto.hmac (decode_verifier user) p.proof nonce p.user p.machine p.public
      ≡ true

module _ (e : Env) where
  -- A reply changes nothing but the socket and the remembered endpoints.
  pub send_join_reply-st :
      (addr : AddrPort) (r : JoinReply) (s : Server) → (send_join_reply e addr r s).st ≡ s.st
  unfolding send_join_reply send_envelope send_raw remember_reply remember_ip_endpoint
  send_join_reply-st addr r s = ground arith

  check_proof-verified :
      (p : JoinProof) (u : User) (o : Option (List ℕ)) (remote : AddrPort) (now : ℕ) (s : Server)
      → ((check_proof e p u o remote now s).st ≡ s.st)
        ⊎ ((nonce : List ℕ) × ((o ≡ some nonce)
              × (verify_proof e.crypto.hmac
                    (decode_verifier u)
                    p.proof
                    nonce
                    p.user
                    p.machine
                    p.public
                  ≡ true)))
  unfolding check_proof
  check_proof-verified p u none remote now s =
      inl (send_join_reply-st remote (rejected no_challenge) s)
  check_proof-verified p u (some nonce) remote now s =
      elim (Bool-cases
        (verify_proof e.crypto.hmac (decode_verifier u) p.proof nonce p.user p.machine p.public)) [
          | inl hit ↦ inr (nonce, (refl, hit))
          | inr miss ↦ inl (rw miss (send_join_reply-st remote (rejected proof_failed) s))
        ]

  -- The store stays as it was unless the user of the message is known, a challenge for the pair of user
  -- and machine is open, and the proof answers that challenge under the user's verifier.
  pub join_proof-Proved :
      (p : JoinProof) (remote : AddrPort) (now : ℕ) (s : Server)
      → ((join_proof e p remote now s).st ≡ s.st) ⊎ Proved e p s
  unfolding join_proof
  join_proof-Proved p remote now s = elim (Option-cases (find_user p.user s.st)) [
    | inl e' ↦ inl (rw (e', join_proof) (send_join_reply-st remote (rejected unknown_user) s))
    | inr (u, found) ↦
        elim (check_proof-verified p u (lookup (join_key p.user p.machine) s.nonces) remote now _) [
          | inl same ↦ inl (rw (found, join_proof) same)
          | inr (nonce, (asked, verified)) ↦ inr (record {
            user = u;
            nonce = nonce;
            found = found;
            asked = asked;
            verified = verified;
          })
        ]
  ]
