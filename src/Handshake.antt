-- ===== src/Handshake.antt =====
-- internal/node/node.go and internal/server/server.go together: the join of a new user's first machine.
use nz.Base.{ℕ, ◌≡◌, ◌<◌, refl, ap, ◌∙◌, true, List, ◌∷◌, Option, none, some, string_eq, erase, All}
use nz.Netip.{AddrPort}
use nz.State.Model.{User, UserStatus, find_user}
use nz.State.Join.{register_join, new_user}
use nz.Protocol.Proof.{bytes_beq, bytes_beq_iff, proof, verify_proof}
use nz.Server.Model
use nz.Server.Model.{Server, JoinRequest, JoinProof}
use nz.Server.Sending.{join_key, remember_endpoint}
use nz.Server.Joining.{join_request, join_proof, complete_join, proof_args}
use nz.Server.Joining.Laws.{Proved}
use nz.Server.Joining.Acceptance.{
  IsComplete, HasSecrets, decode_verifier-new_user, join_request-registers, join_request-challenges,
  join_proof-accepts,
}
use nz.Daemon.{user_salt}
use nz.Node.Model.{Node, Env}
use nz.Node.Joining.{own_verifier, own_request, own_proof}

own_proof-verified :
    (e : Env) (hmac : List ℕ → List ℕ → List ℕ) (nonce : List ℕ) (n : Node)
    → e.crypto.hmac ≡ hmac
    → verify_proof hmac
        (own_verifier e n)
        (own_proof e nonce n).proof
        nonce
        n.cfg.user
        n.cfg.name
        e.crypto.blob
      ≡ true
unfolding verify_proof
own_proof-verified e hmac nonce n same =
    ap
      (λ (f : List ℕ → List ℕ → List ℕ).
        bytes_beq (proof f (own_verifier e n) nonce n.cfg.user n.cfg.name e.crypto.blob)
          (proof hmac (own_verifier e n) nonce n.cfg.user n.cfg.name e.crypto.blob))
      same
    ∙ (bytes_beq_iff (proof hmac (own_verifier e n) nonce n.cfg.user n.cfg.name e.crypto.blob)
          (proof hmac (own_verifier e n) nonce n.cfg.user n.cfg.name e.crypto.blob)).1
        refl

secrets_given :
    (e : Env) (n : Node) (b : ℕ) (bytes : List ℕ)
    → own_verifier e n ≡ b ∷ bytes
    → HasSecrets (own_request e n)
unfolding user_salt HasSecrets
secrets_given e n b bytes given = rw given refl

-- A server that does not know the user of a node gets the node's request twice, the second time with a
-- challenge to send, and then the node's proof for that challenge. If the request names a user, a machine
-- and a key, if the node's verifier is a list of at least one byte, and if both sides compute the same
-- MAC, then the proof meets every condition of the server, and the server registers the join with it.
pub handshake_accepted :
    (e : Env) (es : Model.Env) (n : Node) (s : Server) (first second third : AddrPort) (t u v : ℕ)
    (random : Option (List ℕ)) (nonce : List ℕ) (b : ℕ) (bytes : List ℕ)
    → IsComplete (own_request e n)
    → own_verifier e n ≡ b ∷ bytes
    → All (λ b. b < 256) (own_verifier e n)
    → e.crypto.hmac ≡ es.crypto.hmac
    → find_user n.cfg.user s.st ≡ none
    → (let s1 = join_request es (own_request e n) first t random s in
        let s2 = join_request es (own_request e n) second u (some nonce) s1 in
        let p = own_proof e nonce n in
        let s3 = record s2 { nonces = erase (join_key p.user p.machine) s2.nonces } in
        Proved es p s2
        × (join_proof es p third v s2
            ≡ complete_join es p third
                (register_join (proof_args es p) v s2.st)
                (remember_endpoint p.user p.machine third s3)))
handshake_accepted e es n s first second third t u v random nonce b bytes complete given small same
      unknown =
    let s1 : Server = join_request es (own_request e n) first t random s in
    let s2 : Server = join_request es (own_request e n) second u (some nonce) s1 in
    let user : User =
      new_user n.cfg.user (user_salt n.cfg.user) (own_verifier e n) UserStatus.pending t in
    let registered : find_user n.cfg.user s1.st ≡ some user =
      join_request-registers es (own_request e n) first t random s complete unknown
        (secrets_given e n b bytes given) in
    let asked =
      join_request-challenges es (own_request e n) user second u nonce s1 complete registered in
    let proved : Proved es (own_proof e nonce n) s2 = record {
      user = user;
      nonce = nonce;
      found = asked.0;
      asked = asked.1;
      verified =
          ap
            (λ verifier.
              verify_proof es.crypto.hmac verifier (own_proof e nonce n).proof nonce n.cfg.user
                n.cfg.name e.crypto.blob)
            (decode_verifier-new_user n.cfg.user (user_salt n.cfg.user) (own_verifier e n)
              UserStatus.pending t b bytes given small)
          ∙ own_proof-verified e es.crypto.hmac nonce n same;
    } in
    (proved, join_proof-accepts es (own_proof e nonce n) third v s2 proved)
