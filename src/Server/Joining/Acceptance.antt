-- ===== src/Server/Joining/Acceptance.antt =====
-- internal/server/server.go: what lets a machine pass the two steps of a join.
use nz.Base.{
  ◌<◌, ◌≢◌, subst, All, Bool-cases, inl, inr, ℕ, String, ◌≡◌, refl, sym, ap, ◌∙◌, false, not, ◌||◌,
  arith, List, ◌∷◌, Option, none, some, ◌==◌, string_eq, eq_iff, if_true, if_false, lookup, insert,
  erase, lookup-insert,
}
use nz.Base64.{encode, decode}
use nz.Base64.RoundTrip.{decode-encode}
use nz.Server.Policy.{decode_b64}
use nz.Netip.{AddrPort}
use nz.State.Model.{User, UserStatus, find_user}
use nz.State.Join.{JoinArgs, JoinOutcome, register_join, new_user}
use nz.State.Join.Registering.{register_join-find_user}
use nz.Server.Model.{Server, Env, JoinRequest, JoinProof, unknown_user, store_error}
use nz.Server.Sending.{join_key, remember_endpoint, send_envelope, send_raw, send_join_reply}
use nz.Server.Joining.{
  request_args, proof_args, join_request, answer_registration, challenge, join_proof, check_proof,
  complete_join, decode_verifier, key_string, bytes_of, is_empty, rejected, reply_with, text_of,
}
use nz.Server.Joining.Laws.{Proved, send_join_reply-st}

-- The request names a user, a machine and a key.
unfoldable pub IsComplete : JoinRequest → Type 0
IsComplete r = (r.user == "" || r.machine == "" || is_empty r.public) ≡ false

-- It brings a salt and a verifier.
unfoldable pub HasSecrets : JoinRequest → Type 0
HasSecrets r = (is_empty r.salt || is_empty r.verifier) ≡ false

not_blank : (b : ℕ) (bytes : List ℕ) → decode "" ≢ some (b ∷ bytes)
unfolding decode
not_blank b bytes e = cc

-- At least one byte, encoded as the text of a key or a verifier, is decoded to the same bytes.
pub decode_b64-key_string :
    (b : ℕ) (bytes : List ℕ)
    → All (λ b. b < 256) (b ∷ bytes)
    → decode_b64 (key_string (b ∷ bytes)) ≡ some (b ∷ bytes)
unfolding decode_b64
decode_b64-key_string b bytes h = elim (Bool-cases (encode (b ∷ bytes) == "")) [
  | inr other ↦ if_false _ _ _ other ∙ decode-encode (b ∷ bytes) h
  | inl blank ↦
      let read : decode "" ≡ some (b ∷ bytes) =
        ap decode (sym ((eq_iff (encode (b ∷ bytes)) "").0 blank)) ∙ decode-encode (b ∷ bytes) h in
      absurd (not_blank b bytes read)
]

-- The verifier that a new user brings is the one that is read from the store later.
pub decode_verifier-new_user :
    (name : String) (salt verifier : List ℕ) (status : UserStatus) (now b : ℕ) (bytes : List ℕ)
    → verifier ≡ b ∷ bytes
    → All (λ b. b < 256) verifier
    → decode_verifier (new_user name salt verifier status now) ≡ verifier
unfolding decode_verifier
decode_verifier-new_user name salt verifier status now b bytes given h = ap bytes_of (
    ap (λ v. decode_b64 (encode v)) given
    ∙ decode_b64-key_string b bytes (subst (All (λ b. b < 256)) given h)
    ∙ ap (λ v. some v) (sym given))

module _ (e : Env) where
  answer_registration-st :
      (remote : AddrPort) (r : JoinOutcome) (s : Server)
      → (answer_registration e remote r s).st ≡ r.0
  unfolding answer_registration
  answer_registration-st remote (st, status, some failure) s =
      send_join_reply-st e remote (rejected (store_error failure)) (record s { st = st })
  answer_registration-st remote (st, status, none) s =
      send_join_reply-st e remote (reply_with (text_of status)) (record s { st = st })

  pub join_request-registers :
      (r : JoinRequest) (remote : AddrPort) (now : ℕ) (random : Option (List ℕ)) (s : Server)
      → IsComplete r
      → find_user r.user s.st ≡ none
      → HasSecrets r
      → find_user r.user (join_request e r remote now random s).st
        ≡ some (new_user r.user r.salt r.verifier UserStatus.pending now)
  unfolding IsComplete HasSecrets join_request remember_endpoint
  join_request-registers r remote now random s complete unknown secrets =
      let s' : Server = remember_endpoint r.user r.machine remote s in
      let request : JoinArgs = request_args e r in
      ap (λ (t : Server). find_user r.user t.st) (if_false _ _ _ complete)
      ∙ ap
          (λ (o : Option User).
            let t : Server = elim o [
              | none ↦ answer_registration e remote (register_join request now s'.st) s'
              | some u ↦ challenge e r remote random s'
            ] in
            find_user r.user t.st)
          unknown
      ∙ ap (find_user r.user) (answer_registration-st remote (register_join request now s'.st) s')
      ∙ register_join-find_user request now s.st unknown secrets

  challenge-keeps :
      (r : JoinRequest) (remote : AddrPort) (nonce : List ℕ) (s : Server)
      → ((challenge e r remote (some nonce) s).st ≡ s.st)
        × ((challenge e r remote (some nonce) s).nonces
            ≡ insert (join_key r.user r.machine) nonce s.nonces)
  unfolding challenge send_envelope send_raw
  challenge-keeps r remote nonce s = ground arith

  pub join_request-challenges :
      (r : JoinRequest) (u : User) (remote : AddrPort) (now : ℕ) (nonce : List ℕ) (s : Server)
      → IsComplete r
      → find_user r.user s.st ≡ some u
      → (find_user r.user (join_request e r remote now (some nonce) s).st ≡ some u)
        × (lookup (join_key r.user r.machine) (join_request e r remote now (some nonce) s).nonces
            ≡ some nonce)
  unfolding IsComplete join_request remember_endpoint challenge send_envelope send_raw
  join_request-challenges r u remote now nonce s complete known =
      let s' : Server = remember_endpoint r.user r.machine remote s in
      let asked : join_request e r remote now (some nonce) s
          ≡ challenge e r remote (some nonce) s' =
        if_false _ _ _ complete
        ∙ ap
            (λ (o : Option User).
              let t : Server = elim o [
                | none ↦
                    answer_registration e remote (register_join (request_args e r) now s'.st) s'
                | some u ↦ challenge e r remote (some nonce) s'
              ] in
              t)
            known in
      (
        ap (λ (t : Server). find_user r.user t.st) asked
            ∙ ap (find_user r.user) (challenge-keeps r remote nonce s').0
            ∙ known,
        ap (λ (t : Server). lookup (join_key r.user r.machine) t.nonces) asked
            ∙ ap (lookup (join_key r.user r.machine)) (challenge-keeps r remote nonce s').1
            ∙ lookup-insert (join_key r.user r.machine) (join_key r.user r.machine) nonce s.nonces
            ∙ if_true _ _ _
                ((eq_iff (join_key r.user r.machine) (join_key r.user r.machine)).1 refl),
      )

  -- A proof under the stored verifier, for the open challenge, is accepted: the join is registered.
  pub join_proof-accepts :
      (p : JoinProof) (remote : AddrPort) (now : ℕ) (s : Server)
      → Proved e p s
      → (let s' =
            remember_endpoint p.user p.machine remote
              (record s { nonces = erase (join_key p.user p.machine) s.nonces }) in
          join_proof e p remote now s
          ≡ complete_join e p remote (register_join (proof_args e p) now s.st) s')
  unfolding join_proof check_proof remember_endpoint
  join_proof-accepts p remote now s h =
      let s' : Server = record s { nonces = erase (join_key p.user p.machine) s.nonces } in
      ap
        (λ (o : Option User).
          let t : Server = elim o [
            | none ↦ send_join_reply e remote (rejected unknown_user) s
            | some u ↦ check_proof e p u (lookup (join_key p.user p.machine) s.nonces) remote now s'
          ] in
          t)
        h.found
      ∙ ap (λ o. check_proof e p h.user o remote now s') h.asked
      ∙ if_false _ _ _ (ap not h.verified)
