-- ===== src/Server/Local/Laws.antt =====
-- internal/server/data.go: what reaches the local device.
use nz.Base.{
  ℕ, ◌≡◌, ◌⊎◌, refl, ap, ◌∙◌, if_false, inl, inr, true, not, List, [], ◌∷◌, ◌++◌, Option, none,
  some, Bool-cases,
}
use nz.State.Model.{Machine}
use nz.Protocol.Signed.{SignedMessage}
use nz.Protocol.Sealed.{SealResult, sealed, refused, unseal}
use nz.Server.Model.{Server, Env}
use nz.Server.Policy.{allow_relay, server_machine, machine_keys}
use nz.Server.Local.{local_data, open_with, opened}

-- What `localData` does with a packet that it lets through.
pub record Delivered (e : Env) (m : SignedMessage) (src : Machine) (s t : Server) : Type 0 where
  pub key : List ℕ
  pub plain : List ℕ
  pub permitted : allow_relay s src (server_machine s) ≡ true
  pub shared : e.crypto.shared_key (machine_keys src).1 ≡ some key
  pub decrypted : unseal e.crypto.aead key m.payload ≡ sealed plain
  pub written : t.written ≡ s.written ++ plain ∷ []

module _ (e : Env) (m : SignedMessage) (src : Machine) (s : Server) where
  deliver :
      (key : List ℕ) (r : SealResult)
      → unseal e.crypto.aead key m.payload ≡ r
      → allow_relay s src (server_machine s) ≡ true
      → e.crypto.shared_key (machine_keys src).1 ≡ some key
      → (opened e r s ≡ s) ⊎ Delivered e m src s (opened e r s)
  unfolding opened
  deliver key (refused _) d p k = inl refl
  deliver key (sealed plain) d p k = inr (record {
    key = key;
    plain = plain;
    permitted = p;
    shared = k;
    decrypted = d;
    written = refl;
  })

  open_all :
      (o : Option (List ℕ))
      → e.crypto.shared_key (machine_keys src).1 ≡ o
      → allow_relay s src (server_machine s) ≡ true
      → (open_with e m.payload o s ≡ s) ⊎ Delivered e m src s (open_with e m.payload o s)
  unfolding open_with
  open_all none k p = inl refl
  open_all (some key) k p = deliver key (unseal e.crypto.aead key m.payload) refl p k

  reached :
      allow_relay s src (server_machine s) ≡ true
      → s.has_tun ≡ true
      → local_data e m src s ≡ open_with e m.payload (e.crypto.shared_key (machine_keys src).1) s
  unfolding local_data
  reached hit with_tun = if_false _ _ _ (ap not hit) ∙ if_false _ _ _ (ap not with_tun)

  -- A packet for the server itself changes nothing, unless the sender may call the server and the
  -- payload opens under the key that the server shares with the sender; then the opened packet, and
  -- nothing else, is written to the local device.
  pub local_data-Delivered : (local_data e m src s ≡ s) ⊎ Delivered e m src s (local_data e m src s)
  unfolding local_data
  local_data-Delivered = elim (Bool-cases (allow_relay s src (server_machine s))) [
    | inr miss ↦ inl (rw (miss, local_data) refl)
    | inl hit ↦ elim (Bool-cases s.has_tun) [
      | inr without ↦ inl (rw (hit, without, local_data) refl)
      | inl with_tun ↦
          rw (reached hit with_tun) (open_all (e.crypto.shared_key (machine_keys src).1) refl hit)
    ]
  ]
