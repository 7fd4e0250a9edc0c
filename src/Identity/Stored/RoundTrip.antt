-- ===== src/Identity/Stored/RoundTrip.antt =====
-- internal/identity/identity.go: an identity, stored and read.
use nz.Base.{
  ℕ, ◌≡◌, ◌<◌, refl, ap, ◌∙◌, Bool, true, List, some, arith, ◌==◌, nat_eq, length, All, if_true,
}
use nz.Base64.{encode, decode}
use nz.Base64.RoundTrip.{decode-encode}
use nz.Protocol.Signed.{public_key_size}
use nz.Identity.Stored.{
  Identity, loaded, private_key_size, exchange_key_size, parts, from_parts, sized, accepted,
  rebuilt,
}

-- The keys are bytes, of the sizes that the packages give them.
pub record IsWhole (id : Identity) : Type 0 where
  pub sign_public : length id.sign_public ≡ public_key_size
  pub sign_private : length id.sign_private ≡ private_key_size
  pub exch_public : length id.exch_public ≡ exchange_key_size
  pub bytes :
      All (λ b. b < 256) id.sign_public
      × All (λ b. b < 256) id.sign_private
      × All (λ b. b < 256) id.exch_public
      × All (λ b. b < 256) id.exch_private

sized-encode :
    (n : ℕ) (bytes : List ℕ)
    → length bytes ≡ n
    → All (λ b. b < 256) bytes
    → sized n (decode (encode bytes)) ≡ some bytes
unfolding sized
sized-encode n bytes size h =
    ap (sized n) (decode-encode bytes h) ∙ if_true (length bytes == n) _ _ (ground (arith, size))

-- An identity of whole keys, stored as its parts, is rebuilt from them, if its private exchange key is
-- one that the key agreement takes.
pub from_parts-parts :
    (accepts : List ℕ → Bool) (id : Identity)
    → IsWhole id
    → accepts id.exch_private ≡ true
    → from_parts accepts (parts id) ≡ loaded id
unfolding from_parts parts accepted rebuilt
from_parts-parts accepts id h taken =
    rw
      (
        sized-encode public_key_size id.sign_public h.sign_public h.bytes.0,
        sized-encode private_key_size id.sign_private h.sign_private h.bytes.1,
        sized-encode exchange_key_size id.exch_public h.exch_public h.bytes.2,
        decode-encode id.exch_private h.bytes.3,
        taken,
        from_parts,
        rebuilt,
        accepted,
      )
      refl
