-- ===== src/Identity/Stored.antt =====
-- internal/identity/identity.go: an identity as it is stored, its keys in use, and the fingerprint.
pub mod RoundTrip
use Prim.Native.Char.{Char}
use Prim.Native.String
use nz.Base.{
  ℕ, ◌/◌, ◌%◌, String, Bool, true, false, not, List, [], ◌∷◌, Option, none, some, ◌==◌, nat_eq,
  if◌then◌else◌, length, take,
}
use nz.Base64.{encode, decode}
use nz.State.Model.{IdentityData}
use nz.Protocol.Signed.{public_key_size, signature_size}

-- `ed25519.PrivateKeySize`
abbrev pub private_key_size : ℕ
private_key_size = 64

-- `ExchangeKeySize`
abbrev pub exchange_key_size : ℕ
exchange_key_size = 32

pub record Identity : Type 0 where
  pub sign_public : List ℕ
  pub sign_private : List ℕ
  pub exch_public : List ℕ
  pub exch_private : List ℕ

pub data KeyError : Type 0 where
  sign_public_key sign_private_key exch_public_key exch_private_key : KeyError

-- Go's (*Identity, error).
pub data Loaded : Type 0 where
  loaded : Identity → Loaded
  broken : KeyError → Loaded

-- `Parts`, as the state keeps them.
unfoldable pub parts : Identity → IdentityData
unfolding encode
parts id = record {
  sign_public = encode id.sign_public;
  sign_private = encode id.sign_private;
  exch_public = encode id.exch_public;
  exch_private = encode id.exch_private;
}

-- Bytes of the wanted number, or none.
sized : ℕ → Option (List ℕ) → Option (List ℕ)
sized n none = none
sized n (some bytes) = if length bytes == n then some bytes else none

-- The first key that is missing is the error.
rebuilt : Option (List ℕ) → Option (List ℕ) → Option (List ℕ) → Option (List ℕ) → Loaded
rebuilt none _ _ _ = broken sign_public_key
rebuilt (some _) none _ _ = broken sign_private_key
rebuilt (some _) (some _) none _ = broken exch_public_key
rebuilt (some _) (some _) (some _) none = broken exch_private_key
rebuilt (some sign_public) (some sign_private) (some exch_public) (some exch_private) =
    loaded (record {
      sign_public = sign_public;
      sign_private = sign_private;
      exch_public = exch_public;
      exch_private = exch_private;
    })

-- `accepts` says whether ecdh takes the bytes for a private key of X25519.
module _ (accepts : List ℕ → Bool) where
  accepted : Option (List ℕ) → Option (List ℕ)
  accepted none = none
  accepted (some bytes) = if accepts bytes then some bytes else none

  unfoldable pub from_parts : IdentityData → Loaded
  unfolding rebuilt sized accepted decode
  from_parts stored =
      rebuilt (sized public_key_size (decode stored.sign_public))
        (sized private_key_size (decode stored.sign_private))
        (sized exchange_key_size (decode stored.exch_public))
        (accepted (decode stored.exch_private))

-- `ecdh` is the key agreement of a private and a public key, `none` if the public key is bad, and
-- `derive` HKDF-SHA256 with the info "n0-session-v1", of which 32 bytes are read.
unfoldable pub shared_key :
    (List ℕ → List ℕ → Option (List ℕ)) → (List ℕ → List ℕ) → Identity → List ℕ → Option (List ℕ)
shared_key ecdh derive id peer = elim (ecdh id.exch_private peer) [
  | none ↦ none
  | some secret ↦ some (take 32 (derive secret))
]

abbrev digits : String
digits = "0123456789abcdef"

digit : ℕ → Char
digit n = String.char_at digits n

unfoldable pub hex : List ℕ → String
unfolding digit
hex [] = ""
hex (b ∷ bytes) = String.◌∷◌ (digit (b / 16)) (String.◌∷◌ (digit (b % 16)) (hex bytes))

-- The first four bytes of SHA-256.
unfoldable pub fingerprint : (List ℕ → List ℕ) → List ℕ → String
unfolding hex
fingerprint sha256 blob = hex (take 4 (sha256 blob))
