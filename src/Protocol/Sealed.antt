-- ===== src/Protocol/Sealed.antt =====
-- internal/protocol/signed.go, Seal and Open: the payload under XChaCha20-Poly1305.
use nz.Base.{
  ℕ, ◌≡◌, not, List, ◌++◌, Option, none, some, ltb, ◌==◌, nat_eq, if◌then◌else◌, length, take, drop,
  arith, length-append, take-append, drop-append,
}

-- `chacha20poly1305.NonceSizeX` and `KeySize`.
abbrev pub nonce_size : ℕ
nonce_size = 24

abbrev pub key_size : ℕ
key_size = 32

-- The cipher of golang.org/x/crypto: each takes a key, a nonce and a text.
pub record Aead : Type 0 where
  pub encrypt : List ℕ → List ℕ → List ℕ → List ℕ
  pub decrypt : List ℕ → List ℕ → List ℕ → Option (List ℕ)

pub data SealError : Type 0 where
  bad_key : SealError
  too_short : SealError
  forged : SealError

-- Go's ([]byte, error).
pub data SealResult : Type 0 where
  sealed : List ℕ → SealResult
  refused : SealError → SealResult

abbrev authentic : Option (List ℕ) → SealResult
authentic none = refused forged
authentic (some plain) = sealed plain

module _ (c : Aead) where
  -- `nonce` is what rand.Read gives.
  unfoldable pub seal : List ℕ → List ℕ → List ℕ → SealResult
  seal nonce key plain =
      if not (length key == key_size)
      then refused bad_key
      else sealed (nonce ++ c.encrypt key nonce plain)

  unfoldable pub unseal : List ℕ → List ℕ → SealResult
  unseal key blob =
      if ltb (length blob) nonce_size
      then refused too_short
      else if not (length key == key_size)
      then refused bad_key
      else authentic (c.decrypt key (take nonce_size blob) (drop nonce_size blob))

  -- What is sealed under a key of the right size, with a nonce of the right size, is opened by that
  -- key to the same text, if the cipher decrypts what it encrypts.
  pub unseal-seal :
      (nonce key plain blob : List ℕ)
      → length nonce ≡ nonce_size
      → c.decrypt key nonce (c.encrypt key nonce plain) ≡ some plain
      → seal nonce key plain ≡ sealed blob
      → unseal key blob ≡ sealed plain
  unfolding seal unseal
  unseal-seal nonce key plain blob h inverse e =
      ground (arith, length-append nonce (c.encrypt key nonce plain), front, back)
    where
      front : take nonce_size (nonce ++ c.encrypt key nonce plain) ≡ nonce
      front = rw (← h) (take-append nonce (c.encrypt key nonce plain))

      back : drop nonce_size (nonce ++ c.encrypt key nonce plain) ≡ c.encrypt key nonce plain
      back = rw (← h) (drop-append nonce (c.encrypt key nonce plain))
