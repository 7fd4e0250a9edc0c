-- ===== src/Identity.antt =====
-- internal/identity/identity.go: the public blob of a machine and its fingerprint's input.
pub mod Stored
use nz.Base.{
  ℕ, ◌≡◌, not, List, ◌++◌, Option, none, some, ◌==◌, nat_eq, if◌then◌else◌, length, take, drop,
  arith, length-append, take-append, drop-append,
}
use nz.Protocol.Signed.{public_key_size}
use nz.Protocol.Answer.{public_blob_size}

unfoldable pub public_blob : List ℕ → List ℕ → List ℕ
public_blob sign_public exch_public = sign_public ++ exch_public

-- Go's ([]byte, []byte, error).
unfoldable pub split_public : List ℕ → Option (List ℕ × List ℕ)
split_public blob =
    if not (length blob == public_blob_size)
    then none
    else some (take public_key_size blob, drop public_key_size blob)

-- SplitPublic gives back the two keys that PublicBlob joined, for keys of 32 bytes.
pub split_public-public_blob :
    (sign_public exch_public : List ℕ)
    → length sign_public ≡ 32
    → length exch_public ≡ 32
    → split_public (public_blob sign_public exch_public) ≡ some (sign_public, exch_public)
unfolding split_public public_blob
split_public-public_blob xs ys h k = ground (arith, length-append xs ys, front, back)
  where
    front : take 32 (xs ++ ys) ≡ xs
    front = rw (← h) (take-append xs ys)

    back : drop 32 (xs ++ ys) ≡ ys
    back = rw (← h) (drop-append xs ys)
