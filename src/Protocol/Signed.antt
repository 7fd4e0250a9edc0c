-- ===== src/Protocol/Signed.antt =====
-- internal/protocol/signed.go: the signed message between machines and the server.
pub mod Laws
use nz.Base.{
  ℕ, ◌+◌, ◌-◌, ◌<◌, ◌≡◌, Bool, true, false, not, ◌&&◌, ◌||◌, List, [], ◌∷◌, ◌++◌, ltb, ◌==◌, nat_eq,
  if◌then◌else◌, length, take, drop, get_or,
}
use nz.Netip.{Addr, invalid, v4, from_4, octet_0, octet_1, octet_2, octet_3}

-- `ed25519.SignatureSize` and `ed25519.PublicKeySize`.
abbrev pub signature_size : ℕ
signature_size = 64

abbrev pub public_key_size : ℕ
public_key_size = 32

abbrev pub sign_offset : ℕ
sign_offset = 1 + 4 + 4

pub record SignedMessage : Type 0 where
  pub typ : ℕ
  pub src_ip : Addr
  pub dst_ip : Addr
  pub payload : List ℕ

-- The zero Addr is written as 0.0.0.0.
abbrev pub addr4 : Addr → List ℕ
addr4 a = octet_0 a ∷ octet_1 a ∷ octet_2 a ∷ octet_3 a ∷ []

unfoldable pub sign_bytes : SignedMessage → List ℕ
sign_bytes m = m.typ ∷ (addr4 m.src_ip ++ (addr4 m.dst_ip ++ m.payload))

unfoldable pub marshal_signed : SignedMessage → (List ℕ → List ℕ) → List ℕ
unfolding sign_bytes
marshal_signed m sign = sign_bytes m ++ sign (sign_bytes m)

-- Go's (SignedMessage, []byte, error).
pub data SignedParse : Type 0 where
  signed : SignedMessage → List ℕ → SignedParse
  too_short : ℕ → SignedParse

abbrev addr_at : List ℕ → ℕ → Addr
addr_at bytes i =
    from_4 (get_or bytes i 0) (get_or bytes (i + 1) 0) (get_or bytes (i + 2) 0)
      (get_or bytes (i + 3) 0)

-- The message in the signed part of a datagram.
read_signed : List ℕ → SignedMessage
read_signed bytes = record {
  typ = get_or bytes 0 0;
  src_ip = addr_at bytes 1;
  dst_ip = addr_at bytes 5;
  payload = drop sign_offset bytes;
}

unfoldable pub parse_signed : List ℕ → SignedParse
unfolding read_signed
parse_signed bytes =
    let n = length bytes - signature_size in
    if ltb (length bytes) (sign_offset + signature_size)
    then too_short (length bytes)
    else signed (read_signed (take n bytes)) (drop n bytes)

-- `verify` is ed25519.Verify of a public key, a text and a signature.
unfoldable pub verify_signed :
    (List ℕ → List ℕ → List ℕ → Bool) → SignedMessage → List ℕ → List ℕ → Bool
unfolding sign_bytes
verify_signed verify m sig sign_pub =
    if not (length sign_pub == public_key_size) || not (length sig == signature_size)
    then false
    else verify sign_pub (sign_bytes m) sig

-- `netip.Addr.AsSlice`: a valid address is four bytes, the zero Addr none.
unfoldable pub peer_query_payload : Addr → List ℕ
peer_query_payload invalid = []
peer_query_payload (v4 n) = addr4 (v4 n)

-- Go's (netip.Addr, error).
pub data QueryParse : Type 0 where
  target : Addr → QueryParse
  bad_size : ℕ → QueryParse

unfoldable pub parse_peer_query : List ℕ → QueryParse
parse_peer_query payload =
    if not (length payload == 4) then bad_size (length payload) else target (addr_at payload 0)
