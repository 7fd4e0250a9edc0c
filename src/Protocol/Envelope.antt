-- ===== src/Protocol/Envelope.antt =====
-- internal/protocol/protocol.go: the outer envelope, version, type, length and body.
pub mod RoundTrip
use nz.Base.{
  ℕ, ◌+◌, ◌-◌, ◌*◌, ◌/◌, ◌%◌, ◌^◌, ◌<◌, ◌≡◌, refl, Bool, true, false, not, List, [], ◌∷◌, ◌++◌, ltb,
  ◌==◌, nat_eq, if◌then◌else◌, length, take, drop, get_or, All,
}

abbrev pub IsByte : ℕ → Type 0
IsByte b = b < 256

abbrev pub version : ℕ
version = 0x03

abbrev pub header_len : ℕ
header_len = 6

pub record Envelope : Type 0 where
  pub typ : ℕ
  pub body : List ℕ

pub data EnvelopeError : Type 0 where
  too_short : ℕ → EnvelopeError
  bad_version : ℕ → EnvelopeError
  bad_length : ℕ → ℕ → EnvelopeError

-- Go's (Envelope, error).
pub data Parsed : Type 0 where
  parsed : Envelope → Parsed
  failed : EnvelopeError → Parsed

-- `binary.BigEndian.PutUint32` of `uint32(n)`.
abbrev pub put_uint32 : ℕ → List ℕ
put_uint32 n = (n / 16777216 % 256) ∷ (n / 65536 % 256) ∷ (n / 256 % 256) ∷ (n % 256) ∷ []

-- `binary.BigEndian.Uint32` of the four bytes from index i.
abbrev pub uint32_at : List ℕ → ℕ → ℕ
uint32_at bytes i =
    ((get_or bytes i 0 * 256 + get_or bytes (i + 1) 0) * 256 + get_or bytes (i + 2) 0) * 256
    + get_or bytes (i + 3) 0

unfoldable pub marshal : Envelope → List ℕ
marshal env = version ∷ env.typ ∷ (put_uint32 (length env.body) ++ env.body)

unfoldable pub unmarshal : List ℕ → Parsed
unmarshal bytes =
    let body_len = uint32_at bytes 2 in
    let rest = length bytes - header_len in
    if ltb (length bytes) header_len
    then failed (too_short (length bytes))
    else if not (get_or bytes 0 0 == version)
    then failed (bad_version (get_or bytes 0 0))
    else if not (rest % 2 ^ 32 == body_len)
    then failed (bad_length rest body_len)
    else parsed (record { typ = get_or bytes 1 0; body = take body_len (drop header_len bytes) })
