-- ===== src/Protocol/Answer.antt =====
-- internal/protocol/signed.go: the answer to a discovery request.
pub mod RoundTrip
use nz.Base.{
  ℕ, ◌+◌, ◌*◌, ◌/◌, ◌%◌, ◌<◌, ◌≡◌, Bool, true, false, not, List, [], ◌∷◌, ◌++◌, ltb, ◌==◌, nat_eq,
  if◌then◌else◌, length, take, drop, get_or,
}
use nz.Netip.{Addr, invalid, v4, AddrPort, from_4}
use nz.Protocol.Signed.{addr4, public_key_size}

-- `PublicBlobSize`.
abbrev pub public_blob_size : ℕ
public_blob_size = public_key_size + 32

pub record PeerAnswer : Type 0 where
  pub found : Bool
  pub has_addr : Bool
  pub can_call : Bool
  pub can_call_back : Bool
  pub addr : AddrPort
  pub sign_pub : List ℕ
  pub exch_pub : List ℕ

abbrev pub no_endpoint : AddrPort
no_endpoint = record { addr = invalid; port = 0 }

-- `PeerAnswer{Found: false}`
abbrev pub not_found : PeerAnswer
not_found = record {
  found = false;
  has_addr = false;
  can_call = false;
  can_call_back = false;
  addr = no_endpoint;
  sign_pub = [];
  exch_pub = [];
}

abbrev bool_byte : Bool → ℕ
bool_byte true = 1
bool_byte false = 0

endpoint_bytes : PeerAnswer → List ℕ
endpoint_bytes a =
    if a.has_addr
    then addr4 a.addr.addr ++ (a.addr.port / 256 % 256) ∷ (a.addr.port % 256) ∷ []
    else []

unfoldable pub marshal_peer_answer : PeerAnswer → List ℕ
unfolding endpoint_bytes
marshal_peer_answer a =
    if not a.found
    then 0 ∷ []
    else 1
      ∷ bool_byte a.has_addr
      ∷ bool_byte a.can_call
      ∷ bool_byte a.can_call_back
      ∷ (endpoint_bytes a ++ (a.sign_pub ++ a.exch_pub))

-- Go's (PeerAnswer, error).
pub data AnswerParse : Type 0 where
  answer : PeerAnswer → AnswerParse
  too_short : AnswerParse
  bad_size : ℕ → AnswerParse

-- The check of the length and the keys, from `offset` on.
read_keys : List ℕ → ℕ → AddrPort → AnswerParse
read_keys payload offset addr =
    if not (length payload == offset + public_blob_size)
    then bad_size (length payload)
    else answer (record {
      found = true;
      has_addr = get_or payload 1 0 == 1;
      can_call = get_or payload 2 0 == 1;
      can_call_back = get_or payload 3 0 == 1;
      addr = addr;
      sign_pub = take public_key_size (drop offset payload);
      exch_pub = drop (offset + public_key_size) payload;
    })

abbrev endpoint_at : List ℕ → AddrPort
endpoint_at payload = record {
  addr = from_4 (get_or payload 4 0) (get_or payload 5 0) (get_or payload 6 0) (get_or payload 7 0);
  port = get_or payload 8 0 * 256 + get_or payload 9 0;
}

unfoldable pub parse_peer_answer : List ℕ → AnswerParse
unfolding read_keys
parse_peer_answer payload =
    if ltb (length payload) 1
    then too_short
    else if get_or payload 0 0 == 0
    then answer not_found
    else if ltb (length payload) 4
    then too_short
    else if get_or payload 1 0 == 1
    then (if ltb (length payload) (4 + 4 + 2 + public_blob_size)
        then bad_size (length payload)
        else read_keys payload 10 (endpoint_at payload))
    else read_keys payload 4 no_endpoint
