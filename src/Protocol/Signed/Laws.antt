-- ===== src/Protocol/Signed/Laws.antt =====
-- internal/protocol/signed.go: the signed bytes and the parsed message.
use nz.Base.{
  ℕ, zero, suc, ◌+◌, ◌-◌, ◌≤◌, ◌≡◌, ap, ◌∙◌, false, List, [], ◌∷◌, ◌++◌, ltb, nat_eq, length, take,
  drop, All, arith, drop-append, take-append, take-append-drop, length-append, length-take,
  length-drop,
}
use nz.Netip.{Addr, invalid, v4, from_4, octet_0, octet_1, octet_2, octet_3, IsAddr}
use nz.Protocol.Envelope.{IsByte}
use nz.Protocol.Signed.{
  SignedMessage, signed, sign_bytes, marshal_signed, parse_signed, read_signed, signature_size,
  sign_offset, peer_query_payload, parse_peer_query, target,
}

octets : (a : Addr) → IsAddr a → from_4 (octet_0 a) (octet_1 a) (octet_2 a) (octet_3 a) ≡ a
octets invalid h = absurd h
octets (v4 n) h = ap v4 (omega arith)

read_signed-sign_bytes :
    (m : SignedMessage) → IsAddr m.src_ip → IsAddr m.dst_ip → read_signed (sign_bytes m) ≡ m
unfolding read_signed sign_bytes
read_signed-sign_bytes m hs hd = λ i. record {
  typ = m.typ;
  src_ip = octets m.src_ip hs i;
  dst_ip = octets m.dst_ip hd i;
  payload = m.payload;
}

split_signed :
    (xs sig : List ℕ)
    → length sig ≡ signature_size
    → 9 ≤ length xs
    → parse_signed (xs ++ sig) ≡ signed (read_signed xs) sig
unfolding parse_signed
split_signed xs sig h l =
    let n : length (xs ++ sig) - signature_size ≡ length xs = omega (arith, length-append xs sig) in
    let enough : ltb (length (xs ++ sig)) (sign_offset + signature_size) ≡ false =
      ground (arith, length-append xs sig) in
    rw (n, enough, take-append xs sig, drop-append xs sig)

-- A signed message between valid addresses is read back, with its signature, if signatures have the
-- size of ed25519's.
pub parse_signed-marshal_signed :
    (m : SignedMessage) (sign : List ℕ → List ℕ)
    → IsAddr m.src_ip
    → IsAddr m.dst_ip
    → length (sign (sign_bytes m)) ≡ signature_size
    → parse_signed (marshal_signed m sign) ≡ signed m (sign (sign_bytes m))
unfolding marshal_signed
parse_signed-marshal_signed m sign hs hd h =
    split_signed (sign_bytes m) (sign (sign_bytes m)) h (unfold sign_bytes in omega arith)
    ∙ ap (λ r. signed r (sign (sign_bytes m))) (read_signed-sign_bytes m hs hd)

from_4-octets :
    (a b c d : ℕ)
    → IsByte a
    → IsByte b
    → IsByte c
    → IsByte d
    → let n = from_4 a b c d in
      (octet_0 n ≡ a) × (octet_1 n ≡ b) × (octet_2 n ≡ c) × (octet_3 n ≡ d)
from_4-octets a b c d ha hb hc hd = (omega arith, omega arith, omega arith, omega arith)

sign_bytes-read_signed :
    (xs : List ℕ) → All IsByte xs → 9 ≤ length xs → sign_bytes (read_signed xs) ≡ xs
unfolding sign_bytes read_signed
sign_bytes-read_signed (t ∷ a ∷ b ∷ c ∷ d ∷ e ∷ f ∷ g ∷ h ∷ rest)
      (_, (ha, (hb, (hc, (hd, (he, (hf, (hg, (hh, _))))))))) l =
    let (a', b', c', d') = from_4-octets a b c d ha hb hc hd in
    let (e', f', g', h') = from_4-octets e f g h he hf hg hh in
    λ i. t ∷ a' i ∷ b' i ∷ c' i ∷ d' i ∷ e' i ∷ f' i ∷ g' i ∷ h' i ∷ rest
sign_bytes-read_signed [] k l = absurd (omega arith)
sign_bytes-read_signed (_ ∷ []) k l = absurd (omega arith)
sign_bytes-read_signed (_ ∷ _ ∷ []) k l = absurd (omega arith)
sign_bytes-read_signed (_ ∷ _ ∷ _ ∷ []) k l = absurd (omega arith)
sign_bytes-read_signed (_ ∷ _ ∷ _ ∷ _ ∷ []) k l = absurd (omega arith)
sign_bytes-read_signed (_ ∷ _ ∷ _ ∷ _ ∷ _ ∷ []) k l = absurd (omega arith)
sign_bytes-read_signed (_ ∷ _ ∷ _ ∷ _ ∷ _ ∷ _ ∷ []) k l = absurd (omega arith)
sign_bytes-read_signed (_ ∷ _ ∷ _ ∷ _ ∷ _ ∷ _ ∷ _ ∷ []) k l = absurd (omega arith)
sign_bytes-read_signed (_ ∷ _ ∷ _ ∷ _ ∷ _ ∷ _ ∷ _ ∷ _ ∷ []) k l = absurd (omega arith)

All-take : (n : ℕ) (xs : List ℕ) → All IsByte xs → All IsByte (take n xs)
All-take zero xs h = tt
All-take (suc n) [] h = tt
All-take (suc n) (x ∷ xs) (p, h) = (p, All-take n xs h)

-- A datagram of bytes that ParseSigned accepts is what the signature covers, followed by the
-- signature, which has 64 bytes.
pub sign_bytes-parse_signed :
    (bytes : List ℕ) (m : SignedMessage) (sig : List ℕ)
    → All IsByte bytes
    → parse_signed bytes ≡ signed m sig
    → (sign_bytes m ++ sig ≡ bytes) × (length sig ≡ signature_size)
unfolding parse_signed
sign_bytes-parse_signed bytes m sig h e =
    let n = length bytes - signature_size in
    let enough : 73 ≤ length bytes = ground arith in
    let message : read_signed (take n bytes) ≡ m = ground arith in
    let signature : drop n bytes ≡ sig = ground arith in
    let front : sign_bytes (read_signed (take n bytes)) ≡ take n bytes =
      sign_bytes-read_signed (take n bytes) (All-take n bytes h)
        (omega (arith, length-take n bytes (omega arith))) in
    (
      rw (← message, ← signature, front) (take-append-drop n bytes),
      rw (← signature) (omega (arith, length-drop n bytes)),
    )

-- A discovery request names the address that was asked for.
pub parse_peer_query-payload :
    (a : Addr) → IsAddr a → parse_peer_query (peer_query_payload a) ≡ target a
unfolding parse_peer_query peer_query_payload
parse_peer_query-payload invalid h = absurd h
parse_peer_query-payload (v4 n) h = ap target (octets (v4 n) h)
