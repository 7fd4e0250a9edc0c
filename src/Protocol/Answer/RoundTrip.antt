-- ===== src/Protocol/Answer/RoundTrip.antt =====
-- internal/protocol/signed.go: a peer answer, written and read.
use nz.Base.{
  ℕ, ◌^◌, ◌<◌, ◌≡◌, refl, ap, Bool, true, false, List, ◌++◌, nat_eq, length, take, drop, arith,
  length-append, take-append, drop-append,
}
use nz.Netip.{Addr, invalid, v4, from_4, octet_0, octet_1, octet_2, octet_3, IsAddr}
use nz.Protocol.Answer.{
  PeerAnswer, not_found, no_endpoint, marshal_peer_answer, parse_peer_answer, answer,
}

-- An answer as the server builds it: nothing beside `found` unless the peer was found, keys of 32
-- bytes, and an endpoint exactly if `has_addr` is set.
pub record IsSendable (a : PeerAnswer) : Type 0 where
  pub lost : a.found ≡ false → a ≡ not_found
  pub sign_size : a.found ≡ true → length a.sign_pub ≡ 32
  pub exch_size : a.found ≡ true → length a.exch_pub ≡ 32
  pub endpoint : a.has_addr ≡ true → IsAddr a.addr.addr × (a.addr.port < 2 ^ 16)
  pub no_addr : a.has_addr ≡ false → a.addr ≡ no_endpoint

keys_size : (xs ys : List ℕ) → length xs ≡ 32 → length ys ≡ 32 → length (xs ++ ys) ≡ 64
keys_size xs ys h k = omega (arith, length-append xs ys)

first_key : (xs ys : List ℕ) → length xs ≡ 32 → take 32 (xs ++ ys) ≡ xs
first_key xs ys h = rw (← h) (take-append xs ys)

second_key : (xs ys : List ℕ) → length xs ≡ 32 → drop 32 (xs ++ ys) ≡ ys
second_key xs ys h = rw (← h) (drop-append xs ys)

octets :
    (n : ℕ)
    → n < 2 ^ 32
    → from_4 (octet_0 (v4 n)) (octet_1 (v4 n)) (octet_2 (v4 n)) (octet_3 (v4 n)) ≡ v4 n
octets n h = ap v4 (omega arith)

module _ (xs ys : List ℕ) (h : length xs ≡ 32) (k : length ys ≡ 32) where
  without_addr :
      (c b : Bool)
      → let a : PeerAnswer = record {
        found = true;
        has_addr = false;
        can_call = c;
        can_call_back = b;
        addr = no_endpoint;
        sign_pub = xs;
        exch_pub = ys;
      } in
        parse_peer_answer (marshal_peer_answer a) ≡ answer a
  unfolding parse_peer_answer marshal_peer_answer
  without_addr c b = ground (arith, keys_size xs ys h k, first_key xs ys h, second_key xs ys h)

  with_addr :
      (c b : Bool) (n port : ℕ)
      → n < 2 ^ 32
      → port < 2 ^ 16
      → let a : PeerAnswer = record {
        found = true;
        has_addr = true;
        can_call = c;
        can_call_back = b;
        addr = record { addr = v4 n; port = port };
        sign_pub = xs;
        exch_pub = ys;
      } in
        parse_peer_answer (marshal_peer_answer a) ≡ answer a
  unfolding parse_peer_answer marshal_peer_answer
  with_addr c b n port hn hp =
      ground (arith, keys_size xs ys h k, first_key xs ys h, second_key xs ys h, octets n hn)

-- ParsePeerAnswer reads back the answer that MarshalPeerAnswer wrote, for an answer as the server
-- builds it: an unknown peer, or a known one with two keys of 32 bytes, with or without an endpoint.
pub parse_peer_answer-marshal :
    (a : PeerAnswer) → IsSendable a → parse_peer_answer (marshal_peer_answer a) ≡ answer a
parse_peer_answer-marshal a h = by_found a.found a.has_addr a.addr.addr refl refl refl
  where
    by_found :
        (f e : Bool) (n : Addr)
        → a.found ≡ f
        → a.has_addr ≡ e
        → a.addr.addr ≡ n
        → parse_peer_answer (marshal_peer_answer a) ≡ answer a
    by_found false e n p q r = rw (h.lost p) (unfold parse_peer_answer marshal_peer_answer in refl)
    by_found true false n p q r = ground (
      arith,
      h.sign_size p,
      h.exch_size p,
      h.no_addr q,
      without_addr a.sign_pub a.exch_pub (h.sign_size p) (h.exch_size p) a.can_call a.can_call_back,
    )
    by_found true true invalid p q r = absurd (rw r at ((h.endpoint q).0))
    by_found true true (v4 n) p q r =
        let (valid, port) = h.endpoint q in
        let bound : n < 2 ^ 32 = rw r at valid in
        ground (
          arith,
          with_addr a.sign_pub a.exch_pub (h.sign_size p) (h.exch_size p) a.can_call a.can_call_back
              n a.addr.port bound port,
        )
