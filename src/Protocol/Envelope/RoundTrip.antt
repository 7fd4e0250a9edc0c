-- ===== src/Protocol/Envelope/RoundTrip.antt =====
-- internal/protocol/protocol.go: Marshal and Unmarshal, one after the other.
use nz.Base.{ℕ, ◌+◌, ◌*◌, ◌^◌, ◌<◌, ◌≡◌, refl, ap, List, [], ◌∷◌, nat_eq, length, take, All, arith}
use nz.Protocol.Envelope.{IsByte, Envelope, parsed, marshal, unmarshal, uint32_at}

take_all : (n : ℕ) (xs : List ℕ) → n ≡ length xs → take n xs ≡ xs
take_all n [] e = rw e
take_all n (x ∷ xs) e = rw e (ap (◌∷◌ x) (take_all (length xs) xs refl))

-- What Unmarshal reads back from Marshal is the envelope, for a body of less than 2 ^ 32 bytes.
pub unmarshal-marshal :
    (env : Envelope) → length env.body < 2 ^ 32 → unmarshal (marshal env) ≡ parsed env
unfolding marshal unmarshal
unmarshal-marshal env h =
    let n = length env.body in
    let len : uint32_at (marshal env) 2 ≡ n = omega arith in
    ground (arith, take_all (uint32_at (marshal env) 2) env.body len)

-- A datagram of bytes, shorter than 2 ^ 32, that Unmarshal accepts is the marshalled form of the
-- envelope that it returns.
pub marshal-unmarshal :
    (bytes : List ℕ) (env : Envelope)
    → All IsByte bytes
    → length bytes < 2 ^ 32
    → unmarshal bytes ≡ parsed env
    → marshal env ≡ bytes
unfolding marshal unmarshal
marshal-unmarshal (v ∷ t ∷ a ∷ b ∷ c ∷ d ∷ body) env (_, (_, (ha, (hb, (hc, (hd, _)))))) h e =
    ground (arith, take_all (((a * 256 + b) * 256 + c) * 256 + d) body)
marshal-unmarshal [] env bytes h e = cc
marshal-unmarshal (_ ∷ []) env bytes h e = cc
marshal-unmarshal (_ ∷ _ ∷ []) env bytes h e = cc
marshal-unmarshal (_ ∷ _ ∷ _ ∷ []) env bytes h e = cc
marshal-unmarshal (_ ∷ _ ∷ _ ∷ _ ∷ []) env bytes h e = cc
marshal-unmarshal (_ ∷ _ ∷ _ ∷ _ ∷ _ ∷ []) env bytes h e = cc
