-- ===== src/Protocol/Proof.antt =====
-- internal/protocol/protocol.go, Proof and VerifyProof: the answer to a join challenge.
use Prim.Native.Char.{code}
use nz.Base.{
  ℕ, ◌+◌, ◌/◌, ◌%◌, ◌≡◌, ◌≢◌, refl, Bool, true, false, ◌&&◌, String, List, [], ◌∷◌, ◌++◌, ltb, ◌==◌,
  nat_eq, if◌then◌else◌, arith, All, Comparable, ◌↔◌, length,
}

-- `[]byte(s)`: the UTF-8 form of a text.
utf8_char : ℕ → List ℕ
utf8_char n =
    if ltb n 0x80
    then n ∷ []
    else if ltb n 0x800
    then (192 + n / 64) ∷ (128 + n % 64) ∷ []
    else if ltb n 0x10000
    then (224 + n / 4096) ∷ (128 + n / 64 % 64) ∷ (128 + n % 64) ∷ []
    else (240 + n / 262144) ∷ (128 + n / 4096 % 64) ∷ (128 + n / 64 % 64) ∷ (128 + n % 64) ∷ []

unfoldable pub utf8 : String → List ℕ
unfolding utf8_char
utf8 String.[] = []
utf8 (String.◌∷◌ c s) = utf8_char (code c) ++ utf8 s

abbrev pub bytes_beq : List ℕ → List ℕ → Bool
bytes_beq [] [] = true
bytes_beq (x ∷ xs) (y ∷ ys) = x == y && bytes_beq xs ys
bytes_beq _ _ = false

pub bytes_beq_iff : (xs ys : List ℕ) → (bytes_beq xs ys ≡ true) ↔ (xs ≡ ys)
bytes_beq_iff [] [] = ground arith
bytes_beq_iff [] (y ∷ ys) = ground arith
bytes_beq_iff (x ∷ xs) [] = ground arith
bytes_beq_iff (x ∷ xs) (y ∷ ys) = ground (arith, bytes_beq_iff xs ys)

instance abbrev pub bytes_eq : Comparable (List ℕ)
bytes_eq = record { test = bytes_beq; test_iff = bytes_beq_iff }

-- The text under the MAC.
unfoldable pub proof_text : List ℕ → List ℕ → List ℕ → List ℕ → List ℕ
proof_text nonce user machine public = nonce ++ (user ++ 0 ∷ (machine ++ 0 ∷ public))

-- `hmac` is HMAC-SHA256 of a key and a text.
module _ (hmac : List ℕ → List ℕ → List ℕ) where
  unfoldable pub proof : List ℕ → List ℕ → String → String → List ℕ → List ℕ
  unfolding proof_text
  proof verifier nonce user machine public =
      hmac verifier (proof_text nonce (utf8 user) (utf8 machine) public)

  unfoldable pub verify_proof : List ℕ → List ℕ → List ℕ → String → String → List ℕ → Bool
  unfolding proof
  verify_proof verifier given nonce user machine public =
      given == proof verifier nonce user machine public

-- No byte of the name is zero.
abbrev pub NoZero : List ℕ → Type 0
NoZero = All (λ b. b ≢ 0)

cut_zero :
    (xs ys us vs : List ℕ)
    → NoZero xs
    → NoZero us
    → xs ++ 0 ∷ ys ≡ us ++ 0 ∷ vs
    → (xs ≡ us) × (ys ≡ vs)
cut_zero [] ys [] vs h k e = (refl, ground arith)
cut_zero [] ys (u ∷ us) vs h (n, k) e = absurd (ground arith)
cut_zero (x ∷ xs) ys [] vs (n, h) k e = absurd (ground arith)
cut_zero (x ∷ xs) ys (u ∷ us) vs (n, h) (m, k) e =
    let (p, q) = cut_zero xs ys us vs h k (ground arith) in
    let head : x ≡ u = ground arith in (cc, q)

cut_nonce :
    (xs ys us vs : List ℕ) → length xs ≡ length us → xs ++ ys ≡ us ++ vs → (xs ≡ us) × (ys ≡ vs)
cut_nonce [] ys [] vs h e = (refl, e)
cut_nonce [] ys (u ∷ us) vs h e = absurd (omega arith)
cut_nonce (x ∷ xs) ys [] vs h e = absurd (omega arith)
cut_nonce (x ∷ xs) ys (u ∷ us) vs h e =
    let (p, q) = cut_nonce xs ys us vs (omega arith) (ground arith) in
    let head : x ≡ u = ground arith in (cc, q)

-- The text under the MAC binds all four parts: for nonces of one length and names that hold no zero
-- byte, two equal texts have the same nonce, user, machine and public key.
pub proof_text_binds :
    (nonce user machine public nonce' user' machine' public' : List ℕ)
    → length nonce ≡ length nonce'
    → NoZero user
    → NoZero user'
    → NoZero machine
    → NoZero machine'
    → proof_text nonce user machine public ≡ proof_text nonce' user' machine' public'
    → (nonce ≡ nonce') × (user ≡ user') × (machine ≡ machine') × (public ≡ public')
unfolding proof_text
proof_text_binds nonce user machine public nonce' user' machine' public' l hu hu' hm hm' e =
    let (n, rest) = cut_nonce nonce _ nonce' _ l e in
    let (u, rest') = cut_zero user _ user' _ hu hu' rest in
    let (m, p) = cut_zero machine public machine' public' hm hm' rest' in (n, u, m, p)
