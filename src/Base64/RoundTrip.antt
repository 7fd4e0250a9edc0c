-- ===== src/Base64/RoundTrip.antt =====
-- encoding/base64, as keyString and decodeB64 of internal/server use it: written and read.
use Prim.Native.Char.{Char, code}
use nz.Base.{
  ℕ, String, zero, suc, ◌+◌, ◌*◌, ◌/◌, ◌%◌, ◌<◌, ◌≡◌, refl, ap, ◌∙◌, arith, Bool, true, false, not,
  ◌&&◌, ◌||◌, List, [], ◌∷◌, Option, none, some, ◌==◌, nat_eq, Bool-cases, inl, inr, All, if_false,
}
use nz.Base64.{
  encode, decode, char_of, group_of, pad, strip, quanta, last_quantum, one_byte, two_bytes,
  three_bytes, first_byte, second_byte, third_byte,
}

hello : decode (encode (104 ∷ 101 ∷ 108 ∷ 108 ∷ 111 ∷ [])) ≡ some (104 ∷ 101 ∷ 108 ∷ 108 ∷ 111 ∷ [])
unfolding encode decode
hello = refl

is_some : Option ℕ → ℕ → Bool
is_some none g = false
is_some (some k) g = k == g

-- The character of a group is read back, and is neither padding nor a line break.
reads_back : ℕ → Bool
unfolding char_of group_of is_some
reads_back g =
    is_some (group_of (char_of g)) g
    && not (pad (char_of g))
    && not (code (char_of g) == 10 || code (char_of g) == 13)

all_below : ℕ → Bool
unfolding reads_back
all_below zero = true
all_below (suc n) = reads_back n && all_below n

all_below-reads_back : (n g : ℕ) → all_below n ≡ true → g < n → reads_back g ≡ true
unfolding all_below
all_below-reads_back zero g h l = ground (arith, l)
all_below-reads_back (suc n) g h l = elim (Bool-cases (g == n)) [
  | inl same ↦ ground (arith, h, same)
  | inr other ↦ all_below-reads_back n g (ground (arith, h)) (ground (arith, l, other))
]

alphabet_reads_back : all_below 64 ≡ true
unfolding all_below
alphabet_reads_back = refl

is_some_lem : (o : Option ℕ) (g : ℕ) → is_some o g ≡ true → o ≡ some g
unfolding is_some
is_some_lem none g h = ground arith
is_some_lem (some k) g h = ground arith

record Readable (g : ℕ) : Type 0 where
  pub group : group_of (char_of g) ≡ some g
  pub plain : pad (char_of g) ≡ false
  pub kept : (code (char_of g) == 10 || code (char_of g) == 13) ≡ false

readable : (g : ℕ) → g < 64 → Readable g
readable g l =
    (let h = all_below-reads_back 64 g alphabet_reads_back l in
      record {
        group = is_some_lem (group_of (char_of g)) g (unfold reads_back in ground (arith, h));
        plain = unfold reads_back in ground (arith, h);
        kept = unfold reads_back in ground (arith, h);
      })

module _ (w x : ℕ) (r : Readable w) (t : Readable x) where
  one_byte_lem : one_byte (char_of w) (char_of x) ≡ some (first_byte w x ∷ [])
  unfolding one_byte
  one_byte_lem = rw (r.group, t.group) refl

  module _ (y : ℕ) (u : Readable y) where
    two_bytes_lem :
        two_bytes (char_of w) (char_of x) (char_of y) ≡ some (first_byte w x ∷ second_byte x y ∷ [])
    unfolding two_bytes
    two_bytes_lem = rw (r.group, t.group, u.group) refl

    three_bytes_lem :
        (z : ℕ) (bytes : List ℕ)
        → Readable z
        → three_bytes (char_of w) (char_of x) (char_of y) (char_of z) (some bytes)
          ≡ some (first_byte w x ∷ second_byte x y ∷ third_byte y z ∷ bytes)
    unfolding three_bytes
    three_bytes_lem z bytes v = rw (r.group, t.group, u.group, v.group) refl

first_byte_lem : (a b : ℕ) → a < 256 → b < 256 → first_byte (a / 4) (a % 4 * 16 + b / 16) ≡ a
first_byte_lem a b h k = omega arith

second_byte_lem :
    (a b c : ℕ) → b < 256 → c < 256 → second_byte (a % 4 * 16 + b / 16) (b % 16 * 4 + c / 64) ≡ b
second_byte_lem a b c k l = omega arith

third_byte_lem : (b c : ℕ) → c < 256 → third_byte (b % 16 * 4 + c / 64) (c % 64) ≡ c
third_byte_lem b c l = omega arith

three_read :
    (a b c : ℕ) (bytes : List ℕ)
    → a < 256
    → b < 256
    → c < 256
    → three_bytes
        (char_of (a / 4))
        (char_of (a % 4 * 16 + b / 16))
        (char_of (b % 16 * 4 + c / 64))
        (char_of (c % 64))
        (some bytes)
      ≡ some (a ∷ b ∷ c ∷ bytes)
three_read a b c bytes ha hb hc =
    three_bytes_lem (a / 4) (a % 4 * 16 + b / 16) (readable (a / 4) (omega arith))
      (readable (a % 4 * 16 + b / 16) (omega arith)) (b % 16 * 4 + c / 64)
      (readable (b % 16 * 4 + c / 64) (omega arith)) (c % 64) bytes
      (readable (c % 64) (omega arith))
    ∙ rw (first_byte_lem a b ha hb, second_byte_lem a b c hb hc, third_byte_lem b c hc) refl

encode_cons :
    (b : ℕ) (bytes : List ℕ) → (c : Char) × (s : String) × (encode (b ∷ bytes) ≡ String.◌∷◌ c s)
unfolding encode
encode_cons b [] = (_, _, refl)
encode_cons b (c ∷ []) = (_, _, refl)
encode_cons b (c ∷ d ∷ rest) = (_, _, refl)

quanta_more :
    (c d e f g : Char) (s t : String)
    → t ≡ String.◌∷◌ g s
    → quanta (String.◌∷◌ c (String.◌∷◌ d (String.◌∷◌ e (String.◌∷◌ f t))))
      ≡ three_bytes c d e f (quanta t)
unfolding quanta
quanta_more c d e f g s t same = rw same refl

quanta-encode : (bytes : List ℕ) → All (λ b. b < 256) bytes → quanta (encode bytes) ≡ some bytes
unfolding quanta encode last_quantum
quanta-encode [] h = refl
quanta-encode (a ∷ []) (ha, _) =
    one_byte_lem (a / 4) (a % 4 * 16) (readable (a / 4) (omega arith))
      (readable (a % 4 * 16) (omega arith))
    ∙ ap (λ a. some (a ∷ [])) (omega arith)
quanta-encode (a ∷ b ∷ []) (ha, (hb, _)) =
    let r : Readable (b % 16 * 4) = readable (b % 16 * 4) (omega arith) in
    if_false (pad (char_of (b % 16 * 4))) _ _ r.plain
    ∙ two_bytes_lem (a / 4) (a % 4 * 16 + b / 16) (readable (a / 4) (omega arith))
        (readable (a % 4 * 16 + b / 16) (omega arith)) (b % 16 * 4) r
    ∙ rw (first_byte_lem a b ha hb) (ap (λ b. some (a ∷ b ∷ [])) (omega arith))
quanta-encode (a ∷ b ∷ c ∷ []) (ha, (hb, (hc, _))) =
    if_false (pad (char_of (c % 64))) _ _ (readable (c % 64) (omega arith)).plain
    ∙ three_read a b c [] ha hb hc
quanta-encode (a ∷ b ∷ c ∷ d ∷ rest) (ha, (hb, (hc, h))) =
    let (g, s, same) = encode_cons d rest in
    quanta_more (char_of (a / 4)) (char_of (a % 4 * 16 + b / 16)) (char_of (b % 16 * 4 + c / 64))
      (char_of (c % 64)) g s (encode (d ∷ rest)) same
    ∙ ap
        (three_bytes (char_of (a / 4)) (char_of (a % 4 * 16 + b / 16))
          (char_of (b % 16 * 4 + c / 64)) (char_of (c % 64)))
        (quanta-encode (d ∷ rest) h)
    ∙ three_read a b c (d ∷ rest) ha hb hc

strip_keep :
    (c : Char) (s : String)
    → (code c == 10 || code c == 13) ≡ false
    → strip (String.◌∷◌ c s) ≡ String.◌∷◌ c (strip s)
unfolding strip
strip_keep c s h = if_false _ _ _ h

-- A text without line breaks.
record Clean (s : String) : Type 0 where
  pub same : strip s ≡ s

char_of-Clean : {s : String} (g : ℕ) → g < 64 → Clean s → Clean (String.◌∷◌ (char_of g) s)
char_of-Clean {s} g l h = record {
  same = strip_keep (char_of g) s (readable g l).kept ∙ ap (String.◌∷◌ (char_of g)) h.same;
}

encode-Clean : (bytes : List ℕ) → All (λ b. b < 256) bytes → Clean (encode bytes)
unfolding strip encode
encode-Clean [] h = record { same = refl }
encode-Clean (a ∷ []) (ha, _) =
    char_of-Clean (a / 4) (omega arith)
      (char_of-Clean (a % 4 * 16) (omega arith) (record { same = refl }))
encode-Clean (a ∷ b ∷ []) (ha, (hb, _)) = char_of-Clean (a / 4) (omega arith) (
    char_of-Clean (a % 4 * 16 + b / 16) (omega arith)
      (char_of-Clean (b % 16 * 4) (omega arith) (record { same = refl })))
encode-Clean (a ∷ b ∷ c ∷ rest) (ha, (hb, (hc, h))) = char_of-Clean (a / 4) (omega arith) (
    char_of-Clean (a % 4 * 16 + b / 16) (omega arith) (
      char_of-Clean (b % 16 * 4 + c / 64) (omega arith)
        (char_of-Clean (c % 64) (omega arith) (encode-Clean rest h))))

-- Bytes are encoded as a text that is decoded to the same bytes.
pub decode-encode : (bytes : List ℕ) → All (λ b. b < 256) bytes → decode (encode bytes) ≡ some bytes
unfolding decode
decode-encode bytes h = ap quanta (encode-Clean bytes h).same ∙ quanta-encode bytes h
