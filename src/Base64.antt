-- ===== src/Base64.antt =====
-- The standard base64 encoding (encoding/base64, StdEncoding), with which the program stores keys,
-- salts and verifiers as text. A byte slice is a list of numbers below 256.
pub mod RoundTrip
use Prim.Native.Char.{Char, code}
use Prim.Native.String
use nz.Base.{
  ℕ, ◌+◌, ◌-◌, ◌*◌, ◌/◌, ◌%◌, String, Bool, ◌&&◌, ◌||◌, Option, none, some, List, [], ◌∷◌, leb,
  ◌==◌, nat_eq, if◌then◌else◌,
}

abbrev alphabet : String
alphabet = "ABCDEFGHIJKLMNOPQRSTUVWXYZabcdefghijklmnopqrstuvwxyz0123456789+/"

-- The character of a six-bit group.
char_of : ℕ → Char
char_of group = String.char_at alphabet group

abbrev pad : Char → Bool
pad c = code c == b'='

-- The six-bit group of a character.
group_of : Char → Option ℕ
group_of c =
    let n = code c in
    if leb b'A' n && leb n b'Z'
    then some (n - b'A')
    else if leb b'a' n && leb n b'z'
    then some (n - b'a' + 26)
    else if leb b'0' n && leb n b'9'
    then some (n - b'0' + 52)
    else if n == b'+'
    then some 62
    else if n == b'/'
    then some 63
    else none

unfoldable pub encode : List ℕ → String
unfolding char_of
encode [] = ""
encode (a ∷ []) = String.◌∷◌ (char_of (a / 4)) (String.◌∷◌ (char_of (a % 4 * 16)) "==")
encode (a ∷ b ∷ []) =
    String.◌∷◌ (char_of (a / 4))
      (String.◌∷◌ (char_of (a % 4 * 16 + b / 16)) (String.◌∷◌ (char_of (b % 16 * 4)) "="))
encode (a ∷ b ∷ c ∷ rest) = String.◌∷◌ (char_of (a / 4)) (
    String.◌∷◌ (char_of (a % 4 * 16 + b / 16))
      (String.◌∷◌ (char_of (b % 16 * 4 + c / 64)) (String.◌∷◌ (char_of (c % 64)) (encode rest))))

infixl 5 ◌>>=◌
abbrev ◌>>=◌ {ℓ κ} : {A : Type ℓ} {B : Type κ} → Option A → (A → Option B) → Option B
none >>= f = none
some a >>= f = f a

-- The decoder skips line breaks.
strip : String → String
strip String.[] = String.[]
strip (String.◌∷◌ c s) =
    let rest = strip s in if code c == 10 || code c == 13 then rest else String.◌∷◌ c rest

abbrev first_byte : ℕ → ℕ → ℕ
first_byte w x = w * 4 + x / 16

abbrev second_byte : ℕ → ℕ → ℕ
second_byte x y = x % 16 * 16 + y / 4

abbrev third_byte : ℕ → ℕ → ℕ
third_byte y z = y % 4 * 64 + z

one_byte : Char → Char → Option (List ℕ)
unfolding group_of
one_byte c d = do w ← group_of c; x ← group_of d; some (first_byte w x ∷ [])

two_bytes : Char → Char → Char → Option (List ℕ)
unfolding group_of
two_bytes c d e = do
  w ← group_of c
  x ← group_of d
  y ← group_of e
  some (first_byte w x ∷ second_byte x y ∷ [])

three_bytes : Char → Char → Char → Char → Option (List ℕ) → Option (List ℕ)
unfolding group_of
three_bytes c d e f rest = do
  w ← group_of c
  x ← group_of d
  y ← group_of e
  z ← group_of f
  bytes ← rest
  some (first_byte w x ∷ second_byte x y ∷ third_byte y z ∷ bytes)

-- The last quantum may end in one or two padding characters.
last_quantum : Char → Char → Char → Char → Option (List ℕ)
unfolding one_byte two_bytes three_bytes
last_quantum c d e f =
    if pad f
    then (if pad e then one_byte c d else two_bytes c d e)
    else three_bytes c d e f (some [])

quanta : String → Option (List ℕ)
unfolding last_quantum
quanta String.[] = some []
quanta (String.◌∷◌ c (String.◌∷◌ d (String.◌∷◌ e (String.◌∷◌ f String.[])))) = last_quantum c d e f
quanta (String.◌∷◌ c (String.◌∷◌ d (String.◌∷◌ e (String.◌∷◌ f (String.◌∷◌ g rest))))) =
    three_bytes c d e f (quanta (String.◌∷◌ g rest))
quanta _ = none

unfoldable pub decode : String → Option (List ℕ)
unfolding strip quanta
decode text = quanta (strip text)
