-- ===== src/Netip.antt =====
-- What the program uses of net/netip: IPv4 addresses and prefixes, and their texts. An address is
-- its 32-bit number, or the zero Addr. IPv6 is not modelled: such a text reads as no address.
pub mod Text
use Prim.Native.String
use nz.Base.{
  ℕ, zero, suc, ◌+◌, ◌-◌, ◌*◌, ◌/◌, ◌%◌, ◌^◌, ◌<◌, String, Bool, true, false, ◌&&◌, ◌≡◌, ◌↔◌,
  Option, none, some, List, [], ◌∷◌, leb, ltb, Comparable, ◌==◌, nat_eq, nat_beq, string_eq,
  if◌then◌else◌, cut, arith,
}
use Prim.Native.Char.{Char, code}

pub data Addr : Type 0 where
  invalid : Addr
  v4 : ℕ → Addr

abbrev pub addr_beq : Addr → Addr → Bool
addr_beq invalid invalid = true
addr_beq (v4 a) (v4 b) = nat_beq a b
addr_beq _ _ = false

pub addr_beq_iff : (a b : Addr) → (addr_beq a b ≡ true) ↔ (a ≡ b)
addr_beq_iff a b = ground arith

instance abbrev pub addr_eq : Comparable Addr
addr_eq = record { test = addr_beq; test_iff = addr_beq_iff }

abbrev pub IsAddr : Addr → Type 0
IsAddr invalid = ⊥
IsAddr (v4 n) = n < 2 ^ 32

-- `Addr.Next`: past the last address there is none.
unfoldable pub next : Addr → Addr
next invalid = invalid
next (v4 n) = if ltb (n + 1) (2 ^ 32) then v4 (n + 1) else invalid

-- `AddrFrom4` and `As4` (which panics on the zero Addr; the program calls it on valid ones).
abbrev pub from_4 : ℕ → ℕ → ℕ → ℕ → Addr
from_4 a b c d = v4 (((a * 256 + b) * 256 + c) * 256 + d)

abbrev pub number : Addr → ℕ
number invalid = 0
number (v4 n) = n

abbrev pub octet_0 : Addr → ℕ
octet_0 a = number a / 16777216 % 256

abbrev pub octet_1 : Addr → ℕ
octet_1 a = number a / 65536 % 256

abbrev pub octet_2 : Addr → ℕ
octet_2 a = number a / 256 % 256

abbrev pub octet_3 : Addr → ℕ
octet_3 a = number a % 256

pub record Prefix : Type 0 where
  pub addr : ℕ
  pub bits : ℕ

abbrev pub contains_number : Prefix → ℕ → Bool
contains_number p n = n / 2 ^ (32 - p.bits) == p.addr / 2 ^ (32 - p.bits)

unfoldable pub contains : Prefix → Addr → Bool
contains p invalid = false
contains p (v4 n) = contains_number p n

pub record AddrPort : Type 0 where
  pub addr : Addr
  pub port : ℕ

-- `AddrPort.IsValid`.
abbrev pub is_valid : AddrPort → Bool
is_valid at = elim at.addr [ invalid ↦ false | v4 _ ↦ true ]

abbrev digit : ℕ → String
digit d = String.◌∷◌ (String.char_at "0123456789" d) String.[]

-- One field of the dotted form.
decimal : ℕ → String
decimal n =
    if ltb n 10
    then digit n
    else if ltb n 100
    then String.◌++◌ (digit (n / 10)) (digit (n % 10))
    else String.◌++◌ (digit (n / 100)) (String.◌++◌ (digit (n / 10 % 10)) (digit (n % 10)))

abbrev dotted : String → String → String
dotted s t = String.◌++◌ s (String.◌++◌ "." t)

-- `Addr.String`.
unfoldable pub to_string : Addr → String
unfolding decimal
to_string invalid = "invalid IP"
to_string (v4 n) = dotted (decimal (octet_0 (v4 n))) (
    dotted (decimal (octet_1 (v4 n)))
      (dotted (decimal (octet_2 (v4 n))) (decimal (octet_3 (v4 n)))))

-- A decimal number up to 255, with no leading zero; `seen` counts its digits so far.
octet_from : ℕ → ℕ → String → Option ℕ
octet_from value seen String.[] = if seen == 0 then none else some value
octet_from value seen (String.◌∷◌ c s) =
    let value' = value * 10 + (code c - b'0') in
    let rest = octet_from value' (seen + 1) s in
    if leb b'0' (code c) && leb (code c) b'9'
    then (if seen == 1 && value == 0 then none else if leb value' 255 then rest else none)
    else none

octet : String → Option ℕ
unfolding octet_from
octet s = octet_from 0 0 s

infixl 5 ◌>>=◌
abbrev ◌>>=◌ {ℓ κ} : {A : Type ℓ} {B : Type κ} → Option A → (A → Option B) → Option B
none >>= f = none
some a >>= f = f a

read_octets : String → String → String → String → Option Addr
unfolding octet
read_octets a b c d = do
  a' ← octet a
  b' ← octet b
  c' ← octet c
  d' ← octet d
  some (from_4 a' b' c' d')

-- `ParseAddr`.
unfoldable pub parse_addr : String → Option Addr
unfolding read_octets cut
parse_addr s =
    let (a, s₁) = cut b'.' s in
    let (b, s₂) = cut b'.' s₁ in let (c, d) = cut b'.' s₂ in read_octets a b c d

read_prefix : Option Addr → Option ℕ → Option Prefix
read_prefix (some a) (some bits) =
    if leb bits 32 then some (record { addr = number a; bits = bits }) else none
read_prefix _ _ = none

-- `ParsePrefix`; the address keeps its host bits.
unfoldable pub parse_prefix : String → Option Prefix
unfolding parse_addr read_prefix octet cut
parse_prefix s = let (a, bits) = cut b'/' s in read_prefix (parse_addr a) (octet bits)
