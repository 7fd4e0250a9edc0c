-- ===== src/Netip/Text.antt =====
-- net/netip: the text of an IPv4 address, written and read.
use Prim.Native.String
use Prim.Native.Char.{Char, char}
use text.Mathlib.TextLemmas.{nil-append, cons-append}
use nz.Base.{
  ℕ, ◌^◌, ◌<◌, ◌≡◌, refl, ◌≢◌, ap, ◌∙◌, some, none, String, Option, Bool, true, false, ◌&&◌,
  nat_beq, nat_eq, lacks, cut, cut-append, passes_below, passes_below_at, arith,
}
use nz.Netip.{
  v4, to_string, parse_addr, parse_prefix, from_4, decimal, octet, dotted, read_octets, octet_0,
  octet_1, octet_2, octet_3,
}

tests :
    (to_string (from_4 192 168 100 7) ≡ "192.168.100.7")
    × (parse_addr "192.168.100.7" ≡ some (from_4 192 168 100 7))
    × (parse_addr "192.168.00.7" ≡ none)
    × (parse_addr "192.168.1" ≡ none)
    × (parse_addr "" ≡ none)
    × (parse_prefix "192.168.100.0/24" ≡ some (record { addr = 3232261120; bits = 24 }))
unfolding to_string parse_addr parse_prefix
tests = (refl, refl, refl, refl, refl, refl)

abbrev reads : Option ℕ → ℕ → Bool
reads none n = false
reads (some m) n = nat_beq m n

abbrev octet_test : ℕ → Bool
octet_test n = lacks b'.' (decimal n) && reads (octet (decimal n)) n

octet_table : passes_below octet_test 256 ≡ true
unfolding passes_below decimal octet lacks
octet_table = refl

octet-decimal : (n : ℕ) → n < 256 → (lacks b'.' (decimal n) ≡ true) × (octet (decimal n) ≡ some n)
octet-decimal n h = split (lacks b'.' (decimal n)) (octet (decimal n)) refl refl
  where
    split :
        (b : Bool) (o : Option ℕ)
        → lacks b'.' (decimal n) ≡ b
        → octet (decimal n) ≡ o
        → (lacks b'.' (decimal n) ≡ true) × (octet (decimal n) ≡ some n)
    split b o e f = ground (arith, passes_below_at octet_test 256 n h octet_table)

abbrev dot : Char
dot = char b'.' tt

dot-append : (t : String) → String.◌++◌ "." t ≡ String.◌∷◌ dot t
dot-append t = cons-append dot String.[] t ∙ ap (String.◌∷◌ dot) (nil-append t)

cut-dotted : (n : ℕ) (t : String) → n < 256 → cut b'.' (dotted (decimal n) t) ≡ (decimal n, t)
cut-dotted n t h = rw dot-append (cut-append b'.' (decimal n) t dot (octet-decimal n h).0 refl)

parse_addr_parts :
    (s a s₁ b s₂ c d : String)
    → cut b'.' s ≡ (a, s₁)
    → cut b'.' s₁ ≡ (b, s₂)
    → cut b'.' s₂ ≡ (c, d)
    → parse_addr s ≡ read_octets a b c d
unfolding parse_addr
parse_addr_parts s a s₁ b s₂ c d e f g = rw (e, f, g) refl

read_octets-decimal :
    (a b c d : ℕ)
    → a < 256
    → b < 256
    → c < 256
    → d < 256
    → read_octets (decimal a) (decimal b) (decimal c) (decimal d) ≡ some (from_4 a b c d)
unfolding read_octets
read_octets-decimal a b c d ha hb hc hd =
    rw
      (
        (octet-decimal a ha).1,
        (octet-decimal b hb).1,
        (octet-decimal c hc).1,
        (octet-decimal d hd).1,
      )
      refl

parse_addr-dotted :
    (a b c d : ℕ)
    → a < 256
    → b < 256
    → c < 256
    → d < 256
    → parse_addr (dotted (decimal a) (dotted (decimal b) (dotted (decimal c) (decimal d))))
      ≡ some (from_4 a b c d)
parse_addr-dotted a b c d ha hb hc hd =
    parse_addr_parts _ _ _ _ _ _ _ (cut-dotted a _ ha) (cut-dotted b _ hb) (cut-dotted c _ hc)
    ∙ read_octets-decimal a b c d ha hb hc hd

octets :
    (n : ℕ)
    → n < 2 ^ 32
    → from_4 (octet_0 (v4 n)) (octet_1 (v4 n)) (octet_2 (v4 n)) (octet_3 (v4 n)) ≡ v4 n
octets n h = ap v4 (omega arith)

-- `ParseAddr` reads back what `Addr.String` writes.
pub parse_addr-to_string : (n : ℕ) → n < 2 ^ 32 → parse_addr (to_string (v4 n)) ≡ some (v4 n)
unfolding to_string
parse_addr-to_string n h =
    parse_addr-dotted (octet_0 (v4 n)) (octet_1 (v4 n)) (octet_2 (v4 n)) (octet_3 (v4 n))
      (omega arith) (omega arith) (omega arith) (omega arith)
    ∙ ap some (octets n h)

pub to_string-ne-empty : (n : ℕ) → n < 2 ^ 32 → to_string (v4 n) ≢ ""
to_string-ne-empty n h e = ground (arith, parse_addr-to_string n h, ap parse_addr e, tests.4)

pub to_string-injective :
    (m n : ℕ) → m < 2 ^ 32 → n < 2 ^ 32 → to_string (v4 m) ≡ to_string (v4 n) → m ≡ n
to_string-injective m n hm hn e =
    ground (arith, parse_addr-to_string m hm, parse_addr-to_string n hn, ap parse_addr e)
