-- ===== src/Base/Text.antt =====
-- Texts cut at a character, and facts about a small range of numbers checked one by one.
use Prim.Native.Nat.{ℕ, zero, suc, ◌<◌}
use Prim.Native.Char.{Char, code}
use Prim.Native.String
use Prim.Native.String.{String}
use mathlib.Core.Path.{◌≡◌}
use mathlib.Core.Bool.{Bool, true, ◌&&◌, not}
use native.Mathlib.Omega.{arith}
use text.Mathlib.TextLemmas.{nil-append, cons-append}
use nz.Base.Tests.{if◌then◌else◌, nat_beq}

-- `strings.Cut` at a one-byte separator: what stands before and after its first occurrence.
unfoldable pub cut : ℕ → String → String × String
cut sep String.[] = (String.[], String.[])
cut sep (String.◌∷◌ c s) =
    let rest = cut sep s in
    if nat_beq (code c) sep then (String.[], s) else (String.◌∷◌ c rest.0, rest.1)

-- The text does not hold the separator.
unfoldable pub lacks : ℕ → String → Bool
lacks sep String.[] = true
lacks sep (String.◌∷◌ c s) = not (nat_beq (code c) sep) && lacks sep s

pub cut-append :
    (sep : ℕ) (s t : String) (c : Char)
    → lacks sep s ≡ true
    → nat_beq (code c) sep ≡ true
    → cut sep (String.◌++◌ s (String.◌∷◌ c t)) ≡ (s, t)
unfolding cut lacks
cut-append sep String.[] t c h e = rw (nil-append, cut, e)
cut-append sep (String.◌∷◌ d s) t c h e =
    rw (cons-append, cut) (ground (arith, cut-append sep s t c))

-- The test passes at every number below the bound.
unfoldable pub passes_below : (ℕ → Bool) → ℕ → Bool
passes_below test zero = true
passes_below test (suc bound) = passes_below test bound && test bound

pub passes_below_at :
    (test : ℕ → Bool) (bound n : ℕ) → n < bound → passes_below test bound ≡ true → test n ≡ true
unfolding passes_below
passes_below_at test zero n small all = absurd (omega arith)
passes_below_at test (suc bound) n small all = ground (arith, passes_below_at test bound n)
