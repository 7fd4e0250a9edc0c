-- ===== src/Command/Args/Words.antt =====
-- cmd/nz/main.go: arguments by their first characters.
use Prim.Native.String
use text.Mathlib.Text.{starts_with}
use text.Mathlib.TextEquality.{starts_with_iff}
use text.Mathlib.TextLemmas.{nil-append, cons-append, append_assoc, length-cons, length-append}
use text.Mathlib.TextPositions.{starts_with-append}
use nz.Base.{
  ◌+◌, ◌≡◌, inl, inr, refl, sym, ap, subst, ◌∙◌, String, true, false, ◌==◌, string_eq, eq_iff,
  Bool-cases, arith,
}
use nz.Command.Args.{without_first}

pub without_first-append : (p s : String) → without_first (String.count p) (String.◌++◌ p s) ≡ s
unfolding without_first
without_first-append String.[] s = rw nil-append refl
without_first-append (String.◌∷◌ c p) s = rw cons-append (
    ap (λ n. without_first n (String.◌∷◌ c (String.◌++◌ p s))) (length-cons c p)
    ∙ without_first-append p s)

-- A text with a prefix is the prefix and the rest.
pub cut_prefix :
    (s p : String) → starts_with s p ≡ true → String.◌++◌ p (without_first (String.count p) s) ≡ s
cut_prefix s p h =
    let (r, e) = (starts_with_iff s p).0 h in
    ap (λ v. String.◌++◌ p (without_first (String.count p) v)) (sym e)
    ∙ ap (λ v. String.◌++◌ p v) (without_first-append p r)
    ∙ e

pub option_dash : (v : String) → starts_with (String.◌++◌ "--to=" v) "-" ≡ true
option_dash v =
    subst (λ t. starts_with t "-" ≡ true) (sym (append_assoc "-" "-to=" v))
      (starts_with-append "-" (String.◌++◌ "-to=" v))

pub joined≢to : (v : String) → String.◌++◌ "--to=" v == "--to" ≡ false
joined≢to v = elim (Bool-cases (String.◌++◌ "--to=" v == "--to")) [
  | inr miss ↦ miss
  | inl hit ↦
      let e : 5 + String.count v ≡ 4 =
        sym (length-append "--to=" v)
        ∙ ap String.count ((eq_iff (String.◌++◌ "--to=" v) "--to").0 hit) in
      absurd (omega arith)
]

pub plain≢to : (s : String) → starts_with s "-" ≡ false → s == "--to" ≡ false
plain≢to s h = elim (Bool-cases (s == "--to")) [
  | inr miss ↦ miss
  | inl hit ↦ cc (ap (λ t. starts_with t "-") ((eq_iff s "--to").0 hit))
]

pub plain-no_option : (s : String) → starts_with s "-" ≡ false → starts_with s "--to=" ≡ false
plain-no_option s h = elim (Bool-cases (starts_with s "--to=")) [
  | inr miss ↦ miss
  | inl hit ↦
      let dash : starts_with s "-" ≡ true =
        subst (λ t. starts_with t "-" ≡ true) (cut_prefix s "--to=" hit)
          (option_dash (without_first 5 s)) in
      cc
]
