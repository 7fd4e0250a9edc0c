-- ===== src/Base/Maps.antt =====
-- Go maps as association lists: a missing key reads as `none`, a write replaces or appends.
use mathlib.Core.Path.{◌≡◌, refl, subst}
use mathlib.Core.List.{List, [], ◌∷◌}
use mathlib.Core.Logic.{inl, inr}
use mathlib.Core.Option.{Option, none, some}
use native.Mathlib.Omega.{arith}
use nz.Base.Tests.{Comparable, ◌==◌, if◌then◌else◌, Bool-cases}
use nz.Base.Lists.{All}

module _ {ℓ κ} {K : Type ℓ} {V : Type κ} ⦃c : Comparable K⦄ where
  unfoldable pub lookup : K → List (K × V) → Option V
  lookup key [] = none
  lookup key ((k, value) ∷ rest) = if k == key then some value else lookup key rest

  unfoldable pub insert : K → V → List (K × V) → List (K × V)
  insert key value [] = (key, value) ∷ []
  insert key value ((k, old) ∷ rest) =
      if k == key then (key, value) ∷ rest else (k, old) ∷ insert key value rest

  unfoldable pub erase : K → List (K × V) → List (K × V)
  erase key [] = []
  erase key ((k, value) ∷ rest) = if k == key then erase key rest else (k, value) ∷ erase key rest

  pub lookup-insert :
      (key other : K) (value : V) (entries : List (K × V))
      → lookup other (insert key value entries)
        ≡ (if key == other then some value else lookup other entries)
  unfolding lookup insert
  lookup-insert key other value [] = refl
  lookup-insert key other value ((k, old) ∷ rest) = ground (
    arith,
    c.test_iff key other,
    c.test_iff k key,
    c.test_iff k other,
    lookup-insert key other value rest,
  )

  pub lookup-erase :
      (key other : K) (entries : List (K × V))
      → lookup other (erase key entries) ≡ (if key == other then none else lookup other entries)
  unfolding lookup erase
  lookup-erase key other [] = ground arith
  lookup-erase key other ((k, value) ∷ rest) = ground (
    arith,
    c.test_iff key other,
    c.test_iff k key,
    c.test_iff k other,
    lookup-erase key other rest,
  )

  module _ {μ} (P : K × V → Type μ) where
    pub insert-All :
        (key : K) (value : V) (entries : List (K × V))
        → P (key, value)
        → All P entries
        → All P (insert key value entries)
    unfolding insert
    insert-All key value [] p h = (p, tt)
    insert-All key value ((k, old) ∷ rest) p (q, h) = elim (Bool-cases (k == key)) [
      | inl hit ↦ rw (hit, insert) (p, h)
      | inr miss ↦ rw (miss, insert) (q, insert-All key value rest p h)
    ]

    pub erase-All : (key : K) (entries : List (K × V)) → All P entries → All P (erase key entries)
    unfolding erase
    erase-All key [] h = tt
    erase-All key ((k, value) ∷ rest) (q, h) = elim (Bool-cases (k == key)) [
      | inl hit ↦ rw (hit, erase) (erase-All key rest h)
      | inr miss ↦ rw (miss, erase) (q, erase-All key rest h)
    ]

  -- A value that is found has what every value has.
  pub lookup-All {μ} :
      (P : V → Type μ) (key : K) (entries : List (K × V)) (value : V)
      → All (λ entry. P entry.1) entries
      → lookup key entries ≡ some value
      → P value
  unfolding lookup
  lookup-All P key [] value h found = ground arith
  lookup-All P key ((k, old) ∷ rest) value (q, h) found = elim (Bool-cases (k == key)) [
    | inl hit ↦ let same : old ≡ value = ground arith in subst P same q
    | inr miss ↦ lookup-All P key rest value h (ground arith)
  ]
