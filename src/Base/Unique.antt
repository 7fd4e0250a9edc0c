-- ===== src/Base/Unique.antt =====
-- Lists with no repeated key.
use mathlib.Core.Path.{sym}
use mathlib.Core.Logic.{◌≢◌, inl, inr}
use mathlib.Core.List.{List, [], ◌∷◌, ◌++◌, map}
use mathlib.Core.Bool.{Bool}
use nz.Base.Tests.{Bool-cases}
use nz.Base.Lists.{All}
use nz.Base.Search.{keep_if}

module _ {ℓ} {K : Type ℓ} where
  -- `k` is none of the keys.
  abbrev pub Fresh : K → List K → Type ℓ
  Fresh k ks = All (λ j. j ≢ k) ks

  abbrev pub Distinct : List K → Type ℓ
  Distinct [] = Unit
  Distinct (k ∷ ks) = Fresh k ks × Distinct ks

  Fresh-concat : (k j : K) (ks : List K) → Fresh k ks → j ≢ k → Fresh k (ks ++ j ∷ [])
  Fresh-concat k j [] h n = (n, tt)
  Fresh-concat k j (i ∷ ks) (m, h) n = (m, Fresh-concat k j ks h n)

  pub Fresh-append_right : (k : K) (ks js : List K) → Fresh k (ks ++ js) → Fresh k js
  Fresh-append_right k [] js h = h
  Fresh-append_right k (i ∷ ks) js (n, h) = Fresh-append_right k ks js h

  pub Fresh-append_left : (k : K) (ks js : List K) → Fresh k (ks ++ js) → Fresh k ks
  Fresh-append_left k [] js h = tt
  Fresh-append_left k (i ∷ ks) js (n, h) = (n, Fresh-append_left k ks js h)

  -- A key that is not in the list may be added at the end.
  pub Distinct-concat : (k : K) (ks : List K) → Fresh k ks → Distinct ks → Distinct (ks ++ k ∷ [])
  Distinct-concat k [] h d = (tt, tt)
  Distinct-concat k (j ∷ ks) (n, h) (f, d) =
      (Fresh-concat j k ks f (λ e. n (sym e)), Distinct-concat k ks h d)

  module _ {κ} {A : Type κ} (key : A → K) (p : A → Bool) where
    pub Fresh-keep_if :
        (k : K) (xs : List A) → Fresh k (map key xs) → Fresh k (map key (keep_if p xs))
    unfolding keep_if
    Fresh-keep_if k [] h = tt
    Fresh-keep_if k (x ∷ xs) (n, h) = elim (Bool-cases (p x)) [
      | inl hit ↦ rw (hit, keep_if) (n, Fresh-keep_if k xs h)
      | inr miss ↦ rw (miss, keep_if) (Fresh-keep_if k xs h)
    ]

    pub Distinct-keep_if : (xs : List A) → Distinct (map key xs) → Distinct (map key (keep_if p xs))
    unfolding keep_if
    Distinct-keep_if [] d = tt
    Distinct-keep_if (x ∷ xs) (f, d) = elim (Bool-cases (p x)) [
      | inl hit ↦ rw (hit, keep_if) (Fresh-keep_if (key x) xs f, Distinct-keep_if xs d)
      | inr miss ↦ rw (miss, keep_if) (Distinct-keep_if xs d)
    ]

  pub Fresh-map {κ} :
      {A : Type κ} (key : A → K) (k : K) (xs : List A)
      → All (λ x. key x ≢ k) xs
      → Fresh k (map key xs)
  Fresh-map key k [] h = tt
  Fresh-map key k (x ∷ xs) (n, h) = (n, Fresh-map key k xs h)
