-- ===== src/Base/Search.antt =====
-- The program's loops over a slice: the first element that passes a test, an update through a
-- pointer to that element, and the copy of the elements that pass.
use mathlib.Core.Path.{◌≡◌, refl, subst, ap}
use mathlib.Core.Logic.{inl, inr}
use mathlib.Core.List.{List, [], ◌∷◌, ◌++◌, map}
use mathlib.Core.Bool.{Bool, true, false}
use mathlib.Core.Option.{Option, none, some}
use native.Mathlib.Omega.{arith}
use nz.Base.Tests.{if◌then◌else◌, Bool-cases}
use nz.Base.Lists.{All}

module _ {ℓ} {A : Type ℓ} where
  unfoldable pub find_first : (A → Bool) → List A → Option A
  find_first p [] = none
  find_first p (x ∷ xs) = if p x then some x else find_first p xs

  -- A write through the pointer that the search returned; no match changes nothing.
  unfoldable pub modify_first : (A → Bool) → (A → A) → List A → List A
  modify_first p f [] = []
  modify_first p f (x ∷ xs) = if p x then f x ∷ xs else x ∷ modify_first p f xs

  unfoldable pub keep_if : (A → Bool) → List A → List A
  keep_if p [] = []
  keep_if p (x ∷ xs) = if p x then x ∷ keep_if p xs else keep_if p xs

  unfoldable pub any : (A → Bool) → List A → Bool
  any p [] = false
  any p (x ∷ xs) = if p x then true else any p xs

  pub find_first-test : (p : A → Bool) (xs : List A) (x : A) → find_first p xs ≡ some x → p x ≡ true
  unfolding find_first
  find_first-test p [] x e = cc
  find_first-test p (y ∷ xs) x e = ground (arith, find_first-test p xs x)

  pub find_first-none :
      (p : A → Bool) (xs : List A) → find_first p xs ≡ none → All (λ x. p x ≡ false) xs
  unfolding find_first
  find_first-none p [] e = tt
  find_first-none p (y ∷ xs) e = ground (arith, find_first-none p xs)

  pub none-find_first :
      (p : A → Bool) (xs : List A) → All (λ x. p x ≡ false) xs → find_first p xs ≡ none
  unfolding find_first
  none-find_first p [] h = refl
  none-find_first p (y ∷ xs) (miss, h) = ground (arith, none-find_first p xs h)

  pub find_first-All {κ} :
      (P : A → Type κ) (p : A → Bool) (xs : List A) (x : A)
      → All P xs
      → find_first p xs ≡ some x
      → P x
  unfolding find_first
  find_first-All P p [] x h e = cc
  find_first-All P p (y ∷ xs) x (q, h) e = elim (Bool-cases (p y)) [
    | inl hit ↦ let same : y ≡ x = ground arith in subst P same q
    | inr miss ↦ find_first-All P p xs x h (ground arith)
  ]

  pub keep_if-All {κ} :
      (P : A → Type κ) (p : A → Bool) (xs : List A) → All P xs → All P (keep_if p xs)
  unfolding keep_if
  keep_if-All P p [] h = tt
  keep_if-All P p (x ∷ xs) (q, h) = elim (Bool-cases (p x)) [
    | inl hit ↦ rw (hit, keep_if) (q, keep_if-All P p xs h)
    | inr miss ↦ rw (miss, keep_if) (keep_if-All P p xs h)
  ]

  pub keep_if-test : (p : A → Bool) (xs : List A) → All (λ x. p x ≡ true) (keep_if p xs)
  unfolding keep_if
  keep_if-test p [] = tt
  keep_if-test p (x ∷ xs) = elim (Bool-cases (p x)) [
    | inl hit ↦ rw (hit, keep_if) (hit, keep_if-test p xs)
    | inr miss ↦ rw (miss, keep_if) (keep_if-test p xs)
  ]

  pub modify_first-All {κ} :
      (P : A → Type κ) (p : A → Bool) (f : A → A) (xs : List A)
      → ((x : A) → p x ≡ true → P x → P (f x))
      → All P xs
      → All P (modify_first p f xs)
  unfolding modify_first
  modify_first-All P p f [] k h = tt
  modify_first-All P p f (x ∷ xs) k (q, h) = elim (Bool-cases (p x)) [
    | inl hit ↦ rw (hit, modify_first) (k x hit q, h)
    | inr miss ↦ rw (miss, modify_first) (q, modify_first-All P p f xs k h)
  ]

  -- What an update leaves alone in the element it changes, it leaves alone in the list.
  pub map-modify_first {κ} :
      {K : Type κ} (key : A → K) (p : A → Bool) (f : A → A) (xs : List A)
      → ((x : A) → p x ≡ true → key (f x) ≡ key x)
      → map key (modify_first p f xs) ≡ map key xs
  unfolding modify_first
  map-modify_first key p f [] k = refl
  map-modify_first key p f (x ∷ xs) k = ground (arith, k x, map-modify_first key p f xs k)

  -- The same, where only the element that is found is known to keep its key.
  pub map-modify_first_at {κ} :
      {K : Type κ} (key : A → K) (p : A → Bool) (f : A → A) (xs : List A) (x : A)
      → find_first p xs ≡ some x
      → key (f x) ≡ key x
      → map key (modify_first p f xs) ≡ map key xs
  unfolding find_first modify_first
  map-modify_first_at key p f [] x e k = refl
  map-modify_first_at key p f (y ∷ xs) x e k = elim (Bool-cases (p y)) [
    | inl hit ↦
        let same : x ≡ y = ground arith in
        rw (hit, modify_first) (ap (λ z. z ∷ map key xs) (subst (λ z. key (f z) ≡ key z) same k))
    | inr miss ↦
        rw (miss, modify_first)
          (ap (◌∷◌ (key y)) (map-modify_first_at key p f xs x (ground arith) k))
  ]

  pub any-false : (p : A → Bool) (xs : List A) → any p xs ≡ false → All (λ x. p x ≡ false) xs
  unfolding any
  any-false p [] e = tt
  any-false p (x ∷ xs) e = ground (arith, any-false p xs)

  -- The first hit is still found after an update that keeps it a hit.
  pub find_first-modify_first :
      (p : A → Bool) (f : A → A) (xs : List A) (x : A)
      → find_first p xs ≡ some x
      → p (f x) ≡ true
      → find_first p (modify_first p f xs) ≡ some (f x)
  unfolding find_first modify_first
  find_first-modify_first p f [] x e k = cc
  find_first-modify_first p f (y ∷ xs) x e k = elim (Bool-cases (p y)) [
    | inl hit ↦ let same : y ≡ x = ground arith in rw (hit, modify_first, find_first, same, k) refl
    | inr miss ↦
        rw (miss, modify_first, find_first, miss)
          (find_first-modify_first p f xs x (ground arith) k)
  ]

  pub find_first-append :
      (p : A → Bool) (xs ys : List A)
      → find_first p xs ≡ none
      → find_first p (xs ++ ys) ≡ find_first p ys
  unfolding find_first
  find_first-append p [] ys e = refl
  find_first-append p (x ∷ xs) ys e = ground (arith, e, find_first-append p xs ys)
