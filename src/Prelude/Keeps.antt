-- ===== src/Prelude/Keeps.antt =====
-- Lists with the elements that pass a test, and what a search finds in them.
use mathlib.Core.Path.{◌≡◌, refl, ap}
use mathlib.Core.Bool.{Bool, true, false, ◌&&◌, ◌||◌}
use mathlib.Core.Logic.{inl, inr}
use mathlib.Core.List.{List, [], ◌∷◌, ◌++◌}
use native.Mathlib.Omega.{arith}
use ionskale.Prelude.Tests.{Bool-cases}
use ionskale.Prelude.Lists.{any, keep}

module _ {ℓ} {A : Type ℓ} where
  pub keep-keep : (p q : A → Bool) (xs : List A) → keep p (keep q xs) ≡ keep (λ x. q x && p x) xs
  keep-keep p q [] = refl
  keep-keep p q (x ∷ xs) = elim (Bool-cases (q x)) [
    | inr e ↦ rw e (keep-keep p q xs)
    | inl e ↦ rw e (elim (Bool-cases (p x)) [
      | inl f ↦ rw f (ap (λ ys. x ∷ ys) (keep-keep p q xs))
      | inr f ↦ rw f (keep-keep p q xs)
    ])
  ]

  pub keep_same : (p q : A → Bool) (xs : List A) → ((x : A) → p x ≡ q x) → keep p xs ≡ keep q xs
  keep_same p q [] h = refl
  keep_same p q (x ∷ xs) h = elim (Bool-cases (q x)) [
    | inl e ↦ rw (h x, e) (ap (λ ys. x ∷ ys) (keep_same p q xs h))
    | inr e ↦ rw (h x, e) (keep_same p q xs h)
  ]

  pub keep_every : (p : A → Bool) (xs : List A) → ((x : A) → p x ≡ true) → keep p xs ≡ xs
  keep_every p [] h = refl
  keep_every p (x ∷ xs) h = rw (h x) (ap (λ ys. x ∷ ys) (keep_every p xs h))

  pub any_same : (p q : A → Bool) (xs : List A) → ((x : A) → p x ≡ q x) → any p xs ≡ any q xs
  any_same p q [] h = refl
  any_same p q (x ∷ xs) h = rw (h x, any_same p q xs h) refl

  pub any_never : (p : A → Bool) (xs : List A) → ((x : A) → p x ≡ false) → any p xs ≡ false
  any_never p [] h = refl
  any_never p (x ∷ xs) h = rw (h x, any_never p xs h) refl

  pub any-keep : (p q : A → Bool) (xs : List A) → any p (keep q xs) ≡ any (λ x. q x && p x) xs
  any-keep p q [] = refl
  any-keep p q (x ∷ xs) = elim (Bool-cases (q x)) [
    | inl e ↦ rw (e, any-keep p q xs) refl
    | inr e ↦ rw (e, any-keep p q xs) refl
  ]

  pub any-append : (p : A → Bool) (xs ys : List A) → any p (xs ++ ys) ≡ (any p xs || any p ys)
  any-append p [] ys = refl
  any-append p (x ∷ xs) ys = rw (any-append p xs ys) (ground arith)

  pub any-or : (p q : A → Bool) (xs : List A) → any (λ x. p x || q x) xs ≡ (any p xs || any q xs)
  any-or p q [] = refl
  any-or p q (x ∷ xs) = rw (any-or p q xs) (ground arith)

  pub none_any : (xs : List A) → any (λ x. true) xs ≡ false → xs ≡ []
  none_any [] h = refl
  none_any (x ∷ xs) h = cc
