-- ===== src/Prelude/Lists.antt =====
-- Lists: loops that test, collect or search, under names that read as the loops do.
use Prim.Native.Nat.{ℕ, suc}
use mathlib.Core.Path.{◌≡◌, refl, sym, subst}
use mathlib.Core.Logic.{◌⊎◌, inl, inr}
use mathlib.Core.Bool.{Bool, true, false, ◌&&◌, ◌||◌}
use mathlib.Core.Option.{Option, none, some}
use mathlib.Core.List.{List, [], ◌∷◌, ◌++◌}
use native.Mathlib.Omega.{arith}
use ionskale.Prelude.Tests.{if◌then◌else◌, Bool-cases, some_inj}

module _ {ℓ} {A : Type ℓ} where
  abbrev pub length : List A → ℕ
  length [] = 0
  length (x ∷ xs) = suc (length xs)

  abbrev pub is_empty : List A → Bool
  is_empty [] = true
  is_empty (x ∷ xs) = false

  -- A loop that returns true at the first element that passes a test.
  abbrev pub any : (A → Bool) → List A → Bool
  any test [] = false
  any test (x ∷ xs) = test x || any test xs

  abbrev pub all : (A → Bool) → List A → Bool
  all test [] = true
  all test (x ∷ xs) = test x && all test xs

  -- A loop that appends the elements that pass a test.
  abbrev pub keep : (A → Bool) → List A → List A
  keep test [] = []
  keep test (x ∷ xs) = if test x then x ∷ keep test xs else keep test xs

  -- The first element that passes a test.
  abbrev pub take_first : (A → Bool) → List A → Option A
  take_first test [] = none
  take_first test (x ∷ xs) = if test x then some x else take_first test xs

  -- Some element has the property, and every element has it.
  abbrev pub Any : (A → Type 0) → List A → Type 0
  Any P [] = ⊥
  Any P (x ∷ xs) = P x ⊎ Any P xs

  abbrev pub All : (A → Type 0) → List A → Type 0
  All P [] = Unit
  All P (x ∷ xs) = P x × All P xs

module _ {A : Type 0} where
  -- A loop that found something points at an element.
  pub any-Any : (test : A → Bool) (xs : List A) → any test xs ≡ true → Any (λ x. test x ≡ true) xs
  any-Any test [] h = cc
  any-Any test (x ∷ xs) h = elim (Bool-cases (test x)) [
    | inl e ↦ inl e
    | inr e ↦ inr (any-Any test xs (ground arith))
  ]

  pub any_of_Any :
      (test : A → Bool) (xs : List A) → Any (λ x. test x ≡ true) xs → any test xs ≡ true
  any_of_Any test [] h = absurd h
  any_of_Any test (x ∷ xs) (inl e) = ground arith
  any_of_Any test (x ∷ xs) (inr h) = ground (arith, any_of_Any test xs h)

  pub Any-map : {P Q : A → Type 0} (xs : List A) → ((x : A) → P x → Q x) → Any P xs → Any Q xs
  Any-map [] f h = absurd h
  Any-map (x ∷ xs) f (inl p) = inl (f x p)
  Any-map (x ∷ xs) f (inr h) = inr (Any-map xs f h)

  pub All-map : {P Q : A → Type 0} (xs : List A) → ((x : A) → P x → Q x) → All P xs → All Q xs
  All-map [] f h = tt
  All-map (x ∷ xs) f (p, h) = (f x p, All-map xs f h)

  pub All-append : (P : A → Type 0) (xs ys : List A) → All P xs → All P ys → All P (xs ++ ys)
  All-append P [] ys h k = k
  All-append P (x ∷ xs) ys (p, h) k = (p, All-append P xs ys h k)

  -- What holds of every element holds of the one that a loop found.
  pub Any-All : (P Q : A → Type 0) (xs : List A) → All P xs → Any Q xs → Any (λ x. P x × Q x) xs
  Any-All P Q [] h k = absurd k
  Any-All P Q (x ∷ xs) (p, h) (inl q) = inl (p, q)
  Any-All P Q (x ∷ xs) (p, h) (inr k) = inr (Any-All P Q xs h k)

  -- An element with a property, and where it stands.
  pub Any_witness : {P : A → Type 0} (xs : List A) → Any P xs → (x : A) × Any (λ y. y ≡ x) xs × P x
  Any_witness [] h = absurd h
  Any_witness (x ∷ xs) (inl p) = (x, inl refl, p)
  Any_witness (x ∷ xs) (inr h) = let (y, at, p) = Any_witness xs h in (y, inr at, p)

module _ {A B : Type 0} where
  -- Two loops that find something, with the inner and the outer loop exchanged.
  pub any_swap :
      (f : A → B → Bool) (xs : List A) (ys : List B)
      → any (λ x. any (f x) ys) xs ≡ true
      → Any (λ y. any (λ x. f x y) xs ≡ true) ys
  any_swap f xs [] h = absurd (none_found xs h)
    where
      none_found : (zs : List A) → any (λ x. any (f x) []) zs ≡ true → ⊥
      none_found [] e = cc
      none_found (z ∷ zs) e = none_found zs e
  any_swap f xs (y ∷ ys) h = elim (Bool-cases (any (λ x. f x y) xs)) [
    | inl e ↦ inl e
    | inr e ↦ inr (any_swap f xs ys (later xs e h))
  ]
    where
      later :
          (zs : List A)
          → any (λ x. f x y) zs ≡ false
          → any (λ x. any (f x) (y ∷ ys)) zs ≡ true
          → any (λ x. any (f x) ys) zs ≡ true
      later [] e k = k
      later (z ∷ zs) e k = ground (arith, later zs)

module _ {A : Type 0} where
  -- A test that does not depend on the element can be made once.
  pub any-guard : (b : Bool) (f : A → Bool) (xs : List A) → any (λ x. b && f x) xs ≡ (b && any f xs)
  any-guard b f [] = ground arith
  any-guard b f (x ∷ xs) = ground (arith, any-guard b f xs)

  -- What a search finds is one of the elements, and passes the test.
  pub take_first-Any :
      (test : A → Bool) (xs : List A) (a : A)
      → take_first test xs ≡ some a
      → Any (λ x. x ≡ a) xs × (test a ≡ true)
  take_first-Any test [] a h = absurd (let z : none ≡ some a = h in cc)
  take_first-Any test (x ∷ xs) a h = elim (Bool-cases (test x)) [
    | inl e ↦ ground (arith, some_inj (let same : some x ≡ some a = rw e at h in same))
    | inr e ↦ let (at, passes) = take_first-Any test xs a (rw e at h) in (inr at, passes)
  ]

  pub any-take_first :
      (test : A → Bool) (xs : List A) (a : A) → take_first test xs ≡ some a → any test xs ≡ true
  any-take_first test xs a h =
      let (at, passes) = take_first-Any test xs a h in
      any_of_Any test xs (Any-map xs (λ x e. subst (λ y. test y ≡ true) (sym e) passes) at)

pub nil_of_empty {ℓ} : {A : Type ℓ} (xs : List A) → is_empty xs ≡ true → xs ≡ []
nil_of_empty [] h = refl
nil_of_empty (x ∷ xs) h = cc
