-- ===== src/Prelude/Texts.antt =====
-- Tests on texts, and the tables that Go's string-keyed maps are read as.
use Prim.Native.String.{String, compare}
use mathlib.Core.Bool.{Bool, true, false, ◌||◌}
use mathlib.Core.List.{List, [], ◌∷◌}
use mathlib.Core.Option.{Option, none, some}
use text.Mathlib.Text.{is_lt, ◌==◌ as text_eq}
use mathlib.Core.Path.{◌≡◌, refl}
use native.Mathlib.Omega.{arith}
use text.Mathlib.TextPositions.{eq_refl}
use ionskale.Prelude.Lists.{is_empty}
use ionskale.Prelude.Tests.{if◌then◌else◌}

abbrev pub str_eq : String → String → Bool
str_eq = text_eq

-- Go's `<` on strings: the bytes in order.
abbrev pub str_lt : String → String → Bool
str_lt s t = is_lt (compare s t)

-- `slices.Contains` on strings.
unfoldable pub contains : List String → String → Bool
contains [] x = false
contains (y ∷ ys) x = text_eq y x || contains ys x

-- A map with string keys: `lookup` finds the entry of a key, `none` where the map has none.
module _ {ℓ} {V : Type ℓ} where
  unfoldable pub lookup : String → List (String × V) → Option V
  lookup k [] = none
  lookup k ((j, v) ∷ m) = if text_eq j k then some v else lookup k m

-- Some text is in a list that is not empty.
pub some-contains : (xs : List String) → is_empty xs ≡ false → (x : String) × (contains xs x ≡ true)
unfolding contains
some-contains [] h = cc
some-contains (y ∷ ys) h = (y, ground (arith, eq_refl y))

pub not-empty_of_contains :
    (xs : List String) (x : String) → contains xs x ≡ true → is_empty xs ≡ false
unfolding contains
not-empty_of_contains [] x h = cc
not-empty_of_contains (y ∷ ys) x h = refl
