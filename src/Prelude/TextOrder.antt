-- ===== src/Prelude/TextOrder.antt =====
-- The order of texts that `sort.Strings` uses is a strict total order.
use Prim.Native.Char.{code}
use Prim.Native.String.compare
use Prim.Native.Nat.{ℕ, Ordering, compare as compare_ℕ}
use Prim.Native.String.{String, [], ◌∷◌, compare, then}
use mathlib.Core.Path.{◌≡◌}
use mathlib.Core.Bool.{true, false}
use native.Mathlib.Omega.{arith}
use text.Mathlib.TextEquality.{path_by_compare}
use ionskale.Prelude.Texts.{str_lt}

abbrev flip : Ordering → Ordering
flip Ordering.lt = Ordering.gt
flip Ordering.eq = Ordering.eq
flip Ordering.gt = Ordering.lt

flip-then :
    (m n : ℕ) (o p : Ordering) → o ≡ flip p → then (compare_ℕ m n) o ≡ flip (then (compare_ℕ n m) p)
flip-then m n o p h = ground arith

compare-flip : (s t : String) → compare s t ≡ flip (compare t s)
compare-flip [] [] = rw compare.nil-nil
compare-flip [] (d ∷ t) = rw (compare.nil-cons, compare.cons-nil)
compare-flip (c ∷ s) [] = rw (compare.nil-cons, compare.cons-nil)
compare-flip (c ∷ s) (d ∷ t) =
    rw (compare.cons-cons c d s t, compare.cons-cons d c t s)
      (flip-then (code c) (code d) (compare s t) (compare t s) (compare-flip s t))

pub str_lt_total : (s t : String) → str_lt s t ≡ false → str_lt t s ≡ false → s ≡ t
str_lt_total s t p q = path_by_compare s t (ground (arith, compare-flip s t))

pub str_lt_asymm : (s t : String) → str_lt s t ≡ true → str_lt t s ≡ false
str_lt_asymm s t p = ground (arith, compare-flip s t)

pub str_lt_irrefl : (s : String) → str_lt s s ≡ false
str_lt_irrefl s = ground (arith, compare-flip s s)

then_trans :
    (l m n : ℕ) (o p q : Ordering)
    → (o ≡ Ordering.lt → p ≡ Ordering.lt → q ≡ Ordering.lt)
    → then (compare_ℕ l m) o ≡ Ordering.lt
    → then (compare_ℕ m n) p ≡ Ordering.lt
    → then (compare_ℕ l n) q ≡ Ordering.lt
then_trans l m n o p q f h k = ground arith

compare_trans :
    (s t u : String)
    → compare s t ≡ Ordering.lt
    → compare t u ≡ Ordering.lt
    → compare s u ≡ Ordering.lt
compare_trans [] [] u p q = q
compare_trans [] (d ∷ t) [] p q = cc (compare.cons-nil d t)
compare_trans [] (d ∷ t) (e ∷ u) p q = compare.nil-cons e u
compare_trans (c ∷ s) [] u p q = cc (compare.cons-nil c s)
compare_trans (c ∷ s) (d ∷ t) [] p q = cc (compare.cons-nil d t)
compare_trans (c ∷ s) (d ∷ t) (e ∷ u) p q = rw (compare.cons-cons c e s u) (
    then_trans (code c) (code d) (code e) (compare s t) (compare t u) (compare s u)
      (compare_trans s t u) (rw (compare.cons-cons c d s t) at p)
      (rw (compare.cons-cons d e t u) at q))

pub str_lt_trans : (s t u : String) → str_lt s t ≡ true → str_lt t u ≡ true → str_lt s u ≡ true
str_lt_trans s t u p q = ground (arith, compare_trans s t u)
