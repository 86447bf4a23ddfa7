-- ===== src/StringSet/Laws.antt =====
-- internal/domain/acl.go: what the list that `StringSet.Items` returns holds, and in which order.
use ionskale.Prelude.{String, List, [], ◌∷◌, ◌++◌, ◌||◌, ◌≡◌, refl, arith, str_eq, eq_iff, contains}
use ionskale.StringSet.{StringSet, put, put_all, add, place, sort_strings, items}

pub contains-append :
    (xs ys : List String) (x : String) → contains (xs ++ ys) x ≡ (contains xs x || contains ys x)
unfolding contains
contains-append [] ys x = refl
contains-append (z ∷ xs) ys x = ground (arith, contains-append xs ys x)

pub contains-put :
    (keys : List String) (v x : String) → contains (put keys v) x ≡ (contains keys x || str_eq v x)
unfolding put contains
contains-put keys v x = ground (arith, contains-append keys (v ∷ []) x, eq_iff v x)

pub contains-put_all :
    (keys vs : List String) (x : String)
    → contains (put_all keys vs) x ≡ (contains keys x || contains vs x)
unfolding put_all contains
contains-put_all keys [] x = ground arith
contains-put_all keys (v ∷ vs) x =
    ground (arith, contains-put_all (put keys v) vs x, contains-put keys v x)

contains-place :
    (x : String) (ys : List String) (z : String)
    → contains (place x ys) z ≡ (str_eq x z || contains ys z)
unfolding place contains
contains-place x [] z = refl
contains-place x (y ∷ ys) z = ground (arith, contains-place x ys z)

pub contains-sort_strings :
    (xs : List String) (z : String) → contains (sort_strings xs) z ≡ contains xs z
unfolding sort_strings contains
contains-sort_strings [] z = refl
contains-sort_strings (x ∷ xs) z =
    ground (arith, contains-place x (sort_strings xs) z, contains-sort_strings xs z)

-- What `Items` returns after `Add` are the texts that were there and those that were added.
pub contains-items-add :
    (s : StringSet) (t : List String) (x : String)
    → contains (items (add s t)) x ≡ (contains (items s) x || contains t x)
unfolding items add
contains-items-add s t x = ground (
  arith,
  contains-sort_strings (put_all s.items t) x,
  contains-sort_strings s.items x,
  contains-put_all s.items t x,
)
