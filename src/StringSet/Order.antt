-- ===== src/StringSet/Order.antt =====
-- internal/domain/acl.go: the order of the list that `StringSet.Items` returns.
use ionskale.Prelude.{
  String, List, [], ◌∷◌, ◌++◌, true, false, ◌≡◌, refl, sym, arith, str_lt, eq_iff, eq_refl,
  contains, All, Bool-cases, inl, inr,
}
use ionskale.Prelude.TextOrder.{str_lt_total, str_lt_asymm, str_lt_trans, str_lt_irrefl}
use ionskale.StringSet.Laws.{contains-append, contains-sort_strings, contains-put_all}
use ionskale.StringSet.{empty, put, put_all, add, place, sort_strings, items}

abbrev Below : String → List String → Type 0
Below x ys = All (λ y. str_lt x y ≡ true) ys

-- Each text stands before all that follow: sorted, and with no text twice.
abbrev pub IsSorted : List String → Type 0
IsSorted [] = Unit
IsSorted (x ∷ xs) = Below x xs × IsSorted xs

abbrev HasNoRepeat : List String → Type 0
HasNoRepeat [] = Unit
HasNoRepeat (x ∷ xs) = (contains xs x ≡ false) × HasNoRepeat xs

append-HasNoRepeat :
    (keys : List String) (v : String)
    → HasNoRepeat keys
    → contains keys v ≡ false
    → HasNoRepeat (keys ++ v ∷ [])
unfolding contains
append-HasNoRepeat [] v h k = (refl, tt)
append-HasNoRepeat (x ∷ xs) v (h, hs) k = (
  ground (arith, contains-append xs (v ∷ []) x, eq_iff v x, eq_iff x v),
  append-HasNoRepeat xs v hs (ground arith),
)

put-HasNoRepeat : (keys : List String) (v : String) → HasNoRepeat keys → HasNoRepeat (put keys v)
unfolding put
put-HasNoRepeat keys v h = ground (arith, append-HasNoRepeat keys v h)

put_all-HasNoRepeat : (keys vs : List String) → HasNoRepeat keys → HasNoRepeat (put_all keys vs)
unfolding put_all
put_all-HasNoRepeat keys [] h = h
put_all-HasNoRepeat keys (v ∷ vs) h = put_all-HasNoRepeat (put keys v) vs (put-HasNoRepeat keys v h)

Below-trans : (x y : String) (zs : List String) → str_lt x y ≡ true → Below y zs → Below x zs
Below-trans x y [] h b = tt
Below-trans x y (z ∷ zs) h (p, b) = (str_lt_trans x y z h p, Below-trans x y zs h b)

place-Below :
    (a x : String) (ys : List String) → str_lt a x ≡ true → Below a ys → Below a (place x ys)
unfolding place
place-Below a x [] h b = (h, tt)
place-Below a x (y ∷ ys) h (p, b) = ground (arith, place-Below a x ys h b)

place-IsSorted :
    (x : String) (ys : List String) → IsSorted ys → contains ys x ≡ false → IsSorted (place x ys)
unfolding place contains
place-IsSorted x [] s h = (tt, tt)
place-IsSorted x (y ∷ ys) (b, s) h = elim (Bool-cases (str_lt y x)) [
  | inl lt ↦ rw lt (place-Below y x ys lt b, place-IsSorted x ys s (ground arith))
  | inr ge ↦
      let lt : str_lt x y ≡ true = ground (arith, str_lt_total x y, eq_iff y x) in
      rw ge ((lt, Below-trans x y ys lt b), (b, s))
]

sort_strings-IsSorted : (xs : List String) → HasNoRepeat xs → IsSorted (sort_strings xs)
unfolding sort_strings
sort_strings-IsSorted [] h = tt
sort_strings-IsSorted (x ∷ xs) (h, hs) =
    place-IsSorted x (sort_strings xs) (sort_strings-IsSorted xs hs)
      (rw (contains-sort_strings xs x) h)

-- The texts collected in a new set come out sorted and without repeats.
pub items-add-IsSorted : (t : List String) → IsSorted (items (add empty t))
unfolding items add
items-add-IsSorted t = sort_strings-IsSorted (put_all [] t) (put_all-HasNoRepeat [] t tt)

lt_of_contains :
    (a x : String) (ys : List String) → Below a ys → contains ys x ≡ true → str_lt a x ≡ true
unfolding contains
lt_of_contains a x [] b h = cc
lt_of_contains a x (y ∷ ys) (p, b) h = ground (arith, eq_iff y x, lt_of_contains a x ys b)

not-contains_of_Below : (x : String) (ys : List String) → Below x ys → contains ys x ≡ false
not-contains_of_Below x ys b = elim (Bool-cases (contains ys x)) [
  | inl h ↦ cc (lt_of_contains x x ys b h, str_lt_irrefl x)
  | inr h ↦ h
]

abbrev SameMembers : List String → List String → Type 0
SameMembers xs ys = (z : String) → contains xs z ≡ contains ys z

not-lt_of_SameMembers :
    (x y : String) (xs ys : List String)
    → IsSorted (y ∷ ys)
    → SameMembers (x ∷ xs) (y ∷ ys)
    → str_lt x y ≡ false
unfolding contains
not-lt_of_SameMembers x y xs ys (b, s) h = elim (Bool-cases (str_lt x y)) [
  | inl lt ↦ ground (
    arith,
    h x,
    eq_refl x,
    eq_iff y x,
    str_lt_asymm x y lt,
    str_lt_irrefl x,
    lt_of_contains y x ys b,
  )
  | inr ge ↦ ge
]

tail-SameMembers :
    (x : String) (xs ys : List String)
    → Below x xs
    → Below x ys
    → SameMembers (x ∷ xs) (x ∷ ys)
    → SameMembers xs ys
unfolding contains
tail-SameMembers x xs ys b c h z =
    ground (arith, h z, eq_iff x z, not-contains_of_Below x xs b, not-contains_of_Below x ys c)

IsSorted-unique : (xs ys : List String) → IsSorted xs → IsSorted ys → SameMembers xs ys → xs ≡ ys
unfolding contains
IsSorted-unique [] [] s t h = refl
IsSorted-unique [] (y ∷ ys) s t h = ground (arith, h y, eq_refl y)
IsSorted-unique (x ∷ xs) [] s t h = ground (arith, h x, eq_refl x)
IsSorted-unique (x ∷ xs) (y ∷ ys) s t h =
    let same : x ≡ y =
      str_lt_total x y (not-lt_of_SameMembers x y xs ys t h)
        (not-lt_of_SameMembers y x ys xs s (λ z. sym (h z))) in
    let rest = tail-SameMembers x xs ys s.0 (rw same t.0) (λ z. rw same (rw same at (h z))) in
    let tails : xs ≡ ys = IsSorted-unique xs ys s.1 t.1 rest in λ i. same i ∷ tails i

-- What a new set returns depends only on which texts were added: not on the order in which they
-- were added, not on repeats, and not on the order in which Go gives the keys of the map.
pub items-add_ext :
    (t u : List String)
    → ((x : String) → contains t x ≡ contains u x)
    → items (add empty t) ≡ items (add empty u)
unfolding items add contains
items-add_ext t u h = IsSorted-unique _ _ (items-add-IsSorted t) (items-add-IsSorted u) λ x.
    ground (
      arith,
      h x,
      contains-sort_strings (put_all [] t) x,
      contains-sort_strings (put_all [] u) x,
      contains-put_all [] t x,
      contains-put_all [] u x,
    )
