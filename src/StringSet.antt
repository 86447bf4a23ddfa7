-- ===== src/StringSet.antt =====
-- internal/domain/acl.go: StringSet, the set by which the policy collects address texts.
-- A Go map of type map[string]bool is the list of its keys; Go gives them in no fixed order, and
-- `items` sorts them.
pub mod Laws
pub mod Order
use ionskale.Prelude.{
  String, List, [], ◌∷◌, ◌++◌, Bool, true, false, ◌||◌, if◌then◌else◌, is_empty, str_eq, str_lt,
  contains,
}

pub record StringSet : Type 0 where
  pub items : List String

-- `var s = &StringSet{}`.
abbrev pub empty : StringSet
empty = record { items = [] }

-- One round of the loop of `Add`: `s.items[v] = true`.
pub put : List String → String → List String
unfolding contains
put keys v = if contains keys v then keys else keys ++ v ∷ []

pub put_all : List String → List String → List String
unfolding put
put_all keys [] = keys
put_all keys (v ∷ vs) = put_all (put keys v) vs

unfoldable pub add : StringSet → List String → StringSet
unfolding put_all
add s t = record { items = put_all s.items t }

-- `sort.Strings`: the library routine is read as the insertion of each key at its place.
place : String → List String → List String
place x [] = x ∷ []
place x (y ∷ ys) = if str_lt y x then y ∷ place x ys else x ∷ y ∷ ys

pub sort_strings : List String → List String
unfolding place
sort_strings [] = []
sort_strings (x ∷ xs) = place x (sort_strings xs)

unfoldable pub items : StringSet → List String
unfolding sort_strings
items s = sort_strings s.items

unfoldable pub is_empty_set : StringSet → Bool
is_empty_set s = is_empty s.items
