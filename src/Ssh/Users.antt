-- ===== src/Ssh/Users.antt =====
-- internal/domain/acl_ssh_policy.go: `buildSSHUsers`, the table of login names of a rule.
use ionskale.Prelude.{
  String, List, [], ◌∷◌, Bool, true, false, not, ◌&&◌, ◌||◌, ◌≡◌, ◌≢◌, refl, Option, none, some,
  arith, eq_iff, str_eq, contains, lookup, Bool-cases, inl, inr, if◌then◌else◌,
}

abbrev nonroot : String
nonroot = "autogroup:nonroot"

-- `m[k] = v`.
assign : String → String → List (String × String) → List (String × String)
assign k v [] = (k, v) ∷ []
assign k v ((j, w) ∷ m) = if str_eq j k then (k, v) ∷ m else (j, w) ∷ assign k v m

-- The loop over the names; the flag `autogroupNonRoot` comes with the table.
users_from : List (String × String) → Bool → List String → List (String × String) × Bool
unfolding assign
users_from m flag [] = (m, flag)
users_from m flag (u ∷ us) =
    let special = str_eq u nonroot in
    users_from (if special then assign "*" "=" m else assign u u m) (flag || special) us

abbrev is_some : Option String → Bool
is_some none = false
is_some (some v) = true

-- Root is disabled where `autogroup:nonroot` is used and root is not listed itself.
abbrev close : List (String × String) × Bool → List (String × String)
close (m, flag) = if not (is_some (lookup "root" m)) && flag then assign "root" "" m else m

unfoldable pub build_ssh_users : List String → List (String × String)
unfolding users_from assign lookup
build_ssh_users users = close (users_from [] false users)

lookup-assign :
    (k j v : String) (m : List (String × String))
    → lookup j (assign k v m) ≡ (if str_eq k j then some v else lookup j m)
unfolding lookup assign
lookup-assign k j v [] = refl
lookup-assign k j v ((i, w) ∷ m) =
    ground (arith, eq_iff k j, eq_iff i k, eq_iff i j, lookup-assign k j v m)

users_from-flag :
    (m : List (String × String)) (flag : Bool) (users : List String)
    → (users_from m flag users).1 ≡ (flag || contains users nonroot)
unfolding users_from contains
users_from-flag m flag [] = ground arith
users_from-flag m flag (u ∷ us) = ground (
  arith,
  users_from-flag (if str_eq u nonroot then assign "*" "=" m else assign u u m)
      (flag || str_eq u nonroot) us,
)

-- What the wildcard stands for: the last entry for it decides, which is itself or the autogroup.
unfoldable pub wildcard : List String → Option String
wildcard [] = none
wildcard (u ∷ us) = elim (wildcard us) [
  | some v ↦ some v
  | none ↦ if str_eq u nonroot then some "=" else if str_eq u "*" then some "*" else none
]

abbrev or_else : Option String → Option String → Option String
or_else none w = w
or_else (some v) w = some v

-- A name but "*" is in the table exactly if it was there or is listed, and then logs in as itself.
users_from-lookup :
    (m : List (String × String)) (flag : Bool) (users : List String) (n : String)
    → n ≢ "*"
    → lookup n (users_from m flag users).0
      ≡ (if contains users n && not (str_eq n nonroot) then some n else lookup n m)
unfolding users_from contains
users_from-lookup m flag [] n p = refl
users_from-lookup m flag (u ∷ us) n p = ground (
  arith,
  users_from-lookup (if str_eq u nonroot then assign "*" "=" m else assign u u m)
      (flag || str_eq u nonroot) us n,
  lookup-assign "*" n "=" m,
  lookup-assign u n u m,
  eq_iff u n,
  eq_iff u nonroot,
  eq_iff n nonroot,
  eq_iff "*" n,
)

star_ne_nonroot : ◌≢◌ {A = String} "*" nonroot
star_ne_nonroot = ground (arith, eq_iff "*" nonroot)

users_from-wildcard :
    (m : List (String × String)) (flag : Bool) (users : List String)
    → lookup "*" (users_from m flag users).0 ≡ or_else (wildcard users) (lookup "*" m)
unfolding users_from wildcard
users_from-wildcard m flag [] = refl
users_from-wildcard m flag (u ∷ us) = ground (
  arith,
  users_from-wildcard (if str_eq u nonroot then assign "*" "=" m else assign u u m)
      (flag || str_eq u nonroot) us,
  lookup-assign "*" "*" "=" m,
  lookup-assign u "*" u m,
  eq_iff "*" "*",
  eq_iff u "*",
  eq_iff u nonroot,
  star_ne_nonroot,
)

lookup-nil : (n : String) → lookup n (let m : List (String × String) = [] in m) ≡ none
unfolding lookup
lookup-nil n = refl

-- What each name logs in as. The wildcard "*" stands for "=" (the name itself) or for "*", as the
-- last of the entries `autogroup:nonroot` and "*" says, and is absent if neither is listed. Any
-- other listed name but `autogroup:nonroot` logs in as itself. Root is refused if only
-- `autogroup:nonroot` is listed. Every other name is absent.
pub lookup-build_ssh_users :
    (users : List String) (n : String)
    → lookup n (build_ssh_users users) ≡ (
        if str_eq n "*"
        then wildcard users
        else if contains users n && not (str_eq n nonroot)
        then some n
        else if str_eq n "root" && contains users nonroot
        then some ""
        else none)
unfolding build_ssh_users
lookup-build_ssh_users users n = elim (Bool-cases (str_eq n "*")) [
  | inl e ↦ rw e (
      rw ((eq_iff n "*").0 e) (
        ground (
          arith,
          users_from-wildcard [] false users,
          users_from-lookup [] false users "root" root_ne_star,
          lookup-assign "root" "*" "" (users_from [] false users).0,
          eq_iff "root" "*",
          lookup-nil "*",
        )))
  | inr e ↦ rw e (
      ground (
        arith,
        users_from-flag [] false users,
        users_from-lookup [] false users n (λ f. let h = (eq_iff n "*").1 f in cc),
        users_from-lookup [] false users "root" root_ne_star,
        lookup-assign "root" n "" (users_from [] false users).0,
        eq_iff "root" n,
        eq_iff n "root",
        root_ne_nonroot,
        eq_iff "root" nonroot,
        lookup-nil n,
        lookup-nil "root",
      ))
]
  where
    root_ne_star : ◌≢◌ {A = String} "root" "*"
    root_ne_star = ground (arith, eq_iff "root" "*")

    root_ne_nonroot : ◌≢◌ {A = String} "root" nonroot
    root_ne_nonroot = ground (arith, eq_iff "root" nonroot)
