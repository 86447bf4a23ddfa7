-- ===== src/Strconv.antt =====
-- The parts of Go's strings and strconv packages that the modelled code uses.
pub mod Join
use Prim.Native.Char.{Char, code}
use mathlib.Core.Option
use ionskale.Prelude.{
  ℕ, ◌+◌, ◌-◌, ◌*◌, ◌^◌, String, List, [], ◌∷◌, Bool, true, false, ◌&&◌, Option, none, some, ◌==◌,
  ltb, leb, if◌then◌else◌,
}
use ionskale.Prelude.Int.{ℤ, pos, neg}

push_head : Char → List String → List String
push_head c [] = String.◌∷◌ c String.[] ∷ []
push_head c (p ∷ ps) = String.◌∷◌ c p ∷ ps

-- `strings.Split` at a separator of one character: at least one part.
unfoldable pub split : ℕ → String → List String
unfolding push_head
split sep String.[] = String.[] ∷ []
split sep (String.◌∷◌ c s) =
    let rest = split sep s in if code c == sep then String.[] ∷ rest else push_head c rest

abbrev grow : Char → Option (String × String) → String → ℕ → Option (String × String)
grow c (some (before, after)) s sep = some (String.◌∷◌ c before, after)
grow c none s sep = if code c == sep then some (String.[], s) else none

-- The texts before and after the last separator: `strings.LastIndex` and the two slices there.
unfoldable pub split_last : ℕ → String → Option (String × String)
split_last sep String.[] = none
split_last sep (String.◌∷◌ c s) = grow c (split_last sep s) s sep

unfoldable pub is_digit : ℕ → Bool
is_digit c = leb b'0' c && leb c b'9'

-- The digits read so far, as a number.
digits_from : ℕ → String → Option ℕ
unfolding is_digit
digits_from acc String.[] = some acc
digits_from acc (String.◌∷◌ c s) =
    let rest = digits_from (acc * 10 + (code c - b'0')) s in
    if is_digit (code c) then rest else none

unfoldable pub parse_digits : String → Option ℕ
unfolding digits_from
parse_digits String.[] = none
parse_digits (String.◌∷◌ c s) = digits_from 0 (String.◌∷◌ c s)

-- What a number read so far has to stay below.
abbrev below : ℕ → Option ℕ → Option ℕ
below bound none = none
below bound (some n) = if ltb n bound then some n else none

-- `strconv.ParseUint(s, 10, 16)`, `none` on an error.
unfoldable pub parse_uint16 : String → Option ℕ
unfolding parse_digits
parse_uint16 s = below (2 ^ 16) (parse_digits s)

-- `strconv.Atoi` with a 64-bit `int`, `none` on an error.
unfoldable pub atoi : String → Option ℤ
unfolding parse_digits
atoi String.[] = none
atoi (String.◌∷◌ c s) =
    if code c == b'-'
    then Option.map neg (below (2 ^ 63 + 1) (parse_digits s))
    else if code c == b'+'
    then Option.map pos (below (2 ^ 63) (parse_digits s))
    else Option.map pos (below (2 ^ 63) (parse_digits (String.◌∷◌ c s)))

-- `strings.HasPrefix` and `strings.TrimPrefix` in one: what follows the prefix, where there is one.
unfoldable pub cut_prefix : String → String → Option String
cut_prefix String.[] s = some s
cut_prefix (String.◌∷◌ c p) String.[] = none
cut_prefix (String.◌∷◌ c p) (String.◌∷◌ d s) =
    let rest = cut_prefix p s in if code c == code d then rest else none

abbrev is_found : Option String → Bool
is_found none = false
is_found (some s) = true

abbrev pub has_text_prefix : String → String → Bool
has_text_prefix p s = is_found (cut_prefix p s)

abbrev trimmed : String → Option String → String
trimmed s none = s
trimmed s (some rest) = rest

unfoldable pub trim_prefix : String → String → String
unfolding cut_prefix
trim_prefix p s = trimmed s (cut_prefix p s)
