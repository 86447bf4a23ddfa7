-- ===== src/Tags.antt =====
-- The column of internal/domain/tags.go: how a list of tags is written to the database and read
-- again. CheckTag is a function of the tailcfg package.
pub mod RoundTrip
use Prim.Native.String.{◌++◌ as append_text}
use ionskale.Prelude.{ℕ, String, List, [], ◌∷◌, Option, none, some, if◌then◌else◌}
use ionskale.Strconv.{split}
use ionskale.Strconv.Join.{join, trim, is_blank}

-- What a driver hands to `Scan`: a text, or a value of another type.
pub data Column : Type 0 where
  string : String → Column
  other : Column

-- `Tags.Value`.
unfoldable pub value : List String → String
unfolding join
value [] = ""
value (t ∷ ts) = append_text "|" (append_text (join "|" (t ∷ ts)) "|")

abbrev parts : String → List String
parts t = if is_blank t then [] else split b'|' t

-- `Tags.Scan`, `none` on its error.
unfoldable pub scan : Column → Option (List String)
unfolding trim split
scan (string s) = some (parts (trim "|" s))
scan other = none
