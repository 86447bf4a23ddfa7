-- ===== src/Tags/RoundTrip.antt =====
-- internal/domain/tags.go: `Scan` after `Value`.
use text.Mathlib.TextLemmas.{nil-append, cons-append}
use Prim.Native.String.{◌++◌ as append_text}
use ionskale.Prelude.{String, List, [], ◌∷◌, true, some, ◌≡◌, refl, ap}
use ionskale.Strconv.Join.{join, separable, join-blank, split-join, trim-join}
use ionskale.Tags.{string, value, scan}

-- A list of tags that is written to its column and read again is the same list, where no tag
-- is empty or has a `|` in it.
pub scan-value :
    (tags : List String) → separable "|" tags ≡ true → scan (string (value tags)) ≡ some tags
unfolding value scan
scan-value [] h = refl
scan-value (t ∷ ts) h =
    rw
      (
        cons-append "|" "" (append_text (join "|" (t ∷ ts)) "|"),
        nil-append (append_text (join "|" (t ∷ ts)) "|"),
        trim-join "|" t ts h,
        join-blank "|" t ts h,
      )
      (ap some (split-join "|" t ts h))
