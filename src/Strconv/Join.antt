-- ===== src/Strconv/Join.antt =====
-- strings.Join and strings.Trim at one character, beside strings.Split: the texts that a separator
-- keeps apart.
use Prim.Native.Char.{Char, code}
use Prim.Native.String.{◌++◌ as append_text}
use text.Mathlib.TextLemmas.{nil-append, cons-append, append-nil}
use ionskale.Prelude.{
  String, List, [], ◌∷◌, Bool, true, false, not, ◌&&◌, ◌==◌, ◌≡◌, refl, ◌∙◌, ap, subst, arith,
  if◌then◌else◌,
}
use ionskale.Strconv.{split, push_head}

-- `strings.Join` with a separator of one character.
unfoldable pub join : Char → List String → String
join c [] = String.[]
join c (p ∷ []) = p
join c (p ∷ q ∷ ps) = append_text p (String.◌∷◌ c (join c (q ∷ ps)))

abbrev pub is_blank : String → Bool
is_blank String.[] = true
is_blank (String.◌∷◌ c s) = false

unfoldable pub trim_left : Char → String → String
trim_left c String.[] = String.[]
trim_left c (String.◌∷◌ d s) =
    let rest = trim_left c s in if code d == code c then rest else String.◌∷◌ d s

unfoldable pub trim_right : Char → String → String
trim_right c String.[] = String.[]
trim_right c (String.◌∷◌ d s) =
    let rest = trim_right c s in
    if code d == code c && is_blank rest then String.[] else String.◌∷◌ d rest

-- `strings.Trim` with a cutset of one character.
unfoldable pub trim : Char → String → String
unfolding trim_left trim_right
trim c s = trim_left c (trim_right c s)

-- A text without the character.
unfoldable pub lacks : Char → String → Bool
lacks c String.[] = true
lacks c (String.◌∷◌ d s) = not (code d == code c) && lacks c s

-- Texts that a separator can be put between: none holds it and none is empty.
unfoldable pub separable : Char → List String → Bool
unfolding lacks
separable c [] = true
separable c (p ∷ ps) = lacks c p && not (is_blank p) && separable c ps

pub split-lacks : (c : Char) (p : String) → lacks c p ≡ true → split (code c) p ≡ p ∷ []
unfolding lacks split push_head
split-lacks c String.[] h = refl
split-lacks c (String.◌∷◌ d p) h = ground (arith, split-lacks c p)

-- The first part ends at the first separator.
pub split-append :
    (c : Char) (p s : String)
    → lacks c p ≡ true
    → split (code c) (append_text p (String.◌∷◌ c s)) ≡ p ∷ split (code c) s
unfolding lacks split push_head
split-append c String.[] s h = rw (nil-append (String.◌∷◌ c s)) ground arith
split-append c (String.◌∷◌ d p) s h =
    rw (cons-append d p (String.◌∷◌ c s)) ground (arith, split-append c p s)

-- What is joined at a separator and split there again are the same texts.
pub split-join :
    (c : Char) (p : String) (ps : List String)
    → separable c (p ∷ ps) ≡ true
    → split (code c) (join c (p ∷ ps)) ≡ p ∷ ps
unfolding separable join
split-join c p [] h = split-lacks c p (ground arith)
split-join c p (q ∷ ps) h =
    split-append c p (join c (q ∷ ps)) (ground arith)
    ∙ ap (λ rest. p ∷ rest) (split-join c q ps (ground arith))

-- A text that trimming leaves as it is.
trim_right-lacks : (c : Char) (p : String) → lacks c p ≡ true → trim_right c p ≡ p
unfolding lacks trim_right
trim_right-lacks c String.[] h = refl
trim_right-lacks c (String.◌∷◌ d p) h = ground (arith, trim_right-lacks c p)

is_blank-append : (s t : String) → is_blank t ≡ false → is_blank (append_text s t) ≡ false
is_blank-append String.[] t b = rw (nil-append t) b
is_blank-append (String.◌∷◌ d s) t b = rw (cons-append d s t) refl

trim_right-append :
    (c : Char) (s t : String)
    → trim_right c t ≡ t
    → is_blank t ≡ false
    → trim_right c (append_text s t) ≡ append_text s t
unfolding trim_right
trim_right-append c String.[] t h b = rw (nil-append t) h
trim_right-append c (String.◌∷◌ d s) t h b =
    rw (cons-append d s t, trim_right-append c s t h b) (ground (arith, is_blank-append s t b))

-- The separator after a text goes away.
trim_right-closed :
    (c : Char) (s : String) → trim_right c (append_text s (String.◌∷◌ c String.[])) ≡ trim_right c s
unfolding trim_right
trim_right-closed c String.[] = rw (nil-append (String.◌∷◌ c String.[])) (ground arith)
trim_right-closed c (String.◌∷◌ d s) =
    rw (cons-append d s (String.◌∷◌ c String.[]), trim_right-closed c s) refl

trim_left-lacks :
    (c : Char) (p s : String)
    → lacks c p ≡ true
    → is_blank p ≡ false
    → trim_left c (append_text p s) ≡ append_text p s
unfolding lacks trim_left
trim_left-lacks c String.[] s h b = cc
trim_left-lacks c (String.◌∷◌ d p) s h b = rw (cons-append d p s) (ground arith)

pub join-blank :
    (c : Char) (p : String) (ps : List String)
    → separable c (p ∷ ps) ≡ true
    → is_blank (join c (p ∷ ps)) ≡ false
unfolding separable join
join-blank c p [] h = ground arith
join-blank c p (q ∷ ps) h = is_blank-append p (String.◌∷◌ c (join c (q ∷ ps))) refl

trim_right-join :
    (c : Char) (p : String) (ps : List String)
    → separable c (p ∷ ps) ≡ true
    → trim_right c (join c (p ∷ ps)) ≡ join c (p ∷ ps)
unfolding separable join trim_right
trim_right-join c p [] h = trim_right-lacks c p (ground arith)
trim_right-join c p (q ∷ ps) h =
    trim_right-append c p (String.◌∷◌ c (join c (q ∷ ps)))
      (rw (trim_right-join c q ps (ground arith)) (ground (arith, join-blank c q ps))) refl

trim_left-join :
    (c : Char) (p : String) (ps : List String)
    → separable c (p ∷ ps) ≡ true
    → trim_left c (join c (p ∷ ps)) ≡ join c (p ∷ ps)
unfolding separable join
trim_left-join c p [] h =
    subst (λ s. trim_left c s ≡ s) (append-nil p)
      (trim_left-lacks c p String.[] (ground arith) (ground arith))
trim_left-join c p (q ∷ ps) h =
    trim_left-lacks c p (String.◌∷◌ c (join c (q ∷ ps))) (ground arith) (ground arith)

-- Trimming takes the separators off that stand around joined texts, and nothing else.
pub trim-join :
    (c : Char) (p : String) (ps : List String)
    → separable c (p ∷ ps) ≡ true
    → trim c (String.◌∷◌ c (append_text (join c (p ∷ ps)) (String.◌∷◌ c String.[])))
      ≡ join c (p ∷ ps)
unfolding trim trim_left trim_right
trim-join c p ps h =
    rw (trim_right-closed c (join c (p ∷ ps)), trim_right-join c p ps h, join-blank c p ps h)
      (ground (arith, trim_left-join c p ps h))
