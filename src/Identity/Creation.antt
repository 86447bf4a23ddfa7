-- ===== src/Identity/Creation.antt =====
-- `RandStringBytes` of internal/util/util.go, and how api_key.go, auth_key.go and system_api_key.go
-- of internal/domain make a key and save it. The numbers drawn, the id and bcrypt's hash of a
-- password are arguments; an error of bcrypt or a letter out of range is a panic, which is `none`.
use Prim.Native.Char.{Char}
use Prim.Native.String.{◌++◌ as append_text}
use ionskale.Prelude.Options.{◌>>=◌}
use ionskale.Prelude.{
  ℕ, zero, suc, String, List, [], ◌∷◌, Bool, Option, none, some, ◌==◌, ◌≡◌, true, ltb, All,
  if◌then◌else◌,
}
use ionskale.Machine.{User, Tailnet}
use ionskale.Tags.{string, value, scan}
use ionskale.Identity.{ApiKey, AuthKey, SystemApiKey, Keys}

abbrev pub letter_bytes : String
letter_bytes = "abcdefghijklmnopqrstuvwxyzABCDEFGHIJKLMNOPQRSTUVWXYZ"

unfoldable pub letter_at : String → ℕ → Option Char
letter_at String.[] i = none
letter_at (String.◌∷◌ c s) zero = some c
letter_at (String.◌∷◌ c s) (suc i) = letter_at s i

-- `len(letterBytes)`.
unfoldable pub letters : String → ℕ
letters String.[] = 0
letters (String.◌∷◌ c s) = suc (letters s)

-- What `rand.Int` draws for the letters.
unfoldable pub InRange : List ℕ → Type 0
unfolding letters
InRange draws = All (λ i. ltb i (letters letter_bytes) ≡ true) draws

-- The text of the numbers that were drawn, one for each letter.
unfoldable pub rand_string_bytes : List ℕ → Option String
unfolding letter_at
rand_string_bytes [] = some ""
rand_string_bytes (i ∷ draws) = do
  c ← letter_at letter_bytes i
  s ← rand_string_bytes draws
  some (String.◌∷◌ c s)

-- `fmt.Sprintf("%s_%s", key, pwd)`.
abbrev pub key_value : String → String → String
key_value key pwd = append_text key (String.◌∷◌ "_" pwd)

-- What a key is made of: the two texts that are drawn, and the hash of the second.
pub record Drawn : Type 0 where
  pub key : String
  pub pwd : String
  pub hash : String

module _ (generate_hash : String → Option String) where
  unfoldable pub draw : List ℕ → List ℕ → Option Drawn
  unfolding rand_string_bytes
  draw key_draws pwd_draws = do
    key ← rand_string_bytes key_draws
    pwd ← rand_string_bytes pwd_draws
    hash ← generate_hash pwd
    some (record { key = key; pwd = pwd; hash = hash })

  unfoldable pub create_api_key :
      List ℕ → List ℕ → Tailnet → User → Option ℕ → Option (String × ApiKey)
  unfolding draw
  create_api_key key_draws pwd_draws tailnet user expires_at = do
    d ← draw key_draws pwd_draws
    some (
      key_value d.key d.pwd,
      record {
        key = d.key;
        hash = d.hash;
        expires_at = expires_at;
        user = user;
        tailnet = tailnet;
      },
    )

  unfoldable pub create_auth_key :
      List ℕ
      → List ℕ
      → ℕ
      → Tailnet
      → User
      → Bool
      → Bool
      → List String
      → Option ℕ
      → Option (String × AuthKey)
  unfolding draw
  create_auth_key key_draws pwd_draws id tailnet user ephemeral pre_authorized tags expires_at = do
    d ← draw key_draws pwd_draws
    some (
      key_value d.key d.pwd,
      record {
        id = id;
        key = d.key;
        hash = d.hash;
        ephemeral = ephemeral;
        pre_authorized = pre_authorized;
        tags = tags;
        expires_at = expires_at;
        user = user;
        tailnet = tailnet;
      },
    )

  unfoldable pub create_system_api_key : List ℕ → List ℕ → Option ℕ → Option (String × SystemApiKey)
  unfolding draw
  create_system_api_key key_draws pwd_draws expires_at = do
    d ← draw key_draws pwd_draws
    some (
      append_text "sk_" (key_value d.key d.pwd),
      record { key = d.key; hash = d.hash; expires_at = expires_at },
    )

-- The row of an id is replaced, and a new id is a new row.
abbrev pub put_auth_key : List AuthKey → AuthKey → List AuthKey
put_auth_key [] k = k ∷ []
put_auth_key (l ∷ ls) k = let rest = put_auth_key ls k in if l.id == k.id then k ∷ ls else l ∷ rest

abbrev pub or_no_tags : Option (List String) → List String
or_no_tags none = []
or_no_tags (some tags) = tags

-- What `Tags.Scan` reads of the column that `Tags.Value` writes.
unfoldable pub read_back : List String → List String
unfolding scan value
read_back tags = or_no_tags (scan (string (value tags)))

-- A row holds a key as a query reads it: its tags went through their column.
unfoldable pub save_auth_key : Keys → AuthKey → Keys
unfolding read_back
save_auth_key keys k =
    let row = record k { tags = read_back k.tags } in
    record keys { auth_keys = put_auth_key keys.auth_keys row }
