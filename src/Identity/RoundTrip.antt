-- ===== src/Identity/RoundTrip.antt =====
-- internal/domain/auth_key.go: from the text that `CreateAuthKey` returns to the row that
-- `LoadAuthKey` finds with it.
use Prim.Native.Char.{Char, code}
use ionskale.Prelude.{
  ℕ, zero, suc, String, List, [], ◌∷◌, ◌≡◌, ◌∙◌, refl, ap, subst, Bool, ltb, true, false, Option,
  some, ◌==◌, All, arith, str_eq, eq_refl, some_inj, take_first,
}
use ionskale.Prelude.Options.{>>=-some}
use ionskale.Strconv.{split}
use ionskale.Strconv.Join.{lacks, separable, split-append, split-lacks}
use ionskale.Tags.RoundTrip.{scan-value}
use ionskale.Machine.{User, Tailnet}
use ionskale.Identity.{AuthKey, Keys, loaded, is_past, load_auth_key}
use ionskale.Identity.Creation.{
  letter_bytes, letter_at, rand_string_bytes, key_value, draw, letters, InRange, create_auth_key,
  put_auth_key, or_no_tags, read_back, save_auth_key,
}

letter_at-lacks :
    (c d : Char) (s : String) (i : ℕ)
    → lacks c s ≡ true
    → letter_at s i ≡ some d
    → (code d == code c) ≡ false
unfolding lacks letter_at
letter_at-lacks c d String.[] i h e = cc
letter_at-lacks c d (String.◌∷◌ x s) zero h e =
    let same = some_inj e in subst (λ y. (code y == code c) ≡ false) same (ground arith)
letter_at-lacks c d (String.◌∷◌ x s) (suc i) h e = letter_at-lacks c d s i (ground arith) e

-- No text that is drawn has an underscore.
rand_string_bytes-lacks :
    (draws : List ℕ) (s : String) → rand_string_bytes draws ≡ some s → lacks "_" s ≡ true
unfolding rand_string_bytes lacks
rand_string_bytes-lacks [] s h = let same = some_inj h in subst (λ t. lacks "_" t ≡ true) same refl
rand_string_bytes-lacks (i ∷ draws) s h =
    let (c, at, more) = >>=-some _ _ s h in
    let (rest, drawn, same) = >>=-some _ _ s more in
    let letter = letter_at-lacks "_" c letter_bytes i refl at in
    let others = rand_string_bytes-lacks draws rest drawn in
    subst (λ t. lacks "_" t ≡ true) (some_inj same) (ground (arith, letter, others))

take_first-put_auth_key :
    (ls : List AuthKey) (k : AuthKey)
    → All (λ l. str_eq l.key k.key ≡ false) ls
    → take_first (λ l. str_eq l.key k.key) (put_auth_key ls k) ≡ some k
take_first-put_auth_key [] k h = ground (arith, eq_refl k.key)
take_first-put_auth_key (l ∷ ls) k h =
    ground (arith, eq_refl k.key, take_first-put_auth_key ls k h.1)

letter_at-some :
    (s : String) (i : ℕ) → ltb i (letters s) ≡ true → (c : Char) × (letter_at s i ≡ some c)
unfolding letter_at letters
letter_at-some String.[] i h = absurd (ground arith)
letter_at-some (String.◌∷◌ c s) zero h = (c, refl)
letter_at-some (String.◌∷◌ c s) (suc i) h = letter_at-some s i (ground arith)

-- Numbers below the count of the letters give a text.
rand_string_bytes-some :
    (draws : List ℕ) → InRange draws → (s : String) × (rand_string_bytes draws ≡ some s)
unfolding rand_string_bytes InRange
rand_string_bytes-some [] h = ("", refl)
rand_string_bytes-some (i ∷ draws) (low, more) =
    let (c, at) = letter_at-some letter_bytes i low in
    let (s, e) = rand_string_bytes-some draws more in (String.◌∷◌ c s, rw (at, e) refl)

split-key_value :
    (key_draws pwd_draws : List ℕ) (key pwd : String)
    → rand_string_bytes key_draws ≡ some key
    → rand_string_bytes pwd_draws ≡ some pwd
    → split b'_' (key_value key pwd) ≡ key ∷ pwd ∷ []
split-key_value key_draws pwd_draws key pwd drawn chosen =
    split-append "_" key pwd (rand_string_bytes-lacks key_draws key drawn)
    ∙ ap (λ ps. key ∷ ps) (split-lacks "_" pwd (rand_string_bytes-lacks pwd_draws pwd chosen))

read_back-separable : (tags : List String) → separable "|" tags ≡ true → read_back tags ≡ tags
unfolding read_back
read_back-separable tags h = ap or_no_tags (scan-value tags h)

-- An auth key is made from numbers below the count of the letters, and once it is saved, the text
-- that was returned for it loads it again, with the user and the tags it was made with, which went
-- through their column. No tag is empty or has a `|` in it, no other row has the key's name, it has
-- not expired, and bcrypt makes a hash of the password and accepts it.
pub load_auth_key-create_auth_key :
    (generate_hash : String → Option String) (compare_hash : String → String → Bool) (now id : ℕ)
    (key_draws pwd_draws : List ℕ) (tailnet : Tailnet) (user : User)
    (ephemeral pre_authorized : Bool) (tags : List String) (expires_at : Option ℕ) (keys : Keys)
    → InRange key_draws
    → InRange pwd_draws
    → ((pwd : String)
        → rand_string_bytes pwd_draws ≡ some pwd
        → (hash : String) × (generate_hash pwd ≡ some hash) × (compare_hash hash pwd ≡ true))
    → ((key : String)
        → rand_string_bytes key_draws ≡ some key
        → All (λ l. str_eq l.key key ≡ false) keys.auth_keys)
    → is_past now expires_at ≡ false
    → separable "|" tags ≡ true
    → (value : String) × (k : AuthKey) × (create_auth_key generate_hash key_draws pwd_draws id
          tailnet user ephemeral pre_authorized tags expires_at
        ≡ some (value, k))
      × (load_auth_key compare_hash now (save_auth_key keys k) value ≡ loaded k)
      × (k.tags ≡ tags)
      × (k.user ≡ user)
unfolding create_auth_key draw save_auth_key load_auth_key
load_auth_key-create_auth_key generate_hash compare_hash now id key_draws pwd_draws tailnet user
      ephemeral pre_authorized tags expires_at keys low lower bcrypt fresh valid plain =
    let (key, drawn) = rand_string_bytes-some key_draws low in
    let (pwd, chosen) = rand_string_bytes-some pwd_draws lower in
    let (hash, made, accepted) = bcrypt pwd chosen in
    let k : AuthKey = record {
      id = id;
      key = key;
      hash = hash;
      ephemeral = ephemeral;
      pre_authorized = pre_authorized;
      tags = tags;
      expires_at = expires_at;
      user = user;
      tailnet = tailnet;
    } in
    (
      key_value key pwd,
      k,
      rw (drawn, chosen, made) refl,
      rw
          (
            split-key_value key_draws pwd_draws key pwd drawn chosen,
            read_back-separable tags plain,
            take_first-put_auth_key keys.auth_keys k (fresh key drawn),
            accepted,
            valid,
          )
          refl,
      refl,
      refl,
    )
