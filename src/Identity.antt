-- ===== src/Identity.antt =====
-- Who calls: internal/domain/principal.go, the roles of user.go and iam.go, api_key.go,
-- auth_key.go and system_api_key.go. The rows that these read are in `Keys`; bcrypt's comparison of
-- a hash with a password is the parameter `compare_hash`. Times are nanoseconds, the zero time is 0.
pub mod Tokens
pub mod Loads
pub mod Granted
pub mod Creation
pub mod RoundTrip
use ionskale.Prelude.{
  ℕ, String, List, [], ◌∷◌, Bool, true, false, not, ◌&&◌, ◌||◌, Option, none, some, ◌==◌, ltb,
  take_first, str_eq, lookup, if◌then◌else◌,
}
use ionskale.Strconv.{split}
use ionskale.Machine.{User, Tailnet}

-- `SystemRole` and `UserRole`, with their constants.
abbrev pub system_role_none : String
system_role_none = ""

abbrev pub system_role_admin : String
system_role_admin = "admin"

abbrev pub user_role_none : String
user_role_none = ""

abbrev pub user_role_member : String
user_role_member = "member"

abbrev pub user_role_admin : String
user_role_admin = "admin"

pub record Principal : Type 0 where
  pub system_role : String
  pub user : Option User
  pub user_role : String
  pub service_name : String

unfoldable pub is_system_admin : Principal → Bool
is_system_admin p = str_eq p.system_role system_role_admin

-- The two questions follow the pointer `p.User`: without a user they panic, which is `none`.
unfoldable pub is_tailnet_admin : Principal → ℕ → Option Bool
is_tailnet_admin p tailnet_id = elim p.user [
  | none ↦ none
  | some u ↦ some (u.tailnet_id == tailnet_id && str_eq p.user_role user_role_admin)
]

unfoldable pub is_tailnet_member : Principal → ℕ → Option Bool
is_tailnet_member p tailnet_id = elim p.user [
  | none ↦ none
  | some u ↦ some (u.tailnet_id == tailnet_id)
]

-- `CurrentPrincipal`, with what the context holds.
unfoldable pub current_principal : Option Principal → Principal
current_principal none = record {
  system_role = system_role_none;
  user = none;
  user_role = user_role_none;
  service_name = "";
}
current_principal (some p) = p

abbrev pub or_member : Option String → String
or_member none = user_role_member
or_member (some role) = role

unfoldable pub get_role : Tailnet → User → String
unfolding lookup
get_role t u = or_member (lookup u.name t.iam_policy.roles)

pub record ApiKey : Type 0 where
  pub key : String
  pub hash : String
  pub expires_at : Option ℕ
  pub user : User
  pub tailnet : Tailnet

pub record AuthKey : Type 0 where
  pub id : ℕ
  pub key : String
  pub hash : String
  pub ephemeral : Bool
  pub pre_authorized : Bool
  pub tags : List String
  pub expires_at : Option ℕ
  pub user : User
  pub tailnet : Tailnet

pub record SystemApiKey : Type 0 where
  pub key : String
  pub hash : String
  pub expires_at : Option ℕ

pub record Keys : Type 0 where
  pub api_keys : List ApiKey
  pub auth_keys : List AuthKey
  pub system_api_keys : List SystemApiKey

-- What a load gives: nil, a value, or a panic.
pub data Loaded {ℓ} (A : Type ℓ) : Type ℓ where
  absent : Loaded A
  loaded : A → Loaded A
  crashed : Loaded A

-- A search that found nothing ends a load.
infixl 5 ◌>>=◌
abbrev pub ◌>>=◌ {ℓ κ} : {A : Type ℓ} {B : Type κ} → Option A → (A → Loaded B) → Loaded B
none >>= f = absent
some a >>= f = f a

-- `t != nil && !t.IsZero() && t.Before(now)`.
unfoldable pub is_past : ℕ → Option ℕ → Bool
is_past now none = false
is_past now (some t) = not (t == 0) && ltb t now

-- A key of two parts: its name and its password.
abbrev pub two_parts : List String → Option (String × String)
two_parts (key ∷ password ∷ []) = some (key, password)
two_parts _ = none

abbrev pub three_parts : List String → Option (String × String × String)
three_parts (prefix ∷ key ∷ value ∷ []) = some (prefix, key, value)
three_parts _ = none

module _ (compare_hash : String → String → Bool) (now : ℕ) where
  abbrev pub checked_api_key : String → ApiKey → Loaded ApiKey
  unfolding is_past
  checked_api_key password m =
      if compare_hash m.hash password
      then if is_past now m.expires_at then absent else loaded m
      else absent

  unfoldable pub load_api_key : Keys → String → Loaded ApiKey
  unfolding split is_past
  load_api_key keys value = do
    (key, password) ← two_parts (split b'_' value)
    m ← take_first (λ k. str_eq k.key key) keys.api_keys
    checked_api_key password m

  abbrev pub checked_auth_key : String → AuthKey → Loaded AuthKey
  unfolding is_past
  checked_auth_key password m =
      if compare_hash m.hash password
      then if is_past now m.expires_at then absent else loaded m
      else absent

  unfoldable pub load_auth_key : Keys → String → Loaded AuthKey
  unfolding split is_past
  load_auth_key keys value = do
    (key, password) ← two_parts (split b'_' value)
    m ← take_first (λ k. str_eq k.key key) keys.auth_keys
    checked_auth_key password m

  -- `m.ExpiresAt.IsZero()` follows the pointer: without an expiry it panics.
  abbrev pub checked_system_api_key : String → SystemApiKey → Loaded SystemApiKey
  checked_system_api_key value m =
      if compare_hash m.hash value
      then elim m.expires_at [
        | none ↦ crashed
        | some t ↦ if not (t == 0) && ltb t now then absent else loaded m
      ]
      else absent

  unfoldable pub load_system_api_key : Keys → String → Loaded SystemApiKey
  unfolding split
  load_system_api_key keys token = do
    (prefix, key, value) ← three_parts (split b'_' token)
    m ← if str_eq prefix "sk" then take_first (λ k. str_eq k.key key) keys.system_api_keys else none
    checked_system_api_key value m
