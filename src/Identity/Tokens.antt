-- ===== src/Identity/Tokens.antt =====
-- internal/service/interceptors.go and internal/token/token.go: from the token of a call to the
-- principal that makes it. The decoding and decryption of a system token, and SHA-256, are fields
-- of `TokenLib`.
use ionskale.Prelude.{
  ℕ, String, List, [], ◌∷◌, ◌+◌, ◌*◌, ◌^◌, Bool, true, false, not, ◌&&◌, Option, none, some, ◌==◌,
  ltb, str_eq, length, is_empty, if◌then◌else◌,
}
use ionskale.Strconv.{cut_prefix, has_text_prefix}
use ionskale.Machine.{Bytes}
use ionskale.Identity.{
  Principal, Keys, ApiKey, SystemApiKey, Loaded, absent, loaded, crashed, load_api_key,
  load_system_api_key, get_role, system_role_none, system_role_admin, user_role_none,
}

-- token.Info.
pub record Info : Type 0 where
  pub nonce : String
  pub creation_time : ℕ

-- `none` is an error of the decoding, and of `unmarshal`, which opens a message with the private
-- key and reads its JSON.
pub record TokenLib : Type 0 where
  pub trim_space : String → String
  pub base58_decoding : String → Option Bytes
  pub unmarshal : Bytes → Option Info
  pub base64_decode : String → Option Bytes
  pub sha256 : String → String
  pub compare_hash : String → String → Bool

abbrev pub nonce_length : ℕ
nonce_length = 16

-- A minute.
abbrev pub drift_compensation : ℕ
drift_compensation = 60 * 10 ^ 9

unfoldable pub is_system_admin_token : String → Bool
unfolding cut_prefix
is_system_admin_token token = has_text_prefix "st_" token

-- What is asked of the time in a token: `Before(now - drift)` is read with the drift on the other side.
unfoldable pub is_timely : ℕ → ℕ → Bool
is_timely now t =
    not (t == 0) && not (ltb (now + drift_compensation) t) && not (ltb (t + drift_compensation) now)

-- config.ServiceToken, and the entry made of one.
pub record ServiceTokenEntry : Type 0 where
  pub name : String
  pub digest : String

-- `lookup` of serviceTokens: every entry is compared, and the last that matches gives the name.
abbrev pub last_match : String → List ServiceTokenEntry → Option String → Option String
last_match digest [] found = found
last_match digest (e ∷ entries) found =
    last_match digest entries (if str_eq digest e.digest then some e.name else found)

abbrev pub service_admin : String → Principal
service_admin service_name = record {
  system_role = system_role_admin;
  user = none;
  user_role = user_role_none;
  service_name = service_name;
}

abbrev pub user_principal : ApiKey → Principal
user_principal k = record {
  system_role = system_role_none;
  user = some k.user;
  user_role = get_role k.tailnet k.user;
  service_name = "";
}

abbrev pub is_info : Option Info → Bool
is_info none = false
is_info (some i) = true

-- `LoadSystemApiKey`, and what follows it.
abbrev pub by_system_api_key : Loaded SystemApiKey → Loaded Principal
by_system_api_key absent = absent
by_system_api_key (loaded k) = loaded (service_admin "")
by_system_api_key crashed = crashed

abbrev pub by_api_key : Loaded ApiKey → Loaded Principal → Loaded Principal
by_api_key absent rest = rest
by_api_key (loaded k) rest = loaded (user_principal k)
by_api_key crashed rest = crashed

abbrev pub by_service : Option String → Loaded Principal
by_service none = absent
by_service (some name) = loaded (service_admin name)

module _ (lib : TokenLib) (now : ℕ) where
  open lib use {trim_space, base58_decoding, unmarshal, base64_decode, sha256, compare_hash}

  -- The nonce and the time of a token that was read.
  abbrev pub checked_info : Info → Option Info
  unfolding is_timely
  checked_info info = elim (base64_decode info.nonce) [
    | none ↦ none
    | some bytes ↦
        if length bytes == nonce_length && is_timely now info.creation_time then some info else none
  ]

  abbrev pub opened : Bytes → Option Info
  opened blob = elim (unmarshal blob) [ none ↦ none | some info ↦ checked_info info ]

  unfoldable pub parse_system_admin_token : String → Option Info
  unfolding cut_prefix is_timely
  parse_system_admin_token versioned = elim (cut_prefix "st_" (trim_space versioned)) [
    | none ↦ none
    | some token ↦ elim (base58_decoding token) [
      | none ↦ none
      | some blob ↦ if is_empty blob then none else opened blob
    ]
  ]

  unfoldable pub lookup_service : List ServiceTokenEntry → String → Option String
  lookup_service entries value = last_match (sha256 value) entries none

  -- `has_key` is whether there is a system admin key.
  unfoldable pub exchange_token : Bool → List ServiceTokenEntry → Keys → String → Loaded Principal
  unfolding is_system_admin_token parse_system_admin_token cut_prefix lookup_service load_api_key
      load_system_api_key get_role
  exchange_token has_key services keys value =
      if str_eq value ""
      then absent
      else if has_key && is_system_admin_token value && is_info (parse_system_admin_token value)
      then loaded (service_admin "")
      else if has_text_prefix "svc_" value
      then by_service (lookup_service services value)
      else by_api_key (load_api_key compare_hash now keys value)
          (by_system_api_key (load_system_api_key compare_hash now keys value))
