-- ===== src/Identity/Granted.antt =====
-- internal/service/interceptors.go: which tokens make which principals.
use ionskale.Prelude.{
  take_first-Any, take_first, ℕ, String, List, [], ◌∷◌, ◌+◌, ◌≤◌, ◌≡◌, ◌⊎◌, inl, inr, refl, sym, ap,
  ◌∙◌, Bool, true, false, ◌&&◌, Option, none, some, Any, Option-cases, str_eq, if◌then◌else◌, ◌==◌,
  length, is_empty, subst,
}
use ionskale.Strconv.{split, cut_prefix, has_text_prefix}
use ionskale.Identity.{
  Principal, Keys, ApiKey, SystemApiKey, Loaded, absent, loaded, crashed, load_api_key, is_past,
  load_system_api_key, get_role, is_system_admin, two_parts, three_parts,
}
use ionskale.Identity.Tokens.{
  Info, TokenLib, ServiceTokenEntry, is_timely, drift_compensation, lookup_service,
  parse_system_admin_token, exchange_token, is_system_admin_token, is_info, by_service, by_api_key,
  by_system_api_key,
}
use ionskale.Identity.Loads.{
  last_match-Any, two_parts_eq, three_parts_eq, loaded_inj, named_key, >>=-loaded, guarded_load,
  checked_system_api_key-loaded, is_timely-bounds, guarded_row, bind_some, unless_some,
  guarded_some, last_true, branches,
}

module _ (lib : TokenLib) (now : ℕ) (services : List ServiceTokenEntry) (keys : Keys) where
  -- The token decodes to one that was made within a minute of now.
  abbrev pub IsSystemToken : String → Type 0
  IsSystemToken value =
      (info : Info) × (parse_system_admin_token lib now value ≡ some info)
      × (info.creation_time ≤ now + drift_compensation)
      × (now ≤ info.creation_time + drift_compensation)

  -- The token starts with `svc_` and has the digest of a configured service of that name.
  abbrev pub IsServiceToken : String → String → Type 0
  IsServiceToken value name =
      (has_text_prefix "svc_" value ≡ true)
      × Any (λ e. (str_eq (lib.sha256 value) e.digest ≡ true) × (e.name ≡ name)) services

  -- The token names a stored system key, has its password, and the key has not expired.
  abbrev pub IsSystemKey : String → SystemApiKey → Type 0
  IsSystemKey value k =
      Any (λ x. x ≡ k) keys.system_api_keys
      × (password : String) × (split b'_' value ≡ "sk" ∷ k.key ∷ password ∷ [])
      × (lib.compare_hash k.hash password ≡ true)
      × (is_past now k.expires_at ≡ false)

  -- The token names a stored API key, has its password, and the key has not expired.
  abbrev pub IsApiKey : String → ApiKey → Type 0
  IsApiKey value k =
      Any (λ x. x ≡ k) keys.api_keys
      × (password : String) × (split b'_' value ≡ k.key ∷ password ∷ [])
      × (lib.compare_hash k.hash password ≡ true)
      × (is_past now k.expires_at ≡ false)

  load_api_key-IsApiKey :
      (value : String) (k : ApiKey)
      → load_api_key lib.compare_hash now keys value ≡ loaded k
      → IsApiKey value k
  unfolding load_api_key
  load_api_key-IsApiKey value k h =
      let ((key, password), parts, h1) = >>=-loaded (two_parts (split b'_' value)) _ k h in
      let (m, row, h2) = >>=-loaded (take_first (λ x. str_eq x.key key) keys.api_keys) _ k h1 in
      let (same, hash, past) =
        guarded_load (lib.compare_hash m.hash password) (is_past now m.expires_at) m k h2 in
      let (at, named) = take_first-Any (λ x. str_eq x.key key) keys.api_keys m row in
      subst (IsApiKey value) same (
        at,
        password,
        two_parts_eq (split b'_' value) key password parts
            ∙ ap (λ j. j ∷ password ∷ []) (sym (named_key m.key key named)),
        hash,
        past,
      )

  load_system_api_key-IsSystemKey :
      (value : String) (k : SystemApiKey)
      → load_system_api_key lib.compare_hash now keys value ≡ loaded k
      → IsSystemKey value k
  unfolding load_system_api_key
  load_system_api_key-IsSystemKey value k h =
      let ((prefix, key, password), parts, h1) =
        >>=-loaded (three_parts (split b'_' value)) _ k h in
      let (m, found, h2) =
        >>=-loaded
          (if str_eq prefix "sk"
            then take_first (λ x. str_eq x.key key) keys.system_api_keys
            else none)
          _ k h1 in
      let (is_sk, row) = guarded_row (str_eq prefix "sk") m found in
      let (same, hash, past) =
        checked_system_api_key-loaded lib.compare_hash now password m k m.expires_at refl h2 in
      let (at, named) = take_first-Any (λ x. str_eq x.key key) keys.system_api_keys m row in
      subst (IsSystemKey value) same (
        at,
        password,
        three_parts_eq (split b'_' value) prefix key password parts
            ∙ ap (λ j. j ∷ key ∷ password ∷ []) (named_key prefix "sk" is_sk)
            ∙ ap (λ j. "sk" ∷ j ∷ password ∷ []) (sym (named_key m.key key named)),
        hash,
        past,
      )

  parse-is_timely :
      (value : String) (info : Info)
      → parse_system_admin_token lib now value ≡ some info
      → is_timely now info.creation_time ≡ true
  unfolding parse_system_admin_token is_timely
  parse-is_timely value info h =
      let (token, _, h1) = bind_some (cut_prefix "st_" (lib.trim_space value)) _ info h in
      let (blob, _, h2) = bind_some (lib.base58_decoding token) _ info h1 in
      let (read, _, h3) =
        bind_some (lib.unmarshal blob) _ info (unless_some (is_empty blob) info h2) in
      let (bytes, _, h4) = bind_some (lib.base64_decode read.nonce) _ info h3 in
      let (same, timely) =
        guarded_some (length bytes == 16) (is_timely now read.creation_time) read info h4 in
      subst (λ i. is_timely now i.creation_time ≡ true) same timely

  -- A system admin without a user, by one of three tokens; or the user of an API key, with the role
  -- that the tailnet's policy gives the user.
  abbrev pub IsEntitled : String → Principal → Type 0
  IsEntitled value p =
      (((p.user ≡ none) × (is_system_admin p ≡ true))
        × (IsSystemToken value
            ⊎ IsServiceToken value p.service_name
            ⊎ ((k : SystemApiKey) × IsSystemKey value k)))
      ⊎ ((k : ApiKey) × IsApiKey value k
          × (p.user ≡ some k.user)
          × (p.user_role ≡ get_role k.tailnet k.user)
          × (is_system_admin p ≡ false))

  system_token :
      (value : String)
      → is_info (parse_system_admin_token lib now value) ≡ true
      → IsSystemToken value
  system_token value h = parsed (Option-cases (parse_system_admin_token lib now value))
    where
      parsed :
          (parse_system_admin_token lib now value ≡ none)
            ⊎ ((i : Info) × (parse_system_admin_token lib now value ≡ some i))
          → IsSystemToken value
      parsed (inl e) = absurd (let z : false ≡ true = rw e at h in cc)
      parsed (inr (info, e)) =
          let (early, late) =
            is_timely-bounds now info.creation_time (parse-is_timely value info e) in
          (info, e, early, late)

  by_api_key-IsEntitled :
      (value : String) (p : Principal)
      → by_api_key
          (load_api_key lib.compare_hash now keys value)
          (by_system_api_key (load_system_api_key lib.compare_hash now keys value))
        ≡ loaded p
      → IsEntitled value p
  unfolding is_system_admin
  by_api_key-IsEntitled value p h =
      by_key (load_api_key lib.compare_hash now keys value)
        (load_system_api_key lib.compare_hash now keys value) refl refl h
    where
      by_key :
          (a : Loaded ApiKey) (s : Loaded SystemApiKey)
          → load_api_key lib.compare_hash now keys value ≡ a
          → load_system_api_key lib.compare_hash now keys value ≡ s
          → by_api_key a (by_system_api_key s) ≡ loaded p
          → IsEntitled value p
      by_key (loaded k) s e f h =
          subst (IsEntitled value) (loaded_inj h)
            (inr (k, load_api_key-IsApiKey value k e, refl, refl, refl))
      by_key absent (loaded k) e f h =
          subst (IsEntitled value) (loaded_inj h)
            (inl ((refl, refl), inr (inr (k, load_system_api_key-IsSystemKey value k f))))
      by_key absent absent e f h = absurd (let z : absent ≡ loaded p = h in cc)
      by_key absent crashed e f h = absurd (let z : crashed ≡ loaded p = h in cc)
      by_key crashed s e f h = absurd (let z : crashed ≡ loaded p = h in cc)

  by_service-IsEntitled :
      (value : String) (p : Principal)
      → has_text_prefix "svc_" value ≡ true
      → by_service (lookup_service lib now services value) ≡ loaded p
      → IsEntitled value p
  unfolding lookup_service is_system_admin
  by_service-IsEntitled value p pre h = named (lookup_service lib now services value) refl h
    where
      named :
          (found : Option String)
          → lookup_service lib now services value ≡ found
          → by_service found ≡ loaded p
          → IsEntitled value p
      named none e h = absurd (let z : absent ≡ loaded p = h in cc)
      named (some name) e h = subst (IsEntitled value) (loaded_inj h) (
          inl (
            (refl, refl),
            inr (inl (pre, found_name (last_match-Any (lib.sha256 value) services none name e))),
          ))
        where
          found_name :
              (none ≡ some name)
                ⊎ Any (λ e. (str_eq (lib.sha256 value) e.digest ≡ true) × (e.name ≡ name)) services
              → Any (λ e. (str_eq (lib.sha256 value) e.digest ≡ true) × (e.name ≡ name)) services
          found_name (inl z) = absurd (let y : none ≡ some name = z in cc)
          found_name (inr any) = any

  -- Where a token is exchanged for a principal: either the principal is a system admin without a user, and the
  -- token is a system token made within a minute of now, a configured service token of that name,
  -- or the unexpired system key of a row with its password; or the token is the unexpired API key of
  -- a row with its password, and the principal is its user with the role of the tailnet's policy,
  -- and no system admin.
  pub exchange_token-IsEntitled :
      (has_key : Bool) (value : String) (p : Principal)
      → exchange_token lib now has_key services keys value ≡ loaded p
      → IsEntitled value p
  unfolding exchange_token is_system_admin
  exchange_token-IsEntitled has_key value p h =
      let no_value = branches (str_eq value "") _ _ p h in
      elim no_value [
        | inl (_, z) ↦ absurd (let y : absent ≡ loaded p = z in cc)
        | inr (_, h1) ↦
            elim (branches
              (has_key
                && is_system_admin_token value
                && is_info (parse_system_admin_token lib now value))
              _ _ p h1) [
                | inl (parsed, z) ↦ subst (IsEntitled value) (loaded_inj z) (
                    inl (
                      (refl, refl),
                      inl (
                          system_token value
                            (last_true has_key (is_system_admin_token value) _ parsed)),
                    ))
                | inr (_, h2) ↦ elim (branches (has_text_prefix "svc_" value) _ _ p h2) [
                  | inl (pre, z) ↦ by_service-IsEntitled value p pre z
                  | inr (_, z) ↦ by_api_key-IsEntitled value p z
                ]
              ]
      ]

-- A token that starts with `svc_` is exchanged for the same, whichever keys are stored.
pub exchange_token-svc :
    (lib : TokenLib) (now : ℕ) (has_key : Bool) (services : List ServiceTokenEntry)
    (keys keys' : Keys) (value : String)
    → has_text_prefix "svc_" value ≡ true
    → exchange_token lib now has_key services keys value
      ≡ exchange_token lib now has_key services keys' value
unfolding exchange_token
exchange_token-svc lib now has_key services keys keys' value h = rw h refl
