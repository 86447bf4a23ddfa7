-- ===== src/Examples/Issuing.antt =====
-- Keys that are made, and columns of tags.
use ionskale.Prelude.{
  ◌≡◌, refl, String, [], ◌∷◌, true, false, Option, none, some, All, str_eq, eq_refl, subst,
  some_inj,
}
use ionskale.Strconv.Join.{separable}
use ionskale.Tags.{string, value, scan}
use ionskale.Tags.RoundTrip.{scan-value}
use ionskale.Machine.{Tailnet, User}
use ionskale.Acl.Owners.{Owns}
use ionskale.Identity.{
  Keys, AuthKey, loaded, is_past, load_auth_key, is_system_admin, user_role_admin,
}
use ionskale.Strconv.Join.{separable}
use ionskale.Identity.Creation.{rand_string_bytes, create_auth_key, save_auth_key, InRange}
use ionskale.Identity.RoundTrip.{load_auth_key-create_auth_key}
use ionskale.Registration.Handlers.{sanitize_tags}
use ionskale.Service.{answer}
use ionskale.Service.AuthKeys.{KeyStore, KeyRequest, Draws, get_tailnet, issue_auth_key}
use ionskale.Service.Issued.{issue_auth_key-Owns}
use ionskale.Examples.Data.{alice, tailnet}
use ionskale.Examples.Calls.{admin_alice}

scan-value_example :
    scan (string (value ("tag:ci" ∷ "tag:web" ∷ []))) ≡ some ("tag:ci" ∷ "tag:web" ∷ [])
unfolding separable
scan-value_example = scan-value ("tag:ci" ∷ "tag:web" ∷ []) refl

-- A hash that is the text itself.
abbrev same_text : String → Option String
same_text s = some s

abbrev other_key : AuthKey
other_key = record {
  id = 3;
  key = "zz";
  hash = "pw";
  ephemeral = false;
  pre_authorized = false;
  tags = [];
  expires_at = none;
  user = alice;
  tailnet = tailnet;
}

abbrev stored : Keys
stored = record { api_keys = []; auth_keys = other_key ∷ []; system_api_keys = [] }

unused_name :
    (key : String)
    → rand_string_bytes (0 ∷ 1 ∷ []) ≡ some key
    → All (λ l. str_eq l.key key ≡ false) stored.auth_keys
unfolding rand_string_bytes
unused_name key h = (subst (λ s. str_eq "zz" s ≡ false) (some_inj h) refl, tt)

accepted :
    (pwd : String)
    → rand_string_bytes (2 ∷ 51 ∷ []) ≡ some pwd
    → (hash : String) × (same_text pwd ≡ some hash) × (str_eq hash pwd ≡ true)
accepted pwd h = (pwd, refl, eq_refl pwd)

load_auth_key-create_auth_key_example :
    (text : String) × (k : AuthKey) × (create_auth_key same_text
        (0 ∷ 1 ∷ [])
        (2 ∷ 51 ∷ [])
        7
        tailnet
        alice
        true
        true
        ("tag:ci" ∷ [])
        (some 90)
      ≡ some (text, k))
    × (load_auth_key str_eq 50 (save_auth_key stored k) text ≡ loaded k)
    × (k.tags ≡ "tag:ci" ∷ [])
    × (k.user ≡ alice)
unfolding InRange rand_string_bytes is_past separable
load_auth_key-create_auth_key_example =
    load_auth_key-create_auth_key same_text str_eq 50 7 (0 ∷ 1 ∷ []) (2 ∷ 51 ∷ []) tailnet alice
      true true ("tag:ci" ∷ []) (some 90) stored (refl, (refl, tt)) (refl, (refl, tt)) accepted
      unused_name refl refl

abbrev store : KeyStore
store = record { keys = stored; tailnets = tailnet ∷ []; users = alice ∷ [] }

abbrev web_key : KeyRequest
web_key = record {
  tailnet_id = 1;
  tags = "tag:web" ∷ [];
  ephemeral = false;
  pre_authorized = true;
  expiry = none;
}

abbrev draws : Draws
draws = record { key = 0 ∷ 1 ∷ []; pwd = 2 ∷ 51 ∷ []; key_id = 7; user_id = 8 }

abbrev issued : AuthKey
issued = record {
  id = 7;
  key = "ab";
  hash = "cZ";
  ephemeral = false;
  pre_authorized = true;
  tags = "tag:web" ∷ [];
  expires_at = none;
  user = alice;
  tailnet = tailnet;
}

issue_runs :
    issue_auth_key admin_alice store (λ t. true) same_text 50 draws web_key
    ≡ answer (record store { keys = save_auth_key stored issued }, "ab_cZ", issued)
unfolding issue_auth_key
issue_runs = refl

person : is_system_admin admin_alice ≡ false
unfolding is_system_admin
person = refl

issue_auth_key-Owns_example :
    (u : User) × (t : Tailnet) × (admin_alice.user ≡ some u)
    × (u.tailnet_id ≡ 1)
    × (str_eq admin_alice.user_role user_role_admin ≡ true)
    × (get_tailnet store 1 ≡ some t)
    × (issued.tailnet ≡ t)
    × (issued.user ≡ u)
    × (issued.tags ≡ sanitize_tags ("tag:web" ∷ []))
    × All (Owns t.acl_policy u) ("tag:web" ∷ [])
issue_auth_key-Owns_example =
    issue_auth_key-Owns admin_alice store (λ t. true) same_text 50 draws web_key
      (record store { keys = save_auth_key stored issued }) "ab_cZ" issued issue_runs person
