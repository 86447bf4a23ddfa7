-- ===== src/Service/AuthKeys.antt =====
-- internal/service/auth_keys.go, with the queries of internal/domain/auth_key.go and
-- `GetOrCreateServiceUser` of user.go. tailcfg.CheckTag and bcrypt are arguments, as are the ids and
-- the numbers drawn for a new key. A query of the database succeeds.
use ionskale.Prelude.{
  any, ℕ, ◌+◌, String, List, [], ◌∷◌, ◌++◌, Bool, not, ◌&&◌, ◌||◌, Option, none, some, ◌==◌, keep,
  is_empty, str_eq, take_first, if◌then◌else◌,
}
use ionskale.Machine.{User, Tailnet}
use ionskale.Acl.{check_tag_owners, user_type_service, is_some}
use ionskale.Identity.{Principal, Keys, AuthKey, is_system_admin}
use ionskale.Identity.Creation.{create_auth_key, save_auth_key}
use ionskale.Registration.Handlers.{sanitize_tags}
use ionskale.Service.{
  Answer, answer, crash, not_found, invalid_argument, ◌>>=◌, or_refused, demand, allowed,
}

-- The rows that these handlers read and write.
pub record KeyStore : Type 0 where
  pub keys : Keys
  pub tailnets : List Tailnet
  pub users : List User

unfoldable pub get_tailnet : KeyStore → ℕ → Option Tailnet
get_tailnet store id = take_first (λ t. t.id == id) store.tailnets

unfoldable pub get_auth_key : Keys → ℕ → Option AuthKey
get_auth_key keys id = take_first (λ k. k.id == id) keys.auth_keys

unfoldable pub delete_auth_key : Keys → ℕ → Keys
delete_auth_key keys id = record keys { auth_keys = keep (λ k. not (k.id == id)) keys.auth_keys }

unfoldable pub list_auth_keys : Keys → ℕ → List AuthKey
list_auth_keys keys t = keep (λ k. k.tailnet.id == t) keys.auth_keys

unfoldable pub list_auth_keys_by_tailnet_and_user : Keys → ℕ → ℕ → List AuthKey
list_auth_keys_by_tailnet_and_user keys t u =
    keep (λ k. k.tailnet.id == t && k.user.id == u) keys.auth_keys

abbrev is_service_user : Tailnet → User → Bool
is_service_user t u =
    str_eq u.name t.name && u.tailnet_id == t.id && str_eq u.user_type user_type_service

abbrev pub first_or_create : Option User → KeyStore → Tailnet → ℕ → KeyStore × User
first_or_create (some u) store t id = (store, u)
first_or_create none store t id =
    let u : User = record {
      id = id;
      name = t.name;
      user_type = user_type_service;
      tailnet_id = t.id;
      account_id = none;
      last_authenticated = none;
    } in
    (record store { users = store.users ++ u ∷ [] }, u)

unfoldable pub get_or_create_service_user : KeyStore → Tailnet → ℕ → KeyStore × User
get_or_create_service_user store t id =
    first_or_create (take_first (is_service_user t) store.users) store t id

-- The user of a new key: the principal's, or the tailnet's service user.
abbrev pub key_owner : Option User → KeyStore → Tailnet → ℕ → KeyStore × User
key_owner (some u) store t id = (store, u)
key_owner none store t id = get_or_create_service_user store t id

-- `CheckTagOwners` with the principal's user: it follows that pointer.
abbrev pub owned_tags : Option User → Tailnet → List String → Answer (Unit {0})
owned_tags none t tags = crash
owned_tags (some u) t tags =
    demand (is_empty (check_tag_owners t.acl_policy tags u)) invalid_argument

abbrev pub saved_key : KeyStore → Option (String × AuthKey) → Answer (KeyStore × String × AuthKey)
saved_key store none = crash
saved_key store (some (value, k)) =
    answer (record store { keys = save_auth_key store.keys k }, value, k)

pub record KeyRequest : Type 0 where
  pub tailnet_id : ℕ
  pub tags : List String
  pub ephemeral : Bool
  pub pre_authorized : Bool
  pub expiry : Option ℕ

abbrev pub expires_at : ℕ → Option ℕ → Option ℕ
expires_at now none = none
expires_at now (some duration) = some (now + duration)

-- What is drawn for a new key: its numbers, its id and the id of a new service user.
pub record Draws : Type 0 where
  pub key : List ℕ
  pub pwd : List ℕ
  pub key_id : ℕ
  pub user_id : ℕ

module _ (p : Principal) (store : KeyStore) where
  unfoldable pub read_auth_key : ℕ → Answer AuthKey
  unfolding get_auth_key allowed
  read_auth_key id = do
    k ← or_refused (get_auth_key store.keys id) not_found
    _ ← allowed p k.tailnet.id
    answer k

  abbrev listed : ℕ → Option User → List AuthKey
  listed t none = []
  listed t (some u) = list_auth_keys_by_tailnet_and_user store.keys t u.id

  unfoldable pub read_auth_keys : ℕ → Answer (List AuthKey)
  unfolding allowed get_tailnet list_auth_keys list_auth_keys_by_tailnet_and_user is_system_admin
  read_auth_keys t = do
    _ ← allowed p t
    _ ← or_refused (get_tailnet store t) not_found
    answer (if is_system_admin p then list_auth_keys store.keys t else listed t p.user)

  unfoldable pub remove_auth_key : ℕ → Answer KeyStore
  unfolding get_auth_key allowed delete_auth_key
  remove_auth_key id = do
    k ← or_refused (get_auth_key store.keys id) not_found
    _ ← allowed p k.tailnet.id
    answer (record store { keys = delete_auth_key store.keys id })

  module _ (check_tag : String → Bool) (generate_hash : String → Option String) where
    -- From the tailnet on: the owners of the tags, and the new row.
    unfoldable pub issue : ℕ → Draws → KeyRequest → Tailnet → Answer (KeyStore × String × AuthKey)
    unfolding check_tag_owners is_system_admin get_or_create_service_user create_auth_key
        save_auth_key sanitize_tags
    issue now draws req tailnet = do
      _ ← if is_system_admin p then answer tt else owned_tags p.user tailnet req.tags
      let (after, user) = key_owner p.user store tailnet draws.user_id in
          saved_key after (
            create_auth_key generate_hash draws.key draws.pwd draws.key_id tailnet user
              req.ephemeral req.pre_authorized (sanitize_tags req.tags) (expires_at now req.expiry))

    unfoldable pub issue_auth_key : ℕ → Draws → KeyRequest → Answer (KeyStore × String × AuthKey)
    unfolding allowed get_tailnet issue
    issue_auth_key now draws req = do
      _ ← allowed p req.tailnet_id
      _ ← demand (is_some p.user || not (is_empty req.tags)) invalid_argument
      _ ← demand (not (any (λ t. not (check_tag t)) req.tags)) invalid_argument
      tailnet ← or_refused (get_tailnet store req.tailnet_id) not_found
      issue now draws req tailnet
