-- ===== src/Service/Users.antt =====
-- internal/service/users.go: the users of a tailnet and the end of an account, with the queries of
-- internal/domain that these handlers call. A row of a user has an id other than 0.
pub mod Without
pub mod Revoked
use ionskale.Prelude.{
  ℕ, String, List, [], ◌∷◌, ◌++◌, Bool, true, false, not, ◌&&◌, ◌||◌, Option, none, some, ◌==◌,
  str_eq, keep, map, take_first, is_empty, if◌then◌else◌,
}
use ionskale.Machine.{User, Tailnet}
use ionskale.Acl.{user_type_service}
use ionskale.Lock.Db.{Db, notify_all}
use ionskale.Store.{delete_machine_by_user}
use ionskale.Identity.{Principal, Keys, is_system_admin, get_role}
use ionskale.Service.{
  Answer, answer, crash, refused, not_found, permission_denied, invalid_argument, ◌>>=◌, or_refused,
  demand, allowed,
}
use ionskale.Service.AuthKeys.{KeyStore, get_tailnet}
use ionskale.Tables.{Tables, Account, get_account}

-- A user's id, name, role and external id.
pub record ApiUser : Type 0 where
  pub id : ℕ
  pub name : String
  pub role : String
  pub external_id : String

unfoldable pub get_user : KeyStore → ℕ → Option User
get_user s id = take_first (λ u. u.id == id) s.users

unfoldable pub list_users : KeyStore → ℕ → List User
list_users s t = keep (λ u. u.tailnet_id == t && str_eq u.user_type "person") s.users

abbrev pub of_account : ℕ → User → Bool
of_account a u = elim u.account_id [ none ↦ false | some b ↦ b == a ]

unfoldable pub list_users_by_account : KeyStore → ℕ → List User
list_users_by_account s a = keep (of_account a) s.users

unfoldable pub list_accounts_by_external_id : Tables → String → List Account
list_accounts_by_external_id w external_id = keep (λ a. str_eq a.external_id external_id) w.accounts

unfoldable pub delete_api_keys_by_user : Keys → ℕ → Keys
delete_api_keys_by_user keys id = record keys {
  api_keys = keep (λ k. not (k.user.id == id)) keys.api_keys;
}

unfoldable pub delete_auth_keys_by_user : Keys → ℕ → Keys
delete_auth_keys_by_user keys id = record keys {
  auth_keys = keep (λ k. not (k.user.id == id)) keys.auth_keys;
}

unfoldable pub delete_user_row : KeyStore → ℕ → KeyStore
delete_user_row s id = record s { users = keep (λ u. not (u.id == id)) s.users }

-- The four deletions of a transaction.
unfoldable pub delete_rows : Tables → ℕ → Tables
unfolding delete_machine_by_user delete_api_keys_by_user delete_auth_keys_by_user delete_user_row
delete_rows w id =
    let keys = delete_auth_keys_by_user (delete_api_keys_by_user w.store.keys id) id in
    record w {
      db = delete_machine_by_user w.db id;
      store = delete_user_row (record w.store { keys = keys }) id;
    }

abbrev pub notify : Tables → ℕ → Tables
notify w t = record w { db = notify_all w.db t }

-- `UserMatches`, which follows the pointer to the principal's user.
unfoldable pub user_matches : Principal → ℕ → Option Bool
user_matches p id = elim p.user [ none ↦ none | some u ↦ some (u.id == id) ]

abbrev not_yourself : Option Bool → Answer (Unit {0})
not_yourself none = crash
not_yourself (some true) = refused invalid_argument
not_yourself (some false) = answer tt

abbrev external_id_of : Option Account → String
external_id_of none = ""
external_id_of (some a) = a.external_id

abbrev account_row : Tables → Option ℕ → Option Account
account_row w none = none
account_row w (some id) = get_account w id

module _ (p : Principal) (w : Tables) where
  abbrev api_user : Tailnet → User → ApiUser
  api_user t u = record {
    id = u.id;
    name = u.name;
    role = get_role t u;
    external_id = external_id_of (account_row w u.account_id);
  }

  unfoldable pub read_users : ℕ → Answer (List ApiUser)
  unfolding get_tailnet allowed list_users get_role get_account
  read_users id = do
    t ← or_refused (get_tailnet w.store id) not_found
    _ ← allowed p t.id
    answer (map (api_user t) (list_users w.store t.id))

  unfoldable pub remove_user : ℕ → Answer Tables
  unfolding is_system_admin user_matches get_user allowed delete_rows notify_all
  remove_user id = do
    _ ← if is_system_admin p then answer tt else not_yourself (user_matches p id)
    u ← or_refused (get_user w.store id) not_found
    _ ← allowed p u.tailnet_id
    _ ← demand (not (str_eq u.user_type user_type_service)) invalid_argument
    answer (notify (delete_rows w id) u.tailnet_id)

-- The organization of the tailnet that `Preload` joins to a user.
abbrev pub organization_of : Option Tailnet → String
organization_of none = ""
organization_of (some t) = t.organization

unfoldable pub is_revoked : KeyStore → String → User → Bool
unfolding get_tailnet
is_revoked s organization u =
    not (str_eq u.user_type user_type_service)
    && (str_eq organization ""
        || str_eq (organization_of (get_tailnet s u.tailnet_id)) organization)

-- The loops over the accounts, over the users that go, and over the tailnets that are told.
unfoldable pub users_of : KeyStore → List Account → List User
unfolding list_users_by_account
users_of s [] = []
users_of s (a ∷ accounts) = list_users_by_account s a.id ++ users_of s accounts

unfoldable pub delete_all : Tables → List User → Tables
unfolding delete_rows
delete_all w [] = w
delete_all w (u ∷ us) = delete_all (delete_rows w u.id) us

unfoldable pub notify_each : Tables → List ℕ → Tables
unfolding notify_all
notify_each w [] = w
notify_each w (t ∷ ts) = notify_each (notify w t) ts

abbrev pub revoke_users : Tables → List User → List ℕ × Tables
revoke_users w us =
    let tailnet_ids = map (λ u. u.tailnet_id) us in
    (tailnet_ids, notify_each (delete_all w us) tailnet_ids)

unfoldable pub revoke_account : Principal → Tables → String → String → Answer (List ℕ × Tables)
unfolding is_system_admin list_accounts_by_external_id users_of is_revoked delete_all notify_each
revoke_account p w external_id organization = do
  _ ← demand (is_system_admin p) permission_denied
  _ ← demand (not (str_eq external_id "")) invalid_argument
  let accounts = list_accounts_by_external_id w external_id in
      if is_empty accounts
      then answer ([], w)
      else answer
          (revoke_users w (keep (is_revoked w.store organization) (users_of w.store accounts)))
