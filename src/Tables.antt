-- ===== src/Tables.antt =====
-- The tables that the sign-in and the API over users and tailnets work on, with the queries of
-- internal/domain: account.go, user.go, tailnet.go, api_key.go, system_api_key.go,
-- authentication_request.go, ssh_action_request.go and registration_request.go. A query succeeds.
-- A row of a machine or of a key holds the user and the tailnet that it was saved with.
use ionskale.Prelude.{
  map, ℕ, String, List, [], ◌∷◌, ◌++◌, Bool, false, not, ◌&&◌, ◌||◌, Option, none, some, ◌==◌, keep,
  str_eq, take_first, if◌then◌else◌,
}
use ionskale.Machine.{User, Tailnet, Machine}
use ionskale.Identity.{ApiKey, SystemApiKey}
use ionskale.Lock.Db.{Db}
use ionskale.Service.AuthKeys.{KeyStore}
use ionskale.Registration.{RegistrationRequest}

pub record Account : Type 0 where
  pub id : ℕ
  pub external_id : String
  pub organization : String
  pub login_name : String

-- domain.AuthenticationRequest: the login of a client of the API.
pub record AuthenticationRequest : Type 0 where
  pub key : String
  pub token : String
  pub tailnet_id : Option ℕ
  pub error : String

pub record SshActionRequest : Type 0 where
  pub key : String
  pub action : String
  pub src_machine_id : ℕ
  pub dst_machine_id : ℕ

pub record Tables : Type 0 where
  pub db : Db
  pub store : KeyStore
  pub accounts : List Account
  pub registrations : List RegistrationRequest
  pub logins : List AuthenticationRequest
  pub ssh_actions : List SshActionRequest

-- gorm's `Save`: the row of the key is replaced, and a new key is a new row.
module _ {ℓ} {A : Type ℓ} where
  abbrev pub saved : (A → A → Bool) → List A → A → List A
  saved same [] a = a ∷ []
  saved same (b ∷ bs) a = let rest = saved same bs a in if same b a then a ∷ bs else b ∷ rest

unfoldable pub save_api_key : KeyStore → ApiKey → KeyStore
save_api_key s k = record s { keys = record s.keys { api_keys = s.keys.api_keys ++ k ∷ [] } }

unfoldable pub save_system_api_key : KeyStore → SystemApiKey → KeyStore
save_system_api_key s k = record s {
  keys = record s.keys { system_api_keys = s.keys.system_api_keys ++ k ∷ [] };
}

unfoldable pub save_tailnet : KeyStore → Tailnet → KeyStore
save_tailnet s t = record s { tailnets = saved (λ b a. b.id == a.id) s.tailnets t }

unfoldable pub list_tailnets_by_organization : KeyStore → String → List Tailnet
list_tailnets_by_organization s org = keep (λ t. str_eq t.organization org) s.tailnets

unfoldable pub get_account : Tables → ℕ → Option Account
get_account w id = take_first (λ a. a.id == id) w.accounts

unfoldable pub save_authentication_request : Tables → AuthenticationRequest → Tables
save_authentication_request w r = record w { logins = saved (λ b a. str_eq b.key a.key) w.logins r }

unfoldable pub get_authentication_request : Tables → String → Option AuthenticationRequest
get_authentication_request w key = take_first (λ r. str_eq r.key key) w.logins

unfoldable pub save_ssh_action_request : Tables → SshActionRequest → Tables
save_ssh_action_request w r = record w {
  ssh_actions = saved (λ b a. str_eq b.key a.key) w.ssh_actions r;
}

unfoldable pub get_ssh_action_request : Tables → String → Option SshActionRequest
get_ssh_action_request w key = take_first (λ r. str_eq r.key key) w.ssh_actions

unfoldable pub delete_ssh_action_request : Tables → String → Tables
delete_ssh_action_request w key = record w {
  ssh_actions = keep (λ r. not (str_eq r.key key)) w.ssh_actions;
}

unfoldable pub get_registration_request_by_key : Tables → String → Option RegistrationRequest
get_registration_request_by_key w key = take_first (λ r. str_eq r.key key) w.registrations

-- `Updates` of one column of the rows of an id.
unfoldable pub set_user_last_authenticated : Tables → ℕ → ℕ → Tables
set_user_last_authenticated w id now = record w {
  store = record w.store {
    users =
        map (λ u. if u.id == id then record u { last_authenticated = some now } else u)
          w.store.users;
  };
}

-- A login name that the provider gives replaces the one of the row.
abbrev relabelled : Account → String → Account
relabelled a login_name =
    if not (str_eq login_name "") && not (str_eq a.login_name login_name)
    then record a { login_name = login_name }
    else a

abbrev pub account_of : Option Account → Tables → ℕ → String → String → String → Tables × Account
account_of none w id external_id organization login_name =
    let a : Account = record {
      id = id;
      external_id = external_id;
      organization = organization;
      login_name = login_name;
    } in
    (record w { accounts = w.accounts ++ a ∷ [] }, a)
account_of (some a) w id external_id organization login_name =
    let b = relabelled a login_name in
    (record w { accounts = map (λ c. if c.id == a.id then b else c) w.accounts }, b)

-- gorm's condition on a text field of a struct: an empty text is no condition.
abbrev pub where_text : String → String → Bool
where_text wanted text = str_eq wanted "" || str_eq text wanted

unfoldable pub get_or_create_account : Tables → ℕ → String → String → String → Tables × Account
get_or_create_account w id external_id organization login_name =
    account_of
      (take_first
        (λ a. where_text external_id a.external_id && where_text organization a.organization)
        w.accounts)
      w id external_id organization login_name

abbrev is_account : Option ℕ → ℕ → Bool
is_account none id = false
is_account (some a) id = a == id

abbrev renamed : User → String → User
renamed u login_name =
    if not (str_eq login_name "") && not (str_eq u.name login_name)
    then record u { name = login_name }
    else u

abbrev pub user_of : Option User → KeyStore → ℕ → Tailnet → Account → KeyStore × User
user_of none s id t a =
    let u : User = record {
      id = id;
      name = a.login_name;
      user_type = "person";
      tailnet_id = t.id;
      account_id = some a.id;
      last_authenticated = none;
    } in
    (record s { users = s.users ++ u ∷ [] }, u)
user_of (some u) s id t a =
    let v = renamed u a.login_name in
    (record s { users = map (λ w. if w.id == u.id then v else w) s.users }, v)

unfoldable pub get_or_create_user_with_account : KeyStore → ℕ → Tailnet → Account → KeyStore × User
get_or_create_user_with_account s id t a =
    user_of (take_first (λ u. is_account u.account_id a.id && u.tailnet_id == t.id) s.users) s id t
      a

-- The user that `Preload` joins to a machine.
unfoldable pub joined_user : KeyStore → Machine → Option User
joined_user s m = take_first (λ u. u.id == m.user_id) s.users
