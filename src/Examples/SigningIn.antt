-- ===== src/Examples/SigningIn.antt =====
-- Sign-ins of one identity, the check of its SSH session, and the end of its account.
use ionskale.Prelude.{
  ℕ, ◌≡◌, refl, String, List, [], ◌∷◌, true, false, none, some, All, any, map, ◌&&◌, ◌==◌, contains,
  arith,
}
use ionskale.Iam.{empty_policy, evaluated}
use ionskale.Machine.{Tailnet}
use ionskale.Lock.Db.{no_lock}
use ionskale.Identity.{is_system_admin}
use ionskale.Service.{answer}
use ionskale.Service.AuthKeys.{KeyStore}
use ionskale.Service.Users.{revoke_account}
use ionskale.Service.Users.Without.{WithoutUsers}
use ionskale.Service.Users.Revoked.{
  concerns, revokes, revoke_account-WithoutUsers, revoke_account-again,
}
use ionskale.SshAction.{accepts, check_tick}
use ionskale.Tables.{
  Tables, Account, SshActionRequest, get_ssh_action_request, get_or_create_account,
}
use ionskale.SignIn.{
  Site, SealLib, OauthState, AuthSession, EndAuthForm, AuthUser, Organizations, enabled, login_name,
  render, tailnets_page,
}
use ionskale.SignIn.Access.{
  is_system_admin as admits_system, list_available_tailnets, denial_code, sync_org_roles,
}
use ionskale.SignIn.Denial.{Reason, denial_code-Reason}
use ionskale.SignIn.Roles.{IsSynced, sync_org_roles-IsSynced}
use ionskale.SignIn.Roles.Rows.{HasDistinctIds}
use ionskale.SignIn.Handlers.{signed_in, end_auth, owns_machine}
use ionskale.SignIn.Adds.{OnlyAdds}
use ionskale.SignIn.Granted.{Offered, signed_in-OnlyAdds}
use ionskale.SignIn.Choice.{Unseals, end_auth-Offered}
use ionskale.SignIn.Owner.{IsOwned, check_tick-IsOwned}
use ionskale.Examples.Data.{net, alice, carol, tailnet, laptop}
use ionskale.Examples.Calls.{root}
use ionskale.Examples.Joining.{env}
use ionskale.Examples.Locks.{tka}

-- Two tailnets of one organization, and one of another.
abbrev bound : ℕ → String → Tailnet
bound id organization = record tailnet { id = id; organization = organization }

abbrev store : KeyStore
store = record {
  keys = record { api_keys = []; auth_keys = []; system_api_keys = [] };
  tailnets = bound 1 "acme" ∷ bound 2 "acme" ∷ bound 3 "other" ∷ [];
  users = alice ∷ carol ∷ [];
}

abbrev account : Account
account = record {
  id = 1;
  external_id = "sub";
  organization = "acme";
  login_name = "alice@example.com";
}

abbrev tables : Tables
tables = record {
  db = record { machines = laptop ∷ []; locks = λ t. no_lock; notified = [] };
  store = store;
  accounts = account ∷ [];
  registrations = [];
  logins = record { key = "login"; token = ""; tailnet_id = none; error = "" } ∷ [];
  ssh_actions = record { key = "check"; action = ""; src_machine_id = 1; dst_machine_id = 2 } ∷ [];
}

abbrev state : OauthState
state = record { key = "login"; flow = "c"; expires_at = 100; nonce = "n"; code_verifier = "v" }

abbrev session : AuthSession
session = record {
  flow = "c";
  key = "login";
  account_id = 1;
  system_admin = false;
  tailnet_ids = 1 ∷ 2 ∷ [];
  expires_at = 900000000050;
}

-- A sealing that knows one state and one session.
abbrev sealing : SealLib
sealing = record {
  marshal_state = λ s. 0 ∷ [];
  unmarshal_state = λ b. some state;
  marshal_session = λ s. 1 ∷ [];
  unmarshal_session = λ b. some session;
  seal = λ b. b;
  open_sealed = λ b. some b;
  base58_encoding = λ b. "t";
  base58_decoding = λ s. some (1 ∷ []);
}

abbrev organizations : String → Organizations
organizations roles_claim = record {
  claim = "org";
  roles_claim = roles_claim;
  admin_roles = "owner" ∷ [];
}

abbrev site_of : String → Site (Unit {0})
site_of roles_claim = record {
  tka = tka;
  env = env;
  net = net;
  sealing = sealing;
  evaluate = λ f a. evaluated false;
  system_policy = empty_policy;
  organizations = organizations roles_claim;
  provider = none;
  create_url = λ path. path;
  generate_hash = λ s. some s;
  account_id = 5;
  user_id = 6;
  nonce = "n";
  code_verifier = "v";
  key_draws = [];
  pwd_draws = [];
}

abbrev site : Site (Unit {0})
site = site_of ""

abbrev user_of_org : String → AuthUser (Unit {0})
user_of_org org = record {
  id = "sub";
  name = "alice@example.com";
  username = "";
  org = org;
  roles = "owner" ∷ [];
  attr = tt;
}

abbrev user : AuthUser (Unit {0})
user = user_of_org "acme"

abbrev form : EndAuthForm
form = record {
  account_id = 9;
  tailnet_id = 2;
  as_system_admin = false;
  auth_key = "";
  state = "t";
  session = "t";
}

abbrev own : List Tailnet
own = bound 1 "acme" ∷ bound 2 "acme" ∷ []

shown : signed_in site tables state user ≡ (render (tailnets_page "t" false own), tables)
unfolding signed_in
shown = refl

unseals : Unseals sealing session
unseals = record { decodes = refl; opens = refl; unmarshals = refl }

end_auth-Offered_example :
    OnlyAdds
      (Offered site tables user)
      (admits_system site user ≡ some true)
      tables
      (end_auth site tables form).1
unfolding signed_in
end_auth-Offered_example =
    end_auth-Offered site site tables tables tables state user "t" false own form shown refl unseals
      refl

signed_in-OnlyAdds_example :
    OnlyAdds (Offered site tables user) ⊥ tables (signed_in site tables state user).1
signed_in-OnlyAdds_example = signed_in-OnlyAdds site tables state user

refused_runs : list_available_tailnets site store (user_of_org "else") ≡ some []
unfolding list_available_tailnets
refused_runs = refl

denial_code-Reason_example :
    Reason site store (user_of_org "else") (denial_code site store (user_of_org "else"))
denial_code-Reason_example = denial_code-Reason site store (user_of_org "else") refused_runs

distinct : HasDistinctIds store.tailnets
distinct = (((λ e. omega arith), ((λ e. omega arith), tt)), (((λ e. omega arith), tt), (tt, tt)))

claims_roles : enabled (site_of "roles").organizations ≡ true
unfolding enabled
claims_roles = refl

sync_org_roles-IsSynced_example :
    All
      (IsSynced true "alice@example.com" "acme" store.tailnets)
      (sync_org_roles (site_of "roles") store user).tailnets
    × (map (λ t. t.id) (sync_org_roles (site_of "roles") store user).tailnets
        ≡ map (λ t. t.id) store.tailnets)
unfolding contains
sync_org_roles-IsSynced_example =
    sync_org_roles-IsSynced (site_of "roles") user store claims_roles refl refl distinct

-- The owner of the laptop is checked.
abbrev check : SshActionRequest
check = record { key = "check"; action = ""; src_machine_id = 1; dst_machine_id = 2 }

abbrev checking : OauthState
checking = record state { flow = "s"; key = "check" }

abbrev checked : Tables
checked = record tables {
  store = record store { users = record alice { last_authenticated = some 50 } ∷ carol ∷ [] };
  ssh_actions = [];
}

found_runs : get_ssh_action_request tables "check" ≡ some check
unfolding get_ssh_action_request
found_runs = refl

accepted_runs : check_tick (signed_in site tables checking user).1 "check" ≡ some (accepts, checked)
unfolding check_tick signed_in owns_machine
accepted_runs = refl

check_tick-IsOwned_example : IsOwned tables account check × (account.external_id ≡ user.id)
unfolding get_or_create_account login_name
check_tick-IsOwned_example =
    check_tick-IsOwned site tables checked checking user check refl refl found_runs refl
      accepted_runs

-- The end of the account.
root_runs : is_system_admin root ≡ true
unfolding is_system_admin
root_runs = refl

revoke_account-WithoutUsers_example :
    (ids : List ℕ) × (v : Tables) × (revoke_account root tables "sub" "acme" ≡ answer (ids, v))
    × WithoutUsers (revokes tables "sub" "acme") tables v
    × ((t : ℕ)
        → any (λ i. i == t) ids
          ≡ any (λ u. concerns tables "sub" "acme" u && u.tailnet_id == t) store.users)
revoke_account-WithoutUsers_example =
    revoke_account-WithoutUsers root tables "sub" "acme" root_runs refl

abbrev revoked : Tables
revoked = record tables {
  db = record { machines = []; locks = λ t. no_lock; notified = 1 ∷ [] };
  store = record store { users = carol ∷ [] };
}

revoked_runs : revoke_account root tables "sub" "" ≡ answer (1 ∷ [], revoked)
unfolding revoke_account
revoked_runs = refl

revoke_account-again_example : revoke_account root revoked "sub" "" ≡ answer ([], revoked)
revoke_account-again_example =
    revoke_account-again root tables revoked "sub" "" (1 ∷ []) root_runs refl revoked_runs
