-- ===== src/SignIn/Finish.antt =====
-- internal/handlers/authentication.go: the ends of a sign-in, `endCliAuthenticationFlow` and
-- `endMachineRegistrationFlow`.
use ionskale.Prelude.{
  ℕ, ◌+◌, ◌*◌, ◌^◌, String, List, [], ◌∷◌, ◌++◌, Bool, true, false, not, ◌||◌, Option, none, some,
  str_eq, is_empty, if◌then◌else◌,
}
use ionskale.Netip.{Addr, Prefix}
use ionskale.Machine.{Machine, User, Tailnet}
use ionskale.Acl.{check_tag_owners, find_auto_approved_ips}
use ionskale.Address.{Selection, selected, failed, searching, select_ip}
use ionskale.Identity.{
  AuthKey, ApiKey, SystemApiKey, Loaded, absent, loaded, crashed, load_auth_key,
}
use ionskale.Identity.Creation.{create_api_key, create_system_api_key}
use ionskale.Lock.Db.{Db, save_machine}
use ionskale.Lock.Registration.{apply_tailnet_lock_registration}
use ionskale.Store.{get_machine_by_key_and_user, get_next_machine_name_index}
use ionskale.Registration.{RegisterRequest, lock_request, RegistrationRequest}
use ionskale.Registration.Handlers.{
  sanitize_tags, no_host_info, check_ip, follow_hostname, save_registration_request,
}
use ionskale.Service.AuthKeys.{KeyStore, get_tailnet}
use ionskale.Tables.{
  Tables, Account, AuthenticationRequest, get_account, get_or_create_user_with_account,
  save_api_key, save_system_api_key, save_authentication_request, set_user_last_authenticated,
}
use ionskale.SignIn.{Site, EndAuthForm, Reply, redirect, error, hangs}
use ionskale.SignIn as SignIn

-- A day.
abbrev pub cli_key_lifetime : ℕ
cli_key_lifetime = 24 * 3600 * 10 ^ 9

abbrev pub with_store : Tables → KeyStore → Tables
with_store w s = record w { store = s }

-- Whose machine is registered, in which tailnet, and what the auth key adds where there is one.
pub record Claim : Type 0 where
  pub tailnet : Tailnet
  pub user : User
  pub tags : List String
  pub ephemeral : Bool
  pub authorized : Bool

module _ {Attr : Type 0} (site : Site Attr) where
  open site.env use {
    now, next_id, random_number, sanitize_hostname, machine_key_expiry, range, tag_errors,
    compare_hash,
  }

  -- The transaction that ends a login as system admin.
  abbrev pub system_login :
      Tables → AuthenticationRequest → Option (String × SystemApiKey) → Reply × Tables
  system_login w req none = (SignIn.crashed, w)
  system_login w req (some (token, k)) = (
    redirect "/a/success",
    save_authentication_request (record w { store = save_system_api_key w.store k })
        (record req { token = token }),
  )

  -- The transaction that ends a login as a user of a tailnet.
  abbrev pub user_login :
      Tables → AuthenticationRequest → Tailnet → User → Option (String × ApiKey) → Reply × Tables
  user_login w req t u none = (SignIn.crashed, w)
  user_login w req t u (some (token, k)) = (
    redirect "/a/success",
    save_authentication_request
        (let seen = set_user_last_authenticated w u.id now in
          record seen { store = save_api_key seen.store k })
        (record req { token = token; tailnet_id = some t.id }),
  )

  abbrev pub login_to :
      Tables → AuthenticationRequest → Option Tailnet → Option Account → Reply × Tables
  login_to w req none account = (SignIn.crashed, w)
  login_to w req (some t) none = (SignIn.crashed, w)
  login_to w req (some t) (some a) =
      let (s, u) = get_or_create_user_with_account w.store site.user_id t a in
      user_login (with_store w s) req t u (
        create_api_key site.generate_hash site.key_draws site.pwd_draws t u
          (some (now + cli_key_lifetime)))

  abbrev pub login_system : Tables → AuthenticationRequest → Option Account → Reply × Tables
  login_system w req none = (SignIn.crashed, w)
  login_system w req (some a) = system_login w req (
      create_system_api_key site.generate_hash site.key_draws site.pwd_draws
        (some (now + cli_key_lifetime)))

  unfoldable pub end_cli_authentication_flow :
      Tables → EndAuthForm → AuthenticationRequest → Reply × Tables
  unfolding get_account get_tailnet get_or_create_user_with_account create_api_key
      create_system_api_key save_authentication_request save_system_api_key save_api_key
      set_user_last_authenticated
  end_cli_authentication_flow w form req =
      if form.as_system_admin
      then login_system w req (get_account w form.account_id)
      else login_to w req (get_tailnet w.store form.tailnet_id) (get_account w form.account_id)

  -- A machine that the database does not have.
  unfoldable pub signed_in_machine :
      Db → String → RegisterRequest → Claim → List Prefix → Addr → Addr → Machine
  unfolding sanitize_tags get_next_machine_name_index
  signed_in_machine db machine_key req c auto_allow_ips ip4 ip6 =
      let tags = c.tags ++ sanitize_tags req.request_tags in
      record {
        id = next_id;
        name = sanitize_hostname req.hostname;
        name_idx = get_next_machine_name_index db c.tailnet.id (sanitize_hostname req.hostname);
        machine_key = machine_key;
        node_key = req.node_key;
        disco_key = "";
        nl_key = "";
        key_signature = [];
        ephemeral = c.ephemeral || req.ephemeral;
        registered_tags = c.tags;
        tags = sanitize_tags tags;
        key_expiry_disabled = not (is_empty tags);
        authorized = not c.tailnet.machine_authorization_enabled || c.authorized;
        use_os_hostname = true;
        host_info = no_host_info;
        allow_ips = [];
        auto_allow_ips = auto_allow_ips;
        ipv4 = ip4;
        ipv6 = ip6;
        created_at = now;
        expires_at = now + machine_key_expiry;
        last_seen = none;
        user_id = c.user.id;
        user = c.user;
        tailnet_id = c.tailnet.id;
        tailnet = c.tailnet;
      }

  -- The machine of the same key and user.
  unfoldable pub returning_machine : Db → RegisterRequest → Claim → List Prefix → Machine → Machine
  unfolding sanitize_tags follow_hostname
  returning_machine db req c auto_allow_ips m =
      record (follow_hostname db m c.tailnet.id (sanitize_hostname req.hostname)) {
        node_key = req.node_key;
        ephemeral = c.ephemeral || req.ephemeral;
        registered_tags = c.tags;
        tags = sanitize_tags (c.tags ++ sanitize_tags req.request_tags);
        auto_allow_ips = auto_allow_ips;
        user_id = c.user.id;
        user = c.user;
        tailnet_id = c.tailnet.id;
        tailnet = c.tailnet;
        expires_at = now + machine_key_expiry;
      }

  abbrev pub success : Machine → Reply
  success m = if m.authorized then redirect "/a/success" else redirect "/a/success?s=nma"

  -- The transaction that ends a registration.
  unfoldable pub complete : Tables → RegistrationRequest → Claim → Machine → Reply × Tables
  unfolding apply_tailnet_lock_registration save_machine save_registration_request
      set_user_last_authenticated
  complete w r c m =
      let locked =
        apply_tailnet_lock_registration site.tka w.db c.tailnet.id m (lock_request r.request) in
      (
        success locked,
        (let seen = set_user_last_authenticated w locked.user_id now in
            record seen {
              db = save_machine seen.db locked;
              registrations =
                  save_registration_request seen.registrations
                    (record r { authenticated = true; error = ""; user_id = c.user.id });
            }),
      )

  abbrev pub complete_new :
      Tables → RegistrationRequest → Claim → List Prefix → Selection (Addr × Addr) → Reply × Tables
  complete_new w r c ips failed = (error, w)
  complete_new w r c ips searching = (hangs, w)
  complete_new w r c ips (selected (ip4, ip6)) =
      complete w r c (signed_in_machine w.db r.machine_key r.request c ips ip4 ip6)

  abbrev pub complete_machine :
      Tables → RegistrationRequest → Claim → List Prefix → Option Machine → Reply × Tables
  complete_machine w r c ips none =
      complete_new w r c ips (select_ip range (some (check_ip w.db)) random_number)
  complete_machine w r c ips (some m) = complete w r c (returning_machine w.db r.request c ips m)

  -- A request that is refused, with its reason.
  unfoldable pub refuse : Tables → RegistrationRequest → String → Tables
  unfolding save_registration_request
  refuse w r reason = record w {
    registrations =
        save_registration_request w.registrations
          (record r { authenticated = false; error = reason });
  }

  -- After `CheckTagOwners`, with the tags that it reports.
  unfoldable pub claim_machine : Tables → RegistrationRequest → Claim → List String → Reply × Tables
  unfolding refuse find_auto_approved_ips get_machine_by_key_and_user complete signed_in_machine
      returning_machine select_ip check_ip
  claim_machine w r c (tag ∷ rest) =
      (redirect "/a/error?e=nto", refuse w r (tag_errors (tag ∷ rest)))
  claim_machine w r c [] =
      complete_machine w r c
        (find_auto_approved_ips site.net c.tailnet.acl_policy r.request.routable_ips c.tags c.user)
        (get_machine_by_key_and_user w.db r.machine_key c.user.id)

  unfoldable pub claim : Tables → RegistrationRequest → Claim → Reply × Tables
  unfolding claim_machine check_tag_owners
  claim w r c =
      claim_machine w r c (check_tag_owners c.tailnet.acl_policy r.request.request_tags c.user)

  abbrev pub claim_of_key : AuthKey → Claim
  claim_of_key k = record {
    tailnet = k.tailnet;
    user = k.user;
    tags = k.tags;
    ephemeral = k.ephemeral;
    authorized = k.pre_authorized;
  }

  abbrev pub claim_of_user : Tailnet → User → Claim
  claim_of_user t u = record {
    tailnet = t;
    user = u;
    tags = [];
    ephemeral = false;
    authorized = false;
  }

  abbrev pub claim_with_key : Tables → RegistrationRequest → Loaded AuthKey → Reply × Tables
  claim_with_key w r absent = (redirect "/a/error?e=iak", refuse w r "invalid auth key")
  claim_with_key w r crashed = (SignIn.crashed, w)
  claim_with_key w r (loaded k) = claim w r (claim_of_key k)

  abbrev pub claim_with_account :
      Tables → RegistrationRequest → Option Tailnet → Option Account → Reply × Tables
  claim_with_account w r none account = (SignIn.crashed, w)
  claim_with_account w r (some t) none = (SignIn.crashed, w)
  claim_with_account w r (some t) (some a) =
      let (s, u) = get_or_create_user_with_account w.store site.user_id t a in
      claim (with_store w s) r (claim_of_user t u)

  unfoldable pub end_machine_registration_flow :
      Tables → EndAuthForm → RegistrationRequest → Reply × Tables
  unfolding refuse claim load_auth_key get_tailnet get_account get_or_create_user_with_account
  end_machine_registration_flow w form r =
      if not (str_eq form.auth_key "")
      then claim_with_key w r (load_auth_key compare_hash now w.store.keys form.auth_key)
      else claim_with_account w r (get_tailnet w.store form.tailnet_id)
          (get_account w form.account_id)
