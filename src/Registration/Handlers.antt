-- ===== src/Registration/Handlers.antt =====
-- internal/handlers/registration.go: the handlers, with the reply and the database that they leave.
use ionskale.Prelude.{
  ℕ, ◌+◌, String, List, [], ◌∷◌, ◌++◌, true, not, ◌&&◌, ◌||◌, Option, none, some, ◌==◌, ltb, str_eq,
  is_empty, map, any, if◌then◌else◌,
}
use ionskale.Netip.{Addr, Prefix, AddrText}
use ionskale.StringSet.{empty, add, items}
use ionskale.Machine.{Machine, HostInfo, is_expired}
use ionskale.Acl.{check_tag_owners, find_auto_approved_ips}
use ionskale.Address.{Predicate, Selection, selected, failed, searching, select_ip}
use ionskale.Identity.{Keys, AuthKey, Loaded, absent, loaded, crashed, load_auth_key}
use ionskale.Lock.Tka.{TkaLib}
use ionskale.Lock.Db.{Db, save_machine, notify_all}
use ionskale.Lock.Registration.{apply_tailnet_lock_registration}
use ionskale.Store.{
  delete_machine, get_machine_by_key_and_user, get_next_machine_name_index,
  count_machines_with_ipv4,
}
use ionskale.Service.{save_and_notify}
use ionskale.Registration.{
  RegisterRequest, lock_request, RegisterResponse, empty_response, RegistrationRequest, Env,
  Outcome, replied, fails, hangs,
}

-- `SanitizeTags`.
unfoldable pub sanitize_tags : List String → List String
unfolding add items
sanitize_tags input = items (add empty input)

abbrev error_response : String → RegisterResponse
error_response text = record empty_response { error = text }

abbrev expired_response : RegisterResponse
expired_response = record empty_response { node_key_expired = true }

abbrev pub no_host_info : HostInfo
no_host_info = record { hostname = ""; routable_ips = []; request_tags = []; ssh_host_keys = [] }

-- `checkIP` of the count of machines with an address.
unfoldable pub check_ip : Db → Predicate
unfolding count_machines_with_ipv4
check_ip db ip = some (count_machines_with_ipv4 db ip == 0)

-- The name of a machine that follows its host name.
unfoldable pub follow_hostname : Db → Machine → ℕ → String → Machine
unfolding get_next_machine_name_index
follow_hostname db m t sanitized =
    if m.use_os_hostname && not (str_eq m.name sanitized)
    then record m { name = sanitized; name_idx = get_next_machine_name_index db t sanitized }
    else m

-- `SaveRegistrationRequest`: the row of the machine key is replaced.
unfoldable pub save_registration_request :
    List RegistrationRequest → RegistrationRequest → List RegistrationRequest
save_registration_request rs r =
    if any (λ q. str_eq q.machine_key r.machine_key) rs
    then map (λ q. if str_eq q.machine_key r.machine_key then r else q) rs
    else rs ++ r ∷ []

module _ (tka : TkaLib) (env : Env) (machine_key : String) where
  open env use {
    now, next_id, random_key, random_number, create_url, sanitize_hostname, machine_key_expiry,
    compare_hash, range, tag_errors,
  }

  -- A known machine with its name, its tags and what concerns the lock brought up to date.
  unfoldable pub updated_machine : Db → RegisterRequest → Machine → Machine
  unfolding follow_hostname sanitize_tags apply_tailnet_lock_registration
  updated_machine db req m =
      let named = follow_hostname db m m.tailnet_id (sanitize_hostname req.hostname) in
      let tagged = record named { tags = m.registered_tags ++ sanitize_tags req.request_tags } in
      apply_tailnet_lock_registration tka db m.tailnet_id tagged (lock_request req)

  -- `Register` for a machine that is known by its two keys.
  unfoldable pub register_known : Db → RegisterRequest → Machine → RegisterResponse × Db
  unfolding is_expired delete_machine notify_all save_and_notify updated_machine save_machine
  register_known db req m =
      if is_expired now m
      then (expired_response, db)
      else if not (req.expiry == 0) && ltb req.expiry now
      then (
        expired_response,
        (if m.ephemeral
            then notify_all (delete_machine db m.id).1 m.tailnet_id
            else save_and_notify db (record m { expires_at = req.expiry })),
      )
      else (
        record empty_response { machine_authorized = m.authorized; user = some m.user },
        save_machine db (updated_machine db req m),
      )

  module _ (net : AddrText) where
    -- The machine that an auth key makes, with its two addresses.
    unfoldable pub new_machine :
        Db → RegisterRequest → AuthKey → List String → List Prefix → Addr → Addr → Machine
    unfolding sanitize_tags get_next_machine_name_index
    new_machine db req k tags auto_allow_ips ip4 ip6 = record {
      id = next_id;
      name = sanitize_hostname req.hostname;
      name_idx = get_next_machine_name_index db k.tailnet.id (sanitize_hostname req.hostname);
      machine_key = machine_key;
      node_key = req.node_key;
      disco_key = "";
      nl_key = "";
      key_signature = [];
      ephemeral = k.ephemeral || req.ephemeral;
      registered_tags = k.tags;
      tags = sanitize_tags tags;
      key_expiry_disabled = not (is_empty tags);
      authorized = not k.tailnet.machine_authorization_enabled || k.pre_authorized;
      use_os_hostname = true;
      host_info = no_host_info;
      allow_ips = [];
      auto_allow_ips = auto_allow_ips;
      ipv4 = ip4;
      ipv6 = ip6;
      created_at = now;
      expires_at = if not (req.expiry == 0) then req.expiry else now + machine_key_expiry;
      last_seen = none;
      user_id = k.user.id;
      user = k.user;
      tailnet_id = k.tailnet.id;
      tailnet = k.tailnet;
    }

    -- The machine of the same key and user, registered again.
    unfoldable pub renewed_machine :
        Db → RegisterRequest → AuthKey → List String → List Prefix → Machine → Machine
    unfolding sanitize_tags follow_hostname
    renewed_machine db req k tags auto_allow_ips m =
        record (follow_hostname db m k.tailnet.id (sanitize_hostname req.hostname)) {
          node_key = req.node_key;
          ephemeral = k.ephemeral || req.ephemeral;
          registered_tags = k.tags;
          tags = sanitize_tags tags;
          auto_allow_ips = auto_allow_ips;
          user_id = k.user.id;
          user = k.user;
          tailnet_id = k.tailnet.id;
          tailnet = k.tailnet;
          expires_at = now + machine_key_expiry;
        }

    -- The machine is completed from the request, saved, and reported as authorized.
    unfoldable pub enter : Db → RegisterRequest → AuthKey → Machine → Outcome Db
    unfolding apply_tailnet_lock_registration save_machine
    enter db req k m =
        replied (record empty_response { machine_authorized = true; user = some k.user })
          (save_machine db
            (apply_tailnet_lock_registration tka db k.tailnet.id m (lock_request req)))

    abbrev pub enter_new :
        Db
        → RegisterRequest
        → AuthKey
        → List String
        → List Prefix
        → Selection (Addr × Addr)
        → Outcome Db
    enter_new db req k tags auto_allow_ips failed = fails
    enter_new db req k tags auto_allow_ips searching = hangs
    enter_new db req k tags auto_allow_ips (selected (ip4, ip6)) =
        enter db req k (new_machine db req k tags auto_allow_ips ip4 ip6)

    -- `tags` are those of the key and of the request.
    abbrev pub enter_machine :
        Db → RegisterRequest → AuthKey → List String → List Prefix → Option Machine → Outcome Db
    enter_machine db req k tags auto_allow_ips none =
        enter_new db req k tags auto_allow_ips (select_ip range (some (check_ip db)) random_number)
    enter_machine db req k tags auto_allow_ips (some m) =
        enter db req k (renewed_machine db req k tags auto_allow_ips m)

    -- After `CheckTagOwners`, with the tags that it reports.
    unfoldable pub admit : Db → RegisterRequest → AuthKey → List String → Outcome Db
    unfolding sanitize_tags find_auto_approved_ips get_machine_by_key_and_user enter new_machine
        renewed_machine select_ip check_ip
    admit db req k (tag ∷ rest) = replied (error_response (tag_errors (tag ∷ rest))) db
    admit db req k [] =
        let tags = k.tags ++ sanitize_tags req.request_tags in
        enter_machine db req k tags
          (find_auto_approved_ips net k.tailnet.acl_policy req.routable_ips tags k.user)
          (get_machine_by_key_and_user db machine_key k.user.id)

    -- After `LoadAuthKey`, with the key that it gives.
    unfoldable pub with_auth_key : Db → RegisterRequest → Loaded AuthKey → Outcome Db
    unfolding admit check_tag_owners
    with_auth_key db req absent = replied (error_response "invalid auth key") db
    with_auth_key db req crashed = fails
    with_auth_key db req (loaded k) =
        admit db req k (check_tag_owners k.tailnet.acl_policy req.request_tags k.user)

    unfoldable pub authenticate_machine_with_auth_key : Db → Keys → RegisterRequest → Outcome Db
    unfolding load_auth_key with_auth_key
    authenticate_machine_with_auth_key db keys req =
        with_auth_key db req (load_auth_key compare_hash now keys req.auth_key)
