-- ===== src/Service/Tailnets.antt =====
-- internal/service/tailnet.go, acl.go, iam.go and the setting of dns.go. A tailnet's DERP map is left
-- out, and so is the message that an answer is made of.
pub mod Provisioned
pub mod Changes
pub mod Settings
pub mod Calls
use ionskale.Prelude.{
  ℕ, String, List, [], ◌∷◌, all, any, Bool, true, false, not, ◌&&◌, ◌||◌, Option, none, some, ◌==◌,
  str_eq, keep, map, take_first, if◌then◌else◌,
}
use ionskale.Policy.{AclPolicy}
use ionskale.Netip.{AddrText, same_bool}
use ionskale.Iam.{IamPolicy, empty_policy}
use ionskale.Dns.{
  DnsConfig, ApiDnsConfig, DnsLib, default_dns_config, validate_dns_config, domain_dns_config,
}
use ionskale.Machine.{User, Tailnet}
use ionskale.Acl.{is_some}
use ionskale.Lock.Db.{Db, get_lock, delete_lock, notify_all}
use ionskale.Store.{count_machine_by_tailnet, delete_machine_by_tailnet}
use ionskale.Identity.{Principal, Keys, is_system_admin}
use ionskale.Service.{
  Answer, answer, crash, not_found, permission_denied, invalid_argument, already_exists,
  failed_precondition, ◌>>=◌, or_refused, or_internal, demand, allowed,
}
use ionskale.Service.AuthKeys.{KeyStore, get_tailnet}
use ionskale.Tables.{Tables, save_tailnet, list_tailnets_by_organization}
use ionskale.Service.Provisioning.{
  get_tailnet_by_name, get_tailnet_by_organization, delete_tailnet_rows, PolicyLib, TailnetsConfig,
  CreateRequest, UpdateRequest, built_in_acl_policy,
}

abbrev or_old {ℓ} : {A : Type ℓ} → Option A → A → A
or_old none a = a
or_old (some b) a = b

abbrev pub saved_tailnet : Tables → Tailnet → Tables
saved_tailnet w t = record w { store = save_tailnet w.store t }

abbrev pub told : Tables → ℕ → Tables
told w id = record w { db = notify_all w.db id }

module _ (lib : PolicyLib) (dns : DnsLib) (net : AddrText) (config : TailnetsConfig) where
  unfoldable pub validate_iam_policy : IamPolicy → Bool
  validate_iam_policy p = all lib.parse_filter p.filters

  abbrev pub valid_iam_policy : Option IamPolicy → Answer IamPolicy
  valid_iam_policy none = or_refused none invalid_argument
  valid_iam_policy (some p) = do _ ← demand (validate_iam_policy p) invalid_argument; answer p

  abbrev pub valid_dns_config : Option ApiDnsConfig → Bool
  valid_dns_config none = true
  valid_dns_config (some c) = validate_dns_config dns net c

  -- The policies that a text gives, or the present ones.
  abbrev pub iam_policy_or : String → IamPolicy → Answer IamPolicy
  iam_policy_or text p =
      if str_eq text "" then answer p else valid_iam_policy (lib.parse_iam_policy text)

  abbrev pub acl_policy_or : String → AclPolicy → Answer AclPolicy
  acl_policy_or text p =
      if str_eq text "" then answer p else or_refused (lib.parse_acl_policy text) invalid_argument

  abbrev pub configured_policy : Answer AclPolicy
  configured_policy =
      if str_eq config.default_acl_policy ""
      then answer built_in_acl_policy
      else or_internal (lib.parse_acl_policy config.default_acl_policy)

  abbrev pub dns_config_or : Option ApiDnsConfig → DnsConfig → DnsConfig
  dns_config_or none c = c
  dns_config_or (some c) old = domain_dns_config dns c

  abbrev pub new_tailnet : ℕ → CreateRequest → IamPolicy → AclPolicy → Tailnet
  new_tailnet id req iam acl = record {
    id = id;
    name = req.name;
    organization = req.organization;
    iam_policy = iam;
    acl_policy = acl;
    dns_config = domain_dns_config dns (or_old req.dns_config default_dns_config);
    service_collection_enabled = req.service_collection_enabled;
    file_sharing_enabled = req.file_sharing_enabled;
    ssh_enabled = req.ssh_enabled;
    machine_authorization_enabled =
        req.machine_authorization_enabled || config.machine_authorization;
    tailnet_lock_enabled = false;
  }

  abbrev pub updated_tailnet : Tailnet → UpdateRequest → String → IamPolicy → AclPolicy → Tailnet
  updated_tailnet t req name iam acl = record t {
    name = name;
    iam_policy = iam;
    acl_policy = acl;
    dns_config = dns_config_or req.dns_config t.dns_config;
    service_collection_enabled = or_old req.service_collection_enabled t.service_collection_enabled;
    file_sharing_enabled = or_old req.file_sharing_enabled t.file_sharing_enabled;
    ssh_enabled = or_old req.ssh_enabled t.ssh_enabled;
    machine_authorization_enabled =
        or_old req.machine_authorization_enabled t.machine_authorization_enabled;
  }

  module _ (p : Principal) (w : Tables) where
    abbrev pub name_is_free : String → Bool
    name_is_free name = not (is_some (get_tailnet_by_name w.store name))

    abbrev pub organization_is_free : String → Bool
    organization_is_free o = str_eq o "" || not (is_some (get_tailnet_by_organization w.store o))

    unfoldable pub create_tailnet : ℕ → CreateRequest → Answer (Tailnet × Tables)
    unfolding is_system_admin get_tailnet_by_name get_tailnet_by_organization validate_dns_config
        validate_iam_policy domain_dns_config save_tailnet
    create_tailnet id req = do
      _ ← demand (is_system_admin p) permission_denied
      _ ← demand (not (str_eq req.name "")) invalid_argument
      _ ← demand (name_is_free req.name) already_exists
      _ ← demand (organization_is_free req.organization) already_exists
      _ ← demand (valid_dns_config req.dns_config) invalid_argument
      configured ← configured_policy
      iam ← iam_policy_or req.iam_policy empty_policy
      acl ← acl_policy_or req.acl_policy configured
      let t = new_tailnet id req iam acl in answer (t, saved_tailnet w t)

    -- The name afterwards: a new one is for system admins, and is free.
    abbrev pub renamed_to : Tailnet → String → Answer String
    renamed_to t name = if str_eq name "" || str_eq name t.name then answer t.name else do
      _ ← demand (is_system_admin p) permission_denied
      _ ← demand (name_is_free name) already_exists
      answer name

    unfoldable pub update_tailnet : UpdateRequest → Answer (Tailnet × Tables)
    unfolding is_system_admin allowed get_tailnet get_tailnet_by_name validate_dns_config
        validate_iam_policy domain_dns_config save_tailnet notify_all
    update_tailnet req = do
      _ ← allowed p req.tailnet_id
      t ← or_refused (get_tailnet w.store req.tailnet_id) not_found
      iam ← iam_policy_or req.iam_policy t.iam_policy
      acl ← acl_policy_or req.acl_policy t.acl_policy
      _ ← demand (valid_dns_config req.dns_config) invalid_argument
      name ← renamed_to t req.name
      let u = updated_tailnet t req name iam acl in answer (u, told (saved_tailnet w u) u.id)

    unfoldable pub read_tailnet : ℕ → Answer Tailnet
    unfolding allowed get_tailnet
    read_tailnet id = do _ ← allowed p id; or_refused (get_tailnet w.store id) not_found

    unfoldable pub remove_tailnet : ℕ → Bool → Answer Tables
    unfolding is_system_admin count_machine_by_tailnet delete_tailnet_rows notify_all
    remove_tailnet id force = do
      _ ← demand (is_system_admin p) permission_denied
      _ ← demand (force || count_machine_by_tailnet w.db id == 0) invalid_argument
      v ← or_internal (delete_tailnet_rows w id)
      answer (told v id)

    -- EnableX and DisableX of one setting: a row is saved where it differs, and its machines are told or not.
    abbrev pub set_flag : (Tailnet → Bool) → (Tailnet → Tailnet) → Bool → Bool → ℕ → Answer Tables
    set_flag flag with_flag on tells id = do
      t ← read_tailnet id
      let v = if same_bool (flag t) on then w else saved_tailnet w (with_flag t) in
          answer (if same_bool (flag t) on || not tells then v else told v t.id)

    unfoldable pub set_file_sharing : Bool → ℕ → Answer Tables
    unfolding read_tailnet save_tailnet notify_all
    set_file_sharing on id =
        set_flag (λ t. t.file_sharing_enabled) (λ t. record t { file_sharing_enabled = on }) on true
          id

    unfoldable pub set_service_collection : Bool → ℕ → Answer Tables
    unfolding read_tailnet save_tailnet notify_all
    set_service_collection on id =
        set_flag (λ t. t.service_collection_enabled)
          (λ t. record t { service_collection_enabled = on }) on true id

    unfoldable pub set_ssh : Bool → ℕ → Answer Tables
    unfolding read_tailnet save_tailnet notify_all
    set_ssh on id = set_flag (λ t. t.ssh_enabled) (λ t. record t { ssh_enabled = on }) on true id

    unfoldable pub set_machine_authorization : Bool → ℕ → Answer Tables
    unfolding read_tailnet save_tailnet notify_all
    set_machine_authorization on id =
        set_flag (λ t. t.machine_authorization_enabled)
          (λ t. record t { machine_authorization_enabled = on }) on false id

    unfoldable pub enable_tailnet_lock : ℕ → Answer Tables
    unfolding read_tailnet save_tailnet notify_all
    enable_tailnet_lock id =
        set_flag (λ t. t.tailnet_lock_enabled) (λ t. record t { tailnet_lock_enabled = true }) true
          true id

    -- It is refused while the lock is active.
    unfoldable pub disable_tailnet_lock : ℕ → Answer Tables
    unfolding read_tailnet get_lock save_tailnet notify_all
    disable_tailnet_lock id = do
      _ ← read_tailnet id
      _ ← demand (not (get_lock w.db id).enabled) failed_precondition
      set_flag (λ t. t.tailnet_lock_enabled) (λ t. record t { tailnet_lock_enabled = false }) false
          true id

    unfoldable pub set_iam_policy : ℕ → String → Answer Tables
    unfolding read_tailnet validate_iam_policy save_tailnet
    set_iam_policy id text = do
      t ← read_tailnet id
      policy ← valid_iam_policy (lib.parse_iam_policy text)
      answer (
          if lib.same_iam_policy t.iam_policy policy
          then w
          else saved_tailnet w (record t { iam_policy = policy }))

    -- HTTPS certs need MagicDNS and a DNS provider.
    unfoldable pub set_dns_config : ℕ → Option ApiDnsConfig → Answer Tables
    unfolding allowed get_tailnet validate_dns_config domain_dns_config save_tailnet notify_all
    set_dns_config id given = do
      _ ← allowed p id
      c ← or_refused given invalid_argument
      _ ← demand (validate_dns_config dns net c) invalid_argument
      _ ← demand (not c.https_certs || c.magic_dns) failed_precondition
      _ ← demand (not c.https_certs || config.has_dns_provider) failed_precondition
      t ← or_refused (get_tailnet w.store id) not_found
      answer (
          if lib.same_dns_config t.dns_config (domain_dns_config dns c)
          then w
          else told (saved_tailnet w (record t { dns_config = domain_dns_config dns c })) t.id)

    unfoldable pub set_acl_policy : ℕ → String → Answer Tables
    unfolding read_tailnet save_tailnet notify_all
    set_acl_policy id text = do
      t ← read_tailnet id
      policy ← or_refused (lib.parse_acl_policy text) invalid_argument
      answer (
          if lib.same_acl_policy t.acl_policy policy
          then w
          else told (saved_tailnet w (record t { acl_policy = policy })) t.id)
