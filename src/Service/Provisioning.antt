-- ===== src/Service/Provisioning.antt =====
-- internal/domain/tailnet.go: the queries of the API over tailnets; internal/service/tailnet.go: its
-- requests and its configuration, with the default policy of pkg/defaults. HuJSON, the grammar of the filters and
-- the comparison of two policies or configs are parameters.
use ionskale.Prelude.{
  ℕ, String, [], ◌∷◌, Bool, false, not, Option, none, some, ◌==◌, str_eq, keep, take_first,
  if◌then◌else◌,
}
use ionskale.Policy.{AclPolicy}
use ionskale.Iam.{IamPolicy}
use ionskale.Dns.{DnsConfig, ApiDnsConfig}
use ionskale.Machine.{Tailnet}
use ionskale.Lock.Db.{delete_lock}
use ionskale.Store.{delete_machine_by_tailnet}
use ionskale.Service.AuthKeys.{KeyStore}
use ionskale.Tables.{Tables}

unfoldable pub get_tailnet_by_name : KeyStore → String → Option Tailnet
get_tailnet_by_name s name = take_first (λ t. str_eq t.name name) s.tailnets

-- Some tailnet of the organization; which one is not read.
unfoldable pub get_tailnet_by_organization : KeyStore → String → Option Tailnet
get_tailnet_by_organization s organization =
    take_first (λ t. str_eq t.organization organization) s.tailnets

-- The six deletions of a transaction; gorm refuses a deletion of the row with id 0, as one without a condition.
unfoldable pub delete_tailnet_rows : Tables → ℕ → Option Tables
unfolding delete_machine_by_tailnet delete_lock
delete_tailnet_rows w id =
    if id == 0
    then none
    else some (record w {
      db = delete_lock (delete_machine_by_tailnet w.db id) id;
      store = record w.store {
        keys = record w.store.keys {
          api_keys = keep (λ k. not (k.tailnet.id == id)) w.store.keys.api_keys;
          auth_keys = keep (λ k. not (k.tailnet.id == id)) w.store.keys.auth_keys;
        };
        users = keep (λ u. not (u.tailnet_id == id)) w.store.users;
        tailnets = keep (λ t. not (t.id == id)) w.store.tailnets;
      };
    })

pub record PolicyLib : Type 0 where
  pub parse_iam_policy : String → Option IamPolicy
  pub parse_acl_policy : String → Option AclPolicy
  pub parse_filter : String → Bool
  pub same_iam_policy : IamPolicy → IamPolicy → Bool
  pub same_acl_policy : AclPolicy → AclPolicy → Bool
  pub same_dns_config : DnsConfig → DnsConfig → Bool

-- config.Tailnets, and whether a DNS provider is configured.
pub record TailnetsConfig : Type 0 where
  pub default_acl_policy : String
  pub machine_authorization : Bool
  pub has_dns_provider : Bool

pub record CreateRequest : Type 0 where
  pub name : String
  pub organization : String
  pub iam_policy : String
  pub acl_policy : String
  pub dns_config : Option ApiDnsConfig
  pub service_collection_enabled : Bool
  pub file_sharing_enabled : Bool
  pub ssh_enabled : Bool
  pub machine_authorization_enabled : Bool

pub record UpdateRequest : Type 0 where
  pub tailnet_id : ℕ
  pub name : String
  pub iam_policy : String
  pub acl_policy : String
  pub dns_config : Option ApiDnsConfig
  pub service_collection_enabled : Option Bool
  pub file_sharing_enabled : Option Bool
  pub ssh_enabled : Option Bool
  pub machine_authorization_enabled : Option Bool

-- `DefaultACLPolicy` of pkg/defaults.
abbrev pub built_in_acl_policy : AclPolicy
built_in_acl_policy = record {
  groups = [];
  hosts = [];
  acls =
      record { action = "accept"; protocol = ""; source = "*" ∷ []; destination = "*:*" ∷ [] } ∷ [];
  tag_owners = [];
  auto_approvers = none;
  ssh =
      record {
        action = "check";
        source = "autogroup:member" ∷ [];
        destination = "autogroup:self" ∷ [];
        users = "autogroup:nonroot" ∷ "root" ∷ [];
        check_period = "";
        recorder = [];
        enforce_recorder = false;
      }
      ∷ [];
  node_attrs = [];
  grants = [];
}
