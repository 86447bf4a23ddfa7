-- ===== src/Machine.antt =====
-- internal/domain/machine.go, with the parts of user.go and tailnet.go that a machine holds: its
-- record and the questions that the policy asks of it. The two addresses are always set once a
-- machine is stored; the current time is an argument, and the zero time is 0.
use ionskale.Prelude.{
  ℕ, String, List, [], ◌∷◌, map, Bool, not, ◌&&◌, ◌||◌, Option, none, some, ◌==◌, ltb, str_eq, any,
  keep, is_empty,
}
use ionskale.Netip.{Addr, Prefix, AddrText, same_addr, contains_addr, overlaps}
use ionskale.Policy.{AclPolicy}
use ionskale.Dns.{DnsConfig}
use ionskale.Iam.{IamPolicy}
use ionskale.StringSet.{empty, add, items}

abbrev pub Bytes : Type 0
Bytes = List ℕ

pub record User : Type 0 where
  pub id : ℕ
  pub name : String
  pub user_type : String
  pub tailnet_id : ℕ
  pub account_id : Option ℕ
  pub last_authenticated : Option ℕ

pub record Tailnet : Type 0 where
  pub id : ℕ
  pub name : String
  pub organization : String
  pub iam_policy : IamPolicy
  pub acl_policy : AclPolicy
  pub dns_config : DnsConfig
  pub service_collection_enabled : Bool
  pub file_sharing_enabled : Bool
  pub ssh_enabled : Bool
  pub machine_authorization_enabled : Bool
  pub tailnet_lock_enabled : Bool

-- The fields of tailcfg.Hostinfo that the modelled code reads.
pub record HostInfo : Type 0 where
  pub hostname : String
  pub routable_ips : List Prefix
  pub request_tags : List String
  pub ssh_host_keys : List String

pub record Machine : Type 0 where
  pub id : ℕ
  pub name : String
  pub name_idx : ℕ
  pub machine_key : String
  pub node_key : String
  pub disco_key : String
  pub nl_key : String
  pub key_signature : Bytes
  pub ephemeral : Bool
  pub registered_tags : List String
  pub tags : List String
  pub key_expiry_disabled : Bool
  pub authorized : Bool
  pub use_os_hostname : Bool
  pub host_info : HostInfo
  pub allow_ips : List Prefix
  pub auto_allow_ips : List Prefix
  pub ipv4 : Addr
  pub ipv6 : Addr
  pub created_at : ℕ
  pub expires_at : ℕ
  pub last_seen : Option ℕ
  pub user_id : ℕ
  pub user : User
  pub tailnet_id : ℕ
  pub tailnet : Tailnet

-- `Time.IsZero`.
abbrev pub is_zero_time : ℕ → Bool
is_zero_time t = t == 0

unfoldable pub is_expired : ℕ → Machine → Bool
is_expired now m =
    not m.key_expiry_disabled && not (is_zero_time m.expires_at) && ltb m.expires_at now

-- `t` is nil where the caller has no tailnet.
unfoldable pub is_quarantined : ℕ → Machine → Option Tailnet → Bool
unfolding is_expired
is_quarantined now m none = is_expired now m
is_quarantined now m (some t) =
    is_expired now m || (t.machine_authorization_enabled && not m.authorized)

unfoldable pub has_ip : Machine → Addr → Bool
has_ip m v = same_addr v m.ipv4 || same_addr v m.ipv6

unfoldable pub has_tag : Machine → String → Bool
has_tag m tag = any (λ t. str_eq t tag) m.tags

unfoldable pub has_user : Machine → String → Bool
has_user m login_name = str_eq m.user.name login_name

unfoldable pub has_tags : Machine → Bool
has_tags m = not (is_empty m.tags)

-- `r.Bits() == 0`.
abbrev pub is_default_route : Prefix → Bool
is_default_route r = r.bits == 0

unfoldable pub is_advertised_exit_node : Machine → Bool
is_advertised_exit_node m = any is_default_route m.host_info.routable_ips

unfoldable pub is_allowed_exit_node : Machine → Bool
is_allowed_exit_node m = any is_default_route m.allow_ips || any is_default_route m.auto_allow_ips

unfoldable pub is_exit_node : Machine → Bool
is_exit_node m = any is_default_route m.allow_ips || any is_default_route m.auto_allow_ips

unfoldable pub is_allowed_ip : Machine → Addr → Bool
unfolding has_ip
is_allowed_ip m i =
    has_ip m i
    || any (λ t. contains_addr t i) m.allow_ips
    || any (λ t. contains_addr t i) m.auto_allow_ips

unfoldable pub is_allowed_ip_prefix : Machine → Prefix → Bool
is_allowed_ip_prefix m i =
    any (λ t. overlaps t i) m.allow_ips || any (λ t. overlaps t i) m.auto_allow_ips

module _ (net : AddrText) where
  open net use {addr_text, prefix_text}

  unfoldable pub ips : Machine → List String
  ips m = addr_text m.ipv4 ∷ addr_text m.ipv6 ∷ []

  -- The texts of the routes that are no default route.
  abbrev proper_routes : List Prefix → List String
  proper_routes rs = map prefix_text (keep (λ r. not (is_default_route r)) rs)

  unfoldable pub advertised_prefixes : Machine → List String
  advertised_prefixes m = proper_routes m.host_info.routable_ips

  unfoldable pub allowed_prefixes : Machine → List String
  allowed_prefixes m =
      items (add (add empty (proper_routes m.allow_ips)) (proper_routes m.auto_allow_ips))
