-- ===== src/Examples/Data.antt =====
-- A tailnet of four machines, its policy, and a reading of the few address texts that they use.
use ionskale.Prelude.{
  ℕ, String, List, [], ◌∷◌, ◌^◌, ◌*◌, ◌+◌, true, false, Option, none, some, str_eq, ◌==◌,
  if◌then◌else◌,
}
use ionskale.Netip.{Addr, Prefix, AddrText}
use ionskale.Policy.{AclPolicy, AclAutoApprovers, AclSsh}
use ionskale.Iam.{empty_policy}
use ionskale.Machine.{User, Tailnet, Machine}

abbrev pub v4 : ℕ → Addr
v4 n = record { is4 = true; value = n; zone = "" }

abbrev pub v6 : ℕ → Addr
v6 n = record { is4 = false; value = n; zone = "" }

-- 10.0.0.0/8, and a route inside it.
abbrev pub office : Prefix
office = record { addr = v4 (10 * 2 ^ 24); bits = 8 }

abbrev pub lab : Prefix
lab = record { addr = v4 (10 * 2 ^ 24 + 2 ^ 16); bits = 16 }

abbrev pub everything : Prefix
everything = record { addr = v4 0; bits = 0 }

abbrev addr_of : String → Option Addr
addr_of s =
    if str_eq s "100.64.0.1"
    then some (v4 1)
    else if str_eq s "100.64.0.2"
    then some (v4 2)
    else none

abbrev prefix_of : String → Option Prefix
prefix_of s = if str_eq s "10.0.0.0/8" then some office else none

abbrev text_of : Addr → String
text_of a =
    if a.is4
    then (if a.value == 1
        then "100.64.0.1"
        else if a.value == 2
        then "100.64.0.2"
        else if a.value == 3
        then "100.64.0.3"
        else "100.64.0.4")
    else "fd7a::"

abbrev pub net : AddrText
net = record {
  parse_addr = addr_of;
  parse_prefix = prefix_of;
  addr_text = text_of;
  prefix_text = λ p. if p.bits == 8 then "10.0.0.0/8" else "10.1.0.0/16";
}

abbrev pub alice : User
alice = record {
  id = 1;
  name = "alice@example.com";
  user_type = "person";
  tailnet_id = 1;
  account_id = some 1;
  last_authenticated = none;
}

abbrev pub carol : User
carol = record {
  id = 2;
  name = "carol@example.com";
  user_type = "person";
  tailnet_id = 1;
  account_id = some 2;
  last_authenticated = none;
}

abbrev pub approvers : AclAutoApprovers
approvers = record { routes = ("10.0.0.0/8", "group:dev" ∷ []) ∷ []; exit_node = "tag:web" ∷ [] }

abbrev pub check_rule : AclSsh
check_rule = record {
  action = "check";
  source = "group:dev" ∷ "tag:web" ∷ [];
  destination = "autogroup:self" ∷ [];
  users = "autogroup:nonroot" ∷ "deploy" ∷ [];
  check_period = "";
  recorder = [];
  enforce_recorder = false;
}

abbrev pub policy : AclPolicy
policy = record {
  groups = ("group:dev", "alice@example.com" ∷ []) ∷ ("group:ops", "carol@example.com" ∷ []) ∷ [];
  hosts = [];
  acls =
      record {
        action = "accept";
        protocol = "tcp";
        source = "group:dev" ∷ [];
        destination = "tag:web:80" ∷ "autogroup:self:*" ∷ [];
      }
      ∷ [];
  tag_owners =
      ("tag:web", "group:dev" ∷ []) ∷ ("tag:db", "group:ops" ∷ "alice@example.com" ∷ []) ∷ [];
  auto_approvers = some approvers;
  ssh = check_rule ∷ [];
  node_attrs = [];
  grants = [];
}

abbrev pub tailnet : Tailnet
tailnet = record {
  id = 1;
  name = "example";
  organization = "";
  iam_policy = empty_policy;
  acl_policy = policy;
  dns_config = record {
    https_certs_enabled = false;
    magic_dns = true;
    override_local_dns = false;
    nameservers = [];
    routes = [];
    search_domains = [];
    extra_records = [];
  };
  service_collection_enabled = false;
  file_sharing_enabled = false;
  ssh_enabled = true;
  machine_authorization_enabled = true;
  tailnet_lock_enabled = true;
}

abbrev pub node : ℕ → String → User → List String → Machine
node id name user tags = record {
  id = id;
  name = name;
  name_idx = 0;
  machine_key = name;
  node_key = name;
  disco_key = name;
  nl_key = "";
  key_signature = [];
  ephemeral = false;
  registered_tags = [];
  tags = tags;
  key_expiry_disabled = false;
  authorized = true;
  use_os_hostname = false;
  host_info = record { hostname = name; routable_ips = []; request_tags = []; ssh_host_keys = [] };
  allow_ips = [];
  auto_allow_ips = [];
  ipv4 = v4 id;
  ipv6 = v6 id;
  created_at = 1;
  expires_at = 100;
  last_seen = none;
  user_id = user.id;
  user = user;
  tailnet_id = 1;
  tailnet = tailnet;
}

abbrev pub laptop : Machine
laptop = node 1 "laptop" alice []

abbrev pub server : Machine
server = node 2 "server" carol ("tag:web" ∷ [])

abbrev pub phone : Machine
phone = node 3 "phone" alice []

abbrev pub desk : Machine
desk = node 4 "desk" carol []
