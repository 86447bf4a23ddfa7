-- ===== src/Dns.antt =====
-- internal/domain/dns_config.go, and the checks of a DNS config in internal/service/dns.go.
-- dnsname.ValidHostname and two functions of Go's strings are parameters.
use ionskale.Prelude.{
  String, List, [], ◌∷◌, all, Bool, true, false, not, ◌&&◌, Option, none, some, str_eq,
  if◌then◌else◌,
}
use ionskale.Netip.{Addr, AddrText}

pub record DnsRecord : Type 0 where
  pub name : String
  pub record_type : String
  pub value : String

pub record DnsConfig : Type 0 where
  pub https_certs_enabled : Bool
  pub magic_dns : Bool
  pub override_local_dns : Bool
  pub nameservers : List String
  pub routes : List (String × List String)
  pub search_domains : List String
  pub extra_records : List DnsRecord

-- api.DNSConfig, without the suffix, which a request does not set. A record may be nil.
pub record ApiDnsConfig : Type 0 where
  pub magic_dns : Bool
  pub https_certs : Bool
  pub override_local_dns : Bool
  pub nameservers : List String
  pub routes : List (String × List String)
  pub search_domains : List String
  pub extra_records : List (Option DnsRecord)

-- `DefaultDNSConfig` of pkg/defaults.
abbrev pub default_dns_config : ApiDnsConfig
default_dns_config = record {
  magic_dns = true;
  https_certs = false;
  override_local_dns = false;
  nameservers = [];
  routes = [];
  search_domains = [];
  extra_records = [];
}

pub record DnsLib : Type 0 where
  pub valid_hostname : String → Bool
  pub trim_space : String → String
  pub to_upper : String → String

module _ (lib : DnsLib) (net : AddrText) where
  open lib use {valid_hostname, trim_space, to_upper}

  abbrev of_family : String → Option Addr → Bool
  of_family t none = false
  of_family t (some a) =
      if str_eq t ""
      then true
      else if str_eq t "A"
      then a.is4
      else if str_eq t "AAAA"
      then not a.is4
      else false

  abbrev is_valid_record : Option DnsRecord → Bool
  is_valid_record none = false
  is_valid_record (some r) =
      not (str_eq (trim_space r.name) "")
      && valid_hostname r.name
      && of_family (to_upper r.record_type) (net.parse_addr r.value)

  unfoldable pub validate_dns_config : ApiDnsConfig → Bool
  validate_dns_config c = all is_valid_record c.extra_records

abbrev domain_records : DnsLib → List (Option DnsRecord) → List DnsRecord
domain_records lib [] = []
domain_records lib (none ∷ rs) = domain_records lib rs
domain_records lib (some r ∷ rs) =
    record r { record_type = lib.to_upper r.record_type } ∷ domain_records lib rs

unfoldable pub domain_dns_config : DnsLib → ApiDnsConfig → DnsConfig
domain_dns_config lib c = record {
  https_certs_enabled = c.https_certs;
  magic_dns = c.magic_dns;
  override_local_dns = c.override_local_dns;
  nameservers = c.nameservers;
  routes = c.routes;
  search_domains = c.search_domains;
  extra_records = domain_records lib c.extra_records;
}
