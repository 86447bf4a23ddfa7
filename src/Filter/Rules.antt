-- ===== src/Filter/Rules.antt =====
-- internal/domain/acl_filter_rules.go: the packet filter of a machine, `BuildFilterRules`.
use ionskale.Prelude.{
  String, List, [], ◌∷◌, ◌++◌, map, Option, none, some, str_eq, starts_with, is_empty,
  if◌then◌else◌,
}
use Prim.Native.String.{◌++◌ as append_text}
use ionskale.Prelude.Int.{ℤ, pos, is_zero}
use ionskale.Netip.{Addr, Prefix, AddrText}
use ionskale.Policy.{
  ProtoPortRange, NetPortRange, PeerCapMap, FilterRule, AclEntry, AclSsh, AclGrant, AclPolicy,
}
use ionskale.StringSet.{StringSet, empty, add, items}
use ionskale.Machine.{Machine, User, has_ip}
use ionskale.Acl.Ports.{parse_protocol}
use ionskale.Filter.Aliases.{
  translate_source_alias_to_machine_ips, translate_destination_aliases_to_machine_ips,
  translate_destination_aliases_to_machine_net_port_ranges,
}

-- A rule with no sources yet: `tailcfg.FilterRule{IPProto: …, DstPorts: …}`, if there is any port.
abbrev pub port_rule : List ℤ → List NetPortRange → List FilterRule
port_rule proto [] = []
port_rule proto (r ∷ rs) =
    record { src_ips = []; dst_ports = r ∷ rs; ip_proto = proto; cap_grant = [] } ∷ []

unfoldable pub normalize_ssh_recorders : List String → List String
normalize_ssh_recorders [] = []
normalize_ssh_recorders (alias ∷ aliases) =
    (if starts_with alias "tag:" then append_text alias ":80" ∷ [] else [])
    ++ normalize_ssh_recorders aliases

-- The rules of one entry of a grant, for one of its two lists of addresses.
abbrev pub grant_ip_rule : List String → ProtoPortRange → List FilterRule
grant_ip_rule [] ip = []
grant_ip_rule (s ∷ ss) ip =
    record {
      src_ips = [];
      dst_ports = map (λ (t : String). record { ip = t; ports = ip.ports }) (s ∷ ss);
      ip_proto = if is_zero ip.proto then [] else ip.proto ∷ [];
      cap_grant = [];
    }
    ∷ []

abbrev pub grant_ip_rules : List String → List ProtoPortRange → List FilterRule
grant_ip_rules found [] = []
grant_ip_rules found (ip ∷ rest) = grant_ip_rule found ip ++ grant_ip_rules found rest

abbrev pub grant_app_rule : PeerCapMap → List Prefix → List FilterRule
grant_app_rule app [] = []
grant_app_rule app (p ∷ ps) =
    record {
      src_ips = [];
      dst_ports = [];
      ip_proto = [];
      cap_grant = record { dsts = p ∷ ps; cap_map = app } ∷ [];
    }
    ∷ []

unfoldable pub with_sources : List String → List FilterRule → List FilterRule
with_sources [] prepared = []
with_sources (s ∷ ss) prepared = map (λ (r : FilterRule). record r { src_ips = s ∷ ss }) prepared

module _ (net : AddrText) where
  open net use {parse_addr}

  abbrev prefixes_of_addr : Machine → Option Addr → List Prefix
  prefixes_of_addr m none = []
  prefixes_of_addr m (some addr) =
      if has_ip m addr then record { addr = addr; bits = if addr.is4 then 32 else 128 } ∷ [] else []

  -- The closure `translate` of `appGrantDstIpsToPrefixes`.
  unfoldable pub app_grant_prefixes : Machine → List String → List Prefix
  unfolding has_ip
  app_grant_prefixes m [] = []
  app_grant_prefixes m (ip ∷ rest) =
      (if str_eq ip "*"
        then record { addr = m.ipv4; bits = 32 } ∷ record { addr = m.ipv6; bits = 128 } ∷ []
        else prefixes_of_addr m (parse_addr ip))
      ++ app_grant_prefixes m rest

  unfoldable pub app_grant_dst_ips_to_prefixes :
      Machine → List String → List String → List Prefix × List Prefix
  unfolding app_grant_prefixes
  app_grant_dst_ips_to_prefixes m self other =
      (app_grant_prefixes m self, app_grant_prefixes m other)

  unfoldable pub prepare_filter_rules_from_ssh : AclPolicy → Machine → AclSsh → List FilterRule
  unfolding normalize_ssh_recorders translate_destination_aliases_to_machine_net_port_ranges
  prepare_filter_rules_from_ssh a candidate entry =
      let (_, other) =
        translate_destination_aliases_to_machine_net_port_ranges net a
          (normalize_ssh_recorders entry.recorder) candidate in
      port_rule (pos 6 ∷ []) other

  unfoldable pub prepare_filter_rules_from_acl :
      AclPolicy → Machine → AclEntry → List FilterRule × List FilterRule
  unfolding parse_protocol translate_destination_aliases_to_machine_net_port_ranges
  prepare_filter_rules_from_acl a candidate acl =
      let (self, other) =
        translate_destination_aliases_to_machine_net_port_ranges net a acl.destination candidate in
      (port_rule (parse_protocol acl.protocol) self, port_rule (parse_protocol acl.protocol) other)

  unfoldable pub prepare_filter_rules_from_grant :
      AclPolicy → Machine → AclGrant → List FilterRule × List FilterRule
  unfolding translate_destination_aliases_to_machine_ips app_grant_dst_ips_to_prefixes
  prepare_filter_rules_from_grant a candidate grant =
      let (self, other) =
        translate_destination_aliases_to_machine_ips net a grant.destination candidate in
      let (self_prefixes, other_prefixes) = app_grant_dst_ips_to_prefixes candidate self other in
      let app =
        λ (ps : List Prefix). if is_empty grant.app then [] else grant_app_rule grant.app ps in
      (
        grant_ip_rules self grant.ip ++ app self_prefixes,
        grant_ip_rules other grant.ip ++ app other_prefixes,
      )

  -- The loops over the aliases and the peers that fill the set of sources.
  unfoldable pub add_peers : AclPolicy → String → Option User → StringSet → List Machine → StringSet
  unfolding translate_source_alias_to_machine_ips add
  add_peers a alias u s [] = s
  add_peers a alias u s (peer ∷ peers) =
      add_peers a alias u (add s (translate_source_alias_to_machine_ips net a alias peer u)) peers

  unfoldable pub add_sources :
      AclPolicy → List Machine → Option User → StringSet → List String → StringSet
  unfolding add_peers
  add_sources a peers u s [] = s
  add_sources a peers u s (alias ∷ aliases) =
      add_sources a peers u (add_peers a alias u s peers) aliases

  unfoldable pub source_ips : AclPolicy → List Machine → Option User → List String → List String
  unfolding add_sources items
  source_ips a peers u aliases = items (add_sources a peers u empty aliases)

  -- The closure `matchSourceAndAppendRule`: the rules that it appends.
  unfoldable pub match_source :
      AclPolicy → List Machine → List String → List FilterRule → Option User → List FilterRule
  unfolding source_ips with_sources
  match_source a peers aliases [] u = []
  match_source a peers aliases (r ∷ rs) u = with_sources (source_ips a peers u aliases) (r ∷ rs)

  unfoldable pub rules_of_pair :
      AclPolicy
      → List Machine
      → Machine
      → List String
      → List FilterRule × List FilterRule
      → List FilterRule
  unfolding match_source
  rules_of_pair a peers dst source (self, other) =
      match_source a peers source self (some dst.user) ++ match_source a peers source other none

  unfoldable pub acl_rules : AclPolicy → List Machine → Machine → List AclEntry → List FilterRule
  unfolding rules_of_pair prepare_filter_rules_from_acl
  acl_rules a peers dst [] = []
  acl_rules a peers dst (acl ∷ rest) =
      rules_of_pair a peers dst acl.source (prepare_filter_rules_from_acl a dst acl)
      ++ acl_rules a peers dst rest

  unfoldable pub grant_rules : AclPolicy → List Machine → Machine → List AclGrant → List FilterRule
  unfolding rules_of_pair prepare_filter_rules_from_grant
  grant_rules a peers dst [] = []
  grant_rules a peers dst (grant ∷ rest) =
      rules_of_pair a peers dst grant.source (prepare_filter_rules_from_grant a dst grant)
      ++ grant_rules a peers dst rest

  unfoldable pub ssh_rules : AclPolicy → List Machine → Machine → List AclSsh → List FilterRule
  unfolding match_source prepare_filter_rules_from_ssh
  ssh_rules a peers dst [] = []
  ssh_rules a peers dst (ssh ∷ rest) =
      match_source a peers ssh.destination (prepare_filter_rules_from_ssh a dst ssh) none
      ++ ssh_rules a peers dst rest

  unfoldable pub build_filter_rules : AclPolicy → List Machine → Machine → List FilterRule
  unfolding acl_rules grant_rules ssh_rules
  build_filter_rules a peers dst =
      acl_rules a peers dst a.acls
      ++ (grant_rules a peers dst a.grants ++ ssh_rules a peers dst a.ssh)
