-- ===== src/Filter/Aliases.antt =====
-- internal/domain/acl_filter_rules.go and acl.go: the texts of the addresses that an alias stands
-- for, as a source and as a destination.
use ionskale.Prelude.{
  String, List, [], ◌∷◌, ◌++◌, map, Bool, true, false, not, ◌&&◌, ◌||◌, Option, none, some, str_eq,
  starts_with, lookup, if◌then◌else◌,
}
use ionskale.Netip.{Addr, Prefix, AddrText}
use ionskale.Policy.{PortRange, NetPortRange, AclPolicy}
use ionskale.StringSet.{StringSet, empty, add, items}
use ionskale.Strconv.{split_last}
use ionskale.Machine.{
  Machine, User, has_ip, has_tag, has_tags, has_user, is_exit_node, is_allowed_ip,
  is_allowed_ip_prefix, ips, allowed_prefixes,
}
use ionskale.Acl.{
  machine_owned_by, is_group_member, auto_group_self, auto_group_member, auto_group_members,
  auto_group_tagged, auto_group_internet, auto_group_danger_all,
}
use ionskale.Acl.Ports.{parse_port_ranges}

pub autogroup_internet_ranges : List String
autogroup_internet_ranges =
    "0.0.0.0/5" ∷ "8.0.0.0/7" ∷ "11.0.0.0/8" ∷ "12.0.0.0/6" ∷ "16.0.0.0/4" ∷ "32.0.0.0/3"
    ∷ "64.0.0.0/3" ∷ "96.0.0.0/6" ∷ "100.0.0.0/10" ∷ "100.128.0.0/9" ∷ "101.0.0.0/8" ∷ "102.0.0.0/7"
    ∷ "104.0.0.0/5" ∷ "112.0.0.0/4" ∷ "128.0.0.0/3" ∷ "160.0.0.0/5" ∷ "168.0.0.0/8" ∷ "169.0.0.0/9"
    ∷ "169.128.0.0/10" ∷ "169.192.0.0/11" ∷ "169.224.0.0/12" ∷ "169.240.0.0/13" ∷ "169.248.0.0/14"
    ∷ "169.252.0.0/15" ∷ "169.255.0.0/16" ∷ "170.0.0.0/7" ∷ "172.0.0.0/12" ∷ "172.32.0.0/11"
    ∷ "172.64.0.0/10" ∷ "172.128.0.0/9" ∷ "173.0.0.0/8" ∷ "174.0.0.0/7" ∷ "176.0.0.0/4"
    ∷ "192.0.0.0/9" ∷ "192.128.0.0/11" ∷ "192.160.0.0/13" ∷ "192.169.0.0/16" ∷ "192.170.0.0/15"
    ∷ "192.172.0.0/14" ∷ "192.176.0.0/12" ∷ "192.192.0.0/10" ∷ "193.0.0.0/8" ∷ "194.0.0.0/7"
    ∷ "196.0.0.0/6" ∷ "200.0.0.0/5" ∷ "208.0.0.0/4" ∷ "224.0.0.0/3" ∷ "2000::/3" ∷ []

abbrev pub host_or_self : Option String → String → String
host_or_self none alias = alias
host_or_self (some h) alias = h

abbrev pub both_items : StringSet × StringSet → List String × List String
both_items (self, other) = (items self, items other)

-- Every pair of an address and a port range.
unfoldable pub cross : List String → List PortRange → List NetPortRange
cross [] ports = []
cross (d ∷ ds) ports = map (λ p. record { ip = d; ports = p }) ports ++ cross ds ports

abbrev pub cross_ports : List String → Option (List PortRange) → List NetPortRange
cross_ports found none = []
cross_ports found (some ports) = cross found ports

abbrev pub add_ranges :
    Bool
    → List NetPortRange
    → List NetPortRange × List NetPortRange
    → List NetPortRange × List NetPortRange
add_ranges true ranges (self, other) = (ranges ++ self, other)
add_ranges false ranges (self, other) = (self, ranges ++ other)

module _ (net : AddrText) where
  open net use {parse_addr, parse_prefix, addr_text, prefix_text}

  -- `f` says what an alias that names an address stands for.
  unfoldable pub translate_alias_to_machine_ips :
      AclPolicy → String → Machine → (String → Machine → List String) → List String
  unfolding machine_owned_by is_group_member has_tags has_tag is_exit_node ips lookup
      autogroup_internet_ranges
  translate_alias_to_machine_ips a alias m f =
      if str_eq alias auto_group_member
        || str_eq alias auto_group_members
        || str_eq alias auto_group_self
      then (if not (has_tags m) then ips net m else [])
      else if str_eq alias auto_group_tagged
      then (if has_tags m then ips net m else [])
      else if str_eq alias auto_group_internet && is_exit_node m
      then autogroup_internet_ranges
      else if machine_owned_by net a alias m
      then ips net m
      else if starts_with alias "group:" && not (has_tags m) && is_group_member a alias m
      then ips net m
      else if starts_with alias "tag:" && has_tag m alias
      then ips net m
      else f (host_or_self (lookup alias a.hosts) alias) m

  abbrev pub own_addr : Machine → Option Addr → List String
  own_addr m none = []
  own_addr m (some ip) = if has_ip m ip then addr_text ip ∷ [] else []

  -- The closure `f` of `translateSourceAliasToMachineIPs`.
  unfoldable pub source_literal : String → Machine → List String
  unfolding has_ip
  source_literal alias m = own_addr m (parse_addr alias)

  abbrev pub source_for_any : AclPolicy → String → Machine → List String
  source_for_any a alias m =
      if str_eq alias "*"
      then ips net m ++ allowed_prefixes net m
      else if str_eq alias auto_group_danger_all
      then "0.0.0.0/0" ∷ "::/0" ∷ []
      else translate_alias_to_machine_ips a alias m source_literal

  -- `u` is nil where every user's machines may be a source.
  unfoldable pub translate_source_alias_to_machine_ips :
      AclPolicy → String → Machine → Option User → List String
  unfolding translate_alias_to_machine_ips source_literal allowed_prefixes
  translate_source_alias_to_machine_ips a alias m none = source_for_any a alias m
  translate_source_alias_to_machine_ips a alias m (some u) =
      if has_tags m then [] else if not (has_user m u.name) then [] else source_for_any a alias m

  abbrev allowed_prefix : Machine → Option Prefix → List String
  allowed_prefix m none = []
  allowed_prefix m (some p) = if is_allowed_ip_prefix m p then prefix_text p ∷ [] else []

  abbrev allowed_addr : Machine → Option Addr → List String → List String
  allowed_addr m none otherwise = otherwise
  allowed_addr m (some ip) otherwise = if is_allowed_ip m ip then addr_text ip ∷ [] else otherwise

  -- The closure `f` of `translateDestinationAliasToMachineIPs`.
  destination_literal : String → Machine → List String
  unfolding is_allowed_ip is_allowed_ip_prefix
  destination_literal alias m =
      allowed_addr m (parse_addr alias) (allowed_prefix m (parse_prefix alias))

  unfoldable pub translate_destination_alias_to_machine_ips :
      AclPolicy → String → Machine → List String
  unfolding translate_alias_to_machine_ips destination_literal
  translate_destination_alias_to_machine_ips a alias m =
      if str_eq alias "*"
      then "*" ∷ []
      else translate_alias_to_machine_ips a alias m destination_literal

  unfoldable pub collect_ips :
      AclPolicy → Machine → StringSet → StringSet → List String → StringSet × StringSet
  unfolding translate_destination_alias_to_machine_ips add
  collect_ips a m self other [] = (self, other)
  collect_ips a m self other (alias ∷ aliases) =
      let found = translate_destination_alias_to_machine_ips a alias m in
      let is_self = str_eq alias auto_group_self in
      collect_ips a m (if is_self then add self found else self)
        (if is_self then other else add other found) aliases

  unfoldable pub translate_destination_aliases_to_machine_ips :
      AclPolicy → List String → Machine → List String × List String
  unfolding collect_ips items
  translate_destination_aliases_to_machine_ips a aliases m =
      both_items (collect_ips a m empty empty aliases)

  abbrev pub ranges_at : AclPolicy → Machine → Option (String × String) → List NetPortRange
  ranges_at a m none = []
  ranges_at a m (some (alias, ports)) =
      cross_ports (translate_destination_alias_to_machine_ips a alias m) (parse_port_ranges ports)

  unfoldable pub translation_destination_alias_to_machine_net_port_ranges :
      AclPolicy → String → Machine → List NetPortRange
  unfolding translate_destination_alias_to_machine_ips cross split_last parse_port_ranges
  translation_destination_alias_to_machine_net_port_ranges a alias m =
      ranges_at a m (split_last b':' alias)

  unfoldable pub translate_destination_aliases_to_machine_net_port_ranges :
      AclPolicy → List String → Machine → List NetPortRange × List NetPortRange
  unfolding translation_destination_alias_to_machine_net_port_ranges
  translate_destination_aliases_to_machine_net_port_ranges a [] m = ([], [])
  translate_destination_aliases_to_machine_net_port_ranges a (alias ∷ aliases) m =
      add_ranges (starts_with alias auto_group_self)
        (translation_destination_alias_to_machine_net_port_ranges a alias m)
        (translate_destination_aliases_to_machine_net_port_ranges a aliases m)
