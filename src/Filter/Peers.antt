-- ===== src/Filter/Peers.antt =====
-- internal/domain/acl_filter_rules.go: which machines see each other, `IsValidPeer`.
use ionskale.Prelude.{String, List, Bool, not, ◌&&◌, ◌||◌, Option, none, some, any, is_empty}
use ionskale.Netip.{AddrText}
use ionskale.Policy.{AclEntry, AclSsh, AclGrant, AclPolicy}
use ionskale.Machine.{Machine, User, has_tags, has_user}
use ionskale.Filter.Aliases.{
  translate_source_alias_to_machine_ips, translate_destination_aliases_to_machine_ips,
  translate_destination_aliases_to_machine_net_port_ranges,
}

module _ (net : AddrText) where
  -- Some alias stands for an address of the source.
  unfoldable pub some_source : AclPolicy → Machine → Option User → List String → Bool
  unfolding translate_source_alias_to_machine_ips
  some_source a src u aliases =
      any (λ alias. not (is_empty (translate_source_alias_to_machine_ips net a alias src u)))
        aliases

  abbrev pub reaches {ℓ} :
      {A : Type ℓ} → AclPolicy → Machine → Machine → List String → List A × List A → Bool
  reaches a src dest sources (self, other) =
      (not (is_empty self) && some_source a src (some dest.user) sources)
      || (not (is_empty other) && some_source a src none sources)

  unfoldable pub acl_reaches : AclPolicy → Machine → Machine → AclEntry → Bool
  unfolding some_source translate_destination_aliases_to_machine_net_port_ranges
  acl_reaches a src dest acl =
      reaches a src dest acl.source
        (translate_destination_aliases_to_machine_net_port_ranges net a acl.destination dest)

  unfoldable pub grant_reaches : AclPolicy → Machine → Machine → AclGrant → Bool
  unfolding some_source translate_destination_aliases_to_machine_ips
  grant_reaches a src dest grant =
      reaches a src dest grant.source
        (translate_destination_aliases_to_machine_ips net a grant.destination dest)

  unfoldable pub ssh_reaches : AclPolicy → Machine → Machine → AclSsh → Bool
  unfolding some_source translate_destination_aliases_to_machine_ips
  ssh_reaches a src dest ssh =
      reaches a src dest ssh.destination
        (translate_destination_aliases_to_machine_ips net a ssh.recorder dest)

  unfoldable pub is_valid_peer : AclPolicy → Machine → Machine → Bool
  unfolding acl_reaches grant_reaches ssh_reaches has_tags has_user
  is_valid_peer a src dest =
      (not (has_tags src) && not (has_tags dest) && has_user dest src.user.name)
      || any (acl_reaches a src dest) a.acls
      || any (grant_reaches a src dest) a.grants
      || any (ssh_reaches a src dest) a.ssh
