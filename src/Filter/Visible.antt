-- ===== src/Filter/Visible.antt =====
-- internal/domain/acl_filter_rules.go: the packet filter names only machines that are peers.
use ionskale.Prelude.{
  String, List, [], ◌∷◌, ◌++◌, true, false, ◌≡◌, refl, ◌⊎◌, inl, inr, Option, none, some, arith,
  ||_left, ||_right, not-&&-true, if◌then◌else◌, Any, Any-map, any, is_empty,
}
use ionskale.Prelude.Int.{ℤ, pos}
use ionskale.Netip.{AddrText}
use ionskale.Policy.{
  AclPolicy, AclEntry, AclGrant, AclSsh, FilterRule, NetPortRange, ProtoPortRange,
}
use ionskale.Machine.{Machine, User}
use ionskale.Acl.Ports.{parse_protocol}
use ionskale.Filter.Aliases.{
  translate_destination_aliases_to_machine_ips,
  translate_destination_aliases_to_machine_net_port_ranges,
}
use ionskale.Filter.Rules.{
  port_rule, grant_ip_rules, grant_app_rule, app_grant_prefixes, app_grant_dst_ips_to_prefixes,
  with_sources, match_source, rules_of_pair, acl_rules, grant_rules, ssh_rules, build_filter_rules,
  prepare_filter_rules_from_acl, prepare_filter_rules_from_grant, prepare_filter_rules_from_ssh,
}
use ionskale.Filter.Peers.{
  some_source, reaches, acl_reaches, grant_reaches, ssh_reaches, is_valid_peer,
}
use ionskale.Filter.Sources.{source_ips-some_source}
use ionskale.Filter.Destinations.{normalize_ssh_recorders-reached, recorder-other}

append-is_empty {ℓ} :
    {A : Type ℓ} (xs ys : List A)
    → is_empty (xs ++ ys) ≡ false
    → (is_empty xs ≡ false) ⊎ (is_empty ys ≡ false)
append-is_empty [] ys h = inr h
append-is_empty (x ∷ xs) ys h = inl refl

with_sources-is_empty :
    (srcs : List String) (rules : List FilterRule)
    → is_empty (with_sources srcs rules) ≡ false
    → is_empty srcs ≡ false
unfolding with_sources
with_sources-is_empty [] rules h = h
with_sources-is_empty (s ∷ ss) rules h = refl

port_rule-is_empty :
    (proto : List ℤ) (ranges : List NetPortRange)
    → is_empty (port_rule proto ranges) ≡ false
    → is_empty ranges ≡ false
port_rule-is_empty proto [] h = h
port_rule-is_empty proto (r ∷ rs) h = refl

module _ (net : AddrText) (a : AclPolicy) (peers : List Machine) where
  match_source-is_empty :
      (aliases : List String) (prepared : List FilterRule) (u : Option User)
      → is_empty (match_source net a peers aliases prepared u) ≡ false
      → (is_empty prepared ≡ false) × Any (λ peer. some_source net a peer u aliases ≡ true) peers
  unfolding match_source
  match_source-is_empty aliases [] u h = cc
  match_source-is_empty aliases (r ∷ rs) u h =
      (refl, source_ips-some_source net a u peers aliases (with_sources-is_empty _ (r ∷ rs) h))

  module _ (dst : Machine) (source : List String) where
    -- Rules with sources come from destinations that the pair reaches.
    rules_of_pair-reaches {ℓ} :
        {A : Type ℓ} (prepared : List FilterRule × List FilterRule) (found : List A × List A)
        → (is_empty prepared.0 ≡ false → is_empty found.0 ≡ false)
        → (is_empty prepared.1 ≡ false → is_empty found.1 ≡ false)
        → is_empty (rules_of_pair net a peers dst source prepared) ≡ false
        → Any (λ peer. reaches net a peer dst source found ≡ true) peers
    unfolding rules_of_pair
    rules_of_pair-reaches (self, other) (fs, fo) f g h = elim (append-is_empty _ _ h) [
      | inl e ↦
          let (prepared, found) = match_source-is_empty source self (some dst.user) e in
          Any-map peers (λ peer s. ||_left _ _ (not-&&-true (f prepared) s)) found
      | inr e ↦
          let (prepared, found) = match_source-is_empty source other none e in
          Any-map peers (λ peer s. ||_right _ _ (not-&&-true (g prepared) s)) found
    ]

  grant_ip_rules-nil : (ips : List ProtoPortRange) → grant_ip_rules [] ips ≡ []
  grant_ip_rules-nil [] = refl
  grant_ip_rules-nil (ip ∷ rest) = grant_ip_rules-nil rest

  -- A grant has rules for a list of addresses only where that list is not empty.
  grant_part-is_empty :
      (dst : Machine) (grant : AclGrant) (found : List String)
      → is_empty (
          grant_ip_rules found grant.ip
          ++ (if is_empty grant.app
              then []
              else grant_app_rule grant.app (app_grant_prefixes net dst found)))
        ≡ false
      → is_empty found ≡ false
  unfolding app_grant_prefixes
  grant_part-is_empty dst grant [] h = ground (arith, grant_ip_rules-nil grant.ip)
  grant_part-is_empty dst grant (s ∷ ss) h = refl

  acl-reaches :
      (dst : Machine) (acl : AclEntry)
      → is_empty
          (rules_of_pair net a peers dst acl.source (prepare_filter_rules_from_acl net a dst acl))
        ≡ false
      → Any (λ peer. acl_reaches net a peer dst acl ≡ true) peers
  unfolding acl_reaches prepare_filter_rules_from_acl
  acl-reaches dst acl h =
      rules_of_pair-reaches dst acl.source _
        (translate_destination_aliases_to_machine_net_port_ranges net a acl.destination dst)
        (port_rule-is_empty (parse_protocol acl.protocol) _)
        (port_rule-is_empty (parse_protocol acl.protocol) _) h

  grant-reaches :
      (dst : Machine) (grant : AclGrant)
      → is_empty (
          rules_of_pair net a peers dst grant.source
            (prepare_filter_rules_from_grant net a dst grant))
        ≡ false
      → Any (λ peer. grant_reaches net a peer dst grant ≡ true) peers
  unfolding grant_reaches prepare_filter_rules_from_grant app_grant_dst_ips_to_prefixes
  grant-reaches dst grant h =
      rules_of_pair-reaches dst grant.source _
        (translate_destination_aliases_to_machine_ips net a grant.destination dst)
        (grant_part-is_empty dst grant _) (grant_part-is_empty dst grant _) h

  ssh-reaches :
      (dst : Machine) (ssh : AclSsh)
      → is_empty (
          match_source net a peers ssh.destination
            (prepare_filter_rules_from_ssh net a dst ssh)
            none)
        ≡ false
      → Any (λ peer. ssh_reaches net a peer dst ssh ≡ true) peers
  unfolding ssh_reaches prepare_filter_rules_from_ssh
  ssh-reaches dst ssh h =
      let (prepared, found) = match_source-is_empty ssh.destination _ none h in
      let reached =
        normalize_ssh_recorders-reached net a dst ssh.recorder
          (port_rule-is_empty (pos 6 ∷ []) _ prepared) in
      let other = recorder-other net a dst ssh.recorder reached in
      Any-map peers (λ peer s. ||_right _ _ (not-&&-true other s)) found

  acl_rules-reaches :
      (dst : Machine) (acls : List AclEntry)
      → is_empty (acl_rules net a peers dst acls) ≡ false
      → Any (λ peer. any (acl_reaches net a peer dst) acls ≡ true) peers
  unfolding acl_rules
  acl_rules-reaches dst [] h = cc
  acl_rules-reaches dst (acl ∷ acls) h = elim (append-is_empty _ _ h) [
    | inl e ↦ Any-map peers (λ p s. ||_left _ _ s) (acl-reaches dst acl e)
    | inr e ↦ Any-map peers (λ p s. ||_right _ _ s) (acl_rules-reaches dst acls e)
  ]

  grant_rules-reaches :
      (dst : Machine) (grants : List AclGrant)
      → is_empty (grant_rules net a peers dst grants) ≡ false
      → Any (λ peer. any (grant_reaches net a peer dst) grants ≡ true) peers
  unfolding grant_rules
  grant_rules-reaches dst [] h = cc
  grant_rules-reaches dst (grant ∷ grants) h = elim (append-is_empty _ _ h) [
    | inl e ↦ Any-map peers (λ p s. ||_left _ _ s) (grant-reaches dst grant e)
    | inr e ↦ Any-map peers (λ p s. ||_right _ _ s) (grant_rules-reaches dst grants e)
  ]

  ssh_rules-reaches :
      (dst : Machine) (rules : List AclSsh)
      → is_empty (ssh_rules net a peers dst rules) ≡ false
      → Any (λ peer. any (ssh_reaches net a peer dst) rules ≡ true) peers
  unfolding ssh_rules
  ssh_rules-reaches dst [] h = cc
  ssh_rules-reaches dst (ssh ∷ rules) h = elim (append-is_empty _ _ h) [
    | inl e ↦ Any-map peers (λ p s. ||_left _ _ s) (ssh-reaches dst ssh e)
    | inr e ↦ Any-map peers (λ p s. ||_right _ _ s) (ssh_rules-reaches dst rules e)
  ]

-- A machine whose packet filter has any rule has, among the peers that the filter was built from, one
-- that `IsValidPeer` accepts as a source for it.
pub build_filter_rules-is_valid_peer :
    (net : AddrText) (a : AclPolicy) (peers : List Machine) (dst : Machine)
    → is_empty (build_filter_rules net a peers dst) ≡ false
    → Any (λ peer. is_valid_peer net a peer dst ≡ true) peers
unfolding build_filter_rules is_valid_peer
build_filter_rules-is_valid_peer net a peers dst h = elim (append-is_empty _ _ h) [
  | inl e ↦ Any-map peers (λ p s. ground arith) (acl_rules-reaches net a peers dst a.acls e)
  | inr rest ↦ elim (append-is_empty _ _ rest) [
    | inl e ↦ Any-map peers (λ p s. ground arith) (grant_rules-reaches net a peers dst a.grants e)
    | inr e ↦ Any-map peers (λ p s. ground arith) (ssh_rules-reaches net a peers dst a.ssh e)
  ]
]
