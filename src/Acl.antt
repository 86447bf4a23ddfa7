-- ===== src/Acl.antt =====
-- internal/domain/acl.go: the aliases of an access policy, tag owners, automatic approval of routes,
-- and node capabilities.
pub mod Approval
pub mod Owners
pub mod Ports
use ionskale.Prelude.{
  String, List, [], ◌∷◌, ◌++◌, Bool, true, false, not, ◌&&◌, ◌||◌, Option, none, some, str_eq,
  starts_with, contains, lookup, any, keep, leb, is_empty, if◌then◌else◌,
}
use ionskale.Netip.{Addr, Prefix, AddrText, contains_addr, masked}
use ionskale.Policy.{AclPolicy, AclAutoApprovers, AclNodeAttrGrant}
use ionskale.StringSet.{StringSet, empty, add, items}
use ionskale.Machine.{Machine, User, has_tag, has_tags, has_user, is_default_route}

abbrev pub auto_group_self : String
auto_group_self = "autogroup:self"

abbrev pub auto_group_member : String
auto_group_member = "autogroup:member"

abbrev pub auto_group_members : String
auto_group_members = "autogroup:members"

abbrev pub auto_group_tagged : String
auto_group_tagged = "autogroup:tagged"

abbrev pub auto_group_internet : String
auto_group_internet = "autogroup:internet"

abbrev pub auto_group_danger_all : String
auto_group_danger_all = "autogroup:danger-all"

abbrev pub user_type_service : String
user_type_service = "service"

abbrev pub is_some {ℓ} : {A : Type ℓ} → Option A → Bool
is_some none = false
is_some (some a) = true

-- A key that the map does not have has no members.
abbrev pub or_nil : Option (List String) → List String
or_nil none = []
or_nil (some xs) = xs

-- The prefixes that no user's login name may have.
abbrev has_reserved_prefix : String → Bool
has_reserved_prefix alias =
    starts_with alias "autogroup:" || starts_with alias "group:" || starts_with alias "tag:"

module _ (net : AddrText) where
  open net use {parse_addr, parse_prefix}

  unfoldable pub is_user_alias : AclPolicy → String → Bool
  unfolding lookup
  is_user_alias a alias =
      if str_eq alias "" || str_eq alias "*"
      then false
      else if has_reserved_prefix alias
      then false
      else if is_some (lookup alias a.hosts)
      then false
      else if is_some (parse_addr alias)
      then false
      else not (is_some (parse_prefix alias))

  unfoldable pub machine_owned_by : AclPolicy → String → Machine → Bool
  unfolding is_user_alias has_tags has_user
  machine_owned_by a alias m = is_user_alias a alias && not (has_tags m) && has_user m alias

unfoldable pub is_group_member : AclPolicy → String → Machine → Bool
unfolding has_tags has_user lookup
is_group_member a group m =
    if has_tags m then false else any (λ u. has_user m u) (or_nil (lookup group a.groups))

-- The closure `matches` of `FindAutoApprovedIPs`, for one alias.
pub approver_alias : AclPolicy → List String → User → String → Bool
unfolding contains lookup
approver_alias a tags u alias =
    str_eq alias u.name
    || contains (or_nil (lookup alias a.groups)) u.name
    || (starts_with alias "tag:" && contains tags alias)

pub approves : AclPolicy → List String → User → List String → Bool
unfolding approver_alias
approves a tags u values = any (approver_alias a tags u) values

-- The closure `isAutoApproved`.
unfoldable pub is_auto_approved : Prefix → List Prefix → Bool
unfolding contains_addr masked
is_auto_approved candidate approved_ips =
    any (λ p. leb p.bits candidate.bits && contains_addr p (masked candidate).addr) approved_ips

-- One round of the loop over the policy's routes; `none` is the early `return nil` at a route that
-- is no prefix.
abbrev pub add_route : Bool → Option Prefix → Option (List Prefix) → Option (List Prefix)
add_route approved none rest = none
add_route approved (some candidate) none = none
add_route approved (some candidate) (some found) =
    some (if approved then candidate ∷ found else found)

-- The loop over the routes that the machine offers.
pub select_approved : Bool → List Prefix → List Prefix → List Prefix
unfolding is_auto_approved
select_approved exit_ok approved [] = []
select_approved exit_ok approved (c ∷ cs) =
    (if is_default_route c && exit_ok then c ∷ [] else [])
    ++ ((if is_auto_approved c approved then c ∷ [] else []) ++ select_approved exit_ok approved cs)

abbrev pub select_from : Bool → List Prefix → Option (List Prefix) → List Prefix
select_from exit_ok routable none = []
select_from exit_ok routable (some approved) = select_approved exit_ok approved routable

module _ (net : AddrText) where
  open net use {parse_prefix}

  pub approved_routes :
      AclPolicy → List String → User → List (String × List String) → Option (List Prefix)
  unfolding approves
  approved_routes a tags u [] = some []
  approved_routes a tags u ((route, approvers) ∷ routes) =
      add_route (approves a tags u approvers) (parse_prefix route) (approved_routes a tags u routes)

  abbrev find_with :
      AclPolicy → Option AclAutoApprovers → List Prefix → List String → User → List Prefix
  find_with a none routable tags u = []
  find_with a (some approvers) routable tags u =
      select_from (approves a tags u approvers.exit_node) routable
        (approved_routes a tags u approvers.routes)

  unfoldable pub find_auto_approved_ips : AclPolicy → List Prefix → List String → User → List Prefix
  unfolding approved_routes select_approved
  find_auto_approved_ips a routable tags u =
      if is_empty routable then [] else find_with a a.auto_approvers routable tags u

-- The loop over the owners of a tag. It returns at the first group that the policy declares.
abbrev owner_step : Option (List String) → String → Bool → Bool
owner_step (some group) name rest = contains group name
owner_step none name rest = rest

pub owned_by_alias : AclPolicy → User → List String → Bool
unfolding contains lookup
owned_by_alias a p [] = false
owned_by_alias a p (alias ∷ aliases) =
    let rest = owned_by_alias a p aliases in
    if starts_with alias "group:"
    then owner_step (lookup alias a.groups) p.name rest
    else if str_eq alias p.name
    then true
    else rest

unfoldable pub is_tag_owner : AclPolicy → String → User → Bool
unfolding owned_by_alias lookup
is_tag_owner a tag p =
    if str_eq p.user_type user_type_service
    then true
    else owned_by_alias a p (or_nil (lookup tag a.tag_owners))

-- The tags that `CheckTagOwners` reports; the error is nil where there is none.
unfoldable pub check_tag_owners : AclPolicy → List String → User → List String
unfolding is_tag_owner
check_tag_owners a tags p = keep (λ t. not (is_tag_owner a t p)) tags

module _ (net : AddrText) where
  -- The closure `matches` of `NodeCapabilities`, for one alias.
  unfoldable pub target_matches : AclPolicy → Machine → String → Bool
  unfolding machine_owned_by has_tag has_tags has_user lookup
  target_matches a m alias =
      str_eq alias "*"
      || machine_owned_by net a alias m
      || (starts_with alias "tag:" && has_tag m alias)
      || (starts_with alias "group:"
          && not (has_tags m)
          && any (λ u. has_user m u) (or_nil (lookup alias a.groups)))
      || ((str_eq alias auto_group_member || str_eq alias auto_group_members) && not (has_tags m))

  collect_attrs : AclPolicy → Machine → StringSet → List AclNodeAttrGrant → StringSet
  unfolding target_matches add
  collect_attrs a m result [] = result
  collect_attrs a m result (grant ∷ grants) =
      collect_attrs a m
        (if any (target_matches a m) grant.target then add result grant.attr else result) grants

  unfoldable pub node_capabilities : AclPolicy → Machine → List String
  unfolding collect_attrs items
  node_capabilities a m = items (collect_attrs a m empty a.node_attrs)
