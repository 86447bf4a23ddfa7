-- ===== src/Examples/Access.antt =====
-- The policy of the small tailnet: filters, approvals and tag owners.
use ionskale.Prelude.{[], ◌∷◌, true, ◌≡◌, refl, Any, All, contains, lookup}
use ionskale.Acl.{find_auto_approved_ips, check_tag_owners}
use ionskale.Acl.Approval.{Granted, find_auto_approved_ips-Granted}
use ionskale.Acl.Owners.{Owns, check_tag_owners-Owns}
use ionskale.Filter.Rules.{build_filter_rules, source_ips}
use ionskale.Filter.Peers.{is_valid_peer}
use ionskale.Filter.Visible.{build_filter_rules-is_valid_peer}
use ionskale.Filter.Sources.{IsSelfSource, source_ips-IsSelfSource}
use ionskale.Examples.Data.{
  net, alice, policy, approvers, laptop, server, phone, desk, lab, everything,
}

build_filter_rules-is_valid_peer_example :
    Any (λ peer. is_valid_peer net policy peer server ≡ true) (desk ∷ laptop ∷ [])
unfolding build_filter_rules
build_filter_rules-is_valid_peer_example =
    build_filter_rules-is_valid_peer net policy (desk ∷ laptop ∷ []) server refl

find_auto_approved_ips-Granted_example :
    All
      (Granted net policy ("tag:web" ∷ []) alice approvers (lab ∷ everything ∷ []))
      (find_auto_approved_ips net policy (lab ∷ everything ∷ []) ("tag:web" ∷ []) alice)
find_auto_approved_ips-Granted_example =
    find_auto_approved_ips-Granted net policy (lab ∷ everything ∷ []) ("tag:web" ∷ []) alice
      approvers refl

source_ips-IsSelfSource_example :
    Any (IsSelfSource net policy alice "100.64.0.3" ("autogroup:member" ∷ [])) (desk ∷ phone ∷ [])
unfolding source_ips contains
source_ips-IsSelfSource_example =
    source_ips-IsSelfSource net policy alice "100.64.0.3" (desk ∷ phone ∷ [])
      ("autogroup:member" ∷ []) refl

check_tag_owners-Owns_example : All (Owns policy alice) ("tag:web" ∷ [])
unfolding check_tag_owners contains lookup
check_tag_owners-Owns_example = check_tag_owners-Owns policy ("tag:web" ∷ []) alice refl
