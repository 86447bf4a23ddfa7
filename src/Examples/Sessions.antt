-- ===== src/Examples/Sessions.antt =====
-- The SSH rule of the small tailnet.
use ionskale.Prelude.{[], ◌∷◌, true, false, ◌≡◌, refl, none, some, Any, contains, lookup}
use ionskale.Machine.{has_tags, ips}
use ionskale.Ssh.{expand_src_aliases}
use ionskale.Ssh.Users.{wildcard, build_ssh_users, lookup-build_ssh_users}
use ionskale.Ssh.Principals.{check_principals_untagged}
use ionskale.Examples.Data.{net, policy, laptop, server, check_rule}

check_principals_untagged_example :
    Any
      (λ src. (has_tags src ≡ false) × (contains (ips net src) "100.64.0.1" ≡ true))
      (server ∷ laptop ∷ [])
unfolding expand_src_aliases contains
check_principals_untagged_example =
    check_principals_untagged net policy none (server ∷ laptop ∷ []) check_rule.source "100.64.0.1"
      refl

lookup-build_ssh_users_example : lookup "*" (build_ssh_users check_rule.users) ≡ some "="
unfolding wildcard
lookup-build_ssh_users_example = lookup-build_ssh_users check_rule.users "*"
