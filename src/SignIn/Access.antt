-- ===== src/SignIn/Access.antt =====
-- internal/handlers/authentication.go: which tailnets an identity may enter, why it may enter none, and
-- the roles that its organization gives it.
use ionskale.Prelude.{
  String, List, [], ◌∷◌, Bool, true, false, not, ◌&&◌, ◌||◌, Option, none, some, str_eq, any,
  contains, lookup, is_empty, if◌then◌else◌,
}
use ionskale.Iam.{Identity, evaluate_policy, is_empty_iam_policy}
use ionskale.Machine.{Tailnet}
use ionskale.Identity.{user_role_admin}
use ionskale.Service.AuthKeys.{KeyStore}
use ionskale.Tables.{save_tailnet, list_tailnets_by_organization}
use ionskale.SignIn.{Site, AuthUser, enabled}

abbrev pub identity_of {ℓ} : {Attr : Type ℓ} → AuthUser Attr → Identity Attr
identity_of u = record { user_id = u.id; email = u.name; attr = u.attr }

module _ {Attr : Type 0} (site : Site Attr) where
  unfoldable pub is_system_admin : AuthUser Attr → Option Bool
  unfolding evaluate_policy
  is_system_admin u = evaluate_policy site.evaluate site.system_policy (identity_of u)

  -- `none` is an error of the policy's evaluation.
  unfoldable pub tailnet_accessible : Tailnet → AuthUser Attr → Option Bool
  unfolding enabled evaluate_policy is_empty_iam_policy
  tailnet_accessible t u =
      if not (str_eq t.organization "")
      then if not (enabled site.organizations)
          || str_eq u.org ""
          || not (str_eq t.organization u.org)
        then some false
        else if is_empty_iam_policy t.iam_policy
        then some true
        else evaluate_policy site.evaluate t.iam_policy (identity_of u)
      else if enabled site.organizations && not (str_eq u.org "")
      then some false
      else evaluate_policy site.evaluate t.iam_policy (identity_of u)

  abbrev pub with_approved : Tailnet → Option Bool → Option (List Tailnet) → Option (List Tailnet)
  with_approved t none rest = none
  with_approved t (some approved) none = none
  with_approved t (some approved) (some ts) = if approved then some (t ∷ ts) else some ts

  -- The loop over the tailnets; `none` is an error.
  unfoldable pub accessible_tailnets : AuthUser Attr → List Tailnet → Option (List Tailnet)
  unfolding tailnet_accessible
  accessible_tailnets u [] = some []
  accessible_tailnets u (t ∷ ts) =
      with_approved t (tailnet_accessible t u) (accessible_tailnets u ts)

  unfoldable pub list_available_tailnets : KeyStore → AuthUser Attr → Option (List Tailnet)
  unfolding accessible_tailnets
  list_available_tailnets s u = accessible_tailnets u s.tailnets

  unfoldable pub denial_code : KeyStore → AuthUser Attr → String
  unfolding enabled
  denial_code s u =
      if is_empty s.tailnets
      then "ua-none"
      else if enabled site.organizations
      then if str_eq u.org ""
        then "ua-org-required"
        else if any (λ t. str_eq t.organization u.org) s.tailnets
        then "ua-policy"
        else "ua-org"
      else "ua-policy"

  abbrev pub is_admin : AuthUser Attr → Bool
  is_admin u = any (λ role. contains site.organizations.admin_roles role) u.roles

-- A map of roles with an entry set and with one taken away.
unfoldable pub without_role : String → List (String × String) → List (String × String)
without_role name [] = []
without_role name ((n, r) ∷ roles) =
    let rest = without_role name roles in if str_eq n name then rest else (n, r) ∷ rest

abbrev pub with_roles : Tailnet → List (String × String) → Tailnet
with_roles t roles = record t { iam_policy = record t.iam_policy { roles = roles } }

abbrev pub has_admin : Option String → Bool
has_admin none = false
has_admin (some role) = str_eq role user_role_admin

-- The tailnet with the updated policy, where it changes.
unfoldable pub synced_tailnet : Bool → String → Tailnet → Option Tailnet
unfolding lookup without_role
synced_tailnet admin name t =
    let current = has_admin (lookup name t.iam_policy.roles) in
    if admin && not current
    then some (with_roles t ((name, user_role_admin) ∷ without_role name t.iam_policy.roles))
    else if not admin && current
    then some (with_roles t (without_role name t.iam_policy.roles))
    else none

abbrev pub save_if : Option Tailnet → KeyStore → KeyStore
save_if none s = s
save_if (some t) s = save_tailnet s t

-- The loop over the tailnets of the organization.
unfoldable pub sync_tailnets : Bool → String → List Tailnet → KeyStore → KeyStore
unfolding synced_tailnet save_tailnet
sync_tailnets admin name [] s = s
sync_tailnets admin name (t ∷ ts) s =
    sync_tailnets admin name ts (save_if (synced_tailnet admin name t) s)

unfoldable pub sync_org_roles : {Attr : Type 0} → Site Attr → KeyStore → AuthUser Attr → KeyStore
unfolding enabled sync_tailnets list_tailnets_by_organization
sync_org_roles site s u =
    if not (enabled site.organizations)
      || str_eq site.organizations.roles_claim ""
      || str_eq u.org ""
    then s
    else sync_tailnets (is_admin site u) u.name (list_tailnets_by_organization s u.org) s
