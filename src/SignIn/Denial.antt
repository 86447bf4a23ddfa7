-- ===== src/SignIn/Denial.antt =====
-- internal/handlers/authentication.go: the reason that `denialCode` gives.
use ionskale.Prelude.{
  nil_of_empty, String, List, [], ◌∷◌, Bool, true, false, not, ◌&&◌, ◌≡◌, ◌≢◌, ◌⊎◌, ap, inl, inr,
  refl, sym, subst, Option, some, Any, All, All-map, any, Bool-cases, is_empty, str_eq, arith,
  eq_iff,
}
use ionskale.Iam.{evaluate_policy, is_empty_iam_policy}
use ionskale.Machine.{Tailnet}
use ionskale.Service.AuthKeys.{KeyStore}
use ionskale.SignIn.{Site, AuthUser, enabled}
use ionskale.SignIn.Access.{
  identity_of, tailnet_accessible, accessible_tailnets, list_available_tailnets, denial_code,
}
use ionskale.SignIn.Boundary.{PolicySays, entry, with_approved-some}

text_differs : (s t : String) → str_eq s t ≡ false → s ≢ t
text_differs s t h e = let same = (eq_iff s t).1 e in cc

some_left : (ts : List Tailnet) → is_empty ts ≡ false → ts ≢ []
some_left [] h e = cc
some_left (t ∷ ts) h e = let z : true ≡ false = sym (ap is_empty e) in cc

own_tests :
    (unbound on no_org same empty : Bool) (said : Option Bool)
    → unbound ≡ false
    → on ≡ true
    → no_org ≡ false
    → same ≡ true
    → entry unbound on no_org same empty said ≡ some false
    → said ≡ some false
own_tests unbound on no_org same empty said a b c d h = ground arith

unbound_tests :
    (unbound on no_org same empty : Bool) (said : Option Bool)
    → unbound ≡ true
    → (on && not no_org) ≡ false
    → entry unbound on no_org same empty said ≡ some false
    → said ≡ some false
unbound_tests unbound on no_org same empty said a b h = ground arith

module _ {Attr : Type 0} (site : Site Attr) where
  -- Of tailnets none of which is offered.
  accessible_tailnets-none :
      (u : AuthUser Attr) (ts : List Tailnet)
      → accessible_tailnets site u ts ≡ some []
      → All (λ t. tailnet_accessible site t u ≡ some false) ts
  unfolding accessible_tailnets
  accessible_tailnets-none u [] h = tt
  accessible_tailnets-none u (t ∷ ts) h =
      let (b, rest, is, more, list) =
        with_approved-some site t (tailnet_accessible site t u) (accessible_tailnets site u ts) []
          h in
      ground (arith, accessible_tailnets-none u ts)

  -- The policy of a tailnet that is not hidden is the one that refuses.
  own_policy :
      (u : AuthUser Attr) (t : Tailnet)
      → enabled site.organizations ≡ true
      → str_eq u.org "" ≡ false
      → t.organization ≡ u.org
      → tailnet_accessible site t u ≡ some false
      → PolicySays site t u false
  unfolding tailnet_accessible
  own_policy u t on org same h =
      own_tests (str_eq t.organization "") (enabled site.organizations) (str_eq u.org "")
        (str_eq t.organization u.org) (is_empty_iam_policy t.iam_policy)
        (evaluate_policy site.evaluate t.iam_policy (identity_of u))
        (subst (λ o. str_eq o "" ≡ false) (sym same) org) on org
        ((eq_iff t.organization u.org).1 same) h

  unbound_policy :
      (u : AuthUser Attr) (t : Tailnet)
      → (enabled site.organizations && not (str_eq u.org "")) ≡ false
      → t.organization ≡ ""
      → tailnet_accessible site t u ≡ some false
      → PolicySays site t u false
  unfolding tailnet_accessible
  unbound_policy u t open_to unbound h =
      unbound_tests (str_eq t.organization "") (enabled site.organizations) (str_eq u.org "")
        (str_eq t.organization u.org) (is_empty_iam_policy t.iam_policy)
        (evaluate_policy site.evaluate t.iam_policy (identity_of u))
        ((eq_iff t.organization "").1 unbound) open_to h

  -- The tailnet is bound to an organization, or is bound to none and its policy refuses the
  -- identity.
  abbrev pub IsClosed : AuthUser Attr → Tailnet → Type 0
  IsClosed u t = (t.organization ≢ "") ⊎ ((t.organization ≡ "") × PolicySays site t u false)

  -- What each of the four codes tells of the tailnets, by the settings and the identity.
  pub data Reason (s : KeyStore) (u : AuthUser Attr) : String → Type 0 where
    no_tailnet : s.tailnets ≡ [] → Reason s u "ua-none"
    no_organization :
        enabled site.organizations ≡ true
        → u.org ≡ ""
        → s.tailnets ≢ []
        → All (IsClosed u) s.tailnets
        → Reason s u "ua-org-required"
    own_policy_refuses :
        enabled site.organizations ≡ true
        → u.org ≢ ""
        → Any (λ t. (t.organization ≡ u.org) × PolicySays site t u false) s.tailnets
        → Reason s u "ua-policy"
    each_closed :
        enabled site.organizations ≡ false
        → s.tailnets ≢ []
        → All (IsClosed u) s.tailnets
        → Reason s u "ua-policy"
    other_organizations :
        enabled site.organizations ≡ true
        → u.org ≢ ""
        → s.tailnets ≢ []
        → All (λ t. t.organization ≢ u.org) s.tailnets
        → Reason s u "ua-org"

  is_closed :
      (u : AuthUser Attr) (t : Tailnet)
      → (enabled site.organizations && not (str_eq u.org "")) ≡ false
      → tailnet_accessible site t u ≡ some false
      → IsClosed u t
  is_closed u t open_to no_entry = elim (Bool-cases (str_eq t.organization "")) [
    | inl e ↦
        let unbound = (eq_iff t.organization "").0 e in
        inr (unbound, unbound_policy u t open_to unbound no_entry)
    | inr e ↦ inl (text_differs t.organization "" e)
  ]

  none_of_organization :
      (u : AuthUser Attr) (ts : List Tailnet)
      → any (λ t. str_eq t.organization u.org) ts ≡ false
      → All (λ t. t.organization ≢ u.org) ts
  none_of_organization u [] h = tt
  none_of_organization u (t ∷ ts) h =
      (text_differs t.organization u.org (ground arith), none_of_organization u ts (ground arith))

  one_of_organization :
      (u : AuthUser Attr) (ts : List Tailnet)
      → enabled site.organizations ≡ true
      → str_eq u.org "" ≡ false
      → any (λ t. str_eq t.organization u.org) ts ≡ true
      → All (λ t. tailnet_accessible site t u ≡ some false) ts
      → Any (λ t. (t.organization ≡ u.org) × PolicySays site t u false) ts
  one_of_organization u [] on org h refused = cc
  one_of_organization u (t ∷ ts) on org h (no_entry, refused) =
      elim (Bool-cases (str_eq t.organization u.org)) [
        | inl e ↦
            let same = (eq_iff t.organization u.org).0 e in
            inl (same, own_policy u t on org same no_entry)
        | inr e ↦ inr (one_of_organization u ts on org (ground arith) refused)
      ]

  -- What the code tells that an identity is shown to whom no tailnet is offered. "ua-none": there
  -- is no tailnet. In the other cases there are tailnets. "ua-org-required": organizations are
  -- enabled, the identity has none, and each tailnet is bound to an organization or its policy
  -- refuses the identity (the policies of unbound tailnets are evaluated for such an identity).
  -- "ua-policy": organizations are enabled and the policy of some tailnet of the identity's
  -- organization refuses it, or they are not enabled and each tailnet is bound to an organization
  -- (and no policy of it is evaluated) or its policy refuses the identity. "ua-org": organizations
  -- are enabled, the identity has one, and no tailnet is of it.
  pub denial_code-Reason :
      (s : KeyStore) (u : AuthUser Attr)
      → list_available_tailnets site s u ≡ some []
      → Reason s u (denial_code site s u)
  unfolding list_available_tailnets denial_code
  denial_code-Reason s u h =
      let refused = accessible_tailnets-none u s.tailnets h in
      elim (Bool-cases (is_empty s.tailnets)) [
        | inl e ↦ rw e (no_tailnet (nil_of_empty s.tailnets e))
        | inr e ↦ rw e (elim (Bool-cases (enabled site.organizations)) [
          | inr off ↦ rw off (
              each_closed off (some_left s.tailnets e)
                (All-map s.tailnets (λ t. is_closed u t (rw off refl)) refused))
          | inl on ↦ rw on (elim (Bool-cases (str_eq u.org "")) [
            | inl none_is ↦ rw none_is (
                no_organization on ((eq_iff u.org "").0 none_is) (some_left s.tailnets e)
                  (All-map s.tailnets (λ t. is_closed u t (rw (on, none_is) refl)) refused))
            | inr org ↦
                rw org (elim (Bool-cases (any (λ t. str_eq t.organization u.org) s.tailnets)) [
                  | inl some_own ↦ rw some_own (
                      own_policy_refuses on (text_differs u.org "" org)
                        (one_of_organization u s.tailnets on org some_own refused))
                  | inr no_own ↦ rw no_own (
                      other_organizations on (text_differs u.org "" org) (some_left s.tailnets e)
                        (none_of_organization u s.tailnets no_own))
                ])
          ])
        ])
      ]
