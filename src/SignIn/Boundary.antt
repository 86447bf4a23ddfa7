-- ===== src/SignIn/Boundary.antt =====
-- internal/handlers/authentication.go: the boundary that an organization is, and the reasons of a
-- refusal.
use ionskale.Prelude.{
  List, [], ◌∷◌, Bool, true, false, not, ◌&&◌, ◌||◌, ◌≡◌, ◌≢◌, ◌⊎◌, inl, inr, refl, ap, sym, subst,
  ◌∙◌, Option, none, some, some_inj, Any, str_eq, eq_iff, if◌then◌else◌,
}
use ionskale.Iam.{evaluate_policy, is_empty_iam_policy}
use ionskale.Machine.{Tailnet}
use ionskale.Service.AuthKeys.{KeyStore}
use ionskale.SignIn.{Site, AuthUser, enabled}
use ionskale.SignIn.Access.{
  identity_of, tailnet_accessible, with_approved, accessible_tailnets, list_available_tailnets,
}

abbrev pub entry : Bool → Bool → Bool → Bool → Bool → Option Bool → Option Bool
entry unbound on no_org same empty said =
    if not unbound
    then if not on || no_org || not same then some false else if empty then some true else said
    else if on && not no_org
    then some false
    else said

-- The tests of `tailnetAccessible`: whether the tailnet is unbound, whether organizations are enabled,
-- whether the identity has none, whether they are the same, and whether the policy is empty.
pub entry_tests :
    (unbound on no_org same empty : Bool) (said : Option Bool)
    → entry unbound on no_org same empty said ≡ some true
    → ((on ≡ true) × (no_org ≡ false) × (same ≡ true) × ((empty ≡ true) ⊎ (said ≡ some true)))
      ⊎ ((unbound ≡ true) × ((on ≡ false) ⊎ (no_org ≡ true)) × (said ≡ some true))
entry_tests true true true same empty said h = inr (refl, inr refl, h)
entry_tests true true false same empty said h = cc
entry_tests true false no_org same empty said h = inr (refl, inl refl, h)
entry_tests false false no_org same empty said h = cc
entry_tests false true true same empty said h = cc
entry_tests false true false false empty said h = cc
entry_tests false true false true true said h = inl (refl, refl, refl, inl refl)
entry_tests false true false true false said h = inl (refl, refl, refl, inr h)

module _ {Attr : Type 0} (site : Site Attr) where
  abbrev pub PolicySays : Tailnet → AuthUser Attr → Bool → Type 0
  PolicySays t u b = evaluate_policy site.evaluate t.iam_policy (identity_of u) ≡ some b

  -- An identity may enter a tailnet of its own organization, whose policy is empty or admits it, while
  -- organizations are enabled; or a tailnet of no organization whose policy admits it, where
  -- organizations are not enabled or the identity has none.
  abbrev pub MayEnter : AuthUser Attr → Tailnet → Type 0
  MayEnter u t =
      ((enabled site.organizations ≡ true)
        × (u.org ≢ "")
        × (t.organization ≡ u.org)
        × ((is_empty_iam_policy t.iam_policy ≡ true) ⊎ PolicySays t u true))
      ⊎ ((t.organization ≡ "")
          × ((enabled site.organizations ≡ false) ⊎ (u.org ≡ ""))
          × PolicySays t u true)

  pub tailnet_accessible-MayEnter :
      (t : Tailnet) (u : AuthUser Attr) → tailnet_accessible site t u ≡ some true → MayEnter u t
  unfolding tailnet_accessible
  tailnet_accessible-MayEnter t u h =
      elim (entry_tests (str_eq t.organization "") (enabled site.organizations) (str_eq u.org "")
        (str_eq t.organization u.org) (is_empty_iam_policy t.iam_policy)
        (evaluate_policy site.evaluate t.iam_policy (identity_of u)) h) [
          | inl (on, org, same, policy) ↦ inl (
            on,
            (λ e. let no_org = (eq_iff u.org "").1 e in cc),
            (eq_iff t.organization u.org).0 same,
            policy,
          )
          | inr (unbound, inl off, policy) ↦
              inr ((eq_iff t.organization "").0 unbound, inl off, policy)
          | inr (unbound, inr no_org, policy) ↦
              inr ((eq_iff t.organization "").0 unbound, inr ((eq_iff u.org "").0 no_org), policy)
        ]

  pub with_approved-some :
      (x : Tailnet) (o : Option Bool) (r : Option (List Tailnet)) (found : List Tailnet)
      → with_approved site x o r ≡ some found
      → (b : Bool) × (rest : List Tailnet) × (o ≡ some b)
        × (r ≡ some rest)
        × ((if b then x ∷ rest else rest) ≡ found)
  with_approved-some x none r found h = cc
  with_approved-some x (some b) none found h = cc
  with_approved-some x (some true) (some rest) found h = (true, rest, refl, refl, some_inj h)
  with_approved-some x (some false) (some rest) found h = (false, rest, refl, refl, some_inj h)

  found_in :
      (b : Bool) (x : Tailnet) (rest : List Tailnet) (t : Tailnet)
      → Any (λ y. y ≡ t) (if b then x ∷ rest else rest)
      → ((x ≡ t) × (b ≡ true)) ⊎ Any (λ y. y ≡ t) rest
  found_in true x rest t (inl e) = inl (e, refl)
  found_in true x rest t (inr later) = inr later
  found_in false x rest t later = inr later

  pub accessible_tailnets-Any :
      (u : AuthUser Attr) (ts found : List Tailnet) (t : Tailnet)
      → accessible_tailnets site u ts ≡ some found
      → Any (λ x. x ≡ t) found
      → Any (λ x. x ≡ t) ts × (tailnet_accessible site t u ≡ some true)
  unfolding accessible_tailnets
  accessible_tailnets-Any u [] found t h at =
      absurd (subst (Any (λ x. x ≡ t)) (sym (some_inj h)) at)
  accessible_tailnets-Any u (x ∷ ts) found t h at =
      let (b, rest, is, more, list) =
        with_approved-some x (tailnet_accessible site x u) (accessible_tailnets site u ts) found
          h in
      elim (found_in b x rest t (subst (Any (λ y. y ≡ t)) (sym list) at)) [
        | inl (e, yes_b) ↦
            (inl e, subst (λ y. tailnet_accessible site y u ≡ some true) e (is ∙ ap some yes_b))
        | inr later ↦
            let (there, passes) = accessible_tailnets-Any u ts rest t more later in
            (inr there, passes)
      ]

  -- A tailnet that is offered to an identity is one of the tailnets, and the identity may enter it.
  pub list_available_tailnets-MayEnter :
      (s : KeyStore) (u : AuthUser Attr) (found : List Tailnet) (t : Tailnet)
      → list_available_tailnets site s u ≡ some found
      → Any (λ x. x ≡ t) found
      → Any (λ x. x ≡ t) s.tailnets × MayEnter u t
  unfolding list_available_tailnets
  list_available_tailnets-MayEnter s u found t h at =
      let (there, passes) = accessible_tailnets-Any u s.tailnets found t h at in
      (there, tailnet_accessible-MayEnter t u passes)
