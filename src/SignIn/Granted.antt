-- ===== src/SignIn/Granted.antt =====
-- internal/handlers/authentication.go: what a callback and the end of a sign-in give access to.
use ionskale.Prelude.{
  ℕ, String, List, [], ◌∷◌, Bool, true, false, not, ◌||◌, ◌≡◌, inl, inr, refl, ap, subst, ◌∙◌,
  Option, none, some, Any, Bool-cases, str_eq, if◌then◌else◌,
}
use ionskale.Machine.{Tailnet}
use ionskale.Registration.{RegistrationRequest}
use ionskale.Service.AuthKeys.{KeyStore}
use ionskale.Tables.{
  Tables, Account, AuthenticationRequest, list_tailnets_by_organization, get_authentication_request,
  get_registration_request_by_key, account_of, get_or_create_account, save_tailnet,
  save_authentication_request, save_ssh_action_request, set_user_last_authenticated,
  SshActionRequest, get_ssh_action_request,
}
use ionskale.Machine.{Machine}
use ionskale.SignIn.{
  Site, OauthState, EndAuthForm, AuthUser, Reply, enabled, machine_registration, client,
  ssh_check_flow, login_name,
}
use ionskale.SignIn.Access.{
  save_if, synced_tailnet, sync_tailnets, sync_org_roles, is_system_admin, is_admin,
  list_available_tailnets,
}
use ionskale.SignIn.Boundary.{MayEnter, list_available_tailnets-MayEnter}
use ionskale.SignIn.Adds.{
  OnlyAdds, same-OnlyAdds, rebase-OnlyAdds, either-OnlyAdds, end_cli-OnlyAdds, end_machine-OnlyAdds,
}
use ionskale.SignIn.Finish.{with_store}
use ionskale.SignIn.Handlers.{
  choose, choose_login, choose_machine, end_cli, end_machine, refuse_login, refuse_registration,
  signed_in, ssh_check, ssh_checked, owns_machine,
}

pub account_of-store :
    (o : Option Account) (w : Tables) (id : ℕ) (external_id organization login_name : String)
    → let v = (account_of o w id external_id organization login_name).0 in
      (v.store ≡ w.store) × (v.db ≡ w.db)
account_of-store none w id external_id organization login_name = (refl, refl)
account_of-store (some a) w id external_id organization login_name = (refl, refl)

save_if-keys : (o : Option Tailnet) (s : KeyStore) → (save_if o s).keys ≡ s.keys
unfolding save_tailnet
save_if-keys none s = refl
save_if-keys (some t) s = refl

sync_tailnets-keys :
    (admin : Bool) (name : String) (ts : List Tailnet) (s : KeyStore)
    → (sync_tailnets admin name ts s).keys ≡ s.keys
unfolding sync_tailnets
sync_tailnets-keys admin name [] s = refl
sync_tailnets-keys admin name (t ∷ ts) s =
    sync_tailnets-keys admin name ts (save_if (synced_tailnet admin name t) s)
    ∙ save_if-keys (synced_tailnet admin name t) s

either_keys : (b : Bool) (r s : KeyStore) → r.keys ≡ s.keys → (if b then s else r).keys ≡ s.keys
either_keys true r s e = refl
either_keys false r s e = e

module _ {Attr : Type 0} (site : Site Attr) where
  sync_org_roles-keys : (s : KeyStore) (u : AuthUser Attr) → (sync_org_roles site s u).keys ≡ s.keys
  unfolding sync_org_roles
  sync_org_roles-keys s u =
      either_keys
        (not (enabled site.organizations)
          || str_eq site.organizations.roles_claim ""
          || str_eq u.org "")
        (sync_tailnets (is_admin site u) u.name (list_tailnets_by_organization s u.org) s) s
        (sync_tailnets-keys (is_admin site u) u.name (list_tailnets_by_organization s u.org) s)

  -- A tailnet of the table, as the roles of the organization leave it, that the identity may enter.
  abbrev pub Offered : Tables → AuthUser Attr → ℕ → Type 0
  Offered w u t =
      (x : Tailnet) × Any (λ y. y ≡ x) (sync_org_roles site w.store u).tailnets
      × (x.id ≡ t)
      × MayEnter site u x

  module _ (P : ℕ → Type 0) (A : Type 0) where
    pub end_machine_of-OnlyAdds :
        (w : Tables) (form : EndAuthForm) (o : Option RegistrationRequest) (reply : Reply)
        → str_eq form.auth_key "" ≡ true
        → P form.tailnet_id
        → OnlyAdds P A w (end_machine site w form o reply).1
    end_machine_of-OnlyAdds w form none reply no_key p = same-OnlyAdds P A w w refl refl
    end_machine_of-OnlyAdds w form (some r) reply no_key p =
        end_machine-OnlyAdds site P A w form r no_key p

    pub end_cli_of-OnlyAdds :
        (w : Tables) (form : EndAuthForm) (o : Option AuthenticationRequest) (reply : Reply)
        → (form.as_system_admin ≡ true → A)
        → (form.as_system_admin ≡ false → P form.tailnet_id)
        → OnlyAdds P A w (end_cli site w form o reply).1
    end_cli_of-OnlyAdds w form none reply granted p = same-OnlyAdds P A w w refl refl
    end_cli_of-OnlyAdds w form (some r) reply granted p =
        end_cli-OnlyAdds site P A w form r granted p

    refuse_registration-OnlyAdds :
        (w : Tables) (o : Option RegistrationRequest)
        → OnlyAdds P A w (refuse_registration site w o)
    refuse_registration-OnlyAdds w none = same-OnlyAdds P A w w refl refl
    refuse_registration-OnlyAdds w (some r) = same-OnlyAdds P A w _ refl refl

    refuse_login-OnlyAdds :
        (w : Tables) (o : Option AuthenticationRequest) → OnlyAdds P A w (refuse_login site w o)
    unfolding save_authentication_request
    refuse_login-OnlyAdds w none = same-OnlyAdds P A w w refl refl
    refuse_login-OnlyAdds w (some r) = same-OnlyAdds P A w _ refl refl

    choose_machine-OnlyAdds :
        (w : Tables) (state : OauthState) (u : AuthUser Attr) (a : Account) (ts : List Tailnet)
        → ((t : Tailnet) → Any (λ x. x ≡ t) ts → P t.id)
        → OnlyAdds P A w (choose_machine site w state u a ts).1
    choose_machine-OnlyAdds w state u a [] p =
        refuse_registration-OnlyAdds w (get_registration_request_by_key w state.key)
    choose_machine-OnlyAdds w state u a (t ∷ []) p =
        end_machine_of-OnlyAdds w _ (get_registration_request_by_key w state.key) _ refl
          (p t (inl refl))
    choose_machine-OnlyAdds w state u a (t ∷ s ∷ ts) p = same-OnlyAdds P A w w refl refl

    choose_login-OnlyAdds :
        (w : Tables) (state : OauthState) (u : AuthUser Attr) (a : Account) (ts : List Tailnet)
        (o : Option Bool)
        → ((t : Tailnet) → Any (λ x. x ≡ t) ts → P t.id)
        → OnlyAdds P A w (choose_login site w state u a ts o).1
    choose_login-OnlyAdds w state u a ts none p = same-OnlyAdds P A w w refl refl
    choose_login-OnlyAdds w state u a ts (some true) p = same-OnlyAdds P A w w refl refl
    choose_login-OnlyAdds w state u a [] (some false) p =
        refuse_login-OnlyAdds w (get_authentication_request w state.key)
    choose_login-OnlyAdds w state u a (t ∷ []) (some false) p =
        end_cli_of-OnlyAdds w _ (get_authentication_request w state.key) _ (λ e. cc)
          (λ e. p t (inl refl))
    choose_login-OnlyAdds w state u a (t ∷ s ∷ ts) (some false) p = same-OnlyAdds P A w w refl refl

    choose-OnlyAdds :
        (w : Tables) (state : OauthState) (u : AuthUser Attr) (a : Account)
        (o : Option (List Tailnet))
        → ((ts : List Tailnet) → o ≡ some ts → (t : Tailnet) → Any (λ x. x ≡ t) ts → P t.id)
        → OnlyAdds P A w (choose site w state u a o).1
    choose-OnlyAdds w state u a none p = same-OnlyAdds P A w w refl refl
    choose-OnlyAdds w state u a (some ts) p =
        either-OnlyAdds P A w (str_eq state.flow machine_registration) _ _
          (λ e. choose_machine-OnlyAdds w state u a ts (p ts refl))
          (λ e.
            either-OnlyAdds P A w (str_eq state.flow client) _ _
              (λ f. choose_login-OnlyAdds w state u a ts (is_system_admin site u) (p ts refl))
              (λ f. same-OnlyAdds P A w w refl refl))

    ssh_checked-OnlyAdds :
        (w : Tables) (r : SshActionRequest) (a : Account) (o : Option Machine)
        → OnlyAdds P A w (ssh_checked site w r a o).1
    unfolding save_ssh_action_request set_user_last_authenticated
    ssh_checked-OnlyAdds w r a none = same-OnlyAdds P A w w refl refl
    ssh_checked-OnlyAdds w r a (some m) = elim (Bool-cases (owns_machine w a m)) [
      | inl e ↦ rw e (same-OnlyAdds P A w _ refl refl)
      | inr e ↦ rw e (same-OnlyAdds P A w _ refl refl)
    ]

    ssh_check-OnlyAdds :
        (w : Tables) (a : Account) (o : Option SshActionRequest)
        → OnlyAdds P A w (ssh_check site w a o).1
    ssh_check-OnlyAdds w a none = same-OnlyAdds P A w w refl refl
    ssh_check-OnlyAdds w a (some r) = ssh_checked-OnlyAdds w r a _

  -- A callback for an identity adds no system key, and adds machines and keys only in tailnets
  -- that the identity may enter.
  pub signed_in-OnlyAdds :
      (w : Tables) (state : OauthState) (u : AuthUser Attr)
      → OnlyAdds (Offered w u) ⊥ w (signed_in site w state u).1
  unfolding signed_in get_or_create_account
  signed_in-OnlyAdds w state u =
      let (w1, a) = get_or_create_account w site.account_id u.id u.org (login_name u) in
      let (stores, dbs) = account_of-store _ w site.account_id u.id u.org (login_name u) in
      let w2 = with_store w1 (sync_org_roles site w1.store u) in
      rebase-OnlyAdds (Offered w u) ⊥ w w1 _ dbs (ap (λ s. s.keys) stores) (
        either-OnlyAdds (Offered w u) ⊥ w1 (str_eq state.flow ssh_check_flow) _ _
          (λ e. ssh_check-OnlyAdds (Offered w u) ⊥ w1 a (get_ssh_action_request w1 state.key))
          (λ e. rebase-OnlyAdds (Offered w u) ⊥ w1 w2 _ refl (sync_org_roles-keys w1.store u) (
            choose-OnlyAdds (Offered w u) ⊥ w2 state u a (list_available_tailnets site w2.store u)
              (λ ts listed t at.
                let (there, enters) =
                  list_available_tailnets-MayEnter site w2.store u ts t listed at in
                (
                  t,
                  subst (λ s. Any (λ y. y ≡ t) (sync_org_roles site s u).tailnets) stores there,
                  refl,
                  enters,
                )))))
