-- ===== src/SignIn/NoPage.antt =====
-- internal/handlers/authentication.go: the ends of a sign-in show no page.
use ionskale.Prelude.{
  String, List, [], ◌∷◌, true, Option, none, some, ◌≡◌, Bool-cases, inl, inr, ◌+◌, str_eq,
}
use ionskale.Netip.{Addr, Prefix}
use ionskale.Machine.{Machine, Tailnet, User}
use ionskale.Address.{Selection, selected, failed, searching}
use ionskale.Identity.{ApiKey, SystemApiKey}
use ionskale.Identity.Creation.{create_api_key}
use ionskale.Lock.Registration.{apply_tailnet_lock_registration}
use ionskale.Registration.{RegistrationRequest, lock_request}
use ionskale.Service.AuthKeys.{get_tailnet}
use ionskale.Tables.{
  Tables, Account, AuthenticationRequest, get_account, get_or_create_user_with_account,
}
use ionskale.SignIn.{Site, EndAuthForm, Reply, Page, render}
use ionskale.SignIn.Finish.{
  cli_key_lifetime, Claim, with_store, success, complete, complete_new, complete_machine,
  claim_machine, claim, claim_with_account, claim_of_user, end_machine_registration_flow, login_to,
  login_system, user_login, system_login, end_cli_authentication_flow,
}

-- The reply has what is asked of a page, where it is one.
abbrev pub OfPage : (Page → Type 0) → Reply → Type 0
OfPage P (render page) = P page
OfPage P _ = Unit

abbrev pub ShowsNone : Reply → Type 0
ShowsNone = OfPage (λ page. ⊥)

module _ {Attr : Type 0} (site : Site Attr) where
  user_login_shows :
      (w : Tables) (req : AuthenticationRequest) (t : Tailnet) (u : User)
      (o : Option (String × ApiKey))
      → ShowsNone (user_login site w req t u o).0
  user_login_shows w req t u none = tt
  user_login_shows w req t u (some (token, k)) = tt

  login_to_shows :
      (w : Tables) (req : AuthenticationRequest) (t : Option Tailnet) (a : Option Account)
      → ShowsNone (login_to site w req t a).0
  login_to_shows w req none a = tt
  login_to_shows w req (some t) none = tt
  login_to_shows w req (some t) (some a) =
      let (s, u) = get_or_create_user_with_account w.store site.user_id t a in
      user_login_shows (with_store w s) req t u (
        create_api_key site.generate_hash site.key_draws site.pwd_draws t u
          (some (site.env.now + cli_key_lifetime)))

  system_login_shows :
      (w : Tables) (req : AuthenticationRequest) (o : Option (String × SystemApiKey))
      → ShowsNone (system_login site w req o).0
  system_login_shows w req none = tt
  system_login_shows w req (some (token, k)) = tt

  login_system_shows :
      (w : Tables) (req : AuthenticationRequest) (a : Option Account)
      → ShowsNone (login_system site w req a).0
  login_system_shows w req none = tt
  login_system_shows w req (some a) = system_login_shows w req _

  pub end_cli_shows :
      (w : Tables) (form : EndAuthForm) (req : AuthenticationRequest)
      → ShowsNone (end_cli_authentication_flow site w form req).0
  unfolding end_cli_authentication_flow
  end_cli_shows w form req = elim (Bool-cases form.as_system_admin) [
    | inl e ↦ rw e (login_system_shows w req (get_account w form.account_id))
    | inr e ↦
        rw e (
          login_to_shows w req (get_tailnet w.store form.tailnet_id)
            (get_account w form.account_id))
  ]

  success_shows : (m : Machine) → ShowsNone (success site m)
  success_shows m = elim (Bool-cases m.authorized) [ inl e ↦ rw e tt | inr e ↦ rw e tt ]

  complete_shows :
      (w : Tables) (r : RegistrationRequest) (c : Claim) (m : Machine)
      → ShowsNone (complete site w r c m).0
  unfolding complete
  complete_shows w r c m =
      success_shows
        (apply_tailnet_lock_registration site.tka w.db c.tailnet.id m (lock_request r.request))

  complete_machine_shows :
      (w : Tables) (r : RegistrationRequest) (c : Claim) (ips : List Prefix) (o : Option Machine)
      → ShowsNone (complete_machine site w r c ips o).0
  complete_machine_shows w r c ips none = of_selection _
    where
      of_selection : (s : Selection (Addr × Addr)) → ShowsNone (complete_new site w r c ips s).0
      of_selection failed = tt
      of_selection searching = tt
      of_selection (selected (ip4, ip6)) = complete_shows w r c _
  complete_machine_shows w r c ips (some m) = complete_shows w r c _

  claim_machine_shows :
      (w : Tables) (r : RegistrationRequest) (c : Claim) (tags : List String)
      → ShowsNone (claim_machine site w r c tags).0
  unfolding claim_machine
  claim_machine_shows w r c [] = complete_machine_shows w r c _ _
  claim_machine_shows w r c (tag ∷ tags) = tt

  claim_with_account_shows :
      (w : Tables) (r : RegistrationRequest) (t : Option Tailnet) (a : Option Account)
      → ShowsNone (claim_with_account site w r t a).0
  unfolding claim
  claim_with_account_shows w r none a = tt
  claim_with_account_shows w r (some t) none = tt
  claim_with_account_shows w r (some t) (some a) =
      let (s, u) = get_or_create_user_with_account w.store site.user_id t a in
      claim_machine_shows (with_store w s) r (claim_of_user site t u) _

  pub end_machine_shows :
      (w : Tables) (form : EndAuthForm) (r : RegistrationRequest)
      → str_eq form.auth_key "" ≡ true
      → ShowsNone (end_machine_registration_flow site w form r).0
  unfolding end_machine_registration_flow
  end_machine_shows w form r no_key = rw no_key (
      claim_with_account_shows w r (get_tailnet w.store form.tailnet_id)
        (get_account w form.account_id))
