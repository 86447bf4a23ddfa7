-- ===== src/SignIn/Handlers.antt =====
-- internal/handlers/authentication.go: the handlers of a sign-in, with the reply and the tables that
-- they leave. `SetAccountLastAuthenticated` writes a column that nothing reads, and is left out.
use Prim.Native.String.{◌++◌ as append_text}
use ionskale.Prelude.{
  ℕ, String, List, [], ◌∷◌, Bool, true, false, not, ◌&&◌, ◌||◌, Option, none, some, str_eq, ◌==◌,
  if◌then◌else◌,
}
use ionskale.Machine.{Machine, Tailnet, has_tags, User}
use ionskale.Acl.{is_some}
use ionskale.Store.{get_machine}
use ionskale.Registration.{RegistrationRequest}
use ionskale.Registration.Handlers.{save_registration_request}
use ionskale.Tables.{
  Tables, Account, AuthenticationRequest, SshActionRequest, get_or_create_account,
  get_ssh_action_request, save_ssh_action_request, get_authentication_request,
  save_authentication_request, get_registration_request_by_key, set_user_last_authenticated,
  joined_user,
}
use ionskale.SignIn.{
  Site, OauthState, AuthSession, AuthInput, EndAuthForm, AuthUser, login_name, Exchanged,
  identified, organization_required, refused, Provider, Reply, redirect, render, http, error,
  nothing, crashed, auth_page, tailnets_page, machine_registration, client, ssh_check_flow,
}
use ionskale.SignIn.Sessions.{
  allows_tailnet, open_auth_session, read_state, create_state, create_session,
}
use ionskale.SignIn.Access.{is_system_admin, list_available_tailnets, denial_code, sync_org_roles}
use ionskale.SignIn.Finish.{with_store, end_cli_authentication_flow, end_machine_registration_flow}

-- The template that `Error` renders for a code, and its status.
unfoldable pub error_page : String → ℕ × String
error_page e =
    if str_eq e "iak"
    then (403, "InvalidAuthKey")
    else if str_eq e "ua"
    then (403, "Unauthorized")
    else if str_eq e "ua-none"
    then (403, "NoNetworks")
    else if str_eq e "ua-org"
    then (403, "NoNetworkForOrganization")
    else if str_eq e "ua-org-required"
    then (403, "OrganizationRequired")
    else if str_eq e "ua-policy"
    then (403, "NotOnAccessPolicy")
    else if str_eq e "idp"
    then (403, "ProviderRejected")
    else if str_eq e "nto"
    then (403, "NotTagOwner")
    else if str_eq e "nmo"
    then (403, "NotMachineOwner")
    else (200, "Error")

unfoldable pub success_page : String → ℕ × String
success_page s = if str_eq s "nma" then (200, "NewMachine") else (200, "Success")

-- A form of a sign-in that has only these fields.
abbrev pub form_of_key : String → EndAuthForm
form_of_key auth_key = record {
  account_id = 0;
  tailnet_id = 0;
  as_system_admin = false;
  auth_key = auth_key;
  state = "";
  session = "";
}

abbrev pub form_of_account : ℕ → ℕ → EndAuthForm
form_of_account account_id tailnet_id = record {
  account_id = account_id;
  tailnet_id = tailnet_id;
  as_system_admin = false;
  auth_key = "";
  state = "";
  session = "";
}

abbrev pub has_account : Option User → ℕ → Bool
has_account none id = false
has_account (some u) id = elim u.account_id [ none ↦ false | some a ↦ a == id ]

-- Whether the signed-in account owns the machine: it has no tags, and its user is the account's.
unfoldable pub owns_machine : Tables → Account → Machine → Bool
unfolding has_tags joined_user
owns_machine w a m = not (has_tags m) && has_account (joined_user w.store m) a.id

module _ {Attr : Type 0} (site : Site Attr) where
  open site.env use {now}

  -- A machine that is gone is a nil pointer.
  abbrev pub ssh_checked : Tables → SshActionRequest → Account → Option Machine → Reply × Tables
  ssh_checked w r a none = (crashed, w)
  ssh_checked w r a (some m) =
      if owns_machine w a m
      then (
        redirect "/a/success",
        save_ssh_action_request (set_user_last_authenticated w m.user_id now)
            (record r { action = "accept" }),
      )
      else (redirect "/a/error?e=nmo", save_ssh_action_request w (record r { action = "reject" }))

  abbrev pub ssh_check : Tables → Account → Option SshActionRequest → Reply × Tables
  ssh_check w a none = (redirect "/a/error?e=ua", w)
  ssh_check w a (some r) = ssh_checked w r a (get_machine w.db r.src_machine_id)

  abbrev pub denied : Tables → AuthUser Attr → Reply
  denied w u = redirect (append_text "/a/error?e=" (denial_code site w.store u))

  abbrev pub refuse_registration : Tables → Option RegistrationRequest → Tables
  refuse_registration w none = w
  refuse_registration w (some r) = record w {
    registrations = save_registration_request w.registrations (record r { error = "unauthorized" });
  }

  abbrev pub refuse_login : Tables → Option AuthenticationRequest → Tables
  refuse_login w none = w
  refuse_login w (some r) = save_authentication_request w (record r { error = "unauthorized" })

  abbrev pub end_machine :
      Tables → EndAuthForm → Option RegistrationRequest → Reply → Reply × Tables
  end_machine w form none reply = (reply, w)
  end_machine w form (some r) reply = end_machine_registration_flow site w form r

  abbrev pub end_cli : Tables → EndAuthForm → Option AuthenticationRequest → Reply → Reply × Tables
  end_cli w form none reply = (reply, w)
  end_cli w form (some r) reply = end_cli_authentication_flow site w form r

  -- The callback of a machine's registration, with the tailnets that the identity may enter.
  abbrev pub choose_machine :
      Tables → OauthState → AuthUser Attr → Account → List Tailnet → Reply × Tables
  choose_machine w state u a [] =
      (denied w u, refuse_registration w (get_registration_request_by_key w state.key))
  choose_machine w state u a (t ∷ []) =
      end_machine w (form_of_account a.id t.id) (get_registration_request_by_key w state.key) error
  choose_machine w state u a (t ∷ s ∷ ts) = (
    render (tailnets_page (create_session site state a.id false (t ∷ s ∷ ts)) false (t ∷ s ∷ ts)),
    w,
  )

  abbrev pub choose_login :
      Tables → OauthState → AuthUser Attr → Account → List Tailnet → Option Bool → Reply × Tables
  choose_login w state u a ts none = (error, w)
  choose_login w state u a ts (some true) =
      (render (tailnets_page (create_session site state a.id true ts) true ts), w)
  choose_login w state u a [] (some false) =
      (denied w u, refuse_login w (get_authentication_request w state.key))
  choose_login w state u a (t ∷ []) (some false) =
      end_cli w (form_of_account a.id t.id) (get_authentication_request w state.key) error
  choose_login w state u a (t ∷ s ∷ ts) (some false) = (
    render (tailnets_page (create_session site state a.id false (t ∷ s ∷ ts)) false (t ∷ s ∷ ts)),
    w,
  )

  abbrev pub choose :
      Tables → OauthState → AuthUser Attr → Account → Option (List Tailnet) → Reply × Tables
  choose w state u a none = (error, w)
  choose w state u a (some ts) =
      if str_eq state.flow machine_registration
      then choose_machine w state u a ts
      else if str_eq state.flow client
      then choose_login w state u a ts (is_system_admin site u)
      else (http 404, w)

  -- The callback for an identity that the provider vouches for.
  unfoldable pub signed_in : Tables → OauthState → AuthUser Attr → Reply × Tables
  unfolding get_or_create_account login_name get_ssh_action_request get_machine
      save_ssh_action_request set_user_last_authenticated sync_org_roles list_available_tailnets
      denial_code get_registration_request_by_key get_authentication_request
      save_registration_request save_authentication_request end_machine_registration_flow
      end_cli_authentication_flow create_session is_system_admin
  signed_in w state u =
      let (w1, a) = get_or_create_account w site.account_id u.id u.org (login_name u) in
      if str_eq state.flow ssh_check_flow
      then ssh_check w1 a (get_ssh_action_request w1 state.key)
      else (let w2 = with_store w1 (sync_org_roles site w1.store u) in
          choose w2 state u a (list_available_tailnets site w2.store u))

  abbrev pub of_exchange : Tables → OauthState → Exchanged Attr → Reply × Tables
  of_exchange w state organization_required = (redirect "/a/error?e=ua-org-required", w)
  of_exchange w state refused = (error, w)
  of_exchange w state (identified u) = signed_in w state u

  abbrev pub exchange_user : Tables → String → OauthState → Option (Provider Attr) → Reply × Tables
  exchange_user w code state none = (crashed, w)
  exchange_user w code state (some p) =
      of_exchange w state
        (p.exchange (site.create_url "/a/callback") code state.code_verifier state.nonce)

  abbrev pub with_state : Tables → String → Option OauthState → Reply × Tables
  with_state w code none = (http 400, w)
  with_state w code (some state) = exchange_user w code state site.provider

  -- `provider_error` is the parameter `error` of the request.
  unfoldable pub callback : Tables → String → String → String → Reply × Tables
  unfolding read_state signed_in
  callback w provider_error code state =
      if not (str_eq provider_error "")
      then (redirect "/a/error?e=idp", w)
      else with_state w code (read_state site.sealing now state)

  abbrev pub start_oidc : String → String → Option (Provider Attr) → Reply
  start_oidc flow key none = crashed
  start_oidc flow key (some p) = redirect (
      p.get_login_url (site.create_url "/a/callback") (create_state site flow key) site.nonce
        site.code_verifier)

  abbrev pub start_registration : Tables → AuthInput → Option RegistrationRequest → Reply × Tables
  start_registration w input none = (nothing, w)
  start_registration w input (some r) =
      if input.oidc && is_some site.provider
      then (start_oidc input.flow input.key site.provider, w)
      else if not (str_eq input.auth_key "")
      then end_machine_registration_flow site w (form_of_key input.auth_key) r
      else if is_some site.provider
      then (start_oidc input.flow input.key site.provider, w)
      else (render auth_page, w)

  abbrev is_known : Tables → AuthInput → Bool
  is_known w input =
      (not (str_eq input.flow client) || is_some (get_authentication_request w input.key))
      && (not (str_eq input.flow ssh_check_flow) || is_some (get_ssh_action_request w input.key))

  unfoldable pub start_auth : Tables → AuthInput → Reply × Tables
  unfolding get_registration_request_by_key get_authentication_request get_ssh_action_request
      create_state end_machine_registration_flow
  start_auth w input =
      if str_eq input.flow machine_registration
      then start_registration w input (get_registration_request_by_key w input.key)
      else if not (is_known w input)
      then (nothing, w)
      else if is_some site.provider
      then (start_oidc input.flow input.key site.provider, w)
      else (error, w)

  abbrev pub process_registration : Tables → AuthInput → Option RegistrationRequest → Reply × Tables
  process_registration w input none = (nothing, w)
  process_registration w input (some r) =
      if not (str_eq input.auth_key "")
      then end_machine_registration_flow site w (form_of_key input.auth_key) r
      else if input.oidc
      then (start_oidc input.flow input.key site.provider, w)
      else (redirect (append_text "/a/" (append_text input.flow (append_text "/" input.key))), w)

  unfoldable pub process_auth : Tables → AuthInput → Reply × Tables
  unfolding get_registration_request_by_key create_state end_machine_registration_flow
  process_auth w input = process_registration w input (get_registration_request_by_key w input.key)

  -- The form with what the session decides put in.
  abbrev pub bound_form : AuthSession → EndAuthForm → EndAuthForm
  bound_form session form = record form { auth_key = ""; account_id = session.account_id }

  -- The end of a flow, where the session allows the selection.
  abbrev pub end_flow : Tables → OauthState → EndAuthForm → Reply × Tables
  end_flow w state form =
      if str_eq state.flow machine_registration
      then end_machine w form (get_registration_request_by_key w state.key) nothing
      else if str_eq state.flow client
      then end_cli w form (get_authentication_request w state.key) nothing
      else (http 400, w)

  abbrev pub with_session : Tables → OauthState → EndAuthForm → Option AuthSession → Reply × Tables
  with_session w state form none = (http 403, w)
  with_session w state form (some session) =
      if not (str_eq session.flow state.flow) || not (str_eq session.key state.key)
      then (http 403, w)
      else if form.as_system_admin && not session.system_admin
      then (http 403, w)
      else if not form.as_system_admin && not (allows_tailnet session form.tailnet_id)
      then (http 403, w)
      else end_flow w state (bound_form session form)

  abbrev pub end_with_state : Tables → EndAuthForm → Option OauthState → Reply × Tables
  end_with_state w form none = (http 400, w)
  end_with_state w form (some state) =
      with_session w state form (open_auth_session site.sealing now form.session)

  unfoldable pub end_auth : Tables → EndAuthForm → Reply × Tables
  unfolding read_state open_auth_session get_registration_request_by_key get_authentication_request
      end_machine_registration_flow end_cli_authentication_flow
  end_auth w form = end_with_state w form (read_state site.sealing now form.state)
