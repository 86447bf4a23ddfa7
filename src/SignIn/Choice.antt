-- ===== src/SignIn/Choice.antt =====
-- internal/handlers/authentication.go: from the page that a callback shows to the end of the sign-in.
use ionskale.Prelude.{
  ℕ, String, List, [], ◌∷◌, Bool, true, false, ◌==◌, ◌≡◌, inl, inr, refl, ap, sym, subst, ◌∙◌,
  Option, none, some, some_inj, Any, any, map, Bool-cases, str_eq, ==_iff, eq_iff, if◌then◌else◌,
}
use ionskale.Machine.{Machine, Tailnet}
use ionskale.Store.{get_machine}
use ionskale.Registration.{RegistrationRequest}
use ionskale.Tables.{
  Tables, Account, AuthenticationRequest, SshActionRequest, get_or_create_account,
  get_ssh_action_request,
}
use ionskale.SignIn.{
  Site, SealLib, OauthState, AuthSession, EndAuthForm, AuthUser, Reply, redirect, render, http,
  error, nothing, crashed, hangs, Page, auth_page, tailnets_page, machine_registration, client,
  ssh_check_flow, login_name, is_over,
}
use ionskale.SignIn.Sessions.{
  allows_tailnet, seal_auth_session, open_auth_session, new_session, create_session,
}
use ionskale.SignIn.Access.{sync_org_roles, is_system_admin, list_available_tailnets}
use ionskale.SignIn.Boundary.{list_available_tailnets-MayEnter}
use ionskale.SignIn.Finish.{with_store}
use ionskale.SignIn.Handlers.{
  choose, choose_login, choose_machine, end_auth, end_cli, end_machine, owns_machine, signed_in,
  ssh_check, ssh_checked,
}
use ionskale.SignIn.Adds.{OnlyAdds}
use ionskale.SignIn.Granted.{Offered, account_of-store}
use ionskale.SignIn.Ending.{Allows, end_auth-OnlyAdds}
use ionskale.SignIn.NoPage.{OfPage, ShowsNone, end_cli_shows, end_machine_shows}

no_page : (P : Page → Type 0) (r : Reply) → ShowsNone r → OfPage P r
no_page P (redirect s) h = tt
no_page P (render page) h = absurd h
no_page P (http n) h = tt
no_page P error h = tt
no_page P nothing h = tt
no_page P crashed h = tt
no_page P hangs h = tt

module _ {Attr : Type 0} (site : Site Attr) (P : ℕ → Type 0) where
  -- A page seals what it shows: tailnets that have the property, and a login as system admin only
  -- for an identity that the system's policy admits, at the login of a client.
  abbrev pub PageSays : OauthState → AuthUser Attr → ℕ → Page → Type 0
  PageSays state u id auth_page = Unit
  PageSays state u id (tailnets_page text admin ts) =
      (text ≡ create_session site state id admin ts)
      × (admin ≡ true → is_system_admin site u ≡ some true)
      × (str_eq state.flow machine_registration ≡ true → admin ≡ false)
      × ((t : Tailnet) → Any (λ x. x ≡ t) ts → P t.id)

  end_machine_says :
      (state : OauthState) (u : AuthUser Attr) (id : ℕ) (w : Tables) (form : EndAuthForm)
      (o : Option RegistrationRequest)
      → str_eq form.auth_key "" ≡ true
      → OfPage (PageSays state u id) (end_machine site w form o error).0
  end_machine_says state u id w form none no_key = tt
  end_machine_says state u id w form (some r) no_key =
      no_page (PageSays state u id) _ (end_machine_shows site w form r no_key)

  end_cli_says :
      (state : OauthState) (u : AuthUser Attr) (id : ℕ) (w : Tables) (form : EndAuthForm)
      (o : Option AuthenticationRequest)
      → OfPage (PageSays state u id) (end_cli site w form o error).0
  end_cli_says state u id w form none = tt
  end_cli_says state u id w form (some r) =
      no_page (PageSays state u id) _ (end_cli_shows site w form r)

  choose_machine_says :
      (w : Tables) (state : OauthState) (u : AuthUser Attr) (a : Account) (ts : List Tailnet)
      → ((t : Tailnet) → Any (λ x. x ≡ t) ts → P t.id)
      → OfPage (PageSays state u a.id) (choose_machine site w state u a ts).0
  choose_machine_says w state u a [] p = tt
  choose_machine_says w state u a (t ∷ []) p = end_machine_says state u a.id w _ _ refl
  choose_machine_says w state u a (t ∷ s ∷ ts) p = (refl, (λ e. cc), (λ e. refl), p)

  choose_login_says :
      (w : Tables) (state : OauthState) (u : AuthUser Attr) (a : Account) (ts : List Tailnet)
      (o : Option Bool)
      → is_system_admin site u ≡ o
      → str_eq state.flow machine_registration ≡ false
      → ((t : Tailnet) → Any (λ x. x ≡ t) ts → P t.id)
      → OfPage (PageSays state u a.id) (choose_login site w state u a ts o).0
  choose_login_says w state u a ts none e f p = tt
  choose_login_says w state u a ts (some true) e f p = (refl, (λ g. e), (λ g. cc), p)
  choose_login_says w state u a [] (some false) e f p = tt
  choose_login_says w state u a (t ∷ []) (some false) e f p = end_cli_says state u a.id w _ _
  choose_login_says w state u a (t ∷ s ∷ ts) (some false) e f p = (refl, (λ g. cc), (λ g. refl), p)

  choose_says :
      (w : Tables) (state : OauthState) (u : AuthUser Attr) (a : Account)
      (o : Option (List Tailnet))
      → ((ts : List Tailnet) → o ≡ some ts → (t : Tailnet) → Any (λ x. x ≡ t) ts → P t.id)
      → OfPage (PageSays state u a.id) (choose site w state u a o).0
  choose_says w state u a none p = tt
  choose_says w state u a (some ts) p = elim (Bool-cases (str_eq state.flow machine_registration)) [
    | inl e ↦ rw e (choose_machine_says w state u a ts (p ts refl))
    | inr e ↦ rw e (elim (Bool-cases (str_eq state.flow client)) [
      | inl f ↦ rw f (choose_login_says w state u a ts (is_system_admin site u) refl e (p ts refl))
      | inr f ↦ rw f tt
    ])
  ]

  ssh_check_says :
      (w : Tables) (state : OauthState) (u : AuthUser Attr) (a : Account)
      (o : Option SshActionRequest)
      → OfPage (PageSays state u a.id) (ssh_check site w a o).0
  ssh_check_says w state u a none = tt
  ssh_check_says w state u a (some r) = of_machine (get_machine w.db r.src_machine_id)
    where
      of_machine :
          (o : Option Machine) → OfPage (PageSays state u a.id) (ssh_checked site w r a o).0
      of_machine none = tt
      of_machine (some m) = elim (Bool-cases (owns_machine w a m)) [
        | inl e ↦ rw e tt
        | inr e ↦ rw e tt
      ]

module _ {Attr : Type 0} (site : Site Attr) where
  -- The account that a callback signs in.
  abbrev pub signed_in_id : Tables → AuthUser Attr → ℕ
  signed_in_id w u = (get_or_create_account w site.account_id u.id u.org (login_name u)).1.id

  signed_in_says :
      (w : Tables) (state : OauthState) (u : AuthUser Attr)
      → OfPage
          (PageSays site (Offered site w u) state u (signed_in_id w u))
          (signed_in site w state u).0
  unfolding signed_in get_or_create_account
  signed_in_says w state u =
      let P = Offered site w u in
      let (w1, a) = get_or_create_account w site.account_id u.id u.org (login_name u) in
      let (stores, dbs) = account_of-store _ w site.account_id u.id u.org (login_name u) in
      let w2 = with_store w1 (sync_org_roles site w1.store u) in
      elim (Bool-cases (str_eq state.flow ssh_check_flow)) [
        | inl e ↦ rw e (ssh_check_says site P w1 state u a (get_ssh_action_request w1 state.key))
        | inr e ↦ rw e (
            choose_says site P w2 state u a (list_available_tailnets site w2.store u)
              (λ ts listed t at.
                let (there, enters) =
                  list_available_tailnets-MayEnter site w2.store u ts t listed at in
                (
                  t,
                  subst (λ s. Any (λ y. y ≡ t) (sync_org_roles site s u).tailnets) stores there,
                  refl,
                  enters,
                )))
      ]

live : (over : Bool) (x y : AuthSession) → (if over then none else some x) ≡ some y → x ≡ y
live true x y h = cc
live false x y h = some_inj h

-- The three steps of a sealing are undone, for one session.
pub record Unseals (lib : SealLib) (x : AuthSession) : Type 0 where
  pub decodes :
      lib.base58_decoding (lib.base58_encoding (lib.seal (lib.marshal_session x)))
      ≡ some (lib.seal (lib.marshal_session x))
  pub opens : lib.open_sealed (lib.seal (lib.marshal_session x)) ≡ some (lib.marshal_session x)
  pub unmarshals : lib.unmarshal_session (lib.marshal_session x) ≡ some x

open-seal :
    (lib : SealLib) (now : ℕ) (x y : AuthSession)
    → Unseals lib x
    → open_auth_session lib now (seal_auth_session lib x) ≡ some y
    → x ≡ y
unfolding open_auth_session seal_auth_session
open-seal lib now x y laws h =
    elim (Bool-cases (str_eq (lib.base58_encoding (lib.seal (lib.marshal_session x))) "")) [
      | inl e ↦ absurd (let z : none ≡ some y = (rw e at h) in cc)
      | inr e ↦
          live (is_over now x.expires_at) x y
            (rw (e, laws.decodes, laws.opens, laws.unmarshals) at h)
    ]

listed :
    (ts : List Tailnet) (t : ℕ)
    → any (λ i. i == t) (map (λ x. x.id) ts) ≡ true
    → (x : Tailnet) × Any (λ y. y ≡ x) ts × (x.id ≡ t)
listed [] t h = cc
listed (x ∷ ts) t h = elim (Bool-cases (x.id == t)) [
  | inl e ↦ (x, inl refl, (==_iff x.id t).0 e)
  | inr e ↦ let (y, at, is) = listed ts t (rw e at h) in (y, inr at, is)
]

module _ {Attr : Type 0} (site later : Site Attr) where
  page_tailnet :
      (w : Tables) (state : OauthState) (u : AuthUser Attr) (admin : Bool) (ts : List Tailnet)
      (session : AuthSession) (t : ℕ)
      → new_session site state (signed_in_id site w u) admin ts ≡ session
      → (str_eq state.flow machine_registration ≡ true → admin ≡ false)
      → ((x : Tailnet) → Any (λ y. y ≡ x) ts → Offered site w u x.id)
      → Allows session t
      → Offered site w u t
  unfolding new_session allows_tailnet
  page_tailnet w state u admin ts session t same free offered (inl h) =
      let (x, at, is) =
        listed ts t (subst (λ s. any (λ i. i == t) s.tailnet_ids ≡ true) (sym same) h) in
      subst (Offered site w u) is (offered x at)
  page_tailnet w state u admin ts session t same free offered (inr (is_admin, flow)) =
      let flows = (eq_iff state.flow machine_registration).1 (ap (λ s. s.flow) same ∙ flow) in
      absurd
        (let z : true ≡ false = sym (ap (λ s. s.system_admin) same ∙ is_admin) ∙ free flows in cc)

  admin_of :
      (w : Tables) (state : OauthState) (u : AuthUser Attr) (admin : Bool) (ts : List Tailnet)
      (session : AuthSession)
      → new_session site state (signed_in_id site w u) admin ts ≡ session
      → session.system_admin ≡ true
      → admin ≡ true
  unfolding new_session
  admin_of w state u admin ts session same e = ap (λ s. s.system_admin) same ∙ e

  -- A callback shows a page with a sealed session, and `EndAuth` gets that session with any form, at
  -- any tables and any time. Where the sealing of the session is undone by its opening, this adds machines
  -- and keys only in tailnets that the identity may enter, and a system key only for an
  -- identity that the system's policy admits.
  pub end_auth-Offered :
      (w v now_tables : Tables) (state : OauthState) (u : AuthUser Attr) (text : String)
      (admin : Bool) (ts : List Tailnet) (form : EndAuthForm)
      → signed_in site w state u ≡ (render (tailnets_page text admin ts), v)
      → later.sealing ≡ site.sealing
      → Unseals site.sealing (new_session site state (signed_in_id site w u) admin ts)
      → form.session ≡ text
      → OnlyAdds
          (Offered site w u)
          (is_system_admin site u ≡ some true)
          now_tables
          (end_auth later now_tables form).1
  unfolding create_session
  end_auth-Offered w v now_tables state u text admin ts form shown same laws is =
      let (sealed, vouched, free, offered) =
        subst (OfPage (PageSays site (Offered site w u) state u (signed_in_id site w u)))
          (ap (λ r. r.0) shown) (signed_in_says site w state u) in
      let x = new_session site state (signed_in_id site w u) admin ts in
      end_auth-OnlyAdds later (Offered site w u) (is_system_admin site u ≡ some true) now_tables
        form
        (λ session opened.
          let there : x ≡ session = open-seal site.sealing later.env.now x session laws (
            subst
              (λ lib.
                open_auth_session lib later.env.now (seal_auth_session site.sealing x)
                ≡ some session)
              same
              (ap (open_auth_session later.sealing later.env.now) (sym (is ∙ sealed)) ∙ opened)) in
          (
            (λ t. page_tailnet w state u admin ts session t there free offered),
            (λ e. vouched (admin_of w state u admin ts session there e)),
          ))
