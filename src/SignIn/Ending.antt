-- ===== src/SignIn/Ending.antt =====
-- internal/handlers/authentication.go: what `EndAuth` gives access to.
use ionskale.Prelude.{
  ℕ, Bool, true, false, not, ◌&&◌, ◌||◌, ◌≡◌, ◌⊎◌, inl, inr, refl, ◌∙◌, Option, none, some,
  Bool-cases, str_eq, arith, eq_iff, if◌then◌else◌,
}
use ionskale.Tables.{Tables, get_authentication_request, get_registration_request_by_key}
use ionskale.SignIn.{
  Site, OauthState, AuthSession, EndAuthForm, Reply, http, nothing, machine_registration, client,
}
use ionskale.SignIn.Sessions.{allows_tailnet, open_auth_session, read_state}
use ionskale.SignIn.Access.{is_admin}
use ionskale.SignIn.Adds.{OnlyAdds, same-OnlyAdds}
use ionskale.SignIn.Granted.{end_machine_of-OnlyAdds, end_cli_of-OnlyAdds}
use ionskale.SignIn.Handlers.{end_auth, end_flow, end_with_state, with_session, bound_form}

-- The tests of `EndAuth` on the session and the form, for two outcomes.
session_tests :
    (same_flow same_key admin is_admin allows : Bool) (refused ended : Reply × Tables)
    → ((if not same_flow || not same_key
          then refused
          else if admin && not is_admin
          then refused
          else if not admin && not allows
          then refused
          else ended)
        ≡ refused)
      ⊎ ((same_flow ≡ true)
          × (((admin ≡ true) × (is_admin ≡ true)) ⊎ ((admin ≡ false) × (allows ≡ true)))
          × ((if not same_flow || not same_key
                then refused
                else if admin && not is_admin
                then refused
                else if not admin && not allows
                then refused
                else ended)
              ≡ ended))
session_tests false same_key admin is_admin allows r e = inl refl
session_tests true false admin is_admin allows r e = inl refl
session_tests true true true false allows r e = inl refl
session_tests true true true true allows r e = inr (refl, inl (refl, refl), refl)
session_tests true true false is_admin false r e = inl refl
session_tests true true false is_admin true r e = inr (refl, inr (refl, refl), refl)

as_admin :
    (admin is_admin allows : Bool)
    → ((admin ≡ true) × (is_admin ≡ true)) ⊎ ((admin ≡ false) × (allows ≡ true))
    → admin ≡ true
    → is_admin ≡ true
as_admin admin is_admin allows h e = ground (arith, h)

as_user :
    (admin is_admin allows : Bool)
    → ((admin ≡ true) × (is_admin ≡ true)) ⊎ ((admin ≡ false) × (allows ≡ true))
    → admin ≡ false
    → allows ≡ true
as_user admin is_admin allows h e = ground (arith, h)

in_flow :
    (admin is_admin allows : Bool) {Flow : Type 0}
    → ((admin ≡ true) × (is_admin ≡ true)) ⊎ ((admin ≡ false) × (allows ≡ true))
    → Flow
    → (allows ≡ true) ⊎ ((is_admin ≡ true) × Flow)
in_flow admin is_admin allows (inl (_, e)) flow = inr (e, flow)
in_flow admin is_admin allows (inr (_, e)) flow = inl e

-- What an open session allows: a tailnet of its list, and the login as system admin. A session of a
-- machine's registration that says system admin is not held to its list.
abbrev pub Allows : AuthSession → ℕ → Type 0
Allows session t =
    (allows_tailnet session t ≡ true)
    ⊎ ((session.system_admin ≡ true) × (session.flow ≡ machine_registration))

module _ {Attr : Type 0} (site : Site Attr) where
  module _ (P : ℕ → Type 0) (A : Type 0) where
    end_flow-OnlyAdds :
        (w : Tables) (state : OauthState) (form : EndAuthForm)
        → str_eq form.auth_key "" ≡ true
        → (form.as_system_admin ≡ true → A)
        → (form.as_system_admin ≡ false → P form.tailnet_id)
        → (str_eq state.flow machine_registration ≡ true → P form.tailnet_id)
        → OnlyAdds P A w (end_flow site w state form).1
    end_flow-OnlyAdds w state form no_key granted p q =
        elim (Bool-cases (str_eq state.flow machine_registration)) [
          | inl e ↦ rw e (
              end_machine_of-OnlyAdds site P A w form (get_registration_request_by_key w state.key)
                nothing no_key (q e))
          | inr e ↦ rw e (elim (Bool-cases (str_eq state.flow client)) [
            | inl f ↦ rw f (
                end_cli_of-OnlyAdds site P A w form (get_authentication_request w state.key) nothing
                  granted p)
            | inr f ↦ rw f (same-OnlyAdds P A w w refl refl)
          ])
        ]

    with_session-OnlyAdds :
        (w : Tables) (state : OauthState) (form : EndAuthForm) (o : Option AuthSession)
        → ((session : AuthSession) → o ≡ some session → (t : ℕ) → Allows session t → P t)
        → ((session : AuthSession) → o ≡ some session → session.system_admin ≡ true → A)
        → OnlyAdds P A w (with_session site w state form o).1
    with_session-OnlyAdds w state form none p granted = same-OnlyAdds P A w w refl refl
    with_session-OnlyAdds w state form (some session) p granted =
        elim (session_tests (str_eq session.flow state.flow) (str_eq session.key state.key)
          form.as_system_admin session.system_admin (allows_tailnet session form.tailnet_id)
          (http 403, w) (end_flow site w state (bound_form site session form))) [
            | inl e ↦ rw e (same-OnlyAdds P A w w refl refl)
            | inr (same_flow, entitled, e) ↦ rw e (
                end_flow-OnlyAdds w state (bound_form site session form) refl
                  (λ admin. granted session refl (as_admin _ _ _ entitled admin))
                  (λ user. p session refl form.tailnet_id (inl (as_user _ _ _ entitled user)))
                  (λ flow. p session refl form.tailnet_id (
                    in_flow _ _ _ entitled (
                      (eq_iff session.flow state.flow).0 same_flow
                      ∙ (eq_iff state.flow machine_registration).0 flow))))
          ]

  -- `EndAuth` adds a system key only for a session that says system admin, and a machine or a
  -- key only in a tailnet that the session allows.
  pub end_auth-OnlyAdds :
      (P : ℕ → Type 0) (A : Type 0) (w : Tables) (form : EndAuthForm)
      → ((session : AuthSession)
          → open_auth_session site.sealing site.env.now form.session ≡ some session
          → ((t : ℕ) → Allows session t → P t) × (session.system_admin ≡ true → A))
      → OnlyAdds P A w (end_auth site w form).1
  unfolding end_auth
  end_auth-OnlyAdds P A w form h = of_state (read_state site.sealing site.env.now form.state)
    where
      of_state : (o : Option OauthState) → OnlyAdds P A w (end_with_state site w form o).1
      of_state none = same-OnlyAdds P A w w refl refl
      of_state (some state) =
          with_session-OnlyAdds P A w state form
            (open_auth_session site.sealing site.env.now form.session)
            (λ session e. (h session e).0) (λ session e. (h session e).1)
