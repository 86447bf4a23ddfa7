-- ===== src/Service/Users/Revoked.antt =====
-- internal/service/users.go: what a revocation leaves.
use ionskale.Prelude.{
  ℕ, String, List, [], ◌∷◌, Bool, true, false, not, ◌&&◌, ◌≡◌, inl, inr, refl, sym, ap, ◌∙◌, ◌==◌,
  ==_iff, str_eq, keep, map, any, is_empty, arith, Bool-cases, if◌then◌else◌, any-Any, any_of_Any,
  Any-map, Any_witness, subst, any-keep, take_first, eq_iff, none, some, ◌||◌, any-append, any-or,
  any_same, any_never, none_any,
}
use ionskale.Machine.{User, Tailnet}
use ionskale.Identity.{Principal, is_system_admin}
use ionskale.Service.{answer}
use ionskale.Service.AuthKeys.{KeyStore}
use ionskale.Tables.{Tables, Account}
use ionskale.Service.Answers.{answer_inj}
use ionskale.Service.AuthKeys.{get_tailnet}
use ionskale.Service.Users.{
  of_account, list_users_by_account, list_accounts_by_external_id, notify_each, is_revoked,
  users_of, organization_of, delete_all, revoke_users, revoke_account,
}
use ionskale.Service.Users.Without.{
  WithoutUsers, delete_all-WithoutUsers, notify_each-WithoutUsers, same-WithoutUsers,
}

any-users_of :
    (f : User → Bool) (s : KeyStore) (accounts : List Account)
    → any f (users_of s accounts) ≡ any (λ u. any (λ a. of_account a.id u) accounts && f u) s.users
unfolding users_of list_users_by_account
any-users_of f s [] = sym (any_never _ s.users (λ u. refl))
any-users_of f s (a ∷ accounts) =
    any-append f (list_users_by_account s a.id) (users_of s accounts)
    ∙ rw (any-keep f (of_account a.id) s.users, any-users_of f s accounts)
        (sym (
            any-or (λ u. of_account a.id u && f u)
              (λ u. any (λ b. of_account b.id u) accounts && f u) s.users)
          ∙ any_same _ (λ u. any (λ b. of_account b.id u) (a ∷ accounts) && f u) s.users
              (λ u. ground arith))

-- The first tailnet with the id is of the organization.
unfoldable pub in_organization : List Tailnet → String → ℕ → Bool
in_organization [] organization id = false
in_organization (t ∷ ts) organization id =
    if t.id == id then str_eq t.organization organization else in_organization ts organization id

abbrev pub is_of : User → Account → Bool
is_of u a = elim u.account_id [ none ↦ false | some id ↦ id == a.id ]

-- A user that a revocation concerns: of an account with the external id, not a service, and of a
-- tailnet of the organization where one is given.
abbrev pub concerns : Tables → String → String → User → Bool
concerns w external_id organization u =
    any (λ a. str_eq a.external_id external_id && is_of u a) w.accounts
    && (not (str_eq u.user_type "service")
        && (str_eq organization "" || in_organization w.store.tailnets organization u.tailnet_id))

organization_of_joined :
    (ts : List Tailnet) (organization : String) (id : ℕ)
    → str_eq organization "" ≡ false
    → str_eq (organization_of (take_first (λ t. t.id == id) ts)) organization
      ≡ in_organization ts organization id
unfolding in_organization
organization_of_joined [] organization id given =
    ground (arith, eq_iff organization "", eq_iff "" organization)
organization_of_joined (t ∷ ts) organization id given = elim (Bool-cases (t.id == id)) [
  | inl e ↦ rw e refl
  | inr e ↦ rw e (organization_of_joined ts organization id given)
]

is_revoked-in_organization :
    (s : KeyStore) (organization : String) (u : User)
    → is_revoked s organization u ≡ (
        not (str_eq u.user_type "service")
        && (str_eq organization "" || in_organization s.tailnets organization u.tailnet_id))
unfolding is_revoked get_tailnet
is_revoked-in_organization s organization u = elim (Bool-cases (str_eq organization "")) [
  | inl e ↦ rw e refl
  | inr e ↦ rw e (rw (organization_of_joined s.tailnets organization u.tailnet_id e) refl)
]

abbrev pub revokes : Tables → String → String → ℕ → Bool
revokes w external_id organization id =
    any (λ u. concerns w external_id organization u && id == u.id) w.store.users

abbrev revoked_users : Tables → String → String → List User
revoked_users w external_id organization =
    keep (is_revoked w.store organization)
      (users_of w.store (list_accounts_by_external_id w external_id))

any-revoked_users :
    (f : User → Bool) (w : Tables) (external_id organization : String)
    → any f (revoked_users w external_id organization)
      ≡ any (λ u. concerns w external_id organization u && f u) w.store.users
unfolding list_accounts_by_external_id
any-revoked_users f w external_id organization =
    any-keep f (is_revoked w.store organization) (users_of w.store accounts)
    ∙ any-users_of _ w.store accounts
    ∙ any_same _ _ w.store.users (λ u.
      rw
        (
          any-keep (λ a. of_account a.id u) (λ a. str_eq a.external_id external_id) w.accounts,
          is_revoked-in_organization w.store organization u,
        )
        (ground arith))
  where
    accounts : List Account
    accounts = keep (λ a. str_eq a.external_id external_id) w.accounts

no_accounts :
    (w : Tables) (organization : String) (accounts : List Account)
    → (if is_empty accounts
        then answer ([], w)
        else answer
            (revoke_users w (keep (is_revoked w.store organization) (users_of w.store accounts))))
      ≡ answer (revoke_users w (keep (is_revoked w.store organization) (users_of w.store accounts)))
unfolding users_of delete_all notify_each
no_accounts w organization [] = refl
no_accounts w organization (a ∷ accounts) = refl

revoke_account-users :
    (p : Principal) (w : Tables) (external_id organization : String)
    → is_system_admin p ≡ true
    → str_eq external_id "" ≡ false
    → revoke_account p w external_id organization
      ≡ answer (revoke_users w (revoked_users w external_id organization))
unfolding revoke_account
revoke_account-users p w external_id organization admin given =
    rw (admin, given) (no_accounts w organization (list_accounts_by_external_id w external_id))

any-map_id :
    (t : ℕ) (us : List User)
    → any (λ i. i == t) (map (λ u. u.tailnet_id) us) ≡ any (λ u. u.tailnet_id == t) us
any-map_id t [] = refl
any-map_id t (u ∷ us) = rw (any-map_id t us) refl

-- For a system administrator and a subject that is given, a revocation answers. It concerns the
-- users of the accounts with the subject's external id that are no service and, where an
-- organization is given, are of a tailnet of it. Its tables are those from before without these
-- users, and without the machines, API keys and auth keys of these users; nothing else goes. The
-- tailnets that it names are those of the users.
pub revoke_account-WithoutUsers :
    (p : Principal) (w : Tables) (external_id organization : String)
    → is_system_admin p ≡ true
    → str_eq external_id "" ≡ false
    → (ids : List ℕ) × (v : Tables) × (revoke_account p w external_id organization
        ≡ answer (ids, v))
      × WithoutUsers (revokes w external_id organization) w v
      × ((t : ℕ)
          → any (λ i. i == t) ids
            ≡ any (λ u. concerns w external_id organization u && u.tailnet_id == t) w.store.users)
revoke_account-WithoutUsers p w external_id organization admin given =
    let us = revoked_users w external_id organization in
    let ids = map (λ u. u.tailnet_id) us in
    (
      ids,
      notify_each (delete_all w us) ids,
      revoke_account-users p w external_id organization admin given,
      notify_each-WithoutUsers (revokes w external_id organization) w (delete_all w us) ids (
          same-WithoutUsers _ _ w _
            (λ i. any-revoked_users (λ u. i == u.id) w external_id organization)
            (delete_all-WithoutUsers w us)),
      (λ t.
          any-map_id t us ∙ any-revoked_users (λ u. u.tailnet_id == t) w external_id organization),
    )

-- What is concerned goes, so that nothing that stays is concerned.
none_stays :
    (w : Tables) (external_id organization : String)
    → any
        (λ u.
          not (revokes w external_id organization u.id)
          && (concerns w external_id organization u && true))
        w.store.users
      ≡ false
none_stays w external_id organization =
    elim (Bool-cases (
      any
        (λ u.
          not (revokes w external_id organization u.id)
          && (concerns w external_id organization u && true))
        w.store.users)) [
          | inr e ↦ e
          | inl e ↦
              let (u, at, stays) = Any_witness w.store.users (any-Any _ w.store.users e) in
              let gone : revokes w external_id organization u.id ≡ true =
                any_of_Any _ w.store.users (
                  Any-map w.store.users
                    (λ x same.
                      subst (λ y. (concerns w external_id organization y && u.id == y.id) ≡ true)
                        (sym same) (ground (arith, ==_iff u.id u.id)))
                    at) in
              absurd (
                let z : (not (revokes w external_id organization u.id)
                      && (concerns w external_id organization u && true))
                    ≡ true =
                  stays in
                ground arith)
        ]

concerns-same :
    (gone : ℕ → Bool) (w v : Tables) (external_id organization : String) (u : User)
    → WithoutUsers gone w v
    → concerns v external_id organization u ≡ concerns w external_id organization u
concerns-same gone w v external_id organization u h = rw (h.tailnets, h.accounts) refl

no_one_left :
    (w v : Tables) (external_id organization : String)
    → WithoutUsers (revokes w external_id organization) w v
    → revoked_users v external_id organization ≡ []
no_one_left w v external_id organization h = none_any (revoked_users v external_id organization) (
    any-revoked_users (λ u. true) v external_id organization
    ∙ ap (any (λ u. concerns v external_id organization u && true)) h.users
    ∙ any-keep (λ u. concerns v external_id organization u && true)
        (λ u. not (revokes w external_id organization u.id)) w.store.users
    ∙ any_same _
        (λ u.
          not (revokes w external_id organization u.id)
          && (concerns w external_id organization u && true))
        w.store.users
        (λ u.
          rw (concerns-same (revokes w external_id organization) w v external_id organization u h)
            refl)
    ∙ none_stays w external_id organization)

-- A second revocation, of the tables that the first leaves, answers, names no tailnet and changes
-- nothing.
pub revoke_account-again :
    (p : Principal) (w v : Tables) (external_id organization : String) (ids : List ℕ)
    → is_system_admin p ≡ true
    → str_eq external_id "" ≡ false
    → revoke_account p w external_id organization ≡ answer (ids, v)
    → revoke_account p v external_id organization ≡ answer ([], v)
unfolding delete_all notify_each
revoke_account-again p w v external_id organization ids admin given h =
    let (ids2, v2, first, without, _) =
      revoke_account-WithoutUsers p w external_id organization admin given in
    let same : v2 ≡ v = ap (λ r. r.1) (answer_inj (sym first ∙ h)) in
    revoke_account-users p v external_id organization admin given
    ∙ ap (λ us. answer (revoke_users v us))
        (no_one_left w v external_id organization
          (subst (WithoutUsers (revokes w external_id organization) w) same without))
