-- ===== src/SignIn/Adds.antt =====
-- internal/handlers/authentication.go: the rows that the ends of a sign-in add.
use ionskale.Prelude.{
  ℕ, String, List, [], ◌∷◌, ◌++◌, Bool, true, false, ◌≡◌, ◌⊎◌, inl, inr, refl, ap, sym, subst, ◌∙◌,
  Option, none, some, Any, str_eq, ==_iff, take_first-Any, some_inj, if◌then◌else◌,
}
use ionskale.Prelude.Options.{>>=-some}
use ionskale.Netip.{Addr, Prefix}
use ionskale.Machine.{Machine, User, Tailnet}
use ionskale.Address.{Selection, selected, failed, searching}
use ionskale.Identity.{ApiKey, SystemApiKey}
use ionskale.Identity.Creation.{create_api_key, draw}
use ionskale.Lock.Registration.{apply_tailnet_lock_registration}
use ionskale.Store.Rows.{Row}
use ionskale.Store.Saves.{Row-save_machine}
use ionskale.Registration.{RegistrationRequest, lock_request}
use ionskale.Registration.Entry.{lock_keeps}
use ionskale.Service.AuthKeys.{KeyStore, get_tailnet}
use ionskale.Tables.{
  Tables, Account, AuthenticationRequest, user_of, get_or_create_user_with_account, get_account,
  set_user_last_authenticated, save_authentication_request, save_system_api_key, save_api_key,
}
use ionskale.SignIn.{Site, EndAuthForm, Reply}
use ionskale.SignIn.Finish.{
  Claim, with_store, complete, complete_new, complete_machine, signed_in_machine, returning_machine,
  claim_machine, refuse, claim, claim_with_account, claim_of_user, end_machine_registration_flow,
  login_to, login_system, user_login, system_login, end_cli_authentication_flow,
}

-- The keys and the machines of `w'` are those of `w`, but for ones of the tailnets that have the
-- property, and for system keys where the condition holds.
pub record OnlyAdds (P : ℕ → Type 0) (A : Type 0) (w w' : Tables) : Type 0 where
  pub keys :
      (k : ApiKey)
      → Any (λ l. l ≡ k) w'.store.keys.api_keys
      → Any (λ l. l ≡ k) w.store.keys.api_keys ⊎ P k.tailnet.id
  pub system_keys :
      (k : SystemApiKey)
      → Any (λ l. l ≡ k) w'.store.keys.system_api_keys
      → Any (λ l. l ≡ k) w.store.keys.system_api_keys ⊎ A
  pub machines : (n : Machine) → Row n w'.db → Row n w.db ⊎ P n.tailnet_id

module _ (P : ℕ → Type 0) (A : Type 0) where
  pub same-OnlyAdds :
      (w w' : Tables) → w'.db ≡ w.db → w'.store.keys ≡ w.store.keys → OnlyAdds P A w w'
  same-OnlyAdds w w' d k = record {
    keys = λ l at. inl (subst (λ ks. Any (λ m. m ≡ l) ks.api_keys) k at);
    system_keys = λ l at. inl (subst (λ ks. Any (λ m. m ≡ l) ks.system_api_keys) k at);
    machines = λ n at. inl (subst (Row n) d at);
  }

  -- What stands before the first step is left out.
  pub rebase-OnlyAdds :
      (w v w' : Tables)
      → v.db ≡ w.db
      → v.store.keys ≡ w.store.keys
      → OnlyAdds P A v w'
      → OnlyAdds P A w w'
  rebase-OnlyAdds w v w' d k h = record {
    keys = λ l at. elim (h.keys l at) [
      | inl old ↦ inl (subst (λ ks. Any (λ m. m ≡ l) ks.api_keys) k old)
      | inr new ↦ inr new
    ];
    system_keys = λ l at. elim (h.system_keys l at) [
      | inl old ↦ inl (subst (λ ks. Any (λ m. m ≡ l) ks.system_api_keys) k old)
      | inr new ↦ inr new
    ];
    machines =
        λ n at. elim (h.machines n at) [ inl old ↦ inl (subst (Row n) d old) | inr new ↦ inr new ];
  }

  pub either-OnlyAdds :
      (w : Tables) (b : Bool) (x y : Reply × Tables)
      → (b ≡ true → OnlyAdds P A w x.1)
      → (b ≡ false → OnlyAdds P A w y.1)
      → OnlyAdds P A w (if b then x else y).1
  either-OnlyAdds w true x y f g = f refl
  either-OnlyAdds w false x y f g = g refl

appended :
    {X : Type 0} (xs : List X) (a x : X)
    → Any (λ l. l ≡ x) (xs ++ a ∷ [])
    → Any (λ l. l ≡ x) xs ⊎ (a ≡ x)
appended [] a x (inl e) = inr e
appended [] a x (inr h) = absurd h
appended (y ∷ ys) a x (inl e) = inl (inl e)
appended (y ∷ ys) a x (inr h) = elim (appended ys a x h) [ inl at ↦ inl (inr at) | inr e ↦ inr e ]

pub user_of-keys :
    (o : Option User) (s : KeyStore) (id : ℕ) (t : Tailnet) (a : Account)
    → (user_of o s id t a).0.keys ≡ s.keys
user_of-keys none s id t a = refl
user_of-keys (some u) s id t a = refl

create_api_key-tailnet :
    (generate_hash : String → Option String) (key_draws pwd_draws : List ℕ) (t : Tailnet) (u : User)
    (expires_at : Option ℕ) (token : String) (k : ApiKey)
    → create_api_key generate_hash key_draws pwd_draws t u expires_at ≡ some (token, k)
    → k.tailnet ≡ t
unfolding create_api_key
create_api_key-tailnet generate_hash key_draws pwd_draws t u expires_at token k h =
    let (d, _, same) = >>=-some (draw generate_hash key_draws pwd_draws) _ (token, k) h in
    ap (λ q. q.1.tailnet) (sym (some_inj same))

module _ {Attr : Type 0} (site : Site Attr) (P : ℕ → Type 0) (A : Type 0) where
  user_login-OnlyAdds :
      (w : Tables) (req : AuthenticationRequest) (t : Tailnet) (u : User)
      (o : Option (String × ApiKey))
      → P t.id
      → ((token : String) (k : ApiKey) → o ≡ some (token, k) → k.tailnet ≡ t)
      → OnlyAdds P A w (user_login site w req t u o).1
  unfolding save_authentication_request set_user_last_authenticated save_api_key
  user_login-OnlyAdds w req t u none p h = same-OnlyAdds P A w w refl refl
  user_login-OnlyAdds w req t u (some (token, k)) p h = record {
    keys = λ l at. elim (appended w.store.keys.api_keys k l at) [
      | inl old ↦ inl old
      | inr e ↦
          inr (subst P (sym (ap (λ j. j.tailnet.id) (sym e) ∙ ap (λ s. s.id) (h token k refl))) p)
    ];
    system_keys = λ l at. inl at;
    machines = λ n at. inl at;
  }

  login_to-OnlyAdds :
      (w : Tables) (req : AuthenticationRequest) (t : Option Tailnet) (a : Option Account)
      → ((x : Tailnet) → t ≡ some x → P x.id)
      → OnlyAdds P A w (login_to site w req t a).1
  unfolding get_or_create_user_with_account
  login_to-OnlyAdds w req none a p = same-OnlyAdds P A w w refl refl
  login_to-OnlyAdds w req (some t) none p = same-OnlyAdds P A w w refl refl
  login_to-OnlyAdds w req (some t) (some a) p =
      let (s, u) = get_or_create_user_with_account w.store site.user_id t a in
      rebase-OnlyAdds P A w (with_store w s) _ refl (user_of-keys _ w.store site.user_id t a) (
        user_login-OnlyAdds (with_store w s) req t u _ (p t refl)
          (create_api_key-tailnet site.generate_hash site.key_draws site.pwd_draws t u _))

  system_login-OnlyAdds :
      (w : Tables) (req : AuthenticationRequest) (o : Option (String × SystemApiKey))
      → A
      → OnlyAdds P A w (system_login site w req o).1
  unfolding save_authentication_request save_system_api_key
  system_login-OnlyAdds w req none granted = same-OnlyAdds P A w w refl refl
  system_login-OnlyAdds w req (some (token, k)) granted = record {
    keys = λ l at. inl at;
    system_keys = λ l at. inr granted;
    machines = λ n at. inl at;
  }

  login_system-OnlyAdds :
      (w : Tables) (req : AuthenticationRequest) (a : Option Account)
      → A
      → OnlyAdds P A w (login_system site w req a).1
  login_system-OnlyAdds w req none granted = same-OnlyAdds P A w w refl refl
  login_system-OnlyAdds w req (some a) granted = system_login-OnlyAdds w req _ granted

  -- The tailnet of a login is the one of the form, and a system key is only asked for by the form.
  pub end_cli-OnlyAdds :
      (w : Tables) (form : EndAuthForm) (req : AuthenticationRequest)
      → (form.as_system_admin ≡ true → A)
      → (form.as_system_admin ≡ false → P form.tailnet_id)
      → OnlyAdds P A w (end_cli_authentication_flow site w form req).1
  unfolding end_cli_authentication_flow get_tailnet
  end_cli-OnlyAdds w form req granted p =
      either-OnlyAdds P A w form.as_system_admin _ _
        (λ e. login_system-OnlyAdds w req (get_account w form.account_id) (granted e))
        (λ e.
          login_to-OnlyAdds w req (get_tailnet w.store form.tailnet_id)
            (get_account w form.account_id)
            (λ x found.
              let (_, is) = take_first-Any _ w.store.tailnets x found in
              let same : form.tailnet_id ≡ x.id = sym ((==_iff x.id form.tailnet_id).0 is) in
              subst P same (p e)))

  complete-OnlyAdds :
      (w : Tables) (r : RegistrationRequest) (c : Claim) (m : Machine)
      → P c.tailnet.id
      → m.tailnet_id ≡ c.tailnet.id
      → OnlyAdds P A w (complete site w r c m).1
  unfolding complete set_user_last_authenticated
  complete-OnlyAdds w r c m p e = record {
    keys = λ l at. inl at;
    system_keys = λ l at. inl at;
    machines = λ n at.
        let locked =
          apply_tailnet_lock_registration site.tka w.db c.tailnet.id m (lock_request r.request) in
        elim (Row-save_machine w.db locked n at) [
          | inr (old, _) ↦ inl old
          | inl is ↦ inr (
              subst P
                (sym (
                  ap (λ j. j.tailnet_id) (sym is)
                  ∙ lock_keeps (λ j. j.tailnet_id) site.tka w.db c.tailnet.id m
                      (lock_request r.request) (λ j s. refl) (λ j s. refl)
                  ∙ e))
                p)
        ];
  }

  complete_new-OnlyAdds :
      (w : Tables) (r : RegistrationRequest) (c : Claim) (ips : List Prefix)
      (s : Selection (Addr × Addr))
      → P c.tailnet.id
      → OnlyAdds P A w (complete_new site w r c ips s).1
  unfolding signed_in_machine
  complete_new-OnlyAdds w r c ips failed p = same-OnlyAdds P A w w refl refl
  complete_new-OnlyAdds w r c ips searching p = same-OnlyAdds P A w w refl refl
  complete_new-OnlyAdds w r c ips (selected (ip4, ip6)) p = complete-OnlyAdds w r c _ p refl

  complete_machine-OnlyAdds :
      (w : Tables) (r : RegistrationRequest) (c : Claim) (ips : List Prefix) (o : Option Machine)
      → P c.tailnet.id
      → OnlyAdds P A w (complete_machine site w r c ips o).1
  unfolding returning_machine
  complete_machine-OnlyAdds w r c ips none p = complete_new-OnlyAdds w r c ips _ p
  complete_machine-OnlyAdds w r c ips (some m) p = complete-OnlyAdds w r c _ p refl

  claim_machine-OnlyAdds :
      (w : Tables) (r : RegistrationRequest) (c : Claim) (tags : List String)
      → P c.tailnet.id
      → OnlyAdds P A w (claim_machine site w r c tags).1
  unfolding claim_machine refuse
  claim_machine-OnlyAdds w r c [] p = complete_machine-OnlyAdds w r c _ _ p
  claim_machine-OnlyAdds w r c (tag ∷ tags) p = same-OnlyAdds P A w _ refl refl

  claim_with_account-OnlyAdds :
      (w : Tables) (r : RegistrationRequest) (t : Option Tailnet) (a : Option Account)
      → ((x : Tailnet) → t ≡ some x → P x.id)
      → OnlyAdds P A w (claim_with_account site w r t a).1
  unfolding get_or_create_user_with_account claim
  claim_with_account-OnlyAdds w r none a p = same-OnlyAdds P A w w refl refl
  claim_with_account-OnlyAdds w r (some t) none p = same-OnlyAdds P A w w refl refl
  claim_with_account-OnlyAdds w r (some t) (some a) p =
      let (s, u) = get_or_create_user_with_account w.store site.user_id t a in
      rebase-OnlyAdds P A w (with_store w s) _ refl (user_of-keys _ w.store site.user_id t a)
        (claim_machine-OnlyAdds (with_store w s) r (claim_of_user site t u) _ (p t refl))

  -- Without an auth key the tailnet of a registration is the one of the form.
  pub end_machine-OnlyAdds :
      (w : Tables) (form : EndAuthForm) (r : RegistrationRequest)
      → str_eq form.auth_key "" ≡ true
      → P form.tailnet_id
      → OnlyAdds P A w (end_machine_registration_flow site w form r).1
  unfolding end_machine_registration_flow get_tailnet
  end_machine-OnlyAdds w form r no_key p = rw no_key (
      claim_with_account-OnlyAdds w r (get_tailnet w.store form.tailnet_id)
        (get_account w form.account_id)
        (λ x found.
          let (_, is) = take_first-Any _ w.store.tailnets x found in
          let same : form.tailnet_id ≡ x.id = sym ((==_iff x.id form.tailnet_id).0 is) in
          subst P same p))
