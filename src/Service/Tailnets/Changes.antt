-- ===== src/Service/Tailnets/Changes.antt =====
-- internal/service/tailnet.go, acl.go, iam.go and dns.go: what each call does to the rows of the tailnets.
use ionskale.Prelude.{
  ℕ, String, Bool, true, false, not, ◌||◌, ◌≡◌, ◌⊎◌, inl, inr, ap, sym, subst, ◌∙◌, some,
  Bool-cases, str_eq, eq_iff, ◌==◌, take_first-Any, if◌then◌else◌, refl, none, some_inj,
}
use ionskale.Netip.{AddrText, same_bool}
use ionskale.Iam.{empty_policy}
use ionskale.Dns.{DnsLib}
use ionskale.Machine.{Tailnet}
use ionskale.Identity.{Principal, is_system_admin}
use ionskale.Lock.Db.{notify_all}
use ionskale.Service.{
  answer, demand, not_found, permission_denied, invalid_argument, already_exists, allowed, ◌>>=◌,
  or_refused, or_internal,
}
use ionskale.Service.Answers.{
  answer_inj, >>=-answer, or_refused-answer, demand-true, or_internal-answer,
}
use ionskale.Service.AuthKeys.{KeyStore, get_tailnet}
use ionskale.Tables.{Tables, save_tailnet}
use ionskale.SignIn.Roles.Rows.{IsIn}
use ionskale.Service.Provisioning.{
  PolicyLib, TailnetsConfig, CreateRequest, get_tailnet_by_name, get_tailnet_by_organization,
  UpdateRequest, delete_tailnet_rows,
}
use ionskale.Service.Tailnets.{
  valid_dns_config, configured_policy, iam_policy_or, acl_policy_or, new_tailnet, saved_tailnet,
  told, create_tailnet, name_is_free, organization_is_free, read_tailnet, set_flag, updated_tailnet,
  renamed_to, update_tailnet, remove_tailnet,
}
use ionskale.Store.{count_machine_by_tailnet}
use ionskale.Service.Tailnets.Provisioned.{
  Change, stays, adds, updates, drops, IsFreeName, IsFreeOrganization, free,
}

pub found_row :
    (s : KeyStore) (id : ℕ) (t : Tailnet) → get_tailnet s id ≡ some t → IsIn t s.tailnets
unfolding get_tailnet
found_row s id t h = (take_first-Any (λ x. x.id == id) s.tailnets t h).0

module _ (lib : PolicyLib) (dns : DnsLib) (net : AddrText) (config : TailnetsConfig) (p : Principal)
    (w : Tables) where
  abbrev pub Changes : Tables → Type 0
  Changes v = Change w.store.tailnets v.store.tailnets

  pub read_row :
      (id : ℕ) (t : Tailnet)
      → read_tailnet lib dns net config p w id ≡ answer t
      → IsIn t w.store.tailnets
  unfolding read_tailnet
  read_row id t h =
      let (_, _, h1) = >>=-answer (allowed p id) _ t h in
      found_row w.store id t (or_refused-answer (get_tailnet w.store id) not_found t h1)

  -- A row that keeps its id, its name and its organization.
  pub same_names :
      (t a : Tailnet)
      → IsIn t w.store.tailnets
      → a.id ≡ t.id
      → a.organization ≡ t.organization
      → a.name ≡ t.name
      → Changes (saved_tailnet w a)
  unfolding save_tailnet
  same_names t a at id org name = updates t a at id org (inl name)

  pub set_flag-Changes :
      (flag : Tailnet → Bool) (with_flag : Tailnet → Tailnet) (on tells : Bool) (id : ℕ)
      (v : Tables)
      → ((t : Tailnet)
          → ((with_flag t).id ≡ t.id)
            × ((with_flag t).organization ≡ t.organization)
            × ((with_flag t).name ≡ t.name))
      → set_flag lib dns net config p w flag with_flag on tells id ≡ answer v
      → Changes v
  unfolding notify_all
  set_flag-Changes flag with_flag on tells id v same h =
      let (t, read, h1) = >>=-answer (read_tailnet lib dns net config p w id) _ v h in
      subst Changes (answer_inj h1) (go t (read_row id t read))
    where
      row : Tailnet → Tables
      row t = if same_bool (flag t) on then w else saved_tailnet w (with_flag t)

      changed : (t : Tailnet) → IsIn t w.store.tailnets → Changes (row t)
      changed t at = elim (Bool-cases (same_bool (flag t) on)) [
        | inl e ↦ rw e stays
        | inr e ↦ rw e (same_names t (with_flag t) at (same t).0 (same t).1 (same t).2)
      ]

      go :
          (t : Tailnet)
          → IsIn t w.store.tailnets
          → Changes (if same_bool (flag t) on || not tells then row t else told (row t) t.id)
      go t at = elim (Bool-cases (same_bool (flag t) on || not tells)) [
        | inl e ↦ rw e (changed t at)
        | inr e ↦ rw e (changed t at)
      ]

  pub create_tailnet-Changes :
      (id : ℕ) (req : CreateRequest) (t : Tailnet) (v : Tables)
      → create_tailnet lib dns net config p w id req ≡ answer (t, v)
      → Changes v
  unfolding create_tailnet get_tailnet_by_name get_tailnet_by_organization save_tailnet
  create_tailnet-Changes id req t v h =
      let r : Tailnet × Tables = (t, v) in
      let (_, _, h1) = >>=-answer (demand (is_system_admin p) permission_denied) _ r h in
      let (_, _, h2) = >>=-answer (demand (not (str_eq req.name "")) invalid_argument) _ r h1 in
      let (u, name, h3) =
        >>=-answer (demand (name_is_free lib dns net config p w req.name) already_exists) _ r h2 in
      let (x, org, h4) =
        >>=-answer
          (demand (organization_is_free lib dns net config p w req.organization) already_exists) _ r
          h3 in
      let (_, _, h5) =
        >>=-answer (demand (valid_dns_config lib dns net config req.dns_config) invalid_argument) _
          r h4 in
      let (configured, _, h6) = >>=-answer (configured_policy lib dns net config) _ r h5 in
      let (iam, _, h7) =
        >>=-answer (iam_policy_or lib dns net config req.iam_policy empty_policy) _ r h6 in
      let (acl, _, h8) =
        >>=-answer (acl_policy_or lib dns net config req.acl_policy configured) _ r h7 in
      let made : saved_tailnet w (new_tailnet lib dns net config id req iam acl) ≡ v =
        ap (λ y. y.1) (answer_inj h8) in
      subst Changes made (
        adds (new_tailnet lib dns net config id req iam acl) (free_name (demand-true _ _ u name))
          (free_organization (demand-true _ _ x org)))
    where
      free_name :
          name_is_free lib dns net config p w req.name ≡ true → IsFreeName w.store.tailnets req.name
      free_name h y at e =
          let k = (eq_iff y.name req.name).1 e in
          let z = free (λ a. str_eq a.name req.name) w.store.tailnets y h at in
          let l : false ≡ true = sym z ∙ k in cc

      free_organization :
          organization_is_free lib dns net config p w req.organization ≡ true
          → IsFreeOrganization w.store.tailnets req.organization
      free_organization h y at e = elim (Bool-cases (str_eq req.organization "")) [
        | inl none_is ↦ (eq_iff req.organization "").0 none_is
        | inr given ↦
            let k = (eq_iff y.organization req.organization).1 e in
            let z =
              free (λ a. str_eq a.organization req.organization) w.store.tailnets y (rw given at h)
                at in
            absurd (let l : false ≡ true = sym z ∙ k in cc)
      ]

module _ (lib : PolicyLib) (dns : DnsLib) (net : AddrText) (config : TailnetsConfig) where
  module _ (p : Principal) (w : Tables) where
    renamed_to-free :
        (t : Tailnet) (name given : String)
        → renamed_to lib dns net config p w t given ≡ answer name
        → (name ≡ t.name) ⊎ IsFreeName w.store.tailnets name
    unfolding get_tailnet_by_name
    renamed_to-free t name given h = elim (Bool-cases (str_eq given "" || str_eq given t.name)) [
      | inl e ↦ inl (sym (answer_inj (rw e at h)))
      | inr e ↦ inr (fresh (rw e at h))
    ]
      where
        fresh :
            (demand (is_system_admin p) permission_denied >>= λ _.
            demand (name_is_free lib dns net config p w given) already_exists >>= λ _. answer given)
              ≡ answer name
            → IsFreeName w.store.tailnets name
        fresh k y at e =
            let (_, _, k1) = >>=-answer (demand (is_system_admin p) permission_denied) _ name k in
            let (u, is_free, k2) =
              >>=-answer (demand (name_is_free lib dns net config p w given) already_exists) _ name
                k1 in
            let z =
              free (λ a. str_eq a.name given) w.store.tailnets y (demand-true _ _ u is_free) at in
            let same = (eq_iff y.name given).1 (e ∙ sym (answer_inj k2)) in
            let l : false ≡ true = sym z ∙ same in cc

    pub update_tailnet-Changes :
        (req : UpdateRequest) (t : Tailnet) (v : Tables)
        → update_tailnet lib dns net config p w req ≡ answer (t, v)
        → Changes lib dns net config p w v
    unfolding update_tailnet save_tailnet notify_all
    update_tailnet-Changes req t v h =
        let r : Tailnet × Tables = (t, v) in
        let (_, _, h1) = >>=-answer (allowed p req.tailnet_id) _ r h in
        let (old, found, h2) =
          >>=-answer (or_refused (get_tailnet w.store req.tailnet_id) not_found) _ r h1 in
        let (iam, _, h3) =
          >>=-answer (iam_policy_or lib dns net config req.iam_policy old.iam_policy) _ r h2 in
        let (acl, _, h4) =
          >>=-answer (acl_policy_or lib dns net config req.acl_policy old.acl_policy) _ r h3 in
        let (_, _, h5) =
          >>=-answer (demand (valid_dns_config lib dns net config req.dns_config) invalid_argument)
            _ r h4 in
        let (name, named, h6) =
          >>=-answer (renamed_to lib dns net config p w old req.name) _ r h5 in
        let a = updated_tailnet lib dns net config old req name iam acl in
        let made : told (saved_tailnet w a) a.id ≡ v = ap (λ y. y.1) (answer_inj h6) in
        subst (Changes lib dns net config p w) made (
          updates old a
            (found_row w.store req.tailnet_id old
              (or_refused-answer (get_tailnet w.store req.tailnet_id) not_found old found))
            refl refl (renamed_to-free old name req.name named))

    pub remove_tailnet-Changes :
        (id : ℕ) (force : Bool) (v : Tables)
        → remove_tailnet lib dns net config p w id force ≡ answer v
        → Changes lib dns net config p w v
    unfolding remove_tailnet delete_tailnet_rows notify_all
    remove_tailnet-Changes id force v h =
        let (_, _, h1) = >>=-answer (demand (is_system_admin p) permission_denied) _ v h in
        let (_, _, h2) =
          >>=-answer (demand (force || count_machine_by_tailnet w.db id == 0) invalid_argument) _ v
            h1 in
        let (x, rows, h3) = >>=-answer (or_internal (delete_tailnet_rows w id)) _ v h2 in
        subst (Changes lib dns net config p w) (answer_inj h3)
          (dropped x (or_internal-answer (delete_tailnet_rows w id) x rows))
      where
        dropped :
            (x : Tables)
            → delete_tailnet_rows w id ≡ some x
            → Changes lib dns net config p w (told x id)
        dropped x k = elim (Bool-cases (id == 0)) [
          | inl e ↦ absurd (let z : none ≡ some x = rw e at k in cc)
          | inr e ↦
              subst (λ y. Changes lib dns net config p w (told y id)) (some_inj (rw e at k))
                (drops (λ t. not (t.id == id)))
        ]
