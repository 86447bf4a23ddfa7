-- ===== src/Service/Tailnets/Settings.antt =====
-- internal/service/tailnet.go, acl.go, iam.go and dns.go: what a call that sets a policy, a config or the
-- lock does to the rows of the tailnets.
use ionskale.Prelude.{
  ℕ, String, Bool, true, false, not, ◌||◌, ◌≡◌, subst, if◌then◌else◌, refl, Option,
}
use ionskale.Netip.{AddrText}
use ionskale.Dns.{DnsLib, validate_dns_config, domain_dns_config, ApiDnsConfig}
use ionskale.Machine.{Tailnet}
use ionskale.Identity.{Principal}
use ionskale.Lock.Db.{notify_all, get_lock}
use ionskale.Service.{
  answer, demand, not_found, invalid_argument, allowed, or_refused, failed_precondition,
}
use ionskale.Service.Answers.{answer_inj, >>=-answer, or_refused-answer}
use ionskale.Service.AuthKeys.{get_tailnet}
use ionskale.Tables.{Tables}
use ionskale.SignIn.Roles.Rows.{IsIn}
use ionskale.Service.Provisioning.{PolicyLib, TailnetsConfig}
use ionskale.Service.Tailnets.{
  saved_tailnet, told, read_tailnet, valid_iam_policy, disable_tailnet_lock, set_iam_policy,
  set_acl_policy, set_dns_config,
}
use ionskale.Service.Tailnets.Provisioned.{stays}
use ionskale.Service.Tailnets.Changes.{Changes, found_row, read_row, same_names, set_flag-Changes}

module _ (lib : PolicyLib) (dns : DnsLib) (net : AddrText) (config : TailnetsConfig) where
  module _ (p : Principal) (w : Tables) where
    -- A row of the tailnet that is read, saved where it is not the same.
    saved_unless :
        (b : Bool) (t a : Tailnet)
        → IsIn t w.store.tailnets
        → a.id ≡ t.id
        → a.organization ≡ t.organization
        → a.name ≡ t.name
        → Changes lib dns net config p w (if b then w else saved_tailnet w a)
          × Changes lib dns net config p w (if b then w else told (saved_tailnet w a) t.id)
    unfolding notify_all
    saved_unless true t a at id org name = (stays, stays)
    saved_unless false t a at id org name =
        let h = same_names lib dns net config p w t a at id org name in (h, h)

    pub set_iam_policy-Changes :
        (id : ℕ) (text : String) (v : Tables)
        → set_iam_policy lib dns net config p w id text ≡ answer v
        → Changes lib dns net config p w v
    unfolding set_iam_policy
    set_iam_policy-Changes id text v h =
        let (t, read, h1) = >>=-answer (read_tailnet lib dns net config p w id) _ v h in
        let (policy, _, h2) =
          >>=-answer (valid_iam_policy lib dns net config (lib.parse_iam_policy text)) _ v h1 in
        subst (Changes lib dns net config p w) (answer_inj h2)
          (saved_unless (lib.same_iam_policy t.iam_policy policy) t
            (record t { iam_policy = policy }) (read_row lib dns net config p w id t read) refl refl
            refl).0

    pub set_acl_policy-Changes :
        (id : ℕ) (text : String) (v : Tables)
        → set_acl_policy lib dns net config p w id text ≡ answer v
        → Changes lib dns net config p w v
    unfolding set_acl_policy
    set_acl_policy-Changes id text v h =
        let (t, read, h1) = >>=-answer (read_tailnet lib dns net config p w id) _ v h in
        let (policy, _, h2) =
          >>=-answer (or_refused (lib.parse_acl_policy text) invalid_argument) _ v h1 in
        subst (Changes lib dns net config p w) (answer_inj h2)
          (saved_unless (lib.same_acl_policy t.acl_policy policy) t
            (record t { acl_policy = policy }) (read_row lib dns net config p w id t read) refl refl
            refl).1

    pub set_dns_config-Changes :
        (id : ℕ) (given : Option ApiDnsConfig) (v : Tables)
        → set_dns_config lib dns net config p w id given ≡ answer v
        → Changes lib dns net config p w v
    unfolding set_dns_config
    set_dns_config-Changes id given v h =
        let (_, _, h1) = >>=-answer (allowed p id) _ v h in
        let (c, _, h2) = >>=-answer (or_refused given invalid_argument) _ v h1 in
        let (_, _, h3) =
          >>=-answer (demand (validate_dns_config dns net c) invalid_argument) _ v h2 in
        let (_, _, h4) =
          >>=-answer (demand (not c.https_certs || c.magic_dns) failed_precondition) _ v h3 in
        let (_, _, h5) =
          >>=-answer (demand (not c.https_certs || config.has_dns_provider) failed_precondition) _ v
            h4 in
        let (t, found, h6) = >>=-answer (or_refused (get_tailnet w.store id) not_found) _ v h5 in
        subst (Changes lib dns net config p w) (answer_inj h6)
          (saved_unless (lib.same_dns_config t.dns_config (domain_dns_config dns c)) t
            (record t { dns_config = domain_dns_config dns c })
            (found_row w.store id t (or_refused-answer (get_tailnet w.store id) not_found t found))
            refl refl refl).1

    pub disable_tailnet_lock-Changes :
        (id : ℕ) (v : Tables)
        → disable_tailnet_lock lib dns net config p w id ≡ answer v
        → Changes lib dns net config p w v
    unfolding disable_tailnet_lock
    disable_tailnet_lock-Changes id v h =
        let (_, _, h1) = >>=-answer (read_tailnet lib dns net config p w id) _ v h in
        let (_, _, h2) =
          >>=-answer (demand (not (get_lock w.db id).enabled) failed_precondition) _ v h1 in
        set_flag-Changes lib dns net config p w (λ t. t.tailnet_lock_enabled)
          (λ t. record t { tailnet_lock_enabled = false }) false true id v (λ t. (refl, refl, refl))
          h2
