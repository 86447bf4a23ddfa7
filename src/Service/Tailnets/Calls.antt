-- ===== src/Service/Tailnets/Calls.antt =====
-- internal/service/tailnet.go, acl.go, iam.go and dns.go: any calls that change tailnets.
use ionskale.Prelude.{ℕ, String, List, [], ◌∷◌, Bool, true, false, ◌≡◌, refl, Option}
use ionskale.Netip.{AddrText}
use ionskale.Dns.{DnsLib, ApiDnsConfig}
use ionskale.Machine.{Tailnet}
use ionskale.Identity.{Principal}
use ionskale.Service.{answer, Answer, refused, internal, crash}
use ionskale.Tables.{Tables}
use ionskale.Service.Provisioning.{PolicyLib, TailnetsConfig, CreateRequest, UpdateRequest}
use ionskale.Service.Tailnets.{
  create_tailnet, update_tailnet, remove_tailnet, set_file_sharing, set_service_collection, set_ssh,
  set_machine_authorization, enable_tailnet_lock, disable_tailnet_lock, set_iam_policy,
  set_acl_policy, set_dns_config,
}
use ionskale.Service.Tailnets.Provisioned.{IsProvisioned, stays, Change-IsProvisioned}
use ionskale.Service.Tailnets.Changes.{
  Changes, set_flag-Changes, create_tailnet-Changes, update_tailnet-Changes, remove_tailnet-Changes,
}
use ionskale.Service.Tailnets.Settings.{
  set_iam_policy-Changes, set_acl_policy-Changes, set_dns_config-Changes,
  disable_tailnet_lock-Changes,
}

-- The calls that may change a tailnet; the id of a new one comes with the call.
pub data Call : Type 0 where
  create : ℕ → CreateRequest → Call
  update : UpdateRequest → Call
  remove : ℕ → Bool → Call
  file_sharing : Bool → ℕ → Call
  service_collection : Bool → ℕ → Call
  ssh : Bool → ℕ → Call
  machine_authorization : Bool → ℕ → Call
  enable_lock : ℕ → Call
  disable_lock : ℕ → Call
  iam_policy : ℕ → String → Call
  acl_policy : ℕ → String → Call
  dns_config : ℕ → Option ApiDnsConfig → Call

-- The tables after an answer; a refusal leaves them.
abbrev left : Tables → Answer Tables → Tables
left w (answer v) = v
left w (refused code) = w
left w internal = w
left w crash = w

abbrev left_with : Tables → Answer (Tailnet × Tables) → Tables
left_with w (answer (t, v)) = v
left_with w (refused code) = w
left_with w internal = w
left_with w crash = w

module _ (lib : PolicyLib) (dns : DnsLib) (net : AddrText) (config : TailnetsConfig) where
  module _ (p : Principal) (w : Tables) where
    left-Changes :
        (r : Answer Tables)
        → ((v : Tables) → r ≡ answer v → Changes lib dns net config p w v)
        → Changes lib dns net config p w (left w r)
    left-Changes (answer v) h = h v refl
    left-Changes (refused code) h = stays
    left-Changes internal h = stays
    left-Changes crash h = stays

    left_with-Changes :
        (r : Answer (Tailnet × Tables))
        → ((t : Tailnet) (v : Tables) → r ≡ answer (t, v) → Changes lib dns net config p w v)
        → Changes lib dns net config p w (left_with w r)
    left_with-Changes (answer (t, v)) h = h t v refl
    left_with-Changes (refused code) h = stays
    left_with-Changes internal h = stays
    left_with-Changes crash h = stays

    -- The tables that a call leaves.
    unfoldable pub serve : Call → Tables
    unfolding create_tailnet update_tailnet remove_tailnet set_file_sharing set_service_collection
        set_ssh set_machine_authorization enable_tailnet_lock disable_tailnet_lock set_iam_policy
        set_acl_policy set_dns_config
    serve (create id req) = left_with w (create_tailnet lib dns net config p w id req)
    serve (update req) = left_with w (update_tailnet lib dns net config p w req)
    serve (remove id force) = left w (remove_tailnet lib dns net config p w id force)
    serve (file_sharing on id) = left w (set_file_sharing lib dns net config p w on id)
    serve (service_collection on id) = left w (set_service_collection lib dns net config p w on id)
    serve (ssh on id) = left w (set_ssh lib dns net config p w on id)
    serve (machine_authorization on id) =
        left w (set_machine_authorization lib dns net config p w on id)
    serve (enable_lock id) = left w (enable_tailnet_lock lib dns net config p w id)
    serve (disable_lock id) = left w (disable_tailnet_lock lib dns net config p w id)
    serve (iam_policy id text) = left w (set_iam_policy lib dns net config p w id text)
    serve (acl_policy id text) = left w (set_acl_policy lib dns net config p w id text)
    serve (dns_config id given) = left w (set_dns_config lib dns net config p w id given)

    serve-Changes : (c : Call) → Changes lib dns net config p w (serve c)
    unfolding serve set_file_sharing set_service_collection set_ssh set_machine_authorization
        enable_tailnet_lock
    serve-Changes (create id req) =
        left_with-Changes _ (create_tailnet-Changes lib dns net config p w id req)
    serve-Changes (update req) =
        left_with-Changes _ (update_tailnet-Changes lib dns net config p w req)
    serve-Changes (remove id force) =
        left-Changes _ (remove_tailnet-Changes lib dns net config p w id force)
    serve-Changes (file_sharing on id) = left-Changes _ (λ v.
        set_flag-Changes lib dns net config p w (λ t. t.file_sharing_enabled)
          (λ t. record t { file_sharing_enabled = on }) on true id v (λ t. (refl, refl, refl)))
    serve-Changes (service_collection on id) = left-Changes _ (λ v.
        set_flag-Changes lib dns net config p w (λ t. t.service_collection_enabled)
          (λ t. record t { service_collection_enabled = on }) on true id v
          (λ t. (refl, refl, refl)))
    serve-Changes (ssh on id) = left-Changes _ (λ v.
        set_flag-Changes lib dns net config p w (λ t. t.ssh_enabled)
          (λ t. record t { ssh_enabled = on }) on true id v (λ t. (refl, refl, refl)))
    serve-Changes (machine_authorization on id) = left-Changes _ (λ v.
        set_flag-Changes lib dns net config p w (λ t. t.machine_authorization_enabled)
          (λ t. record t { machine_authorization_enabled = on }) on false id v
          (λ t. (refl, refl, refl)))
    serve-Changes (enable_lock id) = left-Changes _ (λ v.
        set_flag-Changes lib dns net config p w (λ t. t.tailnet_lock_enabled)
          (λ t. record t { tailnet_lock_enabled = true }) true true id v (λ t. (refl, refl, refl)))
    serve-Changes (disable_lock id) =
        left-Changes _ (disable_tailnet_lock-Changes lib dns net config p w id)
    serve-Changes (iam_policy id text) =
        left-Changes _ (set_iam_policy-Changes lib dns net config p w id text)
    serve-Changes (acl_policy id text) =
        left-Changes _ (set_acl_policy-Changes lib dns net config p w id text)
    serve-Changes (dns_config id given) =
        left-Changes _ (set_dns_config-Changes lib dns net config p w id given)

  unfoldable pub serve_all : Tables → List (Principal × Call) → Tables
  unfolding serve
  serve_all w [] = w
  serve_all w ((p, c) ∷ calls) = serve_all (serve p w c) calls

  -- Any calls that change tailnets, of any callers, keep each id, each name and each organization that
  -- is not empty to one tailnet, where they were.
  pub serve_all-IsProvisioned :
      (w : Tables) (calls : List (Principal × Call))
      → IsProvisioned w.store.tailnets
      → IsProvisioned (serve_all w calls).store.tailnets
  unfolding serve_all
  serve_all-IsProvisioned w [] h = h
  serve_all-IsProvisioned w ((p, c) ∷ calls) h =
      serve_all-IsProvisioned (serve p w c) calls
        (Change-IsProvisioned w.store.tailnets (serve p w c).store.tailnets (serve-Changes p w c) h)
