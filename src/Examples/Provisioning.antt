-- ===== src/Examples/Provisioning.antt =====
-- Calls that create and change tailnets.
use ionskale.Prelude.{
  map, ◌⊎◌, ◌≡◌, refl, sym, ap, ◌∙◌, inl, inr, String, List, [], ◌∷◌, true, false, none, some,
}
use ionskale.Iam.{empty_policy}
use ionskale.Machine.{Tailnet}
use ionskale.Identity.{Principal}
use ionskale.Lock.Db.{no_lock}
use ionskale.Tables.{Tables}
use ionskale.Dns.{DnsLib}
use ionskale.Service.Provisioning.{PolicyLib, TailnetsConfig, CreateRequest}
use ionskale.Service.Tailnets.Provisioned.{IsProvisioned}
use ionskale.Service.Tailnets.Calls.{Call, create, remove, ssh, serve_all, serve_all-IsProvisioned}
use ionskale.Examples.Data.{net, policy, tailnet}
use ionskale.Examples.Calls.{root, admin_alice}

abbrev lib : PolicyLib
lib = record {
  parse_iam_policy = λ s. some empty_policy;
  parse_acl_policy = λ s. some policy;
  parse_filter = λ s. true;
  same_iam_policy = λ p q. false;
  same_acl_policy = λ p q. false;
  same_dns_config = λ c d. false;
}

abbrev dns : DnsLib
dns = record { valid_hostname = λ s. true; trim_space = λ s. s; to_upper = λ s. s }

abbrev config : TailnetsConfig
config = record { default_acl_policy = ""; machine_authorization = true; has_dns_provider = false }

abbrev request : String → String → CreateRequest
request name organization = record {
  name = name;
  organization = organization;
  iam_policy = "";
  acl_policy = "";
  dns_config = none;
  service_collection_enabled = false;
  file_sharing_enabled = false;
  ssh_enabled = false;
  machine_authorization_enabled = false;
}

abbrev tables : Tables
tables = record {
  db = record { machines = []; locks = λ t. no_lock; notified = [] };
  store = record {
    keys = record { api_keys = []; auth_keys = []; system_api_keys = [] };
    tailnets = tailnet ∷ [];
    users = [];
  };
  accounts = [];
  registrations = [];
  logins = [];
  ssh_actions = [];
}

-- A second tailnet, another for its organization, a setting, and the end of the first.
abbrev calls : List (Principal × Call)
calls =
    (root, create 2 (request "second" "acme"))
    ∷ (root, create 3 (request "third" "acme"))
    ∷ (admin_alice, ssh false 1)
    ∷ (root, remove 1 false)
    ∷ []

ids_left : map (λ t. t.id) (serve_all lib dns net config tables calls).store.tailnets ≡ 2 ∷ []
unfolding serve_all
ids_left = refl

one-IsProvisioned : IsProvisioned (tailnet ∷ [])
one-IsProvisioned = record {
  ids = (tt, tt);
  names = λ t u at there e. same at there;
  organizations = λ t u at there e f. same at there;
}
  where
    same : {t u : Tailnet} → (tailnet ≡ t) ⊎ ⊥ → (tailnet ≡ u) ⊎ ⊥ → t.id ≡ u.id
    same (inl e) (inl f) = ap (λ x. x.id) (sym e ∙ f)
    same (inl e) (inr h) = absurd h
    same (inr h) k = absurd h

serve_all-IsProvisioned_example :
    IsProvisioned (serve_all lib dns net config tables calls).store.tailnets
serve_all-IsProvisioned_example =
    serve_all-IsProvisioned lib dns net config tables calls one-IsProvisioned
