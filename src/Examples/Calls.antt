-- ===== src/Examples/Calls.antt =====
-- Callers of the API, their tokens, and the calls that they make.
use ionskale.Prelude.{
  ℕ, ◌^◌, ◌≡◌, inl, inr, refl, ap, sym, ◌∙◌, List, [], ◌∷◌, true, false, none, some, str_eq, arith,
}
use ionskale.Iam.{empty_policy}
use ionskale.Machine.{Machine, Tailnet}
use ionskale.Lock.Db.{Db, no_lock, list_machine_by_tailnet}
use ionskale.Identity.{Principal, Keys, loaded, is_system_admin}
use ionskale.Identity.Tokens.{TokenLib, ServiceTokenEntry, exchange_token}
use ionskale.Identity.Granted.{IsEntitled, exchange_token-IsEntitled}
use ionskale.Service.{answer}
use ionskale.Service.Machines.{NameLib, expire_machine, long_ago}
use ionskale.Service.Steps.{Call, expire, set_name, serve}
use ionskale.Store.Saves.{IsKeyed}
use ionskale.Service.Invariant.{HasUniqueNames, serve_all, serve_all-HasUniqueNames}
use ionskale.Service.Isolation.{serve-isolated}
use ionskale.Examples.Data.{net, alice, carol, tailnet, node, laptop}

-- Decoding that knows two texts, and a hash that is the text itself.
abbrev tokens : TokenLib
tokens = record {
  trim_space = λ s. s;
  base58_decoding = λ s. some (1 ∷ []);
  unmarshal = λ b. some (record { nonce = "n"; creation_time = 10 ^ 12 });
  base64_decode = λ s. some (0 ∷ 0 ∷ 0 ∷ 0 ∷ 0 ∷ 0 ∷ 0 ∷ 0 ∷ 0 ∷ 0 ∷ 0 ∷ 0 ∷ 0 ∷ 0 ∷ 0 ∷ 0 ∷ []);
  sha256 = λ s. s;
  compare_hash = λ h s. str_eq h s;
}

abbrev ruled : Tailnet
ruled = record tailnet {
  iam_policy = record empty_policy { roles = ("alice@example.com", "admin") ∷ [] };
}

abbrev keys : Keys
keys = record {
  api_keys =
      record { key = "k"; hash = "pw"; expires_at = none; user = alice; tailnet = ruled } ∷ [];
  auth_keys = [];
  system_api_keys = record { key = "s"; hash = "pw"; expires_at = some (10 ^ 13) } ∷ [];
}

abbrev no_keys : Keys
no_keys = record { api_keys = []; auth_keys = []; system_api_keys = [] }

abbrev services : List ServiceTokenEntry
services = record { name = "ci"; digest = "svc_secret" } ∷ []

abbrev pub admin_alice : Principal
admin_alice = record { system_role = ""; user = some alice; user_role = "admin"; service_name = "" }

abbrev member_carol : Principal
member_carol = record {
  system_role = "";
  user = some carol;
  user_role = "member";
  service_name = "";
}

abbrev pub root : Principal
root = record { system_role = "admin"; user = none; user_role = ""; service_name = "" }

api_key_runs : exchange_token tokens (10 ^ 12) true services keys "k_pw" ≡ loaded admin_alice
unfolding exchange_token
api_key_runs = refl

system_token_runs : exchange_token tokens (10 ^ 12) true services keys "st_x" ≡ loaded root
unfolding exchange_token
system_token_runs = refl

exchange_token-IsEntitled_example : IsEntitled tokens (10 ^ 12) services keys "k_pw" admin_alice
exchange_token-IsEntitled_example =
    exchange_token-IsEntitled tokens (10 ^ 12) services keys true "k_pw" admin_alice api_key_runs

abbrev names : NameLib
names = record { sanitize_hostname = λ s. s; trim_space = λ s. s }

-- A machine of another tailnet.
abbrev pub foreign : Machine
foreign = record (node 9 "laptop" carol []) { tailnet_id = 2 }

abbrev pub rows : Db
rows = record { machines = laptop ∷ foreign ∷ []; locks = λ t. no_lock; notified = [] }

abbrev calls : List (Principal × ℕ × Call)
calls =
    (admin_alice, 1, set_name false "laptop")
    ∷ (root, 9, set_name false "server")
    ∷ (member_carol, 1, expire)
    ∷ []

apart : (n k : Machine) → laptop ≡ n → foreign ≡ k → n.tailnet_id ≡ k.tailnet_id → ⊥
apart n k e f t =
    let a : 1 ≡ n.tailnet_id = ap (λ j. j.tailnet_id) e in
    let b : 2 ≡ k.tailnet_id = ap (λ j. j.tailnet_id) f in omega arith

two_ids : (n k : Machine) → laptop ≡ n → foreign ≡ k → n.id ≡ k.id → ⊥
two_ids n k e f t =
    let a : 1 ≡ n.id = ap (λ j. j.id) e in let b : 9 ≡ k.id = ap (λ j. j.id) f in omega arith

pub rows-IsKeyed : IsKeyed rows
rows-IsKeyed n k (inl e) (inl f) same = sym e ∙ f
rows-IsKeyed n k (inl e) (inr (inl f)) same = absurd (two_ids n k e f same)
rows-IsKeyed n k (inr (inl e)) (inl f) same = absurd (two_ids k n f e (sym same))
rows-IsKeyed n k (inr (inl e)) (inr (inl f)) same = sym e ∙ f
rows-IsKeyed n k (inr (inr h)) at same = absurd h
rows-IsKeyed n k at (inr (inr h)) same = absurd h

rows-HasUniqueNames : HasUniqueNames rows
rows-HasUniqueNames n k (inl e) (inl f) t x i = ap (λ j. j.id) (sym e ∙ f)
rows-HasUniqueNames n k (inl e) (inr (inl f)) t x i = absurd (apart n k e f t)
rows-HasUniqueNames n k (inr (inl e)) (inl f) t x i = absurd (apart k n f e (sym t))
rows-HasUniqueNames n k (inr (inl e)) (inr (inl f)) t x i = ap (λ j. j.id) (sym e ∙ f)
rows-HasUniqueNames n k (inr (inr h)) at t x i = absurd h
rows-HasUniqueNames n k at (inr (inr h)) t x i = absurd h

serve_all-HasUniqueNames_example :
    IsKeyed (serve_all names net rows calls) × HasUniqueNames (serve_all names net rows calls)
serve_all-HasUniqueNames_example =
    serve_all-HasUniqueNames names net rows calls rows-IsKeyed rows-HasUniqueNames

abbrev expired_laptop : Machine
expired_laptop = record laptop { expires_at = long_ago; key_expiry_disabled = false }

abbrev pub left_rows : Db
left_rows = record {
  machines = expired_laptop ∷ foreign ∷ [];
  locks = λ t. no_lock;
  notified = 1 ∷ [];
}

pub expire_runs : expire_machine admin_alice rows 1 ≡ answer left_rows
unfolding expire_machine
expire_runs = refl

serve-isolated_example : list_machine_by_tailnet left_rows 2 ≡ list_machine_by_tailnet rows 2
unfolding serve is_system_admin
serve-isolated_example =
    serve-isolated names net admin_alice rows 1 expire left_rows alice 2 rows-IsKeyed refl refl
      expire_runs (λ e. omega arith)
