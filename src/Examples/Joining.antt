-- ===== src/Examples/Joining.antt =====
-- Machines that register: with an auth key, again, and without a key.
use ionskale.Prelude.{
  ℕ, ◌≡◌, refl, ap, sym, ◌∙◌, inl, inr, String, [], ◌∷◌, true, false, not, ◌||◌, Option, none, some,
  ◌⊎◌, str_eq, contains, All, arith,
}
use ionskale.Machine.{Machine, User}
use ionskale.Acl.Owners.{Owns}
use ionskale.Identity.{Keys, AuthKey, loaded, load_auth_key}
use ionskale.Lock.Db.{Db, no_lock, get_machine_by_keys}
use ionskale.Store.Rows.{Row}
use ionskale.Registration.{
  RegisterRequest, RegisterResponse, RegistrationRequest, Env, Outcome, replied, fails, hangs,
  empty_response,
}
use ionskale.Registration.Handlers.{authenticate_machine_with_auth_key}
use ionskale.Registration.Addresses.{HasUniqueAddresses}
use ionskale.Registration.Entry.{
  authenticate-HasUniqueAddresses, authenticate-Owns, authenticate-authorized,
}
use ionskale.Registration.Followup.{answers, followup}
use ionskale.Registration.Register.{Rows, register}
use ionskale.Registration.Known.{register-unchanged}
use ionskale.Examples.Data.{net, alice, tailnet, laptop}
use ionskale.Examples.Addresses.{small_range}
use ionskale.Examples.Locks.{tka}

abbrev pub env : Env
env = record {
  now = 50;
  next_id = 7;
  random_key = "r";
  random_number = 3;
  create_url = λ k. k;
  sanitize_hostname = λ s. s;
  machine_key_expiry = 1000;
  compare_hash = λ h s. str_eq h s;
  range = small_range;
  tag_errors = λ ts. "no";
}

abbrev auth_key : AuthKey
auth_key = record {
  id = 1;
  key = "a";
  hash = "pw";
  ephemeral = false;
  pre_authorized = false;
  tags = [];
  expires_at = none;
  user = alice;
  tailnet = tailnet;
}

abbrev keys : Keys
keys = record { api_keys = []; auth_keys = auth_key ∷ []; system_api_keys = [] }

abbrev request : String → String → RegisterRequest
request node_key key = record {
  version = 70;
  node_key = node_key;
  expiry = 0;
  hostname = "tv";
  request_tags = "tag:web" ∷ [];
  routable_ips = [];
  ephemeral = false;
  followup = "";
  auth_key = key;
  nl_key = "";
  node_key_signature = [];
}

abbrev start : Db
start = record { machines = laptop ∷ []; locks = λ t. no_lock; notified = [] }

abbrev left_by {ℓ} : {A : Type ℓ} → A → Outcome A → A
left_by a (replied r b) = b
left_by a fails = a
left_by a hangs = a

abbrev reply_of {ℓ} : {A : Type ℓ} → Outcome A → RegisterResponse
reply_of (replied r a) = r
reply_of fails = empty_response
reply_of hangs = empty_response

abbrev joining : Outcome Db
joining = authenticate_machine_with_auth_key tka env "tv" net start keys (request "n" "a_pw")

join_runs : joining ≡ replied (reply_of joining) (left_by start joining)
unfolding authenticate_machine_with_auth_key
join_runs = refl

start-HasUniqueAddresses : HasUniqueAddresses start
start-HasUniqueAddresses n k (inl e) (inl f) same = ap (λ j. j.id) (sym e ∙ f)
start-HasUniqueAddresses n k (inr h) at same = absurd h
start-HasUniqueAddresses n k at (inr h) same = absurd h

authenticate-HasUniqueAddresses_example : HasUniqueAddresses (left_by start joining)
authenticate-HasUniqueAddresses_example =
    authenticate-HasUniqueAddresses tka env "tv" net start keys (request "n" "a_pw")
      (reply_of joining) (left_by start joining) (omega arith) start-HasUniqueAddresses join_runs

accepted : (reply_of joining).machine_authorized ≡ true
unfolding authenticate_machine_with_auth_key
accepted = refl

authenticate-Owns_example :
    (k : AuthKey) × (m : Machine) × (load_auth_key env.compare_hash env.now keys "a_pw" ≡ loaded k)
    × Row m (left_by start joining)
    × ((t : String) → contains m.tags t ≡ (contains k.tags t || contains ("tag:web" ∷ []) t))
    × All (Owns k.tailnet.acl_policy k.user) ("tag:web" ∷ [])
authenticate-Owns_example =
    authenticate-Owns tka env "tv" net start keys (request "n" "a_pw") (reply_of joining)
      (left_by start joining) join_runs accepted

laptop_stays : Row laptop (left_by start joining)
unfolding authenticate_machine_with_auth_key
laptop_stays = inl refl

authenticate-authorized_example :
    ((o : Machine) × Row o start × (o.id ≡ 1) × (o.authorized ≡ true))
    ⊎ ((k : AuthKey) × (load_auth_key env.compare_hash env.now keys "a_pw" ≡ loaded k)
        × ((not k.tailnet.machine_authorization_enabled || k.pre_authorized) ≡ true))
authenticate-authorized_example =
    authenticate-authorized tka env "tv" net start keys (request "n" "a_pw") (reply_of joining)
      (left_by start joining) laptop join_runs laptop_stays refl

nobody : ℕ → Option User
nobody id = none

abbrev rows : Rows
rows = record { db = start; keys = keys; requests = [] }

abbrev again : Outcome Rows
again = register tka env "laptop" net nobody [] rows (request "laptop" "")

again_runs : again ≡ replied (reply_of again) (left_by rows again)
unfolding register
again_runs = refl

abbrev stranger : Outcome Rows
stranger = register tka env "tv" net nobody [] rows (request "n" "")

stranger_runs : stranger ≡ replied (reply_of stranger) (left_by rows stranger)
unfolding register
stranger_runs = refl

register-unchanged_example :
    ((left_by rows stranger).db ≡ start)
    × (((reply_of stranger).machine_authorized ≡ false)
        ⊎ (str_eq (reply_of stranger).error "" ≡ false))
unfolding get_machine_by_keys
register-unchanged_example =
    register-unchanged tka env "tv" net nobody [] rows (request "n" "") (reply_of stranger)
      (left_by rows stranger) refl refl stranger_runs

abbrev denied : RegistrationRequest
denied = record {
  machine_key = "tv";
  key = "r";
  request = request "n" "";
  created_at = 40;
  authenticated = false;
  error = "not allowed";
  user_id = 0;
}

denial_runs :
    followup nobody (some denied ∷ [])
    ≡ answers (record empty_response { machine_authorized = true; error = "not allowed" })
unfolding followup
denial_runs = refl
