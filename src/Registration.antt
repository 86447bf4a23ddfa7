-- ===== src/Registration.antt =====
-- internal/handlers/registration.go: the registration of a machine. A query of the database succeeds.
-- The clock, the random values, the host name of the server and the functions on names are fields of
-- `Env`; times are nanoseconds, and a zero time is 0.
pub mod Answers
pub mod Handlers
pub mod Addresses
pub mod Entry
pub mod Followup
pub mod Register
pub mod Known
use ionskale.Prelude.{
  ℕ, String, List, [], ◌∷◌, Bool, true, false, Option, none, some, str_eq, if◌then◌else◌,
}
use ionskale.Netip.{Prefix}
use ionskale.Machine.{Bytes, User}
use ionskale.Address.{Range}
use ionskale.Lock.Registration.{LockRequest}

-- The fields of tailcfg.RegisterRequest that are read, with those of its host info. `auth_key` is ""
-- where the request has none.
pub record RegisterRequest : Type 0 where
  pub version : ℕ
  pub node_key : String
  pub expiry : ℕ
  pub hostname : String
  pub request_tags : List String
  pub routable_ips : List Prefix
  pub ephemeral : Bool
  pub followup : String
  pub auth_key : String
  pub nl_key : String
  pub node_key_signature : Bytes

abbrev pub lock_request : RegisterRequest → LockRequest
lock_request req = record {
  node_key = req.node_key;
  nl_key = req.nl_key;
  node_key_signature = req.node_key_signature;
}

pub record RegisterResponse : Type 0 where
  pub machine_authorized : Bool
  pub node_key_expired : Bool
  pub auth_url : String
  pub error : String
  pub node_key_signature : Bytes
  pub user : Option User

-- `tailcfg.RegisterResponse{}`.
abbrev pub empty_response : RegisterResponse
empty_response = record {
  machine_authorized = false;
  node_key_expired = false;
  auth_url = "";
  error = "";
  node_key_signature = [];
  user = none;
}

-- domain.RegistrationRequest; `request` is its field Data.
pub record RegistrationRequest : Type 0 where
  pub machine_key : String
  pub key : String
  pub request : RegisterRequest
  pub created_at : ℕ
  pub authenticated : Bool
  pub error : String
  pub user_id : ℕ

-- What a handler needs from outside: the time, the next id, the random key and the random number
-- that it draws, and what it calls of the server's configuration and of the libraries; `tag_errors` is the
-- text of the error that names some tags.
pub record Env : Type 0 where
  pub now : ℕ
  pub next_id : ℕ
  pub random_key : String
  pub random_number : ℕ
  pub create_url : String → String
  pub sanitize_hostname : String → String
  pub machine_key_expiry : ℕ
  pub compare_hash : String → String → Bool
  pub range : Range
  pub tag_errors : List String → String

-- What becomes of a request: a reply with what it leaves, an error or a panic, or no reply: a search that
-- does not end, or a wait whose connection is closed.
pub data Outcome {ℓ} (A : Type ℓ) : Type ℓ where
  replied : RegisterResponse → A → Outcome A
  fails : Outcome A
  hangs : Outcome A

abbrev pub supported_capability_version : ℕ
supported_capability_version = 68

abbrev pub unsupported_client_version_message : String
unsupported_client_version_message =
    "ionscale only support client version >= 1.48.0, please upgrade your client"
