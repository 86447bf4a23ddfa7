-- ===== src/SignIn.antt =====
-- internal/handlers/authentication.go and session.go: the sign-in with an identity provider. The
-- clock, ids and random values, the provider, the evaluator of filters, and the sealing of a value
-- (JSON, nacl's box and base58) are fields of `Site`. The constructors of a reply are what a handler
-- of echo returns.
pub mod Sessions
pub mod Access
pub mod Boundary
pub mod Denial
pub mod Roles
pub mod Finish
pub mod Handlers
pub mod Adds
pub mod Granted
pub mod Ending
pub mod NoPage
pub mod Choice
pub mod Owner
use ionskale.Prelude.{
  ℕ, ◌*◌, ◌^◌, String, List, Bool, true, false, not, ◌||◌, Option, none, some, str_eq, ltb, ◌==◌,
  if◌then◌else◌,
}
use ionskale.Iam.{IamPolicy, Verdict}
use ionskale.Netip.{AddrText}
use ionskale.Machine.{Bytes, Tailnet}
use ionskale.Lock.Tka.{TkaLib}
use ionskale.Registration.{Env}

abbrev pub machine_registration : String
machine_registration = "r"

abbrev pub client : String
client = "c"

abbrev pub ssh_check_flow : String
ssh_check_flow = "s"

-- oauthState.
pub record OauthState : Type 0 where
  pub key : String
  pub flow : String
  pub expires_at : ℕ
  pub nonce : String
  pub code_verifier : String

-- authSession, but for its list of admin tailnets, which nothing sets or reads.
pub record AuthSession : Type 0 where
  pub flow : String
  pub key : String
  pub account_id : ℕ
  pub system_admin : Bool
  pub tailnet_ids : List ℕ
  pub expires_at : ℕ

-- AuthInput and EndAuthForm.
pub record AuthInput : Type 0 where
  pub key : String
  pub flow : String
  pub auth_key : String
  pub oidc : Bool

pub record EndAuthForm : Type 0 where
  pub account_id : ℕ
  pub tailnet_id : ℕ
  pub as_system_admin : Bool
  pub auth_key : String
  pub state : String
  pub session : String

-- auth.User.
pub record AuthUser {ℓ} (Attr : Type ℓ) : Type ℓ where
  pub id : String
  pub name : String
  pub username : String
  pub org : String
  pub roles : List String
  pub attr : Attr

unfoldable pub login_name {ℓ} : {Attr : Type ℓ} → AuthUser Attr → String
login_name u = if not (str_eq u.username "") then u.username else u.name

-- What the provider's exchange of a code gives.
pub data Exchanged {ℓ} (Attr : Type ℓ) : Type ℓ where
  identified : AuthUser Attr → Exchanged Attr
  organization_required : Exchanged Attr
  refused : Exchanged Attr

-- config.Organizations.
pub record Organizations : Type 0 where
  pub claim : String
  pub roles_claim : String
  pub admin_roles : List String

unfoldable pub enabled : Organizations → Bool
enabled o = not (str_eq o.claim "")

-- An authorization is asked of the provider with a redirect address, a state, a nonce and a code
-- verifier.
pub record Provider {ℓ} (Attr : Type ℓ) : Type ℓ where
  pub get_login_url : String → String → String → String → String
  pub exchange : String → String → String → String → Exchanged Attr

-- Sealing: each value is written as JSON, sealed with the server's key and written in base58.
pub record SealLib : Type 0 where
  pub marshal_state : OauthState → Bytes
  pub unmarshal_state : Bytes → Option OauthState
  pub marshal_session : AuthSession → Bytes
  pub unmarshal_session : Bytes → Option AuthSession
  pub seal : Bytes → Bytes
  pub open_sealed : Bytes → Option Bytes
  pub base58_encoding : Bytes → String
  pub base58_decoding : String → Option Bytes

-- `env` is what a registration needs. `now` is its time, `next_id` its next id, and the other ids are those of
-- an account, of a user and of a key.
pub record Site (Attr : Type 0) : Type 1 where
  pub tka : TkaLib
  pub env : Env
  pub net : AddrText
  pub sealing : SealLib
  pub evaluate : String → Attr → Verdict
  pub system_policy : IamPolicy
  pub organizations : Organizations
  pub provider : Option (Provider Attr)
  pub create_url : String → String
  pub generate_hash : String → Option String
  pub account_id : ℕ
  pub user_id : ℕ
  pub nonce : String
  pub code_verifier : String
  pub key_draws : List ℕ
  pub pwd_draws : List ℕ

-- What a handler shows: the chooser of a login, the choice of a tailnet with its sealed session, or
-- a page that only tells something.
pub data Page : Type 0 where
  auth_page : Page
  tailnets_page : String → Bool → List Tailnet → Page

-- A redirect, a page, an HTTP error, an error, nothing (a nil error), a panic, or a search for an address
-- that does not end.
pub data Reply : Type 0 where
  redirect : String → Reply
  render : Page → Reply
  http : ℕ → Reply
  error : Reply
  nothing : Reply
  crashed : Reply
  hangs : Reply

-- A quarter of an hour.
abbrev pub auth_session_lifetime : ℕ
auth_session_lifetime = 15 * 60 * 10 ^ 9

-- `t.IsZero() || time.Now().After(t)`.
unfoldable pub is_over : ℕ → ℕ → Bool
is_over now t = t == 0 || ltb t now
