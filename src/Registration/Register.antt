-- ===== src/Registration/Register.antt =====
-- internal/handlers/registration.go: Register as a whole.
use ionskale.Prelude.{ℕ, String, List, false, not, Option, none, some, ltb, str_eq, if◌then◌else◌}
use ionskale.Netip.{AddrText}
use ionskale.Machine.{Bytes, Machine, User}
use ionskale.Identity.{Keys}
use ionskale.Lock.Tka.{TkaLib}
use ionskale.Lock.Db.{Db, get_machine_by_keys}
use ionskale.Lock.Registration.{tailnet_lock_rotation_signature}
use ionskale.Registration.{
  RegisterRequest, lock_request, empty_response, RegistrationRequest, Env, Outcome, replied, fails,
  hangs, supported_capability_version, unsupported_client_version_message,
}
use ionskale.Registration.Handlers.{
  register_known, authenticate_machine_with_auth_key, save_registration_request,
}
use ionskale.Registration.Followup.{Round, answers, waits, panics, followup}

-- The rows that a registration reads and writes.
pub record Rows : Type 0 where
  pub db : Db
  pub keys : Keys
  pub requests : List RegistrationRequest

abbrev pub with_db : Rows → Outcome Db → Outcome Rows
with_db rows (replied r db) = replied r (record rows { db = db })
with_db rows fails = fails
with_db rows hangs = hangs

abbrev pub of_round : Rows → Round → Outcome Rows
of_round rows (answers r) = replied r rows
of_round rows waits = hangs
of_round rows panics = fails

module _ (tka : TkaLib) (env : Env) (machine_key : String) (net : AddrText) where
  open env use {now, random_key, create_url}

  -- `found` are the users, and the rows of the machine key at the ticks of a wait.
  unfoldable pub authenticate_machine :
      (ℕ → Option User) → List (Option RegistrationRequest) → Rows → RegisterRequest → Outcome Rows
  unfolding followup save_registration_request authenticate_machine_with_auth_key
  authenticate_machine get_user ticks rows req =
      if not (str_eq req.followup "")
      then of_round rows (followup get_user ticks)
      else if str_eq req.auth_key ""
      then (let request : RegistrationRequest = record {
        machine_key = machine_key;
        key = random_key;
        request = req;
        created_at = now;
        authenticated = false;
        error = "";
        user_id = 0;
      } in
          replied (record empty_response { auth_url = create_url random_key })
            (record rows { requests = save_registration_request rows.requests request }))
      else with_db rows
          (authenticate_machine_with_auth_key tka env machine_key net rows.db rows.keys req)

  abbrev pub register_unknown :
      (ℕ → Option User)
      → List (Option RegistrationRequest)
      → Rows
      → RegisterRequest
      → Option Bytes
      → Outcome Rows
  register_unknown get_user ticks rows req none = authenticate_machine get_user ticks rows req
  register_unknown get_user ticks rows req (some sig) =
      replied (record empty_response { node_key_signature = sig }) rows

  abbrev pub register_by :
      (ℕ → Option User)
      → List (Option RegistrationRequest)
      → Rows
      → RegisterRequest
      → Option Machine
      → Outcome Rows
  register_by get_user ticks rows req (some m) =
      let (r, db) = register_known tka env machine_key rows.db req m in
      replied r (record rows { db = db })
  register_by get_user ticks rows req none =
      register_unknown get_user ticks rows req
        (tailnet_lock_rotation_signature tka rows.db machine_key (lock_request req))

  unfoldable pub register :
      (ℕ → Option User) → List (Option RegistrationRequest) → Rows → RegisterRequest → Outcome Rows
  unfolding get_machine_by_keys register_known tailnet_lock_rotation_signature authenticate_machine
  register get_user ticks rows req =
      if ltb req.version supported_capability_version
      then replied (record empty_response { error = unsupported_client_version_message }) rows
      else register_by get_user ticks rows req
          (get_machine_by_keys rows.db machine_key req.node_key)
