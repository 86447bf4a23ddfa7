-- ===== src/SignIn/Sessions.antt =====
-- internal/handlers/session.go, and `createState`, `readState` and `createSession` of
-- authentication.go: what travels through the browser is sealed.
use ionskale.Prelude.{
  ℕ, ◌+◌, String, List, any, map, Bool, Option, none, some, ◌==◌, str_eq, if◌then◌else◌,
}
use ionskale.Prelude.Options.{◌>>=◌}
use ionskale.Machine.{Tailnet}
use ionskale.SignIn.{Site, SealLib, OauthState, AuthSession, auth_session_lifetime, is_over}

unfoldable pub allows_tailnet : AuthSession → ℕ → Bool
allows_tailnet s id = any (λ t. t == id) s.tailnet_ids

module _ (lib : SealLib) where
  unfoldable pub seal_auth_session : AuthSession → String
  seal_auth_session s = lib.base58_encoding (lib.seal (lib.marshal_session s))

  abbrev live_session : ℕ → AuthSession → Option AuthSession
  live_session now s = if is_over now s.expires_at then none else some s

  unfoldable pub open_auth_session : ℕ → String → Option AuthSession
  unfolding is_over
  open_auth_session now raw = if str_eq raw "" then none else do
    decoded ← lib.base58_decoding raw
    plain ← lib.open_sealed decoded
    session ← lib.unmarshal_session plain
    live_session now session

  abbrev live_state : ℕ → OauthState → Option OauthState
  live_state now s = if is_over now s.expires_at then none else some s

  unfoldable pub read_state : ℕ → String → Option OauthState
  unfolding is_over
  read_state now s = do
    decoded ← lib.base58_decoding s
    plain ← lib.open_sealed decoded
    state ← lib.unmarshal_state plain
    live_state now state

module _ {Attr : Type 0} (site : Site Attr) where
  -- The state of a new authorization request, and its sealed text.
  unfoldable pub new_state : String → String → OauthState
  new_state flow key = record {
    key = key;
    flow = flow;
    expires_at = site.env.now + auth_session_lifetime;
    nonce = site.nonce;
    code_verifier = site.code_verifier;
  }

  unfoldable pub create_state : String → String → String
  unfolding new_state
  create_state flow key =
      site.sealing.base58_encoding
        (site.sealing.seal (site.sealing.marshal_state (new_state flow key)))

  unfoldable pub new_session : OauthState → ℕ → Bool → List Tailnet → AuthSession
  new_session state account_id is_system_admin tailnets = record {
    flow = state.flow;
    key = state.key;
    account_id = account_id;
    system_admin = is_system_admin;
    tailnet_ids = map (λ t. t.id) tailnets;
    expires_at = site.env.now + auth_session_lifetime;
  }

  unfoldable pub create_session : OauthState → ℕ → Bool → List Tailnet → String
  unfolding new_session seal_auth_session
  create_session state account_id is_system_admin tailnets =
      seal_auth_session site.sealing (new_session state account_id is_system_admin tailnets)
