-- ===== src/Lock/Tka.antt =====
-- internal/handlers/tka.go: the part of tailscale.com that the handlers of the tailnet lock call,
-- their results, and the messages that they answer with.
use ionskale.Prelude.{ℕ, String, List, Bool, true, false, Option, none, some}
use ionskale.Machine.{Bytes}
use ionskale.Lock.Chonk.{Chonk}

-- tailscale.com/tka and tailscale.com/types/key. A function that returns an error in Go is `none` there;
-- keys and hashes are their texts.
-- `rotation_key` gives no bytes for a text that is no key, and `missing_aums` no messages where the
-- two histories do not meet; `signing_key_id` is the decoding of a signature and the reading of its
-- key in one.
pub record TkaLib : Type 1 where
  pub Aum : Type 0
  pub Authority : Type 0
  pub parse_aum : Bytes → Option Aum
  pub bootstrap : Chonk → Aum → Option (Authority × Chonk)
  pub open_chonk : Chonk → Option Authority
  pub inform : Authority → Chonk → List Aum → Option (Authority × Chonk)
  pub head : Authority → String
  pub node_key_authorized : Authority → String → Bytes → Bool
  pub valid_disablement : Authority → Bytes → Bool
  pub is_node_key : String → Bool
  pub rotation_key : String → Bytes
  pub signed_key : Bytes → Option String
  pub signing_key_id : Bytes → Option Bytes
  pub sync_offer : Authority → Chonk → Option (String × List String)
  pub parse_offer : String → List String → Bool
  pub missing_aums : Authority → Chonk → String → List String → Option (List Bytes)

-- What a handler returns: a response, an HTTP error, or any other error.
pub data Reply {ℓ} (A : Type ℓ) : Type ℓ where
  ok : A → Reply A
  http : ℕ → Reply A
  failure : Reply A

infixl 5 ◌>>=◌
unfoldable pub ◌>>=◌ {ℓ κ} : {A : Type ℓ} {B : Type κ} → Reply A → (A → Reply B) → Reply B
ok a >>= f = f a
http code >>= f = http code
failure >>= f = failure

abbrev pub require : Bool → ℕ → Reply (Unit {0})
require true code = ok tt
require false code = http code

infixl 5 ◌>>◌
abbrev pub ◌>>◌ {ℓ} : {B : Type ℓ} → Reply (Unit {0}) → Reply B → Reply B
m >> k = m >>= λ _. k

abbrev pub or_http {ℓ} : {A : Type ℓ} → Option A → ℕ → Reply A
or_http none code = http code
or_http (some a) code = ok a

abbrev pub or_failure {ℓ} : {A : Type ℓ} → Option A → Reply A
or_failure none = failure
or_failure (some a) = ok a

-- tailcfg.TKASignInfo.
pub record SignInfo : Type 0 where
  pub node_id : ℕ
  pub node_public : String
  pub rotation_pubkey : Bytes

-- tailcfg.TKABootstrapResponse.
pub record BootstrapResponse : Type 0 where
  pub genesis_aum : Bytes
  pub disablement_secret : Bytes

-- tailcfg.TKASyncOfferResponse.
pub record SyncOfferResponse : Type 0 where
  pub head : String
  pub ancestors : List String
  pub missing_aums : List Bytes
