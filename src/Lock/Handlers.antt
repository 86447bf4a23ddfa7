-- ===== src/Lock/Handlers.antt =====
-- internal/handlers/tka.go: the handlers of the tailnet lock, with what they return and the database
-- that they leave. A query of the database succeeds.
use ionskale.Prelude.{
  ℕ, String, List, [], ◌∷◌, Bool, true, false, not, ◌&&◌, Option, none, some, ◌==◌, str_eq, keep,
  is_empty, if◌then◌else◌,
}
use ionskale.Machine.{Bytes, Machine}
use ionskale.Lock.Chonk.{empty_chonk, aum, last_active_ancestor}
use ionskale.Lock.Db.{
  LockState, Db, get_lock, save_lock, delete_lock, save_machine, get_machine_by_keys,
  get_machine_by_node_key, list_machine_by_tailnet, list_machine_key_signatures_by_tailnet,
  notify_all,
}
use ionskale.Lock.Tka.{
  TkaLib, Reply, ok, http, ◌>>=◌, require, ◌>>◌, or_http, or_failure, SignInfo, BootstrapResponse,
  SyncOfferResponse,
}

abbrev pub signature_of : List (ℕ × Bytes) → ℕ → Option Bytes
signature_of [] id = none
signature_of ((i, sig) ∷ rest) id = if i == id then some sig else signature_of rest id

-- `bytes.Equal`.
same_bytes : Bytes → Bytes → Bool
same_bytes [] [] = true
same_bytes (a ∷ xs) (b ∷ ys) = a == b && same_bytes xs ys
same_bytes _ _ = false

unfoldable pub save_machines : Db → List Machine → Db
unfolding save_machine
save_machines db [] = db
save_machines db (m ∷ ms) = save_machines (save_machine db m) ms

unfoldable pub bootstrap_response : LockState → Reply BootstrapResponse
unfolding last_active_ancestor aum
bootstrap_response state =
    if state.enabled
    then (do
      ancestor ← or_failure (last_active_ancestor state.chonk)
      genesis ← or_failure (aum state.chonk ancestor)
      ok (record { genesis_aum = genesis; disablement_secret = [] }))
    else if state.disabled
    then ok (record { genesis_aum = []; disablement_secret = state.disablement_secret })
    else http 400

module _ (tka : TkaLib) (machine_key : String) where
  open tka use {
    Aum, Authority, parse_aum, bootstrap, open_chonk, inform, node_key_authorized,
    valid_disablement, is_node_key, rotation_key, signed_key, signing_key_id, sync_offer,
    parse_offer, missing_aums,
  }

  unfoldable pub caller : Db → String → Reply Machine
  unfolding get_machine_by_keys
  caller db node_key = or_http (get_machine_by_keys db machine_key node_key) 403

  unfoldable pub open_authority : Db → ℕ → Reply Authority
  unfolding get_lock
  open_authority db t = do
    require (get_lock db t).enabled 400
    or_failure (open_chonk (get_lock db t).chonk)

  -- The nodes that have to be signed, in the order of the rows.
  abbrev sign_infos : List Machine → Reply (List SignInfo)
  sign_infos [] = ok []
  sign_infos (m ∷ ms) = do
    node_public ← or_failure (if is_node_key m.node_key then some m.node_key else none)
    rest ← sign_infos ms
    ok (
        record {
          node_id = m.id;
          node_public = node_public;
          rotation_pubkey = if str_eq m.nl_key "" then [] else rotation_key m.nl_key;
        }
        ∷ rest)

  unfoldable pub init_begin : Db → String → Bytes → Reply (List SignInfo × Db)
  unfolding caller get_lock list_machine_by_tailnet save_lock
  init_begin db node_key genesis_aum = do
    m ← caller db node_key
    require m.tailnet.tailnet_lock_enabled 403
    let state = get_lock db m.tailnet_id
    require (not state.enabled) 400
    genesis ← or_http (parse_aum genesis_aum) 400
    _ ← or_http (bootstrap empty_chonk genesis) 400
    infos ← sign_infos (list_machine_by_tailnet db m.tailnet_id)
    ok (infos, save_lock db m.tailnet_id (record state { pending_genesis = genesis_aum }))

  -- The loop that collects the signatures: each machine with the signature that it gets.
  unfoldable pub signed_machines :
      Authority → List (ℕ × Bytes) → List Machine → Reply (List Machine)
  signed_machines authority signatures [] = ok []
  signed_machines authority signatures (m ∷ ms) = do
    sig ← or_http (signature_of signatures m.id) 400
    node_key ← or_failure (if is_node_key m.node_key then some m.node_key else none)
    require (node_key_authorized authority node_key sig) 400
    rest ← signed_machines authority signatures ms
    ok (record m { key_signature = sig } ∷ rest)

  -- The transaction: the old rows go, the authority is set up anew, and the machines are saved.
  unfoldable pub activate : Db → ℕ → Aum → List Machine → Bytes → Reply Db
  unfolding delete_lock save_machines save_lock get_lock
  activate db t genesis signed support = do
    (authority, chonk) ← or_failure (bootstrap (get_lock (delete_lock db t) t).chonk genesis)
    let cleared = delete_lock db t
    let stored = save_lock cleared t (record (get_lock cleared t) { chonk = chonk })
    let saved = save_machines stored signed
    ok (
        save_lock saved t (record (get_lock saved t) {
          enabled = true;
          disabled = false;
          head = tka.head authority;
          pending_genesis = [];
          disablement_secret = [];
          support_disablement = support;
        }))

  unfoldable pub init_finish : Db → String → List (ℕ × Bytes) → Bytes → Reply Db
  unfolding caller get_lock list_machine_by_tailnet signed_machines activate notify_all
  init_finish db node_key signatures support = do
    m ← caller db node_key
    require m.tailnet.tailnet_lock_enabled 403
    let state = get_lock db m.tailnet_id
    require (not state.enabled) 400
    require (not (is_empty state.pending_genesis)) 400
    genesis ← or_failure (parse_aum state.pending_genesis)
    (authority, _) ← or_failure (bootstrap empty_chonk genesis)
    signed ← signed_machines authority signatures (list_machine_by_tailnet db m.tailnet_id)
    done ← activate db m.tailnet_id genesis signed support
    ok (notify_all done m.tailnet_id)

  unfoldable pub bootstrap_handler : Db → String → Reply BootstrapResponse
  unfolding caller get_lock bootstrap_response
  bootstrap_handler db node_key = do
    m ← caller db node_key
    bootstrap_response (get_lock db m.tailnet_id)

  unfoldable pub sync_offer_handler : Db → String → String → List String → Reply SyncOfferResponse
  unfolding caller open_authority get_lock
  sync_offer_handler db node_key offer_head ancestors = do
    m ← caller db node_key
    authority ← open_authority db m.tailnet_id
    let chonk = (get_lock db m.tailnet_id).chonk
    (own_head, own_ancestors) ← or_failure (sync_offer authority chonk)
    require (parse_offer offer_head ancestors) 400
    missing ← or_failure (missing_aums authority chonk offer_head ancestors)
    ok (record { head = own_head; ancestors = own_ancestors; missing_aums = missing })

  abbrev parse_aums : List Bytes → Reply (List Aum)
  parse_aums [] = ok []
  parse_aums (raw ∷ raws) = do
    one ← or_http (parse_aum raw) 400
    rest ← parse_aums raws
    ok (one ∷ rest)

  -- The new head is stored, and the clients are told, only if it differs.
  unfoldable pub store_head : Db → ℕ → Authority → Db
  unfolding get_lock save_lock notify_all
  store_head db t authority =
      let state = get_lock db t in
      if str_eq state.head (tka.head authority)
      then db
      else notify_all (save_lock db t (record state { head = tka.head authority })) t

  -- The branch of `SyncSend` with messages.
  unfoldable pub apply_aums : Db → ℕ → Authority → List Bytes → Reply (String × Db)
  unfolding get_lock save_lock store_head
  apply_aums db t authority missing = do
    let state = get_lock db t
    updates ← parse_aums missing
    (informed, chonk) ← or_http (inform authority state.chonk updates) 400
    ok (tka.head informed, store_head (save_lock db t (record state { chonk = chonk })) t informed)

  unfoldable pub sync_send : Db → String → List Bytes → Reply (String × Db)
  unfolding caller open_authority apply_aums
  sync_send db node_key missing = do
    m ← caller db node_key
    authority ← open_authority db m.tailnet_id
    if is_empty missing
        then ok (tka.head authority, db)
        else apply_aums db m.tailnet_id authority missing

  unfoldable pub disable : Db → String → Bytes → Reply Db
  unfolding caller open_authority get_lock save_lock notify_all
  disable db node_key secret = do
    m ← caller db node_key
    authority ← open_authority db m.tailnet_id
    require (valid_disablement authority secret) 403
    let state = get_lock db m.tailnet_id
    ok (
        notify_all
          (save_lock db m.tailnet_id
            (record state { enabled = false; disabled = true; disablement_secret = secret }))
          m.tailnet_id)

  unfoldable pub submit_signature : Db → String → Bytes → Reply Db
  unfolding caller open_authority get_machine_by_node_key save_machine notify_all
  submit_signature db node_key signature = do
    m ← caller db node_key
    authority ← open_authority db m.tailnet_id
    target_key ← or_http (signed_key signature) 400
    require (node_key_authorized authority target_key signature) 400
    target ← or_http (get_machine_by_node_key db m.tailnet_id target_key) 404
    ok (notify_all (save_machine db (record target { key_signature = signature })) m.tailnet_id)

  abbrev uses_key : Bytes → Option Bytes → Bool
  uses_key key_id none = false
  uses_key key_id (some id) = same_bytes id key_id

  unfoldable pub affected_sigs : Db → String → Bytes → Reply (List Bytes)
  unfolding caller list_machine_key_signatures_by_tailnet same_bytes
  affected_sigs db node_key key_id = do
    m ← caller db node_key
    ok (
        keep (λ raw. uses_key key_id (signing_key_id raw))
          (list_machine_key_signatures_by_tailnet db m.tailnet_id))
