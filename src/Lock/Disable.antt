-- ===== src/Lock/Disable.antt =====
-- internal/handlers/tka.go: what follows the shutdown of a tailnet's lock.
use ionskale.Prelude.{String, List, [], true, false, ◌≡◌, refl, subst, sym, All}
use ionskale.Machine.{Bytes, Machine}
use ionskale.Lock.Db.{Db, get_lock, save_lock, notify_all}
use ionskale.Lock.Tka.{TkaLib, ok, http, ◌>>=◌}
use ionskale.Lock.Handlers.{
  caller, open_authority, bootstrap_response, bootstrap_handler, sync_send, disable,
  submit_signature,
}
use ionskale.Lock.Requests.{Request, run}
use ionskale.Lock.Stopped.{IsStopped, IsOff, IsNoFinish, run-IsOff}
use ionskale.Lock.Ensures.{get_lock-save_lock, Ensures, >>=-Ensures, ok-Ensures}

module _ (tka : TkaLib) (machine_key : String) (node_key : String) where
  abbrev pub Refused : Db → Type 0
  Refused db =
      ((missing : List Bytes) → sync_send tka machine_key db node_key missing ≡ http 400)
      × ((signature : Bytes) → submit_signature tka machine_key db node_key signature ≡ http 400)
      × ((again : Bytes) → disable tka machine_key db node_key again ≡ http 400)

  inactive-Refused :
      (db : Db) (m : Machine)
      → caller tka machine_key db node_key ≡ ok m
      → (get_lock db m.tailnet_id).enabled ≡ false
      → Refused db
  unfolding disable sync_send submit_signature ◌>>=◌ open_authority
  inactive-Refused db m e off = (
    (λ missing. rw e (rw off refl)),
    (λ signature. rw e (rw off refl)),
    (λ again. rw e (rw off refl)),
  )

  -- What a client that sees the lock shut down is answered.
  abbrev pub Released : Bytes → Db → Type 0
  Released secret db =
      bootstrap_handler tka machine_key db node_key
      ≡ ok (record { genesis_aum = []; disablement_secret = secret })

  inactive-Released :
      (db : Db) (m : Machine)
      → caller tka machine_key db node_key ≡ ok m
      → (get_lock db m.tailnet_id).enabled ≡ false
      → (get_lock db m.tailnet_id).disabled ≡ true
      → Released (get_lock db m.tailnet_id).disablement_secret db
  unfolding bootstrap_handler ◌>>=◌ bootstrap_response
  inactive-Released db m e off gone = rw e (rw off (rw gone refl))

  -- What `Disable` leaves.
  pub disable-IsOff :
      (db : Db) (m : Machine) (secret : Bytes)
      → caller tka machine_key db node_key ≡ ok m
      → Ensures (IsOff m.tailnet_id secret) (disable tka machine_key db node_key secret)
  unfolding disable
  disable-IsOff db m secret e = >>=-Ensures _ _ _ λ n f. >>=-Ensures _ _ _ λ a _.
      >>=-Ensures _ _ _ λ u _.
        let same : n ≡ m = cc in
        let stopped = record (get_lock db n.tailnet_id) {
          enabled = false;
          disabled = true;
          disablement_secret = secret;
        } in
        let left = notify_all (save_lock db n.tailnet_id stopped) n.tailnet_id in
        ok-Ensures (IsOff m.tailnet_id secret) left (
          subst (λ x. IsOff x.tailnet_id secret left) same
            (subst (IsStopped secret) (sym (get_lock-save_lock db n.tailnet_id stopped))
              (record { off = refl; gone = refl; revealed = refl })))

-- A node shuts down the lock of its tailnet, and any requests of any nodes follow, none of which
-- finishes a new initialization. Then each node of the tailnet that bootstraps is handed the secret
-- that was submitted, and no genesis message, and its `SyncSend`, `SubmitSignature` and `Disable`
-- are refused with status 400.
pub disable-Released :
    (tka : TkaLib) (machine_key node_key : String) (db : Db) (m : Machine) (secret : Bytes)
    (db' : Db) (requests : List (String × Request)) (other_machine_key other_node_key : String)
    (n : Machine)
    → caller tka machine_key db node_key ≡ ok m
    → disable tka machine_key db node_key secret ≡ ok db'
    → All (λ r. IsNoFinish r.1) requests
    → caller tka other_machine_key (run tka db' requests) other_node_key ≡ ok n
    → n.tailnet_id ≡ m.tailnet_id
    → Released tka other_machine_key other_node_key secret (run tka db' requests)
      × Refused tka other_machine_key other_node_key (run tka db' requests)
disable-Released tka machine_key node_key db m secret db' requests other_machine_key other_node_key
      n e stops unfinished f same =
    let left = run tka db' requests in
    let is_off =
      run-IsOff tka m.tailnet_id secret db' requests
        ((disable-IsOff tka machine_key node_key db m secret e).holds db' stops) unfinished in
    let here : IsOff n.tailnet_id secret left =
      subst (λ t. IsOff t secret left) (sym same) is_off in
    (
      (subst (λ s. Released tka other_machine_key other_node_key s left) here.revealed
          (inactive-Released tka other_machine_key other_node_key left n f here.off here.gone)),
      (inactive-Refused tka other_machine_key other_node_key left n f here.off),
    )
