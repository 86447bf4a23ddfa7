-- ===== src/Lock/Invariant.antt =====
-- internal/handlers/tka.go: what holds of a tailnet's lock after any history of requests.
use ionskale.Prelude.{
  ◌&&◌, ◌||◌, ℕ, String, List, [], true, false, not, ◌≡◌, refl, subst, sym, ◌==◌, inl, inr, ◌∷◌,
  str_eq, arith, is_empty, Bool-cases,
}
use ionskale.Machine.{Bytes, Machine}
use ionskale.Lock.Chonk.{Chonk}
use ionskale.Lock.Db.{LockState, Db, get_lock, no_lock, save_lock, delete_lock, save_machine}
use ionskale.Lock.Tka.{TkaLib, Reply, ok, http, failure}
use ionskale.Lock.Ensures.{Ensures, >>=-Ensures, ok-Ensures, require-true}
use ionskale.Lock.Requests.{Request, begins, finishes, sends, disables, submits, after, serve, run}
use ionskale.Lock.Handlers.{
  init_begin, init_finish, activate, save_machines, sync_send, disable, submit_signature,
  apply_aums, store_head,
}

-- The lock is not both active and shut down, an initialization is pending only while it is not
-- active, and an active lock has no stale disablement secret.
pub record IsConsistent (s : LockState) : Type 0 where
  pub exclusive : not (s.enabled && s.disabled) ≡ true
  pub settled : (not s.enabled || is_empty s.pending_genesis) ≡ true
  pub unrevealed : (not s.enabled || is_empty s.disablement_secret) ≡ true

abbrev pub AllConsistent : Db → Type 0
AllConsistent db = (t : ℕ) → IsConsistent (db.locks t)

pub no_lock-IsConsistent : IsConsistent no_lock
no_lock-IsConsistent = ground arith

save_lock-AllConsistent :
    (db : Db) (t : ℕ) (s : LockState)
    → AllConsistent db
    → IsConsistent s
    → AllConsistent (save_lock db t s)
unfolding save_lock
save_lock-AllConsistent db t s h c u = elim (Bool-cases (t == u)) [
  | inl e ↦ rw e c
  | inr e ↦ rw e (h u)
]

save_machines-locks : (db : Db) (ms : List Machine) → (save_machines db ms).locks ≡ db.locks
unfolding save_machines save_machine
save_machines-locks db [] = refl
save_machines-locks db (m ∷ ms) = save_machines-locks (save_machine db m) ms

headed : {s : LockState} {h : String} → IsConsistent s → IsConsistent (record s { head = h })
headed c = record { exclusive = c.exclusive; settled = c.settled; unrevealed = c.unrevealed }

grown : {s : LockState} {k : Chonk} → IsConsistent s → IsConsistent (record s { chonk = k })
grown c = record { exclusive = c.exclusive; settled = c.settled; unrevealed = c.unrevealed }

begun :
    {s : LockState} {g : Bytes}
    → IsConsistent s
    → not s.enabled ≡ true
    → IsConsistent (record s { pending_genesis = g })
begun c off = record { exclusive = c.exclusive; settled = ground arith; unrevealed = c.unrevealed }

stopped :
    (s : LockState) (secret : Bytes)
    → IsConsistent (record s { enabled = false; disabled = true; disablement_secret = secret })
stopped s secret = record {
  exclusive = ground arith;
  settled = ground arith;
  unrevealed = ground arith;
}

started :
    (s : LockState) (h : String) (support : Bytes)
    → IsConsistent (record s {
      enabled = true;
      disabled = false;
      head = h;
      pending_genesis = [];
      disablement_secret = [];
      support_disablement = support;
    })
started s h support = record { exclusive = refl; settled = refl; unrevealed = refl }

store_head-AllConsistent :
    (tka : TkaLib) (machine_key : String) (db : Db) (t : ℕ) (authority : tka.Authority)
    → AllConsistent db
    → AllConsistent (store_head tka machine_key db t authority)
unfolding store_head
store_head-AllConsistent tka machine_key db t authority inv u =
    elim (Bool-cases (str_eq (get_lock db t).head (tka.head authority))) [
      | inl e ↦ rw e (inv u)
      | inr e ↦ rw e (save_lock-AllConsistent db t _ inv (headed (inv t)) u)
    ]

module _ (tka : TkaLib) (machine_key : String) (db : Db) (inv : AllConsistent db) where
  init_begin-AllConsistent :
      (node_key : String) (genesis : Bytes)
      → Ensures (λ r. AllConsistent r.1) (init_begin tka machine_key db node_key genesis)
  unfolding init_begin
  init_begin-AllConsistent node_key genesis = >>=-Ensures _ _ _ λ m _. >>=-Ensures _ _ _ λ _ _.
      >>=-Ensures _ _ _ λ u off. >>=-Ensures _ _ _ λ g _. >>=-Ensures _ _ _ λ b _.
        >>=-Ensures _ _ _ λ infos _. ok-Ensures _ _ (
          save_lock-AllConsistent db m.tailnet_id _ inv
            (begun (inv m.tailnet_id) (require-true _ _ _ off)))

  activate-AllConsistent :
      (t : ℕ) (genesis : tka.Aum) (signed : List Machine) (support : Bytes)
      → Ensures AllConsistent (activate tka machine_key db t genesis signed support)
  unfolding activate
  activate-AllConsistent t genesis signed support = >>=-Ensures _ _ _ λ b _.
      let fresh = delete_lock db t in
      let stored = save_lock fresh t (record (get_lock fresh t) { chonk = b.1 }) in
      let saved = save_machines stored signed in
      let cleared = save_lock-AllConsistent db t no_lock inv no_lock-IsConsistent in
      ok-Ensures _ _ (
        save_lock-AllConsistent saved t _
          (λ u.
            subst (λ locks. IsConsistent (locks u)) (sym (save_machines-locks stored signed))
              (save_lock-AllConsistent fresh t _ cleared (grown (cleared t)) u))
          (started (get_lock saved t) _ support))

  init_finish-AllConsistent :
      (node_key : String) (signatures : List (ℕ × Bytes)) (support : Bytes)
      → Ensures AllConsistent (init_finish tka machine_key db node_key signatures support)
  unfolding init_finish
  init_finish-AllConsistent node_key signatures support = >>=-Ensures _ _ _ λ m _.
      >>=-Ensures _ _ _ λ _ _. >>=-Ensures _ _ _ λ _ _. >>=-Ensures _ _ _ λ _ _.
        >>=-Ensures _ _ _ λ g _. >>=-Ensures _ _ _ λ b _. >>=-Ensures _ _ _ λ signed _.
          >>=-Ensures _ _ _ λ done e.
            ok-Ensures _ _ ((activate-AllConsistent m.tailnet_id g signed support).holds done e)

  apply_aums-AllConsistent :
      (t : ℕ) (a : tka.Authority) (missing : List Bytes)
      → Ensures (λ r. AllConsistent r.1) (apply_aums tka machine_key db t a missing)
  unfolding apply_aums
  apply_aums-AllConsistent t a missing = >>=-Ensures _ _ _ λ us _. >>=-Ensures _ _ _ λ b _.
      ok-Ensures _ _ (
        store_head-AllConsistent tka machine_key _ t _
          (save_lock-AllConsistent db t _ inv (grown (inv t))))

  sync_send-AllConsistent :
      (node_key : String) (missing : List Bytes)
      → Ensures (λ r. AllConsistent r.1) (sync_send tka machine_key db node_key missing)
  unfolding sync_send
  sync_send-AllConsistent node_key missing = >>=-Ensures _ _ _ λ m _. >>=-Ensures _ _ _ λ a _.
      elim (Bool-cases (is_empty missing)) [
        | inl e ↦ rw e (ok-Ensures _ _ inv)
        | inr e ↦ rw e (apply_aums-AllConsistent m.tailnet_id a missing)
      ]

  disable-AllConsistent :
      (node_key : String) (secret : Bytes)
      → Ensures AllConsistent (disable tka machine_key db node_key secret)
  unfolding disable
  disable-AllConsistent node_key secret = >>=-Ensures _ _ _ λ m _. >>=-Ensures _ _ _ λ a _.
      >>=-Ensures _ _ _ λ u _.
        ok-Ensures _ _ (
          save_lock-AllConsistent db m.tailnet_id _ inv (stopped (get_lock db m.tailnet_id) secret))

  submit_signature-AllConsistent :
      (node_key : String) (signature : Bytes)
      → Ensures AllConsistent (submit_signature tka machine_key db node_key signature)
  unfolding submit_signature
  submit_signature-AllConsistent node_key signature = >>=-Ensures _ _ _ λ m _.
      >>=-Ensures _ _ _ λ a _.
        >>=-Ensures _ _ _
          λ key _. >>=-Ensures _ _ _ λ _ _. >>=-Ensures _ _ _ λ n _. ok-Ensures _ _ inv

after-AllConsistent {ℓ} :
    {A : Type ℓ} (db : Db) (f : A → Db) (r : Reply A)
    → AllConsistent db
    → Ensures (λ a. AllConsistent (f a)) r
    → AllConsistent (after db f r)
after-AllConsistent db f (ok a) inv e = e.holds a refl
after-AllConsistent db f (http code) inv e = inv
after-AllConsistent db f failure inv e = inv

serve-AllConsistent :
    (tka : TkaLib) (db : Db) (r : String × Request)
    → AllConsistent db
    → AllConsistent (serve tka db r)
unfolding serve
serve-AllConsistent tka db (key, begins node_key genesis) inv =
    after-AllConsistent db _ _ inv (init_begin-AllConsistent tka key db inv node_key genesis)
serve-AllConsistent tka db (key, finishes node_key signatures support) inv =
    after-AllConsistent db _ _ inv
      (init_finish-AllConsistent tka key db inv node_key signatures support)
serve-AllConsistent tka db (key, sends node_key missing) inv =
    after-AllConsistent db _ _ inv (sync_send-AllConsistent tka key db inv node_key missing)
serve-AllConsistent tka db (key, disables node_key secret) inv =
    after-AllConsistent db _ _ inv (disable-AllConsistent tka key db inv node_key secret)
serve-AllConsistent tka db (key, submits node_key signature) inv =
    after-AllConsistent db _ _ inv
      (submit_signature-AllConsistent tka key db inv node_key signature)

-- Whatever requests change the locks, and whichever of them are refused: where the lock of each
-- tailnet was consistent before, it is so afterwards. No lock is both active and shut down, and an
-- active lock has neither a pending initialization nor a disablement secret that clients are served.
pub run-AllConsistent :
    (tka : TkaLib) (db : Db) (requests : List (String × Request))
    → AllConsistent db
    → AllConsistent (run tka db requests)
unfolding run
run-AllConsistent tka db [] inv = inv
run-AllConsistent tka db (r ∷ rs) inv =
    run-AllConsistent tka (serve tka db r) rs (serve-AllConsistent tka db r inv)
