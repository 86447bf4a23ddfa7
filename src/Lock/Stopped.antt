-- ===== src/Lock/Stopped.antt =====
-- internal/handlers/tka.go: a lock that was shut down stays so under the requests that follow,
-- until one of them finishes a new initialization.
use ionskale.Prelude.{
  ℕ, String, List, [], ◌∷◌, true, false, ◌≡◌, refl, sym, subst, ◌∙◌, ◌==◌, ==_iff, inl, inr, All,
  str_eq, is_empty, Bool-cases,
}
use ionskale.Machine.{Bytes}
use ionskale.Lock.Db.{LockState, Db, get_lock, save_lock, save_machine}
use ionskale.Lock.Tka.{TkaLib, Reply, ok, http, failure, ◌>>=◌}
use ionskale.Lock.Ensures.{Ensures, >>=-Ensures, ok-Ensures}
use ionskale.Lock.Requests.{Request, begins, finishes, sends, disables, submits, after, serve, run}
use ionskale.Lock.Handlers.{
  init_begin, sync_send, disable, submit_signature, open_authority, apply_aums, store_head,
}

-- The lock was shut down with this secret.
pub record IsStopped (secret : Bytes) (s : LockState) : Type 0 where
  pub off : s.enabled ≡ false
  pub gone : s.disabled ≡ true
  pub revealed : s.disablement_secret ≡ secret

abbrev pub IsOff : ℕ → Bytes → Db → Type 0
IsOff t secret db = IsStopped secret (get_lock db t)

-- The request is no InitFinish.
abbrev pub IsNoFinish : Request → Type 0
IsNoFinish (finishes node_key signatures support) = true ≡ false
IsNoFinish (begins node_key genesis) = Unit
IsNoFinish (sends node_key missing) = Unit
IsNoFinish (disables node_key secret) = Unit
IsNoFinish (submits node_key signature) = Unit

module _ (t : ℕ) (secret : Bytes) where
  save_lock-IsOff :
      (db : Db) (u : ℕ) (s : LockState)
      → IsOff t secret db
      → (u ≡ t → IsStopped secret s)
      → IsOff t secret (save_lock db u s)
  unfolding get_lock save_lock
  save_lock-IsOff db u s h f = elim (Bool-cases (u == t)) [
    | inl e ↦ rw e (f ((==_iff u t).0 e))
    | inr e ↦ rw e h
  ]

  -- The state that is read of the tailnet.
  at_same : (db : Db) (u : ℕ) → IsOff t secret db → u ≡ t → IsStopped secret (get_lock db u)
  at_same db u h e = subst (λ v. IsStopped secret (get_lock db v)) (sym e) h

-- An authority is opened for an active lock only.
opened_enabled :
    (tka : TkaLib) (key : String) (db : Db) (t : ℕ) (a : tka.Authority)
    → open_authority tka key db t ≡ ok a
    → (get_lock db t).enabled ≡ true
unfolding open_authority ◌>>=◌
opened_enabled tka key db t a h = elim (Bool-cases (get_lock db t).enabled) [
  | inl e ↦ e
  | inr e ↦ (let z : http 400 ≡ ok a = rw e at h in cc)
]

module _ (tka : TkaLib) (key : String) (t : ℕ) (secret : Bytes) (db : Db)
    (h : IsOff t secret db) where
  init_begin-IsOff :
      (node_key : String) (genesis : Bytes)
      → Ensures (λ r. IsOff t secret r.1) (init_begin tka key db node_key genesis)
  unfolding init_begin
  init_begin-IsOff node_key genesis = >>=-Ensures _ _ _ λ m _. >>=-Ensures _ _ _ λ _ _.
      >>=-Ensures _ _ _ λ u off. >>=-Ensures _ _ _ λ g _. >>=-Ensures _ _ _ λ b _.
        >>=-Ensures _ _ _ λ infos _. ok-Ensures _ _ (
          save_lock-IsOff t secret db m.tailnet_id _ h (λ e.
            let s = at_same t secret db m.tailnet_id h e in
            record { off = s.off; gone = s.gone; revealed = s.revealed }))

  store_head-IsOff :
      (u : ℕ) (authority : tka.Authority) → IsOff t secret (store_head tka key db u authority)
  unfolding store_head get_lock
  store_head-IsOff u authority =
      elim (Bool-cases (str_eq (get_lock db u).head (tka.head authority))) [
        | inl e ↦ rw e h
        | inr e ↦ rw e (
            save_lock-IsOff t secret db u _ h (λ f.
              let s = at_same t secret db u h f in
              record { off = s.off; gone = s.gone; revealed = s.revealed }))
      ]

  disable-IsOff :
      (node_key : String) (again : Bytes)
      → Ensures (IsOff t secret) (disable tka key db node_key again)
  unfolding disable
  disable-IsOff node_key again = >>=-Ensures _ _ _ λ m _. >>=-Ensures _ _ _ λ a opened.
      >>=-Ensures _ _ _ λ u _. ok-Ensures _ _ (
        save_lock-IsOff t secret db m.tailnet_id _ h (λ e.
          let s = at_same t secret db m.tailnet_id h e in
          let on = opened_enabled tka key db m.tailnet_id a opened in
          let z : true ≡ false = sym on ∙ s.off in cc))

  submit_signature-IsOff :
      (node_key : String) (signature : Bytes)
      → Ensures (IsOff t secret) (submit_signature tka key db node_key signature)
  unfolding submit_signature get_lock save_machine
  submit_signature-IsOff node_key signature = >>=-Ensures _ _ _ λ m _. >>=-Ensures _ _ _ λ a _.
      >>=-Ensures _ _ _ λ k _. >>=-Ensures _ _ _ λ _ _. >>=-Ensures _ _ _ λ n _. ok-Ensures _ _ h

module _ (tka : TkaLib) (key : String) (t : ℕ) (secret : Bytes) where
  apply_aums-IsOff :
      (db : Db) (u : ℕ) (a : tka.Authority) (missing : List Bytes)
      → IsOff t secret db
      → Ensures (λ r. IsOff t secret r.1) (apply_aums tka key db u a missing)
  unfolding apply_aums
  apply_aums-IsOff db u a missing h = >>=-Ensures _ _ _ λ us _. >>=-Ensures _ _ _ λ b _.
      let more = record (get_lock db u) { chonk = b.1 } in
      ok-Ensures _ _ (
        store_head-IsOff tka key t secret (save_lock db u more)
          (save_lock-IsOff t secret db u more h (λ e.
            let s = at_same t secret db u h e in
            record { off = s.off; gone = s.gone; revealed = s.revealed }))
          u b.0)

  sync_send-IsOff :
      (db : Db) (node_key : String) (missing : List Bytes)
      → IsOff t secret db
      → Ensures (λ r. IsOff t secret r.1) (sync_send tka key db node_key missing)
  unfolding sync_send
  sync_send-IsOff db node_key missing h = >>=-Ensures _ _ _ λ m _. >>=-Ensures _ _ _ λ a _.
      elim (Bool-cases (is_empty missing)) [
        | inl e ↦ rw e (ok-Ensures _ _ h)
        | inr e ↦ rw e (apply_aums-IsOff db m.tailnet_id a missing h)
      ]

  after-IsOff {ℓ} :
      {A : Type ℓ} (db : Db) (f : A → Db) (r : Reply A)
      → IsOff t secret db
      → Ensures (λ a. IsOff t secret (f a)) r
      → IsOff t secret (after db f r)
  after-IsOff db f (ok a) h e = e.holds a refl
  after-IsOff db f (http code) h e = h
  after-IsOff db f failure h e = h

module _ (tka : TkaLib) (t : ℕ) (secret : Bytes) where
  serve-IsOff :
      (db : Db) (key : String) (r : Request)
      → IsOff t secret db
      → IsNoFinish r
      → IsOff t secret (serve tka db (key, r))
  unfolding serve
  serve-IsOff db key (begins n genesis) h f =
      after-IsOff tka key t secret db _ _ h (init_begin-IsOff tka key t secret db h n genesis)
  serve-IsOff db key (finishes n signatures support) h f = cc
  serve-IsOff db key (sends n missing) h f =
      after-IsOff tka key t secret db _ _ h (sync_send-IsOff tka key t secret db n missing h)
  serve-IsOff db key (disables n again) h f =
      after-IsOff tka key t secret db _ _ h (disable-IsOff tka key t secret db h n again)
  serve-IsOff db key (submits n signature) h f =
      after-IsOff tka key t secret db _ _ h
        (submit_signature-IsOff tka key t secret db h n signature)

  -- Requests of which none finishes an initialization leave a lock as it was shut down.
  pub run-IsOff :
      (db : Db) (requests : List (String × Request))
      → IsOff t secret db
      → All (λ r. IsNoFinish r.1) requests
      → IsOff t secret (run tka db requests)
  unfolding run
  run-IsOff db [] h fs = h
  run-IsOff db (r ∷ rs) h (f, fs) = run-IsOff (serve tka db r) rs (serve-IsOff db r.0 r.1 h f) fs
