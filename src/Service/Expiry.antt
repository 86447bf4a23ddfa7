-- ===== src/Service/Expiry.antt =====
-- internal/service/machine.go, ExpireMachine, with internal/mapping: what the other machines see of a
-- machine that was expired.
use ionskale.Prelude.{
  ℕ, List, [], ◌∷◌, Bool, true, false, ◌&&◌, some, ◌≡◌, ◌≢◌, ◌⊎◌, ◌<◌, inl, inr, refl, sym, subst,
  ◌∙◌, any, Any, arith, ◌==◌, ==_iff, lt→ltb,
}
use ionskale.Netip.{AddrText}
use ionskale.Machine.{Machine, Tailnet, is_expired, is_quarantined}
use ionskale.Lock.Db.{Db, notify_all}
use ionskale.Store.{list_machine_peers}
use ionskale.Store.Rows.{Row, get_machine-Row}
use ionskale.Identity.{Principal}
use ionskale.Mapping.{MapperState, Snapshot, create_map_response}
use ionskale.Mapping.Peers.{has_node}
use ionskale.Mapping.Shown.{is_shown, create_map_response-is_shown}
use ionskale.Service.{answer, permitted, save_and_notify}
use ionskale.Service.Machines.{long_ago, expire_machine}
use ionskale.Service.Answers.{>>=-answer, answer_inj}
use ionskale.Service.Steps.{permitted_lem}
use ionskale.Store.Saves.{Row-save_machine, kept_row}

expired : Machine → Machine
expired m = record m { expires_at = long_ago; key_expiry_disabled = false }

expired-is_quarantined :
    (now : ℕ) (m : Machine) (t : Tailnet)
    → long_ago < now
    → is_quarantined now (expired m) (some t) ≡ true
unfolding expired is_quarantined is_expired
expired-is_quarantined now m t h = ground (arith, lt→ltb long_ago now h)

-- A loop that finds nothing.
none_of :
    (test : Machine → Bool) (ms : List Machine)
    → ((n : Machine) → Any (λ k. k ≡ n) ms → test n ≡ false)
    → any test ms ≡ false
none_of test [] f = refl
none_of test (m ∷ ms) f = rw (f m (inl refl)) (none_of test ms (λ n at. f n (inr at)))

-- After a machine was expired, the row of its id is the expired one.
expire_machine-rows :
    (p : Principal) (db : Db) (id : ℕ) (db' : Db)
    → expire_machine p db id ≡ answer db'
    → (m : Machine) × ((k : Machine) → Row k db' → (expired m ≡ k) ⊎ (k.id ≢ id))
unfolding expire_machine expired save_and_notify notify_all
expire_machine-rows p db id db' h =
    let (m, found, e) = >>=-answer (permitted p db id) _ db' h in
    let (_, is_id) = get_machine-Row db id m ((permitted_lem p db id m found).0) in
    (
      m,
      λ k at.
          row_of k m is_id
            (Row-save_machine db (expired m) k (subst (Row k) (sym (answer_inj e)) at)),
    )
  where
    row_of :
        (k m : Machine)
        → m.id ≡ id
        → (expired m ≡ k) ⊎ (Row k db × (k.id ≢ m.id))
        → (expired m ≡ k) ⊎ (k.id ≢ id)
    row_of k m is_id (inl e) = inl e
    row_of k m is_id (inr (_, other)) = inr (λ e. other (e ∙ sym is_id))

module _ (net : AddrText) (v : Snapshot) (id : ℕ) (late : long_ago < v.now) where
  unseen :
      (m k : Machine) → (expired m ≡ k) ⊎ (k.id ≢ id) → (is_shown net v k && k.id == id) ≡ false
  unseen m k (inl e) =
      let gone =
        subst (λ j. is_quarantined v.now j (some v.machine.tailnet) ≡ true) e
          (expired-is_quarantined v.now m v.machine.tailnet late) in
      rw gone refl
  unseen m k (inr other) = ground (arith, ==_iff k.id id)

-- After `ExpireMachine` answers, no full answer with peers lists the machine, whichever machine asks at
-- a time after the one that was set, with the rows of its peers.
pub expire_machine-hidden :
    (net : AddrText) (p : Principal) (db : Db) (id : ℕ) (db' : Db) (s : MapperState) (v : Snapshot)
    (self t : ℕ)
    → expire_machine p db id ≡ answer db'
    → long_ago < v.now
    → v.candidates ≡ list_machine_peers db' t self
    → has_node (create_map_response net false s v false).0.peers id ≡ false
unfolding list_machine_peers
expire_machine-hidden net p db id db' s v self t h late e =
    let (m, rows) = expire_machine-rows p db id db' h in
    create_map_response-is_shown net s v id
    ∙ ground (
      arith,
      none_of (λ k. is_shown net v k && k.id == id) v.candidates
          λ n at.
            unseen net v id late m n
              (rows n (kept_row _ n db'.machines (subst (λ ms. Any (λ k. k ≡ n) ms) e at))),
    )
