-- ===== src/Lock/Init.antt =====
-- internal/handlers/tka.go: what `InitFinish` establishes.
use ionskale.Prelude.{
  ℕ, String, List, [], ◌∷◌, Bool, true, false, not, ◌||◌, ◌≡◌, refl, subst, ap, ◌∙◌, none, some,
  arith, ==_iff, ◌==◌, inl, inr, All, any, keep, map, if◌then◌else◌, Bool-cases, All-append,
  All-map,
}
use ionskale.Machine.{Bytes, Machine}
use ionskale.Lock.Chonk.{Chonk, empty_chonk}
use ionskale.Lock.Db.{
  Db, get_lock, save_lock, delete_lock, no_lock, save_machine, updated_row, list_machine_by_tailnet,
}
use ionskale.Lock.Tka.{TkaLib, ok, or_failure}
use ionskale.Lock.Ensures.{Ensures, >>=-Ensures, ok-Ensures, require-true, get_lock-save_lock}
use ionskale.Lock.Handlers.{caller, signed_machines, save_machines, activate, init_finish}

-- A machine has what the lock asks for, or it is of another tailnet, or it is still to be saved.
abbrev settled : (Machine → Bool) → ℕ → List Machine → Machine → Bool
settled test t rest n = not (n.tailnet_id == t) || test n || any (λ s. s.id == n.id) rest

map-All :
    (P Q : Machine → Type 0) (f : Machine → Machine) (ns : List Machine)
    → ((n : Machine) → P n → Q (f n))
    → All P ns
    → All Q (map f ns)
map-All P Q f [] h k = tt
map-All P Q f (n ∷ ns) h (p, k) = (h n p, map-All P Q f ns h k)

module _ (test : Machine → Bool) (t : ℕ) where
  abbrev Settled : List Machine → List Machine → Type 0
  Settled rest ns = All (λ n. settled test t rest n ≡ true) ns

  updated_row-settled :
      (s : Machine) (rest : List Machine) (n : Machine)
      → test s ≡ true
      → settled test t (s ∷ rest) n ≡ true
      → settled test t rest (updated_row s n) ≡ true
  updated_row-settled s rest n passed h = elim (Bool-cases (n.id == s.id)) [
    | inl e ↦ rw e (ground arith)
    | inr e ↦ rw e (ground (arith, ==_iff n.id s.id, ==_iff s.id n.id))
  ]

  untouched :
      (s : Machine) (rest ns : List Machine)
      → any (λ n. n.id == s.id) ns ≡ false
      → Settled (s ∷ rest) ns
      → Settled rest ns
  untouched s rest [] e h = tt
  untouched s rest (n ∷ ns) e (p, h) =
      (ground (arith, ==_iff n.id s.id, ==_iff s.id n.id), untouched s rest ns (ground arith) h)

  save_machine-Settled :
      (db : Db) (s : Machine) (rest : List Machine)
      → test s ≡ true
      → Settled (s ∷ rest) db.machines
      → Settled rest (save_machine db s).machines
  unfolding save_machine
  save_machine-Settled db s rest passed h =
      elim (Bool-cases (any (λ n. n.id == s.id) db.machines)) [
        | inl e ↦
            rw e
              (map-All _ _ (updated_row s) db.machines (λ n. updated_row-settled s rest n passed) h)
        | inr e ↦ rw e (
            All-append _ db.machines (s ∷ []) (untouched s rest db.machines e h) (ground arith, tt))
      ]

  save_machines-Settled :
      (db : Db) (signed : List Machine)
      → All (λ s. test s ≡ true) signed
      → Settled signed db.machines
      → Settled [] (save_machines db signed).machines
  unfolding save_machines
  save_machines-Settled db [] oks h = h
  save_machines-Settled db (s ∷ rest) (passed, oks) h =
      save_machines-Settled (save_machine db s) rest oks (save_machine-Settled db s rest passed h)

  list_machine_by_tailnet-All :
      (db : Db) → Settled [] db.machines → All (λ n. test n ≡ true) (list_machine_by_tailnet db t)
  unfolding list_machine_by_tailnet
  list_machine_by_tailnet-All db h = kept db.machines h
    where
      kept :
          (ns : List Machine)
          → Settled [] ns
          → All (λ n. test n ≡ true) (keep (λ n. n.tailnet_id == t) ns)
      kept [] h = tt
      kept (n ∷ ns) (p, h) = elim (Bool-cases (n.tailnet_id == t)) [
        | inl e ↦ rw e ((ground arith), kept ns h)
        | inr e ↦ rw e (kept ns h)
      ]

named : (b : Bool) (k key : String) → or_failure (if b then some k else none) ≡ ok key → key ≡ k
named true k key e = cc
named false k key e = cc

passes : (a b c : Bool) → (a || c) ≡ true → (a || (b || c)) ≡ true
passes a b c h = ground arith

-- Every machine of the tailnet is among those that the handler lists.
listed :
    (t : ℕ) (ns : List Machine)
    → All
        (λ n.
          (not (n.tailnet_id == t) || any (λ s. s.id == n.id) (keep (λ m. m.tailnet_id == t) ns))
          ≡ true)
        ns
listed t [] = tt
listed t (n ∷ ns) = elim (Bool-cases (n.tailnet_id == t)) [
  | inl e ↦ (
    rw e (ground (arith, ==_iff n.id n.id)),
    All-map ns (λ m h. rw e (passes _ (n.id == m.id) _ h)) (listed t ns),
  )
  | inr e ↦ (rw e refl, All-map ns (λ m h. rw e h) (listed t ns))
]

initially :
    (test : Machine → Bool) (t : ℕ) (db : Db) (signed : List Machine)
    → ((id : ℕ)
        → any (λ s. s.id == id) signed ≡ any (λ s. s.id == id) (list_machine_by_tailnet db t))
    → Settled test t signed db.machines
unfolding list_machine_by_tailnet
initially test t db signed same =
    All-map db.machines (λ n h. ground (arith, same n.id)) (listed t db.machines)

module _ (tka : TkaLib) (machine_key : String) where
  -- The signature that a machine has lets its node key in.
  abbrev pub is_signed : tka.Authority → Machine → Bool
  is_signed authority n = tka.node_key_authorized authority n.node_key n.key_signature

  abbrev AllSigned : tka.Authority → List Machine → Type 0
  AllSigned authority ns = All (λ n. is_signed authority n ≡ true) ns

  signed_machines-AllSigned :
      (authority : tka.Authority) (signatures : List (ℕ × Bytes)) (ms : List Machine)
      → Ensures
          (λ signed.
            AllSigned authority signed
            × ((id : ℕ) → any (λ s. s.id == id) signed ≡ any (λ s. s.id == id) ms))
          (signed_machines tka machine_key authority signatures ms)
  unfolding signed_machines
  signed_machines-AllSigned authority signatures [] = ok-Ensures _ [] (tt, (λ id. refl))
  signed_machines-AllSigned authority signatures (m ∷ ms) = >>=-Ensures _ _ _ λ sig _.
      >>=-Ensures _ _ _ λ key e. >>=-Ensures _ _ _ λ u h. >>=-Ensures _ _ _ λ rest r.
        let (signed, ids) = (signed_machines-AllSigned authority signatures ms).holds rest r in
        ok-Ensures _ _ (
          (
            subst (λ k. tka.node_key_authorized authority k sig ≡ true) (named _ _ _ e)
                (require-true _ _ _ h),
            signed,
          ),
          (λ id. ap (λ b. m.id == id || b) (ids id)),
        )

  -- The lock of the caller's tailnet is active at the head of the new
  -- authority, and every machine of that tailnet has a signature that the authority accepts.
  abbrev pub Locked : String → Db → Db → Type 0
  Locked node_key db db' =
      (m : Machine) × (authority : tka.Authority) × (caller tka machine_key db node_key ≡ ok m)
      × ((get_lock db' m.tailnet_id).enabled ≡ true)
      × ((get_lock db' m.tailnet_id).head ≡ tka.head authority)
      × AllSigned authority (list_machine_by_tailnet db' m.tailnet_id)

  set_up :
      (k own : Chonk) (genesis : tka.Aum) (a b : tka.Authority × Chonk)
      → k ≡ own
      → or_failure (tka.bootstrap own genesis) ≡ ok a
      → or_failure (tka.bootstrap k genesis) ≡ ok b
      → b.0 ≡ a.0
  set_up k own genesis a b same e f = cc

  activate-Locked :
      (db : Db) (t : ℕ) (genesis : tka.Aum) (authority : tka.Authority) (k : Chonk)
      (signed : List Machine) (support : Bytes)
      → or_failure (tka.bootstrap empty_chonk genesis) ≡ ok (authority, k)
      → AllSigned authority signed
      → ((id : ℕ)
          → any (λ s. s.id == id) signed ≡ any (λ s. s.id == id) (list_machine_by_tailnet db t))
      → Ensures
          (λ db'.
            ((get_lock db' t).enabled ≡ true)
            × ((get_lock db' t).head ≡ tka.head authority)
            × AllSigned authority (list_machine_by_tailnet db' t))
          (activate tka machine_key db t genesis signed support)
  unfolding activate list_machine_by_tailnet
  activate-Locked db t genesis authority k signed support boots oks same = >>=-Ensures _ _ _ λ b e.
      let fresh = delete_lock db t in
      let stored = save_lock fresh t (record (get_lock fresh t) { chonk = b.1 }) in
      let saved = save_machines stored signed in
      let same_authority =
        set_up _ _ _ _ _ (ap (λ s. s.chonk) (get_lock-save_lock db t no_lock)) boots e in
      let row = get_lock-save_lock saved t _ in
      ok-Ensures _ _ (
        (ap (λ s. s.enabled) row),
        (ap (λ s. s.head) row ∙ ap tka.head same_authority),
        (list_machine_by_tailnet-All (is_signed authority) t saved (
            save_machines-Settled (is_signed authority) t stored signed oks
              (initially (is_signed authority) t db signed same))),
      )

  finishing :
      (db : Db) (node_key : String) (signatures : List (ℕ × Bytes)) (support : Bytes)
      → Ensures (Locked node_key db) (init_finish tka machine_key db node_key signatures support)
  unfolding init_finish
  finishing db node_key signatures support = >>=-Ensures _ _ _ λ m e. >>=-Ensures _ _ _ λ _ _.
      >>=-Ensures _ _ _ λ _ _. >>=-Ensures _ _ _ λ _ _. >>=-Ensures _ _ _ λ g _.
        >>=-Ensures _ _ _ λ b boots. >>=-Ensures _ _ _ λ signed s. >>=-Ensures _ _ _ λ done d.
          let (oks, same) =
            (signed_machines-AllSigned b.0 signatures
                (list_machine_by_tailnet db m.tailnet_id)).holds
              signed s in
          let (on, at, all_signed) =
            (activate-Locked db m.tailnet_id g b.0 b.1 signed support boots oks same).holds done
              d in
          ok-Ensures _ _ (m, b.0, e, on, at, all_signed)

  -- When `InitFinish` succeeds, the lock of the caller's tailnet is active at the head of an authority,
  -- and every machine of that tailnet, of those that the database then holds, carries a signature of
  -- its node key that this authority accepts.
  pub init_finish-Locked :
      (db : Db) (node_key : String) (signatures : List (ℕ × Bytes)) (support : Bytes) (db' : Db)
      → init_finish tka machine_key db node_key signatures support ≡ ok db'
      → Locked node_key db db'
  init_finish-Locked db node_key signatures support db' e =
      (finishing db node_key signatures support).holds db' e
