-- ===== src/Workers/Ephemeral.antt =====
-- internal/core/worker.go: which machines the clean-up of ephemeral machines removes.
use ionskale.Prelude.{
  keep-keep, ℕ, ◌-◌, List, [], ◌∷◌, Bool, true, false, not, ◌&&◌, ◌||◌, Option, none, some, ◌≡◌,
  ◌⊎◌, inl, inr, refl, sym, subst, ap, ◌∙◌, All, Any, any, keep, arith, Bool-cases, ◌==◌, ==_iff,
  if◌then◌else◌, any-Any, Any_witness,
}
use ionskale.Machine.{Machine}
use ionskale.Lock.Db.{Db, notify_all}
use ionskale.Store.{list_inactive_ephemeral_machines, delete_machine, seen_before}
use ionskale.Store.Rows.{Row}
use ionskale.Store.Saves.{IsKeyed, kept_row}
use ionskale.Workers.Sweeps.{any_in_keep}
use ionskale.Workers.{
  inactivity_timeout, is_inactive, delete_rows, notify_each, delete_inactive_ephemeral_nodes,
}

-- The query's test.
abbrev pub is_idle : ℕ → Machine → Bool
is_idle t m = m.ephemeral && seen_before t m.last_seen

-- The second test of the loop agrees with the query's.
inactive_of_idle :
    (now : ℕ) (m : Machine)
    → is_idle (now - inactivity_timeout) m ≡ true
    → is_inactive now m.last_seen ≡ true
inactive_of_idle now m h = by_time m.last_seen h
  where
    by_time :
        (seen : Option ℕ)
        → (m.ephemeral && seen_before (now - inactivity_timeout) seen) ≡ true
        → is_inactive now seen ≡ true
    by_time none h = ground arith
    by_time (some t) h = ground arith

keep-cong :
    (f g : Machine → Bool) (ms : List Machine)
    → ((m : Machine) → Any (λ k. k ≡ m) ms → f m ≡ g m)
    → keep f ms ≡ keep g ms
keep-cong f g [] h = refl
keep-cong f g (m ∷ ms) h =
    rw (h m (inl refl))
      (ap (λ ks. if g m then m ∷ ks else ks) (keep-cong f g ms (λ k at. h k (inr at))))

keep-all : (ms : List Machine) → keep (λ m. true) ms ≡ ms
keep-all [] = refl
keep-all (m ∷ ms) = ap (λ ks. m ∷ ks) (keep-all ms)

-- The loop leaves the rows that have none of the ids.
delete_rows-machines :
    (now : ℕ) (idle : List Machine) (s : Db × List ℕ)
    → All (λ m. is_inactive now m.last_seen ≡ true) idle
    → (delete_rows now idle s).0.machines
      ≡ keep (λ n. not (any (λ m. m.id == n.id) idle)) s.0.machines
unfolding delete_rows delete_machine
delete_rows-machines now [] (db, ts) h = sym (keep-all db.machines)
delete_rows-machines now (m ∷ idle) (db, ts) (e, h) = rw e (
    delete_rows-machines now idle _ h
    ∙ keep-keep (λ n. not (any (λ k. k.id == n.id) idle)) (λ n. not (n.id == m.id)) db.machines
    ∙ keep-cong _ _ db.machines (λ n at. either n m.id (any (λ k. k.id == n.id) idle)))
  where
    either : (n : Machine) (i : ℕ) (b : Bool) → (not (n.id == i) && not b) ≡ not (i == n.id || b)
    either n i b = ground arith

notify_each-machines : (db : Db) (ts : List ℕ) → (notify_each db ts).machines ≡ db.machines
unfolding notify_each notify_all
notify_each-machines db [] = refl
notify_each-machines db (t ∷ ts) = notify_each-machines (notify_all db t) ts

kept_test :
    (f : Machine → Bool) (m : Machine) (ms : List Machine)
    → Any (λ k. k ≡ m) (keep f ms)
    → f m ≡ true
kept_test f m [] at = absurd at
kept_test f m (n ∷ ms) at = elim (Bool-cases (f n)) [
  | inl e ↦
      let here : (n ≡ m) ⊎ Any (λ k. k ≡ m) (keep f ms) = rw e at at in
      elim here [ inl same ↦ subst (λ k. f k ≡ true) same e | inr later ↦ kept_test f m ms later ]
  | inr e ↦ kept_test f m ms (rw e at at)
]

All-keep :
    (f g : Machine → Bool) (ms : List Machine)
    → ((m : Machine) → f m ≡ true → g m ≡ true)
    → All (λ m. g m ≡ true) (keep f ms)
All-keep f g [] h = tt
All-keep f g (m ∷ ms) h = elim (Bool-cases (f m)) [
  | inl e ↦ rw e (h m e, All-keep f g ms h)
  | inr e ↦ rw e (All-keep f g ms h)
]

-- Whether a row has the id of an idle one is whether it is idle.
same_idle :
    (db : Db) (t : ℕ)
    → IsKeyed db
    → (n : Machine) → Row n db
    → any (λ m. m.id == n.id) (keep (is_idle t) db.machines) ≡ is_idle t n
same_idle db t keyed n at =
    elim (Bool-cases (any (λ m. m.id == n.id) (keep (is_idle t) db.machines))) [
      | inl e ↦
          let (m, listed, same) =
            Any_witness _ (any-Any (λ m. m.id == n.id) (keep (is_idle t) db.machines) e) in
          let is_n =
            keyed m n (kept_row (is_idle t) m db.machines listed) at
              (ground (arith, ==_iff m.id n.id)) in
          e
          ∙ sym (subst (λ k. is_idle t k ≡ true) is_n (kept_test (is_idle t) m db.machines listed))
      | inr e ↦ e ∙ sym (not_idle e)
    ]
  where
    not_idle : any (λ m. m.id == n.id) (keep (is_idle t) db.machines) ≡ false → is_idle t n ≡ false
    not_idle e = elim (Bool-cases (is_idle t n)) [
      | inl idle ↦ absurd (
          let found =
            any_in_keep (is_idle t) (λ m. m.id == n.id) n db.machines at idle
              (ground (arith, ==_iff n.id n.id)) in
          ground arith)
      | inr f ↦ f
    ]

-- Where each id is that of one row, a round of the clean-up leaves, in their order, the rows that are
-- not of an ephemeral machine last seen more than 30 minutes before.
pub delete_inactive_ephemeral_nodes-is_idle :
    (now : ℕ) (db : Db)
    → IsKeyed db
    → (delete_inactive_ephemeral_nodes now db).machines
      ≡ keep (λ m. not (is_idle (now - inactivity_timeout) m)) db.machines
unfolding delete_inactive_ephemeral_nodes list_inactive_ephemeral_machines
delete_inactive_ephemeral_nodes-is_idle now db keyed =
    let t = now - inactivity_timeout in
    let s = delete_rows now (keep (is_idle t) db.machines) (db, []) in
    notify_each-machines s.0 s.1
    ∙ delete_rows-machines now (keep (is_idle t) db.machines) (db, [])
        (All-keep (is_idle t) (λ m. is_inactive now m.last_seen) db.machines (inactive_of_idle now))
    ∙ keep-cong _ _ db.machines (λ n at. ap not (same_idle db t keyed n at))
