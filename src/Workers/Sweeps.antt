-- ===== src/Workers/Sweeps.antt =====
-- internal/core/worker.go: which round of the expiry sweeper acts on the expiry of a machine.
use ionskale.Prelude.{
  Any-map, ℕ, ◌≤◌, ◌<◌, List, [], ◌∷◌, ◌++◌, Bool, true, false, not, ◌&&◌, ◌||◌, ◌≡◌, inl, inr,
  refl, sym, subst, Any, any, keep, arith, Bool-cases, ◌==◌, ==_iff, ltb, leb,
}
use ionskale.Machine.{Machine}
use ionskale.Lock.Db.{Db, notify_all}
use ionskale.Store.{list_machines_expired_between}
use ionskale.Workers.{
  put_tailnet, tailnets_of, notify_each, notify_expired_machines, expired_tailnets,
  start_expiry_sweeper,
}

abbrev pub is_told : ℕ → List ℕ → Bool
is_told t ts = any (λ u. u == t) ts

is_told-append : (t : ℕ) (ts us : List ℕ) → is_told t (ts ++ us) ≡ (is_told t ts || is_told t us)
is_told-append t [] us = refl
is_told-append t (u ∷ ts) us = ground (arith, is_told-append t ts us)

is_told-put_tailnet :
    (t s : ℕ) (ts : List ℕ) → is_told t (put_tailnet s ts) ≡ (is_told t ts || s == t)
is_told-put_tailnet t s ts = ground (arith, is_told-append t ts (s ∷ []), ==_iff s t)

is_told-tailnets_of :
    (t : ℕ) (ts : List ℕ) (ms : List Machine)
    → is_told t (tailnets_of ts ms) ≡ (is_told t ts || any (λ m. m.tailnet_id == t) ms)
is_told-tailnets_of t ts [] = ground arith
is_told-tailnets_of t ts (m ∷ ms) = ground (
  arith,
  is_told-tailnets_of t (put_tailnet m.tailnet_id ts) ms,
  is_told-put_tailnet t m.tailnet_id ts,
)

is_told-notify_each :
    (t : ℕ) (db : Db) (ts : List ℕ)
    → is_told t (notify_each db ts).notified ≡ (is_told t db.notified || is_told t ts)
unfolding notify_each notify_all
is_told-notify_each t db [] = ground arith
is_told-notify_each t db (u ∷ ts) = ground (arith, is_told-notify_each t (notify_all db u) ts)

-- The test of `ListMachinesExpiredBetween`.
abbrev pub expires_in : ℕ → ℕ → Machine → Bool
expires_in from to m = not m.key_expiry_disabled && ltb from m.expires_at && leb m.expires_at to

any-kept :
    (P Q : Machine → Bool) (ms : List Machine)
    → Any (λ k. (P k ≡ true) × (Q k ≡ true)) ms
    → any Q (keep P ms) ≡ true
any-kept P Q [] at = absurd at
any-kept P Q (k ∷ ms) (inl (p, q)) = rw p (rw q refl)
any-kept P Q (k ∷ ms) (inr at) = ground (arith, any-kept P Q ms at)

pub any_in_keep :
    (P Q : Machine → Bool) (m : Machine) (ms : List Machine)
    → Any (λ k. k ≡ m) ms
    → P m ≡ true
    → Q m ≡ true
    → any Q (keep P ms) ≡ true
any_in_keep P Q m ms at p q =
    any-kept P Q ms (Any-map ms (λ k e. subst (λ j. (P j ≡ true) × (Q j ≡ true)) (sym e) (p, q)) at)

-- A machine of the tailnet whose key expires at `e`. Its other columns may hold anything.
abbrev pub Expires : ℕ → ℕ → Machine → Type 0
Expires t e k = (k.tailnet_id ≡ t) × (k.expires_at ≡ e) × (k.key_expiry_disabled ≡ false)

-- A round tells the tailnet of each machine that expired in its window.
expired_tailnets-tells :
    (db : Db) (from to t e : ℕ)
    → Any (Expires t e) db.machines
    → from < e
    → e ≤ to
    → is_told t (expired_tailnets db from to) ≡ true
unfolding expired_tailnets list_machines_expired_between
expired_tailnets-tells db from to t e at late early =
    let listed =
      any-kept (expires_in from to) (λ k. k.tailnet_id == t) db.machines
        (Any-map db.machines
          (λ k (same, when, may). ((ground arith), (ground (arith, ==_iff k.tailnet_id t)))) at) in
    ground (arith, is_told-tailnets_of t [] (keep (expires_in from to) db.machines))

-- What a round tells, and the record of it in the database that the round leaves.
abbrev pub IsTold : ℕ → List ℕ × Db → Type 0
IsTold t round = (is_told t round.0 ≡ true) × (is_told t round.1.notified ≡ true)

round-IsTold :
    (db : Db) (from to t e : ℕ)
    → Any (Expires t e) db.machines
    → from < e
    → e ≤ to
    → IsTold t (expired_tailnets db from to, notify_expired_machines db from to)
unfolding notify_expired_machines
round-IsTold db from to t e at late early =
    let told = expired_tailnets-tells db from to t e at late early in
    (told, ground (arith, is_told-notify_each t db (expired_tailnets db from to)))

-- The time of the last tick, and that of the start where there is none.
abbrev pub last_tick : ℕ → List (ℕ × Db) → ℕ
last_tick prev [] = prev
last_tick prev ((now, db) ∷ ticks) = last_tick now ticks

-- At the first tick that is not before `e`, a machine of the tailnet has this expiry.
unfoldable pub IsDue : ℕ → ℕ → List (ℕ × Db) → Type 0
IsDue t e [] = Unit
IsDue t e ((now, db) ∷ ticks) =
    (e ≤ now → Any (Expires t e) db.machines) × (now < e → IsDue t e ticks)

-- Let `e` lie after the start of the sweeper and not after the last tick. Where at the first tick
-- that is not before `e` the database has a machine of the tailnet whose key expires at `e` and may
-- expire, one of the rounds tells the tailnet.
pub start_expiry_sweeper-IsTold :
    (t e prev : ℕ) (ticks : List (ℕ × Db))
    → IsDue t e ticks
    → prev < e
    → e ≤ last_tick prev ticks
    → Any (IsTold t) (start_expiry_sweeper prev ticks)
unfolding start_expiry_sweeper IsDue
start_expiry_sweeper-IsTold t e prev [] due late early = absurd (omega arith)
start_expiry_sweeper-IsTold t e prev ((now, db) ∷ ticks) (here, after) late early =
    elim (Bool-cases (leb e now)) [
      | inl f ↦ inl (round-IsTold db prev now t e (here (ground arith)) late (ground arith))
      | inr f ↦
          inr
            (start_expiry_sweeper-IsTold t e now ticks (after (ground arith)) (ground arith) early)
    ]
