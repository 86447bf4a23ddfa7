-- ===== src/Workers.antt =====
-- internal/core/worker.go: the two loops that look after machines. A round of a loop is a function
-- of the time at which its ticker fires and of the database as it stands then. Times are nanoseconds.
pub mod Sweeps
pub mod Ephemeral
use ionskale.Prelude.{
  ℕ, ◌+◌, ◌-◌, ◌*◌, ◌^◌, List, [], ◌∷◌, ◌++◌, Bool, true, false, Option, none, some, any, ◌==◌, ltb,
  if◌then◌else◌,
}
use ionskale.Machine.{Machine}
use ionskale.Lock.Db.{Db, notify_all}
use ionskale.Store.{list_machines_expired_between, list_inactive_ephemeral_machines, delete_machine}

-- 30 minutes.
abbrev pub inactivity_timeout : ℕ
inactivity_timeout = 30 * 60 * 10 ^ 9

-- `tailnets[id] = true`: the keys of the map, in the order in which they were set.
abbrev pub put_tailnet : ℕ → List ℕ → List ℕ
put_tailnet t ts = if any (λ u. u == t) ts then ts else ts ++ t ∷ []

abbrev pub tailnets_of : List ℕ → List Machine → List ℕ
tailnets_of ts [] = ts
tailnets_of ts (m ∷ ms) = tailnets_of (put_tailnet m.tailnet_id ts) ms

-- The loop over a map has no fixed order; the tailnets are told in the order of `put_tailnet`.
unfoldable pub notify_each : Db → List ℕ → Db
unfolding notify_all
notify_each db [] = db
notify_each db (t ∷ ts) = notify_each (notify_all db t) ts

-- The tailnets that a round tells.
unfoldable pub expired_tailnets : Db → ℕ → ℕ → List ℕ
unfolding list_machines_expired_between
expired_tailnets db from to = tailnets_of [] (list_machines_expired_between db from to)

unfoldable pub notify_expired_machines : Db → ℕ → ℕ → Db
unfolding expired_tailnets notify_each
notify_expired_machines db from to = notify_each db (expired_tailnets db from to)

-- `startExpirySweeper` from `prev` on: at each tick the time, and the database as it stands then. The
-- result are the tailnets that each round tells, and the database that it leaves.
unfoldable pub start_expiry_sweeper : ℕ → List (ℕ × Db) → List (List ℕ × Db)
unfolding notify_expired_machines expired_tailnets
start_expiry_sweeper prev [] = []
start_expiry_sweeper prev ((now, db) ∷ ticks) =
    (expired_tailnets db prev now, notify_expired_machines db prev now)
    ∷ start_expiry_sweeper now ticks

-- `now.After(m.LastSeen.Add(inactivityTimeout))`, for a machine that has been seen.
abbrev pub is_inactive : ℕ → Option ℕ → Bool
is_inactive now none = false
is_inactive now (some seen) = ltb (seen + inactivity_timeout) now

-- The loop over the rows, with the tailnets of the ones that it removed.
unfoldable pub delete_rows : ℕ → List Machine → Db × List ℕ → Db × List ℕ
unfolding delete_machine
delete_rows now [] s = s
delete_rows now (m ∷ ms) (db, ts) =
    if is_inactive now m.last_seen
    then (let (gone, left) = delete_machine db m.id in
        delete_rows now ms (left, if gone then put_tailnet m.tailnet_id ts else ts))
    else delete_rows now ms (db, ts)

unfoldable pub delete_inactive_ephemeral_nodes : ℕ → Db → Db
unfolding list_inactive_ephemeral_machines delete_rows notify_each
delete_inactive_ephemeral_nodes now db =
    let (left, ts) =
      delete_rows now (list_inactive_ephemeral_machines db (now - inactivity_timeout)) (db, []) in
    notify_each left ts
