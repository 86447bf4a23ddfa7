-- ===== src/Examples/Sweeping.antt =====
-- Rounds of the two workers over a few machines.
use ionskale.Prelude.{
  ℕ, ◌+◌, ◌-◌, ◌^◌, ◌≡◌, refl, sym, ◌∙◌, inl, inr, List, [], ◌∷◌, Any, not, keep, true, some, arith,
}
use ionskale.Machine.{Machine}
use ionskale.Lock.Db.{Db, no_lock}
use ionskale.Store.Saves.{IsKeyed}
use ionskale.Workers.{start_expiry_sweeper, delete_inactive_ephemeral_nodes, inactivity_timeout}
use ionskale.Workers.Sweeps.{IsTold, IsDue, start_expiry_sweeper-IsTold}
use ionskale.Workers.Ephemeral.{is_idle, delete_inactive_ephemeral_nodes-is_idle}
use ionskale.Examples.Data.{laptop}

abbrev job : Machine
job = record laptop { ephemeral = true; last_seen = some 5 }

abbrev job_rows : Db
job_rows = record { machines = job ∷ []; locks = λ t. no_lock; notified = [] }

-- The job was seen again at the second tick, and is gone at the last.
abbrev seen_rows : Db
seen_rows = record job_rows { machines = record job { last_seen = some 70 } ∷ [] }

abbrev no_rows : Db
no_rows = record job_rows { machines = [] }

abbrev ticks : List (ℕ × Db)
ticks = (60, job_rows) ∷ (job.expires_at + 20, seen_rows) ∷ (job.expires_at + 80, no_rows) ∷ []

due : IsDue 1 job.expires_at ticks
unfolding IsDue
due = (
  (λ e. absurd (omega arith)),
  (λ e. ((λ f. inl (refl, refl, refl)), (λ f. absurd (omega arith)))),
)

start_expiry_sweeper-IsTold_example : Any (IsTold 1) (start_expiry_sweeper 10 ticks)
start_expiry_sweeper-IsTold_example =
    start_expiry_sweeper-IsTold 1 job.expires_at 10 ticks due (omega arith) (omega arith)

job_rows-IsKeyed : IsKeyed job_rows
job_rows-IsKeyed n k (inl e) (inl f) same = sym e ∙ f
job_rows-IsKeyed n k (inr h) at same = absurd h
job_rows-IsKeyed n k at (inr h) same = absurd h

delete_inactive_ephemeral_nodes-is_idle_example :
    (delete_inactive_ephemeral_nodes (10 ^ 13) job_rows).machines
    ≡ keep (λ m. not (is_idle (10 ^ 13 - inactivity_timeout) m)) (job ∷ [])
delete_inactive_ephemeral_nodes-is_idle_example =
    delete_inactive_ephemeral_nodes-is_idle (10 ^ 13) job_rows job_rows-IsKeyed

-- The job is gone, and its tailnet was told.
sweep_runs :
    delete_inactive_ephemeral_nodes (10 ^ 13) job_rows
    ≡ record { machines = []; locks = λ t. no_lock; notified = 1 ∷ [] }
unfolding delete_inactive_ephemeral_nodes
sweep_runs = refl
