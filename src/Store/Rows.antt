-- ===== src/Store/Rows.antt =====
-- internal/domain/machine.go: what a query finds after a row was saved or deleted, and which rows
-- bear a name.
use ionskale.Prelude.{
  ◌++◌, ℕ, ◌<◌, ◌≡◌, inl, inr, refl, String, List, [], ◌∷◌, true, some, ◌==◌, ==_iff, arith, keep,
  any, map, Any, All, Bool-cases, eq_iff, ◌≤◌, take_first, take_first-Any, any-take_first, All-map,
}
use ionskale.Machine.{Machine}
use ionskale.Lock.Db.{Db, save_machine, updated_row}
use ionskale.Store.{get_machine, bears_name, next_index, get_next_machine_name_index}

abbrev pub Row : Machine → Db → Type 0
Row m db = Any (λ n. n ≡ m) db.machines

below_next :
    (m : Machine) (ms : List Machine)
    → (m.name_idx < next_index (m ∷ ms)) × (next_index ms ≤ next_index (m ∷ ms))
below_next m ms = ground arith

next_index-bound : (ms : List Machine) → All (λ m. m.name_idx < next_index ms) ms
next_index-bound [] = tt
next_index-bound (m ∷ ms) =
    let (here, there) = below_next m ms in
    (here, All-map ms (λ n h. omega arith) (next_index-bound ms))

bounded :
    (ms : List Machine) (t : ℕ) (name : String) (bound : ℕ)
    → All (λ m. m.name_idx < bound) (keep (bears_name t name) ms)
    → All (λ m. m.tailnet_id ≡ t → m.name ≡ name → m.name_idx < bound) ms
bounded [] t name bound h = tt
bounded (m ∷ ms) t name bound h = elim (Bool-cases (bears_name t name m)) [
  | inl e ↦
      let (here, there) : (m.name_idx < bound)
          × All (λ m. m.name_idx < bound) (keep (bears_name t name) ms) =
        rw e at h in
      (λ _ _. here, bounded ms t name bound there)
  | inr e ↦ (
    λ same_tailnet same_name. absurd (ground (arith, eq_iff m.name name, ==_iff m.tailnet_id t)),
    bounded ms t name bound (rw e at h),
  )
]

-- No row of the tailnet that bears a name has the index that is given next, or a greater one.
pub get_next_machine_name_index-unused :
    (db : Db) (t : ℕ) (name : String)
    → All
        (λ m. m.tailnet_id ≡ t → m.name ≡ name → m.name_idx < get_next_machine_name_index db t name)
        db.machines
unfolding get_next_machine_name_index
get_next_machine_name_index-unused db t name =
    bounded db.machines t name (next_index (keep (bears_name t name) db.machines))
      (next_index-bound (keep (bears_name t name) db.machines))

pub get_machine-Row :
    (db : Db) (id : ℕ) (m : Machine) → get_machine db id ≡ some m → Row m db × (m.id ≡ id)
unfolding get_machine
get_machine-Row db id m h =
    let (at, same) = take_first-Any (λ n. n.id == id) db.machines m h in
    (at, ground (arith, ==_iff m.id id))

first_updated :
    (m : Machine) (ms : List Machine)
    → any (λ n. n.id == m.id) ms ≡ true
    → take_first (λ n. n.id == m.id) (map (updated_row m) ms) ≡ some m
first_updated m [] h = cc
first_updated m (n ∷ ms) h = elim (Bool-cases (n.id == m.id)) [
  | inl e ↦ rw e (rw (same_id m) refl)
  | inr e ↦ rw e (rw e (first_updated m ms (rw e at h)))
]
  where
    same_id : (m : Machine) → (m.id == m.id) ≡ true
    same_id m = ground (arith, ==_iff m.id m.id)

added_last : (m : Machine) (ms : List Machine) → Any (λ n. n ≡ m) (ms ++ m ∷ [])
added_last m [] = inl refl
added_last m (n ∷ ms) = inr (added_last m ms)

-- What was saved is a row.
pub Row-saved : (db : Db) (m : Machine) → Row m (save_machine db m)
unfolding save_machine
Row-saved db m = elim (Bool-cases (any (λ n. n.id == m.id) db.machines)) [
  | inl e ↦ rw e (
      (take_first-Any (λ n. n.id == m.id) (map (updated_row m) db.machines) m
        (first_updated m db.machines e)).0)
  | inr e ↦ rw e (added_last m db.machines)
]

-- The row that was saved in place of another is the row that is read.
pub get_machine-save_machine :
    (db : Db) (m n : Machine)
    → get_machine db m.id ≡ some n
    → get_machine (save_machine db m) m.id ≡ some m
unfolding get_machine save_machine
get_machine-save_machine db m n h =
    let found = any-take_first (λ k. k.id == m.id) db.machines n h in
    rw found (first_updated m db.machines found)
