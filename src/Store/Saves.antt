-- ===== src/Store/Saves.antt =====
-- internal/domain/machine.go: which rows there are after a machine was saved, or some were kept.
use ionskale.Prelude.{
  List, [], ◌∷◌, ◌++◌, Bool, false, ◌≡◌, ◌≢◌, ◌⊎◌, inl, inr, ap, ◌∙◌, Any, any, map, keep, arith,
  Bool-cases, ◌==◌, ==_iff,
}
use ionskale.Machine.{Machine}
use ionskale.Lock.Db.{Db, save_machine, updated_row}
use ionskale.Store.Rows.{Row}

-- Rows with one id are one row.
abbrev pub IsKeyed : Db → Type 0
IsKeyed db = (n k : Machine) → Row n db → Row k db → n.id ≡ k.id → n ≡ k

-- A row after an update is the new one, or an old one of another id.
row_updated :
    (m n : Machine) (ms : List Machine)
    → Any (λ k. k ≡ n) (map (updated_row m) ms)
    → (m ≡ n) ⊎ (Any (λ k. k ≡ n) ms × (n.id ≢ m.id))
row_updated m n [] h = absurd h
row_updated m n (k ∷ ms) (inl e) = elim (Bool-cases (k.id == m.id)) [
  | inl same ↦ inl (rw same at e)
  | inr other ↦
      let is_k : k ≡ n = rw other at e in
      inr (
        inl is_k,
        λ f. let g : k.id ≡ m.id = ap (λ j. j.id) is_k ∙ f in ground (arith, ==_iff k.id m.id),
      )
]
row_updated m n (k ∷ ms) (inr h) = elim (row_updated m n ms h) [
  | inl e ↦ inl e
  | inr (at, other) ↦ inr (inr at, other)
]

row_added :
    (m n : Machine) (ms : List Machine)
    → any (λ k. k.id == m.id) ms ≡ false
    → Any (λ k. k ≡ n) (ms ++ m ∷ [])
    → (m ≡ n) ⊎ (Any (λ k. k ≡ n) ms × (n.id ≢ m.id))
row_added m n [] f (inl e) = inl e
row_added m n [] f (inr h) = absurd h
row_added m n (k ∷ ms) f (inl e) =
    inr (inl e, λ g. let h : k.id ≡ m.id = ap (λ j. j.id) e ∙ g in ground (arith, ==_iff k.id m.id))
row_added m n (k ∷ ms) f (inr h) = elim (row_added m n ms (ground arith) h) [
  | inl e ↦ inl e
  | inr (at, other) ↦ inr (inr at, other)
]

pub Row-save_machine :
    (db : Db) (m n : Machine) → Row n (save_machine db m) → (m ≡ n) ⊎ (Row n db × (n.id ≢ m.id))
unfolding save_machine
Row-save_machine db m n h = elim (Bool-cases (any (λ k. k.id == m.id) db.machines)) [
  | inl e ↦ row_updated m n db.machines (rw e at h)
  | inr e ↦ row_added m n db.machines e (rw e at h)
]

pub kept_row :
    (test : Machine → Bool) (n : Machine) (ms : List Machine)
    → Any (λ k. k ≡ n) (keep test ms)
    → Any (λ k. k ≡ n) ms
kept_row test n [] h = absurd h
kept_row test n (m ∷ ms) h = elim (Bool-cases (test m)) [
  | inl e ↦
      let here : (m ≡ n) ⊎ Any (λ k. k ≡ n) (keep test ms) = rw e at h in
      elim here [ inl same ↦ inl same | inr later ↦ inr (kept_row test n ms later) ]
  | inr e ↦ inr (kept_row test n ms (rw e at h))
]
