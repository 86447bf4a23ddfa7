-- ===== src/Service/Invariant.antt =====
-- internal/service/machine.go: what its calls keep true of the rows of machines.
use ionskale.Prelude.{
  ℕ, List, [], ◌∷◌, not, ◌≡◌, ◌≢◌, ◌⊎◌, inl, inr, refl, ap, sym, subst, ◌∙◌, All, Any, ◌==◌,
}
use ionskale.Netip.{AddrText}
use ionskale.Machine.{Machine}
use ionskale.Lock.Db.{Db, notify_all}
use ionskale.Store.{delete_machine}
use ionskale.Store.Rows.{Row, get_machine-Row}
use ionskale.Store.Saves.{IsKeyed, Row-save_machine, kept_row}
use ionskale.Identity.{Principal}
use ionskale.Service.{Answer, answer, refused, internal, crash, save_and_notify}
use ionskale.Service.Machines.{NameLib}
use ionskale.Service.Steps.{
  Call, serve, Step, unchanged, told, edited, removed, IsEdit, serve-Step, permitted_lem,
}

-- No two machines of a tailnet have a name with the same index.
abbrev pub HasUniqueNames : Db → Type 0
HasUniqueNames db =
    (n k : Machine)
    → Row n db
    → Row k db
    → n.tailnet_id ≡ k.tailnet_id
    → n.name ≡ k.name
    → n.name_idx ≡ k.name_idx
    → n.id ≡ k.id

-- The rows that a step leaves are rows of before, or the one that it edited.
Step-Row :
    (db : Db) (m : Machine) {db' : Db}
    → Step db m db'
    → (n : Machine) → Row n db'
    → Row n db ⊎ ((m' : Machine) × IsEdit db m m' × (m' ≡ n))
unfolding notify_all save_and_notify delete_machine
Step-Row db m unchanged n at = inl at
Step-Row db m told n at = inl at
Step-Row db m (edited m' e) n at = elim (Row-save_machine db m' n at) [
  | inl same ↦ inr (m', e, same)
  | inr (old, _) ↦ inl old
]
Step-Row db m (removed id same) n at = inl (kept_row (λ k. not (k.id == id)) n db.machines at)

Step-IsKeyed : (db : Db) (m : Machine) {db' : Db} → Step db m db' → IsKeyed db → IsKeyed db'
unfolding notify_all save_and_notify delete_machine
Step-IsKeyed db m unchanged h = h
Step-IsKeyed db m told h = h
Step-IsKeyed db m (edited m' e) h = λ n k at_n at_k same.
    keyed n k (Row-save_machine db m' n at_n) (Row-save_machine db m' k at_k) same
  where
    keyed :
        (n k : Machine)
        → (m' ≡ n) ⊎ (Row n db × (n.id ≢ m'.id))
        → (m' ≡ k) ⊎ (Row k db × (k.id ≢ m'.id))
        → n.id ≡ k.id
        → n ≡ k
    keyed n k (inl e) (inl f) same = sym e ∙ f
    keyed n k (inl e) (inr (_, other)) same = absurd (other (sym same ∙ ap (λ j. j.id) (sym e)))
    keyed n k (inr (_, other)) (inl f) same = absurd (other (same ∙ ap (λ j. j.id) (sym f)))
    keyed n k (inr (at_n, _)) (inr (at_k, _)) same = h n k at_n at_k same
Step-IsKeyed db m (removed id e) h = λ n k at_n at_k.
    h n k (kept_row (λ j. not (j.id == id)) n db.machines at_n)
      (kept_row (λ j. not (j.id == id)) k db.machines at_k)

-- An edited machine shares its name only with the row that it edits.
edit_unique :
    (db : Db) (m m' k : Machine)
    → Row m db
    → HasUniqueNames db
    → IsEdit db m m'
    → Row k db
    → m'.tailnet_id ≡ k.tailnet_id
    → m'.name ≡ k.name
    → m'.name_idx ≡ k.name_idx
    → m'.id ≡ k.id
edit_unique db m m' k at h e at_k t x i = elim (e.named) [
  | inl (name, idx) ↦
      e.same_id ∙ h m k at at_k (sym e.same_tailnet ∙ t) (sym name ∙ x) (sym idx ∙ i)
  | inr fresh ↦ absurd (clash db.machines fresh at_k)
]
  where
    clash :
        (ms : List Machine)
        → All
            (λ n. n.tailnet_id ≡ m'.tailnet_id → n.name ≡ m'.name → n.name_idx ≡ m'.name_idx → ⊥)
            ms
        → Any (λ n. n ≡ k) ms
        → ⊥
    clash [] f g = g
    clash (n ∷ ms) (f, _) (inl e) =
        f (ap (λ j. j.tailnet_id) e ∙ sym t) (ap (λ j. j.name) e ∙ sym x)
          (ap (λ j. j.name_idx) e ∙ sym i)
    clash (n ∷ ms) (_, f) (inr g) = clash ms f g

Step-HasUniqueNames :
    (db : Db) (m : Machine) {db' : Db}
    → Step db m db'
    → Row m db
    → HasUniqueNames db
    → HasUniqueNames db'
Step-HasUniqueNames db m s at h n k at_n at_k t x i =
    unique (Step-Row db m s n at_n) (Step-Row db m s k at_k)
  where
    unique :
        Row n db ⊎ ((m' : Machine) × IsEdit db m m' × (m' ≡ n))
        → Row k db ⊎ ((m' : Machine) × IsEdit db m m' × (m' ≡ k))
        → n.id ≡ k.id
    unique (inl old) (inl before) = h n k old before t x i
    unique (inl old) (inr (m', e, f)) =
        sym (edit_unique db m k n at h (subst (IsEdit db m) f e) old (sym t) (sym x) (sym i))
    unique (inr (m', e, f)) (inl before) =
        edit_unique db m n k at h (subst (IsEdit db m) f e) before t x i
    unique (inr (m', e, f)) (inr (k', g, l)) =
        ap (λ j. j.id) (sym f) ∙ e.same_id ∙ sym g.same_id ∙ ap (λ j. j.id) l

-- A call that is refused or fails leaves the database as it was.
abbrev after : Db → Answer Db → Db
after db (answer db') = db'
after db _ = db

module _ (lib : NameLib) (net : AddrText) where
  -- Calls in a row, each with its principal and its machine.
  unfoldable pub serve_all : Db → List (Principal × ℕ × Call) → Db
  unfolding serve
  serve_all db [] = db
  serve_all db ((p, id, call) ∷ calls) = serve_all (after db (serve lib net p db id call)) calls

  after-keeps :
      (db : Db) (p : Principal) (id : ℕ) (call : Call) (r : Answer Db)
      → serve lib net p db id call ≡ r
      → IsKeyed db
      → HasUniqueNames db
      → IsKeyed (after db r) × HasUniqueNames (after db r)
  after-keeps db p id call (answer db') e keyed unique =
      let (m, found, s) = serve-Step lib net p db id call db' e in
      let (at, _) = get_machine-Row db id m ((permitted_lem p db id m found).0) in
      (Step-IsKeyed db m s keyed, Step-HasUniqueNames db m s at unique)
  after-keeps db p id call (refused code) e keyed unique = (keyed, unique)
  after-keeps db p id call internal e keyed unique = (keyed, unique)
  after-keeps db p id call crash e keyed unique = (keyed, unique)

  -- Where each id is that of one row, and no two machines of a tailnet have one name with one index, both
  -- still hold after any calls that change machines, whoever makes them.
  pub serve_all-HasUniqueNames :
      (db : Db) (calls : List (Principal × ℕ × Call))
      → IsKeyed db
      → HasUniqueNames db
      → IsKeyed (serve_all db calls) × HasUniqueNames (serve_all db calls)
  unfolding serve_all
  serve_all-HasUniqueNames db [] keyed unique = (keyed, unique)
  serve_all-HasUniqueNames db ((p, id, call) ∷ calls) keyed unique =
      let (keyed', unique') =
        after-keeps db p id call (serve lib net p db id call) refl keyed unique in
      serve_all-HasUniqueNames (after db (serve lib net p db id call)) calls keyed' unique'
