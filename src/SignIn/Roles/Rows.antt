-- ===== src/SignIn/Roles/Rows.antt =====
-- domain/tailnet.go: the rows of the table of tailnets that a save and a query leave.
use ionskale.Prelude.{
  List, [], ◌∷◌, map, Bool, true, false, ◌≡◌, ◌≢◌, ◌⊎◌, inl, inr, refl, ap, sym, subst, ◌∙◌, Any,
  All, Bool-cases, ◌==◌, ==_iff, keep,
}
use ionskale.Machine.{Tailnet}
use ionskale.Tables.{saved}

-- No two rows have one id.
abbrev pub HasDistinctIds : List Tailnet → Type 0
HasDistinctIds [] = Unit
HasDistinctIds (t ∷ ts) = All (λ x. x.id ≢ t.id) ts × HasDistinctIds ts

abbrev pub IsIn : Tailnet → List Tailnet → Type 0
IsIn t ts = Any (λ x. x ≡ t) ts

abbrev pub same_id : Tailnet → Tailnet → Bool
same_id b a = b.id == a.id

pub all_at : (P : Tailnet → Type 0) (ts : List Tailnet) (x : Tailnet) → All P ts → IsIn x ts → P x
all_at P [] x h at = absurd at
all_at P (t ∷ ts) x (p, h) (inl e) = subst P e p
all_at P (t ∷ ts) x (p, h) (inr at) = all_at P ts x h at

pub all_saved :
    (P : Tailnet → Type 0) (ts : List Tailnet) (a : Tailnet)
    → All P ts
    → P a
    → All P (saved same_id ts a)
all_saved P [] a h p = (p, tt)
all_saved P (t ∷ ts) a (q, h) p = elim (Bool-cases (t.id == a.id)) [
  | inl e ↦ rw e (p, h)
  | inr e ↦ rw e (q, all_saved P ts a h p)
]

pub saved_row :
    (ts : List Tailnet) (a x : Tailnet)
    → HasDistinctIds ts
    → IsIn x (saved same_id ts a)
    → (x ≡ a) ⊎ (IsIn x ts × (x.id ≢ a.id))
saved_row [] a x d (inl e) = inl (sym e)
saved_row [] a x d (inr h) = absurd h
saved_row (t ∷ ts) a x (d, ds) at = elim (Bool-cases (t.id == a.id)) [
  | inl e ↦ first e (rw e at at)
  | inr e ↦ later e (saved_row ts a x ds) (rw e at at)
]
  where
    first : (t.id == a.id) ≡ true → IsIn x (a ∷ ts) → (x ≡ a) ⊎ (IsIn x (t ∷ ts) × (x.id ≢ a.id))
    first e (inl f) = inl (sym f)
    first e (inr there) = inr (
      inr there,
      (λ f. all_at (λ y. y.id ≢ t.id) ts x d there (f ∙ sym ((==_iff t.id a.id).0 e))),
    )

    later :
        (t.id == a.id) ≡ false
        → (IsIn x (saved same_id ts a) → (x ≡ a) ⊎ (IsIn x ts × (x.id ≢ a.id)))
        → IsIn x (t ∷ saved same_id ts a)
        → (x ≡ a) ⊎ (IsIn x (t ∷ ts) × (x.id ≢ a.id))
    later e rest (inl f) =
        inr (inl f, (λ g. let h = (==_iff t.id a.id).1 (ap (λ y. y.id) f ∙ g) in cc))
    later e rest (inr there) = elim (rest there) [
      | inl f ↦ inl f
      | inr (found, f) ↦ inr (inr found, f)
    ]

pub distinct_saved :
    (ts : List Tailnet) (a : Tailnet) → HasDistinctIds ts → HasDistinctIds (saved same_id ts a)
distinct_saved [] a d = (tt, tt)
distinct_saved (t ∷ ts) a (d, ds) = elim (Bool-cases (t.id == a.id)) [
  | inl e ↦ rw e (subst (λ i. All (λ x. x.id ≢ i) ts) ((==_iff t.id a.id).0 e) d, ds)
  | inr e ↦ rw e (
    all_saved (λ x. x.id ≢ t.id) ts a d (λ f. let h = (==_iff t.id a.id).1 (sym f) in cc),
    distinct_saved ts a ds,
  )
]

pub saved_other :
    (ts : List Tailnet) (a x : Tailnet) → IsIn x ts → x.id ≢ a.id → IsIn x (saved same_id ts a)
saved_other [] a x at h = absurd at
saved_other (t ∷ ts) a x (inl e) h = elim (Bool-cases (t.id == a.id)) [
  | inl f ↦ absurd (h (sym (ap (λ y. y.id) e) ∙ (==_iff t.id a.id).0 f))
  | inr f ↦ rw f (inl e)
]
saved_other (t ∷ ts) a x (inr at) h = elim (Bool-cases (t.id == a.id)) [
  | inl e ↦ rw e (inr at)
  | inr e ↦ rw e (inr (saved_other ts a x at h))
]

pub saved-ids :
    (ts : List Tailnet) (t a : Tailnet)
    → IsIn t ts
    → a.id ≡ t.id
    → map (λ x. x.id) (saved same_id ts a) ≡ map (λ x. x.id) ts
saved-ids [] t a at e = absurd at
saved-ids (x ∷ ts) t a (inl f) e =
    let h : (x.id == a.id) ≡ true = (==_iff x.id a.id).1 (ap (λ y. y.id) f ∙ sym e) in
    rw h (ap (λ i. i ∷ map (λ y. y.id) ts) (sym ((==_iff x.id a.id).0 h)))
saved-ids (x ∷ ts) t a (inr at) e = elim (Bool-cases (x.id == a.id)) [
  | inl f ↦ rw f (ap (λ i. i ∷ map (λ y. y.id) ts) (sym ((==_iff x.id a.id).0 f)))
  | inr f ↦ rw f (ap (λ is. x.id ∷ is) (saved-ids ts t a at e))
]

-- Rows with one id are one row, where no two have one.
pub same_row :
    (s : List Tailnet) (x t : Tailnet)
    → HasDistinctIds s
    → IsIn x s
    → IsIn t s
    → x.id ≡ t.id
    → x ≡ t
same_row [] x t d here there e = absurd here
same_row (y ∷ s) x t (d, ds) (inl f) (inl g) e = sym f ∙ g
same_row (y ∷ s) x t (d, ds) (inl f) (inr g) e =
    absurd (all_at (λ z. z.id ≢ y.id) s t d g (let h = ap (λ z. z.id) f in cc))
same_row (y ∷ s) x t (d, ds) (inr f) (inl g) e =
    absurd (all_at (λ z. z.id ≢ y.id) s x d f (let h = ap (λ z. z.id) g in cc))
same_row (y ∷ s) x t (d, ds) (inr f) (inr g) e = same_row s x t ds f g e

pub keep_ids :
    (p : Tailnet → Bool) (P : Tailnet → Type 0) (ts : List Tailnet) → All P ts → All P (keep p ts)
keep_ids p P [] h = tt
keep_ids p P (t ∷ ts) (q, h) = elim (Bool-cases (p t)) [
  | inl e ↦ rw e (q, keep_ids p P ts h)
  | inr e ↦ rw e (keep_ids p P ts h)
]

pub keep_distinct :
    (p : Tailnet → Bool) (ts : List Tailnet) → HasDistinctIds ts → HasDistinctIds (keep p ts)
keep_distinct p [] d = tt
keep_distinct p (t ∷ ts) (d, ds) = elim (Bool-cases (p t)) [
  | inl e ↦ rw e (keep_ids p (λ x. x.id ≢ t.id) ts d, keep_distinct p ts ds)
  | inr e ↦ rw e (keep_distinct p ts ds)
]

pub keep_row :
    (p : Tailnet → Bool) (ts : List Tailnet) (x : Tailnet)
    → IsIn x ts
    → p x ≡ true
    → IsIn x (keep p ts)
keep_row p [] x at e = absurd at
keep_row p (t ∷ ts) x (inl f) e = let h : p t ≡ true = ap p f ∙ e in rw h (inl f)
keep_row p (t ∷ ts) x (inr at) e = elim (Bool-cases (p t)) [
  | inl f ↦ rw f (inr (keep_row p ts x at e))
  | inr f ↦ rw f (keep_row p ts x at e)
]

pub kept_at :
    (p : Tailnet → Bool) (ts : List Tailnet) (x : Tailnet)
    → IsIn x (keep p ts)
    → IsIn x ts × (p x ≡ true)
kept_at p [] x at = absurd at
kept_at p (t ∷ ts) x at = elim (Bool-cases (p t)) [
  | inl f ↦ here f (kept_at p ts x) (rw f at at)
  | inr f ↦ (let (found, e) = kept_at p ts x (rw f at at) in (inr found, e))
]
  where
    here :
        p t ≡ true
        → (IsIn x (keep p ts) → IsIn x ts × (p x ≡ true))
        → IsIn x (t ∷ keep p ts)
        → IsIn x (t ∷ ts) × (p x ≡ true)
    here f rest (inl e) = (inl e, sym (ap p e) ∙ f)
    here f rest (inr there) = (let (found, e) = rest there in (inr found, e))

pub all_of :
    (P : Tailnet → Type 0) (ts : List Tailnet) → ((x : Tailnet) → IsIn x ts → P x) → All P ts
all_of P [] h = tt
all_of P (t ∷ ts) h = (h t (inl refl), all_of P ts (λ x at. h x (inr at)))

pub all_rows :
    (ts us : List Tailnet) → ((x : Tailnet) → IsIn x ts → IsIn x us) → All (λ x. IsIn x us) ts
all_rows ts us h = all_of (λ x. IsIn x us) ts h
