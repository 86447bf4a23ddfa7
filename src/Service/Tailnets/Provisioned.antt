-- ===== src/Service/Tailnets/Provisioned.antt =====
-- internal/service/tailnet.go, acl.go and iam.go: the names and the organizations of the tailnets, whatever
-- is called.
use ionskale.Prelude.{
  String, List, [], ◌∷◌, Bool, true, false, not, ◌≡◌, ◌≢◌, ◌⊎◌, inl, inr, ap, sym, ◌∙◌, Bool-cases,
  keep, take_first,
}
use ionskale.Machine.{Tailnet}
use ionskale.Acl.{is_some}
use ionskale.Tables.{saved}
use ionskale.SignIn.Roles.Rows.{
  HasDistinctIds, IsIn, same_id, saved_row, distinct_saved, keep_distinct, kept_at,
}

-- No two rows have one id, one name, or one organization that is not empty.
pub record IsProvisioned (ts : List Tailnet) : Type 0 where
  pub ids : HasDistinctIds ts
  pub names : (t u : Tailnet) → IsIn t ts → IsIn u ts → t.name ≡ u.name → t.id ≡ u.id
  pub organizations :
      (t u : Tailnet)
      → IsIn t ts
      → IsIn u ts
      → t.organization ≡ u.organization
      → t.organization ≢ ""
      → t.id ≡ u.id

-- No row has the name, or the organization, where it is not empty.
abbrev pub IsFreeName : List Tailnet → String → Type 0
IsFreeName ts name = (t : Tailnet) → IsIn t ts → t.name ≢ name

abbrev pub IsFreeOrganization : List Tailnet → String → Type 0
IsFreeOrganization ts o = (t : Tailnet) → IsIn t ts → t.organization ≡ o → o ≡ ""

-- What a call does to the rows.
pub data Change (ts : List Tailnet) : List Tailnet → Type 0 where
  stays : Change ts ts
  adds :
      (a : Tailnet)
      → IsFreeName ts a.name
      → IsFreeOrganization ts a.organization
      → Change ts (saved same_id ts a)
  updates :
      (t a : Tailnet)
      → IsIn t ts
      → a.id ≡ t.id
      → a.organization ≡ t.organization
      → ((a.name ≡ t.name) ⊎ IsFreeName ts a.name)
      → Change ts (saved same_id ts a)
  drops : (p : Tailnet → Bool) → Change ts (keep p ts)

-- A row that shares its name, and its organization, with rows of its own id only.
saved-IsProvisioned :
    (ts : List Tailnet) (a : Tailnet)
    → IsProvisioned ts
    → ((t : Tailnet) → IsIn t ts → t.name ≡ a.name → t.id ≡ a.id)
    → ((t : Tailnet)
        → IsIn t ts
        → t.organization ≡ a.organization
        → a.organization ≢ ""
        → t.id ≡ a.id)
    → IsProvisioned (saved same_id ts a)
saved-IsProvisioned ts a h name org = record {
  ids = distinct_saved ts a h.ids;
  names = λ t u at there e. both t u (saved_row ts a t h.ids at) (saved_row ts a u h.ids there) e;
  organizations =
      λ t u at there e f. orgs t u (saved_row ts a t h.ids at) (saved_row ts a u h.ids there) e f;
}
  where
    both :
        (t u : Tailnet)
        → (t ≡ a) ⊎ (IsIn t ts × (t.id ≢ a.id))
        → (u ≡ a) ⊎ (IsIn u ts × (u.id ≢ a.id))
        → t.name ≡ u.name
        → t.id ≡ u.id
    both t u (inl e) (inl f) same = ap (λ x. x.id) (e ∙ sym f)
    both t u (inl e) (inr (at, h)) same = absurd (h (name u at (sym same ∙ ap (λ x. x.name) e)))
    both t u (inr (at, h)) (inl e) same = absurd (h (name t at (same ∙ ap (λ x. x.name) e)))
    both t u (inr (at, p)) (inr (there, q)) same = h.names t u at there same

    orgs :
        (t u : Tailnet)
        → (t ≡ a) ⊎ (IsIn t ts × (t.id ≢ a.id))
        → (u ≡ a) ⊎ (IsIn u ts × (u.id ≢ a.id))
        → t.organization ≡ u.organization
        → t.organization ≢ ""
        → t.id ≡ u.id
    orgs t u (inl e) (inl f) same given = ap (λ x. x.id) (e ∙ sym f)
    orgs t u (inl e) (inr (at, h)) same given = absurd (
        h (
          org u at (sym same ∙ ap (λ x. x.organization) e)
            (λ none_is. given (ap (λ x. x.organization) e ∙ none_is))))
    orgs t u (inr (at, h)) (inl e) same given =
        let f = same ∙ ap (λ x. x.organization) e in
        absurd (h (org t at f (λ none_is. given (f ∙ none_is))))
    orgs t u (inr (at, p)) (inr (there, q)) same given = h.organizations t u at there same given

pub Change-IsProvisioned :
    (ts us : List Tailnet) → Change ts us → IsProvisioned ts → IsProvisioned us
Change-IsProvisioned ts _ stays h = h
Change-IsProvisioned ts _ (adds a name org) h =
    saved-IsProvisioned ts a h (λ t at e. absurd (name t at e))
      (λ t at e f. absurd (f (org t at e)))
Change-IsProvisioned ts _ (updates t a there id org name) h =
    saved-IsProvisioned ts a h (names name)
      (λ u at e f. h.organizations u t at there (e ∙ org) (λ none_is. f (sym e ∙ none_is)) ∙ sym id)
  where
    names :
        (a.name ≡ t.name) ⊎ IsFreeName ts a.name
        → (u : Tailnet) → IsIn u ts
        → u.name ≡ a.name
        → u.id ≡ a.id
    names (inl same) u at e = h.names u t at there (e ∙ same) ∙ sym id
    names (inr free) u at e = absurd (free u at e)
Change-IsProvisioned ts _ (drops p) h = record {
  ids = keep_distinct p ts h.ids;
  names = λ t u at there e. h.names t u (kept_at p ts t at).0 (kept_at p ts u there).0 e;
  organizations =
      λ t u at there e f. h.organizations t u (kept_at p ts t at).0 (kept_at p ts u there).0 e f;
}

pub free :
    (p : Tailnet → Bool) (ts : List Tailnet) (t : Tailnet)
    → not (is_some (take_first p ts)) ≡ true
    → IsIn t ts
    → p t ≡ false
free p [] t h at = absurd at
free p (u ∷ ts) t h at = elim (Bool-cases (p u)) [
  | inl e ↦ absurd (let z : false ≡ true = rw e at h in cc)
  | inr e ↦ elim at [ inl same ↦ sym (ap p same) ∙ e | inr there ↦ free p ts t (rw e at h) there ]
]
