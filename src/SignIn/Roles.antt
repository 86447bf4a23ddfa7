-- ===== src/SignIn/Roles.antt =====
-- internal/handlers/authentication.go: the roles that `syncOrgRoles` leaves.
pub mod Rows
mod Lookups
use ionskale.Prelude.{
  ℕ, String, List, [], ◌∷◌, map, Bool, true, false, not, ◌&&◌, ◌||◌, ◌≡◌, ◌≢◌, ◌⊎◌, inl, inr, refl,
  ap, sym, subst, ◌∙◌, Option, none, some, Any, All, Any-map, any_of_Any, Bool-cases, str_eq,
  eq_iff, eq_refl, lookup, ◌==◌, ==_iff, arith, keep, if◌then◌else◌,
}
use ionskale.Machine.{Tailnet, User}
use ionskale.Identity.{get_role, user_role_admin, or_member}
use ionskale.Service.AuthKeys.{KeyStore}
use ionskale.Tables.{saved, save_tailnet, list_tailnets_by_organization}
use ionskale.SignIn.{Site, AuthUser, enabled}
use ionskale.SignIn.Access.{
  is_admin, without_role, with_roles, has_admin, synced_tailnet, save_if, sync_tailnets,
  sync_org_roles,
}
use ionskale.SignIn.Roles.Rows.{
  HasDistinctIds, IsIn, same_id, all_at, all_saved, saved_row, distinct_saved, saved_other,
  saved-ids, same_row, keep_ids, keep_distinct, keep_row, kept_at, all_of, all_rows,
}
use ionskale.SignIn.Roles.Lookups.{
  synced_role, lookup-without_role, or_same, synced, synced-id, synced-with_roles, is_admin_role,
  lookup-with_role, lookup-admin, lookup-dropped, lookup-left, synced-lookup,
}

-- One row of the loop.
abbrev after_row : Bool → String → Tailnet → KeyStore → KeyStore
after_row admin name t s = save_if (synced_tailnet admin name t) s

after_row-distinct :
    (c : Option Tailnet) (s : KeyStore)
    → HasDistinctIds s.tailnets
    → HasDistinctIds (save_if c s).tailnets
unfolding save_tailnet
after_row-distinct none s d = d
after_row-distinct (some t) s d = distinct_saved s.tailnets t d

-- A row afterwards is the row that was saved, or was there with another id.
after_row-IsIn :
    (c : Option Tailnet) (t : Tailnet) (s : KeyStore) (x : Tailnet)
    → (or_same t c).id ≡ t.id
    → HasDistinctIds s.tailnets
    → IsIn t s.tailnets
    → IsIn x (save_if c s).tailnets
    → (x ≡ or_same t c) ⊎ (IsIn x s.tailnets × (x.id ≢ t.id))
unfolding save_tailnet
after_row-IsIn none t s x e d row at = elim (Bool-cases (x.id == t.id)) [
  | inl f ↦ inl (same_row s.tailnets x t d at row ((==_iff x.id t.id).0 f))
  | inr f ↦ inr (at, (λ g. let h = (==_iff x.id t.id).1 g in cc))
]
after_row-IsIn (some t2) t s x e d row at = elim (saved_row s.tailnets t2 x d at) [
  | inl f ↦ inl f
  | inr (f, g) ↦ inr (f, (λ h. g (h ∙ sym e)))
]

after_row-kept :
    (c : Option Tailnet) (t : Tailnet) (s : KeyStore) (x : Tailnet)
    → (or_same t c).id ≡ t.id
    → x.id ≢ t.id
    → IsIn x s.tailnets
    → IsIn x (save_if c s).tailnets
unfolding save_tailnet
after_row-kept none t s x e h at = at
after_row-kept (some t2) t s x e h at = saved_other s.tailnets t2 x at (λ f. h (f ∙ e))

after_row-ids :
    (c : Option Tailnet) (t : Tailnet) (s : KeyStore)
    → (or_same t c).id ≡ t.id
    → IsIn t s.tailnets
    → map (λ x. x.id) (save_if c s).tailnets ≡ map (λ x. x.id) s.tailnets
unfolding save_tailnet
after_row-ids none t s e row = refl
after_row-ids (some t2) t s e row = saved-ids s.tailnets t t2 row e

module _ (admin : Bool) (name : String) where
  after_rows :
      (t : Tailnet) (ts : List Tailnet) (s : KeyStore)
      → All (λ x. x.id ≢ t.id) ts
      → All (λ x. IsIn x s.tailnets) ts
      → All (λ x. IsIn x (after_row admin name t s).tailnets) ts
  after_rows t [] s e rows = tt
  after_rows t (x ∷ ts) s (e, es) (row, rows) = (
    after_row-kept (synced_tailnet admin name t) t s x (synced-id admin name t).0 e row,
    after_rows t ts s es rows,
  )

  -- A row after the loop: it was there and none of the loop's, or it is a row of the loop, synced.
  pub synced_row :
      (ts : List Tailnet) (s : KeyStore) (x : Tailnet)
      → HasDistinctIds s.tailnets
      → HasDistinctIds ts
      → All (λ t. IsIn t s.tailnets) ts
      → IsIn x (sync_tailnets admin name ts s).tailnets
      → (IsIn x s.tailnets × All (λ t. t.id ≢ x.id) ts)
        ⊎ ((t : Tailnet) × IsIn t ts × (x ≡ synced admin name t))
  unfolding sync_tailnets
  synced_row [] s x d e rows at = inl (at, tt)
  synced_row (t ∷ ts) s x d (e, es) (row, rows) at =
      elim (synced_row ts (after_row admin name t s) x
        (after_row-distinct (synced_tailnet admin name t) s d) es (after_rows t ts s e rows) at) [
          | inl (there, others) ↦
              elim (after_row-IsIn (synced_tailnet admin name t) t s x (synced-id admin name t).0 d
                row there) [
                  | inl f ↦ inr (t, inl refl, f)
                  | inr (was, h) ↦ inl (was, ((λ f. h (sym f)), others))
                ]
          | inr (y, found, f) ↦ inr (y, inr found, f)
        ]

  kept_ids :
      (ts : List Tailnet) (s : KeyStore)
      → HasDistinctIds ts
      → All (λ t. IsIn t s.tailnets) ts
      → map (λ x. x.id) (sync_tailnets admin name ts s).tailnets ≡ map (λ x. x.id) s.tailnets
  unfolding sync_tailnets
  kept_ids [] s d rows = refl
  kept_ids (t ∷ ts) s (d, ds) (row, rows) =
      kept_ids ts (after_row admin name t s) ds (after_rows t ts s d rows)
      ∙ after_row-ids (synced_tailnet admin name t) t s (synced-id admin name t).0 row

-- The role that a row gives a name after the sync: in a tailnet of the organization the role of the
-- name that is synced is admin, or not admin, as the provider says, and every other role stays.
abbrev pub role_after : Bool → String → String → Tailnet → String → Option String
role_after admin name org t n =
    if str_eq t.organization org && str_eq n name
    then synced_role admin (lookup n t.iam_policy.roles)
    else lookup n t.iam_policy.roles

-- A row of the tables after the sync is one before it with the roles of its policy written again.
abbrev pub IsSynced : Bool → String → String → List Tailnet → Tailnet → Type 0
IsSynced admin name org before x =
    (t : Tailnet) × IsIn t before
    × (x ≡ record t { iam_policy = record t.iam_policy { roles = x.iam_policy.roles } })
    × ((n : String) → lookup n x.iam_policy.roles ≡ role_after admin name org t n)

module _ (admin : Bool) (name org : String) where
  abbrev of_org : Tailnet → Bool
  of_org t = str_eq t.organization org

  untouched :
      (s : List Tailnet) (x : Tailnet)
      → IsIn x s
      → All (λ t. t.id ≢ x.id) (keep of_org s)
      → IsSynced admin name org s x
  untouched s x there others = (
    x,
    there,
    refl,
    λ n. elim (Bool-cases (of_org x)) [
      | inl e ↦
          absurd
            (all_at (λ t. t.id ≢ x.id) (keep of_org s) x others (keep_row of_org s x there e) refl)
      | inr e ↦ rw e refl
    ],
  )

  touched :
      (s : List Tailnet) (x t : Tailnet)
      → IsIn t (keep of_org s)
      → x ≡ synced admin name t
      → IsSynced admin name org s x
  touched s x t found e =
      let (there, f) = kept_at of_org s t found in
      (
        t,
        there,
        subst
            (λ y. y ≡ record t { iam_policy = record t.iam_policy { roles = y.iam_policy.roles } })
            (sym e) (synced-with_roles admin name t),
        (λ n. ap (λ y. lookup n y.iam_policy.roles) e ∙ rw f (synced-lookup admin name t n)),
      )

  row_after :
      (s : KeyStore) (x : Tailnet)
      → HasDistinctIds s.tailnets
      → IsIn x (sync_tailnets admin name (keep of_org s.tailnets) s).tailnets
      → IsSynced admin name org s.tailnets x
  row_after s x d at =
      elim (synced_row admin name (keep of_org s.tailnets) s x d (keep_distinct of_org s.tailnets d)
        (all_rows (keep of_org s.tailnets) s.tailnets (λ y h. (kept_at of_org s.tailnets y h).0))
        at) [
          | inl (there, others) ↦ untouched s.tailnets x there others
          | inr (t, found, e) ↦ touched s.tailnets x t found e
        ]

  rows_after :
      (s : KeyStore)
      → HasDistinctIds s.tailnets
      → All
          (IsSynced admin name org s.tailnets)
          (sync_tailnets admin name (keep of_org s.tailnets) s).tailnets
  rows_after s d =
      all_of (IsSynced admin name org s.tailnets)
        (sync_tailnets admin name (keep of_org s.tailnets) s).tailnets (λ x. row_after s x d)

  ids_after :
      (s : KeyStore)
      → HasDistinctIds s.tailnets
      → map (λ t. t.id) (sync_tailnets admin name (keep of_org s.tailnets) s).tailnets
        ≡ map (λ t. t.id) s.tailnets
  ids_after s d =
      kept_ids admin name (keep of_org s.tailnets) s (keep_distinct of_org s.tailnets d)
        (all_rows (keep of_org s.tailnets) s.tailnets (λ y h. (kept_at of_org s.tailnets y h).0))

-- Organizations are enabled with a claim for roles, the identity has an organization, and no two
-- rows have one id. A row after the sync is one from before in which nothing but the roles of its
-- policy is written. In a tailnet of the identity's organization the role that is stored under the
-- identity's name (u.Name) is admin where the provider gives an admin role, and where it does not,
-- it is removed if it was admin and stays else. Every other role, and each role in another tailnet,
-- is what it was. The rows keep their ids and their order.
pub sync_org_roles-IsSynced :
    {Attr : Type 0} (site : Site Attr) (u : AuthUser Attr) (s : KeyStore)
    → enabled site.organizations ≡ true
    → str_eq site.organizations.roles_claim "" ≡ false
    → str_eq u.org "" ≡ false
    → HasDistinctIds s.tailnets
    → All (IsSynced (is_admin site u) u.name u.org s.tailnets) (sync_org_roles site s u).tailnets
      × (map (λ t. t.id) (sync_org_roles site s u).tailnets ≡ map (λ t. t.id) s.tailnets)
unfolding sync_org_roles list_tailnets_by_organization
sync_org_roles-IsSynced site u s e f g d = rw e (
    rw f (
      rw g (
        rows_after (is_admin site u) u.name u.org s d,
        ids_after (is_admin site u) u.name u.org s d,
      )))
