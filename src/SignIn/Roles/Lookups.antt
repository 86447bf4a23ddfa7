-- ===== src/SignIn/Roles/Lookups.antt =====
-- internal/handlers/authentication.go: the roles of one tailnet that `syncOrgRoles` writes.
use ionskale.Prelude.{
  String, List, [], ◌∷◌, Bool, true, false, ◌≡◌, inl, inr, refl, ap, ◌∙◌, Option, none, some,
  Bool-cases, str_eq, eq_iff, lookup, arith, if◌then◌else◌,
}
use ionskale.Machine.{Tailnet}
use ionskale.Identity.{user_role_admin}
use ionskale.SignIn.Access.{without_role, has_admin, synced_tailnet}

-- What a role becomes: admin, none where it was admin, or what it was.
abbrev pub synced_role : Bool → Option String → Option String
synced_role true role = some user_role_admin
synced_role false role = if has_admin role then none else role

pub lookup-without_role :
    (name n : String) (roles : List (String × String))
    → lookup n (without_role name roles) ≡ (if str_eq n name then none else lookup n roles)
unfolding lookup without_role
lookup-without_role name n [] = ground arith
lookup-without_role name n ((m, r) ∷ roles) =
    ground (arith, lookup-without_role name n roles, eq_iff m name, eq_iff m n, eq_iff n name)

-- The row of a tailnet with its policy synced.
abbrev pub or_same : Tailnet → Option Tailnet → Tailnet
or_same t none = t
or_same t (some s) = s

abbrev pub synced : Bool → String → Tailnet → Tailnet
synced admin name t = or_same t (synced_tailnet admin name t)

pub synced-id :
    (admin : Bool) (name : String) (t : Tailnet)
    → ((synced admin name t).id ≡ t.id) × ((synced admin name t).organization ≡ t.organization)
unfolding synced_tailnet
synced-id true name t = elim (Bool-cases (has_admin (lookup name t.iam_policy.roles))) [
  | inl e ↦ rw e (refl, refl)
  | inr e ↦ rw e (refl, refl)
]
synced-id false name t = elim (Bool-cases (has_admin (lookup name t.iam_policy.roles))) [
  | inl e ↦ rw e (refl, refl)
  | inr e ↦ rw e (refl, refl)
]

-- Only the roles of a row are written.
pub synced-with_roles :
    (admin : Bool) (name : String) (t : Tailnet)
    → synced admin name t ≡ record t {
      iam_policy = record t.iam_policy { roles = (synced admin name t).iam_policy.roles };
    }
unfolding synced_tailnet
synced-with_roles true name t = elim (Bool-cases (has_admin (lookup name t.iam_policy.roles))) [
  | inl e ↦ rw e refl
  | inr e ↦ rw e refl
]
synced-with_roles false name t = elim (Bool-cases (has_admin (lookup name t.iam_policy.roles))) [
  | inl e ↦ rw e refl
  | inr e ↦ rw e refl
]

pub is_admin_role : (role : Option String) → has_admin role ≡ true → role ≡ some user_role_admin
is_admin_role none h = ground arith
is_admin_role (some r) h = ap some ((eq_iff r user_role_admin).0 h)

pub lookup-with_role :
    (name n r : String) (roles : List (String × String))
    → lookup n ((name, r) ∷ without_role name roles)
      ≡ (if str_eq n name then some r else lookup n roles)
unfolding lookup
lookup-with_role name n r roles =
    ground (arith, lookup-without_role name n roles, eq_iff name n, eq_iff n name)

-- The role of a name in roles where that of another name is known.
pub lookup-admin :
    (name n : String) (roles : List (String × String))
    → has_admin (lookup name roles) ≡ true
    → lookup n roles ≡ (if str_eq n name then some user_role_admin else lookup n roles)
lookup-admin name n roles h = elim (Bool-cases (str_eq n name)) [
  | inl f ↦ rw f (rw ((eq_iff n name).0 f) (is_admin_role (lookup name roles) h))
  | inr f ↦ rw f refl
]

pub lookup-dropped :
    (name n : String) (roles : List (String × String))
    → has_admin (lookup name roles) ≡ true
    → (if str_eq n name then none else lookup n roles)
      ≡ (if str_eq n name then synced_role false (lookup n roles) else lookup n roles)
lookup-dropped name n roles h = elim (Bool-cases (str_eq n name)) [
  | inl f ↦ rw f (rw ((eq_iff n name).0 f) (rw h refl))
  | inr f ↦ rw f refl
]

pub lookup-left :
    (name n : String) (roles : List (String × String))
    → has_admin (lookup name roles) ≡ false
    → lookup n roles
      ≡ (if str_eq n name then synced_role false (lookup n roles) else lookup n roles)
lookup-left name n roles h = elim (Bool-cases (str_eq n name)) [
  | inl f ↦ rw f (rw ((eq_iff n name).0 f) (rw h refl))
  | inr f ↦ rw f refl
]

pub synced-lookup :
    (admin : Bool) (name : String) (t : Tailnet) (n : String)
    → lookup n (synced admin name t).iam_policy.roles ≡ (
        if str_eq n name
        then synced_role admin (lookup n t.iam_policy.roles)
        else lookup n t.iam_policy.roles)
unfolding synced_tailnet
synced-lookup true name t n = elim (Bool-cases (has_admin (lookup name t.iam_policy.roles))) [
  | inl e ↦ rw e (lookup-admin name n t.iam_policy.roles e)
  | inr e ↦ rw e (lookup-with_role name n user_role_admin t.iam_policy.roles)
]
synced-lookup false name t n = elim (Bool-cases (has_admin (lookup name t.iam_policy.roles))) [
  | inl e ↦
      rw e
        (lookup-without_role name n t.iam_policy.roles ∙ lookup-dropped name n t.iam_policy.roles e)
  | inr e ↦ rw e (lookup-left name n t.iam_policy.roles e)
]
