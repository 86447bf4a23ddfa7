-- ===== src/Service/Isolation.antt =====
-- internal/service/machine.go: which calls are refused, and what a call leaves alone.
use ionskale.Prelude.{
  ℕ, List, [], ◌∷◌, Bool, true, false, not, ◌&&◌, some, ◌≡◌, ◌≢◌, inl, inr, refl, ap, sym, subst,
  ◌∙◌, All, Any, any, map, keep, arith, str_eq, Bool-cases, ◌==◌, ==_iff, any_of_Any, Any-map,
  &&-eq-true,
}
use ionskale.Netip.{AddrText}
use ionskale.Machine.{Machine, User}
use ionskale.Lock.Db.{Db, save_machine, updated_row, notify_all, list_machine_by_tailnet}
use ionskale.Store.{get_machine, delete_machine}
use ionskale.Store.Rows.{Row, get_machine-Row}
use ionskale.Identity.{Principal, is_system_admin, is_tailnet_admin, user_role_admin}
use ionskale.Service.{
  answer, refused, Code, permission_denied, permitted, allowed, tailnet_check, save_and_notify,
}
use ionskale.Service.Machines.{NameLib}
use ionskale.Service.Steps.{
  Call, serve, Step, unchanged, told, edited, removed, serve-Step, permitted_lem, remove, expire,
  set_name, authorize, set_key_expiry, enable_routes, disable_routes, enable_exit, disable_exit,
}
use ionskale.Store.Saves.{IsKeyed}

everywhere :
    (P : Machine → Type 0) (ms : List Machine)
    → ((n : Machine) → Any (λ k. k ≡ n) ms → P n)
    → All P ms
everywhere P [] f = tt
everywhere P (m ∷ ms) f = (f m (inl refl), everywhere P ms (λ n at. f n (inr at)))

in_tailnet : ℕ → Machine → Bool
in_tailnet t m = m.tailnet_id == t

other_tailnet : (a b t : ℕ) → a ≡ b → t ≢ b → (a == t) ≡ false
other_tailnet a b t e f = ground (arith, ==_iff a t)

module _ (id s t : ℕ) (elsewhere : t ≢ s) where
  -- The rows of the id are in the tailnet `s`.
  abbrev IsAt : Machine → Type 0
  IsAt n = n.id ≡ id → n.tailnet_id ≡ s

  keep-updated :
      (m : Machine) (ms : List Machine)
      → m.id ≡ id
      → m.tailnet_id ≡ s
      → All IsAt ms
      → keep (λ n. n.tailnet_id == t) (map (updated_row m) ms) ≡ keep (λ n. n.tailnet_id == t) ms
  keep-updated m [] i u h = refl
  keep-updated m (n ∷ ms) i u (at, h) = elim (Bool-cases (n.id == m.id)) [
    | inl e ↦
        let away : (n.tailnet_id == t) ≡ false =
          other_tailnet n.tailnet_id s t (at (ground (arith, ==_iff n.id m.id))) elsewhere in
        rw e (rw (other_tailnet m.tailnet_id s t u elsewhere, away) (keep-updated m ms i u h))
    | inr e ↦ rw e (rw (keep-updated m ms i u h) refl)
  ]

  keep-deleted :
      (ms : List Machine)
      → All IsAt ms
      → keep (λ n. n.tailnet_id == t) (keep (λ n. not (n.id == id)) ms)
        ≡ keep (λ n. n.tailnet_id == t) ms
  keep-deleted [] h = refl
  keep-deleted (n ∷ ms) (at, h) = elim (Bool-cases (n.id == id)) [
    | inl e ↦
        let away : (n.tailnet_id == t) ≡ false =
          other_tailnet n.tailnet_id s t (at (ground (arith, ==_iff n.id id))) elsewhere in
        rw e (rw away (keep-deleted ms h))
    | inr e ↦ rw e (rw (keep-deleted ms h) refl)
  ]

-- A step leaves the rows of the other tailnets.
Step-isolated :
    (db : Db) (m : Machine) {db' : Db}
    → Step db m db'
    → IsKeyed db
    → Row m db
    → any (λ n. n.id == m.id) db.machines ≡ true
    → (t : ℕ) → t ≢ m.tailnet_id
    → list_machine_by_tailnet db' t ≡ list_machine_by_tailnet db t
unfolding notify_all save_and_notify save_machine delete_machine list_machine_by_tailnet
Step-isolated db m unchanged keyed at found t f = refl
Step-isolated db m told keyed at found t f = refl
Step-isolated db m (edited m' e) keyed at found t f =
    let same = subst (λ i. any (λ n. n.id == i) db.machines ≡ true) (sym e.same_id) found in
    rw same (
      keep-updated m.id m.tailnet_id t f m' db.machines e.same_id e.same_tailnet
        (everywhere _ db.machines (λ n row i. ap (λ k. k.tailnet_id) (keyed n m row at i))))
Step-isolated db m (removed id e) keyed at found t f =
    keep-deleted id m.tailnet_id t f db.machines
      (everywhere _ db.machines (λ n row i. ap (λ k. k.tailnet_id) (keyed n m row at (i ∙ e))))

any_row :
    (m : Machine) (ms : List Machine) → Any (λ k. k ≡ m) ms → any (λ n. n.id == m.id) ms ≡ true
any_row m ms at =
    any_of_Any (λ n. n.id == m.id) ms
      (Any-map ms
        (λ n e. let same : n.id ≡ m.id = ap (λ k. k.id) e in ground (arith, ==_iff n.id m.id)) at)

checked : (b : Bool) → tailnet_check (some b) ≡ answer tt → b ≡ true
checked true h = refl
checked false h = cc

-- Whoever is no system admin, and may administer a tailnet, is the admin of it.
pub allowed_tailnet :
    (p : Principal) (t : ℕ) (user : User)
    → p.user ≡ some user
    → is_system_admin p ≡ false
    → allowed p t ≡ answer tt
    → (user.tailnet_id ≡ t) × (str_eq p.user_role user_role_admin ≡ true)
unfolding allowed is_tailnet_admin
allowed_tailnet p t user u no_admin h =
    let both =
      checked (user.tailnet_id == t && str_eq p.user_role user_role_admin)
        (rw (no_admin, u) at h) in
    let (same, role) = &&-eq-true _ (str_eq p.user_role user_role_admin) both in
    (ground (arith, ==_iff user.tailnet_id t), role)

module _ (lib : NameLib) (net : AddrText) (p : Principal) (db : Db) (id : ℕ) where
  permitted-refused :
      (code : Code)
      → permitted p db id ≡ refused code
      → (call : Call) → serve lib net p db id call ≡ refused code
  unfolding serve
  permitted-refused code h remove = rw h refl
  permitted-refused code h expire = rw h refl
  permitted-refused code h (set_name true name) = rw h refl
  permitted-refused code h (set_name false name) = rw h refl
  permitted-refused code h authorize = rw h refl
  permitted-refused code h (set_key_expiry disabled) = rw h refl
  permitted-refused code h (enable_routes routes replace) = rw h refl
  permitted-refused code h (disable_routes routes) = rw h refl
  permitted-refused code h enable_exit = rw h refl
  permitted-refused code h disable_exit = rw h refl

  -- A user who is not the admin of a machine's tailnet, and no system admin, is refused every call
  -- at the machine.
  pub serve-refused :
      (m : Machine) (call : Call)
      → get_machine db id ≡ some m
      → is_system_admin p ≡ false
      → is_tailnet_admin p m.tailnet_id ≡ some false
      → serve lib net p db id call ≡ refused permission_denied
  unfolding permitted allowed
  serve-refused m call found no_admin other =
      permitted-refused permission_denied (rw found (rw no_admin (rw other refl))) call

  -- Where each id is that of one row, a call of a user who is no system admin leaves the rows of
  -- every tailnet but the user's own as they were.
  pub serve-isolated :
      (call : Call) (db' : Db) (user : User) (t : ℕ)
      → IsKeyed db
      → p.user ≡ some user
      → is_system_admin p ≡ false
      → serve lib net p db id call ≡ answer db'
      → t ≢ user.tailnet_id
      → list_machine_by_tailnet db' t ≡ list_machine_by_tailnet db t
  serve-isolated call db' user t keyed u no_admin h f =
      let (m, found, s) = serve-Step lib net p db id call db' h in
      let (row, granted) = permitted_lem p db id m found in
      let (at, _) = get_machine-Row db id m row in
      let (own, _) = allowed_tailnet p m.tailnet_id user u no_admin granted in
      Step-isolated db m s keyed at (any_row m db.machines at) t (λ e. f (e ∙ sym own))
