-- ===== src/Service/Routes.antt =====
-- internal/service/machine.go: which routes a machine has after the calls that edit them.
use ionskale.Prelude.{
  ℕ, String, List, [], Bool, true, false, not, ◌&&◌, ◌||◌, some, ◌≡◌, inl, inr, ap, sym, subst, ◌∙◌,
  All, Any, any, any-Any, Any-All, Any_witness, any_of_Any, Any-map, arith, if◌then◌else◌,
  Bool-cases, ==_iff, some_inj, &&-eq-true,
}
use ionskale.Netip.{Prefix, AddrText, same_prefix}
use ionskale.Machine.{Machine, is_allowed_exit_node, is_default_route, is_advertised_exit_node}
use ionskale.AllowIps.{
  has_prefix, put_all, add_prefixes, new_allow_ips_set, remove_prefixes, prefixes,
}
use ionskale.AllowIps.Members.{
  same_prefix_eq, same_prefix_refl, has_prefix-put_all, has_prefix-drop_all,
}
use ionskale.Lock.Db.{Db, save_machine, notify_all}
use ionskale.Store.{get_machine}
use ionskale.Store.Rows.{get_machine-Row, get_machine-save_machine}
use ionskale.Identity.{Principal}
use ionskale.Service.{answer, or_internal, demand, permitted, save_and_notify, invalid_argument}
use ionskale.Service.Machines.{
  MachineRoutes, with_routes, parse_all, exit_prefixes, enable_machine_routes,
  disable_machine_routes, disable_exit_node,
}
use ionskale.Service.Answers.{>>=-answer, answer_inj, or_internal-answer}
use ionskale.Service.Steps.{permitted_lem}

-- What the set that is made of a list holds, and what is left after a removal.
has_prefix-new :
    (ps : List Prefix) (q : Prefix)
    → has_prefix (prefixes (new_allow_ips_set ps)) q ≡ has_prefix ps q
unfolding prefixes new_allow_ips_set add_prefixes has_prefix
has_prefix-new ps q = has_prefix-put_all [] ps q

has_prefix-added :
    (ps added : List Prefix) (q : Prefix)
    → has_prefix (prefixes (add_prefixes (new_allow_ips_set ps) added)) q
      ≡ (has_prefix ps q || has_prefix added q)
unfolding prefixes new_allow_ips_set add_prefixes has_prefix
has_prefix-added ps added q =
    has_prefix-put_all (put_all [] ps) added q
    ∙ ap (λ b. b || has_prefix added q) (has_prefix-put_all [] ps q)

has_prefix-removed :
    (ps gone : List Prefix) (q : Prefix)
    → has_prefix (prefixes (remove_prefixes (new_allow_ips_set ps) gone)) q
      ≡ (has_prefix ps q && not (has_prefix gone q))
unfolding prefixes new_allow_ips_set add_prefixes remove_prefixes has_prefix
has_prefix-removed ps gone q =
    has_prefix-drop_all (put_all [] ps) gone q
    ∙ ap (λ b. b && not (has_prefix gone q)) (has_prefix-put_all [] ps q)

-- The edited row is the row that is read.
pub get_machine-edited :
    (db : Db) (id : ℕ) (m m' : Machine) (db' : Db)
    → get_machine db id ≡ some m
    → m'.id ≡ id
    → save_and_notify db m' ≡ db'
    → get_machine db' id ≡ some m'
unfolding save_and_notify notify_all get_machine
get_machine-edited db id m m' db' found is_id e =
    subst (λ d. get_machine d id ≡ some m') e
      (subst (λ i. get_machine (save_machine db m') i ≡ some m') is_id
        (get_machine-save_machine db m' m
          (subst (λ i. get_machine db i ≡ some m) (sym is_id) found)))

saved_routes :
    (net : AddrText) (db : Db) (id : ℕ) (m : Machine) (allow auto : List Prefix) (r : MachineRoutes)
    (db' : Db)
    → get_machine db id ≡ some m
    → with_routes net db m allow auto ≡ answer (r, db')
    → get_machine db' id ≡ some (record m { allow_ips = allow; auto_allow_ips = auto })
saved_routes net db id m allow auto r db' found h =
    let (_, is_id) = get_machine-Row db id m found in
    get_machine-edited db id m (record m { allow_ips = allow; auto_allow_ips = auto }) db' found
      is_id (ap (λ s. s.1) (answer_inj h))

enabled :
    (replace : Bool) (ps added : List Prefix) (q : Prefix)
    → has_prefix
        (prefixes
          (add_prefixes (if replace then new_allow_ips_set [] else new_allow_ips_set ps) added))
        q
      ≡ ((not replace && has_prefix ps q) || has_prefix added q)
unfolding has_prefix
enabled true ps added q = has_prefix-added [] added q
enabled false ps added q = has_prefix-added ps added q

reset :
    (replace : Bool) (ps : List Prefix) (q : Prefix)
    → has_prefix (prefixes (if replace then new_allow_ips_set [] else new_allow_ips_set ps)) q
      ≡ (not replace && has_prefix ps q)
unfolding has_prefix
reset true ps q = has_prefix-new [] q
reset false ps q = has_prefix-new ps q

-- The routes that are left after the two default routes are removed.
abbrev left : List Prefix → List Prefix
left ps = prefixes (remove_prefixes (new_allow_ips_set ps) exit_prefixes)

-- A route of no bits is 0.0.0.0/0 or ::/0.
abbrev pub IsPlain : Prefix → Type 0
IsPlain q = q.bits ≡ 0 → has_prefix exit_prefixes q ≡ true

neither : {a b : Bool} → a ≡ false → b ≡ false → (a || b) ≡ false
neither e f = ground arith

has_prefix_of_Any : (q : Prefix) (ps : List Prefix) → Any (λ r. r ≡ q) ps → has_prefix ps q ≡ true
unfolding has_prefix
has_prefix_of_Any q ps at =
    any_of_Any (λ r. same_prefix r q) ps
      (Any-map ps (λ r e. subst (λ s. same_prefix s q ≡ true) (sym e) (same_prefix_refl q)) at)

IsPlain-has_prefix :
    (q : Prefix) (ps : List Prefix) → All IsPlain ps → has_prefix ps q ≡ true → IsPlain q
unfolding has_prefix
IsPlain-has_prefix q ps plain h =
    let (r, _, (is_plain, same)) = Any_witness ps (
      Any-All IsPlain (λ r. same_prefix r q ≡ true) ps plain
        (any-Any (λ r. same_prefix r q) ps h)) in
    subst IsPlain (same_prefix_eq r q same) is_plain

-- No default route is left after the two are removed.
no_default : (ps : List Prefix) → All IsPlain ps → any is_default_route (left ps) ≡ false
no_default ps plain = elim (Bool-cases (any is_default_route (left ps))) [
  | inl e ↦ absurd (left_over e)
  | inr e ↦ e
]
  where
    left_over : any is_default_route (left ps) ≡ true → ⊥
    left_over e =
        let (q, at, is_default) = Any_witness (left ps) (any-Any is_default_route (left ps) e) in
        let here = has_prefix_of_Any q (left ps) at in
        let (was, gone) =
          &&-eq-true (has_prefix ps q) _ (sym (has_prefix-removed ps exit_prefixes q) ∙ here) in
        let exit = IsPlain-has_prefix q ps plain was (ground (arith, ==_iff q.bits 0)) in
        ground arith

module _ (net : AddrText) (p : Principal) (db : Db) (id : ℕ) where
  -- After `EnableMachineRoutes` answers, the machine has its own routes and the ones of the request,
  -- or only the latter where they replace; and its approved routes, or none where they replace.
  pub enable_machine_routes-has_prefix :
      (routes : List String) (replace : Bool) (r : MachineRoutes) (db' : Db)
      → enable_machine_routes net p db id routes replace ≡ answer (r, db')
      → (m m' : Machine) × (added : List Prefix) × (get_machine db id ≡ some m)
        × (get_machine db' id ≡ some m')
        × (parse_all net.parse_prefix routes ≡ some added)
        × ((q : Prefix)
            → has_prefix m'.allow_ips q
              ≡ ((not replace && has_prefix m.allow_ips q) || has_prefix added q))
        × ((q : Prefix)
            → has_prefix m'.auto_allow_ips q ≡ (not replace && has_prefix m.auto_allow_ips q))
  unfolding enable_machine_routes
  enable_machine_routes-has_prefix routes replace r db' h =
      let (m, found, h1) = >>=-answer (permitted p db id) _ (r, db') h in
      let (added, parsed, h2) =
        >>=-answer (or_internal (parse_all net.parse_prefix routes)) _ (r, db') h1 in
      let (row, _) = permitted_lem p db id m found in
      (
        m,
        _,
        added,
        row,
        saved_routes net db id m _ _ r db' row h2,
        or_internal-answer (parse_all net.parse_prefix routes) added parsed,
        enabled replace m.allow_ips added,
        reset replace m.auto_allow_ips,
      )

  -- After `DisableMachineRoutes` answers, no route of the request is left, whether an admin or the
  -- policy enabled it, and the other routes are as before.
  pub disable_machine_routes-has_prefix :
      (routes : List String) (r : MachineRoutes) (db' : Db)
      → disable_machine_routes net p db id routes ≡ answer (r, db')
      → (m m' : Machine) × (gone : List Prefix) × (get_machine db id ≡ some m)
        × (get_machine db' id ≡ some m')
        × (parse_all net.parse_prefix routes ≡ some gone)
        × ((q : Prefix)
            → has_prefix m'.allow_ips q ≡ (has_prefix m.allow_ips q && not (has_prefix gone q)))
        × ((q : Prefix)
            → has_prefix m'.auto_allow_ips q
              ≡ (has_prefix m.auto_allow_ips q && not (has_prefix gone q)))
  unfolding disable_machine_routes
  disable_machine_routes-has_prefix routes r db' h =
      let (m, found, h1) = >>=-answer (permitted p db id) _ (r, db') h in
      let (gone, parsed, h2) =
        >>=-answer (or_internal (parse_all net.parse_prefix routes)) _ (r, db') h1 in
      let (row, _) = permitted_lem p db id m found in
      (
        m,
        _,
        gone,
        row,
        saved_routes net db id m _ _ r db' row h2,
        or_internal-answer (parse_all net.parse_prefix routes) gone parsed,
        has_prefix-removed m.allow_ips gone,
        has_prefix-removed m.auto_allow_ips gone,
      )

  -- Where the only default routes among a machine's routes are 0.0.0.0/0 and ::/0, the machine is no exit
  -- node after `DisableExitNode` answers.
  pub disable_exit_node-is_allowed_exit_node :
      (r : MachineRoutes) (db' : Db) (m : Machine)
      → get_machine db id ≡ some m
      → All IsPlain m.allow_ips
      → All IsPlain m.auto_allow_ips
      → disable_exit_node net p db id ≡ answer (r, db')
      → (m' : Machine) × (get_machine db' id ≡ some m') × (is_allowed_exit_node m' ≡ false)
  unfolding disable_exit_node is_allowed_exit_node
  disable_exit_node-is_allowed_exit_node r db' m row plain auto_plain h =
      let (n, found, h1) = >>=-answer (permitted p db id) _ (r, db') h in
      let (_, _, h2) =
        >>=-answer (demand (is_advertised_exit_node n) invalid_argument) _ (r, db') h1 in
      let (row', _) = permitted_lem p db id n found in
      let same : m ≡ n = some_inj (sym row ∙ row') in
      (
        _,
        saved_routes net db id n (left n.allow_ips) (left n.auto_allow_ips) r db' row' h2,
        neither (no_default n.allow_ips (subst (λ k. All IsPlain k.allow_ips) same plain)) (
            no_default n.auto_allow_ips
              (subst (λ k. All IsPlain k.auto_allow_ips) same auto_plain)),
      )
