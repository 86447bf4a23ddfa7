-- ===== src/Acl/Approval.antt =====
-- internal/domain/acl.go: what `FindAutoApprovedIPs` lets through.
use ionskale.Prelude.{
  String, List, [], ◌∷◌, Bool, true, false, ◌≡◌, refl, subst, ◌⊎◌, inl, inr, Option, none, some,
  some_inj, ==_iff, leb→le, Any, All, any-Any, Any-All, &&-eq-true, Any_witness, All-map,
  All-append, Option-cases, arith, eq_iff, contains, lookup, starts_with, Bool-cases, if◌then◌else◌,
}
use ionskale.Netip.{Addr, Prefix, AddrText, contains_addr}
use ionskale.Netip.Laws.{contains_addr_trans}
use ionskale.Policy.{AclPolicy, AclAutoApprovers}
use ionskale.Machine.{User, is_default_route}
use ionskale.Acl.{
  or_nil, approver_alias, approves, is_auto_approved, approved_routes, add_route, select_approved,
  select_from, find_auto_approved_ips,
}

add_route-All :
    (P : Prefix → Type 0) (approved : Bool) (parsed : Option Prefix) (rest : Option (List Prefix))
    (found : List Prefix)
    → add_route approved parsed rest ≡ some found
    → ((c : Prefix) → parsed ≡ some c → approved ≡ true → P c)
    → ((l : List Prefix) → rest ≡ some l → All P l)
    → All P found
add_route-All P approved none rest found h here later = cc
add_route-All P approved (some c) none found h here later = cc
add_route-All P true (some c) (some l) found h here later =
    subst (All P) (some_inj h) (here c refl refl, later l refl)
add_route-All P false (some c) (some l) found h here later =
    subst (All P) (some_inj h) (later l refl)

-- An approver names a user for a machine: it is the user's name, a group of the policy that lists
-- the name, or one of the machine's tags.
abbrev pub Names : AclPolicy → List String → User → String → Type 0
Names a tags u approver =
    (approver ≡ u.name)
    ⊎ (contains (or_nil (lookup approver a.groups)) u.name ≡ true)
    ⊎ ((starts_with approver "tag:" ≡ true) × (contains tags approver ≡ true))

approver_alias-Names :
    (a : AclPolicy) (tags : List String) (u : User) (approver : String)
    → approver_alias a tags u approver ≡ true
    → Names a tags u approver
unfolding approver_alias
approver_alias-Names a tags u approver h = ground (arith, eq_iff approver u.name)

approves-Names :
    (a : AclPolicy) (tags : List String) (u : User) (approvers : List String)
    → approves a tags u approvers ≡ true
    → Any (Names a tags u) approvers
unfolding approves
approves-Names a tags u [] h = cc
approves-Names a tags u (approver ∷ approvers) h =
    elim (Bool-cases (approver_alias a tags u approver)) [
      | inl e ↦ inl (approver_alias-Names a tags u approver e)
      | inr e ↦ inr (approves-Names a tags u approvers (ground arith))
    ]

module _ (net : AddrText) (a : AclPolicy) (tags : List String) (u : User) where
  -- `p` is the prefix of a route of the policy, and one of its approvers names the user.
  abbrev pub IsApprovedRoute : List (String × List String) → Prefix → Type 0
  IsApprovedRoute routes p =
      Any (λ r. (net.parse_prefix r.0 ≡ some p) × Any (Names a tags u) r.1) routes

  -- `c` is a default route and the exit node approvers apply, or all its addresses lie in one
  -- approved route.
  abbrev pub IsApproved : AclAutoApprovers → Prefix → Type 0
  IsApproved approvers c =
      ((c.bits ≡ 0) × Any (Names a tags u) approvers.exit_node)
      ⊎ ((p : Prefix) × IsApprovedRoute approvers.routes p
          × ((x : Addr) → contains_addr c x ≡ true → contains_addr p x ≡ true))

  approved_routes-All :
      (routes : List (String × List String)) (found : List Prefix)
      → approved_routes net a tags u routes ≡ some found
      → All (IsApprovedRoute routes) found
  unfolding approved_routes
  approved_routes-All [] found h = subst (All _) (some_inj h) tt
  approved_routes-All ((route, approvers) ∷ routes) found h =
      add_route-All (IsApprovedRoute ((route, approvers) ∷ routes)) (approves a tags u approvers)
        (net.parse_prefix route) (approved_routes net a tags u routes) found h
        (λ c parsed ok. inl (parsed, approves-Names a tags u approvers ok))
        (λ rest e. All-map rest (λ p q. inr q) (approved_routes-All routes rest e))

  is_auto_approved-IsApproved :
      (approvers : AclAutoApprovers) (c : Prefix) (found : List Prefix)
      → All (IsApprovedRoute approvers.routes) found
      → is_auto_approved c found ≡ true
      → IsApproved approvers c
  unfolding is_auto_approved
  is_auto_approved-IsApproved approvers c found h e =
      let (p, _, (approved, covers)) =
        Any_witness found (Any-All _ _ found h (any-Any _ found e)) in
      inr (
        p,
        approved,
        λ x.
            contains_addr_trans p c x (leb→le p.bits c.bits (&&-eq-true _ _ covers).0)
              (&&-eq-true _ _ covers).1,
      )

  -- Approved, and among the routes that the machine offers.
  abbrev pub Granted : AclAutoApprovers → List Prefix → Prefix → Type 0
  Granted approvers routable c = IsApproved approvers c × Any (λ r. r ≡ c) routable

  if-All :
      (P : Prefix → Type 0) (b : Bool) (c : Prefix)
      → (b ≡ true → P c)
      → All P (if b then c ∷ [] else [])
  if-All P true c f = (f refl, tt)
  if-All P false c f = tt

  select_approved-All :
      (approvers : AclAutoApprovers) (found routable : List Prefix)
      → All (IsApprovedRoute approvers.routes) found
      → All
          (Granted approvers routable)
          (select_approved (approves a tags u approvers.exit_node) found routable)
  unfolding select_approved
  select_approved-All approvers found [] h = tt
  select_approved-All approvers found (c ∷ cs) h =
      let G : Prefix → Type 0 = Granted approvers (c ∷ cs) in
      let here : Any (λ r. r ≡ c) (c ∷ cs) = inl refl in
      All-append G _ _
        (if-All G _ c λ e. (
          inl (
            (==_iff c.bits 0).0 (&&-eq-true _ _ e).0,
            approves-Names a tags u approvers.exit_node (&&-eq-true (is_default_route c) _ e).1,
          ),
          here,
        ))
        (All-append G _ _
          (if-All G _ c λ e. (is_auto_approved-IsApproved approvers c found h e, here))
          (All-map _ (λ x g. (g.0, inr g.1)) (select_approved-All approvers found cs h)))

  select_from-All :
      (approvers : AclAutoApprovers) (routable : List Prefix)
      → All (Granted approvers routable) (
          select_from
            (approves a tags u approvers.exit_node)
            routable
            (approved_routes net a tags u approvers.routes))
  select_from-All approvers routable =
      elim (Option-cases (approved_routes net a tags u approvers.routes)) [
        | inl e ↦ rw e tt
        | inr (found, e) ↦ rw e (
            select_approved-All approvers found routable
              (approved_routes-All approvers.routes found e))
      ]

-- Every route that is approved on its own is one that the machine offers, and is either a default
-- route where one of the exit node approvers names the user, or lies as a whole in one route of the
-- policy where one of the approvers does. An approver names the user by the user's name, by a group
-- of the policy that lists it, or by a tag that the machine has.
pub find_auto_approved_ips-Granted :
    (net : AddrText) (a : AclPolicy) (routable : List Prefix) (tags : List String) (u : User)
    (approvers : AclAutoApprovers)
    → a.auto_approvers ≡ some approvers
    → All (Granted net a tags u approvers routable) (find_auto_approved_ips net a routable tags u)
unfolding find_auto_approved_ips
find_auto_approved_ips-Granted net a [] tags u approvers h = tt
find_auto_approved_ips-Granted net a (c ∷ cs) tags u approvers h =
    rw h (select_from-All net a tags u approvers (c ∷ cs))
