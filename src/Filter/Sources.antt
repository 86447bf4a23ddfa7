-- ===== src/Filter/Sources.antt =====
-- internal/domain/acl_filter_rules.go: whose addresses the sources of a rule hold.
use ionskale.Prelude.{
  String, List, [], ◌∷◌, Bool, true, false, ◌||◌, ◌≡◌, Option, some, arith, eq_iff, some-contains,
  not-empty_of_contains, Any, Any-map, Any_witness, any-Any, any_swap, any, contains, is_empty,
  Bool-cases, inl, inr, ◌⊎◌, sym, none, ◌&&◌, lookup, str_eq, starts_with, not, if◌then◌else◌,
  &&-eq-true, ◌++◌, refl,
}
use ionskale.Netip.{Addr, AddrText}
use ionskale.Policy.{AclPolicy}
use ionskale.StringSet.{StringSet, empty, add, items}
use ionskale.StringSet.Laws.{contains-items-add}
use ionskale.Machine.{
  Machine, User, has_tags, has_user, has_ip, has_tag, ips, allowed_prefixes, is_exit_node,
}
use ionskale.Acl.{machine_owned_by, is_group_member}
use ionskale.Filter.Aliases.{
  translate_source_alias_to_machine_ips, translate_alias_to_machine_ips, source_literal, own_addr,
  host_or_self, source_for_any, autogroup_internet_ranges,
}
use ionskale.Filter.Rules.{add_peers, add_sources, source_ips}
use ionskale.Filter.Peers.{some_source}

module _ (net : AddrText) (a : AclPolicy) (u : Option User) (x : String) where
  abbrev gives : String → Machine → Bool
  gives alias peer = contains (translate_source_alias_to_machine_ips net a alias peer u) x

  contains-add_peers :
      (alias : String) (s : StringSet) (peers : List Machine)
      → contains (items (add_peers net a alias u s peers)) x
        ≡ (contains (items s) x || any (gives alias) peers)
  unfolding add_peers
  contains-add_peers alias s [] = ground arith
  contains-add_peers alias s (peer ∷ peers) =
      let found = translate_source_alias_to_machine_ips net a alias peer u in
      ground (arith, contains-add_peers alias (add s found) peers, contains-items-add s found x)

  contains-add_sources :
      (peers : List Machine) (s : StringSet) (aliases : List String)
      → contains (items (add_sources net a peers u s aliases)) x
        ≡ (contains (items s) x || any (λ alias. any (gives alias) peers) aliases)
  unfolding add_sources
  contains-add_sources peers s [] = ground arith
  contains-add_sources peers s (alias ∷ aliases) = ground (
    arith,
    contains-add_sources peers (add_peers net a alias u s peers) aliases,
    contains-add_peers alias s peers,
  )

  -- The sources of a rule are the texts that some alias stands for at some peer, and no others.
  pub contains-source_ips :
      (peers : List Machine) (aliases : List String)
      → contains (source_ips net a peers u aliases) x
        ≡ any
            (λ alias.
              any
                (λ peer. contains (translate_source_alias_to_machine_ips net a alias peer u) x)
                peers)
            aliases
  unfolding source_ips items contains
  contains-source_ips peers aliases = contains-add_sources peers empty aliases

module _ (net : AddrText) (a : AclPolicy) where
  some_source_of_gives :
      (u : Option User) (x : String) (peer : Machine) (aliases : List String)
      → any (λ alias. gives net a u x alias peer) aliases ≡ true
      → some_source net a peer u aliases ≡ true
  unfolding some_source
  some_source_of_gives u x peer [] h = cc
  some_source_of_gives u x peer (alias ∷ aliases) h = ground (
    arith,
    some_source_of_gives u x peer aliases,
    not-empty_of_contains (translate_source_alias_to_machine_ips net a alias peer u) x,
  )

  -- A set of sources that is not empty has some from a peer for which an alias stands.
  pub source_ips-some_source :
      (u : Option User) (peers : List Machine) (aliases : List String)
      → is_empty (source_ips net a peers u aliases) ≡ false
      → Any (λ peer. some_source net a peer u aliases ≡ true) peers
  source_ips-some_source u peers aliases h =
      let (x, found) = some-contains _ h in
      let seen = contains-source_ips net a u x peers aliases in
      Any-map peers (λ peer e. some_source_of_gives u x peer aliases e)
        (any_swap (gives net a u x) aliases peers (rw (← seen) found))

  -- `x` is one of the texts that an alias can stand for at a machine: the text of one of its
  -- addresses, of a route that it is allowed for the alias "*", of a range of the internet for
  -- autogroup:internet at an exit node, or of everything for autogroup:danger-all.
  pub data IsTextAt (alias : String) (m : Machine) (x : String) : Type 0 where
    address : contains (ips net m) x ≡ true → IsTextAt alias m x
    literal : (ip : Addr) → has_ip m ip ≡ true → x ≡ net.addr_text ip → IsTextAt alias m x
    route : alias ≡ "*" → contains (allowed_prefixes net m) x ≡ true → IsTextAt alias m x
    range :
        alias ≡ "autogroup:internet"
        → is_exit_node m ≡ true
        → contains autogroup_internet_ranges x ≡ true
        → IsTextAt alias m x
    everything :
        alias ≡ "autogroup:danger-all" → (x ≡ "0.0.0.0/0") ⊎ (x ≡ "::/0") → IsTextAt alias m x

  literal-IsTextAt :
      (alias x : String) (m : Machine) (ip : Option Addr)
      → contains (own_addr net m ip) x ≡ true
      → IsTextAt alias m x
  unfolding contains
  literal-IsTextAt alias x m none h = cc
  literal-IsTextAt alias x m (some ip) h = elim (Bool-cases (has_ip m ip)) [
    | inl e ↦ literal ip e (
        sym (
          (eq_iff (net.addr_text ip) x).0
            (let z : contains (net.addr_text ip ∷ []) x ≡ true = (rw e at h) in ground arith)))
    | inr e ↦ (let z : contains [] x ≡ true = (rw e at h) in cc)
  ]

  -- The lists among which the tests of `translateAliasToMachineIPs` choose.
  chosen :
      (x : String) (is_member tagged is_tagged internet owned member has : Bool)
      (own ranges rest : List String)
      → contains
          (if is_member
            then (if not tagged then own else [])
            else if is_tagged
            then (if tagged then own else [])
            else if internet
            then ranges
            else if owned
            then own
            else if member
            then own
            else if has
            then own
            else rest)
          x
        ≡ true
      → (contains own x ≡ true)
        ⊎ ((internet ≡ true) × (contains ranges x ≡ true))
        ⊎ (contains rest x ≡ true)
  unfolding contains
  chosen x is_member tagged is_tagged internet owned member has own ranges rest h = ground arith

  translated :
      (alias x : String) (m : Machine)
      → contains (translate_alias_to_machine_ips net a alias m (source_literal net)) x ≡ true
      → IsTextAt alias m x
  unfolding translate_alias_to_machine_ips source_literal
  translated alias x m h =
      elim (chosen x _ (has_tags m) _ (str_eq alias "autogroup:internet" && is_exit_node m)
        (machine_owned_by net a alias m)
        (starts_with alias "group:" && not (has_tags m) && is_group_member a alias m)
        (starts_with alias "tag:" && has_tag m alias) (ips net m) autogroup_internet_ranges
        (own_addr net m (net.parse_addr (host_or_self (lookup alias a.hosts) alias))) h) [
          | inl own ↦ address own
          | inr (inl (internet, found)) ↦
              let (named, exit) = &&-eq-true (str_eq alias "autogroup:internet") _ internet in
              range ((eq_iff alias "autogroup:internet").0 named) exit found
          | inr (inr found) ↦
              literal-IsTextAt alias x m
                (net.parse_addr (host_or_self (lookup alias a.hosts) alias)) found
        ]

  contains-append :
      (x : String) (xs ys : List String) → contains (xs ++ ys) x ≡ (contains xs x || contains ys x)
  unfolding contains
  contains-append x [] ys = refl
  contains-append x (y ∷ xs) ys = ground (arith, contains-append x xs ys)

  all_texts :
      (x : String)
      → contains ("0.0.0.0/0" ∷ "::/0" ∷ []) x ≡ true
      → (x ≡ "0.0.0.0/0") ⊎ (x ≡ "::/0")
  unfolding contains
  all_texts x h = ground (arith, eq_iff "0.0.0.0/0" x, eq_iff "::/0" x)

  any_source :
      (alias x : String) (m : Machine)
      → contains (source_for_any net a alias m) x ≡ true
      → IsTextAt alias m x
  any_source alias x m h = elim (Bool-cases (str_eq alias "*")) [
    | inl e ↦
        let both : contains (ips net m ++ allowed_prefixes net m) x ≡ true = (rw e at h) in
        elim (Bool-cases (contains (ips net m) x)) [
          | inl own ↦ address own
          | inr other ↦
              route ((eq_iff alias "*").0 e)
                (ground (arith, contains-append x (ips net m) (allowed_prefixes net m)))
        ]
    | inr e ↦ elim (Bool-cases (str_eq alias "autogroup:danger-all")) [
      | inl f ↦
          everything ((eq_iff alias "autogroup:danger-all").0 f) (all_texts x (rw (e, f) at h))
      | inr f ↦ translated alias x m (rw (e, f) at h)
    ]
  ]

  self_source :
      (u : User) (x alias : String) (peer : Machine)
      → gives net a (some u) x alias peer ≡ true
      → (has_tags peer ≡ false) × (peer.user.name ≡ u.name) × IsTextAt alias peer x
  unfolding translate_source_alias_to_machine_ips has_user contains
  self_source u x alias peer h = (
    (ground arith),
    (ground (arith, eq_iff peer.user.name u.name)),
    any_source alias x peer (ground arith),
  )

  -- A machine without tags of the user, and the text is one that one of the aliases can stand for
  -- at it.
  abbrev pub IsSelfSource : User → String → List String → Machine → Type 0
  IsSelfSource u x aliases peer =
      (has_tags peer ≡ false)
      × (peer.user.name ≡ u.name)
      × Any (λ alias. IsTextAt alias peer x) aliases

  -- Where the sources are those of one user, each of them is for some untagged machine of this user
  -- and some alias of the rule the text of an address of the machine; or, for the alias "*", of a
  -- route that the machine is allowed, for autogroup:internet, of a range of the internet where the
  -- machine is an exit node, and for autogroup:danger-all, 0.0.0.0/0 or ::/0.
  pub source_ips-IsSelfSource :
      (u : User) (x : String) (peers : List Machine) (aliases : List String)
      → contains (source_ips net a peers (some u) aliases) x ≡ true
      → Any (IsSelfSource u x aliases) peers
  source_ips-IsSelfSource u x peers aliases h =
      let seen = contains-source_ips net a (some u) x peers aliases in
      Any-map peers
        (λ peer e.
          let given = any-Any _ aliases e in
          let (alias, _, found) = Any_witness aliases given in
          let (untagged, same, _) = self_source u x alias peer found in
          (untagged, same, (Any-map aliases (λ b g. (self_source u x b peer g).2) given)))
        (any_swap (gives net a (some u) x) aliases peers (rw (← seen) h))
